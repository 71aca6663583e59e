-- ===== src/Scripts.antt =====
-- src/ssh/script_runner.rs: running the steps of a script one after the other. The connection is a
-- parameter: what each command's channel delivers until it closes or its time is over.
pub mod Chains
mod Tests
use ssh_control.Prelude.{
  ℕ, zero, suc, ◌+◌, Bytes, List, [], ◌∷◌, ◌++◌, Bool, true, false, not, ◌&&◌, ◌||◌, ◌==◌,
  if◌then◌else◌, Option, some, none,
}
use ssh_control.Errors.{AppError}
use ssh_control.Sftp.Utf8.{from_utf8_lossy}

abbrev pub step_timeout : ℕ
step_timeout = 120

abbrev pub timeout_exit_code : ℕ
timeout_exit_code = 124

pub data StepCondition : Type 0 where
  always on_success on_failure : StepCondition
  output_contains : Bytes → StepCondition

pub record ScriptStep : Type 0 where
  pub command : Bytes
  pub condition : StepCondition
  pub timeout_secs : Option ℕ

-- The result of one step; an exit code is the 32 bits of the server's.
pub data StepStatus : Type 0 where
  ran : ℕ → Bytes → StepStatus
  skipped : StepStatus

pub data RunEvent : Type 0 where
  step_started : ℕ → Bytes → RunEvent
  output_chunk : ℕ → Bytes → RunEvent
  step_finished : ℕ → ℕ → RunEvent
  step_skipped : ℕ → RunEvent
  step_error : ℕ → AppError → RunEvent
  step_timed_out : ℕ → ℕ → RunEvent

-- The messages of a channel that the runner tells apart.
pub data ChannelMsg : Type 0 where
  data_msg extended_data : Bytes → ChannelMsg
  exit_status : ℕ → ChannelMsg
  close eof_or_other : ChannelMsg

-- What running a command on a fresh channel came to: the channel fails to open or to start, or it
-- delivers messages, after which it either ends or is silent until the time is over.
pub data Exec : Type 0 where
  refused : AppError → Exec
  ended silent : List ChannelMsg → Exec

-- The command and its timeout in seconds.
abbrev pub Handle : Type 0
Handle = ℕ → Bytes → ℕ → Exec

pub data StepOutcome : Type 0 where
  finished : ℕ → Bytes → StepOutcome
  timed_out : Bytes → StepOutcome
  failed : AppError → StepOutcome

-- What the loop has when it stops: the chunks passed on, the exit code, and whether `close` came.
pub record Received : Type 0 where
  pub chunks : List Bytes
  pub exit_code : ℕ
  pub closed : Bool

-- The loop over `channel.wait()`, up to `close`.
unfoldable pub receive : List ChannelMsg → ℕ → Received
receive [] exit_code = record { chunks = []; exit_code = exit_code; closed = false }
receive (data_msg d ∷ msgs) exit_code =
    let rest = receive msgs exit_code in record rest { chunks = d ∷ rest.chunks }
receive (extended_data d ∷ msgs) exit_code =
    let rest = receive msgs exit_code in record rest { chunks = d ∷ rest.chunks }
receive (exit_status n ∷ msgs) exit_code = receive msgs n
receive (close ∷ msgs) exit_code = record { chunks = []; exit_code = exit_code; closed = true }
receive (eof_or_other ∷ msgs) exit_code = receive msgs exit_code

abbrev pub concat : List Bytes → Bytes
concat [] = []
concat (b ∷ bs) = b ++ concat bs

abbrev pub chunk_events : ℕ → List Bytes → List RunEvent
chunk_events index [] = []
chunk_events index (b ∷ bs) = output_chunk index b ∷ chunk_events index bs

unfoldable pub run_step : ℕ → Exec → List RunEvent × StepOutcome
run_step index (refused e) = ([], failed e)
run_step index (ended msgs) =
    let r = receive msgs 0 in
    (chunk_events index r.chunks, finished r.exit_code (from_utf8_lossy (concat r.chunks)))
run_step index (silent msgs) =
    let r = receive msgs 0 in
    let output = from_utf8_lossy (concat r.chunks) in
    (
      chunk_events index r.chunks,
      if r.closed then finished r.exit_code output else timed_out output,
    )

-- `output.contains(needle)`
abbrev pub starts_with : Bytes → Bytes → Bool
starts_with [] text = true
starts_with (n ∷ needle) [] = false
starts_with (n ∷ needle) (t ∷ text) = n == t && starts_with needle text

abbrev pub contains : Bytes → Bytes → Bool
contains needle [] = starts_with needle []
contains needle (t ∷ text) = starts_with needle (t ∷ text) || contains needle text

unfoldable pub should_run : StepCondition → Option StepStatus → Bool
should_run always prev = true
should_run on_success (some (ran code output)) = code == 0
should_run on_failure (some (ran code output)) = not (code == 0)
should_run (output_contains needle) (some (ran code output)) = contains needle output
should_run on_success _ = false
should_run on_failure _ = false
should_run (output_contains needle) _ = false

-- `results.last()`
abbrev pub last : List StepStatus → Option StepStatus
last [] = none
last (r ∷ []) = some r
last (r ∷ (s ∷ rest)) = last (s ∷ rest)

abbrev pub seconds : ScriptStep → ℕ
seconds step = elim step.timeout_secs [ some n ↦ n | none ↦ step_timeout ]

-- The last event of a step that ran, and the status that it is recorded with.
abbrev pub record_outcome : ℕ → ℕ → StepOutcome → RunEvent × StepStatus
record_outcome index timeout (finished code output) = (step_finished index code, ran code output)
record_outcome index timeout (timed_out output) =
    (step_timed_out index timeout, ran timeout_exit_code output)
record_outcome index timeout (failed e) = (step_error index e, skipped)

-- One round of the loop of `run_script`: its events and its result.
unfoldable pub one_step : Handle → ℕ → ScriptStep → Option StepStatus → List RunEvent × StepStatus
one_step handle index step prev =
    let timeout = seconds step in
    let (events, outcome) = run_step index (handle index step.command timeout) in
    let (event, status) = record_outcome index timeout outcome in
    if not (index == 0) && not (should_run step.condition prev)
    then (step_skipped index ∷ [], skipped)
    else (step_started index step.command ∷ (events ++ event ∷ []), status)

-- The loop: the steps that are left, with the results so far.
unfoldable pub run_from :
    Handle → ℕ → List ScriptStep → List StepStatus → List RunEvent × List StepStatus
run_from handle index [] results = ([], results)
run_from handle index (step ∷ steps) results =
    let (events, status) = one_step handle index step (last results) in
    let (later, all) = run_from handle (suc index) steps (results ++ status ∷ []) in
    (events ++ later, all)

unfoldable pub run_script : Handle → List ScriptStep → List RunEvent × List StepStatus
run_script handle steps = run_from handle 0 steps []
