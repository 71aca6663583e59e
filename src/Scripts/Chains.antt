-- ===== src/Scripts/Chains.antt =====
-- src/ssh/script_runner.rs: how the steps of a script follow from one another.
use ssh_control.Prelude.{
  ℕ, suc, ◌≡◌, ◌≢◌, refl, ap, List, [], ◌∷◌, ◌++◌, map, append_assoc, append-nil, false, ◌==◌, some,
  All, arith,
}
use ssh_control.Scripts.{
  StepCondition, always, on_success, on_failure, output_contains, ScriptStep, StepStatus, skipped,
  RunEvent, step_skipped, Handle, should_run, last, one_step, run_from, run_script, refused,
  seconds, step_started, step_error, run_step,
}
use ssh_control.Errors.{AppError}

-- The condition of the step asks for something of the one before.
abbrev pub Conditional : ScriptStep → Type 0
Conditional step = step.condition ≢ always

after_skip : (c : StepCondition) → c ≢ always → should_run c (some skipped) ≡ false
unfolding should_run
after_skip always h = absurd (h refl)
after_skip on_success h = refl
after_skip on_failure h = refl
after_skip (output_contains needle) h = refl

last-append : (results : List StepStatus) (r : StepStatus) → last (results ++ r ∷ []) ≡ some r
last-append [] r = refl
last-append (s ∷ []) r = refl
last-append (s ∷ (t ∷ results)) r = last-append (t ∷ results) r

one_step-skipped :
    (handle : Handle) (index : ℕ) (step : ScriptStep)
    → Conditional step
    → one_step handle (suc index) step (some skipped) ≡ (step_skipped (suc index) ∷ [], skipped)
unfolding one_step
one_step-skipped handle index step h =
    let not_first : (suc index == 0) ≡ false = ground arith in
    rw (after_skip step.condition h) (rw not_first refl)

-- What skipped steps leave: an event each, and a result each.
abbrev pub skip_events : ℕ → List ScriptStep → List RunEvent
skip_events index [] = []
skip_events index (step ∷ steps) = step_skipped index ∷ skip_events (suc index) steps

run_from-skipped :
    (handle : Handle) (index : ℕ) (steps : List ScriptStep) (results : List StepStatus)
    → last results ≡ some skipped
    → All Conditional steps
    → run_from handle (suc index) steps results
      ≡ (skip_events (suc index) steps, results ++ map (λ _. skipped) steps)
unfolding run_from
run_from-skipped handle index [] results prev all = rw append-nil refl
run_from-skipped handle index (step ∷ steps) results prev (p, all) =
    let later =
      run_from-skipped handle (suc index) steps (results ++ skipped ∷ [])
        (last-append results skipped) all in
    rw prev (
      rw (one_step-skipped handle index step p) (
        rw later (
          ap (λ (r : List StepStatus). (skip_events (suc index) (step ∷ steps), r))
            (append_assoc results (skipped ∷ []) (map (λ _. skipped) steps)))))

-- Where the channel of the first step fails, and no later step is unconditional, no other command is
-- run: the step is reported with its error, every later one as skipped, and no result says that a step
-- ran.
pub run_script-refused :
    (handle : Handle) (step : ScriptStep) (steps : List ScriptStep) (e : AppError)
    → handle 0 step.command (seconds step) ≡ refused e
    → All Conditional steps
    → run_script handle (step ∷ steps) ≡ (
      step_started 0 step.command ∷ step_error 0 e ∷ skip_events 1 steps,
      skipped ∷ map (λ _. skipped) steps,
    )
unfolding run_script run_from one_step run_step
run_script-refused handle step steps e h all =
    rw h (rw (run_from-skipped handle 0 steps (skipped ∷ []) refl all) refl)
