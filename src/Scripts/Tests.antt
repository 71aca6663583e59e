-- ===== src/Scripts/Tests.antt =====
-- src/ssh/script_runner.rs: runs, and the theorems at one script.
use ssh_control.Prelude.{zero, suc, ◌≡◌, refl, [], ◌∷◌, map, none, codes}
use ssh_control.Errors.{ssh}
use ssh_control.Sftp.Utf8.{from_utf8_lossy, read_lossy}
use ssh_control.Scripts.{
  always, on_failure, ScriptStep, ran, skipped, step_started, step_error, data_msg, exit_status,
  close, refused, ended, Handle, run_step, run_from, one_step, run_script, receive, should_run,
}
use ssh_control.Scripts.Chains.{run_script-refused, skip_events}

abbrev build_step : ScriptStep
build_step = record { command = codes "make"; condition = always; timeout_secs = none }

abbrev report : ScriptStep
report = record { command = codes "mail"; condition = on_failure; timeout_secs = none }

-- The first command fails with code 2, and the second ends well.
abbrev failing : Handle
failing zero command timeout = ended (data_msg (codes "no") ∷ exit_status 2 ∷ close ∷ [])
failing (suc index) command timeout = ended (exit_status 0 ∷ close ∷ [])

both_run : (run_script failing (build_step ∷ report ∷ [])).1 ≡ ran 2 (codes "no") ∷ ran 0 [] ∷ []
unfolding run_script run_from one_step run_step receive should_run from_utf8_lossy read_lossy
both_run = refl

abbrev dropped : Handle
dropped index command timeout = refused (ssh (codes "gone"))

run_script-refused_example : run_script dropped (build_step ∷ report ∷ []) ≡ (
  step_started 0 (codes "make") ∷ step_error 0 (ssh (codes "gone")) ∷ skip_events 1 (report ∷ []),
  skipped ∷ map (λ _. skipped) (report ∷ []),
)
run_script-refused_example =
    run_script-refused dropped build_step (report ∷ []) (ssh (codes "gone")) refl ((λ h. cc), tt)
