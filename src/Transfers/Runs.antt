-- ===== src/Transfers/Runs.antt =====
-- src/ssh/transfer.rs: running a plan, item after item.
use ssh_control.Prelude.{
  ℕ, suc, Bytes, List, [], ◌∷◌, ◌++◌, Bool, true, false, if◌then◌else◌, Option, some, none, ok, err,
  panic,
}
use ssh_control.Errors.{Result, AppError}
use ssh_control.Transfers.{
  Direction, TransferItem, TransferPlan, TransferEvent, item_started, item_finished, item_skipped,
  item_failed, TransferSummary, SkipReason, Ends, add_u64, display_name,
}
use ssh_control.Transfers.Copy.{Copying, copy_file, ensure_dir}

pub record Running (W : Type 0) : Type 0 where
  pub copying : Copying W
  pub summary : TransferSummary

abbrev pub empty_summary : TransferSummary
empty_summary = record { files = 0; bytes = 0; skipped = 0; failures = []; cancelled = false }

abbrev pub cancel : {W : Type 0} → Running W → Running W
cancel s = record s { summary = record s.summary { cancelled = true } }

abbrev pub count_skipped : {W : Type 0} → Running W → Running W
count_skipped s = record s { summary = record s.summary { skipped = suc s.summary.skipped } }

abbrev pub count_file : {W : Type 0} → ℕ → Running W → Running W
count_file size s = record s {
  summary = record s.summary { files = suc s.summary.files; bytes = add_u64 s.summary.bytes size };
}

abbrev pub count_failure : {W : Type 0} → Bytes → AppError → Running W → Running W
count_failure name e s = record s {
  summary = record s.summary { failures = s.summary.failures ++ ((name, e) ∷ []) };
}

-- What an item comes to: the loop goes on or returns. `stuck` is a copy that its fuel does not see to
-- the end.
pub data Next : Type 0 where
  go_on return_now stuck : Next

module _ {W Handle File : Type 0} (ends : Ends W Handle File) where
  -- An event, after which a stop ends the run as cancelled.
  unfoldable pub tell : TransferEvent → Running W → Running W × Next
  tell event s =
      let (w, stop) = ends.on_event event s.copying.world in
      let s = record s { copying = record s.copying { world = w } } in
      if stop then (cancel s, return_now) else (s, go_on)

  unfoldable pub fail_item : ℕ → TransferItem → AppError → Running W → Running W × Next
  fail_item index item e s =
      tell (item_failed index (display_name item) e) (count_failure (display_name item) e s)

  unfoldable pub skip_item : ℕ → SkipReason → Running W → Running W × Next
  skip_item index reason s = tell (item_skipped index reason) (count_skipped s)

  unfoldable pub after_ensure :
      ℕ → TransferItem → W × Result (Unit {0}) → Running W → Running W × Next
  after_ensure index item (w, ok done) s =
      (record s { copying = record s.copying { world = w } }, go_on)
  after_ensure index item (w, err e) s =
      fail_item index item e (record s { copying = record s.copying { world = w } })
  after_ensure index item (w, panic) s =
      (record s { copying = record s.copying { world = w } }, stuck)

  unfoldable pub run_dir : Direction → ℕ → TransferItem → Running W → Running W × Next
  run_dir direction index item s =
      after_ensure index item (ensure_dir ends direction item.dst s.copying.world) s

  unfoldable pub after_copy :
      ℕ → TransferItem → Copying W × Result Bool → Running W → Running W × Next
  after_copy index item (c, ok true) s =
      tell (item_finished index) (count_file item.size (record s { copying = c }))
  after_copy index item (c, ok false) s = (cancel (record s { copying = c }), return_now)
  after_copy index item (c, err e) s = fail_item index item e (record s { copying = c })
  after_copy index item (c, panic) s = (record s { copying = c }, stuck)

  -- The copy, unless the start of the item was the stop.
  abbrev pub start_copy : ℕ → Direction → ℕ → TransferItem → Running W × Next → Running W × Next
  start_copy fuel direction index item (s, go_on) =
      after_copy index item (copy_file ends fuel direction item s.copying) s
  start_copy fuel direction index item (s, return_now) = (s, return_now)
  start_copy fuel direction index item (s, stuck) = (s, stuck)

  unfoldable pub run_file : ℕ → Direction → ℕ → TransferItem → Running W → Running W × Next
  run_file fuel direction index item s =
      start_copy fuel direction index item
        (tell (item_started index (display_name item) item.size) s)

  -- The body of the loop over the items: on what `item.skip` and `item.is_dir` are.
  unfoldable pub run_unskipped :
      ℕ → Direction → ℕ → TransferItem → Bool → Running W → Running W × Next
  run_unskipped fuel direction index item true s = run_dir direction index item s
  run_unskipped fuel direction index item false s = run_file fuel direction index item s

  unfoldable pub run_by :
      ℕ → Direction → ℕ → TransferItem → Option SkipReason → Running W → Running W × Next
  run_by fuel direction index item (some reason) s = skip_item index reason s
  run_by fuel direction index item none s = run_unskipped fuel direction index item item.is_dir s

  unfoldable pub run_item : ℕ → Direction → ℕ → TransferItem → Running W → Running W × Next
  run_item fuel direction index item s = run_by fuel direction index item item.skip s

  unfoldable pub run_items : ℕ → Direction → ℕ → List TransferItem → Running W → Running W × Next
  run_items fuel direction index [] s = (s, return_now)
  run_items fuel direction index (item ∷ items) s =
      let (s, next) = run_item fuel direction index item s in
      elim next [
        | go_on ↦ run_items fuel direction (suc index) items s
        | return_now ↦ (s, return_now)
        | stuck ↦ (s, stuck)
      ]

  unfoldable pub run : ℕ → Direction → TransferPlan → W → Running W × Next
  run fuel direction plan w =
      run_items fuel direction 0 plan.items
        (record { copying = record { world = w; done_bytes = 0 }; summary = empty_summary })
