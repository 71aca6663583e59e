-- ===== src/Transfers/Outcomes/Told.antt =====
-- src/ssh/transfer.rs: each step of a run gives its item one outcome.
use ssh_control.Prelude.{
  ℕ, suc, ◌≡◌, refl, subst, ap, List, [], ◌∷◌, Bool, true, false, Option, some, none, ok, err,
  panic, Bool-cases, inl, inr,
}
use ssh_control.Errors.{Result, AppError}
use ssh_control.Transfers.{
  Direction, SkipReason, TransferItem, TransferEvent, item_started, item_finished, item_failed,
  item_skipped, TransferSummary, Ends, display_name,
}
use ssh_control.Transfers.Copy.{Copying, copy_file, ensure_dir}
use ssh_control.Transfers.Runs.{
  Running, cancel, count_skipped, count_file, count_failure, Next, go_on, return_now, stuck, tell,
  run_unskipped, run_by, fail_item, skip_item, after_ensure, run_dir, after_copy, run_file,
  run_item, run_items,
}
use ssh_control.Transfers.Outcomes.{
  Outcome, moved, made, passed, failed_with, Fits, Tally, counted, empty-Tally, more-Tally,
}

-- Where the run goes on after an item, the item has an outcome, which is in the summary.
pub record IsTold {W : Type 0} (item : TransferItem) (a : TransferSummary) (r : Running W × Next)
    : Type 0 where
  pub counts : r.1 ≡ go_on → (o : Outcome) × Fits item o × (r.0.summary ≡ counted item o a)
  pub returned : r.1 ≡ return_now → r.0.summary.cancelled ≡ true

module _ {W Handle File : Type 0} (ends : Ends W Handle File) where
  tell-IsTold :
      (event : TransferEvent) (item : TransferItem) (a : TransferSummary) (o : Outcome)
      (s : Running W)
      → Fits item o
      → s.summary ≡ counted item o a
      → IsTold item a (tell ends event s)
  unfolding tell
  tell-IsTold event item a o s fits e = elim (Bool-cases (ends.on_event event s.copying.world).1) [
    | inl stop ↦ rw stop (record { counts = λ e. absurd (cc); returned = λ e. refl })
    | inr on ↦ rw on (record { counts = λ _. (o, fits, e); returned = λ e. absurd (cc) })
  ]

  stop-IsTold :
      (item : TransferItem) (a : TransferSummary) (s : Running W)
      → IsTold item a (cancel s, return_now)
  stop-IsTold item a s = record { counts = λ e. absurd (cc); returned = λ e. refl }

  stuck-IsTold :
      (item : TransferItem) (a : TransferSummary) (s : Running W) → IsTold item a (s, stuck)
  stuck-IsTold item a s = record { counts = λ e. absurd (cc); returned = λ e. absurd (cc) }

  fail_item-IsTold :
      (index : ℕ) (item : TransferItem) (e : AppError) (s : Running W)
      → item.skip ≡ none
      → IsTold item s.summary (fail_item ends index item e s)
  unfolding fail_item
  fail_item-IsTold index item e s unskipped =
      tell-IsTold (item_failed index (display_name item) e) item s.summary (failed_with e)
        (count_failure (display_name item) e s) unskipped refl

  after_copy-IsTold :
      (index : ℕ) (item : TransferItem) (r : Copying W × Result Bool) (s : Running W)
      → item.skip ≡ none
      → item.is_dir ≡ false
      → IsTold item s.summary (after_copy ends index item r s)
  unfolding after_copy
  after_copy-IsTold index item (c, ok true) s unskipped is_file =
      tell-IsTold (item_finished index) item s.summary moved
        (count_file item.size (record s { copying = c })) (unskipped, is_file) refl
  after_copy-IsTold index item (c, ok false) s unskipped is_file =
      stop-IsTold item s.summary (record s { copying = c })
  after_copy-IsTold index item (c, err e) s unskipped is_file =
      fail_item-IsTold index item e (record s { copying = c }) unskipped
  after_copy-IsTold index item (c, panic) s unskipped is_file =
      stuck-IsTold item s.summary (record s { copying = c })

  run_file-IsTold :
      (fuel : ℕ) (direction : Direction) (index : ℕ) (item : TransferItem) (s : Running W)
      → item.skip ≡ none
      → item.is_dir ≡ false
      → IsTold item s.summary (run_file ends fuel direction index item s)
  unfolding run_file tell
  run_file-IsTold fuel direction index item s unskipped is_file =
      let r = ends.on_event (item_started index (display_name item) item.size) s.copying.world in
      let t : Running W = record s { copying = record s.copying { world = r.0 } } in
      elim (Bool-cases r.1) [
        | inl stop ↦ rw stop (stop-IsTold item s.summary t)
        | inr on ↦ rw on (
            after_copy-IsTold index item (copy_file ends fuel direction item t.copying) t unskipped
              is_file)
      ]

  after_ensure-IsTold :
      (index : ℕ) (item : TransferItem) (r : W × Result (Unit {0})) (s : Running W)
      → item.skip ≡ none
      → item.is_dir ≡ true
      → IsTold item s.summary (after_ensure ends index item r s)
  unfolding after_ensure
  after_ensure-IsTold index item (w, ok done) s unskipped is_dir = record {
    counts = λ e. (made, (unskipped, is_dir), refl);
    returned = λ e. absurd (cc);
  }
  after_ensure-IsTold index item (w, err e) s unskipped is_dir =
      fail_item-IsTold index item e (record s { copying = record s.copying { world = w } })
        unskipped
  after_ensure-IsTold index item (w, panic) s unskipped is_dir =
      stuck-IsTold item s.summary (record s { copying = record s.copying { world = w } })

  run_unskipped-IsTold :
      (fuel : ℕ) (direction : Direction) (index : ℕ) (item : TransferItem) (is_dir : Bool)
      (s : Running W)
      → item.skip ≡ none
      → item.is_dir ≡ is_dir
      → IsTold item s.summary (run_unskipped ends fuel direction index item is_dir s)
  unfolding run_unskipped run_dir
  run_unskipped-IsTold fuel direction index item true s unskipped e =
      after_ensure-IsTold index item (ensure_dir ends direction item.dst s.copying.world) s
        unskipped e
  run_unskipped-IsTold fuel direction index item false s unskipped e =
      run_file-IsTold fuel direction index item s unskipped e

  run_by-IsTold :
      (fuel : ℕ) (direction : Direction) (index : ℕ) (item : TransferItem)
      (skip : Option SkipReason) (s : Running W)
      → item.skip ≡ skip
      → IsTold item s.summary (run_by ends fuel direction index item skip s)
  unfolding run_by skip_item
  run_by-IsTold fuel direction index item none s e =
      run_unskipped-IsTold fuel direction index item item.is_dir s e refl
  run_by-IsTold fuel direction index item (some reason) s e =
      tell-IsTold (item_skipped index reason) item s.summary passed (count_skipped s) (reason, e)
        refl

  -- The rest of the loop after an item.
  after_item-Tally :
      (fuel : ℕ) (direction : Direction) (index : ℕ) (item : TransferItem)
      (items : List TransferItem) (a : TransferSummary) (r : Running W × Next) {t : Running W}
      → IsTold item a r
      → (run_items ends fuel direction (suc index) items r.0 ≡ (t, return_now)
          → Tally items r.0.summary t.summary)
      → (elim r.1 [
        | go_on ↦ run_items ends fuel direction (suc index) items r.0
        | return_now ↦ (r.0, return_now)
        | stuck ↦ (r.0, stuck)
      ])
        ≡ (t, return_now)
      → t.summary.cancelled ≡ false
      → Tally (item ∷ items) a t.summary
  after_item-Tally fuel direction index item items a (s, go_on) {t} h rest e n =
      let (o, fits, told) = h.counts refl in
      more-Tally item items o a t.summary fits (subst (λ b. Tally items b t.summary) told (rest e))
  after_item-Tally fuel direction index item items a (s, return_now) {t} h rest e n =
      let stopped = h.returned refl in
      let same : s.summary.cancelled ≡ t.summary.cancelled =
        ap (λ (r : Running W × Next). r.0.summary.cancelled) e in
      absurd (cc)
  after_item-Tally fuel direction index item items a (s, stuck) {t} h rest e n =
      let never : stuck ≡ return_now = ap (λ (r : Running W × Next). r.1) e in absurd (cc)

  pub run_items-Tally :
      (fuel : ℕ) (direction : Direction) (index : ℕ) (items : List TransferItem) (s : Running W)
      {t : Running W}
      → run_items ends fuel direction index items s ≡ (t, return_now)
      → t.summary.cancelled ≡ false
      → Tally items s.summary t.summary
  unfolding run_items run_item
  run_items-Tally fuel direction index [] s {t} e n =
      let same : s.summary ≡ t.summary = ap (λ (r : Running W × Next). r.0.summary) e in
      subst (λ b. Tally [] s.summary b) same (empty-Tally s.summary)
  run_items-Tally fuel direction index (item ∷ items) s {t} e n =
      let r = run_item ends fuel direction index item s in
      after_item-Tally fuel direction index item items s.summary r
        (run_by-IsTold fuel direction index item item.skip s refl)
        (λ e'. run_items-Tally fuel direction (suc index) items r.0 e' n) e n
