-- ===== src/Transfers/Accounts.antt =====
-- src/ssh/transfer.rs: what one item of a plan adds to the summary of a run.
pub mod Totals
use ssh_control.Prelude.{
  ℕ, zero, suc, ◌+◌, ◌≤◌, ◌%◌, ◌≡◌, refl, sym, Bytes, List, [], ◌∷◌, ◌++◌, length, length-append,
  Bool, true, false, not, ◌&&◌, if◌then◌else◌, Option, some, none, ok, err, panic, IsU64, arith,
  Bool-cases, Option-cases, inl, inr,
}
use ssh_control.Errors.{Result, AppError}
use ssh_control.Transfers.{
  Direction, SkipReason, TransferItem, TransferPlan, TransferEvent, item_started, item_finished,
  item_failed, item_skipped, TransferSummary, Ends, add_u64, display_name, moves, is_none, count,
  sum_sizes, planned_bytes, file_count,
}
use ssh_control.Transfers.Copy.{Copying, copy_file, ensure_dir}
use ssh_control.Transfers.Runs.{
  Running, empty_summary, cancel, count_skipped, count_file, count_failure, Next, go_on, return_now,
  stuck, tell, run_unskipped, run_by, fail_item, skip_item, after_ensure, run_dir, after_copy,
  start_copy, run_file, run_item, run_items, run,
}

abbrev pub one : Bool → ℕ
one true = 1
one false = 0

abbrev pub is_skipped : TransferItem → Bool
is_skipped item = not (is_none item.skip)

abbrev pub failed : TransferSummary → ℕ
failed s = length s.failures

abbrev pub size_if : Bool → ℕ → ℕ
size_if true n = n
size_if false n = 0

-- What one item adds at most to the counts.
pub record IsBounded (item : TransferItem) (a b : TransferSummary) : Type 0 where
  pub files : b.files ≤ a.files + one (moves item)
  pub bytes : b.bytes ≤ a.bytes + size_if (moves item) item.size
  pub skipped : b.skipped ≤ a.skipped + one (is_skipped item)
  pub outcomes : b.files + failed b + b.skipped ≤ a.files + failed a + a.skipped + 1

-- What it adds where the run goes on after it.
pub record IsCounted (item : TransferItem) (a b : TransferSummary) : Type 0 where
  pub skipped : b.skipped ≡ a.skipped + one (is_skipped item)
  pub outcome : a.files + failed a + one (moves item) ≤ b.files + failed b

pub record IsAccounted {W : Type 0} (item : TransferItem) (a : TransferSummary)
    (r : Running W × Next) : Type 0 where
  pub bounded : IsBounded item a r.0.summary
  pub counted : r.1 ≡ go_on → IsCounted item a r.0.summary
  pub returned : r.1 ≡ return_now → r.0.summary.cancelled ≡ true

module _ {W Handle File : Type 0} (ends : Ends W Handle File) where
  cancel-IsBounded :
      (item : TransferItem) (a : TransferSummary) (s : Running W)
      → IsBounded item a s.summary
      → IsBounded item a (cancel s).summary
  cancel-IsBounded item a s b = record {
    files = b.files;
    bytes = b.bytes;
    skipped = b.skipped;
    outcomes = b.outcomes;
  }

  tell-IsAccounted :
      (event : TransferEvent) (item : TransferItem) (a : TransferSummary) (s : Running W)
      → IsBounded item a s.summary
      → IsCounted item a s.summary
      → IsAccounted item a (tell ends event s)
  unfolding tell
  tell-IsAccounted event item a s b c = elim (Bool-cases (ends.on_event event s.copying.world).1) [
    | inl stop ↦ rw stop (record {
      bounded = cancel-IsBounded item a s b;
      counted = λ e. absurd (cc);
      returned = λ e. refl;
    })
    | inr on ↦ rw on (record { bounded = b; counted = λ e. c; returned = λ e. absurd (cc) })
  ]

  nothing-IsBounded : (item : TransferItem) (a : TransferSummary) → IsBounded item a a
  nothing-IsBounded item a = record {
    files = omega arith;
    bytes = omega arith;
    skipped = omega arith;
    outcomes = omega arith;
  }

  one_le : (b : Bool) → one b ≤ 1
  one_le true = omega arith
  one_le false = omega arith

  not_skipped : (item : TransferItem) → item.skip ≡ none → is_skipped item ≡ false
  not_skipped item e = rw e refl

  fail_item-IsAccounted :
      (index : ℕ) (item : TransferItem) (e : AppError) (s : Running W)
      → item.skip ≡ none
      → IsAccounted item s.summary (fail_item ends index item e s)
  unfolding fail_item
  fail_item-IsAccounted index item e s unskipped =
      let t = count_failure (display_name item) e s in
      let more = length-append s.summary.failures ((display_name item, e) ∷ []) in
      let none_skipped = not_skipped item unskipped in
      let at_most = one_le (moves item) in
      tell-IsAccounted (item_failed index (display_name item) e) item s.summary t
        (record {
          files = omega arith;
          bytes = omega arith;
          skipped = omega arith;
          outcomes = omega (arith, more);
        })
        (record { skipped = rw none_skipped (omega arith); outcome = omega (arith, more, at_most) })

  finish-IsAccounted :
      (index : ℕ) (item : TransferItem) (s : Running W)
      → item.skip ≡ none
      → moves item ≡ true
      → IsAccounted item s.summary (tell ends (item_finished index) (count_file item.size s))
  finish-IsAccounted index item s unskipped moved =
      let none_skipped = not_skipped item unskipped in
      tell-IsAccounted (item_finished index) item s.summary (count_file item.size s)
        (record {
          files = rw moved (omega arith);
          bytes = rw moved (omega arith);
          skipped = omega arith;
          outcomes = omega arith;
        })
        (record { skipped = rw none_skipped (omega arith); outcome = rw moved (omega arith) })

  stop-IsAccounted :
      (item : TransferItem) (s : Running W) → IsAccounted item s.summary (cancel s, return_now)
  stop-IsAccounted item s = record {
    bounded = cancel-IsBounded item s.summary s (nothing-IsBounded item s.summary);
    counted = λ e. absurd (cc);
    returned = λ e. refl;
  }

  stuck-IsAccounted : (item : TransferItem) (s : Running W) → IsAccounted item s.summary (s, stuck)
  stuck-IsAccounted item s = record {
    bounded = nothing-IsBounded item s.summary;
    counted = λ e. absurd (cc);
    returned = λ e. absurd (cc);
  }

  after_copy-IsAccounted :
      (index : ℕ) (item : TransferItem) (r : Copying W × Result Bool) (s : Running W)
      → item.skip ≡ none
      → moves item ≡ true
      → IsAccounted item s.summary (after_copy ends index item r s)
  unfolding after_copy
  after_copy-IsAccounted index item (c, ok true) s unskipped moved =
      finish-IsAccounted index item (record s { copying = c }) unskipped moved
  after_copy-IsAccounted index item (c, ok false) s unskipped moved =
      stop-IsAccounted item (record s { copying = c })
  after_copy-IsAccounted index item (c, err e) s unskipped moved =
      fail_item-IsAccounted index item e (record s { copying = c }) unskipped
  after_copy-IsAccounted index item (c, panic) s unskipped moved =
      stuck-IsAccounted item (record s { copying = c })

  run_file-IsAccounted :
      (fuel : ℕ) (direction : Direction) (index : ℕ) (item : TransferItem) (s : Running W)
      → item.skip ≡ none
      → moves item ≡ true
      → IsAccounted item s.summary (run_file ends fuel direction index item s)
  unfolding run_file tell
  run_file-IsAccounted fuel direction index item s unskipped moved =
      let r = ends.on_event (item_started index (display_name item) item.size) s.copying.world in
      let t : Running W = record s { copying = record s.copying { world = r.0 } } in
      elim (Bool-cases r.1) [
        | inl stop ↦ rw stop (stop-IsAccounted item t)
        | inr on ↦ rw on (
            after_copy-IsAccounted index item (copy_file ends fuel direction item t.copying) t
              unskipped moved)
      ]

  after_ensure-IsAccounted :
      (index : ℕ) (item : TransferItem) (r : W × Result (Unit {0})) (s : Running W)
      → item.skip ≡ none
      → moves item ≡ false
      → IsAccounted item s.summary (after_ensure ends index item r s)
  unfolding after_ensure
  after_ensure-IsAccounted index item (w, ok done) s unskipped still = record {
    bounded = nothing-IsBounded item s.summary;
    counted = λ e. record {
      skipped = rw (not_skipped item unskipped) (omega arith);
      outcome = rw still (omega arith);
    };
    returned = λ e. absurd (cc);
  }
  after_ensure-IsAccounted index item (w, err e) s unskipped still =
      fail_item-IsAccounted index item e (record s { copying = record s.copying { world = w } })
        unskipped
  after_ensure-IsAccounted index item (w, panic) s unskipped still =
      stuck-IsAccounted item (record s { copying = record s.copying { world = w } })

  skip_item-IsAccounted :
      (index : ℕ) (item : TransferItem) (reason : SkipReason) (s : Running W)
      → item.skip ≡ some reason
      → IsAccounted item s.summary (skip_item ends index reason s)
  unfolding skip_item
  skip_item-IsAccounted index item reason s skipped =
      tell-IsAccounted (item_skipped index reason) item s.summary (count_skipped s)
        (record {
          files = omega arith;
          bytes = omega arith;
          skipped = rw skipped (omega arith);
          outcomes = omega arith;
        })
        (record { skipped = rw skipped (omega arith); outcome = rw skipped (omega arith) })

  run_unskipped-IsAccounted :
      (fuel : ℕ) (direction : Direction) (index : ℕ) (item : TransferItem) (is_dir : Bool)
      (s : Running W)
      → item.skip ≡ none
      → item.is_dir ≡ is_dir
      → IsAccounted item s.summary (run_unskipped ends fuel direction index item is_dir s)
  unfolding run_unskipped run_dir
  run_unskipped-IsAccounted fuel direction index item true s unskipped e =
      after_ensure-IsAccounted index item (ensure_dir ends direction item.dst s.copying.world) s
        unskipped (rw (unskipped, e) refl)
  run_unskipped-IsAccounted fuel direction index item false s unskipped e =
      run_file-IsAccounted fuel direction index item s unskipped (rw (unskipped, e) refl)

  pub run_by-IsAccounted :
      (fuel : ℕ) (direction : Direction) (index : ℕ) (item : TransferItem)
      (skip : Option SkipReason) (s : Running W)
      → item.skip ≡ skip
      → IsAccounted item s.summary (run_by ends fuel direction index item skip s)
  unfolding run_by
  run_by-IsAccounted fuel direction index item none s e =
      run_unskipped-IsAccounted fuel direction index item item.is_dir s e refl
  run_by-IsAccounted fuel direction index item (some reason) s e =
      skip_item-IsAccounted index item reason s e
