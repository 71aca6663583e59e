-- ===== src/Transfers/Outcomes.antt =====
-- src/ssh/transfer.rs: what became of each item of a run, and the summary as their tally.
pub mod Told
use ssh_control.Prelude.{
  ℕ, suc, ◌+◌, ◌≡◌, refl, sym, subst, ap, ◌∙◌, Bytes, List, [], ◌∷◌, ◌++◌, if◌then◌else◌,
  append_assoc, append-nil, Bool, true, false, Option, some, none, ok, err, panic, arith,
  Bool-cases, inl, inr,
}
use ssh_control.Errors.{Result, AppError}
use ssh_control.Transfers.{
  Direction, SkipReason, TransferItem, TransferEvent, item_started, item_finished, item_failed,
  item_skipped, TransferSummary, Ends, add_u64, display_name, count, moves,
}
use ssh_control.Transfers.Copy.{Copying, copy_file, ensure_dir}
use ssh_control.Transfers.Runs.{
  Running, cancel, count_skipped, count_file, count_failure, Next, go_on, return_now, stuck, tell,
  run_unskipped, run_by, fail_item, skip_item, after_ensure, run_dir, after_copy, start_copy,
  run_file, run_item, run_items,
}

-- What became of an item: a file was moved, a directory was there or was made, it was passed over, or
-- it failed.
pub data Outcome : Type 0 where
  moved made passed : Outcome
  failed_with : AppError → Outcome

-- Which items can end so.
abbrev pub Fits : TransferItem → Outcome → Type 0
Fits i moved = (i.skip ≡ none) × (i.is_dir ≡ false)
Fits i made = (i.skip ≡ none) × (i.is_dir ≡ true)
Fits i passed = (reason : SkipReason) × (i.skip ≡ some reason)
Fits i (failed_with e) = i.skip ≡ none

-- One outcome for each item.
abbrev pub AreOutcomes : List TransferItem → List Outcome → Type 0
AreOutcomes [] [] = Unit {0}
AreOutcomes (i ∷ items) (o ∷ outcomes) = Fits i o × AreOutcomes items outcomes
AreOutcomes _ _ = ⊥

abbrev pub moved_files : List Outcome → ℕ
moved_files [] = 0
moved_files (moved ∷ os) = suc (moved_files os)
moved_files (made ∷ os) = moved_files os
moved_files (passed ∷ os) = moved_files os
moved_files (failed_with e ∷ os) = moved_files os

abbrev pub passed_items : List Outcome → ℕ
passed_items [] = 0
passed_items (moved ∷ os) = passed_items os
passed_items (made ∷ os) = passed_items os
passed_items (passed ∷ os) = suc (passed_items os)
passed_items (failed_with e ∷ os) = passed_items os

-- The names and the errors of what failed, in the order of the items.
abbrev pub failures_of : List TransferItem → List Outcome → List (Bytes × AppError)
failures_of (i ∷ items) (moved ∷ os) = failures_of items os
failures_of (i ∷ items) (made ∷ os) = failures_of items os
failures_of (i ∷ items) (passed ∷ os) = failures_of items os
failures_of (i ∷ items) (failed_with e ∷ os) = (display_name i, e) ∷ failures_of items os
failures_of _ _ = []

-- The sizes of the moved files on top of a number, in 64 bits.
abbrev pub moved_bytes : List TransferItem → List Outcome → ℕ → ℕ
moved_bytes (i ∷ items) (moved ∷ os) n = moved_bytes items os (add_u64 n i.size)
moved_bytes (i ∷ items) (made ∷ os) n = moved_bytes items os n
moved_bytes (i ∷ items) (passed ∷ os) n = moved_bytes items os n
moved_bytes (i ∷ items) (failed_with e ∷ os) n = moved_bytes items os n
moved_bytes _ _ n = n

-- The files among what failed.
abbrev pub failed_files : List TransferItem → List Outcome → ℕ
failed_files (i ∷ items) (moved ∷ os) = failed_files items os
failed_files (i ∷ items) (made ∷ os) = failed_files items os
failed_files (i ∷ items) (passed ∷ os) = failed_files items os
failed_files (i ∷ items) (failed_with e ∷ os) =
    let rest = failed_files items os in if i.is_dir then rest else suc rest
failed_files _ _ = 0

-- Each file that is to move was moved or failed.
pub count-moves :
    (items : List TransferItem) (outcomes : List Outcome)
    → AreOutcomes items outcomes
    → count moves items ≡ moved_files outcomes + failed_files items outcomes
count-moves [] [] h = refl
count-moves [] (o ∷ outcomes) h = absurd h
count-moves (i ∷ items) [] h = absurd h
count-moves (i ∷ items) (moved ∷ os) ((s, d), h) = rw (s, d) (omega (arith, count-moves items os h))
count-moves (i ∷ items) (made ∷ os) ((s, d), h) = rw (s, d) (omega (arith, count-moves items os h))
count-moves (i ∷ items) (passed ∷ os) ((reason, s), h) =
    rw s (omega (arith, count-moves items os h))
count-moves (i ∷ items) (failed_with e ∷ os) (s, h) = elim (Bool-cases i.is_dir) [
  | inl d ↦ rw (s, d) (omega (arith, count-moves items os h))
  | inr d ↦ rw (s, d) (omega (arith, count-moves items os h))
]

-- The outcomes of the items that turn the summary `a` into `b`.
pub record Tally (items : List TransferItem) (a b : TransferSummary) : Type 0 where
  pub outcomes : List Outcome
  pub each : AreOutcomes items outcomes
  pub files : b.files ≡ a.files + moved_files outcomes
  pub bytes : b.bytes ≡ moved_bytes items outcomes a.bytes
  pub skipped : b.skipped ≡ a.skipped + passed_items outcomes
  pub failures : b.failures ≡ a.failures ++ failures_of items outcomes

abbrev pub counted : TransferItem → Outcome → TransferSummary → TransferSummary
counted i moved a = record a { files = suc a.files; bytes = add_u64 a.bytes i.size }
counted i made a = a
counted i passed a = record a { skipped = suc a.skipped }
counted i (failed_with e) a = record a { failures = a.failures ++ ((display_name i, e) ∷ []) }

pub empty-Tally : (a : TransferSummary) → Tally [] a a
empty-Tally a = record {
  outcomes = [];
  each = tt;
  files = omega arith;
  bytes = refl;
  skipped = omega arith;
  failures = sym (append-nil a.failures);
}

pub more-Tally :
    (i : TransferItem) (items : List TransferItem) (o : Outcome) (a b : TransferSummary)
    → Fits i o
    → Tally items (counted i o a) b
    → Tally (i ∷ items) a b
more-Tally i items moved a b fits t = record {
  outcomes = moved ∷ t.outcomes;
  each = (fits, t.each);
  files = omega (arith, t.files);
  bytes = t.bytes;
  skipped = t.skipped;
  failures = t.failures;
}
more-Tally i items made a b fits t = record {
  outcomes = made ∷ t.outcomes;
  each = (fits, t.each);
  files = t.files;
  bytes = t.bytes;
  skipped = t.skipped;
  failures = t.failures;
}
more-Tally i items passed a b fits t = record {
  outcomes = passed ∷ t.outcomes;
  each = (fits, t.each);
  files = t.files;
  bytes = t.bytes;
  skipped = omega (arith, t.skipped);
  failures = t.failures;
}
more-Tally i items (failed_with e) a b fits t = record {
  outcomes = failed_with e ∷ t.outcomes;
  each = (fits, t.each);
  files = t.files;
  bytes = t.bytes;
  skipped = t.skipped;
  failures =
      t.failures
      ∙ append_assoc a.failures ((display_name i, e) ∷ []) (failures_of items t.outcomes);
}
