-- ===== src/Transfers/Accounts/Totals.antt =====
-- src/ssh/transfer.rs: what the summary of a run says of its plan.
use ssh_control.Prelude.{
  ℕ, suc, ◌+◌, ◌≤◌, ◌≡◌, refl, List, [], ◌∷◌, length, Bool, false, IsU64, arith, Bool-cases, inl,
  inr,
}
use ssh_control.Transfers.{
  Direction, TransferItem, TransferPlan, TransferSummary, Ends, moves, count, sum_sizes,
  planned_bytes, file_count,
}
use ssh_control.Transfers.Runs.{
  Running, empty_summary, Next, go_on, return_now, stuck, run_item, run_items, run,
}
use ssh_control.Transfers.Accounts.{
  one, is_skipped, failed, size_if, IsBounded, IsCounted, IsAccounted, run_by-IsAccounted,
}

-- The sizes of the files that move, without the wrap of 64 bits.
abbrev pub plain_sum : List TransferItem → ℕ
plain_sum [] = 0
plain_sum (i ∷ items) = size_if (moves i) i.size + plain_sum items

record AreBounded (items : List TransferItem) (a b : TransferSummary) : Type 0 where
  pub files : b.files ≤ a.files + count moves items
  pub bytes : b.bytes ≤ a.bytes + plain_sum items
  pub skipped : b.skipped ≤ a.skipped + count is_skipped items
  pub outcomes : b.files + failed b + b.skipped ≤ a.files + failed a + a.skipped + length items

record AreCounted (items : List TransferItem) (a b : TransferSummary) : Type 0 where
  pub skipped : b.skipped ≡ a.skipped + count is_skipped items
  pub outcome : a.files + failed a + count moves items ≤ b.files + failed b

count-one :
    (test : TransferItem → Bool) (i : TransferItem) (items : List TransferItem)
    → count test (i ∷ items) ≡ one (test i) + count test items
count-one test i items = elim (Bool-cases (test i)) [
  | inl e ↦ rw e (omega arith)
  | inr e ↦ rw e (omega arith)
]

more-AreBounded :
    (i : TransferItem) (items : List TransferItem) (a b c : TransferSummary)
    → IsBounded i a b
    → AreBounded items b c
    → AreBounded (i ∷ items) a c
more-AreBounded i items a b c h k = record {
  files = rw (count-one moves i items) (omega (arith, h.files, k.files));
  bytes = omega (arith, h.bytes, k.bytes);
  skipped = rw (count-one is_skipped i items) (omega (arith, h.skipped, k.skipped));
  outcomes = omega (arith, h.outcomes, k.outcomes);
}

last-AreBounded :
    (i : TransferItem) (items : List TransferItem) (a b : TransferSummary)
    → IsBounded i a b
    → AreBounded (i ∷ items) a b
last-AreBounded i items a b h = record {
  files = rw (count-one moves i items) (omega (arith, h.files));
  bytes = omega (arith, h.bytes);
  skipped = rw (count-one is_skipped i items) (omega (arith, h.skipped));
  outcomes = omega (arith, h.outcomes);
}

more-AreCounted :
    (i : TransferItem) (items : List TransferItem) (a b c : TransferSummary)
    → IsCounted i a b
    → AreCounted items b c
    → AreCounted (i ∷ items) a c
more-AreCounted i items a b c h k = record {
  skipped = rw (count-one is_skipped i items) (omega (arith, h.skipped, k.skipped));
  outcome = rw (count-one moves i items) (omega (arith, h.outcome, k.outcome));
}

module _ {W Handle File : Type 0} (ends : Ends W Handle File) where
  -- The loop's result: its counts, and all of them unless it was stopped or has not ended.
  record AreAccounted (items : List TransferItem) (a : TransferSummary) (r : Running W × Next)
      : Type 0 where
    pub bounded : AreBounded items a r.0.summary
    pub counted : r.1 ≡ return_now → r.0.summary.cancelled ≡ false → AreCounted items a r.0.summary

  none-AreAccounted : (s : Running W) → AreAccounted [] s.summary (s, return_now)
  none-AreAccounted s = record {
    bounded = record {
      files = omega arith;
      bytes = omega arith;
      skipped = omega arith;
      outcomes = omega arith;
    };
    counted = λ e h. record { skipped = omega arith; outcome = omega arith };
  }

  -- The rest of the loop after an item.
  after_item-AreAccounted :
      (fuel : ℕ) (direction : Direction) (index : ℕ) (item : TransferItem)
      (items : List TransferItem) (a : TransferSummary) (r : Running W × Next)
      → IsAccounted item a r
      → AreAccounted items r.0.summary (run_items ends fuel direction (suc index) items r.0)
      → AreAccounted (item ∷ items) a (elim r.1 [
        | go_on ↦ run_items ends fuel direction (suc index) items r.0
        | return_now ↦ (r.0, return_now)
        | stuck ↦ (r.0, stuck)
      ])
  after_item-AreAccounted fuel direction index item items a (s, go_on) h k =
      let t = (run_items ends fuel direction (suc index) items s).0.summary in
      record {
        bounded = more-AreBounded item items a s.summary t h.bounded k.bounded;
        counted = λ e n. more-AreCounted item items a s.summary t (h.counted refl) (k.counted e n);
      }
  after_item-AreAccounted fuel direction index item items a (s, return_now) h k = record {
    bounded = last-AreBounded item items a s.summary h.bounded;
    counted = λ e n. let stopped = h.returned refl in absurd (cc);
  }
  after_item-AreAccounted fuel direction index item items a (s, stuck) h k = record {
    bounded = last-AreBounded item items a s.summary h.bounded;
    counted = λ e n. absurd (cc);
  }

  run_items-AreAccounted :
      (fuel : ℕ) (direction : Direction) (index : ℕ) (items : List TransferItem) (s : Running W)
      → AreAccounted items s.summary (run_items ends fuel direction index items s)
  unfolding run_items run_item
  run_items-AreAccounted fuel direction index [] s = none-AreAccounted s
  run_items-AreAccounted fuel direction index (item ∷ items) s =
      let r = run_item ends fuel direction index item s in
      after_item-AreAccounted fuel direction index item items s.summary r
        (run_by-IsAccounted ends fuel direction index item item.skip s refl)
        (run_items-AreAccounted fuel direction (suc index) items r.0)

plain_sum_lem :
    (items : List TransferItem) → IsU64 (plain_sum items) → sum_sizes items ≡ plain_sum items
plain_sum_lem [] h = refl
plain_sum_lem (i ∷ items) h =
    let ih = plain_sum_lem items (omega (arith, h)) in
    elim (Bool-cases (moves i)) [
      | inl e ↦ rw (e, ih) (let fits = rw e at h in omega (arith, fits))
      | inr e ↦ rw e (omega (arith, ih))
    ]

abbrev begin : {W : Type 0} → W → Running W
begin w = record { copying = record { world = w; done_bytes = 0 }; summary = empty_summary }

-- However a run ends, also cancelled: no more files are counted than the plan moves, no more bytes
-- than it announces, where the sizes fit in 64 bits, and no item is counted twice.
pub run-bounds :
    {W Handle File : Type 0} (ends : Ends W Handle File) (fuel : ℕ) (direction : Direction)
    (plan : TransferPlan) (w : W)
    → IsU64 (plain_sum plan.items)
    → let t = (run ends fuel direction plan w).0.summary in
      (t.files ≤ file_count plan)
      × ((t.bytes ≤ planned_bytes plan) × (t.files + failed t + t.skipped ≤ length plan.items))
unfolding run file_count planned_bytes
run-bounds ends fuel direction plan w fits =
    let all = (run_items-AreAccounted ends fuel direction 0 plan.items (begin w)).bounded in
    (
      omega (arith, all.files),
      (rw (plain_sum_lem plan.items fits) (omega (arith, all.bytes)), omega (arith, all.outcomes)),
    )
