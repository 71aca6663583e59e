-- ===== src/Vault/Keyslot/Slots.antt =====
-- src/config/keyslot.rs: replacing the slots of one kind leaves the others as they were.
use ssh_control.Prelude.{
  ℕ, ◌≤◌, ◌≡◌, refl, ◌∙◌, List, [], ◌∷◌, ◌++◌, some, ◌==◌, if◌then◌else◌, arith, All,
}
use ssh_control.Vault.Format.{Slot}
use ssh_control.Vault.Keyslot.{find, retain_other, insert_by_kind, sort_by_kind, replace}

find-insert_by_kind :
    (s : Slot) (slots : List Slot) (j : ℕ)
    → find (insert_by_kind s slots) j ≡ (if s.kind == j then some s else find slots j)
unfolding find insert_by_kind
find-insert_by_kind s [] j = refl
find-insert_by_kind s (t ∷ slots) j = ground (arith, find-insert_by_kind s slots j)

find-sort_by_kind : (slots : List Slot) (j : ℕ) → find (sort_by_kind slots) j ≡ find slots j
unfolding find sort_by_kind
find-sort_by_kind [] j = refl
find-sort_by_kind (s ∷ slots) j =
    ground (arith, find-insert_by_kind s (sort_by_kind slots) j, find-sort_by_kind slots j)

find-retain_append :
    (slots : List Slot) (kind j : ℕ) (r : Slot)
    → r.kind ≡ kind
    → find (retain_other slots kind ++ r ∷ []) j ≡ (if kind == j then some r else find slots j)
unfolding find retain_other
find-retain_append [] kind j r h = ground arith
find-retain_append (s ∷ slots) kind j r h = ground (arith, find-retain_append slots kind j r h)

-- After `replace` the first slot of the replaced kind is the new one, and of every other kind the
-- one that was first before.
pub find-replace :
    (slots : List Slot) (kind j : ℕ) (r : Slot)
    → r.kind ≡ kind
    → find (replace slots kind r) j ≡ (if kind == j then some r else find slots j)
unfolding replace
find-replace slots kind j r h =
    find-sort_by_kind (retain_other slots kind ++ r ∷ []) j ∙ find-retain_append slots kind j r h

-- Kinds in ascending order.
abbrev pub Ascending : List Slot → Type 0
Ascending [] = Unit {0}
Ascending (s ∷ slots) = All (λ (t : Slot). s.kind ≤ t.kind) slots × Ascending slots

AtLeast-insert :
    (k : ℕ) (s : Slot) (slots : List Slot)
    → k ≤ s.kind
    → All (λ (t : Slot). k ≤ t.kind) slots
    → All (λ (t : Slot). k ≤ t.kind) (insert_by_kind s slots)
unfolding insert_by_kind
AtLeast-insert k s [] h all = (h, tt)
AtLeast-insert k s (t ∷ slots) h (p, all) = ground (arith, AtLeast-insert k s slots h all)

AtLeast-le :
    (j k : ℕ) (slots : List Slot)
    → j ≤ k
    → All (λ (t : Slot). k ≤ t.kind) slots
    → All (λ (t : Slot). j ≤ t.kind) slots
AtLeast-le j k [] h all = tt
AtLeast-le j k (t ∷ slots) h (p, all) = (omega arith, AtLeast-le j k slots h all)

insert_by_kind-Ascending :
    (s : Slot) (slots : List Slot) → Ascending slots → Ascending (insert_by_kind s slots)
unfolding insert_by_kind
insert_by_kind-Ascending s [] all = (tt, tt)
insert_by_kind-Ascending s (t ∷ slots) (p, all) = ground (
  arith,
  AtLeast-le s.kind t.kind slots,
  AtLeast-insert t.kind s slots,
  insert_by_kind-Ascending s slots all,
)

sort_by_kind-Ascending : (slots : List Slot) → Ascending (sort_by_kind slots)
unfolding sort_by_kind
sort_by_kind-Ascending [] = tt
sort_by_kind-Ascending (s ∷ slots) =
    insert_by_kind-Ascending s (sort_by_kind slots) (sort_by_kind-Ascending slots)

-- Whatever order the slots had, `replace` leaves them in ascending order of kind.
pub replace-Ascending : (slots : List Slot) (kind : ℕ) (r : Slot) → Ascending (replace slots kind r)
unfolding replace
replace-Ascending slots kind r = sort_by_kind-Ascending (retain_other slots kind ++ r ∷ [])

-- After `replace`, whatever order the slots had: they are in ascending order of kind, the first slot of
-- the replaced kind is the new one, and of every other kind the one that was first before.
pub replace_lem :
    (slots : List Slot) (kind j : ℕ) (r : Slot)
    → r.kind ≡ kind
    → Ascending (replace slots kind r)
      × (find (replace slots kind r) j ≡ (if kind == j then some r else find slots j))
replace_lem slots kind j r h = (replace-Ascending slots kind r, find-replace slots kind j r h)
