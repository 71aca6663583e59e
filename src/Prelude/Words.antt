-- ===== src/Prelude/Words.antt =====
-- Bytes, fixed-width integers in both byte orders, and slices that panic out of range.
use Prim.Native.Nat.{ℕ, zero, suc, ◌+◌, ◌-◌, ◌*◌, ◌/◌, ◌%◌, ◌≤◌, ◌<◌}
use Prim.Native.Char.{code}
use Prim.Native.String.{String}
use mathlib.Core.Path.{◌≡◌, refl, ap, ◌∙◌, sym}
use mathlib.Core.List.{List, [], ◌∷◌, ◌++◌}
use mathlib.Core.Option.{none, some}
use native.Mathlib.Omega.{arith}
use ssh_control.Prelude.Tests.{leb, ltb, if◌then◌else◌, le→leb, leb→le, Option-cases, Bool-cases}
use native.Mathlib.Numerals.{add-one}
use mathlib.Core.Logic.{inl, inr}
use ssh_control.Prelude.Lists.{
  drop-get_elem?, drop-suc, get_elem?-drop, get_elem?_below, drop-add, take-append-drop,
  length-take, length-drop, All,
}
use ssh_control.Prelude.Lists.{
  length, take, drop, get_elem?, drop-append, take-append, length-append,
}
use ssh_control.Prelude.Results.{Outcome, ok, panic}

abbrev pub Bytes : Type 0
Bytes = List ℕ

abbrev pub IsByte : ℕ → Type 0
IsByte b = b < 256

abbrev pub IsU32 : ℕ → Type 0
IsU32 v = v < 4294967296

abbrev pub IsU64 : ℕ → Type 0
IsU64 v = v < 18446744073709551616

-- A text is its UTF-8 bytes; the code points of an ASCII literal are its bytes.
abbrev pub codes : String → Bytes
codes String.[] = []
codes (String.◌∷◌ c s) = code c ∷ codes s

abbrev pub to_le_bytes32 : ℕ → Bytes
to_le_bytes32 v = (v % 256) ∷ (v / 256 % 256) ∷ (v / 65536 % 256) ∷ (v / 16777216 % 256) ∷ []

abbrev pub to_be_bytes32 : ℕ → Bytes
to_be_bytes32 v = (v / 16777216 % 256) ∷ (v / 65536 % 256) ∷ (v / 256 % 256) ∷ (v % 256) ∷ []

abbrev pub to_be_bytes64 : ℕ → Bytes
to_be_bytes64 v = to_be_bytes32 (v / 4294967296) ++ to_be_bytes32 (v % 4294967296)

-- The conversions from an array; a list of another length is the failed conversion to one.
unfoldable pub from_le_bytes32 {ℓ} : {E : Type ℓ} → Bytes → Outcome E ℕ
from_le_bytes32 (a ∷ b ∷ c ∷ d ∷ []) = ok (a + 256 * b + 65536 * c + 16777216 * d)
from_le_bytes32 _ = panic

unfoldable pub from_be_bytes32 : Bytes → ℕ
from_be_bytes32 (a ∷ b ∷ c ∷ d ∷ []) = 16777216 * a + 65536 * b + 256 * c + d
from_be_bytes32 _ = 0

pub from_le-to_le {ℓ} :
    {E : Type ℓ} (v : ℕ) → IsU32 v → from_le_bytes32 {E = E} (to_le_bytes32 v) ≡ ok v
unfolding from_le_bytes32
from_le-to_le v h = ap ok (omega arith)

pub from_be-to_be : (v : ℕ) → IsU32 v → from_be_bytes32 (to_be_bytes32 v) ≡ v
unfolding from_be_bytes32
from_be-to_be v h = omega arith

-- `bytes[i]` and `bytes[from..to]`.
unfoldable pub index {ℓ} : {E : Type ℓ} → Bytes → ℕ → Outcome E ℕ
index bs i = elim (get_elem? bs i) [ some b ↦ ok b | none ↦ panic ]

unfoldable pub slice {ℓ} : {E : Type ℓ} → Bytes → ℕ → ℕ → Outcome E Bytes
slice bs from to = if leb to (length bs) then ok (take (to - from) (drop from bs)) else panic

module _ {ℓ} {E : Type ℓ} where
  -- What follows the offset decides what is read there.
  pub index-drop :
      (bs : Bytes) (i : ℕ) {b : ℕ} {r : Bytes}
      → drop i bs ≡ b ∷ r
      → (index {E = E} bs i ≡ ok b) × (drop (i + 1) bs ≡ r)
  unfolding index
  index-drop bs i {b} {r} e = (rw (drop-get_elem? i bs e, index), rw add-one (drop-suc i bs e))

  pub index-eq-ok :
      (bs : Bytes) (i b : ℕ) → index {E = E} bs i ≡ ok b → drop i bs ≡ b ∷ drop (i + 1) bs
  unfolding index
  index-eq-ok bs i b h = elim (Option-cases (get_elem? bs i)) [
    | inl e ↦ cc (rw (e, index) at h)
    | inr (c, e) ↦ rw add-one (get_elem?-drop i bs (ground (arith, e)))
  ]

  pub index_below : (bs : Bytes) (i : ℕ) → i < length bs → (b : ℕ) × (index {E = E} bs i ≡ ok b)
  unfolding index
  index_below bs i h = let (b, e) = get_elem?_below i bs h in (b, rw (e, index))

  pub slice-drop :
      (bs : Bytes) (from to : ℕ) (s : Bytes) {r : Bytes}
      → drop from bs ≡ s ++ r
      → to ≡ from + length s
      → to ≤ length bs
      → (slice {E = E} bs from to ≡ ok s) × (drop to bs ≡ r)
  unfolding slice
  slice-drop bs from to s {r} e h fits = (
    rw (le→leb _ _ fits)
        (ap ok (rw e (rw (let d : to - from ≡ length s = omega arith in d) (take-append s r)))),
    rw h (rw drop-add (rw e (drop-append s r))),
  )

  pub slice-eq-ok :
      (bs : Bytes) (from to : ℕ) (s : Bytes)
      → from ≤ to
      → slice {E = E} bs from to ≡ ok s
      → (drop from bs ≡ s ++ drop to bs) × (length s ≡ to - from) × (to ≤ length bs)
  unfolding slice
  slice-eq-ok bs from to s h e = elim (Bool-cases (leb to (length bs))) [
    | inr no_room ↦ cc (rw no_room at e)
    | inl room ↦
        let fits : to ≤ length bs = leb→le _ _ room in
        let here : take (to - from) (drop from bs) ≡ s = cc (rw room at e) in
        let split : to ≡ from + (to - from) = omega arith in
        (
          sym (take-append-drop (to - from) (drop from bs))
              ∙ rw here (
                  ap (λ t. s ++ t)
                    (sym (drop-add from (to - from) bs) ∙ ap (λ n. drop n bs) (sym split))),
          omega
              (arith, ap length here, length-take (to - from) (drop from bs), length-drop from bs),
          fits,
        )
  ]

  pub slice_below :
      (bs : Bytes) (from to : ℕ) → to ≤ length bs → (s : Bytes) × (slice {E = E} bs from to ≡ ok s)
  unfolding slice
  slice_below bs from to h = (take (to - from) (drop from bs), rw (le→leb _ _ h))

  pub from_le-ne-panic :
      (bs : Bytes) → length bs ≡ 4 → (v : ℕ) × (from_le_bytes32 {E = E} bs ≡ ok v)
  unfolding from_le_bytes32
  from_le-ne-panic [] h = absurd (omega arith)
  from_le-ne-panic (a ∷ []) h = absurd (omega arith)
  from_le-ne-panic (a ∷ b ∷ []) h = absurd (omega arith)
  from_le-ne-panic (a ∷ b ∷ c ∷ []) h = absurd (omega arith)
  from_le-ne-panic (a ∷ b ∷ c ∷ d ∷ []) h = (_, refl)
  from_le-ne-panic (a ∷ b ∷ c ∷ d ∷ e ∷ bs) h = absurd (omega arith)

  -- Four bytes are the encoding of the number read from them.
  pub to_le-from_le :
      (bs : Bytes) (v : ℕ)
      → All IsByte bs
      → from_le_bytes32 {E = E} bs ≡ ok v
      → to_le_bytes32 v ≡ bs
  unfolding from_le_bytes32
  to_le-from_le (a ∷ b ∷ c ∷ d ∷ []) v (p, (q, (r, (s, _)))) h = ground arith
  to_le-from_le [] v all h = cc
  to_le-from_le _ v all h = cc

-- `r` is what stands in `bs` from offset `i` on.
abbrev pub At : Bytes → ℕ → Bytes → Type 0
At bs i r = (drop i bs ≡ r) × (i ≤ length bs)

module _ {ℓ} {E : Type ℓ} where
  pub index-At :
      (bs : Bytes) (i : ℕ) {b : ℕ} {r : Bytes}
      → At bs i (b ∷ r)
      → (index {E = E} bs i ≡ ok b) × At bs (i + 1) r
  index-At bs i {b} {r} (e, h) =
      let (read, rest) = index-drop {E = E} bs i {b = b} {r = r} e in
      (read, (rest, omega (arith, ap length e, length-drop i bs)))

  pub slice-At :
      (bs : Bytes) (from to : ℕ) (s r : Bytes)
      → At bs from (s ++ r)
      → to ≡ from + length s
      → (slice {E = E} bs from to ≡ ok s) × At bs to r
  slice-At bs from to s r (e, h) step =
      let fits : to ≤ length bs =
        omega (arith, ap length e, length-drop from bs, length-append s r) in
      let (read, rest) = slice-drop {E = E} bs from to s {r = r} e step fits in (read, (rest, fits))

-- The decimal digits of a number, in front of `end`; a `u64` has at most twenty.
abbrev pub decimal_in : ℕ → ℕ → Bytes → Bytes
decimal_in zero v end = end
decimal_in (suc fuel) v end =
    let rest = decimal_in fuel (v / 10) ((48 + v % 10) ∷ end) in
    if ltb v 10 then (48 + v) ∷ end else rest

unfoldable pub decimal : ℕ → Bytes
decimal v = decimal_in 20 v []
