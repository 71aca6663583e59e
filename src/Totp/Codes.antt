-- ===== src/Totp/Codes.antt =====
-- src/totp.rs: what the comparison of two codes decides.
use ssh_control.Prelude.{
  ℕ, ◌<◌, ◌≡◌, ◌↔◌, refl, Bytes, length, [], ◌∷◌, Bool, true, not, ◌&&◌, ◌||◌,
}
use ssh_control.Prelude.{
  ◌==◌, ==_iff, ==_refl, ltb, passes_below, passes_below_sound, bit_or, bit_xor, All, IsByte, arith,
  Bool-cases, inl, inr,
}
use ssh_control.Totp.{difference, codes_match}

-- Facts about single bytes, found by looking at every pair of them.
xor_fact : ℕ → ℕ → Bool
xor_fact x y = ltb (bit_xor x y) 256 && (not (bit_xor x y == 0) || x == y) && bit_xor x x == 0

or_fact : ℕ → ℕ → Bool
or_fact x y = ltb (bit_or x y) 256 && (not (bit_or x y == 0) || (x == 0 && y == 0))

xor_facts : passes_below (λ x. passes_below (λ y. xor_fact x y) 256) 256 ≡ true
unfolding passes_below xor_fact
xor_facts = refl

or_facts : passes_below (λ x. passes_below (λ y. or_fact x y) 256) 256 ≡ true
unfolding passes_below or_fact
or_facts = refl

bytes_xor :
    (x y : ℕ)
    → IsByte x
    → IsByte y
    → (bit_xor x y < 256) × (bit_xor x y ≡ 0 → x ≡ y) × (bit_xor x x ≡ 0)
unfolding xor_fact
bytes_xor x y p q =
    let h : xor_fact x y ≡ true =
      passes_below_sound (λ y. xor_fact x y) 256 y q
        (passes_below_sound (λ x. passes_below (λ y. xor_fact x y) 256) 256 x p xor_facts) in
    (ground (arith, h), λ e. ground (arith, h, e), ground (arith, h))

bytes_or :
    (x y : ℕ) → IsByte x → IsByte y → (bit_or x y < 256) × (bit_or x y ≡ 0 → (x ≡ 0) × (y ≡ 0))
unfolding or_fact
bytes_or x y p q =
    let h : or_fact x y ≡ true =
      passes_below_sound (λ y. or_fact x y) 256 y q
        (passes_below_sound (λ x. passes_below (λ y. or_fact x y) 256) 256 x p or_facts) in
    (ground (arith, h), λ e. ground (arith, h, e))

-- No difference is found exactly where there is none.
difference-eq_zero :
    (acc : ℕ) (a b : Bytes)
    → IsByte acc
    → All IsByte a
    → All IsByte b
    → length a ≡ length b
    → difference acc a b ≡ 0
    → (acc ≡ 0) × (a ≡ b)
unfolding difference
difference-eq_zero acc [] [] k p q n h = (h, refl)
difference-eq_zero acc [] (y ∷ b) k p q n h = absurd (omega arith)
difference-eq_zero acc (x ∷ a) [] k p q n h = absurd (omega arith)
difference-eq_zero acc (x ∷ a) (y ∷ b) k (p, ps) (q, qs) n h =
    let (small, xor, _) = bytes_xor x y p q in
    let (bound, or) = bytes_or acc (bit_xor x y) k small in
    let (z, tails) =
      difference-eq_zero (bit_or acc (bit_xor x y)) a b bound ps qs (omega arith) h in
    let (acc_zero, d) = or z in let heads = xor d in (acc_zero, cc)

difference_refl : (a : Bytes) → All IsByte a → difference 0 a a ≡ 0
unfolding difference
difference_refl [] p = refl
difference_refl (x ∷ a) (p, ps) =
    let (_, _, same) = bytes_xor x x p p in rw same (difference_refl a ps)

-- The comparison that never stops early decides equality of the two codes, whose bytes are below
-- 256.
pub codes_match_iff :
    (a b : Bytes) → All IsByte a → All IsByte b → (codes_match a b ≡ true) ↔ (a ≡ b)
unfolding codes_match
codes_match_iff a b p q = (
  λ h. elim (Bool-cases (length a == length b)) [
    | inr differ ↦ cc (rw differ at h)
    | inl same ↦
        let none : difference 0 a b ≡ 0 = (==_iff (difference 0 a b) 0).0 (rw same at h) in
        let (_, e) =
          difference-eq_zero 0 a b (omega arith) p q ((==_iff (length a) (length b)).0 same) none in
        e
  ],
  λ e. rw e (rw (==_refl (length b)) (rw (difference_refl b q) refl)),
)
