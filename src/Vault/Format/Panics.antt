-- ===== src/Vault/Format/Panics.antt =====
-- src/config/format.rs: where the reader's indexing can panic.
use ssh_control.Prelude.{
  ℕ, zero, suc, ◌+◌, ◌*◌, ◌≤◌, ◌≡◌, ◌≢◌, ◌↔◌, ◌∙◌, Bytes, length, [], ◌∷◌, ◌++◌, arith, ok, err,
  panic, ◌>>=◌, bind-ne-panic, index, slice, index_below, slice_below, slice-eq-ok, from_le_bytes32,
  from_le-ne-panic, ltb, ltb→le, Bool-cases, inl, inr, ◌==◌, ==_iff, bytes_eq, bytes_eq_iff,
  index-eq-ok, if◌then◌else◌, ◌||◌, drop_all, ltb→lt,
}
use ssh_control.Errors.{AppError, unsupported_format_version}
use ssh_control.Vault.Format.{KdfParams, magic, check_kdf_params, v1, v2}
use ssh_control.Vault.Format.Decode.{
  read_u32, read_kdf_params, decode_slot, decode_slots, decode_tail, decode_v1, decode_v2,
  decode_any,
}

check_kdf_params-ne-panic : (kdf_id : ℕ) (p : KdfParams) → check_kdf_params kdf_id p ≢ panic
unfolding check_kdf_params
check_kdf_params-ne-panic kdf_id p = λ e. ground arith

module _ (bs : Bytes) where
  index-ne-panic : (i : ℕ) → suc i ≤ length bs → index {E = AppError} bs i ≢ panic
  index-ne-panic i h = let (b, e) = index_below {E = AppError} bs i h in λ p. cc

  slice-ne-panic : (from to : ℕ) → to ≤ length bs → slice {E = AppError} bs from to ≢ panic
  slice-ne-panic from to h = let (s, e) = slice_below {E = AppError} bs from to h in λ p. cc

  read_u32-ne-panic : (at : ℕ) → at + 4 ≤ length bs → read_u32 bs at ≢ panic
  unfolding read_u32
  read_u32-ne-panic at h =
      bind-ne-panic (slice bs at (at + 4)) from_le_bytes32 (slice-ne-panic at (at + 4) h) λ b e.
        let (_, len, _) = slice-eq-ok bs at (at + 4) b (omega arith) e in
        let (v, read) = from_le-ne-panic {E = AppError} b (omega arith) in λ p. cc

  read_kdf_params-ne-panic : (at : ℕ) → at + 12 ≤ length bs → read_kdf_params bs at ≢ panic
  unfolding read_kdf_params
  read_kdf_params-ne-panic at h = bind-ne-panic _ _ (read_u32-ne-panic at (omega arith)) λ m e₁.
      bind-ne-panic _ _ (read_u32-ne-panic (at + 4) (omega arith))
        λ t e₂. bind-ne-panic _ _ (read_u32-ne-panic (at + 8) (omega arith)) λ c e₃. λ p. cc

  decode_slot-ne-panic : (at : ℕ) → at + 90 ≤ length bs → decode_slot bs at ≢ panic
  unfolding decode_slot
  decode_slot-ne-panic at h = bind-ne-panic _ _ (index-ne-panic at (omega arith)) λ kind e₁.
      bind-ne-panic _ _ (index-ne-panic (at + 1) (omega arith)) λ kdf_id e₂.
        bind-ne-panic _ _ (read_kdf_params-ne-panic (at + 2) (omega arith)) λ p e₃.
          bind-ne-panic _ _ (check_kdf_params-ne-panic kdf_id p) λ u e₄.
            bind-ne-panic _ _ (slice-ne-panic (at + 14) (at + 14 + 16) (omega arith)) λ a e₅.
              bind-ne-panic _ _ (slice-ne-panic (at + 14 + 16) (at + 14 + 16 + 12) (omega arith))
                λ b e₆.
                  bind-ne-panic _ _
                    (slice-ne-panic (at + 14 + 16 + 12) (at + 14 + 16 + 12 + 48) (omega arith))
                    λ c e₇. λ q. cc

  decode_slots-ne-panic : (i n : ℕ) → 10 + (i + n) * 90 ≤ length bs → decode_slots bs i n ≢ panic
  unfolding decode_slots
  decode_slots-ne-panic i zero h = λ p. cc
  decode_slots-ne-panic i (suc n) h =
      bind-ne-panic _ _ (decode_slot-ne-panic (10 + i * 90) (omega arith))
        λ s e₁. bind-ne-panic _ _ (decode_slots-ne-panic (suc i) n (omega arith)) λ rest e₂. λ p. cc

  decode_tail-ne-panic : (offset : ℕ) → offset + 16 ≤ length bs → decode_tail bs offset ≢ panic
  unfolding decode_tail
  decode_tail-ne-panic offset h =
      bind-ne-panic _ _ (slice-ne-panic offset (offset + 12) (omega arith)) λ a e₁.
        bind-ne-panic _ _ (read_u32-ne-panic (offset + 12) (omega arith)) λ n e₂.
          elim (Bool-cases (length bs == offset + 12 + 4 + n)) [
            | inr wrong ↦ rw wrong (λ p. cc)
            | inl right ↦
                let total = (==_iff _ _).0 right in
                rw right (
                  bind-ne-panic _ _
                    (slice-ne-panic (offset + 12 + 4) (offset + 12 + 4 + n) (omega arith))
                    λ c e₃. λ p. cc)
          ]

  decode_v2-ne-panic : 10 ≤ length bs → decode_v2 bs ≢ panic
  unfolding decode_v2
  decode_v2-ne-panic h = bind-ne-panic _ _ (index-ne-panic 9 h) λ n e₁.
      elim (Bool-cases (n == 0 || ltb 4 n)) [
        | inl wrong ↦ rw wrong (λ p. cc)
        | inr right ↦ elim (Bool-cases (ltb (length bs) (10 + n * 90 + 12 + 4))) [
          | inl short ↦ rw (right, short) (λ p. cc)
          | inr long ↦
              let room = ltb→le _ _ long in
              rw (right, long)
                (bind-ne-panic _ _ (decode_slots-ne-panic 0 n (omega arith)) λ slots e₂.
                  bind-ne-panic _ _ (decode_tail-ne-panic (10 + n * 90) (omega arith))
                    λ t e₃. λ p. cc)
        ]
      ]

  decode_v1-ne-panic : decode_v1 bs ≢ panic
  unfolding decode_v1
  decode_v1-ne-panic = elim (Bool-cases (ltb (length bs) (38 + 12 + 4))) [
    | inl short ↦ rw short (λ p. cc)
    | inr long ↦
        let room = ltb→le _ _ long in
        rw long (
          bind-ne-panic _ _ (index-ne-panic 9 (omega arith)) λ kdf_id e₁.
            elim (Bool-cases (kdf_id == 1)) [
              | inr other ↦ rw other (λ p. cc)
              | inl argon ↦ rw argon (
                  bind-ne-panic _ _ (read_kdf_params-ne-panic 10 (omega arith)) λ p e₂.
                    bind-ne-panic _ _ (check_kdf_params-ne-panic kdf_id p) λ u e₃.
                      bind-ne-panic _ _ (slice-ne-panic 22 38 (omega arith)) λ s e₄.
                        bind-ne-panic _ _ (decode_tail-ne-panic 38 (omega arith)) λ t e₅. λ q. cc)
            ])
  ]

  version-panic :
      (version : ℕ)
      → (if version == 1
          then decode_v1 bs >>= (λ e. ok (v1 e))
          else if version == 2
          then decode_v2 bs >>= (λ e. ok (v2 e))
          else err (unsupported_format_version version))
        ≡ panic
      → (version ≡ 2) × (decode_v2 bs ≡ panic)
  version-panic version h = ground (arith, decode_v1-ne-panic)

  decode_any-panic : decode_any bs ≡ panic → bs ≡ magic ++ 2 ∷ []
  unfolding decode_any
  decode_any-panic h = elim (Bool-cases (ltb (length bs) 9)) [
    | inl short ↦ absurd (cc (rw short at h))
    | inr long ↦
        let room = ltb→le _ _ long in
        let (head, e₁) = slice_below {E = AppError} bs 0 8 (omega arith) in
        let (version, e₂) = index_below {E = AppError} bs 8 room in
        let h₁ = rw (long, e₁, e₂) at h in
        elim (Bool-cases (bytes_eq head magic)) [
          | inr foreign ↦ absurd (cc (rw foreign at h₁))
          | inl ours ↦
              let (is_v2, inner) = version-panic version (rw ours at h₁) in
              let nine : length bs ≤ 9 = elim (Bool-cases (ltb 9 (length bs))) [
                | inl more ↦ absurd (decode_v2-ne-panic (ltb→lt _ _ more) inner)
                | inr no_more ↦ ltb→le _ _ no_more
              ] in
              let m : head ≡ magic = (bytes_eq_iff head magic).0 ours in
              (slice-eq-ok bs 0 8 head (omega arith) e₁).0
              ∙ rw m (rw (index-eq-ok bs 8 version e₂) (rw (drop_all 9 bs nine) (rw is_v2)))
        ]
  ]

-- Reading a file panics exactly on the nine bytes of the magic with the version 2 and nothing
-- behind it: `decode_any` lets nine bytes pass and `decode_v2` indexes the tenth.
pub decode_any-panic_iff : (bs : Bytes) → (decode_any bs ≡ panic) ↔ (bs ≡ magic ++ 2 ∷ [])
unfolding decode_any decode_v2 index slice bytes_eq
decode_any-panic_iff bs = (decode_any-panic bs, λ e. rw e)
