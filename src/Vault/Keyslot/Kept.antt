-- ===== src/Vault/Keyslot/Kept.antt =====
-- src/config/keyslot.rs: what `replace` keeps of every slot, and how many it leaves.
use ssh_control.Prelude.{
  ℕ, suc, ◌≤◌, ◌≡◌, refl, List, [], ◌∷◌, ◌++◌, length, length-append, true, ◌==◌, leb, arith, All,
  Bool-cases, inl, inr, ok, Bytes, by_ok, ap,
}
use ssh_control.Errors.{Result}
use ssh_control.Vault.Format.{Slot, slot_device, KdfParams}
use ssh_control.Vault.Format.Fields.{IsRead}
use ssh_control.Vault.Crypto.{Crates, IsAead, device_kek}
use ssh_control.Vault.Keyslot.{
  find, has, retain_other, insert_by_kind, sort_by_kind, replace, wrap_device, unwrap_device,
  mk_len,
}
use ssh_control.Vault.Keyslot.Wraps.{unwrap_under-wrap_under, unwrap_device-wrap_device}

module _ (P : Slot → Type 0) where
  All-retain_append :
      (slots : List Slot) (kind : ℕ) (r : Slot)
      → All P slots
      → P r
      → All P (retain_other slots kind ++ r ∷ [])
  unfolding retain_other
  All-retain_append [] kind r all p = (p, tt)
  All-retain_append (s ∷ slots) kind r (q, all) p = elim (Bool-cases (s.kind == kind)) [
    | inl e ↦ rw e (All-retain_append slots kind r all p)
    | inr e ↦ rw e (q, All-retain_append slots kind r all p)
  ]

  All-insert_by_kind :
      (s : Slot) (slots : List Slot) → P s → All P slots → All P (insert_by_kind s slots)
  unfolding insert_by_kind
  All-insert_by_kind s [] p all = (p, tt)
  All-insert_by_kind s (t ∷ slots) p (q, all) = elim (Bool-cases (leb s.kind t.kind)) [
    | inl e ↦ rw e (p, (q, all))
    | inr e ↦ rw e (q, All-insert_by_kind s slots p all)
  ]

  All-sort_by_kind : (slots : List Slot) → All P slots → All P (sort_by_kind slots)
  unfolding sort_by_kind
  All-sort_by_kind [] all = tt
  All-sort_by_kind (s ∷ slots) (p, all) =
      All-insert_by_kind s (sort_by_kind slots) p (All-sort_by_kind slots all)

  -- What holds of every slot and of the new one holds of every slot afterwards.
  pub All-replace :
      (slots : List Slot) (kind : ℕ) (r : Slot) → All P slots → P r → All P (replace slots kind r)
  unfolding replace
  All-replace slots kind r all p =
      All-sort_by_kind (retain_other slots kind ++ r ∷ []) (All-retain_append slots kind r all p)

length-insert_by_kind :
    (s : Slot) (slots : List Slot) → length (insert_by_kind s slots) ≡ suc (length slots)
unfolding insert_by_kind
length-insert_by_kind s [] = refl
length-insert_by_kind s (t ∷ slots) = elim (Bool-cases (leb s.kind t.kind)) [
  | inl e ↦ rw e refl
  | inr e ↦ rw e (omega (arith, length-insert_by_kind s slots))
]

length-sort_by_kind : (slots : List Slot) → length (sort_by_kind slots) ≡ length slots
unfolding sort_by_kind
length-sort_by_kind [] = refl
length-sort_by_kind (s ∷ slots) =
    omega (arith, length-insert_by_kind s (sort_by_kind slots), length-sort_by_kind slots)

length-retain_other :
    (slots : List Slot) (kind : ℕ) → length (retain_other slots kind) ≤ length slots
unfolding retain_other
length-retain_other [] kind = omega arith
length-retain_other (s ∷ slots) kind = elim (Bool-cases (s.kind == kind)) [
  | inl e ↦ rw e (omega (arith, length-retain_other slots kind))
  | inr e ↦ rw e (omega (arith, length-retain_other slots kind))
]

length-retain_has :
    (slots : List Slot) (kind : ℕ)
    → has slots kind ≡ true
    → suc (length (retain_other slots kind)) ≤ length slots
unfolding retain_other has find
length-retain_has [] kind h = absurd (cc)
length-retain_has (s ∷ slots) kind h = elim (Bool-cases (s.kind == kind)) [
  | inl e ↦ rw e (omega (arith, length-retain_other slots kind))
  | inr e ↦ rw e (omega (arith, length-retain_has slots kind (rw (e, has) at h)))
]

-- A slot of a kind that was there takes no more room than before.
pub length-replace :
    (slots : List Slot) (kind : ℕ) (r : Slot)
    → has slots kind ≡ true
    → length (replace slots kind r) ≤ length slots
unfolding replace
length-replace slots kind r h = omega (
  arith,
  length-sort_by_kind (retain_other slots kind ++ r ∷ []),
  length-append (retain_other slots kind) (r ∷ []),
  length-retain_has slots kind h,
)

-- The slot of a device: its key opens it, and the format can hold it.
pub record IsDeviceSlot (c : Crates) (device_key mk : Bytes) (s : Slot) : Type 0 where
  pub opens : unwrap_device c s device_key ≡ ok mk
  pub kind : s.kind ≡ slot_device
  pub read : IsRead s

pub wrap_device-IsDeviceSlot :
    (c : Crates) (laws : IsAead c) (random_salt random_nonce : Result Bytes) (device_key mk : Bytes)
    (s : Slot)
    → length mk ≡ mk_len
    → ((b : Bytes) → random_salt ≡ ok b → length b ≡ 16)
    → ((b : Bytes) → random_nonce ≡ ok b → length b ≡ 12)
    → wrap_device c random_salt random_nonce device_key mk ≡ ok s
    → IsDeviceSlot c device_key mk s
unfolding wrap_device
wrap_device-IsDeviceSlot c laws random_salt random_nonce device_key mk s size sixteen twelve h =
    let (opens, kind) =
      unwrap_device-wrap_device c laws random_salt random_nonce device_key mk s size h in
    by_ok random_salt _ h λ salt e₁ h₁. by_ok (device_kek c device_key salt) _ h₁ λ kek e₂ h₂.
      let (_, _, kdf_id, params, salted, long, drawn) =
        unwrap_under-wrap_under c laws random_nonce slot_device 2 _ salt kek mk s size h₂ in
      let salt_long : length s.salt ≡ 16 = rw salted (sixteen salt e₁) in
      let nonce_long = twelve s.wrap_nonce drawn in
      let m : s.kdf_params.m_cost ≡ 0 = ap (λ (p : KdfParams). p.m_cost) params in
      let t : s.kdf_params.t_cost ≡ 0 = ap (λ (p : KdfParams). p.t_cost) params in
      let n : s.kdf_params.p_cost ≡ 0 = ap (λ (p : KdfParams). p.p_cost) params in
      record { opens = opens; kind = kind; read = (omega arith, inr kdf_id) }
