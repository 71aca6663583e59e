-- ===== src/Vault/Format/Binding.antt =====
-- src/config/format.rs: what the authenticated data pins down.
use ssh_control.Prelude.{
  ℕ, ◌%◌, ◌<◌, ◌≡◌, ◌↔◌, refl, sym, ◌∙◌, Bytes, length, List, [], ◌∷◌, ◌++◌, arith, All,
  append_split, to_le_bytes32, IsU32, append_assoc,
}
use ssh_control.Vault.Format.{
  KdfParams, Slot, IsKdfParams, IsSlot, encode_kdf_params, encode_slot_desc, encode_slot,
  encode_slots, encode_header, slot_aad, header_aad,
}

-- A slot's descriptor: what its own wrapped key is bound to.
abbrev pub SameDescriptor : Slot → Slot → Type 0
SameDescriptor s t =
    (s.kind ≡ t.kind) × (s.kdf_id ≡ t.kdf_id) × (s.kdf_params ≡ t.kdf_params) × (s.salt ≡ t.salt)

to_le_bytes32-injective : (v w : ℕ) → IsU32 v → IsU32 w → to_le_bytes32 v ≡ to_le_bytes32 w → v ≡ w
to_le_bytes32-injective v w p q h = ground arith

encode_kdf_params-injective :
    (p q : KdfParams)
    → IsKdfParams p
    → IsKdfParams q
    → encode_kdf_params p ≡ encode_kdf_params q
    → p ≡ q
unfolding encode_kdf_params
encode_kdf_params-injective p q hp hq h =
    let (m, h₁) = append_split (to_le_bytes32 p.m_cost) (to_le_bytes32 q.m_cost) refl h in
    let (t, c) = append_split (to_le_bytes32 p.t_cost) (to_le_bytes32 q.t_cost) refl h₁ in
    let em = to_le_bytes32-injective _ _ hp.m_cost hq.m_cost m in
    let et = to_le_bytes32-injective _ _ hp.t_cost hq.t_cost t in
    let ec = to_le_bytes32-injective _ _ hp.p_cost hq.p_cost c in cc

length-encode_slot_desc : (s : Slot) → IsSlot s → length (encode_slot_desc s) ≡ 30
unfolding encode_slot_desc encode_kdf_params
length-encode_slot_desc s h = omega (arith, h.salt)

descriptor :
    (s t : Slot)
    → IsSlot s
    → IsSlot t
    → encode_slot_desc s ≡ encode_slot_desc t
    → SameDescriptor s t
unfolding encode_slot_desc
descriptor s t hs ht e =
    let k : s.kind ≡ t.kind = cc in
    let i : s.kdf_id ≡ t.kdf_id = cc in
    let rest : encode_kdf_params s.kdf_params ++ s.salt ≡ encode_kdf_params t.kdf_params ++ t.salt =
      cc in
    let (p, salt) =
      append_split (encode_kdf_params s.kdf_params) (encode_kdf_params t.kdf_params)
        (unfold encode_kdf_params in refl) rest in
    (k, i, encode_kdf_params-injective _ _ hs.kdf_params ht.kdf_params p, salt)

-- The data that a slot's wrapped key is authenticated with is the same for two slots exactly when
-- they agree on kind, key derivation, cost parameters and salt.
pub slot_aad_iff :
    (s t : Slot) → IsSlot s → IsSlot t → (slot_aad s ≡ slot_aad t) ↔ SameDescriptor s t
unfolding slot_aad
slot_aad_iff s t hs ht =
    (descriptor s t hs ht, λ (k, i, p, salt). unfold encode_slot_desc in rw (k, i, p, salt))

encode_slot-injective :
    (s t : Slot) (a b : Bytes)
    → IsSlot s
    → IsSlot t
    → encode_slot s ++ a ≡ encode_slot t ++ b
    → (s ≡ t) × (a ≡ b)
unfolding encode_slot
encode_slot-injective s t a b hs ht e =
    let e' : encode_slot_desc s ++ (s.wrap_nonce ++ (s.wrapped_mk ++ a))
        ≡ encode_slot_desc t ++ (t.wrap_nonce ++ (t.wrapped_mk ++ b)) =
      simp append_assoc at e in
    let (d, e₁) =
      append_split (encode_slot_desc s) (encode_slot_desc t)
        (length-encode_slot_desc s hs ∙ sym (length-encode_slot_desc t ht)) e' in
    let (n, e₂) = append_split s.wrap_nonce t.wrap_nonce (hs.wrap_nonce ∙ sym ht.wrap_nonce) e₁ in
    let (w, e₃) = append_split s.wrapped_mk t.wrapped_mk (hs.wrapped_mk ∙ sym ht.wrapped_mk) e₂ in
    let (k, i, p, salt) = descriptor s t hs ht d in (cc, e₃)

encode_slots-injective :
    (ss ts : List Slot)
    → All IsSlot ss
    → All IsSlot ts
    → length ss ≡ length ts
    → encode_slots ss ≡ encode_slots ts
    → ss ≡ ts
unfolding encode_slots
encode_slots-injective [] [] hs ht l e = refl
encode_slots-injective [] (t ∷ ts) hs ht l e = absurd (omega arith)
encode_slots-injective (s ∷ ss) [] hs ht l e = absurd (omega arith)
encode_slots-injective (s ∷ ss) (t ∷ ts) (p, hs) (q, ht) l e =
    let (same, rest) = encode_slot-injective s t (encode_slots ss) (encode_slots ts) p q e in
    let more = encode_slots-injective ss ts hs ht (omega arith) rest in cc

-- Two vaults with the same authenticated header have the same slots, wrapped keys included: no slot
-- can be edited, spliced in, dropped or reordered without changing the data the body is bound to.
pub header_aad-injective :
    (ss ts : List Slot)
    → All IsSlot ss
    → All IsSlot ts
    → length ss < 256
    → length ts < 256
    → header_aad ss ≡ header_aad ts
    → ss ≡ ts
unfolding header_aad encode_header
header_aad-injective ss ts hs ht ls lt e =
    let count : length ss % 256 ≡ length ts % 256 = cc in
    let rest : encode_slots ss ≡ encode_slots ts = cc in
    encode_slots-injective ss ts hs ht (omega arith) rest

-- The wrapped key is the message, so the data it is bound to does not depend on it.
pub slot_aad-wrapped_mk :
    (s : Slot) (w : Bytes) → slot_aad (record s { wrapped_mk = w }) ≡ slot_aad s
unfolding slot_aad encode_slot_desc
slot_aad-wrapped_mk s w = refl
