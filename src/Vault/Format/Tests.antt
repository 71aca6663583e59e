-- ===== src/Vault/Format/Tests.antt =====
-- src/config/format.rs: runs of the reader, and its theorems at concrete vaults.
use ssh_control.Prelude.{
  ◌%◌, ◌≡◌, ◌↔◌, refl, length, [], ◌∷◌, ◌++◌, arith, All, IsByte, ok, err, panic, replicate,
  to_le_bytes32, codes, index, slice, bytes_eq, inl, inr,
}
use ssh_control.Errors.{not_our_file, unsupported_format_version, corrupt_file, file_too_short}
use ssh_control.Vault.Format.{
  KdfParams, Slot, Envelope, EnvelopeV1, IsSlot, v1, magic, encode, slot_aad, header_aad_v1,
  encode_header, encode_slots, encode_slot, encode_slot_desc, encode_kdf_params,
}
use ssh_control.Vault.Format.Decode.{decode_any, decode}
use ssh_control.Vault.Format.Sound.{IsEnvelope, encode-decode}
use ssh_control.Vault.Format.RoundTrip.{decode-encode, decode_any-header_aad_v1}
use ssh_control.Vault.Format.Panics.{decode_any-panic_iff}
use ssh_control.Vault.Format.Binding.{SameDescriptor, slot_aad_iff, header_aad-injective}

abbrev interactive : KdfParams
interactive = record { m_cost = 19_456; t_cost = 2; p_cost = 1 }

abbrev password_slot : Slot
password_slot = record {
  kind = 1;
  kdf_id = 1;
  kdf_params = interactive;
  salt = replicate 16 7;
  wrap_nonce = replicate 12 3;
  wrapped_mk = replicate 48 5;
}

abbrev device_slot : Slot
device_slot = record {
  kind = 2;
  kdf_id = 2;
  kdf_params = record { m_cost = 0; t_cost = 0; p_cost = 0 };
  salt = replicate 16 8;
  wrap_nonce = replicate 12 4;
  wrapped_mk = replicate 48 6;
}

password_slot-IsSlot : IsSlot password_slot
password_slot-IsSlot = omega arith

device_slot-IsSlot : IsSlot device_slot
device_slot-IsSlot = omega arith

abbrev sample : Envelope
sample = record {
  slots = password_slot ∷ device_slot ∷ [];
  nonce = replicate 12 9;
  ciphertext = codes "ciphertext";
}

sample-IsEnvelope : IsEnvelope sample
sample-IsEnvelope = record {
  some_slot = omega arith;
  few_slots = omega arith;
  each_slot = ((password_slot-IsSlot, inl (omega arith)), ((device_slot-IsSlot, inr refl), tt));
  nonce = refl;
  ciphertext = omega arith;
}

abbrev sample_v1 : EnvelopeV1
sample_v1 = record {
  kdf_params = interactive;
  salt = replicate 16 7;
  nonce = replicate 12 9;
  ciphertext = codes "ciphertext";
}

foreign_file : decode_any (codes "XSHCTRL1xx") ≡ err not_our_file
unfolding decode_any index slice bytes_eq
foreign_file = refl

newer_file : decode_any (magic ++ 3 ∷ []) ≡ err (unsupported_format_version 3)
unfolding decode_any index slice bytes_eq
newer_file = refl

short_file : decode_any (codes "SSHCTRL1") ≡ err (corrupt_file file_too_short)
unfolding decode_any
short_file = refl

decode-encode_example : decode (encode sample.slots sample.nonce sample.ciphertext) ≡ ok sample
decode-encode_example = decode-encode sample sample-IsEnvelope

sample_bytes : All IsByte (encode sample.slots sample.nonce sample.ciphertext)
unfolding encode encode_header encode_slots encode_slot encode_slot_desc encode_kdf_params
sample_bytes = omega arith

encode-decode_example :
    (encode sample.slots sample.nonce sample.ciphertext
      ≡ encode sample.slots sample.nonce sample.ciphertext)
    × IsEnvelope sample
encode-decode_example =
    encode-decode (encode sample.slots sample.nonce sample.ciphertext) sample_bytes sample
      decode-encode_example

decode_any-header_aad_v1_example :
    decode_any (
      header_aad_v1 sample_v1
      ++ (sample_v1.nonce
          ++ (to_le_bytes32 (length sample_v1.ciphertext % 4294967296) ++ sample_v1.ciphertext)))
    ≡ ok (v1 sample_v1)
decode_any-header_aad_v1_example =
    decode_any-header_aad_v1 sample_v1 (omega arith) (inl (omega arith)) refl refl (omega arith)

decode_any-panic_iff_example :
    (decode_any (magic ++ 2 ∷ []) ≡ panic) ↔ (magic ++ 2 ∷ [] ≡ magic ++ 2 ∷ [])
decode_any-panic_iff_example = decode_any-panic_iff (magic ++ 2 ∷ [])

slot_aad_iff_example :
    (slot_aad password_slot ≡ slot_aad device_slot) ↔ SameDescriptor password_slot device_slot
slot_aad_iff_example =
    slot_aad_iff password_slot device_slot password_slot-IsSlot device_slot-IsSlot

header_aad-injective_example : sample.slots ≡ sample.slots
header_aad-injective_example =
    header_aad-injective sample.slots sample.slots (password_slot-IsSlot, (device_slot-IsSlot, tt))
      (password_slot-IsSlot, (device_slot-IsSlot, tt)) (omega arith) (omega arith) refl
