-- ===== src/Vault/Store/Written.antt =====
-- src/config/store.rs: what a successful write left behind, and the inversion of chains of operations.
use ssh_control.Prelude.{
  ◌+◌, ◌<◌, ◌≤◌, ◌≡◌, refl, ap, Bytes, List, [], ◌∷◌, length, ok, err, panic, some, arith, inl,
}
use ssh_control.Errors.{Result}
use ssh_control.Vault.Format.{KdfParams, Slot, Envelope, slot_password, encode, header_aad}
use ssh_control.Vault.Format.Fields.{IsRead}
use ssh_control.Vault.Crypto.{Crates, encrypt}
use ssh_control.Vault.Keyslot.{find}
use ssh_control.Vault.Migrate.{Serde, config_from_slice}
use ssh_control.Vault.Store.{World, Env, interactive, Op, on_ok}

-- What serde_json documents of the text of a config of the current version: its stamp and the config
-- are read back from it. It is no longer than the format's length field can say.
pub record IsWritten {Config Object : Type 0} (json : Serde Config Object) (config : Config)
    : Type 0 where
  pub stamp : (text : Bytes) → json.to_vec config ≡ ok text → json.probe text ≡ ok (some 2)
  pub read_back :
      (text : Bytes) → json.to_vec config ≡ ok text → json.config_from_slice text ≡ ok config
  pub short : (text : Bytes) → json.to_vec config ≡ ok text → length text + 16 < 4_294_967_296

-- What the text of a config is read as: `config'`, which is `config` where its version is the current
-- one, and the migrated config where it is older.
pub record IsReread {Config Object : Type 0} (json : Serde Config Object) (config config' : Config)
    : Type 0 where
  pub read :
      (text : Bytes) → json.to_vec config ≡ ok text → config_from_slice json text ≡ ok config'
  pub short : (text : Bytes) → json.to_vec config ≡ ok text → length text + 16 < 4_294_967_296

abbrev pub envelope : List Slot → Bytes → Bytes → Envelope
envelope slots nonce ciphertext = record { slots = slots; nonce = nonce; ciphertext = ciphertext }

-- `getrandom::fill` fills the buffer that it is given.
pub record Fills (env : Env) : Type 0 where
  pub master_key : (b : Bytes) → env.master_key ≡ ok b → length b ≡ 32
  pub salt : (b : Bytes) → env.salt ≡ ok b → length b ≡ 16
  pub wrap_nonce : (b : Bytes) → env.wrap_nonce ≡ ok b → length b ≡ 12
  pub nonce : (b : Bytes) → env.nonce ≡ ok b → length b ≡ 12

-- The file that a successful write leaves.
pub record Wrote {Config Object : Type 0} (c : Crates) (json : Serde Config Object)
    (config : Config) (mk : Bytes) (slots : List Slot) (env : Env) (w : World) : Type 0 where
  pub text : Bytes
  pub nonce : Bytes
  pub ciphertext : Bytes
  pub serialized : json.to_vec config ≡ ok text
  pub drawn : env.nonce ≡ ok nonce
  pub sealed : encrypt c mk nonce (header_aad slots) text ≡ ok ciphertext
  pub on_disk : w.disk.vault ≡ some (encode slots nonce ciphertext)
  pub some_slot : 1 ≤ length slots

pub by_op :
    {A B : Type 0} {C : Type 0} (r : World × Result A) (f : A → Op B) {w' : World} {b : B}
    → on_ok r f ≡ (w', ok b)
    → ((w₁ : World) (a : A) → r ≡ (w₁, ok a) → f a w₁ ≡ (w', ok b) → C)
    → C
by_op (w, ok a) f h k = k w a refl h
by_op (w, err e) f h k = absurd (cc)
by_op (w, panic) f h k = absurd (cc)

pub by_lift :
    {A B : Type 0} {C : Type 0} (r : Result A) (w : World) (f : A → Op B) {w' : World} {b : B}
    → on_ok (w, r) f ≡ (w', ok b)
    → ((a : A) → r ≡ ok a → f a w ≡ (w', ok b) → C)
    → C
by_lift (ok a) w f h k = k a refl h
by_lift (err e) w f h k = absurd (cc)
by_lift panic w f h k = absurd (cc)

pub one_slot :
    (r : Result Slot) (slots : List Slot)
    → (elim r [ ok slot ↦ ok (slot ∷ []) | err e ↦ err e | panic ↦ panic ]) ≡ ok slots
    → (s : Slot) × (r ≡ ok s) × (s ∷ [] ≡ slots)
one_slot (ok s) slots h = (s, refl, cc)
one_slot (err e) slots h = absurd (cc)
one_slot panic slots h = absurd (cc)

pub password_slot-IsRead :
    (s : Slot)
    → s.kind ≡ slot_password
    → s.kdf_id ≡ 1
    → s.kdf_params ≡ interactive
    → length s.salt ≡ 16
    → length s.wrap_nonce ≡ 12
    → length s.wrapped_mk ≡ 48
    → IsRead s
password_slot-IsRead s kind kdf_id costs salt nonce wrapped =
    let m : s.kdf_params.m_cost ≡ 19_456 = ap (λ (p : KdfParams). p.m_cost) costs in
    let t : s.kdf_params.t_cost ≡ 2 = ap (λ (p : KdfParams). p.t_cost) costs in
    let n : s.kdf_params.p_cost ≡ 1 = ap (λ (p : KdfParams). p.p_cost) costs in
    (omega arith, inl (omega arith))

pub find_one :
    (s : Slot) (slots : List Slot)
    → s ∷ [] ≡ slots
    → s.kind ≡ slot_password
    → find slots slot_password ≡ some s
unfolding find
find_one s slots one kind = rw (← one) (ground arith)
