-- ===== src/Sftp/Wire/Blocks.antt =====
-- src/ssh/sftp/wire.rs: the attribute block of a server, laid out as the SFTP draft says, and read back.
use ssh_control.Prelude.{
  ℕ, ◌+◌, ◌<◌, ◌≡◌, refl, Bytes, length, List, [], ◌∷◌, ◌++◌, Bool, true, false, ◌&&◌, not, ltb,
  if◌then◌else◌,
}
use ssh_control.Prelude.{
  some, none, to_be_bytes32, to_be_bytes64, IsU32, IsU64, All, arith, ltb→lt, ◌>>=◌,
}
use ssh_control.Errors.{Result}
use ssh_control.Sftp.Wire.{
  Cursor, Attrs, read_u32, read_u64, read_if, second_u32, skip_pairs, skip_extended, decode_attrs,
  has_flag, attr_size, attr_uidgid, attr_permissions, attr_acmodtime, attr_extended, read_bytes,
}
use ssh_control.Sftp.Wire.Cursors.{
  Reads, Reads-bind, Reads-ok, Reads-done, read_if-Reads, bytes_if, read_u32-Reads, read_u64-Reads,
  read_bytes-Reads, string_bytes,
}

-- What a server sends about a file: each block with the flag that announces it.
pub record ServerAttrs : Type 0 where
  pub with_size : Bool
  pub size : ℕ
  pub with_uidgid : Bool
  pub uid : ℕ
  pub gid : ℕ
  pub with_permissions : Bool
  pub permissions : ℕ
  pub with_acmodtime : Bool
  pub atime : ℕ
  pub mtime : ℕ
  pub with_extended : Bool
  pub extended : List (Bytes × Bytes)

abbrev pub bit : Bool → ℕ → ℕ
bit true n = n
bit false n = 0

abbrev pub flag_word : Bool → Bool → Bool → Bool → Bool → ℕ
flag_word s u p a x =
    bit s attr_size
    + bit u attr_uidgid
    + bit p attr_permissions
    + bit a attr_acmodtime
    + bit x attr_extended

abbrev pub flags_of : ServerAttrs → ℕ
flags_of w = flag_word w.with_size w.with_uidgid w.with_permissions w.with_acmodtime w.with_extended

abbrev pub pairs_bytes : List (Bytes × Bytes) → Bytes
pairs_bytes [] = []
pairs_bytes ((k, v) ∷ pairs) = string_bytes k ++ (string_bytes v ++ pairs_bytes pairs)

unfoldable pub attrs_bytes : ServerAttrs → Bytes
attrs_bytes w =
    to_be_bytes32 (flags_of w)
    ++ (bytes_if w.with_size (to_be_bytes64 w.size)
        ++ (bytes_if w.with_uidgid (to_be_bytes32 w.uid ++ to_be_bytes32 w.gid)
            ++ (bytes_if w.with_permissions (to_be_bytes32 w.permissions)
                ++ (bytes_if w.with_acmodtime (to_be_bytes32 w.atime ++ to_be_bytes32 w.mtime)
                    ++ bytes_if w.with_extended
                        (to_be_bytes32 (length w.extended) ++ pairs_bytes w.extended)))))

-- What the client keeps of it.
abbrev pub attrs_of : ServerAttrs → Attrs
attrs_of w = record {
  size = if w.with_size then some w.size else none;
  permissions = if w.with_permissions then some w.permissions else none;
  mtime = if w.with_acmodtime then some w.mtime else none;
}

abbrev pub IsShort : Bytes → Type 0
IsShort s = IsU32 (length s)

pub record IsServerAttrs (w : ServerAttrs) : Type 0 where
  pub size : IsU64 w.size
  pub uid : IsU32 w.uid
  pub gid : IsU32 w.gid
  pub permissions : IsU32 w.permissions
  pub atime : IsU32 w.atime
  pub mtime : IsU32 w.mtime
  pub count : IsU32 (length w.extended)
  pub extended : All (λ p. IsShort p.0 × IsShort p.1) w.extended

same : Bool → Bool → Bool
same true b = b
same false b = not b

same_sound : (a b : Bool) → same a b ≡ true → a ≡ b
unfolding same
same_sound true true h = refl
same_sound true false h = cc
same_sound false true h = cc
same_sound false false h = refl

abbrev both : (Bool → Bool) → Bool
both f = f true && f false

both_sound : (f : Bool → Bool) (b : Bool) → both f ≡ true → f b ≡ true
both_sound f true h = ground arith
both_sound f false h = ground arith

flags_hold : Bool → Bool → Bool → Bool → Bool → Bool
flags_hold s u p a x =
    let w = flag_word s u p a x in
    same (has_flag w attr_size) s
    && (same (has_flag w attr_uidgid) u
        && (same (has_flag w attr_permissions) p
            && (same (has_flag w attr_acmodtime) a
                && (same (has_flag w attr_extended) x && ltb w 4294967296))))

all_flags : both (λ s. both (λ u. both (λ p. both (λ a. both (λ x. flags_hold s u p a x))))) ≡ true
unfolding flags_hold same
all_flags = refl

flags_hold_all : (s u p a x : Bool) → flags_hold s u p a x ≡ true
flags_hold_all s u p a x =
    both_sound (λ x. flags_hold s u p a x) x
      (both_sound (λ a. both (λ x. flags_hold s u p a x)) a
        (both_sound (λ p. both (λ a. both (λ x. flags_hold s u p a x))) p
          (both_sound (λ u. both (λ p. both (λ a. both (λ x. flags_hold s u p a x)))) u
            (both_sound (λ s. both (λ u. both (λ p. both (λ a. both (λ x. flags_hold s u p a x)))))
              s all_flags))))

and_split : (a b : Bool) → (a && b) ≡ true → (a ≡ true) × (b ≡ true)
and_split true b h = (refl, h)
and_split false b h = absurd (cc)

-- Each flag is read back from the word that carries it.
flags_read :
    (s u p a x : Bool)
    → (has_flag (flag_word s u p a x) attr_size ≡ s)
      × (has_flag (flag_word s u p a x) attr_uidgid ≡ u)
      × (has_flag (flag_word s u p a x) attr_permissions ≡ p)
      × (has_flag (flag_word s u p a x) attr_acmodtime ≡ a)
      × (has_flag (flag_word s u p a x) attr_extended ≡ x)
      × (flag_word s u p a x < 4294967296)
unfolding flags_hold
flags_read s u p a x =
    let w = flag_word s u p a x in
    let (h₁, t₁) = and_split (same (has_flag w attr_size) s) _ (flags_hold_all s u p a x) in
    let (h₂, t₂) = and_split (same (has_flag w attr_uidgid) u) _ t₁ in
    let (h₃, t₃) = and_split (same (has_flag w attr_permissions) p) _ t₂ in
    let (h₄, t₄) = and_split (same (has_flag w attr_acmodtime) a) _ t₃ in
    let (h₅, t₅) = and_split (same (has_flag w attr_extended) x) _ t₄ in
    (
      same_sound _ _ h₁,
      same_sound _ _ h₂,
      same_sound _ _ h₃,
      same_sound _ _ h₄,
      same_sound _ _ h₅,
      ltb→lt _ _ t₅,
    )

second_u32-Reads :
    (a b : ℕ) → IsU32 a → IsU32 b → Reads second_u32 (to_be_bytes32 a ++ to_be_bytes32 b) b
unfolding second_u32
second_u32-Reads a b h k =
    Reads-bind read_u32 (λ (v, c). read_u32 c) (to_be_bytes32 a) (to_be_bytes32 b) a b
      (read_u32-Reads a h) (read_u32-Reads b k)

-- The loop over the extended pairs ends right after the last of them.
skip_pairs-Reads :
    (pairs : List (Bytes × Bytes))
    → All (λ p. IsShort p.0 × IsShort p.1) pairs
    → Reads (skip_pairs (length pairs)) (pairs_bytes pairs) tt
unfolding skip_pairs
skip_pairs-Reads [] h = Reads-done tt
skip_pairs-Reads ((k, v) ∷ pairs) ((hk, hv), h) =
    Reads-bind read_bytes (λ (k, c). do (v, c) ← read_bytes c; skip_pairs (length pairs) c)
      (string_bytes k) _ k tt (read_bytes-Reads k hk)
      (Reads-bind read_bytes (λ (v, c). skip_pairs (length pairs) c) (string_bytes v)
        (pairs_bytes pairs) v tt (read_bytes-Reads v hv) (skip_pairs-Reads pairs h))

skip_extended-Reads :
    (pairs : List (Bytes × Bytes))
    → IsU32 (length pairs)
    → All (λ p. IsShort p.0 × IsShort p.1) pairs
    → Reads skip_extended (to_be_bytes32 (length pairs) ++ pairs_bytes pairs) tt
unfolding skip_extended
skip_extended-Reads pairs n h =
    Reads-bind read_u32 (λ (n, c). skip_pairs n c) (to_be_bytes32 (length pairs))
      (pairs_bytes pairs) (length pairs) tt (read_u32-Reads (length pairs) n)
      (skip_pairs-Reads pairs h)

-- A read asked for by its flag.
read_flag :
    {A : Type 0} (b asked : Bool)
    → b ≡ asked
    → (read : Cursor → Result (A × Cursor)) (s : Bytes) (a : A) → Reads read s a
    → Reads (read_if b read) (bytes_if asked s) (if asked then some a else none)
read_flag b asked e read s a first = rw e (read_if-Reads asked read s a first)

-- A server's attributes are read back, extended pairs and all: the next read starts right after them.
pub decode_attrs-Reads :
    (w : ServerAttrs) → IsServerAttrs w → Reads decode_attrs (attrs_bytes w) (attrs_of w)
unfolding decode_attrs attrs_bytes
decode_attrs-Reads w h =
    let (fs, fu, fp, fa, fx, narrow) =
      flags_read w.with_size w.with_uidgid w.with_permissions w.with_acmodtime w.with_extended in
    let flags = flags_of w in
    Reads-bind read_u32 _ (to_be_bytes32 flags) _ flags (attrs_of w) (read_u32-Reads flags narrow) (
      Reads-bind (read_if (has_flag flags attr_size) read_u64) _
        (bytes_if w.with_size (to_be_bytes64 w.size)) _ _ _
        (read_flag _ w.with_size fs read_u64 _ w.size (read_u64-Reads w.size h.size))
        (Reads-bind (read_if (has_flag flags attr_uidgid) second_u32) _
          (bytes_if w.with_uidgid (to_be_bytes32 w.uid ++ to_be_bytes32 w.gid)) _ _ _
          (read_flag _ w.with_uidgid fu second_u32 _ w.gid
            (second_u32-Reads w.uid w.gid h.uid h.gid))
          (Reads-bind (read_if (has_flag flags attr_permissions) read_u32) _
            (bytes_if w.with_permissions (to_be_bytes32 w.permissions)) _ _ _
            (read_flag _ w.with_permissions fp read_u32 _ w.permissions
              (read_u32-Reads w.permissions h.permissions))
            (Reads-bind (read_if (has_flag flags attr_acmodtime) second_u32) _
              (bytes_if w.with_acmodtime (to_be_bytes32 w.atime ++ to_be_bytes32 w.mtime)) _ _ _
              (read_flag _ w.with_acmodtime fa second_u32 _ w.mtime
                (second_u32-Reads w.atime w.mtime h.atime h.mtime))
              (Reads-ok (read_if (has_flag flags attr_extended) skip_extended) (λ x. attrs_of w) _ _
                (read_flag _ w.with_extended fx skip_extended _ tt
                  (skip_extended-Reads w.extended h.count h.extended)))))))
