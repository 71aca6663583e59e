-- ===== src/Sftp/Wire/Cursors.antt =====
-- src/ssh/sftp/wire.rs: what the cursor's reads give on the bytes that the encoder writes.
use ssh_control.Prelude.{
  ℕ, ◌+◌, ◌-◌, ◌*◌, ◌/◌, ◌%◌, ◌≡◌, refl, ap, ◌∙◌, Bytes, length, [], ◌∷◌, ◌++◌, Bool, true, false,
  leb, if◌then◌else◌, append_assoc,
}
use ssh_control.Prelude.{
  some, none, ok, ◌>>=◌, index, to_be_bytes32, to_be_bytes64, IsU32, IsU64, At, arith, le→leb,
  length-append, length-drop, take-append, drop-append, drop-add, subst,
}
use ssh_control.Errors.{Result}
use ssh_control.Sftp.Utf8.{from_utf8_lossy}
use ssh_control.Sftp.Wire.{
  Cursor, take_bytes, be_u32, read_u8, read_u32, read_u64, read_bytes, read_string, read_if,
}

abbrev pub advance : ℕ → Cursor → Cursor
advance n c = record { buf = c.buf; pos = c.pos + n }

-- What is left of the packet.
abbrev pub Rest : Cursor → Bytes → Type 0
Rest c r = At c.buf c.pos r

-- The read takes exactly `s` and gives `a`, wherever `s` stands.
abbrev pub Reads : {A : Type 0} → (Cursor → Result (A × Cursor)) → Bytes → A → Type 0
Reads read s a =
    (c : Cursor) (r : Bytes)
    → IsU64 (length c.buf)
    → Rest c (s ++ r)
    → (read c ≡ ok (a, advance (length s) c)) × Rest (advance (length s) c) r

pub take_bytes-Reads : (n : ℕ) (s : Bytes) → n ≡ length s → Reads (take_bytes n) s s
unfolding take_bytes
take_bytes-Reads n s e c r wide (here, within) =
    let total : length s + length r ≡ length c.buf - c.pos =
      omega (arith, ap length here, length-drop c.pos c.buf, length-append s r) in
    let fits : leb (c.pos + n) (length c.buf) ≡ true = le→leb _ _ (omega arith) in
    let narrow : leb 18446744073709551616 (c.pos + n) ≡ false = ground arith in
    let span : c.pos + n - c.pos ≡ length s = omega arith in
    (
      rw (narrow, take_bytes)
          (rw (fits, take_bytes) (rw span (rw here (rw (take-append s r) (rw e refl))))),
      (drop-add c.pos (length s) c.buf ∙ rw here (drop-append s r), omega arith),
    )

pub Reads-bind :
    {A B : Type 0} (read : Cursor → Result (A × Cursor)) (k : A × Cursor → Result (B × Cursor))
    (s t : Bytes) (a : A) (b : B)
    → Reads read s a
    → Reads (λ c. k (a, c)) t b
    → Reads (λ c. read c >>= k) (s ++ t) b
Reads-bind read k s t a b first second c r wide here =
    let (e, here') = first c (t ++ r) wide (subst (λ x. Rest c x) (append_assoc s t r) here) in
    let (e', rest) = second (advance (length s) c) r wide here' in
    let same : advance (length t) (advance (length s) c) ≡ advance (length (s ++ t)) c =
      ap (λ n. record { buf = c.buf; pos = n })
        (let d : c.pos + length s + length t ≡ c.pos + length (s ++ t) =
            omega (arith, length-append s t) in
          d) in
    subst (λ x. (read c >>= k ≡ ok (b, x)) × Rest x r) same (rw e e', rest)

-- A read that ends without another one.
pub Reads-ok :
    {A B : Type 0} (read : Cursor → Result (A × Cursor)) (f : A → B) (s : Bytes) (a : A)
    → Reads read s a
    → Reads (λ c. read c >>= λ (a, c). ok (f a, c)) s (f a)
Reads-ok read f s a first c r wide here = let (e, rest) = first c r wide here in (rw e refl, rest)

pub Reads-done : {A : Type 0} (a : A) → Reads (λ c. ok (a, c)) [] a
Reads-done {A} a c r wide here =
    let z : c.pos ≡ c.pos + 0 = omega arith in
    subst
      (λ n.
        (◌≡◌ {A = Result (A × Cursor)} (ok (a, c)) (ok (a, record { buf = c.buf; pos = n })))
        × At c.buf n r)
      z (refl, here)

-- The bytes that a read asked for by a flag finds.
abbrev pub bytes_if : Bool → Bytes → Bytes
bytes_if asked s = if asked then s else []

pub read_if-Reads :
    {A : Type 0} (asked : Bool) (read : Cursor → Result (A × Cursor)) (s : Bytes) (a : A)
    → Reads read s a
    → Reads (read_if asked read) (bytes_if asked s) (if asked then some a else none)
read_if-Reads true read s a first = Reads-ok read some s a first
read_if-Reads false read s a first = Reads-done none

pub be_u32_lem : (v : ℕ) → IsU32 v → be_u32 (to_be_bytes32 v) 0 ≡ ok v
unfolding be_u32 index
be_u32_lem v h = ap ok (omega arith)

high_u32 : (v : ℕ) → IsU64 v → be_u32 (to_be_bytes64 v) 0 ≡ ok (v / 4294967296)
unfolding be_u32 index
high_u32 v h = ap ok (omega arith)

low_u32 : (v : ℕ) → be_u32 (to_be_bytes64 v) 4 ≡ ok (v % 4294967296)
unfolding be_u32 index
low_u32 v = ap ok (omega arith)

pub read_u32-Reads : (v : ℕ) → IsU32 v → Reads read_u32 (to_be_bytes32 v) v
unfolding read_u32
read_u32-Reads v h c r wide here =
    let (e, rest) = take_bytes-Reads 4 (to_be_bytes32 v) refl c r wide here in
    (rw e (rw (be_u32_lem v h) refl), rest)

pub read_u64-Reads : (v : ℕ) → IsU64 v → Reads read_u64 (to_be_bytes64 v) v
unfolding read_u64
read_u64-Reads v h c r wide here =
    let (e, rest) = take_bytes-Reads 8 (to_be_bytes64 v) refl c r wide here in
    let whole : 4294967296 * (v / 4294967296) + v % 4294967296 ≡ v = omega arith in
    (rw e (rw (high_u32 v h) (rw (low_u32 v) (ap (λ n. ok (n, advance 8 c)) whole))), rest)

pub read_u8-Reads : (b : ℕ) → Reads read_u8 (b ∷ []) b
unfolding read_u8 index
read_u8-Reads b c r wide here =
    let (e, rest) = take_bytes-Reads 1 (b ∷ []) refl c r wide here in (rw e refl, rest)

-- A byte string with its length in front.
abbrev pub string_bytes : Bytes → Bytes
string_bytes s = to_be_bytes32 (length s) ++ s

pub read_bytes-Reads : (s : Bytes) → IsU32 (length s) → Reads read_bytes (string_bytes s) s
unfolding read_bytes
read_bytes-Reads s h =
    Reads-bind read_u32 (λ (len, c). take_bytes len c) (to_be_bytes32 (length s)) s (length s) s
      (read_u32-Reads (length s) h) (take_bytes-Reads (length s) s refl)

pub read_string-Reads :
    (s : Bytes) → IsU32 (length s) → Reads read_string (string_bytes s) (from_utf8_lossy s)
unfolding read_string
read_string-Reads s h =
    Reads-ok read_bytes from_utf8_lossy (string_bytes s) s (read_bytes-Reads s h)
