-- ===== src/Sftp/Wire/Safe.antt =====
-- src/ssh/sftp/wire.rs: no packet makes the decoder panic.
use ssh_control.Prelude.{
  ℕ, zero, suc, ◌+◌, ◌-◌, ◌≤◌, ◌≡◌, ◌≢◌, ap, Bytes, [], length, take, drop, ◌==◌, Bool, true, false,
  leb, ltb, if◌then◌else◌,
}
use ssh_control.Prelude.{
  ok, panic, ◌>>=◌, bind-ne-panic, index_below, arith, Bool-cases, inl, inr, length-take,
  length-drop, leb→le,
}
use ssh_control.Errors.{Result, AppError}
use ssh_control.Sftp.Wire.{
  Cursor, take_bytes, be_u32, read_u8, read_u32, read_u64, read_bytes, read_string, read_if,
  second_u32, skip_pairs, skip_extended, decode_attrs, decode_entry, decode_entries, decode_body,
  decode, remaining, fxp_status, fxp_handle, fxp_data, fxp_name, fxp_attrs, fxp_version, new,
  has_flag, attr_size, attr_uidgid, attr_permissions, attr_acmodtime, attr_extended,
}

abbrev IsTotal : {A : Type 0} → (Cursor → Result A) → Type 0
IsTotal read = (c : Cursor) → read c ≢ panic

ok-ne-panic : {A : Type 0} (a : A) → ◌≢◌ {A = Result A} (ok a) panic
ok-ne-panic a = λ p. cc

bind-IsTotal :
    {A B : Type 0} (read : Cursor → Result A) (k : A → Result B)
    → IsTotal read
    → ((a : A) → k a ≢ panic)
    → IsTotal (λ c. read c >>= k)
bind-IsTotal read k first next c = bind-ne-panic (read c) k (first c) (λ a e. next a)

take_bytes-IsTotal : (n : ℕ) → IsTotal (take_bytes n)
unfolding take_bytes
take_bytes-IsTotal n c = elim (Bool-cases (leb 18446744073709551616 (c.pos + n))) [
  | inl wide ↦ rw (wide, take_bytes) (λ p. cc)
  | inr narrow ↦ elim (Bool-cases (leb (c.pos + n) (length c.buf))) [
    | inl fits ↦ rw (narrow, take_bytes) (rw (fits, take_bytes) (λ p. cc))
    | inr short ↦ rw (narrow, take_bytes) (rw (short, take_bytes) (λ p. cc))
  ]
]

take_bytes-length :
    (n : ℕ) (c : Cursor) (b : Bytes) (c' : Cursor) → take_bytes n c ≡ ok (b, c') → length b ≡ n
unfolding take_bytes
take_bytes-length n c b c' h = elim (Bool-cases (leb 18446744073709551616 (c.pos + n))) [
  | inl wide ↦ cc (rw (wide, take_bytes) at h)
  | inr narrow ↦ elim (Bool-cases (leb (c.pos + n) (length c.buf))) [
    | inr short ↦ cc (rw (short, take_bytes) at (rw (narrow, take_bytes) at h))
    | inl fits ↦
        let e : take (c.pos + n - c.pos) (drop c.pos c.buf) ≡ b =
          cc (rw (fits, take_bytes) at (rw (narrow, take_bytes) at h)) in
        omega (
          arith,
          ap length e,
          length-take (c.pos + n - c.pos) (drop c.pos c.buf),
          length-drop c.pos c.buf,
          leb→le _ _ fits,
        )
  ]
]

be_u32-ne-panic : (b : Bytes) (i : ℕ) → i + 4 ≤ length b → be_u32 b i ≢ panic
unfolding be_u32
be_u32-ne-panic b i h =
    let (b0, e0) = index_below {E = AppError} b i (omega arith) in
    let (b1, e1) = index_below {E = AppError} b (i + 1) (omega arith) in
    let (b2, e2) = index_below {E = AppError} b (i + 2) (omega arith) in
    let (b3, e3) = index_below {E = AppError} b (i + 3) (omega arith) in
    rw e0 (rw e1 (rw e2 (rw e3 (λ p. cc))))

read_u8-IsTotal : IsTotal read_u8
unfolding read_u8
read_u8-IsTotal c = bind-ne-panic (take_bytes 1 c) _ (take_bytes-IsTotal 1 c) (λ (b, c') e.
    let (v, h) = index_below {E = AppError} b 0 (omega (arith, take_bytes-length 1 c b c' e)) in
    rw h (λ p. cc))

read_u32-IsTotal : IsTotal read_u32
unfolding read_u32
read_u32-IsTotal c = bind-ne-panic (take_bytes 4 c) _ (take_bytes-IsTotal 4 c) (λ (b, c') e.
    bind-ne-panic (be_u32 b 0) _ (be_u32-ne-panic b 0 (omega (arith, take_bytes-length 4 c b c' e)))
      (λ v h. ok-ne-panic _))

read_u64-IsTotal : IsTotal read_u64
unfolding read_u64
read_u64-IsTotal c = bind-ne-panic (take_bytes 8 c) _ (take_bytes-IsTotal 8 c) (λ (b, c') e.
    bind-ne-panic (be_u32 b 0) _ (be_u32-ne-panic b 0 (omega (arith, take_bytes-length 8 c b c' e)))
      (λ v h.
        bind-ne-panic (be_u32 b 4) _
          (be_u32-ne-panic b 4 (omega (arith, take_bytes-length 8 c b c' e)))
          (λ w g. ok-ne-panic _)))

read_bytes-IsTotal : IsTotal read_bytes
unfolding read_bytes
read_bytes-IsTotal = bind-IsTotal read_u32 _ read_u32-IsTotal (λ (len, c). take_bytes-IsTotal len c)

read_string-IsTotal : IsTotal read_string
unfolding read_string
read_string-IsTotal = bind-IsTotal read_bytes _ read_bytes-IsTotal (λ (b, c). ok-ne-panic _)

read_if-IsTotal :
    {A : Type 0} (asked : Bool) (read : Cursor → Result (A × Cursor))
    → IsTotal read
    → IsTotal (read_if asked read)
read_if-IsTotal true read h = bind-IsTotal read _ h (λ (a, c). ok-ne-panic _)
read_if-IsTotal false read h = λ c. ok-ne-panic _

second_u32-IsTotal : IsTotal second_u32
unfolding second_u32
second_u32-IsTotal = bind-IsTotal read_u32 _ read_u32-IsTotal (λ (v, c). read_u32-IsTotal c)

skip_pairs-IsTotal : (n : ℕ) → IsTotal (skip_pairs n)
unfolding skip_pairs
skip_pairs-IsTotal zero = λ c. ok-ne-panic _
skip_pairs-IsTotal (suc n) =
    bind-IsTotal read_bytes _ read_bytes-IsTotal
      (λ (k, c). bind-IsTotal read_bytes _ read_bytes-IsTotal (λ (d, c). skip_pairs-IsTotal n c) c)

skip_extended-IsTotal : IsTotal skip_extended
unfolding skip_extended
skip_extended-IsTotal = bind-IsTotal read_u32 _ read_u32-IsTotal (λ (n, c). skip_pairs-IsTotal n c)

decode_attrs-IsTotal : IsTotal decode_attrs
unfolding decode_attrs
decode_attrs-IsTotal = bind-IsTotal read_u32 _ read_u32-IsTotal (λ (flags, c).
    bind-IsTotal (read_if (has_flag flags attr_size) read_u64) _
      (read_if-IsTotal (has_flag flags attr_size) read_u64 read_u64-IsTotal)
      (λ (size, c).
        bind-IsTotal (read_if (has_flag flags attr_uidgid) second_u32) _
          (read_if-IsTotal (has_flag flags attr_uidgid) second_u32 second_u32-IsTotal)
          (λ (gid, c).
            bind-IsTotal (read_if (has_flag flags attr_permissions) read_u32) _
              (read_if-IsTotal (has_flag flags attr_permissions) read_u32 read_u32-IsTotal)
              (λ (permissions, c).
                bind-IsTotal (read_if (has_flag flags attr_acmodtime) second_u32) _
                  (read_if-IsTotal (has_flag flags attr_acmodtime) second_u32 second_u32-IsTotal)
                  (λ (mtime, c).
                    bind-IsTotal (read_if (has_flag flags attr_extended) skip_extended) _
                      (read_if-IsTotal (has_flag flags attr_extended) skip_extended
                        skip_extended-IsTotal)
                      (λ (extended, c). ok-ne-panic _) c)
                  c)
              c)
          c)
      c)

decode_entry-IsTotal : IsTotal decode_entry
unfolding decode_entry
decode_entry-IsTotal = bind-IsTotal read_string _ read_string-IsTotal (λ (filename, c).
    bind-IsTotal read_string _ read_string-IsTotal
      (λ (longname, c).
        bind-IsTotal decode_attrs _ decode_attrs-IsTotal (λ (attrs, c). ok-ne-panic _) c)
      c)

decode_entries-IsTotal : (n : ℕ) → IsTotal (decode_entries n)
unfolding decode_entries
decode_entries-IsTotal zero = λ c. ok-ne-panic _
decode_entries-IsTotal (suc n) = bind-IsTotal decode_entry _ decode_entry-IsTotal (λ (e, c).
    bind-IsTotal (decode_entries n) _ (decode_entries-IsTotal n) (λ (entries, c). ok-ne-panic _) c)

if-ne-panic :
    {A : Type 0} (b : Bool) (m k : Result A) → m ≢ panic → k ≢ panic → (if b then m else k) ≢ panic
if-ne-panic true m k p q = p
if-ne-panic false m k p q = q

decode_body-IsTotal : (kind : ℕ) → IsTotal (decode_body kind)
unfolding decode_body
decode_body-IsTotal kind c =
    if-ne-panic (kind == fxp_status) _ _
      (bind-IsTotal read_u32 _ read_u32-IsTotal
        (λ (code, c).
          bind-ne-panic (if ltb 0 (remaining c) then read_string c else ok ([], c)) _
            (if-ne-panic (ltb 0 (remaining c)) _ _ (read_string-IsTotal c) (ok-ne-panic _))
            (λ (message, c) e. ok-ne-panic _))
        c)
      (if-ne-panic (kind == fxp_handle) _ _
        (bind-IsTotal read_bytes _ read_bytes-IsTotal (λ (b, c). ok-ne-panic _) c)
        (if-ne-panic (kind == fxp_data) _ _
          (bind-IsTotal read_bytes _ read_bytes-IsTotal (λ (b, c). ok-ne-panic _) c)
          (if-ne-panic (kind == fxp_name) _ _
            (bind-IsTotal read_u32 _ read_u32-IsTotal
              (λ (n, c).
                bind-IsTotal (decode_entries n) _ (decode_entries-IsTotal n)
                  (λ (es, c). ok-ne-panic _) c)
              c)
            (if-ne-panic (kind == fxp_attrs) _ _
              (bind-IsTotal decode_attrs _ decode_attrs-IsTotal (λ (a, c). ok-ne-panic _) c)
              (λ p. cc)))))

-- No packet, however short or hostile, makes the decoder index out of range: it gives a reply or an
-- error.
pub decode-ne-panic : (body : Bytes) → decode body ≢ panic
unfolding decode
decode-ne-panic body =
    bind-IsTotal read_u8 _ read_u8-IsTotal
      (λ (kind, c).
        if-ne-panic (kind == fxp_version) _ _
          (bind-IsTotal read_u32 _ read_u32-IsTotal (λ (v, c). ok-ne-panic _) c)
          (bind-IsTotal read_u32 _ read_u32-IsTotal
            (λ (id, c).
              bind-IsTotal (decode_body kind) _ (decode_body-IsTotal kind) (λ r. ok-ne-panic _) c)
            c))
      (new body)
