-- ===== src/Sftp/Wire.antt =====
-- src/ssh/sftp/wire.rs: the packets of SFTP version 3. A cursor is passed from read to read.
pub mod Cursors
pub mod Safe
pub mod Blocks
pub mod Replies
pub mod Frames
mod Tests
use ssh_control.Prelude.{
  ℕ, zero, suc, ◌+◌, ◌-◌, ◌*◌, ◌%◌, Bytes, length, take, drop, List, [], ◌∷◌, ◌++◌, Bool, not, leb,
  ltb, ◌==◌, if◌then◌else◌,
}
use ssh_control.Prelude.{
  Option, some, none, ok, err, ◌>>=◌, index, bit_and, to_be_bytes32, to_be_bytes64, codes,
}
use ssh_control.Errors.{
  Result, AppError, SftpFault, malformed_packet, unexpected_packet_type, sftp, sftp_status,
}
use ssh_control.Sftp.Utf8.{from_utf8_lossy}

abbrev pub fxp_init : ℕ
fxp_init = 1

abbrev pub fxp_version : ℕ
fxp_version = 2

abbrev pub fxp_status : ℕ
fxp_status = 101

abbrev pub fxp_handle : ℕ
fxp_handle = 102

abbrev pub fxp_data : ℕ
fxp_data = 103

abbrev pub fxp_name : ℕ
fxp_name = 104

abbrev pub fxp_attrs : ℕ
fxp_attrs = 105

abbrev pub version : ℕ
version = 3

abbrev pub attr_size : ℕ
attr_size = 1

abbrev pub attr_uidgid : ℕ
attr_uidgid = 2

abbrev pub attr_permissions : ℕ
attr_permissions = 4

abbrev pub attr_acmodtime : ℕ
attr_acmodtime = 8

abbrev pub attr_extended : ℕ
attr_extended = 0x8000_0000

pub record Cursor : Type 0 where
  pub buf : Bytes
  pub pos : ℕ

abbrev pub new : Bytes → Cursor
new buf = record { buf = buf; pos = 0 }

abbrev pub remaining : Cursor → ℕ
remaining c = length c.buf - c.pos

-- `usize` has 64 bits.
unfoldable pub take_bytes : ℕ → Cursor → Result (Bytes × Cursor)
take_bytes n c =
    let end = c.pos + n in
    if leb 18446744073709551616 end
    then err (sftp malformed_packet)
    else if leb end (length c.buf)
    then ok (take (end - c.pos) (drop c.pos c.buf), record { buf = c.buf; pos = end })
    else err (sftp malformed_packet)

unfoldable pub read_u8 : Cursor → Result (ℕ × Cursor)
read_u8 c = do (b, c) ← take_bytes 1 c; v ← index b 0; ok (v, c)

-- `u32::from_be_bytes([b[0], b[1], b[2], b[3]])`, from offset `i` on.
unfoldable pub be_u32 : Bytes → ℕ → Result ℕ
be_u32 b i = do
  b0 ← index b i
  b1 ← index b (i + 1)
  b2 ← index b (i + 2)
  b3 ← index b (i + 3)
  ok (16777216 * b0 + 65536 * b1 + 256 * b2 + b3)

unfoldable pub read_u32 : Cursor → Result (ℕ × Cursor)
read_u32 c = do (b, c) ← take_bytes 4 c; v ← be_u32 b 0; ok (v, c)

unfoldable pub read_u64 : Cursor → Result (ℕ × Cursor)
read_u64 c = do
  (b, c) ← take_bytes 8 c
  high ← be_u32 b 0
  low ← be_u32 b 4
  ok (4294967296 * high + low, c)

unfoldable pub read_bytes : Cursor → Result (Bytes × Cursor)
read_bytes c = do (len, c) ← read_u32 c; take_bytes len c

unfoldable pub read_string : Cursor → Result (Bytes × Cursor)
read_string c = do (b, c) ← read_bytes c; ok (from_utf8_lossy b, c)

pub record Encoder : Type 0 where
  pub buf : Bytes

unfoldable pub put_u32 : ℕ → Encoder → Encoder
put_u32 v e = record { buf = e.buf ++ to_be_bytes32 v }

unfoldable pub put_u64 : ℕ → Encoder → Encoder
put_u64 v e = record { buf = e.buf ++ to_be_bytes64 v }

-- `v.len() as u32` keeps the low 32 bits.
unfoldable pub put_bytes : Bytes → Encoder → Encoder
put_bytes v e = record { buf = (put_u32 (length v % 4294967296) e).buf ++ v }

unfoldable pub request : ℕ → ℕ → Encoder
request kind id = put_u32 id (record { buf = kind ∷ [] })

unfoldable pub init : Encoder
init = put_u32 version (record { buf = fxp_init ∷ [] })

unfoldable pub empty_attrs : Encoder → Encoder
empty_attrs = put_u32 0

unfoldable pub finish : Encoder → Bytes
finish e = to_be_bytes32 (length e.buf % 4294967296) ++ e.buf

pub record Attrs : Type 0 where
  pub size : Option ℕ
  pub permissions : Option ℕ
  pub mtime : Option ℕ

abbrev pub has_flag : ℕ → ℕ → Bool
has_flag flags f = not (bit_and flags f == 0)

-- A read that the flags ask for.
abbrev pub read_if :
    {A : Type 0} → Bool → (Cursor → Result (A × Cursor)) → Cursor → Result (Option A × Cursor)
read_if asked read c = if asked then (do (a, c) ← read c; ok (some a, c)) else ok (none, c)

-- Two `u32` of which the second is kept.
unfoldable pub second_u32 : Cursor → Result (ℕ × Cursor)
second_u32 c = do (first, c) ← read_u32 c; read_u32 c

-- `for _ in 0..count`
unfoldable pub skip_pairs : ℕ → Cursor → Result (Unit {0} × Cursor)
skip_pairs zero c = ok (tt, c)
skip_pairs (suc count) c = do
  (kind, c) ← read_bytes c
  (data_, c) ← read_bytes c
  skip_pairs count c

unfoldable pub skip_extended : Cursor → Result (Unit {0} × Cursor)
skip_extended c = do (count, c) ← read_u32 c; skip_pairs count c

unfoldable pub decode_attrs : Cursor → Result (Attrs × Cursor)
decode_attrs c = do
  (flags, c) ← read_u32 c
  (size, c) ← read_if (has_flag flags attr_size) read_u64 c
  (gid, c) ← read_if (has_flag flags attr_uidgid) second_u32 c
  (permissions, c) ← read_if (has_flag flags attr_permissions) read_u32 c
  (mtime, c) ← read_if (has_flag flags attr_acmodtime) second_u32 c
  (extended, c) ← read_if (has_flag flags attr_extended) skip_extended c
  ok (record { size = size; permissions = permissions; mtime = mtime }, c)

pub data FileKind : Type 0 where
  dir file symlink other : FileKind

unfoldable pub kind_of_mode : ℕ → FileKind
kind_of_mode p =
    let bits = bit_and p 0xF000 in
    if bits == 0x4000
    then dir
    else if bits == 0xA000
    then symlink
    else if bits == 0x8000
    then file
    else other

unfoldable pub file_kind : Attrs → Option FileKind
file_kind attrs = elim attrs.permissions [ some p ↦ some (kind_of_mode p) | none ↦ none ]

pub record NameEntry : Type 0 where
  pub filename : Bytes
  pub longname : Bytes
  pub attrs : Attrs

-- The first byte of the `ls -l` line.
abbrev pub kind_of_longname : Bytes → FileKind
kind_of_longname [] = other
kind_of_longname (b ∷ bs) =
    if b == 100 then dir else if b == 108 then symlink else if b == 45 then file else other

unfoldable pub kind : NameEntry → FileKind
kind e = elim (file_kind e.attrs) [ some k ↦ k | none ↦ kind_of_longname e.longname ]

pub data Reply : Type 0 where
  reply_version : ℕ → Reply
  reply_status : ℕ → Bytes → Reply
  reply_handle reply_data : Bytes → Reply
  reply_name : List NameEntry → Reply
  reply_attrs : Attrs → Reply

unfoldable pub decode_entry : Cursor → Result (NameEntry × Cursor)
decode_entry c = do
  (filename, c) ← read_string c
  (longname, c) ← read_string c
  (attrs, c) ← decode_attrs c
  ok (record { filename = filename; longname = longname; attrs = attrs }, c)

-- `for _ in 0..count`
unfoldable pub decode_entries : ℕ → Cursor → Result (List NameEntry × Cursor)
decode_entries zero c = ok ([], c)
decode_entries (suc count) c = do
  (e, c) ← decode_entry c
  (entries, c) ← decode_entries count c
  ok (e ∷ entries, c)

-- The fields after the request id.
unfoldable pub decode_body : ℕ → Cursor → Result Reply
decode_body kind c =
    if kind == fxp_status
    then (do
      (code, c) ← read_u32 c
      (message, c) ← (if ltb 0 (remaining c) then read_string c else ok ([], c))
      ok (reply_status code message))
    else if kind == fxp_handle
    then (do (b, c) ← read_bytes c; ok (reply_handle b))
    else if kind == fxp_data
    then (do (b, c) ← read_bytes c; ok (reply_data b))
    else if kind == fxp_name
    then (do
      (count, c) ← read_u32 c
      (entries, c) ← decode_entries count c
      ok (reply_name entries))
    else if kind == fxp_attrs
    then (do (attrs, c) ← decode_attrs c; ok (reply_attrs attrs))
    else err (sftp (unexpected_packet_type kind))

unfoldable pub decode : Bytes → Result (Option ℕ × Reply)
decode body = do
  (kind, c) ← read_u8 (new body)
  if kind == fxp_version
      then (do (v, c) ← read_u32 c; ok (none, reply_version v))
      else (do (id, c) ← read_u32 c; reply ← decode_body kind c; ok (some id, reply))
