-- ===== src/Sftp/Wire/Replies.antt =====
-- src/ssh/sftp/wire.rs: the replies of a server, laid out as the SFTP draft says, and read back.
use ssh_control.Prelude.{
  ℕ, ◌+◌, ◌≡◌, refl, ap, Bytes, length, List, [], ◌∷◌, ◌++◌, map, append-nil, true, false, ltb,
}
use ssh_control.Prelude.{
  some, ok, to_be_bytes32, IsU32, IsU64, All, arith, lt→ltb, le→ltb, ◌==◌, length-append,
  length-drop,
}
use ssh_control.Sftp.Utf8.{from_utf8_lossy}
use ssh_control.Sftp.Wire.{
  Cursor, NameEntry, Reply, reply_status, reply_handle, reply_data, reply_name, reply_attrs,
  decode_attrs, decode_entry, decode_entries, decode_body, decode, remaining, read_string, new,
  fxp_version, fxp_status, fxp_handle, fxp_data, fxp_name, fxp_attrs,
}
use ssh_control.Sftp.Wire.Cursors.{
  Reads, Rest, advance, Reads-bind, Reads-ok, Reads-done, read_u8-Reads, read_u32-Reads,
  read_bytes-Reads, read_string-Reads, string_bytes,
}
use ssh_control.Sftp.Wire.Blocks.{
  ServerAttrs, IsServerAttrs, attrs_bytes, attrs_of, decode_attrs-Reads, IsShort,
}

pub record ServerEntry : Type 0 where
  pub filename : Bytes
  pub longname : Bytes
  pub attrs : ServerAttrs

pub record IsServerEntry (e : ServerEntry) : Type 0 where
  pub filename : IsShort e.filename
  pub longname : IsShort e.longname
  pub attrs : IsServerAttrs e.attrs

unfoldable pub entry_bytes : ServerEntry → Bytes
entry_bytes e = string_bytes e.filename ++ (string_bytes e.longname ++ attrs_bytes e.attrs)

abbrev pub entry_of : ServerEntry → NameEntry
entry_of e = record {
  filename = from_utf8_lossy e.filename;
  longname = from_utf8_lossy e.longname;
  attrs = attrs_of e.attrs;
}

abbrev pub entries_bytes : List ServerEntry → Bytes
entries_bytes [] = []
entries_bytes (e ∷ entries) = entry_bytes e ++ entries_bytes entries

decode_entry-Reads :
    (e : ServerEntry) → IsServerEntry e → Reads decode_entry (entry_bytes e) (entry_of e)
unfolding decode_entry entry_bytes
decode_entry-Reads e h =
    Reads-bind read_string _ (string_bytes e.filename) _ _ _
      (read_string-Reads e.filename h.filename)
      (Reads-bind read_string _ (string_bytes e.longname) _ _ _
        (read_string-Reads e.longname h.longname)
        (Reads-ok decode_attrs
          (λ attrs. record {
            filename = from_utf8_lossy e.filename;
            longname = from_utf8_lossy e.longname;
            attrs = attrs;
          })
          _ _ (decode_attrs-Reads e.attrs h.attrs)))

decode_entries-Reads :
    (entries : List ServerEntry)
    → All IsServerEntry entries
    → Reads (decode_entries (length entries)) (entries_bytes entries) (map entry_of entries)
unfolding decode_entries
decode_entries-Reads [] h = Reads-done []
decode_entries-Reads (e ∷ entries) (p, h) =
    Reads-bind decode_entry _ (entry_bytes e) (entries_bytes entries) (entry_of e) _
      (decode_entry-Reads e p)
      (Reads-ok (decode_entries (length entries)) (λ es. entry_of e ∷ es) _ _
        (decode_entries-Reads entries h))

-- What a server answers. A status has its message and language tag, or neither.
pub data ServerReply : Type 0 where
  server_status : ℕ → Bytes → Bytes → ServerReply
  server_short_status : ℕ → ServerReply
  server_handle server_data : Bytes → ServerReply
  server_name : List ServerEntry → ServerReply
  server_attrs : ServerAttrs → ServerReply

abbrev pub IsServerReply : ServerReply → Type 0
IsServerReply (server_status code message tag) = IsU32 code × IsShort message × IsShort tag
IsServerReply (server_short_status code) = IsU32 code
IsServerReply (server_handle b) = IsShort b
IsServerReply (server_data b) = IsShort b
IsServerReply (server_name entries) = IsU32 (length entries) × All IsServerEntry entries
IsServerReply (server_attrs w) = IsServerAttrs w

abbrev pub type_of : ServerReply → ℕ
type_of (server_status code message tag) = fxp_status
type_of (server_short_status code) = fxp_status
type_of (server_handle b) = fxp_handle
type_of (server_data b) = fxp_data
type_of (server_name entries) = fxp_name
type_of (server_attrs w) = fxp_attrs

abbrev pub fields_bytes : ServerReply → Bytes
fields_bytes (server_status code message tag) =
    to_be_bytes32 code ++ (string_bytes message ++ string_bytes tag)
fields_bytes (server_short_status code) = to_be_bytes32 code
fields_bytes (server_handle b) = string_bytes b
fields_bytes (server_data b) = string_bytes b
fields_bytes (server_name entries) = to_be_bytes32 (length entries) ++ entries_bytes entries
fields_bytes (server_attrs w) = attrs_bytes w

abbrev pub packet : ℕ → ServerReply → Bytes
packet id r = type_of r ∷ (to_be_bytes32 id ++ fields_bytes r)

-- What the client makes of it.
abbrev pub reply_of : ServerReply → Reply
reply_of (server_status code message tag) = reply_status code (from_utf8_lossy message)
reply_of (server_short_status code) = reply_status code []
reply_of (server_handle b) = reply_handle b
reply_of (server_data b) = reply_data b
reply_of (server_name entries) = reply_name (map entry_of entries)
reply_of (server_attrs w) = reply_attrs (attrs_of w)

decode_body-fields_bytes :
    (s : ServerReply) (c : Cursor)
    → IsServerReply s
    → IsU64 (length c.buf)
    → Rest c (fields_bytes s)
    → decode_body (type_of s) c ≡ ok (reply_of s)
unfolding decode_body
decode_body-fields_bytes (server_status code message tag) c (hc, hm, ht) wide here =
    let (e, (rest, room)) =
      read_u32-Reads code hc c (string_bytes message ++ string_bytes tag) wide here in
    let more : ltb 0 (remaining (advance 4 c)) ≡ true = lt→ltb 0 _ (
      omega (
        arith,
        ap length rest,
        length-drop (c.pos + 4) c.buf,
        length-append message (string_bytes tag),
      )) in
    let (e', _) = read_string-Reads message hm (advance 4 c) (string_bytes tag) wide (rest, room) in
    rw e (rw more (rw e' refl))
decode_body-fields_bytes (server_short_status code) c h wide here =
    let (e, (rest, room)) = read_u32-Reads code h c [] wide (rw append-nil here) in
    let no_more : ltb 0 (remaining (advance 4 c)) ≡ false =
      le→ltb 0 _ (omega (arith, ap length rest, length-drop (c.pos + 4) c.buf)) in
    rw e (rw no_more refl)
decode_body-fields_bytes (server_handle b) c h wide here =
    let (e, _) = read_bytes-Reads b h c [] wide (rw append-nil here) in rw e refl
decode_body-fields_bytes (server_data b) c h wide here =
    let (e, _) = read_bytes-Reads b h c [] wide (rw append-nil here) in rw e refl
decode_body-fields_bytes (server_name entries) c (n, h) wide here =
    let (e, rest) = read_u32-Reads (length entries) n c (entries_bytes entries) wide here in
    let (e', _) = decode_entries-Reads entries h (advance 4 c) [] wide (rw append-nil rest) in
    rw e (rw e' refl)
decode_body-fields_bytes (server_attrs w) c h wide here =
    let (e, _) = decode_attrs-Reads w h c [] wide (rw append-nil here) in rw e refl

not_version : (s : ServerReply) → (type_of s == fxp_version) ≡ false
not_version (server_status code message tag) = refl
not_version (server_short_status code) = refl
not_version (server_handle b) = refl
not_version (server_data b) = refl
not_version (server_name entries) = refl
not_version (server_attrs w) = refl

-- A reply of a server, laid out as the draft says and with every length in 32 bits, is decoded to its
-- id and its contents, with names and messages read as UTF-8.
pub decode-packet :
    (id : ℕ) (s : ServerReply)
    → IsU32 id
    → IsServerReply s
    → IsU64 (length (packet id s))
    → decode (packet id s) ≡ ok (some id, reply_of s)
unfolding decode
decode-packet id s hid h wide =
    let (e, rest) =
      read_u8-Reads (type_of s) (new (packet id s)) (to_be_bytes32 id ++ fields_bytes s) wide
        (refl, omega arith) in
    let (e', rest') =
      read_u32-Reads id hid (advance 1 (new (packet id s))) (fields_bytes s) wide rest in
    let b = decode_body-fields_bytes s (advance 4 (advance 1 (new (packet id s)))) h wide rest' in
    rw e (rw (not_version s) (rw e' (rw b refl)))
