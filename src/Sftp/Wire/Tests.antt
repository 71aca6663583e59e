-- ===== src/Sftp/Wire/Tests.antt =====
-- src/ssh/sftp/wire.rs: runs of the decoder, and its theorems at concrete packets.
use ssh_control.Prelude.{
  ◌<◌, ◌≡◌, ◌≢◌, refl, length, [], ◌∷◌, true, false, some, ok, err, panic, codes, arith, index,
}
use ssh_control.Errors.{sftp, malformed_packet}
use ssh_control.Sftp.Utf8.{from_utf8_lossy, read_lossy}
use ssh_control.Sftp.Wire.{
  decode, read_bytes, read_u8, read_u32, be_u32, take_bytes, decode_body, fxp_data,
}
use ssh_control.Sftp.Wire.Safe.{decode-ne-panic}
use ssh_control.Sftp.Wire.Blocks.{ServerAttrs, IsServerAttrs, attrs_bytes}
use ssh_control.Sftp.Wire.Replies.{
  ServerEntry, IsServerEntry, ServerReply, server_name, packet, reply_of, entry_bytes,
  decode-packet,
}

-- A byte that is no UTF-8 becomes U+FFFD, a character of two bytes stays.
keeps_text :
    from_utf8_lossy (0x61 ∷ 0xFF ∷ 0xC3 ∷ 0xA9 ∷ 0xC3 ∷ [])
    ≡ 0x61 ∷ 0xEF ∷ 0xBF ∷ 0xBD ∷ 0xC3 ∷ 0xA9 ∷ 0xEF ∷ 0xBF ∷ 0xBD ∷ []
unfolding from_utf8_lossy read_lossy
keeps_text = refl

-- A string longer than its packet is refused.
short_packet :
    decode (fxp_data ∷ 0 ∷ 0 ∷ 0 ∷ 1 ∷ 0 ∷ 0 ∷ 0 ∷ 9 ∷ 1 ∷ []) ≡ err (sftp malformed_packet)
unfolding decode read_u8 read_u32 read_bytes be_u32 take_bytes decode_body index
short_packet = refl

decode-ne-panic_example : decode (fxp_data ∷ 0 ∷ []) ≢ panic
decode-ne-panic_example = decode-ne-panic (fxp_data ∷ 0 ∷ [])

abbrev attrs : ServerAttrs
attrs = record {
  with_size = true;
  size = 4096;
  with_uidgid = true;
  uid = 1000;
  gid = 1000;
  with_permissions = true;
  permissions = 0x41ED;
  with_acmodtime = false;
  atime = 0;
  mtime = 0;
  with_extended = true;
  extended = (codes "k", codes "v") ∷ [];
}

attrs-IsServerAttrs : IsServerAttrs attrs
attrs-IsServerAttrs = record {
  size = omega arith;
  uid = omega arith;
  gid = omega arith;
  permissions = omega arith;
  atime = omega arith;
  mtime = omega arith;
  count = omega arith;
  extended = ((omega arith, omega arith), tt);
}

abbrev entry : ServerEntry
entry = record { filename = codes "src"; longname = codes "drwxr-xr-x"; attrs = attrs }

entry-IsServerEntry : IsServerEntry entry
entry-IsServerEntry = record {
  filename = omega arith;
  longname = omega arith;
  attrs = attrs-IsServerAttrs;
}

abbrev listing : ServerReply
listing = server_name (entry ∷ entry ∷ [])

short_listing : length (packet 7 listing) < 18446744073709551616
unfolding entry_bytes attrs_bytes
short_listing = omega arith

decode-packet_example : decode (packet 7 listing) ≡ ok (some 7, reply_of listing)
decode-packet_example =
    decode-packet 7 listing (omega arith)
      (omega arith, (entry-IsServerEntry, (entry-IsServerEntry, tt))) short_listing
