-- ===== src/Sftp/Wire/Frames.antt =====
-- src/ssh/sftp/wire.rs: the length in front of a packet.
use ssh_control.Prelude.{◌%◌, ◌≡◌, refl, Bytes, length, ◌++◌, ok, IsU32, IsU64, arith}
use ssh_control.Sftp.Wire.{Encoder, finish, read_bytes, new}
use ssh_control.Sftp.Wire.Cursors.{read_bytes-Reads, string_bytes, advance}

finish-string_bytes : (e : Encoder) → IsU32 (length e.buf) → finish e ≡ string_bytes e.buf
unfolding finish
finish-string_bytes e small =
    let same : length e.buf % 4294967296 ≡ length e.buf = omega arith in rw same refl

read_bytes-string_bytes :
    (s r : Bytes)
    → IsU32 (length s)
    → IsU64 (length (string_bytes s ++ r))
    → read_bytes (new (string_bytes s ++ r))
      ≡ ok (s, advance (length (string_bytes s)) (new (string_bytes s ++ r)))
read_bytes-string_bytes s r small wide =
    let (done, _) =
      read_bytes-Reads s small (new (string_bytes s ++ r)) r wide (refl, omega arith) in
    done

-- Whatever follows a finished packet, its length says where its body ends: a body shorter than 2^32
-- is read back as it was built.
pub read_bytes-finish :
    (e : Encoder) (r : Bytes)
    → IsU32 (length e.buf)
    → IsU64 (length (finish e ++ r))
    → read_bytes (new (finish e ++ r))
      ≡ ok (e.buf, advance (length (finish e)) (new (finish e ++ r)))
read_bytes-finish e r small wide =
    let framed = finish-string_bytes e small in
    rw framed (read_bytes-string_bytes e.buf r small (rw framed at wide))
