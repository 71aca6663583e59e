-- ===== src/Sftp/Client.antt =====
-- src/ssh/sftp/client.rs: requests and their replies, over a stream that is a parameter.
pub mod Session
pub mod Listing
pub mod Matching
mod Tests
use ssh_control.Prelude.{
  ℕ, zero, suc, ◌+◌, ◌%◌, Bytes, List, [], ◌∷◌, ◌++◌, length, Bool, true, false, ◌||◌, ltb, ◌==◌,
  if◌then◌else◌, Option, some, none, ok, err, panic, Outcome, codes, bytes_eq, bit_or,
}
use ssh_control.Prelude.{decimal}
use ssh_control.Errors.{
  Result, AppError, IoKind, not_found, unexpected_eof, io, sftp, sftp_status, old_version,
  no_handshake, handshake_mid_session, no_realpath, listing_never_finished, wrong_kind_of_reply,
  wrong_reply_id, impossible_packet, closed_mid_reply, stopped_answering,
}
use ssh_control.Calls.{Call, on_result, ◌>>=◌, ◌>>◌, lift, attempt}
use ssh_control.Sftp.Wire.{
  Encoder, request, init, put_bytes, put_u32, put_u64, empty_attrs, finish, version, Attrs,
  FileKind, dir, NameEntry, kind, Reply, reply_version, reply_status, reply_handle, reply_data,
  reply_name, reply_attrs, decode, be_u32,
}
use ssh_control.Sftp.Codes.{
  fxp_open, fxp_close, fxp_read, fxp_write, fxp_lstat, fxp_opendir, fxp_readdir, fxp_remove,
  fxp_mkdir, fxp_realpath, fxp_stat, fxp_rename, fx_ok, fx_eof, fx_no_such_file,
  fx_permission_denied, fx_no_connection, fx_connection_lost, fxf_read, fxf_write, fxf_creat,
  fxf_trunc, chunk, max_packet, default_status_message, message_or_default, status_error,
}

abbrev pub max_readdir_batches : ℕ
max_readdir_batches = 20_000

pub record RemoteEntry : Type 0 where
  pub name : Bytes
  pub kind : FileKind
  pub size : ℕ
  pub mtime : Option ℕ

unfoldable pub is_dir : RemoteEntry → Bool
is_dir e = elim e.kind [ dir ↦ true | _ ↦ false ]

-- What waiting for the stream comes to.
pub data Waited (A : Type 0) : Type 0 where
  arrived : A → Waited A
  broke : IoKind → Waited A
  timed_out : Waited A

-- tokio's stream.
pub record Stream (S : Type 0) : Type 0 where
  pub write_all : Bytes → S → S × Waited (Unit {0})
  pub flush : S → S × Waited (Unit {0})
  pub read_exact : ℕ → S → S × Waited Bytes

-- A closed stream in the middle of a reply is a dropped connection.
unfoldable pub read_error : IoKind → AppError
read_error unexpected_eof = sftp closed_mid_reply
read_error k = io k

-- `timeout(..).await?.map_err(..)?`
unfoldable pub timeout : {A : Type 0} → (IoKind → AppError) → Waited A → Result A
timeout on_error (arrived a) = ok a
timeout on_error (broke k) = err (on_error k)
timeout on_error timed_out = err (sftp stopped_answering)

pub record SftpClient (S : Type 0) : Type 0 where
  pub stream : S
  pub next_id : ℕ

abbrev pub unexpected : {A : Type 0} → Bytes → Result A
unexpected op = err (sftp (wrong_kind_of_reply op))

-- `self.next_id.wrapping_add(1).max(1)` of 32 bits.
unfoldable pub following : ℕ → ℕ
following id = if ltb 0 ((id + 1) % 4294967296) then (id + 1) % 4294967296 else 1

unfoldable pub next_id : {S : Type 0} → Call (SftpClient S) ℕ
next_id c = (record c { next_id = following c.next_id }, ok c.next_id)

-- The rows of one `NAME` reply, without `.` and `..`.
unfoldable pub rows : List NameEntry → List RemoteEntry
rows [] = []
rows (e ∷ entries) =
    let rest = rows entries in
    if bytes_eq e.filename (codes ".") || bytes_eq e.filename (codes "..")
    then rest
    else record {
      name = e.filename;
      kind = kind e;
      size = elim e.attrs.size [ some n ↦ n | none ↦ 0 ];
      mtime = e.attrs.mtime;
    }
      ∷ rest

-- Whether a reply carries the id of the request.
unfoldable pub matched : ℕ → Option ℕ × Reply → Result Reply
matched id (some got, reply) = if got == id then ok reply else err (sftp (wrong_reply_id got id))
matched id (none, reply) = err (sftp handshake_mid_session)

abbrev pub accept_ok : Bytes → Reply → Result (Unit {0})
accept_ok path (reply_status code message) =
    if code == fx_ok then ok tt else err (status_error path code message)
accept_ok path reply = unexpected (codes "status")

abbrev pub accept_handle : Bytes → Bytes → Reply → Result Bytes
accept_handle op path (reply_handle h) = ok h
accept_handle op path (reply_status code message) = err (status_error path code message)
accept_handle op path reply = unexpected op

abbrev pub accept_attrs : Bytes → Reply → Result Attrs
accept_attrs path (reply_attrs attrs) = ok attrs
accept_attrs path (reply_status code message) = err (status_error path code message)
accept_attrs path reply = unexpected (codes "stat")

abbrev pub accept_data : Reply → Result Bytes
accept_data (reply_data data_) = ok data_
accept_data (reply_status code message) =
    if code == fx_eof then ok [] else err (status_error [] code message)
accept_data reply = unexpected (codes "read")

abbrev pub first_name : List NameEntry → Result Bytes
first_name [] = err (sftp no_realpath)
first_name (e ∷ entries) = ok e.filename

abbrev pub accept_path : Bytes → Reply → Result Bytes
accept_path path (reply_name entries) = first_name entries
accept_path path (reply_status code message) = err (status_error path code message)
accept_path path reply = unexpected (codes "realpath")

-- What one reply says to the listing: more rows, its end, or an error.
abbrev pub accept_names : Bytes → Reply → Result (Option (List RemoteEntry))
accept_names path (reply_name entries) = ok (some (rows entries))
accept_names path (reply_status code message) =
    if code == fx_eof then ok none else err (status_error path code message)
accept_names path reply = unexpected (codes "readdir")

-- A missing file is an answer; every other failure stays one.
abbrev pub missing_is_none : Result Attrs → Result (Option Attrs)
missing_is_none (ok attrs) = ok (some attrs)
missing_is_none (err (sftp_status code path message)) =
    if code == fx_no_such_file then ok none else err (sftp_status code path message)
missing_is_none (err e) = err e
missing_is_none panic = panic

abbrev pub accept_version : Option ℕ × Reply → Result (Unit {0})
accept_version (id, reply_version v) = if ltb v version then err (sftp (old_version v)) else ok tt
accept_version (id, reply) = err (sftp no_handshake)

module _ {S : Type 0} (tokio : Stream S) where
  unfoldable pub write_packet : Bytes → Call (SftpClient S) (Unit {0})
  write_packet packet c =
      let (s, r) = tokio.write_all packet c.stream in
      on_result (record c { stream = s }, timeout io r)
        λ _ c. let (s, r) = tokio.flush c.stream in (record c { stream = s }, timeout io r)

  unfoldable pub read_exact : ℕ → Call (SftpClient S) Bytes
  read_exact n c =
      let (s, r) = tokio.read_exact n c.stream in (record c { stream = s }, timeout read_error r)

  -- The length is tested before the body is read.
  unfoldable pub read_reply : Call (SftpClient S) (Option ℕ × Reply)
  read_reply = do
    len_buf ← read_exact 4
    len ← lift (be_u32 len_buf 0)
    if len == 0 || ltb max_packet len
        then lift (err (sftp (impossible_packet len)))
        else (do body ← read_exact len; lift (decode body))

  unfoldable pub send : ℕ → Bytes → Call (SftpClient S) Reply
  send id packet = do write_packet packet; reply ← read_reply; lift (matched id reply)

  -- `INIT` and the version of the answer.
  unfoldable pub handshake : S → SftpClient S × Result (Unit {0})
  handshake stream =
      (do write_packet (finish init); reply ← read_reply; lift (accept_version reply))
        (record { stream = stream; next_id = 1 })

  unfoldable pub realpath : Bytes → Call (SftpClient S) Bytes
  realpath path = do
    id ← next_id
    reply ← send id (finish (put_bytes path (request fxp_realpath id)))
    lift (accept_path path reply)

  unfoldable pub stat_with : ℕ → Bytes → Call (SftpClient S) Attrs
  stat_with kind path = do
    id ← next_id
    reply ← send id (finish (put_bytes path (request kind id)))
    lift (accept_attrs path reply)

  unfoldable pub stat : Bytes → Call (SftpClient S) Attrs
  stat = stat_with fxp_stat

  unfoldable pub lstat : Bytes → Call (SftpClient S) Attrs
  lstat = stat_with fxp_lstat

  unfoldable pub try_stat : Bytes → Call (SftpClient S) (Option Attrs)
  try_stat path c = let (c, r) = stat path c in (c, missing_is_none r)

  unfoldable pub expect_ok : ℕ → Bytes → Bytes → Call (SftpClient S) (Unit {0})
  expect_ok id packet path = do reply ← send id packet; lift (accept_ok path reply)

  unfoldable pub mkdir : Bytes → Call (SftpClient S) (Unit {0})
  mkdir path = do
    id ← next_id
    expect_ok id (finish (empty_attrs (put_bytes path (request fxp_mkdir id)))) path

  unfoldable pub remove : Bytes → Call (SftpClient S) (Unit {0})
  remove path = do id ← next_id; expect_ok id (finish (put_bytes path (request fxp_remove id))) path

  unfoldable pub rename : Bytes → Bytes → Call (SftpClient S) (Unit {0})
  rename old to = do
    id ← next_id
    expect_ok id (finish (put_bytes to (put_bytes old (request fxp_rename id)))) to

  unfoldable pub open_with : ℕ → Bytes → Call (SftpClient S) Bytes
  open_with pflags path = do
    id ← next_id
    reply ← send id (finish (empty_attrs (put_u32 pflags (put_bytes path (request fxp_open id)))))
    lift (accept_handle (codes "open") path reply)

  unfoldable pub open_read : Bytes → Call (SftpClient S) Bytes
  open_read = open_with fxf_read

  unfoldable pub open_write : Bytes → Call (SftpClient S) Bytes
  open_write = open_with (bit_or (bit_or fxf_write fxf_creat) fxf_trunc)

  unfoldable pub opendir : Bytes → Call (SftpClient S) Bytes
  opendir path = do
    id ← next_id
    reply ← send id (finish (put_bytes path (request fxp_opendir id)))
    lift (accept_handle (codes "opendir") path reply)

  -- The bytes that arrived; none is the end of the file.
  unfoldable pub read_chunk : Bytes → ℕ → Call (SftpClient S) Bytes
  read_chunk handle offset = do
    id ← next_id
    reply ←
        send id (finish (put_u32 chunk (put_u64 offset (put_bytes handle (request fxp_read id)))))
    lift (accept_data reply)

  unfoldable pub write_chunk : Bytes → ℕ → Bytes → Call (SftpClient S) (Unit {0})
  write_chunk handle offset data_ = do
    id ← next_id
    expect_ok id
        (finish (put_bytes data_ (put_u64 offset (put_bytes handle (request fxp_write id))))) []

  unfoldable pub close : Bytes → Call (SftpClient S) (Unit {0})
  close handle = do id ← next_id; expect_ok id (finish (put_bytes handle (request fxp_close id))) []

  -- One round of the listing.
  unfoldable pub read_names : Bytes → Bytes → Call (SftpClient S) (Option (List RemoteEntry))
  read_names path handle = do
    id ← next_id
    reply ← send id (finish (put_bytes handle (request fxp_readdir id)))
    lift (accept_names path reply)

  -- `for _ in 0..MAX_READDIR_BATCHES`, from `entries` on.
  unfoldable pub read_batches :
      ℕ → Bytes → Bytes → List RemoteEntry → Call (SftpClient S) (List RemoteEntry)
  read_batches zero path handle entries = lift (err (sftp listing_never_finished))
  read_batches (suc rounds) path handle entries = do
    batch ← read_names path handle
    elim batch [
      | none ↦ lift (ok entries)
      | some more ↦ read_batches rounds path handle (entries ++ more)
    ]

  unfoldable pub read_all_names : Bytes → Bytes → Call (SftpClient S) (List RemoteEntry)
  read_all_names path handle = read_batches max_readdir_batches path handle []

  -- The handle is closed whether the listing succeeded or not.
  unfoldable pub list_dir : Bytes → Call (SftpClient S) (List RemoteEntry)
  list_dir path = do
    handle ← opendir path
    result ← attempt (read_all_names path handle)
    closed ← attempt (close handle)
    lift result
