-- ===== src/Transfers/Copy.antt =====
-- src/ssh/transfer.rs: moving the bytes of one file. The loops run on fuel: `panic` stands for a run
-- that its fuel does not see to the end, since none of these functions panics.
use ssh_control.Prelude.{
  ℕ, zero, suc, Bytes, [], ◌∷◌, ◌++◌, length, Bool, true, false, if◌then◌else◌, Option, some, none,
  ok, err, panic,
}
use ssh_control.Errors.{Result, sftp, not_a_directory}
use ssh_control.Calls.{Call, ◌>>=◌, ◌>>◌, lift, attempt}
use ssh_control.Sftp.Wire.{file_kind, FileKind, dir}
use ssh_control.Transfers.{
  Direction, upload, download, TransferItem, progress, Ends, add_u64, part_suffix,
}

-- The shared state and the running count of bytes.
pub record Copying (W : Type 0) : Type 0 where
  pub world : W
  pub done_bytes : ℕ

abbrev pub on_world : {W A : Type 0} → Call W A → Call (Copying W) A
on_world m s = let (w, r) = m s.world in (record s { world = w }, r)

abbrev pub is_empty : Bytes → Bool
is_empty [] = true
is_empty (b ∷ bs) = false

abbrev pub is_directory : Option FileKind → Bool
is_directory (some dir) = true
is_directory _ = false

-- The name that the bytes are written under until they are complete.
abbrev pub part_of : TransferItem → Bytes
part_of item = item.dst ++ part_suffix

module _ {W Handle File : Type 0} (ends : Ends W Handle File) where
  -- `*done_bytes += read` and the event: whether to stop.
  unfoldable pub report : ℕ → Call (Copying W) Bool
  report read s =
      let done = add_u64 s.done_bytes read in
      let (w, stop) = ends.on_event (progress done) s.world in
      (record { world = w; done_bytes = done }, ok stop)

  -- The close after a cancel, whose error is dropped.
  unfoldable pub cancelled_at : Handle → Call (Copying W) Bool
  cancelled_at handle = do closed ← attempt (on_world (ends.close handle)); lift (ok false)

  unfoldable pub upload_loop : ℕ → File → Handle → ℕ → Call (Copying W) Bool
  upload_loop zero file handle offset = lift panic
  upload_loop (suc fuel) file handle offset = do
    buf ← on_world (ends.local_read file)
    if is_empty buf then (do on_world (ends.close handle); lift (ok true)) else (do
      on_world (ends.write_chunk handle offset buf)
      stop ← report (length buf)
      if stop
          then cancelled_at handle
          else upload_loop fuel file handle (add_u64 offset (length buf)))

  unfoldable pub upload_file : ℕ → Bytes → Bytes → Call (Copying W) Bool
  upload_file fuel src part = do
    file ← on_world (ends.local_open src)
    handle ← on_world (ends.open_write part)
    upload_loop fuel file handle 0

  unfoldable pub download_loop : ℕ → Handle → File → ℕ → Call (Copying W) Bool
  download_loop zero handle file offset = lift panic
  download_loop (suc fuel) handle file offset = do
    buf ← on_world (ends.read_chunk handle offset)
    if is_empty buf
        then (do on_world (ends.local_flush file); on_world (ends.close handle); lift (ok true))
        else (do
          on_world (ends.local_write_all file buf)
          stop ← report (length buf)
          if stop
              then cancelled_at handle
              else download_loop fuel handle file (add_u64 offset (length buf)))

  unfoldable pub download_file : ℕ → Bytes → Bytes → Call (Copying W) Bool
  download_file fuel src part = do
    handle ← on_world (ends.open_read src)
    file ← on_world (ends.local_create part)
    download_loop fuel handle file 0

  unfoldable pub cleanup : Direction → Bytes → Call (Copying W) (Unit {0})
  cleanup upload part = do gone ← attempt (on_world (ends.remove part)); lift (ok tt)
  cleanup download part = do gone ← attempt (on_world (ends.local_remove part)); lift (ok tt)

  -- An old remote file goes first, and an error of that is dropped.
  unfoldable pub make_room : TransferItem → Call (Copying W) (Unit {0})
  make_room item =
      if item.exists
      then (do gone ← attempt (on_world (ends.remove item.dst)); lift (ok tt))
      else lift (ok tt)

  unfoldable pub put_in_place : Direction → TransferItem → Bytes → Call (Copying W) Bool
  put_in_place upload item part = do
    make_room item
    on_world (ends.rename part item.dst)
    lift (ok true)
  put_in_place download item part = do on_world (ends.local_rename part item.dst); lift (ok true)

  unfoldable pub transfer : ℕ → Direction → TransferItem → Bytes → Call (Copying W) Bool
  transfer fuel upload item part = upload_file fuel item.src part
  transfer fuel download item part = download_file fuel item.src part

  -- What follows the outcome of the copy.
  unfoldable pub settle : Direction → TransferItem → Bytes → Result Bool → Call (Copying W) Bool
  settle direction item part (ok true) = put_in_place direction item part
  settle direction item part (ok false) = do cleanup direction part; lift (ok false)
  settle direction item part (err e) = do cleanup direction part; lift (err e)
  settle direction item part panic = lift panic

  unfoldable pub copy_file : ℕ → Direction → TransferItem → Call (Copying W) Bool
  copy_file fuel direction item s =
      let (s, outcome) = transfer fuel direction item (part_of item) s in
      settle direction item (part_of item) outcome s

  unfoldable pub ensure_remote_dir : Bytes → Call W (Unit {0})
  ensure_remote_dir dst = do
    found ← ends.try_stat dst
    elim found [
      | some attrs ↦
          if is_directory (file_kind attrs)
          then lift (ok tt)
          else lift (err (sftp (not_a_directory dst)))
      | none ↦ ends.mkdir dst
    ]

  unfoldable pub ensure_local_dir : Bytes → Call W (Unit {0})
  ensure_local_dir dst w = if ends.local_is_dir dst w then (w, ok tt) else ends.create_dir_all dst w

  unfoldable pub ensure_dir : Direction → Bytes → Call W (Unit {0})
  ensure_dir upload dst = ensure_remote_dir dst
  ensure_dir download dst = ensure_local_dir dst
