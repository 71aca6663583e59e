-- ===== src/Transfers/Tests.antt =====
-- src/ssh/transfer.rs: runs between two ends in memory, and the theorems at them.
use ssh_control.Prelude.{
  ℕ, ◌+◌, ◌≤◌, ◌≡◌, ◌≢◌, refl, sym, ◌∙◌, Bytes, List, [], ◌∷◌, ◌++◌, length, take, drop,
  take-append-drop, Bool, true, false, Option, some, none, ok, err, panic, codes, bytes_eq,
  bytes_eq_refl, if◌then◌else◌, arith, inl, inr, Bool-cases,
}
use ssh_control.Errors.{Result, AppError, io, other}
use ssh_control.Sftp.Wire.{Attrs}
use ssh_control.Sftp.Wire.FileKind.{dir, file}
use ssh_control.Sftp.Client.{RemoteEntry}
use ssh_control.Transfers.{
  upload, download, TransferItem, TransferPlan, Ends, meta_file, file_count, planned_bytes,
}
use ssh_control.Transfers.Walk.{make_plan, file_item, dir_item}
use ssh_control.Transfers.Copy.{
  Copying, part_of, copy_file, transfer, upload_file, upload_loop, settle, put_in_place, make_room,
}
use ssh_control.Transfers.Runs.{Running, run}
use ssh_control.Transfers.Accounts.{failed}
use ssh_control.Transfers.Accounts.Totals.{run-bounds}
use ssh_control.Transfers.Parents.{IsOrdered}
use ssh_control.Transfers.Parents.Walks.{make_plan-IsOrdered, IsSelected, IsChild}
use ssh_control.Transfers.Safety.{IsApart, copy_file-destination}
use ssh_control.Transfers.Content.{IsNext, IsStore, IsTotal, Ending, copy_file-Ending}

-- The files of both ends by their paths, and whether the server renames.
record Toy : Type 0 where
  far : Bytes → Option Bytes
  near : Bytes → Option Bytes
  renames : Bool

abbrev put : Bytes → Option Bytes → (Bytes → Option Bytes) → Bytes → Option Bytes
put p v files q = if bytes_eq q p then v else files q

abbrev append_to : Option Bytes → Bytes → Option Bytes
append_to none b = none
append_to (some old) b = some (old ++ b)

-- The one remote file that is served, in chunks of two bytes.
abbrev served : Bytes
served = codes "hello"

abbrev no_attrs : Attrs
no_attrs = record { size = some 5; permissions = none; mtime = none }

abbrev hello_entry : RemoteEntry
hello_entry = record { name = codes "h"; kind = file; size = 5; mtime = none }

abbrev sub_entry : RemoteEntry
sub_entry = record { name = codes "s"; kind = dir; size = 0; mtime = none }

-- `/r` contains `h` and `s`; every other directory cannot be listed.
abbrev toy_listing : Bytes → Result (List RemoteEntry)
toy_listing p =
    if bytes_eq p (codes "/r") then ok (hello_entry ∷ sub_entry ∷ []) else err (io other)

abbrev toy : Ends Toy Bytes Bytes
toy = record {
  stat = λ p w. (w, ok no_attrs);
  try_stat = λ p w. (w, ok none);
  list_dir = λ p w. (w, toy_listing p);
  mkdir = λ p w. (w, ok tt);
  remove = λ p w. (record w { far = put p none w.far }, ok tt);
  rename = λ p q w.
      if w.renames
      then (record w { far = put q (w.far p) (put p none w.far) }, ok tt)
      else (w, err (io other));
  open_read = λ p w. (w, ok p);
  open_write = λ p w. (record w { far = put p (some []) w.far }, ok p);
  read_chunk = λ h offset w. (w, ok (take 2 (drop offset served)));
  write_chunk = λ h offset b w. (record w { far = put h (append_to (w.far h) b) w.far }, ok tt);
  close = λ h w. (w, ok tt);
  local_len = λ p w. (w, ok 5);
  symlink_metadata = λ p w. (w, ok (meta_file 5));
  read_dir = λ p w. (w, ok []);
  local_exists = λ p w. false;
  local_is_dir = λ p w. false;
  create_dir_all = λ p w. (w, ok tt);
  local_open = λ p w. (w, ok p);
  local_create = λ p w. (record w { near = put p (some []) w.near }, ok p);
  local_read = λ f w. (w, ok []);
  local_write_all = λ f b w. (record w { near = put f (append_to (w.near f) b) w.near }, ok tt);
  local_flush = λ f w. (w, ok tt);
  local_rename = λ p q w. (record w { near = put q (w.near p) (put p none w.near) }, ok tt);
  local_remove = λ p w. (record w { near = put p none w.near }, ok tt);
  local_join = λ d n. d ++ n;
  on_event = λ e w. (w, false);
}

abbrev toy_files : Toy
toy_files = record {
  far = put (codes "d") (some (codes "old")) (λ p. none);
  near = λ p. none;
  renames = false;
}

abbrev start : Copying Toy
start = record { world = toy_files; done_bytes = 0 }

abbrev item : TransferItem
item = file_item (codes "a") (codes "d") 5 false

abbrev look_near : Toy → Option Bytes
look_near w = w.near (codes "d")

abbrev look_far : Toy → Option Bytes
look_far w = w.far (codes "d")

take_two : (xs : Bytes) → take 2 xs ≡ [] → drop 2 xs ≡ []
take_two [] h = refl
take_two (x ∷ xs) h = absurd (cc)

put_same : (p : Bytes) (v : Option Bytes) (files : Bytes → Option Bytes) → put p v files p ≡ v
put_same p v files = rw (bytes_eq_refl p) refl

abbrev toy_next :
    (offset : ℕ) (b : Bytes) → take 2 (drop offset served) ≡ b → IsNext served offset b
toy_next offset b e = record {
  rest = drop 2 (drop offset served);
  next = rw (sym e) (sym (take-append-drop 2 (drop offset served)));
  at_end = λ none_left. take_two (drop offset served) (e ∙ none_left);
}

toy-IsStore :
    IsStore toy (λ w. w.near (part_of item)) look_near (codes "a") (codes "d") (part_of item) served
unfolding bytes_eq
toy-IsStore = record {
  IsSource = λ h. Unit {0};
  IsPart = λ f. f ≡ part_of item;
  opened = λ w h e. tt;
  read = λ h offset w b s e. toy_next offset b (cc);
  read_keeps = λ h offset w. refl;
  created = λ w f e. cc;
  create_empties = λ w f e. refl;
  write_appends = λ f b w old is_part e here. rw is_part (rw here refl);
  flush_keeps = λ f w. refl;
  close_keeps = λ h w. refl;
  event_keeps = λ e w. refl;
  rename_moves = λ w e. refl;
}

toy-IsTotal : IsTotal toy
toy-IsTotal = record {
  open_read = λ p w e. cc;
  read_chunk = λ h offset w e. cc;
  close = λ h w e. cc;
  local_create = λ p w e. cc;
  local_write_all = λ f b w e. cc;
  local_flush = λ f w e. cc;
  local_rename = λ p q w e. cc;
  local_remove = λ p w e. cc;
}

copy_file-Ending_example : Ending look_near served (copy_file toy 6 download item start)
copy_file-Ending_example =
    copy_file-Ending toy (λ w. w.near (part_of item)) look_near item toy-IsStore toy-IsTotal 6 start
      (omega arith) (omega arith)

toy-IsApart : IsApart toy look_far (codes "a") (codes "d") (part_of item)
unfolding bytes_eq
toy-IsApart = record {
  IsPartHandle = λ h. h ≡ part_of item;
  IsPartFile = λ f. Unit {0};
  local_open = λ w. refl;
  local_read = λ f w. refl;
  open_read = λ w. refl;
  read_chunk = λ h offset w. refl;
  close = λ h w. refl;
  on_event = λ e w. refl;
  open_write = λ w. refl;
  opened = λ w h e. cc;
  write_chunk = λ h offset b w is_part. rw is_part refl;
  remove = λ w. refl;
  rename_fails = λ w e failed. kept w failed;
  rename_total = λ w e. never w e;
  local_create = λ w. refl;
  created = λ w f e. tt;
  local_write_all = λ f b w p. refl;
  local_flush = λ f w. refl;
  local_remove = λ w. refl;
  local_rename_fails = λ w e failed. refl;
  local_rename_total = λ w e. cc;
}
  where
    kept :
        (w : Toy) {e : AppError}
        → (toy.rename (part_of item) (codes "d") w).1 ≡ err e
        → look_far (toy.rename (part_of item) (codes "d") w).0 ≡ look_far w
    kept w h = elim (Bool-cases w.renames) [
      | inl on ↦ let done = rw on at h in absurd (cc)
      | inr off ↦ rw off refl
    ]

    never : (w : Toy) → (toy.rename (part_of item) (codes "d") w).1 ≢ panic
    never w h = elim (Bool-cases w.renames) [
      | inl on ↦ let done = rw on at h in absurd (cc)
      | inr off ↦ let done = rw off at h in absurd (cc)
    ]

refused : (copy_file toy 6 upload item start).1 ≡ err (io other)
unfolding copy_file transfer upload_file upload_loop settle put_in_place make_room
refused = refl

copy_file-destination_example :
    look_far (copy_file toy 6 upload item start).0.world ≡ look_far toy_files
copy_file-destination_example =
    copy_file-destination toy look_far item toy-IsApart 6 upload start refl
      (λ e. let r = refused in cc)

-- Where the plan says that the destination exists, a rename that the server refuses leaves neither the
-- old file nor the new one there, and the part file stays.
lost :
    let t = (copy_file toy 6 upload (file_item (codes "a") (codes "d") 5 true) start).0.world in
    (t.far (codes "d") ≡ none) × (t.far (codes "d.part") ≡ some [])
unfolding copy_file transfer upload_file upload_loop settle put_in_place make_room bytes_eq
lost = (refl, refl)

abbrev two_items : TransferPlan
two_items = record { items = dir_item (codes "/r") (codes "/x") ∷ item ∷ []; total_bytes = 5 }

run-bounds_example :
    let t = (run toy 6 download two_items toy_files).0.summary in
    (t.files ≤ file_count two_items)
    × ((t.bytes ≤ planned_bytes two_items)
        × (t.files + failed t + t.skipped ≤ length two_items.items))
run-bounds_example = run-bounds toy 6 download two_items toy_files (omega arith)

abbrev finished : Running Toy
finished = (run toy 6 download two_items toy_files).0

make_plan-IsOrdered_example :
    IsOrdered
      (IsSelected toy download (codes "/x/") ((codes "/r", true) ∷ []))
      (IsChild toy download)
      (make_plan toy 9 download ((codes "/r", true) ∷ []) (codes "/x/") toy_files).0.plan.items
make_plan-IsOrdered_example =
    make_plan-IsOrdered toy 9 download ((codes "/r", true) ∷ []) (codes "/x/") toy_files
