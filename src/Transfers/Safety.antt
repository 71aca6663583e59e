-- ===== src/Transfers/Safety.antt =====
-- src/ssh/transfer.rs: what a copy that does not complete leaves at its destination.
use ssh_control.Prelude.{
  ℕ, zero, suc, ◌≡◌, ◌≢◌, refl, ◌∙◌, Bytes, length, Bool, true, false, ok, err, panic, Option,
  Bool-cases, inl, inr,
}
use ssh_control.Errors.{Result, AppError}
use ssh_control.Calls.{Call, on_result, lift, caught}
use ssh_control.Transfers.{
  Direction, upload, download, TransferItem, TransferEvent, Ends, add_u64, progress,
}
use ssh_control.Transfers.Copy.{
  Copying, on_world, is_empty, report, cancelled_at, upload_loop, upload_file, download_loop,
  download_file, cleanup, make_room, put_in_place, transfer, settle, part_of, copy_file,
}

-- What the calls of one copy do to the file at the destination, which `look` reads: the calls on the
-- part file and on the source do not touch it, and a rename that fails leaves it.
pub record IsApart {W Handle File : Type 0} (ends : Ends W Handle File) (look : W → Option Bytes)
    (src dst part : Bytes) : Type 1 where
  pub IsPartHandle : Handle → Type 0
  pub IsPartFile : File → Type 0
  pub local_open : (w : W) → look (ends.local_open src w).0 ≡ look w
  pub local_read : (f : File) (w : W) → look (ends.local_read f w).0 ≡ look w
  pub open_read : (w : W) → look (ends.open_read src w).0 ≡ look w
  pub read_chunk : (h : Handle) (at : ℕ) (w : W) → look (ends.read_chunk h at w).0 ≡ look w
  pub close : (h : Handle) (w : W) → look (ends.close h w).0 ≡ look w
  pub on_event : (e : TransferEvent) (w : W) → look (ends.on_event e w).0 ≡ look w
  pub open_write : (w : W) → look (ends.open_write part w).0 ≡ look w
  pub opened : (w : W) (h : Handle) → (ends.open_write part w).1 ≡ ok h → IsPartHandle h
  pub write_chunk :
      (h : Handle) (at : ℕ) (b : Bytes) (w : W)
      → IsPartHandle h
      → look (ends.write_chunk h at b w).0 ≡ look w
  pub remove : (w : W) → look (ends.remove part w).0 ≡ look w
  pub rename_fails :
      (w : W) (e : AppError)
      → (ends.rename part dst w).1 ≡ err e
      → look (ends.rename part dst w).0 ≡ look w
  pub local_create : (w : W) → look (ends.local_create part w).0 ≡ look w
  pub created : (w : W) (f : File) → (ends.local_create part w).1 ≡ ok f → IsPartFile f
  pub local_write_all :
      (f : File) (b : Bytes) (w : W) → IsPartFile f → look (ends.local_write_all f b w).0 ≡ look w
  pub local_flush : (f : File) (w : W) → look (ends.local_flush f w).0 ≡ look w
  pub local_remove : (w : W) → look (ends.local_remove part w).0 ≡ look w
  pub rename_total : (w : W) → (ends.rename part dst w).1 ≢ panic
  pub local_rename_total : (w : W) → (ends.local_rename part dst w).1 ≢ panic
  pub local_rename_fails :
      (w : W) (e : AppError)
      → (ends.local_rename part dst w).1 ≡ err e
      → look (ends.local_rename part dst w).0 ≡ look w

module _ {W Handle File : Type 0} (ends : Ends W Handle File) (look : W → Option Bytes)
    {src dst part : Bytes} (apart : IsApart ends look src dst part) where
  abbrev Same : {A : Type 0} → Copying W → Copying W × A → Type 0
  Same s r = look r.0.world ≡ look s.world

  bind-Same :
      {A B : Type 0} (s : Copying W) (r : Copying W × Result A) (f : A → Call (Copying W) B)
      → Same s r
      → ((a : A) → r.1 ≡ ok a → Same r.0 (f a r.0))
      → Same s (on_result r f)
  bind-Same s (t, ok a) f h k = k a refl ∙ h
  bind-Same s (t, err e) f h k = h
  bind-Same s (t, panic) f h k = h

  -- A caught call hands its state on.
  caught-Same :
      {A B : Type 0} (s t : Copying W) (r : Result A) (f : Result A → Call (Copying W) B)
      → look t.world ≡ look s.world
      → ((a : Result A) → Same t (f a t))
      → Same s (on_result (t, caught r) f)
  caught-Same s t (ok a) f h k = k (ok a) ∙ h
  caught-Same s t (err e) f h k = k (err e) ∙ h
  caught-Same s t panic f h k = h

  cancelled_at-Same : (h : Handle) (s : Copying W) → Same s (cancelled_at ends h s)
  unfolding cancelled_at
  cancelled_at-Same h s =
      let r = ends.close h s.world in
      caught-Same s (record s { world = r.0 }) r.1 (λ _. lift (ok false)) (apart.close h s.world)
        λ _. refl

  report-Same : (n : ℕ) (s : Copying W) → Same s (report ends n s)
  unfolding report
  report-Same n s = apart.on_event (progress (add_u64 s.done_bytes n)) s.world

  upload_loop-Same :
      (fuel : ℕ) (f : File) (h : Handle) (offset : ℕ) (s : Copying W)
      → apart.IsPartHandle h
      → Same s (upload_loop ends fuel f h offset s)
  unfolding upload_loop
  upload_loop-Same zero f h offset s p = refl
  upload_loop-Same (suc fuel) f h offset s p =
      bind-Same s (on_world (ends.local_read f) s) _ (apart.local_read f s.world) λ buf e.
        let s = (on_world (ends.local_read f) s).0 in
        elim (Bool-cases (is_empty buf)) [
          | inl done ↦
              rw done
                (bind-Same s (on_world (ends.close h) s) _ (apart.close h s.world) λ _ _. refl)
          | inr more ↦ rw more (
              bind-Same s (on_world (ends.write_chunk h offset buf) s) _
                (apart.write_chunk h offset buf s.world p)
                λ _ _.
                  let s = (on_world (ends.write_chunk h offset buf) s).0 in
                  bind-Same s (report ends (length buf) s) _ (report-Same (length buf) s) λ stop _.
                    let s = (report ends (length buf) s).0 in
                    elim (Bool-cases stop) [
                      | inl stopped ↦ rw stopped (cancelled_at-Same h s)
                      | inr on ↦ rw on (upload_loop-Same fuel f h (add_u64 offset (length buf)) s p)
                    ])
        ]

  download_loop-Same :
      (fuel : ℕ) (h : Handle) (f : File) (offset : ℕ) (s : Copying W)
      → apart.IsPartFile f
      → Same s (download_loop ends fuel h f offset s)
  unfolding download_loop
  download_loop-Same zero h f offset s p = refl
  download_loop-Same (suc fuel) h f offset s p =
      bind-Same s (on_world (ends.read_chunk h offset) s) _ (apart.read_chunk h offset s.world)
        λ buf e.
          let s = (on_world (ends.read_chunk h offset) s).0 in
          elim (Bool-cases (is_empty buf)) [
            | inl done ↦ rw done (
                bind-Same s (on_world (ends.local_flush f) s) _ (apart.local_flush f s.world) λ _ _.
                  let s = (on_world (ends.local_flush f) s).0 in
                  bind-Same s (on_world (ends.close h) s) _ (apart.close h s.world) λ _ _. refl)
            | inr more ↦ rw more (
                bind-Same s (on_world (ends.local_write_all f buf) s) _
                  (apart.local_write_all f buf s.world p)
                  λ _ _.
                    let s = (on_world (ends.local_write_all f buf) s).0 in
                    bind-Same s (report ends (length buf) s) _ (report-Same (length buf) s)
                      λ stop _.
                        let s = (report ends (length buf) s).0 in
                        elim (Bool-cases stop) [
                          | inl stopped ↦ rw stopped (cancelled_at-Same h s)
                          | inr on ↦
                              rw on (download_loop-Same fuel h f (add_u64 offset (length buf)) s p)
                        ])
          ]

  transfer-Same :
      (fuel : ℕ) (direction : Direction) (item : TransferItem) (s : Copying W)
      → item.src ≡ src
      → Same s (transfer ends fuel direction item part s)
  unfolding transfer upload_file download_file
  transfer-Same fuel upload item s from_src = rw from_src (
      bind-Same s (on_world (ends.local_open src) s) _ (apart.local_open s.world) λ f _.
        let s = (on_world (ends.local_open src) s).0 in
        bind-Same s (on_world (ends.open_write part) s) _ (apart.open_write s.world) λ h e.
          upload_loop-Same fuel f h 0 (on_world (ends.open_write part) s).0
            (apart.opened s.world h e))
  transfer-Same fuel download item s from_src = rw from_src (
      bind-Same s (on_world (ends.open_read src) s) _ (apart.open_read s.world) λ h _.
        let s = (on_world (ends.open_read src) s).0 in
        bind-Same s (on_world (ends.local_create part) s) _ (apart.local_create s.world) λ f e.
          download_loop-Same fuel h f 0 (on_world (ends.local_create part) s).0
            (apart.created s.world f e))

  cleanup-Same : (direction : Direction) (s : Copying W) → Same s (cleanup ends direction part s)
  unfolding cleanup
  cleanup-Same upload s =
      let r = ends.remove part s.world in
      caught-Same s (record s { world = r.0 }) r.1 (λ _. lift (ok tt)) (apart.remove s.world)
        λ _. refl
  cleanup-Same download s =
      let r = ends.local_remove part s.world in
      caught-Same s (record s { world = r.0 }) r.1 (λ _. lift (ok tt)) (apart.local_remove s.world)
        λ _. refl

  -- A rename that succeeds ends in `ok true`; where it does not, it has failed.
  placed-Same :
      (s : Copying W) (r : W × Result (Unit {0}))
      → ((e : AppError) → r.1 ≡ err e → look r.0 ≡ look s.world)
      → r.1 ≢ panic
      → (on_result {B = Bool} (record s { world = r.0 }, r.1) (λ _. lift (ok true))).1 ≢ ok true
      → Same s (on_result {B = Bool} (record s { world = r.0 }, r.1) (λ _. lift (ok true)))
  placed-Same s (w, ok done) h total k = absurd (k refl)
  placed-Same s (w, err e) h total k = h e refl
  placed-Same s (w, panic) h total k = absurd (total refl)

-- The upload would remove an old file first; every other copy finds its destination free of that.
abbrev pub IsFresh : Direction → TransferItem → Type 0
IsFresh upload item = item.exists ≡ false
IsFresh download item = Unit {0}

module _ {W Handle File : Type 0} (ends : Ends W Handle File) (look : W → Option Bytes)
    (item : TransferItem) (apart : IsApart ends look item.src item.dst (part_of item)) where
  put_in_place-Same :
      (direction : Direction) (s : Copying W)
      → IsFresh direction item
      → (put_in_place ends direction item (part_of item) s).1 ≢ ok true
      → Same ends look apart s (put_in_place ends direction item (part_of item) s)
  unfolding put_in_place make_room
  put_in_place-Same upload s fresh k = rw fresh (
      placed-Same ends look apart s (ends.rename (part_of item) item.dst s.world)
        (apart.rename_fails s.world) (apart.rename_total s.world) (rw fresh at k))
  put_in_place-Same download s fresh k =
      placed-Same ends look apart s (ends.local_rename (part_of item) item.dst s.world)
        (apart.local_rename_fails s.world) (apart.local_rename_total s.world) k

  settle-Same :
      (direction : Direction) (r : Result Bool) (s : Copying W)
      → IsFresh direction item
      → (settle ends direction item (part_of item) r s).1 ≢ ok true
      → Same ends look apart s (settle ends direction item (part_of item) r s)
  unfolding settle
  settle-Same direction (ok true) s fresh k = put_in_place-Same direction s fresh k
  settle-Same direction (ok false) s fresh k =
      bind-Same ends look apart s (cleanup ends direction (part_of item) s) _
        (cleanup-Same ends look apart direction s) λ _ _. refl
  settle-Same direction (err e) s fresh k =
      bind-Same ends look apart s (cleanup ends direction (part_of item) s) _
        (cleanup-Same ends look apart direction s) λ _ _. refl
  settle-Same direction panic s fresh k = refl

-- A copy that does not come back with `Ok(true)`, by an error at any point or by a cancel, leaves the
-- file at its destination as it was, where an upload has nothing to remove there first.
pub copy_file-destination :
    {W Handle File : Type 0} (ends : Ends W Handle File) (look : W → Option Bytes)
    (item : TransferItem) (apart : IsApart ends look item.src item.dst (part_of item)) (fuel : ℕ)
    (direction : Direction) (s : Copying W)
    → IsFresh direction item
    → (copy_file ends fuel direction item s).1 ≢ ok true
    → look (copy_file ends fuel direction item s).0.world ≡ look s.world
unfolding copy_file
copy_file-destination ends look item apart fuel direction s fresh k =
    let r = transfer ends fuel direction item (part_of item) s in
    settle-Same ends look item apart direction r.1 r.0 fresh k
    ∙ transfer-Same ends look apart fuel direction item s refl
