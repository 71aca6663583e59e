-- ===== src/Transfers/Content.antt =====
-- src/ssh/transfer.rs: a download brings the whole file, whatever the lengths of the chunks are.
use ssh_control.Prelude.{
  ℕ, zero, suc, ◌+◌, ◌<◌, ◌≡◌, ◌≢◌, refl, sym, ◌∙◌, ap, subst, Bytes, [], ◌∷◌, ◌++◌, append_assoc,
  append-nil, length, length-append, drop, drop-append, Bool, true, false, ok, err, panic, Option,
  some, IsU64, arith, Bool-cases, inl, inr,
}
use ssh_control.Errors.{Result, AppError}
use ssh_control.Calls.{Call, on_result, lift, caught}
use ssh_control.Transfers.{download, TransferItem, TransferEvent, progress, Ends, add_u64}
use ssh_control.Transfers.Copy.{
  Copying, on_world, is_empty, report, cancelled_at, download_loop, download_file, cleanup,
  put_in_place, transfer, settle, part_of, copy_file,
}

-- A chunk that arrived: it stands next in the file, and is empty only at the end.
pub record IsNext (content : Bytes) (offset : ℕ) (b : Bytes) : Type 0 where
  pub rest : Bytes
  pub next : drop offset content ≡ b ++ rest
  pub at_end : b ≡ [] → rest ≡ []

-- The remote file has a content that does not change while it is read; the part file holds what was
-- written to it in order; a rename takes that to the destination. `part_at` and `look` read the part
-- file and the destination.
pub record IsStore {W Handle File : Type 0} (ends : Ends W Handle File)
    (part_at look : W → Option Bytes) (src dst part content : Bytes) : Type 1 where
  pub IsSource : Handle → Type 0
  pub IsPart : File → Type 0
  pub opened : (w : W) (h : Handle) → (ends.open_read src w).1 ≡ ok h → IsSource h
  pub read :
      (h : Handle) (offset : ℕ) (w : W) (b : Bytes)
      → IsSource h
      → (ends.read_chunk h offset w).1 ≡ ok b
      → IsNext content offset b
  pub read_keeps :
      (h : Handle) (offset : ℕ) (w : W) → part_at (ends.read_chunk h offset w).0 ≡ part_at w
  pub created : (w : W) (f : File) → (ends.local_create part w).1 ≡ ok f → IsPart f
  pub create_empties :
      (w : W) (f : File)
      → (ends.local_create part w).1 ≡ ok f
      → part_at (ends.local_create part w).0 ≡ some []
  pub write_appends :
      (f : File) (b : Bytes) (w : W) (old : Bytes)
      → IsPart f
      → (ends.local_write_all f b w).1 ≡ ok tt
      → part_at w ≡ some old
      → part_at (ends.local_write_all f b w).0 ≡ some (old ++ b)
  pub flush_keeps : (f : File) (w : W) → part_at (ends.local_flush f w).0 ≡ part_at w
  pub close_keeps : (h : Handle) (w : W) → part_at (ends.close h w).0 ≡ part_at w
  pub event_keeps : (e : TransferEvent) (w : W) → part_at (ends.on_event e w).0 ≡ part_at w
  pub rename_moves :
      (w : W)
      → (ends.local_rename part dst w).1 ≡ ok tt
      → look (ends.local_rename part dst w).0 ≡ part_at w

-- None of the calls of a download panics.
pub record IsTotal {W Handle File : Type 0} (ends : Ends W Handle File) : Type 0 where
  pub open_read : (p : Bytes) (w : W) → (ends.open_read p w).1 ≢ panic
  pub read_chunk : (h : Handle) (offset : ℕ) (w : W) → (ends.read_chunk h offset w).1 ≢ panic
  pub close : (h : Handle) (w : W) → (ends.close h w).1 ≢ panic
  pub local_create : (p : Bytes) (w : W) → (ends.local_create p w).1 ≢ panic
  pub local_write_all : (f : File) (b : Bytes) (w : W) → (ends.local_write_all f b w).1 ≢ panic
  pub local_flush : (f : File) (w : W) → (ends.local_flush f w).1 ≢ panic
  pub local_rename : (p q : Bytes) (w : W) → (ends.local_rename p q w).1 ≢ panic
  pub local_remove : (p : Bytes) (w : W) → (ends.local_remove p w).1 ≢ panic

-- How a copy ends: by an error, by a cancel, or with the content in place.
pub data Ending {W : Type 0} (at : W → Option Bytes) (content : Bytes) (r : Copying W × Result Bool)
    : Type 0 where
  by_error : (e : AppError) → r.1 ≡ err e → Ending at content r
  by_cancel : r.1 ≡ ok false → Ending at content r
  whole : r.1 ≡ ok true → at r.0.world ≡ some content → Ending at content r

add_length : (a b : ℕ) → IsU64 (a + b) → add_u64 a b ≡ a + b
add_length a b h = omega arith

module _ {W : Type 0} (at : W → Option Bytes) (content : Bytes) where
  bind-Ending :
      {A : Type 0} (r : Copying W × Result A) (f : A → Call (Copying W) Bool)
      → r.1 ≢ panic
      → ((a : A) → r.1 ≡ ok a → Ending at content (f a r.0))
      → Ending at content (on_result r f)
  bind-Ending (t, ok a) f total k = k a refl
  bind-Ending (t, err e) f total k = by_error e refl
  bind-Ending (t, panic) f total k = absurd (total refl)

  -- A cleanup and the value that it comes before.
  caught-Ending :
      (t : Copying W) (r : Result (Unit {0})) (f : Result (Unit {0}) → Call (Copying W) Bool)
      → r ≢ panic
      → ((a : Result (Unit {0})) → Ending at content (f a t))
      → Ending at content (on_result (t, caught r) f)
  caught-Ending t (ok a) f total k = k (ok a)
  caught-Ending t (err e) f total k = k (err e)
  caught-Ending t panic f total k = absurd (total refl)

  -- What comes after a cleanup, whether that worked or not.
  cleaned-Ending :
      (gone : W × Result (Unit {0})) (s : Copying W) (out : Result Bool)
      → gone.1 ≢ panic
      → ((t : Copying W) → Ending at content (t, out))
      → Ending at content (
          on_result
            (on_result (record s { world = gone.0 }, caught gone.1) (λ _. lift (ok tt)))
            (λ (u : Unit {0}). lift out))
  cleaned-Ending (w, ok a) s out total k = k (record s { world = w })
  cleaned-Ending (w, err e) s out total k = k (record s { world = w })
  cleaned-Ending (w, panic) s out total k = absurd (total refl)

module _ {W Handle File : Type 0} (ends : Ends W Handle File) (part_at look : W → Option Bytes)
    {src dst part content : Bytes} (store : IsStore ends part_at look src dst part content)
    (total : IsTotal ends) where
  is_empty_lem : (b : Bytes) → is_empty b ≡ true → b ≡ []
  is_empty_lem [] h = refl
  is_empty_lem (x ∷ b) h = absurd (cc)

  is_filled : (b : Bytes) → is_empty b ≡ false → 0 < length b
  is_filled [] h = absurd (cc)
  is_filled (x ∷ b) h = omega arith

  cancelled_at-Ending :
      (h : Handle) (s : Copying W) → Ending part_at content (cancelled_at ends h s)
  unfolding cancelled_at
  cancelled_at-Ending h s =
      let r = ends.close h s.world in
      caught-Ending part_at content (record s { world = r.0 }) r.1 (λ _. lift (ok false))
        (total.close h s.world) λ _. by_cancel refl

  nothing_left :
      (got rest b more c : Bytes)
      → got ++ rest ≡ c
      → rest ≡ b ++ more
      → b ≡ []
      → more ≡ []
      → got ≡ c
  nothing_left got rest b more c split left none_b none_more =
      let empty : rest ≡ [] = left ∙ rw (none_b, none_more) refl in
      sym (append-nil got) ∙ (ap (λ x. got ++ x) (sym empty) ∙ split)

  -- From `got` written on, with `rest` still to come.
  download_loop-Ending :
      (fuel : ℕ) (h : Handle) (f : File) (got rest : Bytes) (offset : ℕ) (s : Copying W)
      → store.IsSource h
      → store.IsPart f
      → got ++ rest ≡ content
      → IsU64 (length content)
      → offset ≡ length got
      → length rest < fuel
      → part_at s.world ≡ some got
      → Ending part_at content (download_loop ends fuel h f offset s)
  unfolding download_loop report
  download_loop-Ending zero h f got rest offset s source part_file split u64 off enough here =
      absurd (omega arith)
  download_loop-Ending (suc fuel) h f got rest offset s source part_file split u64 off enough here =
      bind-Ending part_at content (on_world (ends.read_chunk h offset) s) _
        (total.read_chunk h offset s.world)
        λ b e.
          let chunk = store.read h offset s.world b source e in
          let s₁ = (on_world (ends.read_chunk h offset) s).0 in
          let here₁ : part_at s₁.world ≡ some got = store.read_keeps h offset s.world ∙ here in
          let left : rest ≡ b ++ chunk.rest =
            sym (drop-append got rest)
            ∙ subst (λ n. drop n (got ++ rest) ≡ b ++ chunk.rest) off
                (subst (λ c. drop offset c ≡ b ++ chunk.rest) (sym split) chunk.next) in
          elim (Bool-cases (is_empty b)) [
            | inl done ↦ rw done (
                let nothing = is_empty_lem b done in
                let all =
                  nothing_left got rest b chunk.rest content split left nothing
                    (chunk.at_end nothing) in
                bind-Ending part_at content (on_world (ends.local_flush f) s₁) _
                  (total.local_flush f s₁.world)
                  λ _ _.
                    let s₂ = (on_world (ends.local_flush f) s₁).0 in
                    bind-Ending part_at content (on_world (ends.close h) s₂) _
                      (total.close h s₂.world)
                      λ _ _. whole refl (
                        store.close_keeps h s₂.world
                        ∙ (store.flush_keeps f s₁.world ∙ rw (sym all) here₁)))
            | inr more ↦ rw more (
                bind-Ending part_at content (on_world (ends.local_write_all f b) s₁) _
                  (total.local_write_all f b s₁.world)
                  λ u w.
                    let s₂ = (on_world (ends.local_write_all f b) s₁).0 in
                    let here₂ = store.write_appends f b s₁.world got part_file w here₁ in
                    let event = progress (add_u64 s₂.done_bytes (length b)) in
                    let s₃ = (report ends (length b) s₂).0 in
                    let here₃ : part_at s₃.world ≡ some (got ++ b) =
                      store.event_keeps event s₂.world ∙ here₂ in
                    elim (Bool-cases (ends.on_event event s₂.world).1) [
                      | inl stopped ↦ rw stopped (cancelled_at-Ending h s₃)
                      | inr on ↦ rw on (
                          let filled = is_filled b more in
                          let split' : (got ++ b) ++ chunk.rest ≡ content =
                            append_assoc got b chunk.rest
                            ∙ subst (λ x. got ++ x ≡ content) left split in
                          let counts : length content ≡ length got + length rest =
                            subst (λ x. length x ≡ length got + length rest) split
                              (length-append got rest) in
                          let parts : length rest ≡ length b + length chunk.rest =
                            subst (λ x. length x ≡ length b + length chunk.rest) (sym left)
                              (length-append b chunk.rest) in
                          download_loop-Ending fuel h f (got ++ b) chunk.rest
                            (add_u64 offset (length b)) s₃ source part_file split' u64
                            (omega (arith, length-append got b)) (omega arith) here₃)
                    ])
          ]

  transfer-Ending :
      (fuel : ℕ) (item : TransferItem) (s : Copying W)
      → item.src ≡ src
      → IsU64 (length content)
      → length content < fuel
      → Ending part_at content (transfer ends fuel download item part s)
  unfolding transfer download_file
  transfer-Ending fuel item s from_src u64 enough = rw from_src (
      bind-Ending part_at content (on_world (ends.open_read src) s) _ (total.open_read src s.world)
        λ h e.
          let s₁ = (on_world (ends.open_read src) s).0 in
          bind-Ending part_at content (on_world (ends.local_create part) s₁) _
            (total.local_create part s₁.world)
            λ f c.
              download_loop-Ending fuel h f [] content 0 (on_world (ends.local_create part) s₁).0
                (store.opened s.world h e) (store.created s₁.world f c) refl u64 refl enough
                (store.create_empties s₁.world f c))

-- A download of a file that fits in 64 bits comes to its end, given one unit of fuel for each byte and
-- one more, whatever lengths the server's chunks have: by an error, by a cancel, or with the whole
-- content of the source at the destination, in that order of bytes.
pub copy_file-Ending :
    {W Handle File : Type 0} (ends : Ends W Handle File) (part_at look : W → Option Bytes)
    (item : TransferItem) {content : Bytes}
    (store : IsStore ends part_at look item.src item.dst (part_of item) content)
    (total : IsTotal ends) (fuel : ℕ) (s : Copying W)
    → IsU64 (length content)
    → length content < fuel
    → Ending look content (copy_file ends fuel download item s)
unfolding copy_file settle put_in_place cleanup
copy_file-Ending ends part_at look item {content} store total fuel s u64 enough =
    let part = part_of item in
    let r = transfer ends fuel download item part s in
    elim (transfer-Ending ends part_at look store total fuel item s refl u64 enough) [
      | by_error e failed ↦ rw failed (
          cleaned-Ending look content (ends.local_remove part r.0.world) r.0 (err e)
            (total.local_remove part r.0.world) λ t. by_error e refl)
      | by_cancel stopped ↦ rw stopped (
          cleaned-Ending look content (ends.local_remove part r.0.world) r.0 (ok false)
            (total.local_remove part r.0.world) λ t. by_cancel refl)
      | whole done here ↦ rw done (
          bind-Ending look content (on_world (ends.local_rename part item.dst) r.0) _
            (total.local_rename part item.dst r.0.world)
            λ u e. whole refl (store.rename_moves r.0.world e ∙ here))
    ]
