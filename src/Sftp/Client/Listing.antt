-- ===== src/Sftp/Client/Listing.antt =====
-- src/ssh/sftp/client.rs: the whole listing of a directory, over a server that answers in turn.
use ssh_control.Prelude.{
  ℕ, ◌<◌, ◌≡◌, refl, Bytes, List, [], ◌∷◌, ◌++◌, length, ok, ◌==◌, All, IsU32, Bool-cases, inl, inr,
}
use ssh_control.Calls.{caught}
use ssh_control.Sftp.Wire.{finish, put_bytes, request}
use ssh_control.Sftp.Wire.Replies.{
  ServerReply, server_status, server_short_status, server_handle, server_data, server_name,
  server_attrs, ServerEntry, reply_of,
}
use ssh_control.Sftp.Client.{
  RemoteEntry, following, list_dir, opendir, close, expect_ok, next_id, read_all_names,
  max_readdir_batches, accept_ok,
}
use ssh_control.Sftp.Codes.{fxp_opendir, fxp_close, fx_eof, fx_ok}
use ssh_control.Sftp.Client.Session.{
  duplex, client, framed, IsAnswer, send-framed, following_in_range, batch_answers, all_rows,
  readdirs, id_after, listing_result, LastStatus, status_reply, read_batches-answers,
}

id_after-IsU32 : {A : Type 0} (id : ℕ) (batches : List A) → IsU32 id → IsU32 (id_after id batches)
id_after-IsU32 id [] h = (following_in_range id h).1.0
id_after-IsU32 id (b ∷ batches) h =
    id_after-IsU32 (following id) batches (following_in_range id h).1.0

abbrev pub opendir_request : Bytes → ℕ → Bytes
opendir_request path id = finish (put_bytes path (request fxp_opendir id))

abbrev pub close_request : Bytes → ℕ → Bytes
close_request h id = finish (put_bytes h (request fxp_close id))

opendir-handle :
    (path h rest : Bytes) (sent : List Bytes) (id : ℕ)
    → IsU32 id
    → IsAnswer (server_handle h)
    → opendir duplex path (client (framed id (server_handle h) ++ rest) sent id)
      ≡ (client rest (sent ++ (opendir_request path id ∷ [])) (following id), ok h)
unfolding opendir next_id
opendir-handle path h rest sent id u32 answer =
    rw
      (send-framed id (server_handle h) rest (opendir_request path id) sent (following id) u32
        answer)
      refl

close-answer :
    (h rest : Bytes) (r : ServerReply) (sent : List Bytes) (id : ℕ)
    → IsU32 id
    → IsAnswer r
    → close duplex h (client (framed id r ++ rest) sent id)
      ≡ (client rest (sent ++ (close_request h id ∷ [])) (following id), accept_ok [] (reply_of r))
unfolding close next_id expect_ok
close-answer h rest r sent id u32 answer =
    rw (send-framed id r rest (close_request h id) sent (following id) u32 answer) refl

accept_ok-caught :
    (r : ServerReply) → caught (accept_ok [] (reply_of r)) ≡ ok (accept_ok [] (reply_of r))
accept_ok-caught (server_status code message tag) = elim (Bool-cases (code == fx_ok)) [
  | inl e ↦ rw e refl
  | inr e ↦ rw e refl
]
accept_ok-caught (server_short_status code) = elim (Bool-cases (code == fx_ok)) [
  | inl e ↦ rw e refl
  | inr e ↦ rw e refl
]
accept_ok-caught (server_handle b) = refl
accept_ok-caught (server_data b) = refl
accept_ok-caught (server_name entries) = refl
accept_ok-caught (server_attrs w) = refl

listing_result-caught :
    (path : Bytes) (last : LastStatus) (entries : List RemoteEntry)
    → caught (listing_result path last entries) ≡ ok (listing_result path last entries)
listing_result-caught path last entries = elim (Bool-cases (last.code == fx_eof)) [
  | inl e ↦ rw e refl
  | inr e ↦ rw e refl
]

-- Over a server that answers a handle, fewer than 20,000 batches of names, a last status, with a
-- message or without, and anything to the close: the listing is the rows of every batch in order
-- where the status is `EOF`, and that status as an error with its message otherwise. Either way the requests sent are the open, one `READDIR` for each
-- answer and the close of that handle, each with its own id, and no byte beyond the answers is read.
pub list_dir-answers :
    (path h : Bytes) (batches : List (List ServerEntry)) (ending : LastStatus)
    (closing : ServerReply) (rest : Bytes) (sent : List Bytes) (id : ℕ)
    → IsU32 id
    → length batches < max_readdir_batches
    → IsAnswer (server_handle h)
    → All (λ b. IsAnswer (server_name b)) batches
    → IsAnswer (status_reply ending)
    → IsAnswer closing
    → let last = id_after (following id) batches in
      list_dir duplex path (
        client
          (framed id (server_handle h)
            ++ batch_answers
                (following id)
                batches
                (status_reply ending)
                (framed last closing ++ rest))
          sent
          id)
      ≡ (
        client rest
            (((sent ++ (opendir_request path id ∷ [])) ++ readdirs h (following id) batches)
              ++ (close_request h last ∷ []))
            (following last),
        listing_result path ending (all_rows batches),
      )
unfolding list_dir read_all_names
list_dir-answers path h batches ending closing rest sent id u32 few opened all last closed =
    let second = following id in
    let u32' = (following_in_range id u32).1.0 in
    let third = id_after second batches in
    let after = framed third closing ++ rest in
    let sent' = sent ++ (opendir_request path id ∷ []) in
    let e1 =
      opendir-handle path h (batch_answers second batches (status_reply ending) after) sent id u32
        opened in
    let e2 =
      read_batches-answers path h batches ending after max_readdir_batches [] sent' second few u32'
        all last in
    let e3 =
      close-answer h rest closing (sent' ++ readdirs h second batches) third
        (id_after-IsU32 second batches u32') closed in
    rw e1 (
      rw e2 (
        rw (listing_result-caught path ending (all_rows batches))
          (rw e3 (rw (accept_ok-caught closing) refl))))
