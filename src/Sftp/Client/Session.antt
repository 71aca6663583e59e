-- ===== src/Sftp/Client/Session.antt =====
-- src/ssh/sftp/client.rs: a session with a server that answers each request in turn.
use ssh_control.Prelude.{
  ℕ, zero, suc, ◌+◌, ◌≤◌, ◌<◌, ◌%◌, ◌≡◌, ◌≢◌, refl, sym, Bytes, List, [], ◌∷◌, ◌++◌, append_assoc,
  append-nil, length, length-append, take, drop, take-append, drop-append, true, false, leb, le→leb,
  ltb, le→ltb, ltb→le, ltb→lt, ◌==◌, Option, some, none, ok, err, map, All, IsU32, arith,
  to_be_bytes32, if◌then◌else◌, Bool-cases, inl, inr,
}
use ssh_control.Errors.{Result, unexpected_eof}
use ssh_control.Sftp.Wire.{finish, put_bytes, request, reply_status}
use ssh_control.Sftp.Wire.Cursors.{string_bytes, be_u32_lem}
use ssh_control.Sftp.Utf8.{from_utf8_lossy}
use ssh_control.Sftp.Wire.Replies.{
  ServerReply, server_status, server_short_status, server_name, IsServerReply, packet, reply_of,
  decode-packet, ServerEntry, entry_of,
}
use ssh_control.Sftp.Client.{
  Stream, arrived, broke, SftpClient, following, send, read_reply, read_exact, write_packet,
  matched, timeout, RemoteEntry, rows, read_names, read_batches, next_id,
}
use ssh_control.Sftp.Codes.{max_packet, status_error, fxp_readdir, fx_eof}

-- Every request id is from 1 to 2^32 - 1 and is another one than the id before it.
pub following_in_range :
    (id : ℕ) → IsU32 id → (1 ≤ following id) × (IsU32 (following id) × (following id ≢ id))
unfolding following
following_in_range id h = elim (Bool-cases (ltb 0 ((id + 1) % 4294967296))) [
  | inl e ↦ rw e (let pos = ltb→lt 0 _ e in (omega arith, (omega arith, λ same. omega arith)))
  | inr e ↦ rw e (let none_left = ltb→le 0 _ e in (omega arith, (omega arith, λ same. omega arith)))
]

-- What the server is going to deliver, and the packets that it was sent.
pub record Duplex : Type 0 where
  pub pending : Bytes
  pub sent : List Bytes

abbrev pub duplex : Stream Duplex
duplex = record {
  write_all = λ packet s. (record s { sent = s.sent ++ (packet ∷ []) }, arrived tt);
  flush = λ s. (s, arrived tt);
  read_exact = λ n s.
      if leb n (length s.pending)
      then (record s { pending = drop n s.pending }, arrived (take n s.pending))
      else (record s { pending = [] }, broke unexpected_eof);
}

abbrev pub client : Bytes → List Bytes → ℕ → SftpClient Duplex
client pending sent id = record { stream = record { pending = pending; sent = sent }; next_id = id }

-- A reply with its length in front.
abbrev pub framed : ℕ → ServerReply → Bytes
framed id r = string_bytes (packet id r)

pub record IsAnswer (r : ServerReply) : Type 0 where
  pub valid : IsServerReply r
  pub short : (id : ℕ) → length (packet id r) ≤ max_packet

pub read_exact-duplex :
    (a b : Bytes) (sent : List Bytes) (id : ℕ)
    → read_exact duplex (length a) (client (a ++ b) sent id) ≡ (client b sent id, ok a)
unfolding read_exact timeout
read_exact-duplex a b sent id =
    let fits : leb (length a) (length (a ++ b)) ≡ true =
      le→leb _ _ (omega (arith, length-append a b)) in
    rw (fits, take-append a b, drop-append a b) refl

read_reply-framed :
    (id : ℕ) (r : ServerReply) (rest : Bytes) (sent : List Bytes) (next : ℕ)
    → IsU32 id
    → IsAnswer r
    → read_reply duplex (client (framed id r ++ rest) sent next)
      ≡ (client rest sent next, ok (some id, reply_of r))
unfolding read_reply
read_reply-framed id r rest sent next h answer =
    let n = length (packet id r) in
    let short = answer.short id in
    let first = read_exact-duplex (to_be_bytes32 n) (packet id r ++ rest) sent next in
    let second = read_exact-duplex (packet id r) rest sent next in
    let len = be_u32_lem n (omega arith) in
    let not_long : ltb max_packet n ≡ false = le→ltb _ _ short in
    let body = decode-packet id r h answer.valid (omega arith) in
    let filled : (n == 0) ≡ false = ground arith in
    rw first (rw len (rw filled (rw not_long (rw second (rw body refl)))))

-- A request that the server answers comes back with that answer, and nothing else is consumed.
pub send-framed :
    (id : ℕ) (r : ServerReply) (rest p : Bytes) (sent : List Bytes) (next : ℕ)
    → IsU32 id
    → IsAnswer r
    → send duplex id p (client (framed id r ++ rest) sent next)
      ≡ (client rest (sent ++ (p ∷ [])) next, ok (reply_of r))
unfolding send write_packet timeout matched
send-framed id r rest p sent next h answer =
    let same : (id == id) ≡ true = ground arith in
    rw (read_reply-framed id r rest (sent ++ (p ∷ [])) next h answer) (rw same refl)

-- The requests of one listing from request `id` on: a `READDIR` for each batch and for the end.
abbrev pub readdir : Bytes → ℕ → Bytes
readdir h id = finish (put_bytes h (request fxp_readdir id))

abbrev pub readdirs : {A : Type 0} → Bytes → ℕ → List A → List Bytes
readdirs h id [] = readdir h id ∷ []
readdirs h id (b ∷ batches) = readdir h id ∷ readdirs h (following id) batches

-- The id that follows a list of requests and one more.
abbrev pub id_after : {A : Type 0} → ℕ → List A → ℕ
id_after id [] = following id
id_after id (b ∷ batches) = id_after (following id) batches

abbrev pub batch_answers : ℕ → List (List ServerEntry) → ServerReply → Bytes → Bytes
batch_answers id [] last rest = framed id last ++ rest
batch_answers id (b ∷ batches) last rest =
    framed id (server_name b) ++ batch_answers (following id) batches last rest

abbrev pub all_rows : List (List ServerEntry) → List RemoteEntry
all_rows [] = []
all_rows (b ∷ batches) = rows (map entry_of b) ++ all_rows batches

-- The status that ends a listing: its code, with a message and its language or, as sloppy servers
-- send it, without.
pub record LastStatus : Type 0 where
  pub code : ℕ
  pub text : Option (Bytes × Bytes)

abbrev pub status_reply : LastStatus → ServerReply
status_reply s = elim s.text [
  | none ↦ server_short_status s.code
  | some (message, language) ↦ server_status s.code message language
]

-- What the client shows of the message.
abbrev pub message_of : LastStatus → Bytes
message_of s = elim s.text [ none ↦ [] | some (message, language) ↦ from_utf8_lossy message ]

-- The code `EOF` is a listing, any other one an error with the server's message.
abbrev pub listing_result : Bytes → LastStatus → List RemoteEntry → Result (List RemoteEntry)
listing_result path s entries =
    if s.code == fx_eof then ok entries else err (status_error path s.code (message_of s))

reply_of-status_reply :
    (s : LastStatus) → reply_of (status_reply s) ≡ reply_status s.code (message_of s)
reply_of-status_reply s = by_text s.text refl
  where
    by_text :
        (t : Option (Bytes × Bytes))
        → s.text ≡ t
        → reply_of (status_reply s) ≡ reply_status s.code (message_of s)
    by_text none e = rw e refl
    by_text (some (message, language)) e = rw e refl

read_names-batch :
    (path h : Bytes) (b : List ServerEntry) (rest : Bytes) (sent : List Bytes) (id : ℕ)
    → IsU32 id
    → IsAnswer (server_name b)
    → read_names duplex path h (client (framed id (server_name b) ++ rest) sent id) ≡ (
      client rest (sent ++ (readdir h id ∷ [])) (following id),
      ok (some (rows (map entry_of b))),
    )
unfolding read_names next_id
read_names-batch path h b rest sent id u32 answer =
    rw (send-framed id (server_name b) rest (readdir h id) sent (following id) u32 answer) refl

read_names-status :
    (path h : Bytes) (last : LastStatus) (rest : Bytes) (sent : List Bytes) (id : ℕ)
    → IsU32 id
    → IsAnswer (status_reply last)
    → read_names duplex path h (client (framed id (status_reply last) ++ rest) sent id) ≡ (
      client rest (sent ++ (readdir h id ∷ [])) (following id),
      (if last.code == fx_eof
          then ok none
          else err (status_error path last.code (message_of last))),
    )
unfolding read_names next_id
read_names-status path h last rest sent id u32 answer =
    rw
      (
        send-framed id (status_reply last) rest (readdir h id) sent (following id) u32 answer,
        reply_of-status_reply last,
      )
      refl

pub read_batches-answers :
    (path h : Bytes) (batches : List (List ServerEntry)) (last : LastStatus) (rest : Bytes)
    (rounds : ℕ) (entries : List RemoteEntry) (sent : List Bytes) (id : ℕ)
    → length batches < rounds
    → IsU32 id
    → All (λ b. IsAnswer (server_name b)) batches
    → IsAnswer (status_reply last)
    → read_batches duplex rounds path h entries
        (client (batch_answers id batches (status_reply last) rest) sent id)
      ≡ (
        client rest (sent ++ readdirs h id batches) (id_after id batches),
        listing_result path last (entries ++ all_rows batches),
      )
unfolding read_batches
read_batches-answers path h batches last rest zero entries sent id few u32 all ended =
    absurd (omega arith)
read_batches-answers path h [] last rest (suc rounds) entries sent id few u32 all ended =
    let e = read_names-status path h last rest sent id u32 ended in
    rw (append-nil entries) (elim (Bool-cases (last.code == fx_eof)) [
      | inl eof ↦ rw e (rw eof refl)
      | inr error ↦ rw e (rw error refl)
    ])
read_batches-answers path h (b ∷ batches) last rest (suc rounds) entries sent id few u32
      (answer, all) ended =
    let tail = batch_answers (following id) batches (status_reply last) rest in
    let e = read_names-batch path h b tail sent id u32 answer in
    let (low, (u32', other)) = following_in_range id u32 in
    let ih =
      read_batches-answers path h batches last rest rounds (entries ++ rows (map entry_of b))
        (sent ++ (readdir h id ∷ [])) (following id) (omega arith) u32' all ended in
    rw e (
      rw
        (
          sym (append_assoc entries (rows (map entry_of b)) (all_rows batches)),
          sym (append_assoc sent (readdir h id ∷ []) (readdirs h (following id) batches)),
        )
        ih)
