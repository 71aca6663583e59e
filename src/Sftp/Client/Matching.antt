-- ===== src/Sftp/Client/Matching.antt =====
-- src/ssh/sftp/client.rs: which reply a request takes, over any stream.
use ssh_control.Prelude.{
  ℕ, ◌≤◌, ◌≡◌, sym, Bytes, false, ◌||◌, ◌==◌, ==_iff, ltb, ltb→le, Option, some, none, ok, err,
  arith, Bool-cases, inl, inr, if◌then◌else◌,
}
use ssh_control.Errors.{sftp, impossible_packet}
use ssh_control.Calls.{Call, on_result, ◌>>=◌, lift, by_call}
use ssh_control.Sftp.Wire.{Reply, decode, be_u32}
use ssh_control.Sftp.Client.{
  Stream, SftpClient, send, matched, write_packet, read_reply, read_exact,
}
use ssh_control.Sftp.Codes.{max_packet}

matched_same :
    (id : ℕ) (answer : Option ℕ × Reply) {reply : Reply}
    → matched id answer ≡ ok reply
    → answer ≡ (some id, reply)
unfolding matched
matched_same id (none, r) h = absurd (cc)
matched_same id (some got, r) h = elim (Bool-cases (got == id)) [
  | inl e ↦ let same = (==_iff got id).0 e in let got_it = rw e at h in cc
  | inr e ↦ let refused = rw e at h in absurd (cc)
]

-- What a reply was decoded from.
pub record Body {S : Type 0} (tokio : Stream S) (d : SftpClient S) (answer : Option ℕ × Reply)
    : Type 0 where
  pub before : SftpClient S
  pub len : ℕ
  pub bytes : Bytes
  pub not_long : len ≤ max_packet
  pub was_read : read_exact tokio len before ≡ (d, ok bytes)
  pub decoded : decode bytes ≡ ok answer

-- The rest of `read_reply` after the length's bytes, and after the length.
abbrev checked_body : {S : Type 0} → Stream S → ℕ → Call (SftpClient S) (Option ℕ × Reply)
checked_body tokio len =
    if len == 0 || ltb max_packet len
    then lift (err (sftp (impossible_packet len)))
    else (do body ← read_exact tokio len; lift (decode body))

abbrev after_length : {S : Type 0} → Stream S → Bytes → Call (SftpClient S) (Option ℕ × Reply)
after_length tokio len_buf = do len ← lift (be_u32 len_buf 0); checked_body tokio len

abbrev read_matched : {S : Type 0} → Stream S → ℕ → Call (SftpClient S) Reply
read_matched tokio id = do answer ← read_reply tokio; lift (matched id answer)

in_bound : (len : ℕ) → (len == 0 || ltb max_packet len) ≡ false → len ≤ max_packet
in_bound len h = elim (Bool-cases (ltb max_packet len)) [
  | inl over ↦ absurd (ground arith)
  | inr fits ↦ ltb→le _ _ fits
]

module _ {S : Type 0} (tokio : Stream S) where
  read_body :
      (len : ℕ) (c d : SftpClient S) {answer : Option ℕ × Reply}
      → len ≤ max_packet
      → on_result (read_exact tokio len c) (λ body. lift (decode body)) ≡ (d, ok answer)
      → Body tokio d answer
  read_body len c d short h =
      by_call (read_exact tokio len c) (λ body. lift (decode body)) h
        λ c' body e rest.
          let same_state : c' ≡ d = cc in
          record {
            before = c;
            len = len;
            bytes = body;
            not_long = short;
            was_read = rw (sym same_state) e;
            decoded = cc;
          }

  read_reply-Body :
      (c d : SftpClient S) {answer : Option ℕ × Reply}
      → read_reply tokio c ≡ (d, ok answer)
      → Body tokio d answer
  unfolding read_reply
  read_reply-Body c d h = by_call (read_exact tokio 4 c) (after_length tokio) h λ c₁ len_buf e₁ h₁.
      by_call (c₁, be_u32 len_buf 0) (checked_body tokio) h₁
        λ c₂ len e₂ h₂. elim (Bool-cases (len == 0 || ltb max_packet len)) [
          | inl bad ↦
              let refused : (c₂, err (sftp (impossible_packet len))) ≡ (d, ok _) = rw bad at h₂ in
              absurd (cc)
          | inr good ↦ read_body len c₂ d (in_bound len good) (rw good at h₂)
        ]

  -- A request that succeeds, over whatever stream: its reply was decoded, with the request's own id,
  -- from a body that is read last and is at most 256 KiB long.
  pub send-Body :
      (id : ℕ) (packet : Bytes) (c d : SftpClient S) {reply : Reply}
      → send tokio id packet c ≡ (d, ok reply)
      → Body tokio d (some id, reply)
  unfolding send
  send-Body id packet c d {reply} h =
      by_call (write_packet tokio packet c) (λ _. read_matched tokio id) h
        λ c₁ u e₁ h₁.
          by_call (read_reply tokio c₁) (λ answer. lift (matched id answer)) h₁
            λ c₂ answer e₂ h₂.
              let accepted : matched id answer ≡ ok reply = cc in
              let same_state : c₂ ≡ d = cc in
              read_reply-Body c₁ d (rw (sym (matched_same id answer accepted), sym same_state) e₂)
