-- ===== src/Socks.antt =====
-- src/ssh/forward/socks.rs: the front half of a dynamic forward, over a stream that is a parameter.
pub mod Addresses
pub mod Clients
mod Tests
use ssh_control.Prelude.{
  ℕ, ◌+◌, ◌*◌, ◌≡◌, Bytes, List, [], ◌∷◌, ◌++◌, length, Bool, true, false, not, ◌||◌, ◌==◌,
  if◌then◌else◌, Outcome, ok, err, panic, codes, index, map_err, bytes_eq, Option, some, none,
}
use ssh_control.Errors.{IoKind}
use ssh_control.Sftp.Utf8.{from_utf8_lossy}
use ssh_control.Socks.Addresses.{ipv4_text, ipv6_text}

abbrev pub version : ℕ
version = 5

abbrev pub auth_none : ℕ
auth_none = 0

abbrev pub auth_unacceptable : ℕ
auth_unacceptable = 255

abbrev pub cmd_connect : ℕ
cmd_connect = 1

abbrev pub addr_ipv4 : ℕ
addr_ipv4 = 1

abbrev pub addr_domain : ℕ
addr_domain = 3

abbrev pub addr_ipv6 : ℕ
addr_ipv6 = 4

pub data Reply : Type 0 where
  succeeded general_failure host_unreachable command_not_supported : Reply
  address_type_not_supported : Reply

-- `reply as u8`
unfoldable pub reply_code : Reply → ℕ
reply_code succeeded = 0
reply_code general_failure = 1
reply_code host_unreachable = 4
reply_code command_not_supported = 7
reply_code address_type_not_supported = 8

pub record Request : Type 0 where
  pub host : Bytes
  pub port : ℕ

pub data SocksError : Type 0 where
  not_a_client no_usable_method not_a_request name_not_utf8 : SocksError
  socks_io : IoKind → SocksError
  refused : Reply → SocksError

-- tokio's stream.
pub record Stream (S : Type 0) : Type 0 where
  pub read_exact : ℕ → S → S × Outcome IoKind Bytes
  pub write_all : Bytes → S → S × Outcome IoKind (Unit {0})

abbrev pub Call : Type 0 → Type 0 → Type 0
Call S A = S → S × Outcome SocksError A

abbrev pub on_result :
    {S A B : Type 0} → S × Outcome SocksError A → (A → Call S B) → S × Outcome SocksError B
on_result (s, ok a) f = f a s
on_result (s, err e) f = (s, err e)
on_result (s, panic) f = (s, panic)

infixl 5 ◌>>=◌ ◌>>◌
abbrev pub ◌>>=◌ : {S A B : Type 0} → Call S A → (A → Call S B) → Call S B
◌>>=◌ m f s = on_result (m s) f

abbrev pub ◌>>◌ : {S B : Type 0} → Call S (Unit {0}) → Call S B → Call S B
m >> k = m >>= λ _. k

abbrev pub lift : {S A : Type 0} → Outcome SocksError A → Call S A
lift r s = (s, r)

abbrev pub contains : ℕ → Bytes → Bool
contains b [] = false
contains b (x ∷ xs) = let rest = contains b xs in x == b || rest

-- `String::from_utf8`: bytes that a lossy reading would not change.
unfoldable pub from_utf8 : Bytes → Outcome SocksError Bytes
from_utf8 bytes = if bytes_eq (from_utf8_lossy bytes) bytes then ok bytes else err name_not_utf8

abbrev pub be_u16 : Bytes → Outcome SocksError ℕ
be_u16 (high ∷ low ∷ _) = ok (256 * high + low)
be_u16 _ = panic

-- The bytes of a header at their places.
abbrev pub at : Bytes → ℕ → Outcome SocksError ℕ
at b i = index b i

module _ {S : Type 0} (tokio : Stream S) where
  unfoldable pub read : ℕ → Call S Bytes
  read n s = let (s, r) = tokio.read_exact n s in (s, map_err socks_io r)

  unfoldable pub write : Bytes → Call S (Unit {0})
  write bytes s = let (s, r) = tokio.write_all bytes s in (s, map_err socks_io r)

  unfoldable pub greet : Call S (Unit {0})
  greet = do
    head ← read 2
    first ← lift (at head 0)
    if not (first == version) then lift (err not_a_client) else (do
      count ← lift (at head 1)
      methods ← read count
      if not (contains auth_none methods)
          then (do write (version ∷ auth_unacceptable ∷ []); lift (err no_usable_method))
          else write (version ∷ auth_none ∷ []))

  unfoldable pub read_domain : Call S Bytes
  read_domain = do len ← read 1; n ← lift (at len 0); name ← read n; lift (from_utf8 name)

  unfoldable pub read_host : ℕ → Call S Bytes
  read_host kind =
      if kind == addr_ipv4
      then (do octets ← read 4; lift (ok (ipv4_text octets)))
      else if kind == addr_ipv6
      then (do octets ← read 16; lift (ok (ipv6_text octets)))
      else if kind == addr_domain
      then read_domain
      else lift (err (refused address_type_not_supported))

  unfoldable pub read_port : Call S ℕ
  read_port = do port ← read 2; lift (be_u16 port)

  unfoldable pub request : Call S Request
  request = do
    head ← read 4
    first ← lift (at head 0)
    command ← lift (at head 1)
    kind ← lift (at head 3)
    if not (first == version)
        then lift (err not_a_request)
        else if not (command == cmd_connect)
        then lift (err (refused command_not_supported))
        else (do
          host ← read_host kind
          port ← read_port
          lift (ok (record { host = host; port = port })))

  unfoldable pub handshake : Call S Request
  handshake = do greet; request

  unfoldable pub reply : Reply → Call S (Unit {0})
  reply r = write (version ∷ reply_code r ∷ 0 ∷ addr_ipv4 ∷ 0 ∷ 0 ∷ 0 ∷ 0 ∷ 0 ∷ 0 ∷ [])
