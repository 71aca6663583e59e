-- ===== src/Socks/Clients.antt =====
-- src/ssh/forward/socks.rs: a client that follows the protocol gets where it asked to go.
use ssh_control.Prelude.{
  ℕ, ◌+◌, ◌*◌, ◌/◌, ◌%◌, ◌<◌, ◌≡◌, refl, Bytes, [], ◌∷◌, ◌++◌, length, length-append, take, drop,
  take-append, drop-append, true, leb, le→leb, if◌then◌else◌, ok, err, arith, bytes_eq_refl, index,
}
use ssh_control.Errors.{unexpected_eof}
use ssh_control.Sftp.Utf8.{from_utf8_lossy}
use ssh_control.Socks.Addresses.{ipv4_text, ipv6_text}
use ssh_control.Socks.{
  Stream, read, write, greet, read_domain, read_host, read_port, request, handshake, contains,
  from_utf8,
}

-- What the client is going to send, and what it was sent.
pub record Duplex : Type 0 where
  pub pending : Bytes
  pub sent : Bytes

abbrev pub duplex : Stream Duplex
duplex = record {
  read_exact = λ n s.
      if leb n (length s.pending)
      then (record s { pending = drop n s.pending }, ok (take n s.pending))
      else (record s { pending = [] }, err unexpected_eof);
  write_all = λ bytes s. (record s { sent = s.sent ++ bytes }, ok tt);
}

abbrev pub client : Bytes → Bytes → Duplex
client pending sent = record { pending = pending; sent = sent }

pub data Destination : Type 0 where
  to_ipv4 to_ipv6 to_domain : Bytes → Destination

-- The address as RFC 1928 lays it out: a domain has its length in front.
abbrev pub kind_of : Destination → ℕ
kind_of (to_ipv4 octets) = 1
kind_of (to_ipv6 octets) = 4
kind_of (to_domain name) = 3

abbrev pub address_bytes : Destination → Bytes
address_bytes (to_ipv4 octets) = octets
address_bytes (to_ipv6 octets) = octets
address_bytes (to_domain name) = length name ∷ name

abbrev pub IsDestination : Destination → Type 0
IsDestination (to_ipv4 octets) = length octets ≡ 4
IsDestination (to_ipv6 octets) = length octets ≡ 16
IsDestination (to_domain name) = from_utf8_lossy name ≡ name

abbrev pub host_of : Destination → Bytes
host_of (to_ipv4 octets) = ipv4_text octets
host_of (to_ipv6 octets) = ipv6_text octets
host_of (to_domain name) = name

read-duplex :
    (n : ℕ) (a b sent : Bytes)
    → length a ≡ n
    → read duplex n (client (a ++ b) sent) ≡ (client b sent, ok a)
unfolding read
read-duplex n a b sent h =
    let fits : leb (length a) (length (a ++ b)) ≡ true =
      le→leb _ _ (omega (arith, length-append a b)) in
    rw (← h) (rw (fits, take-append a b, drop-append a b) refl)

read_host-client :
    (d : Destination) (rest sent : Bytes)
    → IsDestination d
    → read_host duplex (kind_of d) (client (address_bytes d ++ rest) sent)
      ≡ (client rest sent, ok (host_of d))
unfolding read_host read_domain from_utf8 index
read_host-client (to_ipv4 octets) rest sent h = rw (read-duplex 4 octets rest sent h) refl
read_host-client (to_ipv6 octets) rest sent h = rw (read-duplex 16 octets rest sent h) refl
read_host-client (to_domain name) rest sent h =
    rw (read-duplex 1 (length name ∷ []) (name ++ rest) sent refl)
      (rw (read-duplex (length name) name rest sent refl) (rw (h, bytes_eq_refl name) refl))

greet-client :
    (methods rest sent : Bytes)
    → contains 0 methods ≡ true
    → greet duplex (client (5 ∷ length methods ∷ (methods ++ rest)) sent)
      ≡ (client rest (sent ++ (5 ∷ 0 ∷ [])), ok tt)
unfolding greet write index
greet-client methods rest sent h =
    rw (read-duplex 2 (5 ∷ length methods ∷ []) (methods ++ rest) sent refl)
      (rw (read-duplex (length methods) methods rest sent refl) (rw h refl))

read_port-client :
    (port : ℕ) (rest sent : Bytes)
    → port < 65536
    → read_port duplex (client ((port / 256) ∷ (port % 256) ∷ rest) sent)
      ≡ (client rest sent, ok port)
unfolding read_port
read_port-client port rest sent h =
    let whole : 256 * (port / 256) + port % 256 ≡ port = omega arith in
    rw (read-duplex 2 ((port / 256) ∷ (port % 256) ∷ []) rest sent refl) (rw whole refl)

request-client :
    (reserved : ℕ) (d : Destination) (port : ℕ) (rest sent : Bytes)
    → IsDestination d
    → port < 65536
    → request duplex (
        client
          (5 ∷ 1 ∷ reserved ∷ kind_of d ∷ (address_bytes d ++ ((port / 256) ∷ (port % 256) ∷ rest)))
          sent)
      ≡ (client rest sent, ok (record { host = host_of d; port = port }))
unfolding request index
request-client reserved d port rest sent h small =
    let after = (port / 256) ∷ (port % 256) ∷ rest in
    rw (read-duplex 4 (5 ∷ 1 ∷ reserved ∷ kind_of d ∷ []) (address_bytes d ++ after) sent refl)
      (rw (read_host-client d after sent h) (rw (read_port-client port rest sent small) refl))

-- A client offers some methods, that without authentication among them, and asks to be connected: it is
-- told that method, the request names the address and port that it asked for, a domain as it is
-- written, and no byte that the client sends after the request is taken.
pub handshake-client :
    (methods : Bytes) (reserved : ℕ) (d : Destination) (port : ℕ) (rest sent : Bytes)
    → contains 0 methods ≡ true
    → IsDestination d
    → port < 65536
    → handshake duplex (
        client
          (5
            ∷ length methods
            ∷ (methods
                ++ (5
                    ∷ 1
                    ∷ reserved
                    ∷ kind_of d
                    ∷ (address_bytes d ++ ((port / 256) ∷ (port % 256) ∷ rest)))))
          sent)
      ≡ (client rest (sent ++ (5 ∷ 0 ∷ [])), ok (record { host = host_of d; port = port }))
unfolding handshake
handshake-client methods reserved d port rest sent offered h small =
    let asked =
      5 ∷ 1 ∷ reserved ∷ kind_of d ∷ (address_bytes d ++ ((port / 256) ∷ (port % 256) ∷ rest)) in
    rw (greet-client methods asked sent offered)
      (request-client reserved d port rest (sent ++ (5 ∷ 0 ∷ [])) h small)
