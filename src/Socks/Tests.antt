-- ===== src/Socks/Tests.antt =====
-- src/ssh/forward/socks.rs: a client at work, and addresses as they are printed.
use ssh_control.Prelude.{
  ◌+◌, ◌/◌, ◌%◌, ◌≡◌, refl, Bytes, [], ◌∷◌, ◌++◌, length, replicate, ok, err, codes, decimal, arith,
  All, bytes_eq, bytes_eq_refl,
}
use ssh_control.Sftp.Utf8.{from_utf8_lossy-ascii}
use ssh_control.Socks.{handshake, greet, read, write, no_usable_method}
use ssh_control.Socks.Addresses.{ipv4_text, ipv6_text, ipv6_plain, is_mapped, hex}
use ssh_control.Socks.Clients.{
  duplex, client, Destination, to_domain, kind_of, address_bytes, host_of, handshake-client,
}

loopback : ipv4_text (127 ∷ 0 ∷ 0 ∷ 1 ∷ []) ≡ codes "127.0.0.1"
unfolding ipv4_text decimal
loopback = refl

loopback6 : ipv6_text (replicate 15 0 ++ 1 ∷ []) ≡ codes "::1"
unfolding ipv6_text ipv6_plain is_mapped hex
loopback6 = refl

longest_run :
    ipv6_text (0x20 ∷ 1 ∷ 0xd ∷ 0xb8 ∷ 0 ∷ 0 ∷ 0 ∷ 1 ∷ 0 ∷ 0 ∷ 0 ∷ 0 ∷ 0 ∷ 0 ∷ 0 ∷ 2 ∷ [])
    ≡ codes "2001:db8:0:1::2"
unfolding ipv6_text ipv6_plain is_mapped hex
longest_run = refl

mapped : ipv6_text (replicate 10 0 ++ 255 ∷ 255 ∷ 10 ∷ 0 ∷ 0 ∷ 7 ∷ []) ≡ codes "::ffff:10.0.0.7"
unfolding ipv6_text ipv4_text is_mapped decimal
mapped = refl

-- A client that offers only a password is told that nothing fits.
password_only :
    greet duplex (client (5 ∷ 1 ∷ 2 ∷ []) []) ≡ (client [] (5 ∷ 255 ∷ []), err no_usable_method)
unfolding greet read write ssh_control.Prelude.index
password_only = refl

abbrev offered : Bytes
offered = 2 ∷ 0 ∷ []

abbrev asked : Destination
asked = to_domain (codes "db.internal")

handshake-client_example :
    handshake duplex (
      client
        (5
          ∷ length offered
          ∷ (offered
              ++ (5
                  ∷ 1
                  ∷ 0
                  ∷ kind_of asked
                  ∷ (address_bytes asked ++ ((5432 / 256) ∷ (5432 % 256) ∷ codes "hello")))))
        [])
    ≡ (
      client (codes "hello") ([] ++ (5 ∷ 0 ∷ [])),
      ok (record { host = host_of asked; port = 5432 }),
    )
handshake-client_example =
    handshake-client offered 0 asked 5432 (codes "hello") [] refl
      (from_utf8_lossy-ascii (codes "db.internal") (omega arith)) (omega arith)
