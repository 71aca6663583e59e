-- ===== src/Socks/Addresses.antt =====
-- src/ssh/forward/socks.rs: how the standard library prints an address.
use ssh_control.Prelude.{
  ℕ, suc, ◌+◌, ◌*◌, ◌/◌, ◌%◌, Bytes, List, [], ◌∷◌, ◌++◌, take, drop, Bool, false, ◌&&◌, ◌==◌, ltb,
  leb, if◌then◌else◌, decimal, codes,
}

-- The texts of a list with a separator between them.
abbrev pub join : Bytes → List Bytes → Bytes
join sep [] = []
join sep (t ∷ []) = t
join sep (t ∷ u ∷ ts) = t ++ sep ++ join sep (u ∷ ts)

abbrev pub decimals : Bytes → List Bytes
decimals [] = []
decimals (b ∷ bs) = decimal b ∷ decimals bs

unfoldable pub ipv4_text : Bytes → Bytes
ipv4_text octets = join (codes ".") (decimals octets)

abbrev pub hex_digit : ℕ → ℕ
hex_digit d = if ltb d 10 then 48 + d else 87 + d

-- A segment without leading zeros.
unfoldable pub hex : ℕ → Bytes
hex v =
    if ltb v 16
    then hex_digit v ∷ []
    else if ltb v 256
    then hex_digit (v / 16) ∷ hex_digit (v % 16) ∷ []
    else if ltb v 4096
    then hex_digit (v / 256) ∷ hex_digit (v / 16 % 16) ∷ hex_digit (v % 16) ∷ []
    else hex_digit (v / 4096)
      ∷ hex_digit (v / 256 % 16)
      ∷ hex_digit (v / 16 % 16)
      ∷ hex_digit (v % 16)
      ∷ []

abbrev pub segments : Bytes → List ℕ
segments (high ∷ low ∷ rest) = (256 * high + low) ∷ segments rest
segments _ = []

abbrev pub hexes : List ℕ → List Bytes
hexes [] = []
hexes (s ∷ ss) = hex s ∷ hexes ss

-- How many zeros a list starts with.
abbrev pub zeros : List ℕ → ℕ
zeros [] = 0
zeros (s ∷ ss) = let rest = zeros ss in if s == 0 then suc rest else 0

-- The first of the longest runs of zeros, by its start and length, from index `i` on.
abbrev pub longest : ℕ → List ℕ → ℕ × ℕ
longest i [] = (i, 0)
longest i (s ∷ ss) =
    let (start, len) = longest (suc i) ss in
    let here = zeros (s ∷ ss) in if leb len here then (i, here) else (start, len)

-- The longest run of at least two zeros is left out.
unfoldable pub ipv6_plain : List ℕ → Bytes
ipv6_plain ss =
    let (start, len) = longest 0 ss in
    if ltb 1 len
    then join (codes ":") (hexes (take start ss))
      ++ codes "::"
      ++ join (codes ":") (hexes (drop (start + len) ss))
    else join (codes ":") (hexes ss)

-- An IPv4 address mapped into IPv6 keeps its dots.
unfoldable pub is_mapped : List ℕ → Bool
is_mapped ss = zeros ss == 5 && elim (drop 5 ss) [ [] ↦ false | s ∷ _ ↦ s == 65535 ]

unfoldable pub ipv6_text : Bytes → Bytes
ipv6_text octets =
    let ss = segments octets in
    if is_mapped ss then codes "::ffff:" ++ ipv4_text (drop 12 octets) else ipv6_plain ss
