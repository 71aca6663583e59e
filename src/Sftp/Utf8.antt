-- ===== src/Sftp/Utf8.antt =====
-- `String::from_utf8_lossy`, which src/ssh/sftp/wire.rs reads names and messages with: each longest
-- part that begins like a character but is none becomes U+FFFD. A text is its UTF-8 bytes.
use ssh_control.Prelude.{
  ℕ, ◌-◌, ◌≡◌, ◌<◌, refl, ap, Bytes, [], ◌∷◌, ◌++◌, ◌&&◌, leb, ltb, ◌==◌, if◌then◌else◌, All,
  lt→ltb,
}

-- What a first byte promises: how many more bytes, and the bounds of the next one.
pub data Lead : Type 0 where
  ascii stray : Lead
  multi : ℕ → ℕ → ℕ → Lead

abbrev pub lead : ℕ → Lead
lead b =
    if ltb b 0x80
    then ascii
    else if ltb b 0xC2
    then stray
    else if ltb b 0xE0
    then multi 1 0x80 0xBF
    else if b == 0xE0
    then multi 2 0xA0 0xBF
    else if b == 0xED
    then multi 2 0x80 0x9F
    else if ltb b 0xF0
    then multi 2 0x80 0xBF
    else if b == 0xF0
    then multi 3 0x90 0xBF
    else if ltb b 0xF4
    then multi 3 0x80 0xBF
    else if b == 0xF4
    then multi 3 0x80 0x8F
    else stray

-- A character read in part: its bytes, how many are missing, and the bounds of the next one.
pub data Reading : Type 0 where
  between : Reading
  within : Bytes → ℕ → ℕ → ℕ → Reading

abbrev pub replacement : Bytes
replacement = 0xEF ∷ 0xBF ∷ 0xBD ∷ []

unfoldable pub read_lossy : Reading → Bytes → Bytes
read_lossy between [] = []
read_lossy (within seen n lo hi) [] = replacement
read_lossy between (b ∷ bs) = elim (lead b) [
  | ascii ↦ b ∷ read_lossy between bs
  | stray ↦ replacement ++ read_lossy between bs
  | multi n lo hi ↦ read_lossy (within (b ∷ []) n lo hi) bs
]
read_lossy (within seen n lo hi) (b ∷ bs) =
    if leb lo b && leb b hi
    then (if n == 1
        then seen ++ (b ∷ read_lossy between bs)
        else read_lossy (within (seen ++ (b ∷ [])) (n - 1) 0x80 0xBF) bs)
    else replacement ++ (elim (lead b) [
      | ascii ↦ b ∷ read_lossy between bs
      | stray ↦ replacement ++ read_lossy between bs
      | multi m low high ↦ read_lossy (within (b ∷ []) m low high) bs
    ])

unfoldable pub from_utf8_lossy : Bytes → Bytes
from_utf8_lossy bs = read_lossy between bs

-- Text in ASCII is kept.
pub from_utf8_lossy-ascii : (bs : Bytes) → All (λ b. b < 128) bs → from_utf8_lossy bs ≡ bs
unfolding from_utf8_lossy read_lossy
from_utf8_lossy-ascii [] p = refl
from_utf8_lossy-ascii (b ∷ bs) (p, ps) =
    rw (lt→ltb b 128 p, read_lossy) (ap (λ t. b ∷ t) (from_utf8_lossy-ascii bs ps))
