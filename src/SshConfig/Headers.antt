-- ===== src/SshConfig/Headers.antt =====
-- src/ssh_config.rs: what a `Host` or `Match` line says, by the words of its value.
use ssh_control.Prelude.{
  ℕ, ◌≡◌, refl, sym, ap, ◌∙◌, List, [], ◌∷◌, true, false, Option, Bool, not, ◌||◌, codes, bytes_eq,
  Bool-cases, inl, inr, if◌then◌else◌,
}
use ssh_control.SshConfig.{
  Text, Block, wildcard, skipped, host, block_of, new_host, open_pattern, open_host,
  contains_pattern, is_empty, is_whitespace, drop_while, take_while,
}

-- A letter in front of the words of the text behind it.
abbrev pub in_front : ℕ → List Text → List Text
in_front c [] = (c ∷ []) ∷ []
in_front c (w ∷ ws) = (c ∷ w) ∷ ws

abbrev pub letter : ℕ → Text → List Text → List Text
letter c [] ws = (c ∷ []) ∷ []
letter c (d ∷ cs) ws = if is_whitespace d then (c ∷ []) ∷ ws else in_front c ws

-- The words of a text, between white space.
abbrev pub words : Text → List Text
words [] = []
words (c ∷ cs) = let rest = words cs in if is_whitespace c then rest else letter c cs rest

-- One word names a host, or every host where it is a star; a word with a pattern in it, several words
-- and none are about nothing that is imported.
abbrev pub one_name : List Text → Block
one_name (w ∷ []) =
    if bytes_eq w (codes "*")
    then wildcard
    else if contains_pattern w
    then skipped
    else host (new_host w)
one_name _ = skipped

abbrev pub said : Text × Text → Block
said (keyword, value) = if bytes_eq keyword (codes "match") then skipped else one_name (words value)

abbrev not_whitespace : ℕ → Bool
not_whitespace c = not (is_whitespace c)

module _ (c : ℕ) (cs : Text) where
  module _ (e : is_whitespace c ≡ true) where
    words-white : words (c ∷ cs) ≡ words cs
    words-white = rw e refl

    take-white : take_while not_whitespace (c ∷ cs) ≡ []
    take-white = rw e refl

    drop-white : drop_while not_whitespace (c ∷ cs) ≡ c ∷ cs
    drop-white = rw e refl

    skip-white : drop_while is_whitespace (c ∷ cs) ≡ drop_while is_whitespace cs
    skip-white = rw e refl

    letter-white : (b : ℕ) (ws : List Text) → letter b (c ∷ cs) ws ≡ (b ∷ []) ∷ ws
    letter-white b ws = rw e refl

  module _ (e : is_whitespace c ≡ false) where
    words-letter : words (c ∷ cs) ≡ letter c cs (words cs)
    words-letter = rw e refl

    take-letter : take_while not_whitespace (c ∷ cs) ≡ c ∷ take_while not_whitespace cs
    take-letter = rw e refl

    drop-letter : drop_while not_whitespace (c ∷ cs) ≡ drop_while not_whitespace cs
    drop-letter = rw e refl

    skip-letter : drop_while is_whitespace (c ∷ cs) ≡ c ∷ cs
    skip-letter = rw e refl

    letter-letter : (b : ℕ) (ws : List Text) → letter b (c ∷ cs) ws ≡ in_front b ws
    letter-letter b ws = rw e refl

words-drop_while : (t : Text) → words (drop_while is_whitespace t) ≡ words t
words-drop_while [] = refl
words-drop_while (c ∷ cs) = elim (Bool-cases (is_whitespace c)) [
  | inl e ↦ ap words (skip-white c cs e) ∙ (words-drop_while cs ∙ sym (words-white c cs e))
  | inr e ↦ ap words (skip-letter c cs e)
]

-- The first word of a text and the text behind it.
abbrev word_then : Text → Text → List Text
word_then w t = w ∷ words t

words-take_while :
    (c : ℕ) (cs : Text)
    → is_whitespace c ≡ false
    → words (c ∷ cs)
      ≡ word_then (take_while not_whitespace (c ∷ cs)) (drop_while not_whitespace (c ∷ cs))
words-take_while c [] e =
    words-letter c [] e
    ∙ sym (
        ap (λ w. word_then w (drop_while not_whitespace (c ∷ []))) (take-letter c [] e)
        ∙ ap (word_then (c ∷ [])) (drop-letter c [] e))
words-take_while c (d ∷ cs) e =
    let parts : word_then (take_while not_whitespace (c ∷ d ∷ cs))
          (drop_while not_whitespace (c ∷ d ∷ cs))
        ≡ word_then (c ∷ take_while not_whitespace (d ∷ cs)) (drop_while not_whitespace (d ∷ cs)) =
      ap (λ w. word_then w (drop_while not_whitespace (c ∷ d ∷ cs))) (take-letter c (d ∷ cs) e)
      ∙ ap (word_then (c ∷ take_while not_whitespace (d ∷ cs))) (drop-letter c (d ∷ cs) e) in
    elim (Bool-cases (is_whitespace d)) [
      | inl f ↦
          words-letter c (d ∷ cs) e
          ∙ (letter-white d cs f c (words (d ∷ cs))
              ∙ sym (
                  parts
                  ∙ (ap (λ w. word_then (c ∷ w) (drop_while not_whitespace (d ∷ cs)))
                        (take-white d cs f)
                      ∙ ap (word_then (c ∷ [])) (drop-white d cs f))))
      | inr f ↦
          words-letter c (d ∷ cs) e
          ∙ (letter-letter d cs f c (words (d ∷ cs))
              ∙ (ap (in_front c) (words-take_while d cs f) ∙ sym parts))
    ]

-- What is left behind white space does not start with it.
starts :
    (t : Text) (c : ℕ) (cs : Text) → drop_while is_whitespace t ≡ c ∷ cs → is_whitespace c ≡ false
starts [] c cs h = absurd (cc)
starts (d ∷ ds) c cs h = elim (Bool-cases (is_whitespace d)) [
  | inl e ↦ starts ds c cs (sym (skip-white d ds e) ∙ h)
  | inr e ↦
      let again : d ∷ ds ≡ c ∷ cs = sym (skip-letter d ds e) ∙ h in
      let same : d ≡ c = cc in ap is_whitespace (sym same) ∙ e
]

-- The value of a header, from behind its white space on.
by_rest :
    (w : Text) (u r : Text)
    → drop_while is_whitespace u ≡ r
    → one_name (w ∷ words u) ≡ (if not (is_empty r) then skipped else open_pattern w)
by_rest w u [] h =
    let none_left : words u ≡ [] = sym (words-drop_while u) ∙ ap words h in rw none_left refl
by_rest w u (c ∷ cs) h =
    let more : words u
        ≡ take_while not_whitespace (c ∷ cs) ∷ words (drop_while not_whitespace (c ∷ cs)) =
      sym (words-drop_while u) ∙ (ap words h ∙ words-take_while c cs (starts u c cs h)) in
    rw more refl

-- What a value with no white space in front opens.
abbrev opened_from : Text → Block
opened_from v =
    let w = take_while not_whitespace v in
    let rest = drop_while is_whitespace (drop_while not_whitespace v) in
    if is_empty w || not (is_empty rest) then skipped else open_pattern w

open_host_lem : (value : Text) → open_host value ≡ one_name (words value)
unfolding open_host
open_host_lem value = by_value (drop_while is_whitespace value) refl
  where
    by_value :
        (v : Text) → drop_while is_whitespace value ≡ v → open_host value ≡ one_name (words value)
    by_value [] h =
        let none_left : words value ≡ [] = sym (words-drop_while value) ∙ ap words h in
        rw (none_left, h) refl
    by_value (c ∷ cs) h =
        let e = starts value c cs h in
        let u = drop_while not_whitespace (c ∷ cs) in
        let w = take_while not_whitespace (c ∷ cs) in
        let more : words value ≡ w ∷ words u =
          sym (words-drop_while value) ∙ (ap words h ∙ words-take_while c cs e) in
        let opened : open_host value
            ≡ (if not (is_empty (drop_while is_whitespace u)) then skipped else open_pattern w) =
          ap opened_from h
          ∙ ap
              (λ b.
                if b || not (is_empty (drop_while is_whitespace u))
                then skipped
                else open_pattern w)
              (ap is_empty (take-letter c cs e)) in
        opened ∙ sym (ap one_name more ∙ by_rest w u (drop_while is_whitespace u) refl)

pub block_of_lem : (home : Option Text) (l : Text × Text) → block_of home l ≡ said l
block_of_lem home (keyword, value) = rw (open_host_lem value) refl

-- A block that is about a host starts with its alias alone.
unfoldable pub IsFresh : Block → Type 0
IsFresh (host h) = h ≡ new_host h.alias
IsFresh _ = Unit {0}

one_name-IsFresh : (ws : List Text) → IsFresh (one_name ws)
unfolding IsFresh
one_name-IsFresh [] = tt
one_name-IsFresh (w ∷ v ∷ ws) = tt
one_name-IsFresh (w ∷ []) = elim (Bool-cases (bytes_eq w (codes "*"))) [
  | inl e ↦ rw e tt
  | inr e ↦ elim (Bool-cases (contains_pattern w)) [ inl p ↦ rw (e, p) tt | inr p ↦ rw (e, p) refl ]
]

pub said-IsFresh : (l : Text × Text) → IsFresh (said l)
unfolding IsFresh
said-IsFresh (keyword, value) = elim (Bool-cases (bytes_eq keyword (codes "match"))) [
  | inl e ↦ rw e tt
  | inr e ↦ rw e (one_name-IsFresh (words value))
]
