-- ===== src/SshConfig.antt =====
-- src/ssh_config.rs: reading ~/.ssh/config. A text is the list of its characters, by code point; the
-- home directory and the user of the environment are arguments.
pub mod Fields
pub mod Headers
pub mod Sections
pub mod Blocks
mod Tests
use ssh_control.Prelude.{
  ℕ, zero, suc, ◌+◌, ◌-◌, ◌*◌, ◌≡◌, List, [], ◌∷◌, ◌++◌, Bool, true, false, ◌&&◌, ◌||◌, not, ◌==◌,
  leb, ltb, if◌then◌else◌, Option, some, none, codes, bytes_eq,
}

abbrev pub Text : Type 0
Text = List ℕ

pub record SshConfigHost : Type 0 where
  pub alias : Text
  pub hostname : Text
  pub user : Option Text
  pub port : Option ℕ
  pub identity_file : Option Text

pub record Defaults : Type 0 where
  pub user : Option Text
  pub port : Option ℕ
  pub identity_file : Option Text

pub data Block : Type 0 where
  preamble wildcard skipped : Block
  host : SshConfigHost → Block

abbrev pub is_empty : Text → Bool
is_empty [] = true
is_empty (c ∷ cs) = false

-- The environment variables, where they are set.
abbrev pub non_empty : Option Text → Option Text
non_empty none = none
non_empty (some t) = if is_empty t then none else some t

unfoldable pub local_user : Option Text → Text
local_user user = elim (non_empty user) [ some u ↦ u | none ↦ codes "root" ]

unfoldable pub username : Option Text → SshConfigHost → Text
username env_user h = elim h.user [ some u ↦ u | none ↦ local_user env_user ]

unfoldable pub home_dir : Option Text → Option Text
home_dir home = non_empty home

-- `char::is_whitespace`
abbrev pub is_whitespace : ℕ → Bool
is_whitespace c =
    (leb 9 c && leb c 13)
    || c == 32
    || c == 133
    || c == 160
    || c == 5760
    || (leb 8192 c && leb c 8202)
    || c == 8232
    || c == 8233
    || c == 8239
    || c == 8287
    || c == 12288

abbrev pub drop_while : (ℕ → Bool) → Text → Text
drop_while test [] = []
drop_while test (c ∷ cs) = let rest = drop_while test cs in if test c then rest else c ∷ cs

abbrev pub take_while : (ℕ → Bool) → Text → Text
take_while test [] = []
take_while test (c ∷ cs) = let rest = take_while test cs in if test c then c ∷ rest else []

abbrev pub keep_unless_last : ℕ → Text → Text
keep_unless_last c [] = if is_whitespace c then [] else c ∷ []
keep_unless_last c (d ∷ rest) = c ∷ d ∷ rest

abbrev pub trim_end : Text → Text
trim_end [] = []
trim_end (c ∷ cs) = keep_unless_last c (trim_end cs)

unfoldable pub trim : Text → Text
trim t = trim_end (drop_while is_whitespace t)

-- A line without the `\r` in front of its `\n`.
abbrev pub strip_cr : Text → Text
strip_cr [] = []
strip_cr (c ∷ []) = if c == 13 then [] else c ∷ []
strip_cr (c ∷ d ∷ cs) = c ∷ strip_cr (d ∷ cs)

-- `text.lines()`, with what was read of a line.
unfoldable pub lines_from : Text → Text → List Text
lines_from read [] = if is_empty read then [] else read ∷ []
lines_from read (c ∷ cs) = elim (c == 10) [
  | true ↦ strip_cr read ∷ lines_from [] cs
  | false ↦ lines_from (read ++ c ∷ []) cs
]

-- A space, a tab or `=`.
abbrev pub is_separator : ℕ → Bool
is_separator c = c == 32 || c == 9 || c == 61

abbrev pub lower : ℕ → ℕ
lower c = if leb 65 c && leb c 90 then c + 32 else c

abbrev pub to_lower : Text → Text
to_lower [] = []
to_lower (c ∷ cs) = lower c ∷ to_lower cs

-- The two halves of a line; a keyword without a separator behind it is none.
abbrev pub halves : Text → Text → Option (Text × Text)
halves keyword [] = none
halves keyword (c ∷ rest) =
    let value = trim (drop_while is_separator (c ∷ rest)) in
    if is_empty value then none else some (to_lower keyword, value)

unfoldable pub split_line : Text → Option (Text × Text)
split_line line =
    let line = trim (take_while (λ c. not (c == 35)) line) in
    halves (take_while (λ c. not (is_separator c)) line)
      (drop_while (λ c. not (is_separator c)) line)

-- The decimal digits of a number of 16 bits.
abbrev pub digits : ℕ → Text → Option ℕ
digits v [] = some v
digits v (c ∷ cs) =
    let next = v * 10 + (c - 48) in
    elim (leb 48 c && leb c 57 && leb next 65535) [ true ↦ digits next cs | false ↦ none ]

-- `value.parse::<u16>().ok()`, with an optional `+`.
unfoldable pub parse_u16 : Text → Option ℕ
parse_u16 [] = none
parse_u16 (c ∷ []) = digits 0 (c ∷ [])
parse_u16 (c ∷ d ∷ cs) = if c == 43 then digits 0 (d ∷ cs) else digits 0 (c ∷ d ∷ cs)

abbrev pub ends_with_slash : Text → Bool
ends_with_slash [] = false
ends_with_slash (c ∷ []) = c == 47
ends_with_slash (c ∷ d ∷ cs) = ends_with_slash (d ∷ cs)

-- `home.join(rest)`: an absolute path takes the place of the first.
abbrev pub path_join : Text → Text → Text
path_join home [] = if ends_with_slash home then home else home ++ 47 ∷ []
path_join home (c ∷ rest) =
    if c == 47
    then c ∷ rest
    else if ends_with_slash home
    then home ++ c ∷ rest
    else home ++ 47 ∷ c ∷ rest

unfoldable pub expand_tilde : Option Text → Text → Text
expand_tilde home (c ∷ d ∷ rest) =
    if c == 126 && d == 47
    then elim (home_dir home) [ some h ↦ path_join h rest | none ↦ c ∷ d ∷ rest ]
    else c ∷ d ∷ rest
expand_tilde home path = path

-- The first word of a text and whether another follows.
abbrev pub contains_pattern : Text → Bool
contains_pattern [] = false
contains_pattern (c ∷ cs) = let rest = contains_pattern cs in c == 42 || c == 63 || c == 33 || rest

abbrev pub new_host : Text → SshConfigHost
new_host alias = record {
  alias = alias;
  hostname = alias;
  user = none;
  port = none;
  identity_file = none;
}

abbrev pub open_pattern : Text → Block
open_pattern first =
    if bytes_eq first (codes "*")
    then wildcard
    else if contains_pattern first
    then skipped
    else host (new_host first)

unfoldable pub open_host : Text → Block
open_host value =
    let value = drop_while is_whitespace value in
    let first = take_while (λ c. not (is_whitespace c)) value in
    let rest = drop_while is_whitespace (drop_while (λ c. not (is_whitespace c)) value) in
    if is_empty first || not (is_empty rest) then skipped else open_pattern first

abbrev pub or_else : {A : Type 0} → Option A → Option A → Option A
or_else (some a) b = some a
or_else none b = b

module _ (home : Option Text) where
  -- A setting of a block of defaults.
  unfoldable pub set_default : Text × Text → Defaults → Defaults
  set_default (keyword, value) d =
      if bytes_eq keyword (codes "user")
      then record d { user = some value }
      else if bytes_eq keyword (codes "port")
      then record d { port = parse_u16 value }
      else if bytes_eq keyword (codes "identityfile")
      then record d { identity_file = some (expand_tilde home value) }
      else d

  -- A setting of a host.
  unfoldable pub set_host : Text × Text → SshConfigHost → SshConfigHost
  set_host (keyword, value) h =
      if bytes_eq keyword (codes "hostname")
      then record h { hostname = value }
      else if bytes_eq keyword (codes "user")
      then record h { user = some value }
      else if bytes_eq keyword (codes "port")
      then record h { port = or_else (parse_u16 value) h.port }
      else if bytes_eq keyword (codes "identityfile")
      then record h { identity_file = or_else h.identity_file (some (expand_tilde home value)) }
      else h

  pub record Parser : Type 0 where
    pub defaults : Defaults
    pub hosts : List SshConfigHost
    pub block : Block

  abbrev pub opens_block : Text → Bool
  opens_block keyword = bytes_eq keyword (codes "host") || bytes_eq keyword (codes "match")

  -- The hosts with the one that a block was about.
  abbrev pub close_block : Block → List SshConfigHost → List SshConfigHost
  close_block (host h) hosts = hosts ++ h ∷ []
  close_block _ hosts = hosts

  abbrev pub block_of : Text × Text → Block
  block_of (keyword, value) = if bytes_eq keyword (codes "match") then skipped else open_host value

  abbrev pub in_block : Text × Text → Parser → Block → Parser
  in_block line p skipped = p
  in_block line p preamble = record p { defaults = set_default line p.defaults }
  in_block line p wildcard = record p { defaults = set_default line p.defaults }
  in_block line p (host h) = record p { block = host (set_host line h) }

  unfoldable pub step : Text × Text → Parser → Parser
  step line p =
      if opens_block line.0
      then record p { hosts = close_block p.block p.hosts; block = block_of line }
      else in_block line p p.block

  unfoldable pub steps : List (Text × Text) → Parser → Parser
  steps [] p = p
  steps (line ∷ ls) p = steps ls (step line p)

  unfoldable pub fill : Defaults → SshConfigHost → SshConfigHost
  fill d h = record h {
    user = or_else h.user d.user;
    port = or_else h.port d.port;
    identity_file = or_else h.identity_file d.identity_file;
  }

  abbrev pub fill_all : Defaults → List SshConfigHost → List SshConfigHost
  fill_all d [] = []
  fill_all d (h ∷ hosts) = fill d h ∷ fill_all d hosts

  abbrev pub settings : List Text → List (Text × Text)
  settings [] = []
  settings (line ∷ ls) =
      let rest = settings ls in elim (split_line line) [ some s ↦ s ∷ rest | none ↦ rest ]

  abbrev pub start : Parser
  start = record {
    defaults = record { user = none; port = none; identity_file = none };
    hosts = [];
    block = preamble;
  }

  unfoldable pub parse_settings : List (Text × Text) → List SshConfigHost
  parse_settings ls = let p = steps ls start in fill_all p.defaults (close_block p.block p.hosts)

  unfoldable pub parse : Text → List SshConfigHost
  parse text = parse_settings (settings (lines_from [] text))
