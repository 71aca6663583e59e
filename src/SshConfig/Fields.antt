-- ===== src/SshConfig/Fields.antt =====
-- src/ssh_config.rs: which of the lines under a header each setting comes from.
use ssh_control.Prelude.{
  ℕ, ◌≡◌, refl, ap, ◌∙◌, List, [], ◌∷◌, true, false, Option, some, none, codes, bytes_eq,
  bytes_eq_iff, Bool-cases, inl, inr, if◌then◌else◌,
}
use ssh_control.SshConfig.{
  Text, SshConfigHost, Defaults, parse_u16, expand_tilde, set_default, set_host, or_else,
}

-- The values that the lines give to a keyword, in order.
abbrev pub values : Text → List (Text × Text) → List Text
values key [] = []
values key ((keyword, value) ∷ ls) =
    let rest = values key ls in if bytes_eq keyword key then value ∷ rest else rest

-- The first where there is one, otherwise the second.
abbrev pub stated : {A : Type 0} → Option A → Option A → Option A
stated a b = elim a [ some x ↦ some x | none ↦ b ]

abbrev pub last : {A : Type 0} → List A → Option A
last [] = none
last (x ∷ xs) = stated (last xs) (some x)

abbrev pub first : {A : Type 0} → List A → Option A
first [] = none
first (x ∷ xs) = some x

abbrev pub with_port : Option ℕ → List ℕ → List ℕ
with_port (some p) l = p ∷ l
with_port none l = l

-- The ports among the values.
abbrev pub ports : List Text → List ℕ
ports [] = []
ports (v ∷ vs) = with_port (parse_u16 v) (ports vs)

abbrev pub port_of : Option Text → Option ℕ → Option ℕ
port_of v d = elim v [ some t ↦ parse_u16 t | none ↦ d ]

abbrev pub path_of : Option Text → Option Text → Option Text
path_of home v = elim v [ some t ↦ some (expand_tilde home t) | none ↦ none ]

abbrev pub text_of : Option Text → Text → Text
text_of v d = elim v [ some t ↦ t | none ↦ d ]

pub stated_again :
    {A : Type 0} (a b : Option A) (x : A) → stated (stated a (some x)) b ≡ stated a (some x)
stated_again (some y) b x = refl
stated_again none b x = refl

pub stated-none : {A : Type 0} (a : Option A) → stated a none ≡ a
stated-none (some x) = refl
stated-none none = refl

pub or_else_lem : {A : Type 0} (a b : Option A) → or_else a b ≡ stated a b
or_else_lem (some x) b = refl
or_else_lem none b = refl

pub or_else-stated : {A : Type 0} (a b : Option A) → or_else (stated a none) b ≡ stated a b
or_else-stated (some x) b = refl
or_else-stated none b = refl

text_of-last : (a : Option Text) (x d : Text) → text_of (stated a (some x)) d ≡ text_of a x
text_of-last (some y) x d = refl
text_of-last none x d = refl

port_of-last :
    (a : Option Text) (x : Text) (d : Option ℕ)
    → port_of (stated a (some x)) d ≡ port_of a (parse_u16 x)
port_of-last (some y) x d = refl
port_of-last none x d = refl

path_of-last :
    (home a : Option Text) (x : Text) (d : Option Text)
    → stated (path_of home (stated a (some x))) d
      ≡ stated (path_of home a) (some (expand_tilde home x))
path_of-last home (some y) x d = refl
path_of-last home none x d = refl

last-with_port :
    (o : Option ℕ) (l : List ℕ) (p : Option ℕ)
    → stated (last l) (or_else o p) ≡ stated (last (with_port o l)) p
last-with_port (some q) l p = rw (stated_again (last l) p q) refl
last-with_port none l p = refl

first_path :
    (f : Option Text) (v : Text) (x : Option Text)
    → stated (or_else f (some v)) x ≡ stated f (some v)
first_path (some y) v x = refl
first_path none v x = refl

-- Which of the four keywords a keyword is.
data Key (k : Text) : Type 0 where
  is_hostname :
      bytes_eq k (codes "hostname") ≡ true
      → bytes_eq k (codes "user") ≡ false
      → bytes_eq k (codes "port") ≡ false
      → bytes_eq k (codes "identityfile") ≡ false
      → Key k
  is_user :
      bytes_eq k (codes "hostname") ≡ false
      → bytes_eq k (codes "user") ≡ true
      → bytes_eq k (codes "port") ≡ false
      → bytes_eq k (codes "identityfile") ≡ false
      → Key k
  is_port :
      bytes_eq k (codes "hostname") ≡ false
      → bytes_eq k (codes "user") ≡ false
      → bytes_eq k (codes "port") ≡ true
      → bytes_eq k (codes "identityfile") ≡ false
      → Key k
  is_identity_file :
      bytes_eq k (codes "hostname") ≡ false
      → bytes_eq k (codes "user") ≡ false
      → bytes_eq k (codes "port") ≡ false
      → bytes_eq k (codes "identityfile") ≡ true
      → Key k
  is_other :
      bytes_eq k (codes "hostname") ≡ false
      → bytes_eq k (codes "user") ≡ false
      → bytes_eq k (codes "port") ≡ false
      → bytes_eq k (codes "identityfile") ≡ false
      → Key k

-- A keyword that is one of them is none of the others.
not_also : (k a b : Text) → bytes_eq k a ≡ true → bytes_eq a b ≡ false → bytes_eq k b ≡ false
not_also k a b h d = ap (λ t. bytes_eq t b) ((bytes_eq_iff k a).0 h) ∙ d

keyword_cases : (k : Text) → Key k
unfolding bytes_eq
keyword_cases k = elim (Bool-cases (bytes_eq k (codes "hostname"))) [
  | inl h ↦
      is_hostname h (not_also k (codes "hostname") (codes "user") h refl)
        (not_also k (codes "hostname") (codes "port") h refl)
        (not_also k (codes "hostname") (codes "identityfile") h refl)
  | inr h ↦ elim (Bool-cases (bytes_eq k (codes "user"))) [
    | inl u ↦
        is_user h u (not_also k (codes "user") (codes "port") u refl)
          (not_also k (codes "user") (codes "identityfile") u refl)
    | inr u ↦ elim (Bool-cases (bytes_eq k (codes "port"))) [
      | inl p ↦ is_port h u p (not_also k (codes "port") (codes "identityfile") p refl)
      | inr p ↦ elim (Bool-cases (bytes_eq k (codes "identityfile"))) [
        | inl i ↦ is_identity_file h u p i
        | inr i ↦ is_other h u p i
      ]
    ]
  ]
]

module _ (home : Option Text) where
  abbrev pub set_defaults : List (Text × Text) → Defaults → Defaults
  set_defaults [] d = d
  set_defaults (l ∷ ls) d = set_defaults ls (set_default home l d)

  abbrev pub set_all : List (Text × Text) → SshConfigHost → SshConfigHost
  set_all [] h = h
  set_all (l ∷ ls) h = set_all ls (set_host home l h)

  -- A host after the lines under its header: the last host name, the last user, the last port that is
  -- one and the first identity file.
  abbrev pub host_after : List (Text × Text) → SshConfigHost → SshConfigHost
  host_after ls h = record {
    alias = h.alias;
    hostname = text_of (last (values (codes "hostname") ls)) h.hostname;
    user = stated (last (values (codes "user") ls)) h.user;
    port = stated (last (ports (values (codes "port") ls))) h.port;
    identity_file =
        stated h.identity_file (path_of home (first (values (codes "identityfile") ls)));
  }

  -- Defaults after the lines of a block: the last of each, also a port that is none.
  abbrev pub defaults_after : List (Text × Text) → Defaults → Defaults
  defaults_after ls d = record {
    user = stated (last (values (codes "user") ls)) d.user;
    port = port_of (last (values (codes "port") ls)) d.port;
    identity_file = stated (path_of home (last (values (codes "identityfile") ls))) d.identity_file;
  }

  host_after-set_host :
      (k v : Text) (ls : List (Text × Text)) (h : SshConfigHost)
      → Key k
      → host_after ls (set_host home (k, v) h) ≡ host_after ((k, v) ∷ ls) h
  unfolding set_host
  host_after-set_host k v ls h (is_hostname a b c d) =
      rw (a, b, c, d, text_of-last (last (values (codes "hostname") ls)) v h.hostname) refl
  host_after-set_host k v ls h (is_user a b c d) =
      rw (a, b, c, d, stated_again (last (values (codes "user") ls)) h.user v) refl
  host_after-set_host k v ls h (is_port a b c d) =
      rw (a, b, c, d, last-with_port (parse_u16 v) (ports (values (codes "port") ls)) h.port) refl
  host_after-set_host k v ls h (is_identity_file a b c d) =
      rw
        (
          a,
          b,
          c,
          d,
          first_path h.identity_file (expand_tilde home v)
              (path_of home (first (values (codes "identityfile") ls))),
        )
        refl
  host_after-set_host k v ls h (is_other a b c d) = rw (a, b, c, d) refl

  pub set_all_lem : (ls : List (Text × Text)) (h : SshConfigHost) → set_all ls h ≡ host_after ls h
  set_all_lem [] h = let same = stated-none h.identity_file in rw same refl
  set_all_lem ((k, v) ∷ ls) h =
      set_all_lem ls (set_host home (k, v) h) ∙ host_after-set_host k v ls h (keyword_cases k)

  defaults_after-set_default :
      (k v : Text) (ls : List (Text × Text)) (d : Defaults)
      → Key k
      → defaults_after ls (set_default home (k, v) d) ≡ defaults_after ((k, v) ∷ ls) d
  unfolding set_default
  defaults_after-set_default k v ls d (is_hostname a b c e) = rw (b, c, e) refl
  defaults_after-set_default k v ls d (is_user a b c e) =
      rw (b, c, e, stated_again (last (values (codes "user") ls)) d.user v) refl
  defaults_after-set_default k v ls d (is_port a b c e) =
      rw (b, c, e, port_of-last (last (values (codes "port") ls)) v d.port) refl
  defaults_after-set_default k v ls d (is_identity_file a b c e) =
      rw (b, c, e, path_of-last home (last (values (codes "identityfile") ls)) v d.identity_file)
        refl
  defaults_after-set_default k v ls d (is_other a b c e) = rw (b, c, e) refl

  pub set_defaults_lem :
      (ls : List (Text × Text)) (d : Defaults) → set_defaults ls d ≡ defaults_after ls d
  set_defaults_lem [] d = refl
  set_defaults_lem ((k, v) ∷ ls) d =
      set_defaults_lem ls (set_default home (k, v) d)
      ∙ defaults_after-set_default k v ls d (keyword_cases k)
