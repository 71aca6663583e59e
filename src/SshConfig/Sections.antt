-- ===== src/SshConfig/Sections.antt =====
-- src/ssh_config.rs: the one pass of the parser against the sections of the file.
use ssh_control.Prelude.{
  ◌≡◌, refl, sym, ap, ◌∙◌, List, [], ◌∷◌, ◌++◌, append_assoc, append-nil, true, false, Option, All,
}
use ssh_control.SshConfig.{
  Text, SshConfigHost, Defaults, Block, preamble, wildcard, skipped, host, set_default, set_host,
  Parser, opens_block, close_block, block_of, step, steps, fill_all, start, parse_settings,
}
use ssh_control.SshConfig.Fields.{set_defaults, set_all}

-- A `Host` or `Match` line with the settings under it.
pub record Section : Type 0 where
  pub header : Text × Text
  pub body : List (Text × Text)

abbrev pub flat : List Section → List (Text × Text)
flat [] = []
flat (s ∷ sections) = s.header ∷ (s.body ++ flat sections)

module _ (home : Option Text) where
  -- The hosts that the sections are about, each with the settings of its own section.
  abbrev pub section_hosts : Block → List (Text × Text) → List SshConfigHost
  section_hosts (host h) body = set_all home body h ∷ []
  section_hosts _ body = []

  abbrev pub hosts_of : List Section → List SshConfigHost
  hosts_of [] = []
  hosts_of (s ∷ sections) = section_hosts (block_of home s.header) s.body ++ hosts_of sections

  -- The settings of the wildcard sections, the later over the earlier.
  abbrev pub section_defaults : Block → List (Text × Text) → Defaults → Defaults
  section_defaults preamble body d = set_defaults home body d
  section_defaults wildcard body d = set_defaults home body d
  section_defaults _ body d = d

  abbrev pub defaults_of : List Section → Defaults → Defaults
  defaults_of [] d = d
  defaults_of (s ∷ sections) d =
      defaults_of sections (section_defaults (block_of home s.header) s.body d)

  abbrev pub IsBody : List (Text × Text) → Type 0
  IsBody ls = All (λ l. opens_block home l.0 ≡ false) ls

  abbrev pub IsSection : Section → Type 0
  IsSection s = (opens_block home s.header.0 ≡ true) × IsBody s.body

  steps-append :
      (ls ms : List (Text × Text)) (p : Parser home)
      → steps home (ls ++ ms) p ≡ steps home ms (steps home ls p)
  unfolding steps
  steps-append [] ms p = refl
  steps-append (l ∷ ls) ms p = steps-append ls ms (step home l p)

  abbrev at : Defaults → List SshConfigHost → Block → Parser home
  at d hosts b = record { defaults = d; hosts = hosts; block = b }

  -- What a body makes of the block that it stands in.
  abbrev block_after : Block → List (Text × Text) → Block
  block_after (host h) body = host (set_all home body h)
  block_after b body = b

  steps-body :
      (ls : List (Text × Text)) (d : Defaults) (hosts : List SshConfigHost) (b : Block)
      → IsBody ls
      → steps home ls (at d hosts b) ≡ at (section_defaults b ls d) hosts (block_after b ls)
  unfolding steps step
  steps-body [] d hosts preamble h = refl
  steps-body [] d hosts wildcard h = refl
  steps-body [] d hosts skipped h = refl
  steps-body [] d hosts (host x) h = refl
  steps-body (l ∷ ls) d hosts preamble (e, h) =
      rw e (steps-body ls (set_default home l d) hosts preamble h)
  steps-body (l ∷ ls) d hosts wildcard (e, h) =
      rw e (steps-body ls (set_default home l d) hosts wildcard h)
  steps-body (l ∷ ls) d hosts skipped (e, h) = rw e (steps-body ls d hosts skipped h)
  steps-body (l ∷ ls) d hosts (host x) (e, h) =
      rw e (steps-body ls d hosts (host (set_host home l x)) h)

  close-block_after :
      (b : Block) (ls : List (Text × Text)) (hosts : List SshConfigHost)
      → close_block home (block_after b ls) hosts ≡ hosts ++ section_hosts b ls
  close-block_after preamble ls hosts = sym (append-nil hosts)
  close-block_after wildcard ls hosts = sym (append-nil hosts)
  close-block_after skipped ls hosts = sym (append-nil hosts)
  close-block_after (host x) ls hosts = refl

  abbrev closed : Parser home → List SshConfigHost
  closed p = close_block home p.block p.hosts

  step-header :
      (l : Text × Text) (p : Parser home)
      → opens_block home l.0 ≡ true
      → step home l p ≡ at p.defaults (closed p) (block_of home l)
  unfolding step
  step-header l p e = rw (e, step) refl

  steps-flat :
      (sections : List Section) (p : Parser home)
      → All IsSection sections
      → ((steps home (flat sections) p).defaults ≡ defaults_of sections p.defaults)
        × (closed (steps home (flat sections) p) ≡ closed p ++ hosts_of sections)
  unfolding steps step
  steps-flat [] p h = (refl, sym (append-nil (closed p)))
  steps-flat (s ∷ sections) p ((opens, body), h) =
      let b = block_of home s.header in
      let after = at (section_defaults b s.body p.defaults) (closed p) (block_after b s.body) in
      let (d, hs) = steps-flat sections after h in
      let there : steps home (flat (s ∷ sections)) p ≡ steps home (flat sections) after =
        ap (λ q. steps home (s.body ++ flat sections) q) (step-header s.header p opens)
        ∙ (steps-append s.body (flat sections) (at p.defaults (closed p) b)
            ∙ ap (λ q. steps home (flat sections) q)
                (steps-body s.body p.defaults (closed p) b body)) in
      let joined =
        hs
        ∙ (ap (λ l. l ++ hosts_of sections) (close-block_after b s.body (closed p))
            ∙ append_assoc (closed p) (section_hosts b s.body) (hosts_of sections)) in
      (ap (λ q. q.defaults) there ∙ d, ap closed there ∙ joined)

  pub parse_settings-sections :
      (top : List (Text × Text)) (sections : List Section)
      → IsBody top
      → All IsSection sections
      → parse_settings home (top ++ flat sections)
        ≡ fill_all home
            (defaults_of sections (set_defaults home top (start home).defaults))
            (hosts_of sections)
  unfolding parse_settings
  parse_settings-sections top sections h k =
      let first = steps-body top (start home).defaults [] preamble h in
      let (d, hs) =
        steps-flat sections (at (set_defaults home top (start home).defaults) [] preamble) k in
      let there =
        steps-append top (flat sections) (start home)
        ∙ ap (λ q. steps home (flat sections) q) first in
      rw (there, d, hs) refl
