-- ===== src/SshConfig/Blocks.antt =====
-- src/ssh_config.rs: the parser against the blocks of the file.
use ssh_control.Prelude.{◌≡◌, refl, sym, ap, ◌∙◌, List, [], ◌∷◌, ◌++◌, Option, none, All, codes}
use ssh_control.SshConfig.{
  Text, SshConfigHost, Defaults, Block, preamble, wildcard, skipped, host, set_default, fill,
  fill_all, start, parse_settings, new_host,
}
use ssh_control.SshConfig.Fields.{
  set_defaults, set_all, set_all_lem, set_defaults_lem, values, last, first, ports, stated, text_of,
  port_of, path_of, stated-none, or_else-stated, or_else_lem,
}
use ssh_control.SshConfig.Headers.{said, block_of_lem, IsFresh, said-IsFresh}
use ssh_control.SshConfig.Sections.{
  Section, flat, parse_settings-sections, section_hosts, hosts_of, section_defaults, defaults_of,
  IsBody, IsSection,
}

module _ (home : Option Text) where
  -- The lines of the sections that are about every host, in order.
  abbrev pub body_for_all : Block → List (Text × Text) → List (Text × Text)
  body_for_all preamble body = body
  body_for_all wildcard body = body
  body_for_all _ body = []

  abbrev pub lines_for_all : List Section → List (Text × Text)
  lines_for_all [] = []
  lines_for_all (s ∷ sections) = body_for_all (said s.header) s.body ++ lines_for_all sections

  -- The host of a section, from the lines of the section and those that are about every host. The
  -- section's own value comes first, whatever stands where.
  abbrev pub host_for : Text → (body everywhere : List (Text × Text)) → SshConfigHost
  host_for alias body everywhere = record {
    alias = alias;
    hostname = text_of (last (values (codes "hostname") body)) alias;
    user = stated (last (values (codes "user") body)) (last (values (codes "user") everywhere));
    port =
        stated (last (ports (values (codes "port") body)))
          (port_of (last (values (codes "port") everywhere)) none);
    identity_file =
        stated (path_of home (first (values (codes "identityfile") body)))
          (path_of home (last (values (codes "identityfile") everywhere)));
  }

  abbrev pub hosts_in : Block → (body everywhere : List (Text × Text)) → List SshConfigHost
  hosts_in (host h) body everywhere = host_for h.alias body everywhere ∷ []
  hosts_in _ body everywhere = []

  abbrev pub hosts_for : List Section → List (Text × Text) → List SshConfigHost
  hosts_for [] everywhere = []
  hosts_for (s ∷ sections) everywhere =
      hosts_in (said s.header) s.body everywhere ++ hosts_for sections everywhere

  set_defaults-append :
      (ls ms : List (Text × Text)) (d : Defaults)
      → set_defaults home (ls ++ ms) d ≡ set_defaults home ms (set_defaults home ls d)
  set_defaults-append [] ms d = refl
  set_defaults-append (l ∷ ls) ms d = set_defaults-append ls ms (set_default home l d)

  section_defaults_lem :
      (b : Block) (body : List (Text × Text)) (d : Defaults)
      → section_defaults home b body d ≡ set_defaults home (body_for_all b body) d
  section_defaults_lem preamble body d = refl
  section_defaults_lem wildcard body d = refl
  section_defaults_lem skipped body d = refl
  section_defaults_lem (host h) body d = refl

  defaults_of_lem :
      (sections : List Section) (d : Defaults)
      → defaults_of home sections d ≡ set_defaults home (lines_for_all sections) d
  defaults_of_lem [] d = refl
  defaults_of_lem (s ∷ sections) d =
      let b = said s.header in
      ap (λ b. defaults_of home sections (section_defaults home b s.body d))
        (block_of_lem home s.header)
      ∙ defaults_of_lem sections (section_defaults home b s.body d)
      ∙ (ap (set_defaults home (lines_for_all sections)) (section_defaults_lem b s.body d)
          ∙ sym (set_defaults-append (body_for_all b s.body) (lines_for_all sections) d))

  fill_all-append :
      (d : Defaults) (xs ys : List SshConfigHost)
      → fill_all home d (xs ++ ys) ≡ fill_all home d xs ++ fill_all home d ys
  fill_all-append d [] ys = refl
  fill_all-append d (x ∷ xs) ys = ap (λ l. fill home d x ∷ l) (fill_all-append d xs ys)

  fill-set_all :
      (alias : Text) (body everywhere : List (Text × Text))
      → fill home
          (set_defaults home everywhere (start home).defaults)
          (set_all home body (new_host alias))
        ≡ host_for alias body everywhere
  unfolding fill
  fill-set_all alias body everywhere =
      let body_user = last (values (codes "user") body) in
      let body_port = last (ports (values (codes "port") body)) in
      let user = last (values (codes "user") everywhere) in
      let path = path_of home (last (values (codes "identityfile") everywhere)) in
      rw (set_all_lem home body (new_host alias)) (
        rw (set_defaults_lem home everywhere (start home).defaults) (
          rw
            (
              stated-none user,
              stated-none path,
              or_else-stated body_user user,
              or_else-stated body_port (port_of (last (values (codes "port") everywhere)) none),
              or_else_lem (path_of home (first (values (codes "identityfile") body))) path,
            )
            refl))

  fill-section_hosts :
      (b : Block) (body everywhere : List (Text × Text))
      → IsFresh b
      → fill_all home
          (set_defaults home everywhere (start home).defaults)
          (section_hosts home b body)
        ≡ hosts_in b body everywhere
  unfolding IsFresh
  fill-section_hosts preamble body everywhere fresh = refl
  fill-section_hosts wildcard body everywhere fresh = refl
  fill-section_hosts skipped body everywhere fresh = refl
  fill-section_hosts (host h) body everywhere fresh =
      let d = set_defaults home everywhere (start home).defaults in
      ap (λ x. fill home d (set_all home body x) ∷ []) fresh
      ∙ ap (λ x. x ∷ []) (fill-set_all h.alias body everywhere)

  fill-hosts_of :
      (sections : List Section) (everywhere : List (Text × Text))
      → fill_all home (set_defaults home everywhere (start home).defaults) (hosts_of home sections)
        ≡ hosts_for sections everywhere
  fill-hosts_of [] everywhere = refl
  fill-hosts_of (s ∷ sections) everywhere =
      let b = said s.header in
      let d = set_defaults home everywhere (start home).defaults in
      rw
        (
          block_of_lem home s.header,
          fill_all-append d (section_hosts home b s.body) (hosts_of home sections),
          fill-section_hosts b s.body everywhere (said-IsFresh s.header),
          fill-hosts_of sections everywhere,
        )
        refl

  -- A file of settings before the first `Host` or `Match` line and then sections: its hosts are those
  -- of the sections whose header is `Host` with one word that is no pattern, in order. Each takes the
  -- last host name, the last user, the last number given as port and the first identity file of its
  -- own section. Only where its section has none it takes the last user, identity file and port, this
  -- one if it is a number, from the settings at the top and under `Host *`, wherever these stand; with
  -- no host name its alias is it.
  pub parse_settings-flat :
      (top : List (Text × Text)) (sections : List Section)
      → IsBody home top
      → All (IsSection home) sections
      → parse_settings home (top ++ flat sections)
        ≡ hosts_for sections (top ++ lines_for_all sections)
  parse_settings-flat top sections h k =
      let none_yet = (start home).defaults in
      let everywhere : defaults_of home sections (set_defaults home top none_yet)
          ≡ set_defaults home (top ++ lines_for_all sections) none_yet =
        defaults_of_lem sections (set_defaults home top none_yet)
        ∙ sym (set_defaults-append top (lines_for_all sections) none_yet) in
      parse_settings-sections home top sections h k
      ∙ (ap (λ d. fill_all home d (hosts_of home sections)) everywhere
          ∙ fill-hosts_of sections (top ++ lines_for_all sections))
