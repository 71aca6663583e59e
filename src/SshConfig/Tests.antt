-- ===== src/SshConfig/Tests.antt =====
-- src/ssh_config.rs: a file as users write it.
use ssh_control.Prelude.{◌≡◌, refl, List, [], ◌∷◌, ◌++◌, Option, some, codes, bytes_eq}
use ssh_control.SshConfig.{
  Text, parse, parse_settings, lines_from, split_line, trim, open_host, parse_u16, expand_tilde,
  home_dir, steps, step, set_default, set_host, fill,
}
use ssh_control.SshConfig.Sections.{Section, flat}
use ssh_control.SshConfig.Blocks.{hosts_for, lines_for_all, parse_settings-flat}

abbrev home : Option Text
home = some (codes "/home/ann")

abbrev lf : Text
lf = 10 ∷ []

-- The settings of `Host *` fill what the host leaves open, and comments and bad ports are passed over.
parsed :
    parse home (
      codes "Host web # main"
      ++ lf
      ++ codes "  HostName=10.0.0.5"
      ++ lf
      ++ codes "Port abc"
      ++ lf
      ++ codes "IdentityFile ~/.ssh/id_web"
      ++ lf
      ++ codes "Host *"
      ++ lf
      ++ codes "User deploy"
      ++ lf
      ++ codes "Port 2222"
      ++ lf
      ++ codes "Host a b"
      ++ lf
      ++ codes "User x")
    ≡ record {
      alias = codes "web";
      hostname = codes "10.0.0.5";
      user = some (codes "deploy");
      port = some 2222;
      identity_file = some (codes "/home/ann/.ssh/id_web");
    }
      ∷ []
unfolding parse parse_settings lines_from split_line trim open_host parse_u16 expand_tilde home_dir
    steps step set_default set_host fill bytes_eq
parsed = refl

abbrev top : List (Text × Text)
top = (codes "user", codes "ann") ∷ []

abbrev sections : List Section
sections =
    record {
      header = (codes "host", codes "web");
      body = (codes "port", codes "22") ∷ (codes "user", codes "root") ∷ [];
    }
    ∷ record { header = (codes "match", codes "all"); body = (codes "user", codes "x") ∷ [] }
    ∷ record { header = (codes "host", codes "*"); body = (codes "user", codes "deploy") ∷ [] }
    ∷ []

parse_settings-flat_example :
    parse_settings home (top ++ flat sections)
    ≡ hosts_for home sections (top ++ lines_for_all home sections)
unfolding bytes_eq
parse_settings-flat_example =
    parse_settings-flat home top sections (refl, tt)
      ((refl, (refl, (refl, tt))), ((refl, (refl, tt)), ((refl, (refl, tt)), tt)))
