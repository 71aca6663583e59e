-- ===== src/Vault/Migrate.antt =====
-- src/config/migrate.rs: which schema versions of the decrypted config are opened, and how an older
-- one is brought forward. The JSON library is a parameter.
pub mod Versions
use ssh_control.Prelude.{
  ℕ, zero, suc, ◌+◌, ◌-◌, ◌≡◌, Bytes, List, [], ◌∷◌, Option, some, none, Outcome, ok, err, ◌>>=◌,
  map_err, ltb, ◌==◌, if◌then◌else◌,
}
use ssh_control.Errors.{
  Result, corrupt_file, undecodable, not_an_object, no_migration, schema_too_new,
}

abbrev pub current_schema_version : ℕ
current_schema_version = 2

-- What the program uses of serde_json. An error carries its text.
pub record Serde (Config Object : Type 0) : Type 0 where
  -- `from_slice::<VersionProbe>`: the `schema_version` field, if the text has one
  pub probe : Bytes → Outcome Bytes (Option ℕ)
  pub config_from_slice : Bytes → Outcome Bytes Config
  -- `from_slice::<Value>` and `as_object_mut`
  pub object_from_slice : Bytes → Outcome Bytes (Option Object)
  pub insert_schema_version : ℕ → Object → Object
  pub config_from_object : Object → Outcome Bytes Config
  pub to_vec : Config → Outcome Bytes Bytes

module _ {Object : Type 0} where
  -- 1 to 2 changes nothing.
  unfoldable pub v1_to_v2 : Object → Object
  v1_to_v2 object = object

  unfoldable pub steps : List (ℕ × (Object → Object))
  unfolding v1_to_v2
  steps = (1, v1_to_v2) ∷ []

  -- `STEPS.iter().find(|(at, _)| *at == version)`
  unfoldable pub find_step : ℕ → List (ℕ × (Object → Object)) → Option (Object → Object)
  find_step version [] = none
  find_step version ((at, step) ∷ table) =
      if at == version then some step else find_step version table

  -- `while version < CURRENT_SCHEMA_VERSION`, on the number of rounds that are left.
  unfoldable pub run_steps : ℕ → ℕ → Object → Result Object
  unfolding steps find_step
  run_steps zero version object = ok object
  run_steps (suc rounds) version object = elim (find_step version steps) [
    | none ↦ err (corrupt_file (no_migration version))
    | some step ↦ run_steps rounds (version + 1) (step object)
  ]

-- A text with no `schema_version` is version 1.
unfoldable pub probed_version : Option ℕ → ℕ
probed_version (some v) = v
probed_version none = 1

module _ {Config Object : Type 0} (serde : Serde Config Object) where
  unfoldable pub migrate_forward : Bytes → ℕ → Result Config
  unfolding run_steps
  migrate_forward plaintext from = do
    value ← map_err (λ e. corrupt_file (undecodable e)) (serde.object_from_slice plaintext)
    object ← (elim value [ some o ↦ ok o | none ↦ err (corrupt_file not_an_object) ])
    object' ← run_steps (current_schema_version - from) from object
    map_err (λ e. corrupt_file (undecodable e))
        (serde.config_from_object (serde.insert_schema_version current_schema_version object'))

  unfoldable pub config_from_slice : Bytes → Result Config
  unfolding migrate_forward probed_version
  config_from_slice plaintext = do
    field ← map_err (λ e. corrupt_file (undecodable e)) (serde.probe plaintext)
    let version = probed_version field
    if ltb current_schema_version version
        then err (schema_too_new version current_schema_version)
        else if version == current_schema_version
        then map_err (λ e. corrupt_file (undecodable e)) (serde.config_from_slice plaintext)
        else migrate_forward plaintext version
