-- ===== src/Vault/Migrate/Versions.antt =====
-- src/config/migrate.rs: the outcome of opening a decrypted config, by its schema version.
use ssh_control.Prelude.{ℕ, ◌<◌, ◌≡◌, Bytes, Option, some, ok, err, map_err, arith}
use ssh_control.Errors.{corrupt_file, undecodable, schema_too_new}
use ssh_control.Vault.Migrate.{Serde, current_schema_version, probed_version, config_from_slice}

module _ {Config Object : Type 0} (serde : Serde Config Object) (plaintext : Bytes) where
  -- A config written by a newer version is refused, whatever else it holds.
  pub config_from_slice_newer :
      (found : ℕ)
      → serde.probe plaintext ≡ ok (some found)
      → current_schema_version < found
      → config_from_slice serde plaintext ≡ err (schema_too_new found current_schema_version)
  unfolding config_from_slice
  config_from_slice_newer found h newer = ground arith

  -- A config of version 1, stamped or with no stamp, is the JSON object as it stands with its version
  -- set to the current one: no other field is touched.
  pub config_from_slice_first :
      (field : Option ℕ) (object : Object)
      → serde.probe plaintext ≡ ok field
      → probed_version field ≡ 1
      → serde.object_from_slice plaintext ≡ ok (some object)
      → config_from_slice serde plaintext
        ≡ map_err
            (λ e. corrupt_file (undecodable e))
            (serde.config_from_object (serde.insert_schema_version current_schema_version object))
  unfolding config_from_slice
  config_from_slice_first field object h first o = rw (h, first, o)
