-- ===== src/Errors.antt =====
-- src/error.rs: the one error type of the program. Where the source formats a message, the
-- constructor carries what the message is about and the values it interpolates.
use ssh_control.Prelude.{ℕ, Bytes, Outcome}

-- What an I/O failure was; `read_file` tells the first from the rest.
pub data IoKind : Type 0 where
  not_found unexpected_eof would_block other : IoKind

-- The texts of `CorruptFile`.
pub data Corruption : Type 0 where
  file_too_short ciphertext_length_mismatch v1_needs_migration : Corruption
  slot_count_out_of_range : ℕ → Corruption
  kdf_parameters_out_of_range : ℕ → ℕ → ℕ → Corruption
  unknown_kdf_id : ℕ → Corruption
  slot_not_argon2id slot_not_hkdf unwrapped_wrong_length not_an_object : Corruption
  undecodable : Bytes → Corruption
  no_migration : ℕ → Corruption

-- The texts of `Sftp`.
pub data SftpFault : Type 0 where
  malformed_packet : SftpFault
  unexpected_packet_type : ℕ → SftpFault
  cancelled stopped_answering closed_mid_reply : SftpFault
  not_a_directory : Bytes → SftpFault
  old_version : ℕ → SftpFault
  no_handshake handshake_mid_session : SftpFault
  no_realpath listing_never_finished : SftpFault
  wrong_kind_of_reply : Bytes → SftpFault
  wrong_reply_id : ℕ → ℕ → SftpFault
  impossible_packet : ℕ → SftpFault

pub data AppError : Type 0 where
  io : IoKind → AppError
  no_config_dir : AppError
  config_not_found : Bytes → AppError
  wrong_password_or_corrupt : AppError
  not_our_file : AppError
  unsupported_format_version : ℕ → AppError
  corrupt_file : Corruption → AppError
  serde : Bytes → AppError
  validation : Bytes → AppError
  ssh_connect : Bytes → AppError
  ssh_auth_failed : Bytes → AppError
  ssh_agent : Bytes → AppError
  ssh : Bytes → AppError
  host_key_changed : Bytes → AppError
  jump_failed : Bytes → AppError → AppError
  kdf : Bytes → AppError
  crypto : Bytes → AppError
  schema_too_new : ℕ → ℕ → AppError
  vault_in_use : AppError
  sftp : SftpFault → AppError
  sftp_status : ℕ → Bytes → Bytes → AppError
  cli : Bytes → AppError
  keyring : Bytes → AppError

abbrev pub Result {ℓ} : Type ℓ → Type ℓ
Result A = Outcome AppError A
