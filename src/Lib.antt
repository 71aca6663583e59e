-- ===== src/Lib.antt =====
-- ssh-control is a terminal program that keeps SSH servers, scripts and forwards in an encrypted
-- vault and connects to them. This library models its core in files that follow the program's.
--
-- The vault. src/config/format.rs lays the file out: Vault/Format has the records and the encoders,
-- Vault/Format/Decode the readers `decode`, `decode_any`, `decode_v1` and `decode_v2`. Slots hold one
-- master key wrapped under a password or a device key: src/config/keyslot.rs is Vault/Keyslot, over
-- src/crypto/cipher.rs and src/crypto/kdf.rs in Vault/Crypto. The decrypted config is JSON whose
-- schema version is checked and brought forward: src/config/migrate.rs is Vault/Migrate. One instance
-- at a time holds the vault: src/config/lock.rs is Vault/Lock, where several instances take steps over
-- one lock file. src/config/store.rs ties these together: `write_file_atomic` is Vault/Disk, and the
-- calls `init`, `load`, `load_with_device`, `save` and `peek_shape` are Vault/Store, functions from the
-- disk and the lock to new ones and a result.
--
-- Unlocking. src/config/device.rs keeps a device's state in the credential store of the system:
-- Vault/Device. src/totp.rs checks a six-digit code: Totp. src/app.rs decides at the start which screen
-- to show and what a daily code does: Unlock has `device_backed_initial_state` and
-- `try_totp_daily_unlock`, over any world of the vault store; Unlock/Passwords has the screen at the
-- start, `try_unlock` and `reconcile_device_state`, and Unlock/Creation `create_vault` and
-- `migrate_totp_only`, and Unlock/Settings `change_master_password` and `change_security_mode`, over
-- Vault/Store and one entry of the credential store.
--
-- SFTP. src/ssh/sftp/wire.rs encodes and decodes packets: Sftp/Wire, a cursor passed from read to
-- read. Names and messages are read by `String::from_utf8_lossy`: Sftp/Utf8. src/ssh/sftp/client.rs
-- sends the requests and takes their replies: Sftp/Client, over a stream that is a parameter.
--
-- Transfers. src/ssh/transfer.rs plans first and copies second: Transfers/Walk has `plan` (here
-- `make_plan`) with its walks, Transfers/Copy has `copy_file`, `upload`, `download` and `ensure_dir`,
-- Transfers/Runs has `run`. The SFTP session, std::fs and the callback are a record of operations over
-- one shared state. Walks and copying loops run on fuel, which a directory tree without end or a file
-- that never ends would need: one unit for each directory and for each chunk.
--
-- SOCKS. src/ssh/forward/socks.rs is Socks, over a stream that is a parameter; Socks/Addresses prints
-- addresses the way the standard library does.
--
-- Import. src/ssh_config.rs is SshConfig: a text is there the list of its characters, split into
-- lines, settings and blocks.
--
-- Scripts. src/ssh/script_runner.rs runs a script's commands over fresh channels: Scripts, over what
-- each channel delivers until it closes or its time is over. The placeholders of commands are not
-- modelled.
--
-- Servers. The entries of src/config/model.rs are in Servers, with the chain of bastions that
-- `Target::from_entry` of src/ssh/session.rs resolves: at most eight, counted down by the loop.
--
-- How it is modelled. A byte string is a list of numbers, and a text its UTF-8 bytes. A fallible
-- function returns `Outcome`: a value, an error of Errors (src/error.rs), or a panic, which is what an
-- index out of range gives. A call that changes state goes from the old state to the new one with the
-- result, on every path. The file system, the kernel's lock and the random numbers are arguments that
-- say what each call of them did. The crates argon2, hkdf, aes-gcm, serde_json, totp_rs and base64 are
-- records of functions; what is relied on is named: a sealed message opens under the same key, nonce
-- and data (`IsAead`), and a written config is read back as it is (`IsWritten`) or, where its version
-- may be an older one, as it is or migrated (`IsReread`). Errors carry what the source's messages
-- interpolate. Integers keep their width where a cast cuts them.
--
-- Loops are structural: over the slots, over the entries of a listing, over the steps of the window of
-- a code. The migration loop runs `CURRENT_SCHEMA_VERSION - from` rounds, which is how often its
-- counter can rise before it stops. Only the loops of the transfers use fuel: `panic` then marks a
-- run that its fuel does not see to the end, and a download is shown not to be one, given one unit for
-- each byte and one more.
--
-- Not modelled: the screens under src/tui, the texts of src/i18n.rs, the connection and
-- terminal code under src/ssh other than the files named above, the command line under src/cli, and
-- the wiping of secrets in memory, which no result of these functions depends on.
pub mod Prelude
pub mod Errors
pub mod Calls
pub mod Vault
pub mod Totp
pub mod Unlock
pub mod Sftp
pub mod Transfers
pub mod Socks
pub mod SshConfig
pub mod Scripts
pub mod Servers
