-- ===== src/Vault.antt =====
-- src/config: the encrypted vault file and everything that opens and writes it.
pub mod Format
pub mod Crypto
pub mod Keyslot
pub mod Migrate
pub mod Disk
pub mod Store
pub mod Device
pub mod Fixtures
pub mod Lock
mod Tests
mod Runs
