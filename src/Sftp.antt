-- ===== src/Sftp.antt =====
-- src/ssh/sftp: the SFTP client's own protocol code.
pub mod Utf8
pub mod Wire
pub mod Codes
pub mod Client
