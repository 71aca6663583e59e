-- ===== src/Sftp/Codes.antt =====
-- src/ssh/sftp/wire.rs: the numbers of requests and replies, and the errors made of a status.
use ssh_control.Prelude.{ℕ, Bytes, [], ◌∷◌, ◌++◌, ◌||◌, ◌==◌, if◌then◌else◌, codes, decimal}
use ssh_control.Errors.{AppError, sftp_status}

abbrev pub fxp_open : ℕ
fxp_open = 3

abbrev pub fxp_close : ℕ
fxp_close = 4

abbrev pub fxp_read : ℕ
fxp_read = 5

abbrev pub fxp_write : ℕ
fxp_write = 6

abbrev pub fxp_lstat : ℕ
fxp_lstat = 7

abbrev pub fxp_opendir : ℕ
fxp_opendir = 11

abbrev pub fxp_readdir : ℕ
fxp_readdir = 12

abbrev pub fxp_remove : ℕ
fxp_remove = 13

abbrev pub fxp_mkdir : ℕ
fxp_mkdir = 14

abbrev pub fxp_realpath : ℕ
fxp_realpath = 16

abbrev pub fxp_stat : ℕ
fxp_stat = 17

abbrev pub fxp_rename : ℕ
fxp_rename = 18

abbrev pub fx_ok : ℕ
fx_ok = 0

abbrev pub fx_eof : ℕ
fx_eof = 1

abbrev pub fx_no_such_file : ℕ
fx_no_such_file = 2

abbrev pub fx_permission_denied : ℕ
fx_permission_denied = 3

abbrev pub fx_no_connection : ℕ
fx_no_connection = 6

abbrev pub fx_connection_lost : ℕ
fx_connection_lost = 7

abbrev pub fxf_read : ℕ
fxf_read = 1

abbrev pub fxf_write : ℕ
fxf_write = 2

abbrev pub fxf_creat : ℕ
fxf_creat = 8

abbrev pub fxf_trunc : ℕ
fxf_trunc = 16

abbrev pub chunk : ℕ
chunk = 32_768

abbrev pub max_packet : ℕ
max_packet = 262_144

unfoldable pub default_status_message : ℕ → Bytes
default_status_message code =
    if code == fx_no_such_file
    then codes "no such file or directory"
    else if code == fx_permission_denied
    then codes "permission denied"
    else if code == fx_no_connection || code == fx_connection_lost
    then codes "connection lost"
    else codes "server error " ++ decimal code

-- A server that sends no text still yields one.
abbrev pub message_or_default : ℕ → Bytes → Bytes
message_or_default code [] = default_status_message code
message_or_default code (b ∷ message) = b ∷ message

unfoldable pub status_error : Bytes → ℕ → Bytes → AppError
status_error path code message = sftp_status code path (message_or_default code message)
