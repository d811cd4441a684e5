-- ===== src/Errors.antt =====
-- proto/include/loom/proto/errors.hpp: the protocol's error codes.
use Prim.Native.String.{String}
use loom_client.Common.{ℕ, ◌==◌, if◌then◌else◌}

abbrev pub no_error : ℕ
no_error = 0x00

abbrev pub version_unsupported : ℕ
version_unsupported = 0x01

abbrev pub busy : ℕ
busy = 0x02

abbrev pub no_common_codec : ℕ
no_common_codec = 0x03

abbrev pub protocol_violation : ℕ
protocol_violation = 0x04

abbrev pub datagram_unsupported : ℕ
datagram_unsupported = 0x05

abbrev pub auth_failed : ℕ
auth_failed = 0x06

abbrev pub internal : ℕ
internal = 0x07

-- `name`
unfoldable pub name_of : ℕ → String
name_of code =
    if code == no_error
    then "NONE"
    else if code == version_unsupported
    then "VERSION_UNSUPPORTED"
    else if code == busy
    then "BUSY"
    else if code == no_common_codec
    then "NO_COMMON_CODEC"
    else if code == protocol_violation
    then "PROTOCOL_VIOLATION"
    else if code == datagram_unsupported
    then "DATAGRAM_UNSUPPORTED"
    else if code == auth_failed
    then "AUTH_FAILED"
    else "INTERNAL"
