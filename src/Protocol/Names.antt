-- ===== src/Protocol/Names.antt =====
-- Disconnection reasons, signals, channel failures and channel messages of src/lib.rs.
use thrussh_fork.Base.{
  ℕ, Bool, Option, none, some, Bytes, codes, bytes_eq, ◌==◌, if◌then◌else◌, Outcome, ok, foreign,
}

pub data Disconnect : Type 0 where
  host_not_allowed_to_connect protocol_error key_exchange_failed reserved mac_error : Disconnect
  compression_error service_not_available protocol_version_not_supported : Disconnect
  host_key_not_verifiable connection_lost by_application too_many_connections : Disconnect
  auth_cancelled_by_user no_more_auth_methods_available illegal_user_name : Disconnect

-- `reason as u32`
unfoldable pub reason_code : Disconnect → ℕ
reason_code host_not_allowed_to_connect = 1
reason_code protocol_error = 2
reason_code key_exchange_failed = 3
reason_code reserved = 4
reason_code mac_error = 5
reason_code compression_error = 6
reason_code service_not_available = 7
reason_code protocol_version_not_supported = 8
reason_code host_key_not_verifiable = 9
reason_code connection_lost = 10
reason_code by_application = 11
reason_code too_many_connections = 12
reason_code auth_cancelled_by_user = 13
reason_code no_more_auth_methods_available = 14
reason_code illegal_user_name = 15

pub data Sig : Type 0 where
  abrt alrm fpe hup ill int kill pipe quit segv term usr1 : Sig
  custom : Bytes → Sig

-- `Sig::name`, as the bytes of the text.
unfoldable pub name : Sig → Bytes
name abrt = codes "ABRT"
name alrm = codes "ALRM"
name fpe = codes "FPE"
name hup = codes "HUP"
name ill = codes "ILL"
name int = codes "INT"
name kill = codes "KILL"
name pipe = codes "PIPE"
name quit = codes "QUIT"
name segv = codes "SEGV"
name term = codes "TERM"
name usr1 = codes "USR1"
name (custom c) = c

-- `Sig::from_name`. The parameter is the standard library's test for valid UTF-8.
unfoldable pub from_name : (Bytes → Bool) → Bytes → Outcome Sig
from_name utf8 n =
    if bytes_eq n (codes "ABRT")
    then ok abrt
    else if bytes_eq n (codes "ALRM")
    then ok alrm
    else if bytes_eq n (codes "FPE")
    then ok fpe
    else if bytes_eq n (codes "HUP")
    then ok hup
    else if bytes_eq n (codes "ILL")
    then ok ill
    else if bytes_eq n (codes "INT")
    then ok int
    else if bytes_eq n (codes "KILL")
    then ok kill
    else if bytes_eq n (codes "PIPE")
    then ok pipe
    else if bytes_eq n (codes "QUIT")
    then ok quit
    else if bytes_eq n (codes "SEGV")
    then ok segv
    else if bytes_eq n (codes "TERM")
    then ok term
    else if bytes_eq n (codes "USR1")
    then ok usr1
    else if utf8 n
    then ok (custom n)
    else foreign

pub data ChannelOpenFailure : Type 0 where
  administratively_prohibited connect_failed : ChannelOpenFailure
  unknown_channel_type resource_shortage : ChannelOpenFailure

-- `reason as u32`
unfoldable pub failure_code : ChannelOpenFailure → ℕ
failure_code administratively_prohibited = 1
failure_code connect_failed = 2
failure_code unknown_channel_type = 3
failure_code resource_shortage = 4

unfoldable pub from_u32 : ℕ → Option ChannelOpenFailure
from_u32 x =
    if x == 1
    then some administratively_prohibited
    else if x == 2
    then some connect_failed
    else if x == 3
    then some unknown_channel_type
    else if x == 4
    then some resource_shortage
    else none

-- The messages that a server's handle sends to its session.
pub data ChannelMsg : Type 0 where
  data_msg : Bytes → ChannelMsg
  extended_data_msg : Bytes → ℕ → ChannelMsg
  eof : ChannelMsg
  xon_xoff : Bool → ChannelMsg
  exit_status : ℕ → ChannelMsg
  exit_signal : Sig → Bool → Bytes → Bytes → ChannelMsg
