-- ===== src/Protocol/Msg.antt =====
-- The message numbers of src/msg.rs, each under its source's name in lower case.
use Prim.Native.Nat.{ℕ}

abbrev pub disconnect : ℕ
disconnect = 1

abbrev pub ignore : ℕ
ignore = 2

abbrev pub unimplemented : ℕ
unimplemented = 3

abbrev pub debug : ℕ
debug = 4

abbrev pub service_request : ℕ
service_request = 5

abbrev pub service_accept : ℕ
service_accept = 6

abbrev pub kexinit : ℕ
kexinit = 20

abbrev pub newkeys : ℕ
newkeys = 21

abbrev pub kex_ecdh_init : ℕ
kex_ecdh_init = 30

abbrev pub kex_ecdh_reply : ℕ
kex_ecdh_reply = 31

abbrev pub userauth_request : ℕ
userauth_request = 50

abbrev pub userauth_failure : ℕ
userauth_failure = 51

abbrev pub userauth_success : ℕ
userauth_success = 52

abbrev pub userauth_banner : ℕ
userauth_banner = 53

abbrev pub userauth_pk_ok : ℕ
userauth_pk_ok = 60

abbrev pub userauth_info_request : ℕ
userauth_info_request = 60

abbrev pub userauth_info_response : ℕ
userauth_info_response = 61

abbrev pub global_request : ℕ
global_request = 80

abbrev pub request_success : ℕ
request_success = 81

abbrev pub request_failure : ℕ
request_failure = 82

abbrev pub channel_open : ℕ
channel_open = 90

abbrev pub channel_open_confirmation : ℕ
channel_open_confirmation = 91

abbrev pub channel_open_failure : ℕ
channel_open_failure = 92

abbrev pub channel_window_adjust : ℕ
channel_window_adjust = 93

abbrev pub channel_data : ℕ
channel_data = 94

abbrev pub channel_extended_data : ℕ
channel_extended_data = 95

abbrev pub channel_eof : ℕ
channel_eof = 96

abbrev pub channel_close : ℕ
channel_close = 97

abbrev pub channel_request : ℕ
channel_request = 98

abbrev pub channel_success : ℕ
channel_success = 99

abbrev pub channel_failure : ℕ
channel_failure = 100
