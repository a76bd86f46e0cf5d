-- ===== src/Session/State.antt =====
-- The state of a session: src/session.rs, and the channel of src/lib.rs.
use thrussh_fork.Base.{
  ℕ, ◌^◌, Bool, true, false, Option, none, some, List, [], Bytes, leb, ◌&&◌, Outcome, ok, ◌>>◌,
  assert,
}
use thrussh_fork.Cipher.Keys.{CipherPair}
use thrussh_fork.Cipher.Packet.{SshBuffer}
use thrussh_fork.Negotiation.ReadKex.{Names}
use thrussh_fork.Auth.Methods.{AuthRequest}

-- Window sizes, channel numbers and packet sizes are 32 bits wide.
pub record Channel : Type 0 where
  pub recipient_channel : ℕ
  pub sender_channel : ℕ
  pub recipient_window_size : ℕ
  pub sender_window_size : ℕ
  pub recipient_maximum_packet_size : ℕ
  pub sender_maximum_packet_size : ℕ
  pub confirmed : Bool
  pub wants_reply : Bool

-- Times are counted in seconds.
pub record Limits : Type 0 where
  pub rekey_write_limit : ℕ
  pub rekey_read_limit : ℕ
  pub rekey_time_limit : ℕ

unfoldable pub new_limits : ℕ → ℕ → ℕ → Outcome Limits
new_limits write_limit read_limit time_limit = do
  assert (leb write_limit (2 ^ 30) && leb read_limit (2 ^ 30))
  ok (record {
    rekey_write_limit = write_limit;
    rekey_read_limit = read_limit;
    rekey_time_limit = time_limit;
  })

abbrev pub default_limits : Limits
default_limits = record {
  rekey_write_limit = 2 ^ 30;
  rekey_read_limit = 2 ^ 30;
  rekey_time_limit = 3600;
}

-- The values of the key exchange: what thrussh-libsodium's scalars hold.
pub record Algorithm : Type 0 where
  pub local_secret : Option Bytes
  pub shared_secret : Option Bytes

pub record Exchange : Type 0 where
  pub client_id : Bytes
  pub server_id : Bytes
  pub client_kex_init : Bytes
  pub server_kex_init : Bytes
  pub client_ephemeral : Bytes
  pub server_ephemeral : Bytes

abbrev pub new_exchange : Exchange
new_exchange = record {
  client_id = [];
  server_id = [];
  client_kex_init = [];
  server_kex_init = [];
  client_ephemeral = [];
  server_ephemeral = [];
}

pub record KexInit : Type 0 where
  pub algo : Option Names
  pub exchange : Exchange
  pub session_id : Option Bytes
  pub sent : Bool

pub record KexDh : Type 0 where
  pub exchange : Exchange
  pub names : Names
  pub key : ℕ
  pub session_id : Option Bytes

pub record KexDhDone : Type 0 where
  pub exchange : Exchange
  pub kex : Algorithm
  pub key : ℕ
  pub session_id : Option Bytes
  pub names : Names

pub record NewKeys : Type 0 where
  pub exchange : Exchange
  pub names : Names
  pub kex : Algorithm
  pub key : ℕ
  pub cipher : CipherPair
  pub session_id : Bytes
  pub received : Bool
  pub sent : Bool

pub data Kex : Type 0 where
  kex_init : KexInit → Kex
  kex_dh : KexDh → Kex
  kex_dh_done : KexDhDone → Kex
  new_keys : NewKeys → Kex

abbrev clear_init : Exchange → Exchange
clear_init ex = record ex {
  client_kex_init = [];
  server_kex_init = [];
  client_ephemeral = [];
  server_ephemeral = [];
}

unfoldable pub received_rekey : Exchange → Names → Bytes → KexInit
received_rekey ex algo session_id = record {
  algo = some algo;
  exchange = clear_init ex;
  session_id = some session_id;
  sent = false;
}

unfoldable pub initiate_rekey : Exchange → Bytes → KexInit
initiate_rekey ex session_id = record {
  algo = none;
  exchange = clear_init ex;
  session_id = some session_id;
  sent = true;
}

pub data EncryptedState : Type 0 where
  waiting_service_request : Bool → EncryptedState
  waiting_auth_request : AuthRequest → EncryptedState
  authenticated : EncryptedState

pub record Encrypted : Type 0 where
  pub state : EncryptedState
  pub exchange : Option Exchange
  pub kex : Algorithm
  pub key : ℕ
  pub mac : Option Bytes
  pub session_id : Bytes
  pub rekey : Option Kex
  pub channels : List (ℕ × Channel)
  pub last_channel_id : ℕ
  pub wants_reply : Bool
  pub write : Bytes
  pub write_cursor : ℕ
  pub last_rekey : ℕ

-- The configuration and the authentication method are arguments of the functions that use them.
pub record CommonSession : Type 0 where
  pub auth_user : Bytes
  pub encrypted : Option Encrypted
  pub write_buffer : SshBuffer
  pub kex : Option Kex
  pub cipher : CipherPair
  pub wants_reply : Bool
  pub disconnected : Bool
  pub buffer : Bytes
