-- ===== src/Server/Channels/Events.antt =====
-- The calls of the trait `Handler` of src/server/mod.rs on channels, as values: a call has the
-- arguments of the method, without the session. What the methods do is the application's.
use thrussh_fork.Base.{ℕ, Bool, Option, List, Bytes}
use thrussh_fork.Protocol.Pty.{Pty}
use thrussh_fork.Protocol.Names.{Sig}
use thrussh_fork.Session.State.{CommonSession, Limits}
use thrussh_fork.Server.Kex.{KexConfig}

pub data Event : Type 0 where
  channel_close : ℕ → Event
  channel_eof : ℕ → Event
  channel_open_session : ℕ → Event
  channel_open_x11 : ℕ → Bytes → ℕ → Event
  channel_open_direct_tcpip : ℕ → Bytes → ℕ → Bytes → ℕ → Event
  channel_data : ℕ → Bytes → Event
  channel_extended_data : ℕ → ℕ → Bytes → Event
  window_adjusted : ℕ → ℕ → Event
  pty_request : ℕ → Bytes → ℕ → ℕ → ℕ → ℕ → List (Pty × ℕ) → Event
  x11_request : ℕ → Bool → Bytes → Bytes → ℕ → Event
  env_request : ℕ → Bytes → Bytes → Event
  shell_request : ℕ → Event
  exec_request : ℕ → Bytes → Event
  subsystem_request : ℕ → Bytes → Event
  window_change_request : ℕ → ℕ → ℕ → ℕ → ℕ → Event
  signal : ℕ → Sig → Event

-- The two methods that answer a global request.
pub data Forward : Type 0 where
  tcpip_forward : Bytes → ℕ → Forward
  cancel_tcpip_forward : Bytes → ℕ → Forward

-- A method returns the handler and the session, or an error.
pub record ChannelHandler (H : Type 0) : Type 0 where
  pub call : Event → H → CommonSession → Option (H × CommonSession)
  pub forward : Forward → H → CommonSession → Option (H × CommonSession × Bool)

-- What this code uses of the configuration, and what a flush takes from outside: the clock, and the
-- random bytes of a new key exchange.
pub record ChannelConfig : Type 0 where
  pub window_size : ℕ
  pub maximum_packet_size : ℕ
  pub limits : Limits
  pub key_exchange : KexConfig
  pub clock : ℕ → ℕ
  pub cookie : Option Bytes
