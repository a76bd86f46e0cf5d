-- ===== src/Client/State.antt =====
-- The session of a client and what it exchanges with the rest of the program, src/client/mod.rs. A
-- queue is the list of what has been sent on it.
use thrussh_fork.Base.{ℕ, Bool, Option, List, Bytes}
use thrussh_fork.Protocol.Pty.{Pty}
use thrussh_fork.Protocol.Names.{Disconnect, Sig, ChannelOpenFailure, ChannelMsg}
use thrussh_fork.Key.{PublicKey, KeyPair}
use thrussh_fork.Negotiation.ReadKex.{Preferred}
use thrussh_fork.Session.State.{CommonSession, Limits}

-- `auth::Method` of src/auth.rs.
pub data Method : Type 0 where
  password : Bytes → Method
  public_key : KeyPair → Method
  future_public_key : PublicKey → Method

pub data Reply : Type 0 where
  auth_success auth_failure channel_open_failure : Reply
  sign_request : PublicKey → Bytes → Reply

pub data OpenChannelMsg : Type 0 where
  opened : ℕ → OpenChannelMsg
  msg : ChannelMsg → OpenChannelMsg

-- `Msg`: what a `Handle` and its channels send to the session.
pub data ClientMsg : Type 0 where
  authenticate : Bytes → Method → ClientMsg
  signed : Bytes → ClientMsg
  channel_open_session : ClientMsg
  channel_open_x11 : Bytes → ℕ → ClientMsg
  channel_open_direct_tcpip : Bytes → ℕ → Bytes → ℕ → ClientMsg
  tcpip_forward : Bool → Bytes → ℕ → ClientMsg
  cancel_tcpip_forward : Bool → Bytes → ℕ → ClientMsg
  disconnect : Disconnect → Bytes → Bytes → ClientMsg
  data' : ℕ → Bytes → ClientMsg
  extended_data : ℕ → Bytes → ℕ → ClientMsg
  eof : ℕ → ClientMsg
  request_pty : ℕ → Bool → Bytes → ℕ → ℕ → ℕ → ℕ → List (Pty × ℕ) → ClientMsg
  request_shell : ℕ → Bool → ClientMsg
  exec : ℕ → Bool → Bytes → ClientMsg
  signal : ℕ → Sig → ClientMsg
  request_subsystem : ℕ → Bool → Bytes → ClientMsg
  request_x11 : ℕ → Bool → Bool → Bytes → Bytes → ℕ → ClientMsg
  set_env : ℕ → Bool → Bytes → Bytes → ClientMsg
  window_change : ℕ → ℕ → ℕ → ℕ → ℕ → ClientMsg

-- `auth_method` stands in `CommonSession`, and only clients use it. The `sender` is open as long as
-- the `Handle` lives; each channel has the queue of its sender.
pub record Session : Type 0 where
  pub common : CommonSession
  pub auth_method : Option Method
  pub receiver : List ClientMsg
  pub sender : List Reply
  pub sender_open : Bool
  pub channels : List (ℕ × List OpenChannelMsg)

pub record Config : Type 0 where
  pub client_id : Bytes
  pub limits : Limits
  pub window_size : ℕ
  pub maximum_packet_size : ℕ
  pub preferred : Preferred

-- What the code takes from outside: the random bytes for a KEXINIT and for a secret, and the clock.
pub record World : Type 0 where
  pub cookie : Option Bytes
  pub secret : Option Bytes
  pub clock : ℕ → ℕ

-- The calls of the trait `Handler`, with the arguments of the method.
pub data Event : Type 0 where
  auth_banner : Bytes → Event
  channel_open_confirmation : ℕ → Event
  channel_close : ℕ → Event
  channel_eof : ℕ → Event
  channel_open_failed : ℕ → ChannelOpenFailure → Bytes → Bytes → Event
  channel_open_forwarded_tcpip : ℕ → Bytes → ℕ → Bytes → ℕ → Event
  on_data : ℕ → Bytes → Event
  on_extended_data : ℕ → ℕ → Bytes → Event
  xon_xoff : ℕ → Bool → Event
  exit_status : ℕ → ℕ → Event
  exit_signal : ℕ → Sig → Bool → Bytes → Bytes → Event
  window_adjusted : ℕ → ℕ → Event

pub record Handler (H : Type 0) : Type 0 where
  pub call : Event → H → Session → Option (H × Session)
  pub check_server_key : H → PublicKey → Option (H × Bool)
