-- ===== src/Server/Commands.antt =====
-- The calls of a server on its session, src/server/session.rs, as values.
use thrussh_fork.Base.{ℕ, ◌≡◌, Bool, Option, none, some, List, [], ◌∷◌, Bytes, Outcome, ok, ◌>>=◌}
use thrussh_fork.Protocol.Names.{ChannelOpenFailure, Sig}
use thrussh_fork.Wire.{Encoding}
use thrussh_fork.Wire.Frames.{frames}
use thrussh_fork.Session.State.{Encrypted, CommonSession}
use thrussh_fork.Server.Senders.{
  request_success, request_anyhow, channel_success, channel_anyhow, channel_open_anyhow, close,
  eof_channel, data_on, extended_data_on, xon_xoff_request, exit_status_request,
  exit_signal_request, channel_open_forwarded_tcpip,
}

-- A call of a server on its session, with its arguments.
pub data Command : Type 0 where
  do_request_success : Command
  do_request_anyhow : Command
  do_channel_success : ℕ → Command
  do_channel_anyhow : ℕ → Command
  do_channel_open_anyhow : ℕ → ChannelOpenFailure → Bytes → Bytes → Command
  do_close : ℕ → Command
  do_eof : ℕ → Command
  do_data : ℕ → Bytes → Command
  do_extended_data : ℕ → ℕ → Bytes → Command
  do_xon_xoff_request : ℕ → Bool → Command
  do_exit_status_request : ℕ → ℕ → Command
  do_exit_signal_request : ℕ → Sig → Bool → Bytes → Bytes → Command
  do_open_forwarded_tcpip : ℕ → ℕ → Bytes → ℕ → Bytes → ℕ → Command

module _ ⦃e : Encoding⦄ where
  -- The session after the call.
  unfoldable pub run : Command → CommonSession → Outcome CommonSession
  run do_request_success s = request_success s
  run do_request_anyhow s = request_anyhow s
  run (do_channel_success id) s = channel_success s id
  run (do_channel_anyhow id) s = channel_anyhow s id
  run (do_channel_open_anyhow id reason d l) s = channel_open_anyhow s id reason d l
  run (do_close id) s = close s id
  run (do_eof id) s = eof_channel s id
  run (do_data id buf) s = data_on s id buf >>= λ r. ok r.0
  run (do_extended_data id ext buf) s = extended_data_on s id ext buf >>= λ r. ok r.0
  run (do_xon_xoff_request id b) s = xon_xoff_request s id b
  run (do_exit_status_request id n) s = exit_status_request s id n
  run (do_exit_signal_request id signal b m l) s = exit_signal_request s id signal b m l
  run (do_open_forwarded_tcpip w m a p o q) s =
      channel_open_forwarded_tcpip w m s a p o q >>= λ r. ok r.0

  -- Any calls, one after the other.
  unfoldable pub run_all : List Command → CommonSession → Outcome CommonSession
  unfolding run
  run_all [] s = ok s
  run_all (cmd ∷ cmds) s = run cmd s >>= λ s'. run_all cmds s'

  abbrev pub Whole : Bytes → Type 0
  Whole write = (ps : List Bytes) × (write ≡ frames ps)

  abbrev pub IsFramed : Option Encrypted → Type 0
  IsFramed none = Unit
  IsFramed (some enc) = Whole enc.write
