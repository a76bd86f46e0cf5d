-- ===== src/Client/Unkeyed.antt =====
-- That a client stays without keys whatever its handle sends: the calls of src/client/session.rs.
use thrussh_fork.Base.{ℕ, ◌≡◌, refl, Bool, true, false, Option, none, some, Bytes}
use thrussh_fork.Base.Every.{Every}
use thrussh_fork.Protocol.Names.{Disconnect}
use thrussh_fork.Wire.{Encoding}
use thrussh_fork.Cipher.Keys.{Sodium}
use thrussh_fork.Key.{KeyCrate}
use thrussh_fork.Session.State.{Kex, kex_init, kex_dh, kex_dh_done, new_keys, CommonSession, Limits}
use thrussh_fork.Negotiation.ReadKex.{Preferred}
use thrussh_fork.Session.Channels as Channels
use thrussh_fork.Client.Kex.{client_flush}
use thrussh_fork.Client.State.{
  ClientMsg, authenticate, signed, channel_open_session, channel_open_x11,
  channel_open_direct_tcpip, tcpip_forward, cancel_tcpip_forward, disconnect, data', extended_data,
  eof, request_pty, request_shell, exec, signal, request_subsystem, request_x11, set_env,
  window_change, Session, Config,
}
use thrussh_fork.Client.Login.{write_auth_request_if_needed}
use thrussh_fork.Client.Opens.{
  open_with, client_open_session, client_open_x11, client_open_direct_tcpip, client_tcpip_forward,
  client_cancel_tcpip_forward, client_data, client_extended_data, client_eof,
}
use thrussh_fork.Client.Senders as Senders
use thrussh_fork.Client.Loop.{on_client_msg}

-- No new keys wait for the NEWKEYS of the server.
abbrev pub NotNew : Option Kex → Type 0
NotNew none = Unit
NotNew (some (kex_init i)) = Unit
NotNew (some (kex_dh d)) = Unit
NotNew (some (kex_dh_done d)) = Unit
NotNew (some (new_keys n)) = ⊥

-- There are no keys, and none wait.
abbrev pub Unkeyed : CommonSession → Type 0
Unkeyed s = (s.encrypted ≡ none) × NotNew s.kex

module _ ⦃e : Encoding⦄ ⦃c : Sodium⦄ where
  pub client_flush-Unkeyed :
      (clock : ℕ → ℕ) (cookie : Option Bytes) (limits : Limits) (preferred : Preferred)
      (s : CommonSession)
      → Unkeyed s
      → Every Unkeyed (client_flush clock cookie limits preferred s)
  unfolding client_flush
  client_flush-Unkeyed clock cookie limits preferred s (h, n) = rw (h, client_flush) (h, n)

module _ ⦃e : Encoding⦄ where
  disconnect-Unkeyed :
      (s : CommonSession) (reason : Disconnect) (d l : Bytes)
      → Unkeyed s
      → Unkeyed (Channels.disconnect s reason d l)
  unfolding Channels.disconnect
  disconnect-Unkeyed s reason d l (h, n) = at s.disconnected refl
    where
      at : (b : Bool) → s.disconnected ≡ b → Unkeyed (Channels.disconnect s reason d l)
      at true eq = rw (eq, Channels.disconnect) (h, n)
      at false eq = rw (eq, Channels.disconnect) (rw h (h, n))

module _ ⦃e : Encoding⦄ ⦃ks : KeyCrate⦄ where
  pub on_client_msg-Unkeyed :
      (config : Config) (m : ClientMsg) (s : Session)
      → Unkeyed s.common
      → Every (λ (s' : Session). Unkeyed s'.common) (on_client_msg config m s)
  unfolding on_client_msg write_auth_request_if_needed client_open_session client_open_x11
      client_open_direct_tcpip client_tcpip_forward client_cancel_tcpip_forward client_data
      client_extended_data client_eof Senders.request_pty Senders.request_shell Senders.exec
      Senders.send_signal Senders.request_subsystem Senders.request_x11 Senders.set_env
      Senders.window_change open_with
  on_client_msg-Unkeyed config (authenticate user meth) s (h, n) = rw h (refl, n)
  on_client_msg-Unkeyed config (signed given) s (h, n) = (h, n)
  on_client_msg-Unkeyed config channel_open_session s (h, n) = rw h tt
  on_client_msg-Unkeyed config (channel_open_x11 address port) s (h, n) = rw h tt
  on_client_msg-Unkeyed config (channel_open_direct_tcpip host port address port') s (h, n) =
      rw h tt
  on_client_msg-Unkeyed config (tcpip_forward want address port) s (h, n) = rw h (refl, n)
  on_client_msg-Unkeyed config (cancel_tcpip_forward want address port) s (h, n) = rw h (refl, n)
  on_client_msg-Unkeyed config (disconnect reason d l) s u =
      disconnect-Unkeyed s.common reason d l u
  on_client_msg-Unkeyed config (data' id given) s (h, n) = rw h tt
  on_client_msg-Unkeyed config (extended_data id given ext) s (h, n) = rw h tt
  on_client_msg-Unkeyed config (eof id) s (h, n) = rw h tt
  on_client_msg-Unkeyed config (request_pty id w t c r p q m) s (h, n) = rw h (refl, n)
  on_client_msg-Unkeyed config (request_shell id want) s (h, n) = rw h (refl, n)
  on_client_msg-Unkeyed config (exec id want command) s (h, n) = rw h (refl, n)
  on_client_msg-Unkeyed config (signal id sig) s (h, n) = rw h (refl, n)
  on_client_msg-Unkeyed config (request_subsystem id want name) s (h, n) = rw h (refl, n)
  on_client_msg-Unkeyed config (request_x11 id w b p k n') s (h, n) = rw h (refl, n)
  on_client_msg-Unkeyed config (set_env id want variable value) s (h, n) = rw h (refl, n)
  on_client_msg-Unkeyed config (window_change id cw rh pw ph) s (h, n) = rw h (refl, n)
