-- ===== src/Client/Loop.antt =====
-- One round of the loop of `Session::run`, src/client/mod.rs: a packet of the server, or a message of
-- the `Handle`.
use thrussh_fork.Base.{
  ℕ, true, Option, none, some, [], ◌++◌, Bytes, Outcome, ok, ◌>>=◌, ◌>>◌, settled,
}
use thrussh_fork.Base.Assoc.{insert}
use thrussh_fork.Wire.{Encoding}
use thrussh_fork.Cipher.Packet.{SshBuffer, ReadResult}
use thrussh_fork.Session.State.{CommonSession}
use thrussh_fork.Session.Channels
use thrussh_fork.Key.{KeyCrate}
use thrussh_fork.Rounds.{Turn, leave, skip, turned}
use thrussh_fork.Server.Loop.{Packet, ending, ignored, payload, inspect}
use thrussh_fork.Client.State.{
  ClientMsg, authenticate, signed, channel_open_session, channel_open_x11,
  channel_open_direct_tcpip, tcpip_forward, cancel_tcpip_forward, disconnect, data', extended_data,
  eof, request_pty, request_shell, exec, signal, request_subsystem, request_x11, set_env,
  window_change, Session, Config,
}
use thrussh_fork.Client.Login.{write_auth_request_if_needed}
use thrussh_fork.Client.Opens.{
  client_open_session, client_open_x11, client_open_direct_tcpip, client_tcpip_forward,
  client_cancel_tcpip_forward, client_data, client_extended_data, client_eof,
}
use thrussh_fork.Client.Senders as Senders
use thrussh_fork.Client.Reply.{with_common}

pub record Running (H : Type 0) : Type 0 where
  pub session : Session
  pub handler : H
  pub buffer : SshBuffer
  pub written : Bytes

pub data Input : Type 0 where
  packet : ReadResult → Input
  message : Option ClientMsg → Input

-- `self.channels.insert(id, sender)`: the queue of a new sender is empty.
abbrev pub register : Session → CommonSession × ℕ → Session
register s r = record s { common = r.0; channels = insert r.1 [] s.channels }

module _ ⦃e : Encoding⦄ ⦃ks : KeyCrate⦄ where
  unfoldable pub on_client_msg : Config → ClientMsg → Session → Outcome Session
  on_client_msg config (authenticate user meth) s = ok (write_auth_request_if_needed s user meth)
  on_client_msg config (signed given) s = ok s
  on_client_msg config channel_open_session s =
      client_open_session config.window_size config.maximum_packet_size s.common >>= λ r.
      ok (register s r)
  on_client_msg config (channel_open_x11 address port) s =
      client_open_x11 config.window_size config.maximum_packet_size s.common address port >>= λ r.
      ok (register s r)
  on_client_msg config (channel_open_direct_tcpip host port address port') s =
      client_open_direct_tcpip config.window_size config.maximum_packet_size s.common host port
        address port'
      >>= λ r. ok (register s r)
  on_client_msg config (tcpip_forward want_reply address port) s =
      ok (with_common s (client_tcpip_forward s.common want_reply address port))
  on_client_msg config (cancel_tcpip_forward want_reply address port) s =
      ok (with_common s (client_cancel_tcpip_forward s.common want_reply address port))
  on_client_msg config (disconnect reason description language_tag) s =
      ok (with_common s (Channels.disconnect s.common reason description language_tag))
  on_client_msg config (data' id given) s =
      client_data s.common id given >>= λ r. ok (with_common s r.0)
  on_client_msg config (extended_data id given ext) s =
      client_extended_data s.common id ext given >>= λ r. ok (with_common s r.0)
  on_client_msg config (eof id) s = client_eof s.common id >>= λ r. ok (with_common s r)
  on_client_msg config (request_pty id want term cw rh pw ph modes) s =
      ok (with_common s (Senders.request_pty s.common id want term cw rh pw ph modes))
  on_client_msg config (request_shell id want) s =
      ok (with_common s (Senders.request_shell s.common want id))
  on_client_msg config (exec id want command) s =
      ok (with_common s (Senders.exec s.common id want command))
  on_client_msg config (signal id sig) s = ok (with_common s (Senders.send_signal s.common id sig))
  on_client_msg config (request_subsystem id want name) s =
      ok (with_common s (Senders.request_subsystem s.common want id name))
  on_client_msg config (request_x11 id want single protocol cookie screen) s =
      ok (with_common s (Senders.request_x11 s.common id want single protocol cookie screen))
  on_client_msg config (set_env id want variable value) s =
      ok (with_common s (Senders.set_env s.common id want variable value))
  on_client_msg config (window_change id cw rh pw ph) s =
      ok (with_common s (Senders.window_change s.common id cw rh pw ph))

  module _ {H : Type 0} (config : Config) (reply : Session → H → Bytes → Outcome (Session × H))
      (flush : CommonSession → Outcome CommonSession) where
    unfoldable pub finish_client_round : Running H → Outcome (Running H)
    finish_client_round r = do
      s ← flush r.session.common
      ok (record {
        session =
            with_common r.session
              (record s { write_buffer = record s.write_buffer { buffer = [] } });
        handler = r.handler;
        buffer = record r.buffer { buffer = [] };
        written = r.written ++ s.write_buffer.buffer;
      })

    unfoldable pub on_client_packet : Packet → Running H → Outcome (Turn (Running H))
    unfolding finish_client_round
    on_client_packet ending r = ok (leave r)
    on_client_packet ignored r = ok (skip r)
    on_client_packet (payload buf) r = do
      (s, h) ← reply r.session r.handler buf
      r' ← finish_client_round (record r { session = s; handler = h })
      ok (turned r')

    -- When every `Handle` is gone, the session is at its end.
    unfoldable pub client_round : Input → Running H → Outcome (Turn (Running H))
    unfolding on_client_packet on_client_msg
    client_round (packet given) r = do
      settled given.result
      p ← inspect given.buf.buffer
      on_client_packet p (record r { buffer = given.buf })
    client_round (message none) r = ok (
        leave (record r {
          session = with_common r.session (record r.session.common { disconnected = true });
        }))
    client_round (message (some m)) r = do
      s ← on_client_msg config m r.session
      r' ← finish_client_round (record r { session = s })
      ok (turned r')
