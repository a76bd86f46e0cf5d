-- ===== src/Client/Connection.antt =====
-- A connection of the client, `connect_stream`, `read_ssh_id` and `Session::run` of
-- src/client/mod.rs: the identification lines, the first packet, and the loop.
use thrussh_fork.Base.{true, false, none, List, [], ◌++◌, Bytes, Outcome, ok, ◌>>=◌}
use thrussh_fork.Wire.{Encoding}
use thrussh_fork.Cipher.Keys.{Sodium, clear_pair}
use thrussh_fork.Cipher.Packet.{SshBuffer, new, send_ssh_id}
use thrussh_fork.Ident.{read_ssh_id, line}
use thrussh_fork.Key.{KeyCrate}
use thrussh_fork.Rounds.{Progress, play}
use thrussh_fork.Session.State.{CommonSession}
use thrussh_fork.Client.State.{ClientMsg, Session, Config, World}
use thrussh_fork.Client.Kex.{client_read_ssh_id}
use thrussh_fork.Client.Loop.{Running, Input, client_round}

-- A round: what it begins with, what the queue of the session gives while the reply waits for a
-- signature, and what the reply and the flush at its end take from outside.
pub record ClientRound : Type 0 where
  pub input : Input
  pub queued : List ClientMsg
  pub world : World
  pub flush_world : World

-- The messages that come to the queue of the session while it replies. One that no reply waits for
-- begins a later round.
abbrev pub hearing : {H : Type 0} → List ClientMsg → Running H → Running H
hearing queued r = record r { session = record r.session { receiver = queued } }

-- Before anything is sent or read.
abbrev pub connecting : SshBuffer → CommonSession
connecting wb = record {
  write_buffer = wb;
  kex = none;
  auth_user = [];
  cipher = clear_pair;
  encrypted = none;
  wants_reply = false;
  disconnected = false;
  buffer = [];
}

module _ ⦃e : Encoding⦄ where
  module _ ⦃ks : KeyCrate⦄ where
    -- `while !self.common.disconnected { .. }`
    unfoldable pub client_loop :
        {H : Type 0}
        → Config
        → (World → Session → H → Bytes → Outcome (Session × H))
        → (World → CommonSession → Outcome CommonSession)
        → List ClientRound
        → Running H
        → Outcome (Progress (Running H))
    unfolding play
    client_loop config reply flush =
        play
          (λ x r.
            client_round config (reply x.world) (flush x.flush_world) x.input (hearing x.queued r))
          (λ r. r.session.common.disconnected)

  module _ ⦃c : Sodium⦄ where
    -- The state before the first round, with what has been written: the line of the client and its
    -- first packet. The line of the server comes by `reads`.
    unfoldable pub open_connection :
        {H : Type 0}
        → Config
        → (World → CommonSession → Outcome CommonSession)
        → World
        → List Bytes
        → H
        → Outcome (Running H)
    unfolding client_read_ssh_id send_ssh_id
    open_connection config flush w reads h = do
      let hello = send_ssh_id config.client_id new
      sshid ← read_ssh_id reads []
      s ←
          client_read_ssh_id w.cookie config.preferred config.client_id (line sshid)
            (connecting hello)
      s' ← flush w s
      ok (record {
        session = record {
          common = record s' { write_buffer = record s'.write_buffer { buffer = [] } };
          auth_method = none;
          receiver = [];
          sender = [];
          sender_open = true;
          channels = [];
        };
        handler = h;
        buffer = new;
        written = hello.buffer ++ s'.write_buffer.buffer;
      })

    unfoldable pub connect_stream :
        ⦃ks : KeyCrate⦄ {H : Type 0}
        → Config
        → (World → Session → H → Bytes → Outcome (Session × H))
        → (World → CommonSession → Outcome CommonSession)
        → World
        → List Bytes
        → H
        → List ClientRound
        → Outcome (Progress (Running H))
    unfolding open_connection client_loop
    connect_stream config reply flush w reads h rounds =
        open_connection config flush w reads h >>= λ r. client_loop config reply flush rounds r
