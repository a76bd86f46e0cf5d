-- ===== src/Server/Connection.antt =====
-- A connection of the server, `read_ssh_id` and `run_stream` of src/server/mod.rs: the identification
-- lines, the first packet, and the loop. What each round takes from outside is a list.
use thrussh_fork.Base.{
  ℕ, false, Option, none, some, List, [], ◌++◌, Bytes, Outcome, ok, ◌>>=◌, try_foreign,
}
use thrussh_fork.Wire.{Encoding}
use thrussh_fork.Cipher.Keys.{Sodium, clear_pair}
use thrussh_fork.Cipher.Packet.{new, send_ssh_id}
use thrussh_fork.Ident.{read_ssh_id, line}
use thrussh_fork.Session.State.{new_exchange, kex_init, CommonSession}
use thrussh_fork.Server.Kex.{KexConfig, server_write}
use thrussh_fork.Server.Reply.{World}
use thrussh_fork.Rounds.{Progress, play}
use thrussh_fork.Server.Loop.{Running, Input, server_round}

-- A round: what it begins with, and what the reply and the flush take from outside.
pub record Round : Type 0 where
  pub input : Input
  pub world : World
  pub clock : ℕ → ℕ
  pub cookie : Option Bytes

module _ ⦃e : Encoding⦄ where
  -- The loop over what the rounds take from outside.
  unfoldable pub server_loop :
      {H : Type 0}
      → (World → CommonSession → H → Bytes → Outcome (CommonSession × H))
      → ((ℕ → ℕ) → Option Bytes → CommonSession → Outcome CommonSession)
      → List Round
      → Running H
      → Outcome (Progress (Running H))
  unfolding play
  server_loop reply flush =
      play (λ x. server_round (reply x.world) (flush x.clock x.cookie) x.input)
        (λ r. r.session.disconnected)

  module _ ⦃c : Sodium⦄ where
    -- `sshid` is the line of the client, and `server_id` that of the configuration.
    unfoldable pub server_read_ssh_id :
        Option Bytes → KexConfig → Bytes → Bytes → Outcome CommonSession
    unfolding server_write
    server_read_ssh_id cookie config server_id sshid = do
      (k, wb) ←
          server_write cookie config clear_pair
            (record {
              exchange = record new_exchange { client_id = sshid; server_id = server_id };
              algo = none;
              sent = false;
              session_id = none;
            })
            new
      ok (record {
        write_buffer = wb;
        kex = some (kex_init k);
        auth_user = [];
        cipher = clear_pair;
        encrypted = none;
        wants_reply = false;
        disconnected = false;
        buffer = [];
      })

    -- The state before the first round, with what has been written: the line of the server and its
    -- first packet.
    unfoldable pub begin :
        {H : Type 0}
        → ((ℕ → ℕ) → Option Bytes → CommonSession → Outcome CommonSession)
        → (ℕ → ℕ)
        → Option Bytes
        → KexConfig
        → Bytes
        → Option (List Bytes)
        → H
        → Outcome (Running H)
    unfolding server_read_ssh_id send_ssh_id
    begin flush clock cookie config server_id reads h = do
      chunks ← try_foreign reads
      sshid ← read_ssh_id chunks []
      s ← server_read_ssh_id cookie config server_id (line sshid)
      s' ← flush clock cookie s
      ok (record {
        session = record s' { write_buffer = record s'.write_buffer { buffer = [] } };
        handler = h;
        data_queue = [];
        extended_data_queue = [];
        buffer = new;
        written = (send_ssh_id server_id new).buffer ++ s'.write_buffer.buffer;
      })

    -- The reads of the line of the client are none where `connection_timeout` passes before.
    unfoldable pub run_stream :
        {H : Type 0}
        → (World → CommonSession → H → Bytes → Outcome (CommonSession × H))
        → ((ℕ → ℕ) → Option Bytes → CommonSession → Outcome CommonSession)
        → (ℕ → ℕ)
        → Option Bytes
        → KexConfig
        → Bytes
        → Option (List Bytes)
        → H
        → List Round
        → Outcome (Progress (Running H))
    unfolding begin server_loop
    run_stream reply flush clock cookie config server_id reads h rounds =
        begin flush clock cookie config server_id reads h >>= λ r. server_loop reply flush rounds r
