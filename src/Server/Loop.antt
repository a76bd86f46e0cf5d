-- ===== src/Server/Loop.antt =====
-- One round of the loop of `run_stream`, src/server/mod.rs. What `tokio::select!` has chosen is an
-- argument, and what is written to the stream is a part of the state.
use thrussh_fork.Base.{
  ℕ, Option, none, some, List, [], ◌∷◌, ◌++◌, Bytes, length, drop, get_elem?, ltb, leb, ◌==◌,
  if◌then◌else◌, Outcome, ok, ◌>>=◌, ◌>>◌, unwrap, settled,
}
use thrussh_fork.Protocol.Msg
use thrussh_fork.Protocol.Names.{
  ChannelMsg, data_msg, extended_data_msg, eof, xon_xoff, exit_status, exit_signal,
}
use thrussh_fork.Wire.{Encoding}
use thrussh_fork.Cipher.Packet.{SshBuffer, ReadResult}
use thrussh_fork.Session.State.{CommonSession}
use thrussh_fork.Rounds.{Turn, leave, skip, turned}
use thrussh_fork.Server.Senders.{
  data_on, extended_data_on, eof_channel, xon_xoff_request, exit_status_request,
  exit_signal_request,
}

pub record Running (H : Type 0) : Type 0 where
  pub session : CommonSession
  pub handler : H
  pub data_queue : List (ℕ × Bytes)
  pub extended_data_queue : List (ℕ × ℕ × Bytes)
  pub buffer : SshBuffer
  pub written : Bytes

-- What a round begins with: `cipher::read` has ended, the time is out, or a message of a handle has
-- come (none when there are no handles any more).
pub data Input : Type 0 where
  packet : ReadResult → Input
  timeout : Input
  message : Option (ℕ × ChannelMsg) → Input

-- What the loops of both ends do with a packet before they reply to it.
pub data Packet : Type 0 where
  ending ignored : Packet
  payload : Bytes → Packet

-- The result of `cipher::read` is not looked at, unless it panics: only what it has left in the
-- buffer.
unfoldable pub inspect : Bytes → Outcome Packet
inspect buffer = if ltb (length buffer) 5 then ok ending else (do
  kind ← unwrap (get_elem? buffer 5)
  ok (
      if kind == Msg.disconnect
      then ending
      else if leb kind 4
      then ignored
      else payload (drop 5 buffer)))

module _ ⦃e : Encoding⦄ where
  unfoldable pub on_message : Option (ℕ × ChannelMsg) → CommonSession → Outcome CommonSession
  on_message none s = ok s
  on_message (some (id, data_msg given)) s = ok s
  on_message (some (id, extended_data_msg given ext)) s = ok s
  on_message (some (id, eof)) s = eof_channel s id
  on_message (some (id, xon_xoff client_can_do)) s = xon_xoff_request s id client_can_do
  on_message (some (id, exit_status status)) s = exit_status_request s id status
  on_message (some (id, exit_signal sig core_dumped error_message lang_tag)) s =
      exit_signal_request s id sig core_dumped error_message lang_tag

  -- Data is queued, and sent by the loops behind.
  abbrev pub enqueue : {H : Type 0} → Option (ℕ × ChannelMsg) → Running H → Running H
  enqueue (some (id, data_msg given)) r = record r {
    data_queue = r.data_queue ++ ((id, given) ∷ []);
  }
  enqueue (some (id, extended_data_msg given ext)) r = record r {
    extended_data_queue = r.extended_data_queue ++ ((id, ext, given) ∷ []);
  }
  enqueue m r = r

  -- `while let Some((id, data)) = data_queue.first()`: what could not be sent stays in front.
  unfoldable pub drain :
      CommonSession → List (ℕ × Bytes) → Outcome (CommonSession × List (ℕ × Bytes))
  drain s [] = ok (s, [])
  drain s ((id, given) ∷ queue) = data_on s id given >>= λ (r : CommonSession × ℕ).
      if r.1 == length given then drain r.0 queue else ok (r.0, (id, drop r.1 given) ∷ queue)

  unfoldable pub drain_extended :
      CommonSession → List (ℕ × ℕ × Bytes) → Outcome (CommonSession × List (ℕ × ℕ × Bytes))
  drain_extended s [] = ok (s, [])
  drain_extended s ((id, ext, given) ∷ queue) =
      extended_data_on s id ext given >>= λ (r : CommonSession × ℕ).
      if r.1 == length given
      then drain_extended r.0 queue
      else ok (r.0, (id, ext, drop r.1 given) ∷ queue)

  module _ {H : Type 0} (reply : CommonSession → H → Bytes → Outcome (CommonSession × H))
      (flush : CommonSession → Outcome CommonSession) where
    -- The queues, the flush and the writing at the end of a round.
    unfoldable pub finish_round : Running H → Outcome (Running H)
    unfolding drain drain_extended
    finish_round r = do
      (s1, data_queue) ← drain r.session r.data_queue
      (s2, extended_data_queue) ← drain_extended s1 r.extended_data_queue
      s3 ← flush s2
      ok (record {
        session = record s3 { write_buffer = record s3.write_buffer { buffer = [] } };
        handler = r.handler;
        data_queue = data_queue;
        extended_data_queue = extended_data_queue;
        buffer = record r.buffer { buffer = [] };
        written = r.written ++ s3.write_buffer.buffer;
      })

    unfoldable pub on_packet : Packet → Running H → Outcome (Turn (Running H))
    unfolding finish_round
    on_packet ending r = ok (leave r)
    on_packet ignored r = ok (skip r)
    on_packet (payload buf) r = do
      (s, h) ← reply r.session r.handler buf
      r' ← finish_round (record r { session = s; handler = h })
      ok (turned r')

    unfoldable pub server_round : Input → Running H → Outcome (Turn (Running H))
    unfolding on_packet on_message inspect
    server_round (packet given) r = do
      settled given.result
      p ← inspect given.buf.buffer
      on_packet p (record r { buffer = given.buf })
    server_round timeout r = ok (leave r)
    server_round (message m) r = do
      s ← on_message m r.session
      r' ← finish_round (enqueue m (record r { session = s }))
      ok (turned r')
