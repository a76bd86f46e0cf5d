-- ===== src/Server/Refused/Rounds.antt =====
-- That a server that keeps the default methods of src/server/mod.rs lets nobody in, over whole
-- connections.
use mathlib.Core.Path.{sym, subst}
use thrussh_fork.Base.{settled, ℕ, ◌≡◌, Bool, ◌⊎◌, inl, inr, Option, none, List, Bytes, Outcome, ok}
use thrussh_fork.Base.Every.{Every, Every-bind, Every-map, Every-then, Every-ok}
use thrussh_fork.Wire.{Encoding}
use thrussh_fork.Cipher.Keys.{Sodium}
use thrussh_fork.Key.{KeyPair, KeyCrate}
use thrussh_fork.Dh.Algorithm.{Curve}
use thrussh_fork.Session.State.{CommonSession, Limits}
use thrussh_fork.Rounds.{Turn, turn_of, Progress, latest}
use thrussh_fork.Rounds.Blame.{CausedFrom, from_start}
use thrussh_fork.Server.Login.{Keys}
use thrussh_fork.Server.Encrypted.{LoginConfig}
use thrussh_fork.Server.Flush.{server_flush}
use thrussh_fork.Server.Reply.{World, server_reply}
use thrussh_fork.Server.Loop.{
  Running, Input, packet, timeout, message, Packet, ending, ignored, payload, inspect, on_message,
  enqueue, finish_round, on_packet, server_round,
}
use thrussh_fork.Server.Connection.{Round, server_loop, begin, run_stream}
use thrussh_fork.Server.Beginning.{begin_keyless}
use thrussh_fork.Server.Defaults.{default_login}
use thrussh_fork.Server.Stage.{state_of, Kept, on_message-Kept}
use thrussh_fork.Server.Stage.Rounds.{enqueue_kept, finish_round-Kept, server_flush-Kept}
use thrussh_fork.Server.Refusal.{Shut}
use thrussh_fork.Server.Refused.{IsShut, still_shut, server_reply-After}

module _ ⦃e : Encoding⦄ ⦃c : Sodium⦄ {Key H : Type 0} (keys : Keys Key)
    (next : CommonSession → H → Bytes → Outcome (CommonSession × H)) (config : LoginConfig)
    ⦃k : Curve⦄ ⦃ks : KeyCrate⦄ (host_keys : List KeyPair) (limits : Limits) where
  abbrev pub reply : World → CommonSession → H → Bytes → Outcome (CommonSession × H)
  reply w s h buf = server_reply host_keys keys default_login next config w s h buf

  abbrev pub flushed : (ℕ → ℕ) → Option Bytes → CommonSession → Outcome CommonSession
  flushed clock cookie s = server_flush clock cookie limits config.key_exchange s

  abbrev pub ShutTurn : Turn (Running H) → Type 0
  ShutTurn t = IsShut (turn_of t).session

  finished :
      (x : Round) (r : Running H)
      → IsShut r.session
      → Every
          (λ (r' : Running H). IsShut r'.session)
          (finish_round (reply x.world) (flushed x.clock x.cookie) r)
  finished x r shut =
      Every-map _ _ (finish_round (reply x.world) (flushed x.clock x.cookie) r)
        (λ r' kept. still_shut r.session r'.session shut kept)
        (finish_round-Kept (reply x.world) (flushed x.clock x.cookie)
          (λ s. server_flush-Kept x.clock x.cookie limits config.key_exchange s) r)

  packet_Shut :
      (x : Round) (p : Packet) (r : Running H)
      → IsShut r.session
      → Every ShutTurn (on_packet (reply x.world) (flushed x.clock x.cookie) p r)
  unfolding on_packet
  packet_Shut x ending r shut = shut
  packet_Shut x ignored r shut = shut
  packet_Shut x (payload buf) r shut =
      Every-bind ShutTurn (reply x.world r.session r.handler buf) _ (
        Every-map (λ (a : CommonSession × H). IsShut a.0) _ (reply x.world r.session r.handler buf)
          (λ a shut'.
            Every-bind ShutTurn
              (finish_round (reply x.world) (flushed x.clock x.cookie)
                (record r { session = a.0; handler = a.1 }))
              _ (finished x (record r { session = a.0; handler = a.1 }) shut'))
          (server_reply-After keys next config host_keys x.world r.session r.handler buf shut))

  round_Shut :
      (x : Round) (i : Input) (r : Running H)
      → IsShut r.session
      → Every ShutTurn (server_round (reply x.world) (flushed x.clock x.cookie) i r)
  unfolding server_round
  round_Shut x (packet given) r shut = Every-then ShutTurn (settled given.result) _ (λ _.
      Every-then ShutTurn (inspect given.buf.buffer) _
        (λ p. packet_Shut x p (record r { buffer = given.buf }) shut))
  round_Shut x timeout r shut = shut
  round_Shut x (message m) r shut = Every-bind ShutTurn (on_message m r.session) _ (
      Every-map (Kept r.session) _ (on_message m r.session)
        (λ s kept.
          let r' = enqueue m (record r { session = s }) in
          Every-bind ShutTurn (finish_round (reply x.world) (flushed x.clock x.cookie) r') _ (
            finished x r' (
              subst Shut (enqueue_kept m (record r { session = s }))
                (still_shut r.session s shut kept))))
        (on_message-Kept m r.session))

  -- With the methods that a handler has by default for the requests to authenticate, no client of a
  -- connection is ever authenticated, from the identification line on, whatever the rounds of the
  -- loop bring and whatever is done with the packets of authenticated clients: while the connection
  -- does not fail, the client has no keys yet, or waits for a service, or for a request without a
  -- key that was probed with success.
  pub run_stream-IsShut :
      (clock : ℕ → ℕ) (cookie : Option Bytes) (server_id : Bytes) (reads : Option (List Bytes))
      (h : H) (rounds : List Round) (p : Progress (Running H))
      → run_stream reply flushed clock cookie config.key_exchange server_id reads h rounds ≡ ok p
      → IsShut (latest p).session
  unfolding run_stream server_loop
  run_stream-IsShut clock cookie server_id reads h rounds p ran = nobody (
      Every-ok
        (λ (q : Progress (Running H)).
          IsShut (latest q).session ⊎ CausedFrom turn is_over IsShut' Never started rounds)
        (run_stream reply flushed clock cookie config.key_exchange server_id reads h rounds) ran
        (from_start turn is_over IsShut' Never
          (λ x r shut.
            Every-map ShutTurn _ (turn x r) (λ t shut'. inl shut') (round_Shut x x.input r shut))
          started rounds
          (Every-map (λ (r : Running H). state_of r.session.encrypted ≡ none) _ started
            (λ r keyless. subst Shut (sym keyless) tt)
            (begin_keyless flushed
              (λ clock' cookie' s. server_flush-Kept clock' cookie' limits config.key_exchange s)
              clock cookie config.key_exchange server_id reads h))))
    where
      turn : Round → Running H → Outcome (Turn (Running H))
      turn x = server_round (reply x.world) (flushed x.clock x.cookie) x.input

      is_over : Running H → Bool
      is_over r = r.session.disconnected

      IsShut' : Running H → Type 0
      IsShut' r = IsShut r.session

      Never : Running H → Round → Type 0
      Never r x = ⊥

      started : Outcome (Running H)
      started = begin flushed clock cookie config.key_exchange server_id reads h

      nobody :
          IsShut (latest p).session ⊎ CausedFrom turn is_over IsShut' Never started rounds
          → IsShut (latest p).session
      nobody (inl shut) = shut
      nobody (inr (before, after, x, r, eq, ran', never)) = absurd never
