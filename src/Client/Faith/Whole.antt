-- ===== src/Client/Faith/Whole.antt =====
-- That a client has keys only for a server key that its handler accepted, over the rounds of a whole
-- connection of src/client/mod.rs.
use thrussh_fork.Base.{
  settled, ◌≡◌, ◌≢◌, refl, false, ◌⊎◌, inl, inr, none, some, List, [], ◌∷◌, ◌++◌, Bytes, Outcome,
  ok, ◌>>=◌,
}
use thrussh_fork.Base.Every.{Every, Every-bind, Every-map, Every-then, Every-given}
use thrussh_fork.Wire.{Encoding}
use thrussh_fork.Cipher.Keys.{Sodium, clear_pair}
use thrussh_fork.Cipher.Packet.{ReadResult, new, send_ssh_id}
use thrussh_fork.Key.{KeyCrate}
use thrussh_fork.Dh.Algorithm.{Curve}
use thrussh_fork.Ident.{read_ssh_id, line}
use thrussh_fork.Session.State.{CommonSession, KexInit, new_exchange}
use thrussh_fork.Rounds.{Turn, turned, turn_of, Progress, waiting, latest}
use thrussh_fork.Rounds.Blame.{blame}
use thrussh_fork.Server.Loop.{Packet, ending, ignored, payload, inspect}
use thrussh_fork.Client.State.{Session, Config, World, Handler}
use thrussh_fork.Client.Kex.{client_write, client_read_ssh_id}
use thrussh_fork.Client.Reply.{flush_session, client_reply}
use thrussh_fork.Client.Loop.{
  Running, Input, packet, message, on_client_msg, finish_client_round, on_client_packet,
  client_round,
}
use thrussh_fork.Client.Connection.{
  ClientRound, hearing, connecting, client_loop, open_connection, connect_stream,
}
use thrussh_fork.Client.Unkeyed.{Unkeyed, on_client_msg-Unkeyed}
use thrussh_fork.Client.Faith.{Trusts, Faithful, flush-Unkeyed, client_reply-Faithful}

module _ ⦃e : Encoding⦄ ⦃c : Sodium⦄ ⦃k : Curve⦄ ⦃ks : KeyCrate⦄ {H : Type 0} (handler : Handler H)
    (config : Config) where
  abbrev pub reply : World → Session → H → Bytes → Outcome (Session × H)
  reply w s h buf = client_reply handler config w s h buf

  abbrev pub flushed : World → CommonSession → Outcome CommonSession
  flushed w s = flush_session handler config w s

  abbrev pub Fresh : Running H → Type 0
  Fresh r = Unkeyed r.session.common

  -- The round `x` on `r` brings a packet while the exchange waits for the reply of the server, and
  -- the handler accepts a key that has signed the exchange.
  abbrev pub Convinces : Running H → ClientRound → Type 0
  Convinces r x =
      (given : ReadResult) × (buf : Bytes) × (x.input ≡ packet given)
      × (inspect given.buf.buffer ≡ ok (payload buf))
      × Trusts handler r.session.common r.handler

  finished-Fresh :
      (w : World) (f : Session → H → Bytes → Outcome (Session × H)) (r : Running H)
      → Fresh r
      → Every Fresh (finish_client_round config f (flushed w) r)
  unfolding finish_client_round
  finished-Fresh w f r u = Every-bind Fresh (flushed w r.session.common) _ (
      Every-map Unkeyed _ (flushed w r.session.common) (λ s u'. u')
        (flush-Unkeyed handler config w r.session.common u))

  abbrev Known : ClientRound → Running H → Turn (Running H) → Type 0
  Known x r t = Fresh (turn_of t) ⊎ Convinces r x

  packet-Known :
      (x : ClientRound) (r : Running H) (given : ReadResult) (p : Packet)
      → Fresh r
      → x.input ≡ packet given
      → inspect given.buf.buffer ≡ ok p
      → Every (Known x r) (
          on_client_packet config
            (reply x.world)
            (flushed x.flush_world)
            p
            (record r { buffer = given.buf }))
  unfolding on_client_packet
  packet-Known x r given ending u came read = inl u
  packet-Known x r given ignored u came read = inl u
  packet-Known x r given (payload buf) u came read =
      Every-bind (Known x r) (reply x.world r.session r.handler buf) _ (
        Every-map (Faithful handler config x.world r.session.common r.handler) _
          (reply x.world r.session r.handler buf) by_reply
          (client_reply-Faithful handler config x.world r.session r.handler buf u))
    where
      after : Session × H → Running H
      after a = record r { buffer = given.buf; session = a.0; handler = a.1 }

      by_reply :
          (a : Session × H)
          → Faithful handler config x.world r.session.common r.handler a
          → Every (Known x r) (
              finish_client_round config (reply x.world) (flushed x.flush_world) (after a) >>= λ r'.
              ok (turned r'))
      by_reply a (inr trusts) =
          Every-then (Known x r)
            (finish_client_round config (reply x.world) (flushed x.flush_world) (after a)) _
            (λ r'. inr (given, buf, came, read, trusts))
      by_reply a (inl fresh) =
          Every-bind (Known x r)
            (finish_client_round config (reply x.world) (flushed x.flush_world) (after a)) _
            (Every-map Fresh _
              (finish_client_round config (reply x.world) (flushed x.flush_world) (after a))
              (λ r' u'. inl u') (finished-Fresh x.flush_world (reply x.world) (after a) fresh))

  round-Known :
      (i : Input) (x : ClientRound) (r : Running H)
      → Fresh r
      → x.input ≡ i
      → Every (Known x r) (client_round config (reply x.world) (flushed x.flush_world) i r)
  unfolding client_round
  round-Known (packet given) x r u came = Every-then (Known x r) (settled given.result) _ (λ _.
      Every-given (Known x r) (inspect given.buf.buffer) _
        (λ p read. packet-Known x r given p u came read))
  round-Known (message none) x r u came = inl u
  round-Known (message (some m)) x r u came =
      Every-bind (Known x r) (on_client_msg config m r.session) _ (
        Every-map (λ (s : Session). Unkeyed s.common) _ (on_client_msg config m r.session)
          (λ s u'.
            Every-bind (Known x r)
              (finish_client_round config (reply x.world) (flushed x.flush_world)
                (record r { session = s }))
              _
              (Every-map Fresh _
                (finish_client_round config (reply x.world) (flushed x.flush_world)
                  (record r { session = s }))
                (λ r' u''. inl u'')
                (finished-Fresh x.flush_world (reply x.world) (record r { session = s }) u')))
          (on_client_msg-Unkeyed config m r.session u))

  module _ (w : World) (reads : List Bytes) (h : H) where
    begun :
        (server_id : Bytes)
        → Every Unkeyed (
            client_read_ssh_id w.cookie config.preferred config.client_id server_id
              (connecting (send_ssh_id config.client_id new)))
    unfolding client_read_ssh_id
    begun server_id =
        Every-then Unkeyed
          (client_write w.cookie config.preferred clear_pair first
            (record (send_ssh_id config.client_id new) { buffer = [] }))
          _ (λ r. (refl, tt))
      where
        first : KexInit
        first = record {
          exchange = record new_exchange { server_id = server_id; client_id = config.client_id };
          algo = none;
          sent = false;
          session_id = none;
        }

    open_connection-Fresh : Every Fresh (open_connection config flushed w reads h)
    unfolding open_connection
    open_connection-Fresh = Every-then Fresh (read_ssh_id reads []) _ (λ sshid.
        Every-bind Fresh
          (client_read_ssh_id w.cookie config.preferred config.client_id (line sshid)
            (connecting (send_ssh_id config.client_id new)))
          _
          (Every-map Unkeyed _
            (client_read_ssh_id w.cookie config.preferred config.client_id (line sshid)
              (connecting (send_ssh_id config.client_id new)))
            (λ s u. Every-bind Fresh (flushed w s) _ (
              Every-map Unkeyed _ (flushed w s) (λ s' u'. u') (flush-Unkeyed handler config w s u)))
            (begun (line sshid))))

    -- Where the client of a connection has keys after some rounds of the loop, from the
    -- identification line on, one of these rounds has brought a packet to the loop that the rounds
    -- before have left waiting, and at the packet the exchange waited for the reply of the server,
    -- the handler of that state accepts a public key, and a signature verifies by this key over the
    -- exchange hash that the client computes of its own side of the exchange and some point: no
    -- message of a handle and no other packet leads to keys.
    pub connect_stream-Convinces :
        (rounds : List ClientRound) (p : Progress (Running H))
        → connect_stream config reply flushed w reads h rounds ≡ ok p
        → (latest p).session.common.encrypted ≢ none
        → (before after : List ClientRound) × (x : ClientRound) × (r : Running H) × (rounds
            ≡ before ++ (x ∷ after))
          × (connect_stream config reply flushed w reads h before ≡ ok (waiting r))
          × Convinces r x
    unfolding connect_stream client_loop
    connect_stream-Convinces rounds p ran keyed =
        blame
          (λ x r.
            client_round config (reply x.world) (flushed x.flush_world) x.input
              (hearing x.queued r))
          (λ r. r.session.common.disconnected) Fresh Convinces
          (λ x r u. round-Known x.input x (hearing x.queued r) u refl)
          (open_connection config flushed w reads h) rounds p open_connection-Fresh ran
          (λ u. keyed u.0)
