-- ===== src/Server/Admission.antt =====
-- Who is let in by a round of the loop of src/server/mod.rs.
pub mod Whole
use mathlib.Core.Path.{sym}
use thrussh_fork.Base.{
  ℕ, ◌≡◌, ◌≢◌, refl, ap, ◌∙◌, Bool, true, false, ◌⊎◌, inl, inr, Option, none, some, List, [], ◌∷◌,
  ◌++◌, Bytes, if◌then◌else◌, Outcome, ok, ◌>>=◌, settled,
}
use thrussh_fork.Base.Every.{
  Every, Every-bind, Every-ok, Every-map, Every-given, Every-then, Every-try, Every-returned,
}
use thrussh_fork.Protocol.Names.{
  ChannelMsg, data_msg, extended_data_msg, eof, xon_xoff, exit_status, exit_signal,
}
use thrussh_fork.Wire.{Encoding}
use thrussh_fork.Cipher.Packet.{ReadResult}
use thrussh_fork.Cipher.Keys.{Sodium}
use thrussh_fork.Session.State.{
  EncryptedState, CommonSession, authenticated, waiting_auth_request, waiting_service_request,
}
use thrussh_fork.Server.Login.{Keys, Handler}
use thrussh_fork.Server.Reply.{World}
use thrussh_fork.Rounds.{Turn, leave, skip, turned, turn_of}
use thrussh_fork.Server.Loop.{
  Running, Input, packet, timeout, message, Packet, ending, ignored, payload, inspect, on_message,
  enqueue, drain, drain_extended, finish_round, on_packet, server_round,
}
use thrussh_fork.Server.Connection.{Round}
use thrussh_fork.Server.Stage.{state_of, Kept, Kept-trans, on_message-Kept}
use thrussh_fork.Server.Stage.Rounds.{enqueue_kept, finish_round-Kept}
use thrussh_fork.Server.Entry.{IsOut, Entered, LetsIn}

pub out_cases : (o : Option EncryptedState) → (o ≡ some authenticated) ⊎ (o ≢ some authenticated)
out_cases none = inr cc
out_cases (some authenticated) = inl refl
out_cases (some (waiting_auth_request a)) = inr cc
out_cases (some (waiting_service_request a)) = inr cc

module _ ⦃e : Encoding⦄ ⦃c : Sodium⦄ {Key H : Type 0} (keys : Keys Key) (handler : Handler Key H)
    (reply : World → CommonSession → H → Bytes → Outcome (CommonSession × H))
    (flush : (ℕ → ℕ) → Option Bytes → CommonSession → Outcome CommonSession) where
  abbrev pub IsAuthenticated : Running H → Type 0
  IsAuthenticated r = state_of r.session.encrypted ≡ some authenticated

  -- The round `x` on `r` brings a packet whose reply lets in the user whom the session then names.
  abbrev pub Admits : Running H → Round → Type 0
  Admits r x =
      (given : ReadResult) × (buf : Bytes) × (s : CommonSession) × (h : H) × (x.input
        ≡ packet given)
      × (inspect given.buf.buffer ≡ ok (payload buf))
      × (reply x.world r.session r.handler buf ≡ ok (s, h))
      × Entered keys handler r.session r.handler s

  module _
      (lets_in : (w : World) (s : CommonSession) (h : H) (buf : Bytes)
        → IsOut s
        → Every (LetsIn keys handler s h) (reply w s h buf))
      (keeps : (clock : ℕ → ℕ) (cookie : Option Bytes) (s : CommonSession)
        → Every (Kept s) (flush clock cookie s)) where
    -- Why a round that begins with `x.input` lets somebody in, if it does.
    abbrev pub Explained : Round → Running H → Turn (Running H) → Type 0
    Explained x r t = IsAuthenticated (turn_of t) → Admits r x

    payload-Explained :
        (x : Round) (r : Running H) (given : ReadResult) (buf : Bytes)
        → IsOut r.session
        → x.input ≡ packet given
        → inspect given.buf.buffer ≡ ok (payload buf)
        → Every (Explained x r) (
            on_packet
              (reply x.world)
              (flush x.clock x.cookie)
              (payload buf)
              (record r { buffer = given.buf }))
    unfolding on_packet
    payload-Explained x r given buf out came read =
        Every-given (Explained x r) (reply x.world r.session r.handler buf) _ (λ a replied.
          Every-bind (Explained x r)
            (finish_round (reply x.world) (flush x.clock x.cookie) (after a)) _
            (Every-map (λ (r' : Running H). Kept a.0 r'.session) _
              (finish_round (reply x.world) (flush x.clock x.cookie) (after a))
              (λ r' kept done. (
                given,
                buf,
                a.0,
                a.1,
                came,
                read,
                replied,
                Every-ok (LetsIn keys handler r.session r.handler)
                    (reply x.world r.session r.handler buf) replied
                    (lets_in x.world r.session r.handler buf out) (sym kept.0 ∙ done),
              ))
              (finish_round-Kept (reply x.world) (flush x.clock x.cookie) (keeps x.clock x.cookie)
                (after a))))
      where
        after : CommonSession × H → Running H
        after a = record r { buffer = given.buf; session = a.0; handler = a.1 }

    pub round-Explained :
        (i : Input) (x : Round) (r : Running H)
        → IsOut r.session
        → x.input ≡ i
        → Every (Explained x r) (server_round (reply x.world) (flush x.clock x.cookie) i r)
    unfolding server_round on_packet
    round-Explained (packet given) x r out came =
        Every-then (Explained x r) (settled given.result) _ (λ _.
          Every-given (Explained x r) (inspect given.buf.buffer) _ (λ p read. by_packet p read))
      where
        by_packet :
            (p : Packet)
            → inspect given.buf.buffer ≡ ok p
            → Every (Explained x r) (
                on_packet
                  (reply x.world)
                  (flush x.clock x.cookie)
                  p
                  (record r { buffer = given.buf }))
        by_packet ending read = λ done. absurd (out done)
        by_packet ignored read = λ done. absurd (out done)
        by_packet (payload buf) read = payload-Explained x r given buf out came read
    round-Explained timeout x r out came = λ done. absurd (out done)
    round-Explained (message m) x r out came =
        Every-bind (Explained x r) (on_message m r.session) _ (
          Every-map (Kept r.session) _ (on_message m r.session)
            (λ s kept.
              Every-bind (Explained x r)
                (finish_round (reply x.world) (flush x.clock x.cookie)
                  (enqueue m (record r { session = s })))
                _
                (Every-map _ _
                  (finish_round (reply x.world) (flush x.clock x.cookie)
                    (enqueue m (record r { session = s })))
                  (λ r' kept' done. absurd (
                    out (
                      sym kept.0 ∙ enqueue_kept m (record r { session = s }) ∙ sym kept'.0 ∙ done)))
                  (finish_round-Kept (reply x.world) (flush x.clock x.cookie)
                    (keeps x.clock x.cookie) (enqueue m (record r { session = s })))))
            (on_message-Kept m r.session))

    pub round-Admits :
        (x : Round) (r : Running H)
        → IsOut r.session
        → Every
            (λ (t : Turn (Running H)). IsOut (turn_of t).session ⊎ Admits r x)
            (server_round (reply x.world) (flush x.clock x.cookie) x.input r)
    round-Admits x r out =
        Every-map (Explained x r) (λ (t : Turn (Running H)). IsOut (turn_of t).session ⊎ Admits r x)
          (server_round (reply x.world) (flush x.clock x.cookie) x.input r)
          (λ t why. elim (out_cases (state_of (turn_of t).session.encrypted)) [
            | inl in_now ↦ inr (why in_now)
            | inr still ↦ inl still
          ])
          (round-Explained x.input x r out refl)
