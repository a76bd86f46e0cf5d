-- ===== src/Client/Late.antt =====
-- A login that is asked for after the server has accepted the service, src/client/encrypted.rs.
use thrussh_fork.Base.{
  ℕ, ◌≡◌, ◌≢◌, refl, true, false, some, ◌∷◌, ◌++◌, Bytes, ◌==◌, Outcome, ok, none, settled, ◌<◌,
  err, inconsistent, arith,
}
use thrussh_fork.Protocol.Msg
use thrussh_fork.Wire.{Encoding}
use thrussh_fork.Wire.Frames.{frame, push_packet_lem}
use thrussh_fork.Cipher.Keys.{Sodium}
use thrussh_fork.Dh.Algorithm.{Curve}
use thrussh_fork.Key.{KeyCrate}
use thrussh_fork.Session.State.{CommonSession, Encrypted, waiting_service_request}
use thrussh_fork.Client.State.{Method, Session, Config, World, Handler}
use thrussh_fork.Client.Login.{
  auth_packet, write_auth_request, write_auth_request_if_needed, client_waiting_service,
}
use thrussh_fork.Client.Reply.{with_common, client_reply_in, client_reply}
use thrussh_fork.Client.Loop.{Running, packet, on_client_packet, client_round}
use thrussh_fork.Server.Tampered.{inspect_lem}
use thrussh_fork.Cipher.Packet.{ReadResult}
use thrussh_fork.Client.Messages.{client_in_state, client_read_encrypted}

module _ ⦃e : Encoding⦄ ⦃c : Sodium⦄ ⦃k : Curve⦄ ⦃ks : KeyCrate⦄ where
  -- The session after the request.
  abbrev pub asked : Session → Encrypted → Bytes → Method → Session
  asked s enc user meth = record s {
    common = record s.common {
      encrypted = some (record enc { write = enc.write ++ frame (auth_packet user meth) });
      auth_user = user;
    };
    auth_method = some meth;
  }

  asks :
      (s : Session) (enc : Encrypted) (user : Bytes) (meth : Method)
      → s.common.encrypted ≡ some enc
      → enc.state ≡ waiting_service_request true
      → write_auth_request_if_needed s user meth ≡ asked s enc user meth
  unfolding write_auth_request_if_needed write_auth_request
  asks s enc user meth keys waits = rw keys (rw (waits, push_packet_lem) refl)

  differ : (x y : ℕ) → x ≢ y → (x == y) ≡ false
  differ x y h = ground arith

  late_packet_fails :
      {H : Type 0} (handler : Handler H) (config : Config) (w : World) (s : Session)
      (enc : Encrypted) (h : H) (first : ℕ) (rest : Bytes)
      → s.common.encrypted ≡ some enc
      → enc.state ≡ waiting_service_request true
      → first ≢ Msg.kexinit
      → first ≢ Msg.service_accept
      → client_read_encrypted handler config w s h (first ∷ rest) ≡ err inconsistent
  unfolding client_read_encrypted client_in_state client_waiting_service
  late_packet_fails handler config w s enc h first rest keys waits other other' =
      simp (keys, differ first Msg.kexinit other, waits, differ first Msg.service_accept other')

  late_reply_fails :
      {H : Type 0} (handler : Handler H) (config : Config) (w : World) (s : Session)
      (enc : Encrypted) (h : H) (first : ℕ) (rest : Bytes)
      → s.common.kex ≡ none
      → s.common.encrypted ≡ some enc
      → enc.state ≡ waiting_service_request true
      → first ≢ Msg.kexinit
      → first ≢ Msg.service_accept
      → client_reply handler config w s h (first ∷ rest) ≡ err inconsistent
  unfolding client_reply client_reply_in
  late_reply_fails handler config w s enc h first rest idle keys waits other other' = rw idle (
      late_packet_fails handler config w (with_common s (record s.common { kex = none })) enc h
        first rest keys waits other other')

  -- On a client whose service was accepted before a login was asked for, and without a key exchange
  -- going on, a login writes the request but leaves the state as it is; a round of the loop that
  -- then brings a packet with a number above 4, other than a KEXINIT and another SERVICE_ACCEPT, so
  -- the success and the failure of the login as well, ends the connection with the error
  -- `Inconsistent`, where the reading of the packet did not panic.
  pub late_login_fails :
      {H : Type 0} (handler : Handler H) (config : Config) (w : World)
      (flush : CommonSession → Outcome CommonSession) (r : Running H) (enc : Encrypted)
      (user : Bytes) (meth : Method) (given : ReadResult) (x1 x2 x3 x4 x5 first : ℕ) (rest : Bytes)
      → r.session.common.kex ≡ none
      → r.session.common.encrypted ≡ some enc
      → enc.state ≡ waiting_service_request true
      → settled given.result ≡ ok tt
      → given.buf.buffer ≡ x1 ∷ x2 ∷ x3 ∷ x4 ∷ x5 ∷ first ∷ rest
      → 4 < first
      → first ≢ Msg.kexinit
      → first ≢ Msg.service_accept
      → (write_auth_request_if_needed r.session user meth ≡ asked r.session enc user meth)
        × (client_round config
              (λ s h buf. client_reply handler config w s h buf)
              flush
              (packet given)
              (record r { session = write_auth_request_if_needed r.session user meth })
            ≡ err inconsistent)
  unfolding client_round on_client_packet
  late_login_fails handler config w flush r enc user meth given x1 x2 x3 x4 x5 first rest idle keys
        waits settles held big other other' =
      (
        asks r.session enc user meth keys waits,
        rw
            (
              settles,
              held,
              inspect_lem (x1 ∷ x2 ∷ x3 ∷ x4 ∷ x5 ∷ first ∷ rest) first (omega arith) refl big,
              asks r.session enc user meth keys waits,
            )
            (rw
              (late_reply_fails handler config w (asked r.session enc user meth)
                (record enc { write = enc.write ++ frame (auth_packet user meth) }) r.handler first
                rest idle refl waits other other')
              refl),
      )
