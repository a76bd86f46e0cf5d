-- ===== src/Server/Entry.antt =====
-- That `reply` of src/server/mod.rs lets nobody in without a reason, whatever the state of the key
-- exchange.
use mathlib.Core.Path.{sym}
use thrussh_fork.Base.{
  ◌≡◌, ◌≢◌, refl, ap, ◌∙◌, false, not, ◌||◌, Option, none, some, List, Bytes, get_elem?, ◌==◌,
  Outcome, ok, ◌>>=◌, unwrap,
}
use thrussh_fork.Base.Every.{Every, Every-bind, Every-then, Every-if, Every-map, Every-returned}
use thrussh_fork.Protocol.Msg
use thrussh_fork.Wire.{Encoding}
use thrussh_fork.Cipher.Keys.{Sodium}
use thrussh_fork.Auth.Methods.{AuthRequest}
use thrussh_fork.Negotiation.Select.{select_server}
use thrussh_fork.Negotiation.ReadKex.{read_kex}
use thrussh_fork.Session.State.{
  Exchange, Kex, kex_init, kex_dh, kex_dh_done, new_keys, NewKeys, Encrypted, EncryptedState,
  CommonSession, waiting_service_request, waiting_auth_request, authenticated, received_rekey,
}
use thrussh_fork.Session.Channels.{encrypted}
use thrussh_fork.Key.{KeyPair, KeyCrate}
use thrussh_fork.Dh.Algorithm.{Curve}
use thrussh_fork.Server.Kex.{KexConfig, server_parse, server_rekey}
use thrussh_fork.Server.Exchange.{kex_dh_parse}
use thrussh_fork.Server.Login.{Keys, Handler}
use thrussh_fork.Server.Encrypted.{LoginConfig, server_read_encrypted}
use thrussh_fork.Server.Granted.{Granted}
use thrussh_fork.Server.Guarded.{server_read_encrypted-Granted}
use thrussh_fork.Server.Reply.{World, is_some, no_kex, reply_in, server_reply}
use thrussh_fork.Server.Stage.{state_of, Kept, stored}

-- The client is not authenticated.
abbrev pub IsOut : CommonSession → Type 0
IsOut s = state_of s.encrypted ≢ some authenticated

of_state :
    (o : Option Encrypted)
    → state_of o ≡ some authenticated
    → (enc : Encrypted) × (o ≡ some enc) × (enc.state ≡ authenticated)
of_state none eq = absurd cc
of_state (some enc) eq = (enc, refl, cc)

module _ ⦃e : Encoding⦄ ⦃c : Sodium⦄ where
  pub server_rekey-Kept :
      (cookie : Option Bytes) (config : KexConfig) (s : CommonSession) (enc : Encrypted)
      (buf : Bytes)
      → s.encrypted ≡ some enc
      → Every (Kept s) (server_rekey cookie config s enc buf)
  unfolding server_rekey
  server_rekey-Kept cookie config s enc buf he = at enc.exchange
    where
      at :
          (o : Option Exchange)
          → Every (Kept s) (elim o [
            | none ↦ ok s
            | some exchange ↦ read_kex select_server buf config.preferred >>= λ names.
                server_parse cookie config s.cipher buf
                  (received_rekey exchange names enc.session_id)
                  s.write_buffer
                >>= λ r. ok (record s {
                  kex = some r.0;
                  encrypted = some (record enc { exchange = none });
                  write_buffer = r.1;
                })
          ])
      at none = (refl, refl)
      at (some exchange) =
          Every-then (Kept s) (read_kex select_server buf config.preferred) _ (λ names.
            Every-then (Kept s)
              (server_parse cookie config s.cipher buf
                (received_rekey exchange names enc.session_id) s.write_buffer)
              _ (λ r. (stored s enc enc he refl, refl)))

module _ ⦃e : Encoding⦄ ⦃c : Sodium⦄ {Key H : Type 0} (keys : Keys Key)
    (handler : Handler Key H) where
  -- Why a packet lets the user in whom the session `s'` names: the session `s` before it waits for a
  -- request, and there is a reason for the user.
  abbrev pub Entered : CommonSession → H → CommonSession → Type 0
  Entered s h s' =
      (enc : Encrypted) × (auth : AuthRequest) × (s.encrypted ≡ some enc)
      × (enc.state ≡ waiting_auth_request auth)
      × Granted keys handler enc auth s.auth_user h s'.auth_user

  abbrev pub LetsIn : CommonSession → H → CommonSession × H → Type 0
  LetsIn s h r = state_of r.0.encrypted ≡ some authenticated → Entered s h r.0

  kept_out :
      (s : CommonSession) (h : H) (r : CommonSession × H)
      → IsOut s
      → state_of r.0.encrypted ≡ state_of s.encrypted
      → LetsIn s h r
  kept_out s h r out same = λ done. absurd (out (sym same ∙ done))

  module _ (next : CommonSession → H → Bytes → Outcome (CommonSession × H))
      (config : LoginConfig) where
    read-LetsIn :
        (cookie : Option Bytes) (s : CommonSession) (h : H) (buf : Bytes)
        → IsOut s
        → Every (LetsIn s h) (server_read_encrypted handler keys next cookie config s h buf)
    unfolding server_read_encrypted
    read-LetsIn cookie s h buf out = at s.encrypted refl
      where
        at :
            (o : Option Encrypted)
            → s.encrypted ≡ o
            → Every (LetsIn s h) (server_read_encrypted handler keys next cookie config s h buf)
        at none he = rw (he, server_read_encrypted) tt
        at (some enc) he =
            Every-returned (LetsIn s h)
              (server_read_encrypted handler keys next cookie config s h buf)
              (λ r given done.
                let (enc', he', let_in) = of_state r.0.encrypted done in
                let (auth, waits, why) =
                  server_read_encrypted-Granted keys handler next cookie config s r.0 h r.1 buf enc
                    enc' he (λ q. out (ap state_of he ∙ ap (λ (x : EncryptedState). some x) q))
                    given he' let_in in
                (enc, auth, he, waits, why))

    module _ ⦃k : Curve⦄ ⦃ks : KeyCrate⦄ (host_keys : List KeyPair) (w : World) where
      no_kex-LetsIn :
          (s : CommonSession) (h : H) (buf : Bytes)
          → IsOut s
          → Every (LetsIn s h) (no_kex host_keys keys handler next config w s h buf)
      unfolding no_kex
      no_kex-LetsIn s h buf out = Every-then (LetsIn s h) (unwrap (get_elem? buf 0)) _ (λ first.
          Every-if (LetsIn s h) (first == Msg.kexinit) _ _ (λ _. at s.encrypted refl)
            (λ _. read-LetsIn w.cookie s h buf out))
        where
          at :
              (o : Option Encrypted)
              → s.encrypted ≡ o
              → Every (LetsIn s h) (elim o [
                | none ↦ ok (s, h)
                | some enc ↦
                    server_rekey w.cookie config.key_exchange s enc buf >>= λ (s' : CommonSession).
                    ok (s', h)
              ])
          at none he = kept_out s h (s, h) out refl
          at (some enc) he =
              Every-bind (LetsIn s h) (server_rekey w.cookie config.key_exchange s enc buf) _ (
                Every-map (Kept s) _ (server_rekey w.cookie config.key_exchange s enc buf)
                  (λ s' same. kept_out s h (s', h) out same.0)
                  (server_rekey-Kept w.cookie config.key_exchange s enc buf he))

      new_keys-LetsIn :
          (s : CommonSession) (h : H) (n : NewKeys)
          → IsOut s
          → LetsIn s h (encrypted s (waiting_service_request false) n w.now, h)
      unfolding encrypted
      new_keys-LetsIn s h n out = at s.encrypted refl
        where
          at :
              (o : Option Encrypted)
              → s.encrypted ≡ o
              → LetsIn s h (encrypted s (waiting_service_request false) n w.now, h)
          at none he = rw (he, encrypted) (λ done. absurd (cc done))
          at (some enc) he = rw (he, encrypted) (λ done. absurd (out (ap state_of he ∙ done)))

      reply_in-LetsIn :
          (o : Option Kex) (s : CommonSession) (h : H) (buf : Bytes)
          → IsOut s
          → Every (LetsIn s h) (reply_in host_keys keys handler next config w o s h buf)
      unfolding reply_in
      reply_in-LetsIn none s h buf out = no_kex-LetsIn s h buf out
      reply_in-LetsIn (some (kex_init i)) s h buf out =
          Every-then (LetsIn s h) (unwrap (get_elem? buf 0)) _ (λ first.
            Every-if (LetsIn s h)
              (is_some i.algo || first == Msg.kexinit || not (is_some s.encrypted)) _ _
              (λ _.
                Every-then (LetsIn s h)
                  (server_parse w.cookie config.key_exchange s.cipher buf i s.write_buffer) _
                  (λ r done. absurd (out done)))
              (λ _. no_kex-LetsIn s h buf out))
      reply_in-LetsIn (some (kex_dh d)) s h buf out =
          Every-then (LetsIn s h) (kex_dh_parse w.secret host_keys s.cipher buf d s.write_buffer) _
            (λ r done. absurd (out done))
      reply_in-LetsIn (some (new_keys n)) s h buf out =
          Every-then (LetsIn s h) (unwrap (get_elem? buf 0)) _ (λ first.
            Every-if (LetsIn s h) (first == Msg.newkeys) _ _ (λ _. new_keys-LetsIn s h n out)
              (λ _. tt))
      reply_in-LetsIn (some (kex_dh_done d)) s h buf out = λ done. absurd (out done)

      pub server_reply-LetsIn :
          (s : CommonSession) (h : H) (buf : Bytes)
          → IsOut s
          → Every (LetsIn s h) (server_reply host_keys keys handler next config w s h buf)
      unfolding server_reply
      server_reply-LetsIn s h buf out = reply_in-LetsIn s.kex (record s { kex = none }) h buf out
