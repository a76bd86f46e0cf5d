-- ===== src/Server/Rekey.antt =====
-- What comes of a client that asks for new keys.
use thrussh_fork.Base.{
  ◌≡◌, refl, ap, ◌∙◌, Option, none, some, List, ◌∷◌, Bytes, Outcome, ok, err, foreign, panic, stuck,
  kex, ◌>>=◌,
}
use thrussh_fork.Protocol.Msg
use thrussh_fork.Wire.{Encoding}
use thrussh_fork.Cipher.Keys.{Sodium, CipherPair}
use thrussh_fork.Cipher.Packet.{SshBuffer}
use thrussh_fork.Negotiation.Select.{select_server}
use thrussh_fork.Negotiation.ReadKex.{Names, read_kex}
use thrussh_fork.Session.State.{Exchange, Encrypted, CommonSession, received_rekey}
use thrussh_fork.Key.{KeyPair, KeyCrate}
use thrussh_fork.Dh.Algorithm.{Curve}
use thrussh_fork.Server.Login.{Keys, Handler}
use thrussh_fork.Server.Encrypted.{LoginConfig}
use thrussh_fork.Server.Reply.{World, no_kex, reply_in, server_reply}
use thrussh_fork.Server.Kex.{KexConfig, server_parse, server_rekey}

module _ ⦃e : Encoding⦄ ⦃c : Sodium⦄ where
  parse_received :
      (cookie : Option Bytes) (config : KexConfig) (pair : CipherPair) (body : Bytes)
      (exchange : Exchange) (names : Names) (session_id : Bytes) (wb : SshBuffer)
      → server_parse cookie config pair
          (Msg.kexinit ∷ body)
          (received_rekey exchange names session_id)
          wb
        ≡ err kex
  unfolding server_parse received_rekey
  parse_received cookie config pair body exchange names session_id wb = refl

  rekey_refused :
      (cookie : Option Bytes) (config : KexConfig) (s : CommonSession) (enc : Encrypted)
      (body : Bytes) (exchange : Exchange)
      → enc.exchange ≡ some exchange
      → server_rekey cookie config s enc (Msg.kexinit ∷ body)
        ≡ (read_kex select_server (Msg.kexinit ∷ body) config.preferred >>= λ names. err kex)
  unfolding server_rekey
  rekey_refused cookie config s enc body exchange h = refused _ refl
    where
      refused :
          (o : Outcome Names)
          → read_kex select_server (Msg.kexinit ∷ body) config.preferred ≡ o
          → server_rekey cookie config s enc (Msg.kexinit ∷ body)
            ≡ (read_kex select_server (Msg.kexinit ∷ body) config.preferred >>= λ names. err kex)
      refused (ok names) agreed = rw (h, server_rekey) (rw (agreed, parse_received))
      refused (err e) failed = rw (h, server_rekey) (rw failed)
      refused foreign failed = rw (h, server_rekey) (rw failed)
      refused panic failed = rw (h, server_rekey) (rw failed)
      refused stuck failed = rw (h, server_rekey) (rw failed)

  ends_in_kex :
      {A B C : Type 0} (m : Outcome A) (f : B → Outcome C)
      → ((m >>= λ a. err kex) >>= f) ≡ (m >>= λ a. err kex)
  ends_in_kex (ok a) f = refl
  ends_in_kex (err e) f = refl
  ends_in_kex foreign f = refl
  ends_in_kex panic f = refl
  ends_in_kex stuck f = refl

  -- Where no key exchange is going on, and the session has keys and the exchange that they came of,
  -- what `reply` makes of a KEXINIT packet is the error of the negotiation, or `Kex` where the
  -- algorithms are agreed: a client that asks for new keys first is not given any.
  pub server_rekey_fails :
      ⦃k : Curve⦄ ⦃ks : KeyCrate⦄ {Key H : Type 0} (host_keys : List KeyPair) (keys : Keys Key)
      (handler : Handler Key H) (next : CommonSession → H → Bytes → Outcome (CommonSession × H))
      (config : LoginConfig) (w : World) (s : CommonSession) (h : H) (enc : Encrypted)
      (body : Bytes) (exchange : Exchange)
      → s.kex ≡ none
      → s.encrypted ≡ some enc
      → enc.exchange ≡ some exchange
      → server_reply host_keys keys handler next config w s h (Msg.kexinit ∷ body) ≡ (
          read_kex select_server (Msg.kexinit ∷ body) config.key_exchange.preferred >>= λ names.
          err kex)
  unfolding server_reply reply_in no_kex
  server_rekey_fails host_keys keys handler next config w s h enc body exchange idle keyed there =
      rw (idle, keyed)
        (ap (λ (m : Outcome CommonSession). m >>= λ s'. ok (s', h))
            (rekey_refused w.cookie config.key_exchange (record s { kex = none }) enc body exchange
              there)
          ∙ ends_in_kex (read_kex select_server (Msg.kexinit ∷ body) config.key_exchange.preferred)
              (λ s'. ok (s', h)))
