-- ===== src/Server/Reply.antt =====
-- `reply` of src/server/mod.rs: what the server does with a packet, by the state of the key exchange.
use thrussh_fork.Base.{
  ℕ, Bool, true, false, not, ◌||◌, Option, none, some, List, Bytes, get_elem?, ◌==◌, if◌then◌else◌,
  Outcome, ok, err, kex, ◌>>=◌, unwrap,
}
use thrussh_fork.Protocol.Msg
use thrussh_fork.Wire.{Encoding}
use thrussh_fork.Cipher.Keys.{Sodium}
use thrussh_fork.Session.State.{
  Kex, kex_init, kex_dh, kex_dh_done, new_keys, CommonSession, waiting_service_request,
}
use thrussh_fork.Session.Channels.{encrypted}
use thrussh_fork.Key.{KeyPair, KeyCrate}
use thrussh_fork.Dh.Algorithm.{Curve}
use thrussh_fork.Server.Kex.{server_parse, server_rekey}
use thrussh_fork.Server.Exchange.{kex_dh_parse}
use thrussh_fork.Server.Login.{Keys, Handler}
use thrussh_fork.Server.Encrypted.{LoginConfig, server_read_encrypted}

-- What comes from outside: random bytes for a KEXINIT and for a secret, and the time.
pub record World : Type 0 where
  pub cookie : Option Bytes
  pub secret : Option Bytes
  pub now : ℕ

abbrev pub is_some : {A : Type 0} → Option A → Bool
is_some none = false
is_some (some a) = true

module _ ⦃e : Encoding⦄ ⦃c : Sodium⦄ ⦃k : Curve⦄ ⦃ks : KeyCrate⦄ {Key H : Type 0}
    (host_keys : List KeyPair) (keys : Keys Key) (handler : Handler Key H)
    (authenticated_packet : CommonSession → H → Bytes → Outcome (CommonSession × H))
    (config : LoginConfig) (w : World) where
  -- No key exchange is going on. The exchange of a KEXINIT without keys is passed over.
  unfoldable pub no_kex : CommonSession → H → Bytes → Outcome (CommonSession × H)
  no_kex s h buf = do
    first ← unwrap (get_elem? buf 0)
    if first == Msg.kexinit
        then (elim s.encrypted [
          | none ↦ ok (s, h)
          | some enc ↦
              server_rekey w.cookie config.key_exchange s enc buf >>= λ (s' : CommonSession).
              ok (s', h)
        ])
        else server_read_encrypted handler keys authenticated_packet w.cookie config s h buf

  -- The session `s` has no exchange any more: it is the first argument.
  unfoldable pub reply_in : Option Kex → CommonSession → H → Bytes → Outcome (CommonSession × H)
  unfolding no_kex
  reply_in none s h buf = no_kex s h buf
  reply_in (some (kex_init i)) s h buf = do
    first ← unwrap (get_elem? buf 0)
    if is_some i.algo || first == Msg.kexinit || not (is_some s.encrypted)
        then (do
          (kex', wb) ← server_parse w.cookie config.key_exchange s.cipher buf i s.write_buffer
          ok (record s { kex = some kex'; write_buffer = wb }, h))
        else no_kex s h buf
  reply_in (some (kex_dh d)) s h buf = do
    (kex', wb) ← kex_dh_parse w.secret host_keys s.cipher buf d s.write_buffer
    ok (record s { kex = some kex'; write_buffer = wb }, h)
  reply_in (some (new_keys n)) s h buf = do
    first ← unwrap (get_elem? buf 0)
    if first == Msg.newkeys
        then ok (encrypted s (waiting_service_request false) n w.now, h)
        else err kex
  reply_in (some (kex_dh_done d)) s h buf = ok (record s { kex = some (kex_dh_done d) }, h)

  unfoldable pub server_reply : CommonSession → H → Bytes → Outcome (CommonSession × H)
  unfolding reply_in
  server_reply s h buf = reply_in s.kex (record s { kex = none }) h buf
