-- ===== src/Client/Reply.antt =====
-- `reply` of src/client/mod.rs: what the client does with a packet, by the state of the key exchange.
use thrussh_fork.Base.{
  Bool, true, false, not, ◌||◌, Option, none, some, ◌∷◌, Bytes, codes, get_elem?, ◌==◌,
  if◌then◌else◌, Outcome, ok, err, kex, inconsistent, ◌>>=◌, unwrap,
}
use thrussh_fork.Protocol.Msg
use thrussh_fork.Wire.{Encoding}
use thrussh_fork.Cipher.Keys.{Sodium}
use thrussh_fork.Cipher.Packet.{write}
use thrussh_fork.Session.State.{
  Kex, kex_init, kex_dh, kex_dh_done, new_keys, KexInit, KexDhDone, NewKeys, CommonSession,
  waiting_service_request,
}
use thrussh_fork.Session.Channels.{encrypted}
use thrussh_fork.Key.{KeyCrate}
use thrussh_fork.Dh.Algorithm.{Curve}
use thrussh_fork.Server.Reply.{is_some}
use thrussh_fork.Client.State.{Session, Config, World, Handler}
use thrussh_fork.Client.Kex.{client_parse, client_flush}
use thrussh_fork.Client.Exchange.{server_key_check}
use thrussh_fork.Client.Messages.{client_read_encrypted}

-- `b"\x05\0\0\0\x0Cssh-userauth"`
abbrev pub userauth_service : Bytes
userauth_service = 5 ∷ 0 ∷ 0 ∷ 0 ∷ 12 ∷ codes "ssh-userauth"

abbrev pub with_common : Session → CommonSession → Session
with_common s common = record s { common = common }

module _ ⦃e : Encoding⦄ ⦃c : Sodium⦄ ⦃k : Curve⦄ ⦃ks : KeyCrate⦄ {H : Type 0} (handler : Handler H)
    (config : Config) (w : World) where
  abbrev pub flush_session : CommonSession → Outcome CommonSession
  flush_session s = client_flush w.clock w.cookie config.limits config.preferred s

  -- The packet is read only where the algorithms are not known yet.
  unfoldable pub starts_exchange : KexInit → Session → Bytes → Outcome Bool
  starts_exchange i s buf = if is_some i.algo then ok true else (do
    first ← unwrap (get_elem? buf 0)
    ok (first == Msg.kexinit || not (is_some s.common.encrypted)))

  -- In each clause the session has no exchange any more: it is the first argument.
  unfoldable pub on_kex_init : KexInit → Session → H → Bytes → Outcome (Session × H)
  unfolding starts_exchange
  on_kex_init i s h buf = do
    starts ← starts_exchange i s buf
    if starts
        then (do
          (done, wb) ←
              client_parse w.cookie w.secret config.preferred s.common.cipher buf i
                s.common.write_buffer
          common ←
              flush_session (record s.common { kex = some (kex_dh_done done); write_buffer = wb })
          ok (with_common s common, h))
        else ok (s, h)

  -- A packet that was guessed wrong is passed over, once.
  unfoldable pub on_kex_dh_done : KexDhDone → Session → H → Bytes → Outcome (Session × H)
  on_kex_dh_done d s h buf =
      if d.names.ignore_guessed
      then ok (
        with_common s (record s.common {
          kex = some (kex_dh_done (record d { names = record d.names { ignore_guessed = false } }));
        }),
        h,
      )
      else (do
        first ← unwrap (get_elem? buf 0)
        if first == Msg.kex_ecdh_reply
            then (do
              (common, h') ← server_key_check handler.check_server_key s.common h d buf
              flushed ← flush_session common
              ok (with_common s flushed, h'))
            else err inconsistent)

  -- The first packet under the new keys asks for the service.
  unfoldable pub on_new_keys : NewKeys → Session → H → Bytes → Outcome (Session × H)
  on_new_keys n s h buf = do
    first ← unwrap (get_elem? buf 0)
    if first == Msg.newkeys
        then (do
          let common = encrypted s.common (waiting_service_request false) n (w.clock 0)
          wb ← write common.cipher userauth_service common.write_buffer
          ok (with_common s (record common { write_buffer = wb }), h))
        else err kex

  unfoldable pub client_reply_in : Option Kex → Session → H → Bytes → Outcome (Session × H)
  unfolding on_kex_init on_kex_dh_done on_new_keys
  client_reply_in none s h buf = client_read_encrypted handler config w s h buf
  client_reply_in (some (kex_init i)) s h buf = on_kex_init i s h buf
  client_reply_in (some (kex_dh_done d)) s h buf = on_kex_dh_done d s h buf
  client_reply_in (some (new_keys n)) s h buf = on_new_keys n s h buf
  client_reply_in (some (kex_dh d)) s h buf =
      ok (with_common s (record s.common { kex = some (kex_dh d) }), h)

  unfoldable pub client_reply : Session → H → Bytes → Outcome (Session × H)
  unfolding client_reply_in
  client_reply s h buf =
      client_reply_in s.common.kex (with_common s (record s.common { kex = none })) h buf
