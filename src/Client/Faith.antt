-- ===== src/Client/Faith.antt =====
-- That a client has keys only for a server key that its handler accepted, over a whole connection of
-- src/client/mod.rs.
pub mod Whole
use thrussh_fork.Base.{
  ℕ, ◌≡◌, refl, ◌⊎◌, inl, inr, Bool, true, false, Option, none, some, List, [], ◌∷◌, ◌++◌, Bytes,
  get_elem?, ◌==◌, if◌then◌else◌, Outcome, ok, err, foreign, panic, stuck, inconsistent, ◌>>=◌,
  unwrap,
}
use thrussh_fork.Base.Every.{
  Every, Every-bind, Every-ok, Every-map, Every-then, Every-given, Every-if, Every-returned,
}
use thrussh_fork.Protocol.Msg
use thrussh_fork.Wire.{Encoding}
use thrussh_fork.Cipher.Keys.{Sodium}
use thrussh_fork.Cipher.Packet.{ReadResult, SshBuffer}
use thrussh_fork.Key.{PublicKey, KeyCrate}
use thrussh_fork.Dh.Algorithm.{Curve}
use thrussh_fork.Session.State.{
  Kex, kex_init, kex_dh, kex_dh_done, new_keys, KexInit, KexDhDone, NewKeys, CommonSession,
  Encrypted,
}
use thrussh_fork.Client.State.{Session, Config, World, Handler}
use thrussh_fork.Client.Exchange.{server_key_check}
use thrussh_fork.Client.Trust.{IsSigned, Checked, server_key_check-Checked}
use thrussh_fork.Client.Messages.{client_read_encrypted}
use thrussh_fork.Client.Kex.{client_parse}
use thrussh_fork.Client.Reply.{
  with_common, flush_session, starts_exchange, on_kex_init, on_kex_dh_done, client_reply_in,
  client_reply,
}
use thrussh_fork.Client.Unkeyed.{NotNew, Unkeyed, client_flush-Unkeyed}

module _ ⦃e : Encoding⦄ ⦃c : Sodium⦄ ⦃k : Curve⦄ ⦃ks : KeyCrate⦄ {H : Type 0}
    (handler : Handler H) where
  -- In the session `s` the exchange waits for the reply of the server, and the handler `h` accepts a
  -- key that has signed the exchange.
  abbrev pub Trusts : CommonSession → H → Type 0
  Trusts s h =
      (d : KexDhDone) × (pubkey : PublicKey) × (newkeys : NewKeys) × (h' : H) × (s.kex
        ≡ some (kex_dh_done d))
      × (handler.check_server_key h pubkey ≡ some (h', true))
      × IsSigned pubkey d newkeys

  module _ (config : Config) (w : World) where
    abbrev Faithful : CommonSession → H → Session × H → Type 0
    Faithful s h r = Unkeyed r.0.common ⊎ Trusts s h

    read_unkeyed :
        (s : Session) (h : H) (buf : Bytes)
        → s.common.encrypted ≡ none
        → NotNew s.common.kex
        → Every
            (λ (r : Session × H). Unkeyed r.0.common)
            (client_read_encrypted handler config w s h buf)
    unfolding client_read_encrypted
    read_unkeyed s h buf keyless n =
        Every-then (λ (r : Session × H). Unkeyed r.0.common) (unwrap (get_elem? buf 0)) _
          (λ first.
            Every-if (λ (r : Session × H). Unkeyed r.0.common) (first == Msg.kexinit) _ _
              (λ _. rw keyless tt) (λ _. rw keyless (keyless, n)))

    flush-Unkeyed :
        (s : CommonSession) → Unkeyed s → Every Unkeyed (flush_session handler config w s)
    flush-Unkeyed s u = client_flush-Unkeyed w.clock w.cookie config.limits config.preferred s u

    on_kex_init-Unkeyed :
        (i : KexInit) (s : Session) (h : H) (buf : Bytes)
        → s.common.encrypted ≡ none
        → NotNew s.common.kex
        → Every (λ (r : Session × H). Unkeyed r.0.common) (on_kex_init handler config w i s h buf)
    unfolding on_kex_init
    on_kex_init-Unkeyed i s h buf keyless n =
        Every-then P (starts_exchange handler config w i s buf) _ (λ starts.
          Every-if P starts _ _
            (λ _.
              Every-then P
                (client_parse w.cookie w.secret config.preferred s.common.cipher buf i
                  s.common.write_buffer)
                _
                (λ r.
                  Every-bind P (flush_session handler config w (after r.0 r.1)) _
                    (flush-Unkeyed (after r.0 r.1) (keyless, tt))))
            (λ _. (keyless, n)))
      where
        P : Session × H → Type 0
        P r = Unkeyed r.0.common

        after : KexDhDone → SshBuffer → CommonSession
        after d wb = record s.common { kex = some (kex_dh_done d); write_buffer = wb }

    on_kex_dh_done-Faithful :
        (d : KexDhDone) (s0 : CommonSession) (s : Session) (h : H) (buf : Bytes)
        → s0.kex ≡ some (kex_dh_done d)
        → s.common.encrypted ≡ none
        → Every (Faithful s0 h) (on_kex_dh_done handler config w d s h buf)
    unfolding on_kex_dh_done
    on_kex_dh_done-Faithful d s0 s h buf came keyless =
        Every-if (Faithful s0 h) d.names.ignore_guessed _ _ (λ _. inl (keyless, tt))
          (λ _. Every-then (Faithful s0 h) (unwrap (get_elem? buf 0)) _ (λ first.
            Every-if (Faithful s0 h) (first == Msg.kex_ecdh_reply) _ _
              (λ _.
                Every-bind (Faithful s0 h)
                  (server_key_check handler.check_server_key s.common h d buf) _
                  (Every-map (Checked handler.check_server_key h d buf) _
                    (server_key_check handler.check_server_key s.common h d buf)
                    (λ r
                        (
                          key, rest, pubkey, newkeys, signed, at_key, parsed, reads, accepted,
                          waits,
                        ).
                      Every-then (Faithful s0 h) (flush_session handler config w r.0) _
                        (λ _. inr (d, pubkey, newkeys, r.1, came, accepted, signed)))
                    (server_key_check-Checked handler.check_server_key s.common h d buf)))
              (λ _. tt)))

    in_kex-Faithful :
        (o : Option Kex) (s0 : CommonSession) (s : Session) (h : H) (buf : Bytes)
        → s0.kex ≡ o
        → NotNew o
        → s.common.encrypted ≡ none
        → s.common.kex ≡ none
        → Every (Faithful s0 h) (client_reply_in handler config w o s h buf)
    unfolding client_reply_in
    in_kex-Faithful none s0 s h buf came old keyless over =
        Every-map _ (Faithful s0 h) (client_read_encrypted handler config w s h buf) (λ r u. inl u)
          (read_unkeyed s h buf keyless (rw over tt))
    in_kex-Faithful (some (kex_init i)) s0 s h buf came old keyless over =
        Every-map _ (Faithful s0 h) (on_kex_init handler config w i s h buf) (λ r u. inl u)
          (on_kex_init-Unkeyed i s h buf keyless (rw over tt))
    in_kex-Faithful (some (kex_dh d)) s0 s h buf came old keyless over = inl (keyless, tt)
    in_kex-Faithful (some (kex_dh_done d)) s0 s h buf came old keyless over =
        on_kex_dh_done-Faithful d s0 s h buf came keyless
    in_kex-Faithful (some (new_keys n)) s0 s h buf came old keyless over = absurd old

    pub client_reply-Faithful :
        (s : Session) (h : H) (buf : Bytes)
        → Unkeyed s.common
        → Every (Faithful s.common h) (client_reply handler config w s h buf)
    unfolding client_reply
    client_reply-Faithful s h buf (keyless, old) =
        in_kex-Faithful s.common.kex s.common (with_common s (record s.common { kex = none })) h buf
          refl old keyless refl
