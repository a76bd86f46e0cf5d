-- ===== src/Server/Refused.antt =====
-- What `reply` of src/server/mod.rs makes of a packet where the server keeps the default methods.
pub mod Rounds
use mathlib.Core.Path.{sym, subst}
use thrussh_fork.Base.{
  ℕ, ◌≡◌, refl, ap, ◌∙◌, Bool, true, false, ◌⊎◌, inl, inr, not, ◌||◌, Option, none, some, List, [],
  ◌∷◌, ◌++◌, Bytes, codes, drop, bytes_eq, get_elem?, ◌==◌, if◌then◌else◌, Outcome, ok, ◌>>=◌,
  unwrap,
}
use thrussh_fork.Base.Every.{
  Every, Every-try, Every-if, Every-bind, Every-map, Every-then, Every-ok, Every-given,
}
use thrussh_fork.Protocol.Msg
use thrussh_fork.Wire.{Encoding}
use thrussh_fork.Cipher.Keys.{Sodium}
use thrussh_fork.Ident.{read_ssh_id, line}
use thrussh_fork.Key.{KeyPair, KeyCrate}
use thrussh_fork.Dh.Algorithm.{Curve}
use thrussh_fork.Auth.Methods.{MethodSet, AuthRequest}
use thrussh_fork.Session.State.{
  Encrypted, EncryptedState, CommonSession, waiting_service_request, waiting_auth_request,
  authenticated, Limits, Kex, kex_init, kex_dh, kex_dh_done, new_keys, NewKeys,
}
use thrussh_fork.Session.Channels.{encrypted}
use thrussh_fork.Rounds.{Turn, turn_of, Progress, latest}
use thrussh_fork.Rounds.Blame.{CausedFrom, from_start}
use thrussh_fork.Server.Kex.{KexConfig, server_parse, server_rekey}
use thrussh_fork.Server.Exchange.{kex_dh_parse}
use thrussh_fork.Server.Login.{Keys, sent_pk_ok, server_accept_service}
use thrussh_fork.Server.Requests.{server_read_auth_request}
use thrussh_fork.Server.Encrypted.{
  LoginConfig, answer_challenge, read_userauth_info_response, read_in_state, server_read_encrypted,
}
use thrussh_fork.Server.Flush.{server_flush}
use thrussh_fork.Server.Reply.{World, is_some, no_kex, reply_in, server_reply}
use thrussh_fork.Server.Loop.{
  Running, Input, packet, timeout, message, Packet, ending, ignored, payload, inspect, on_message,
  enqueue, finish_round, on_packet, server_round,
}
use thrussh_fork.Server.Connection.{Round, server_loop, server_read_ssh_id, begin, run_stream}
use thrussh_fork.Server.Beginning.{begin_keyless}
use thrussh_fork.Server.Defaults.{default_login}
use thrussh_fork.Server.Stage.{state_of, Kept, on_message-Kept}
use thrussh_fork.Server.Stage.Rounds.{enqueue_kept, finish_round-Kept, server_flush-Kept}
use thrussh_fork.Server.Entry.{server_rekey-Kept}
use thrussh_fork.Server.Refusal.{Shut, challenge_Turned, request_Turned}

abbrev pub IsShut : CommonSession → Type 0
IsShut s = Shut (state_of s.encrypted)

pub still_shut : (s s' : CommonSession) → IsShut s → Kept s s' → IsShut s'
still_shut s s' shut kept = subst Shut (sym kept.0) shut

known_inside :
    (s : CommonSession) (enc : Encrypted)
    → s.encrypted ≡ some enc
    → IsShut s
    → Shut (some enc.state)
known_inside s enc he shut = subst Shut (ap state_of he) shut

new_request_unprobed :
    ⦃e : Encoding⦄ (banner : Option Bytes) (methods : MethodSet) (write : Bytes)
    → sent_pk_ok (server_accept_service banner methods write).1 ≡ false
unfolding server_accept_service
new_request_unprobed none methods write = refl
new_request_unprobed (some text) methods write = refl

module _ ⦃e : Encoding⦄ ⦃c : Sodium⦄ {Key H : Type 0} (keys : Keys Key)
    (next : CommonSession → H → Bytes → Outcome (CommonSession × H)) (config : LoginConfig) where
  abbrev pub After : CommonSession × H → Type 0
  After r = IsShut r.0

  service_After :
      (s : CommonSession) (h : H) (enc : Encrypted) (b : Bool) (x : Bytes × AuthRequest)
      → IsShut s
      → sent_pk_ok x.1 ≡ false
      → After (
          if b
          then (
            record s {
              encrypted = some (record enc { write = x.0; state = waiting_auth_request x.1 });
            },
            h,
          )
          else (s, h))
  service_After s h enc true x shut unprobed = unprobed
  service_After s h enc false x shut unprobed = shut

  state_After :
      (state : EncryptedState) (s : CommonSession) (h : H) (enc : Encrypted) (first : ℕ)
      (buf : Bytes)
      → enc.state ≡ state
      → IsShut s
      → Shut (some state)
      → Every After (read_in_state default_login keys next state config s h enc first buf)
  unfolding read_in_state read_userauth_info_response
  state_After (waiting_service_request a) s h enc first buf hs shut known =
      Every-if After (first == Msg.service_request) _ _
        (λ _. Every-try After (e.read_string (drop 1 buf)) _ (λ r _.
          service_After s h enc (bytes_eq r.0 (codes "ssh-userauth"))
            (server_accept_service config.auth_banner config.methods enc.write) shut
            (new_request_unprobed config.auth_banner config.methods enc.write)))
        (λ _. shut)
  state_After (waiting_auth_request auth) s h enc first buf hs shut known =
      Every-if After (first == Msg.userauth_request) _ _
        (λ _.
          Every-bind After (server_read_auth_request keys default_login enc h buf s.auth_user) _
            (request_Turned keys enc auth s.auth_user h known hs buf))
        (λ _.
          Every-if After (first == Msg.userauth_info_response) _ _
            (λ _.
              Every-bind After
                (answer_challenge (default_login {Key = Key}) auth.current enc auth h s.auth_user
                  buf)
                _ (challenge_Turned keys enc auth s.auth_user h known auth.current buf))
            (λ _. shut))
  state_After authenticated s h enc first buf hs shut known = absurd known

  read_After :
      (cookie : Option Bytes) (s : CommonSession) (h : H) (buf : Bytes)
      → IsShut s
      → Every After (server_read_encrypted default_login keys next cookie config s h buf)
  unfolding server_read_encrypted
  read_After cookie s h buf shut = at s.encrypted refl
    where
      at :
          (o : Option Encrypted)
          → s.encrypted ≡ o
          → Every After (
              unwrap o >>= λ enc. unwrap (get_elem? buf 0) >>= λ first.
              if first == Msg.kexinit
              then (server_rekey cookie config.key_exchange s enc buf >>= λ s'. ok (s', h))
              else read_in_state default_login keys next enc.state config s h enc first buf)
      at none he = tt
      at (some enc) he = Every-then After (unwrap (get_elem? buf 0)) _ (λ first.
          Every-if After (first == Msg.kexinit) _ _
            (λ _. Every-bind After (server_rekey cookie config.key_exchange s enc buf) _ (
              Every-map (Kept s) _ (server_rekey cookie config.key_exchange s enc buf)
                (λ s' kept. still_shut s s' shut kept)
                (server_rekey-Kept cookie config.key_exchange s enc buf he)))
            (λ _. state_After enc.state s h enc first buf refl shut (known_inside s enc he shut)))

  module _ ⦃k : Curve⦄ ⦃ks : KeyCrate⦄ (host_keys : List KeyPair) where
    no_kex-After :
        (w : World) (s : CommonSession) (h : H) (buf : Bytes)
        → IsShut s
        → Every After (no_kex host_keys keys default_login next config w s h buf)
    unfolding no_kex
    no_kex-After w s h buf shut = Every-then After (unwrap (get_elem? buf 0)) _ (λ first.
        Every-if After (first == Msg.kexinit) _ _ (λ _. at s.encrypted refl)
          (λ _. read_After w.cookie s h buf shut))
      where
        at :
            (o : Option Encrypted)
            → s.encrypted ≡ o
            → Every After (elim o [
              | none ↦ ok (s, h)
              | some enc ↦
                  server_rekey w.cookie config.key_exchange s enc buf >>= λ (s' : CommonSession).
                  ok (s', h)
            ])
        at none he = shut
        at (some enc) he =
            Every-bind After (server_rekey w.cookie config.key_exchange s enc buf) _ (
              Every-map (Kept s) _ (server_rekey w.cookie config.key_exchange s enc buf)
                (λ s' kept. still_shut s s' shut kept)
                (server_rekey-Kept w.cookie config.key_exchange s enc buf he))

    new_keys_After :
        (w : World) (s : CommonSession) (h : H) (n : NewKeys)
        → IsShut s
        → After (encrypted s (waiting_service_request false) n w.now, h)
    unfolding encrypted
    new_keys_After w s h n shut = at s.encrypted refl
      where
        at :
            (o : Option Encrypted)
            → s.encrypted ≡ o
            → After (encrypted s (waiting_service_request false) n w.now, h)
        at none he = rw (he, encrypted) tt
        at (some enc) he = rw (he, encrypted) (known_inside s enc he shut)

    reply_in-After :
        (w : World) (o : Option Kex) (s : CommonSession) (h : H) (buf : Bytes)
        → IsShut s
        → Every After (reply_in host_keys keys default_login next config w o s h buf)
    unfolding reply_in
    reply_in-After w none s h buf shut = no_kex-After w s h buf shut
    reply_in-After w (some (kex_init i)) s h buf shut =
        Every-then After (unwrap (get_elem? buf 0)) _ (λ first.
          Every-if After (is_some i.algo || first == Msg.kexinit || not (is_some s.encrypted)) _ _
            (λ _.
              Every-then After
                (server_parse w.cookie config.key_exchange s.cipher buf i s.write_buffer) _
                (λ r. shut))
            (λ _. no_kex-After w s h buf shut))
    reply_in-After w (some (kex_dh d)) s h buf shut =
        Every-then After (kex_dh_parse w.secret host_keys s.cipher buf d s.write_buffer) _
          (λ r. shut)
    reply_in-After w (some (new_keys n)) s h buf shut =
        Every-then After (unwrap (get_elem? buf 0)) _ (λ first.
          Every-if After (first == Msg.newkeys) _ _ (λ _. new_keys_After w s h n shut) (λ _. tt))
    reply_in-After w (some (kex_dh_done d)) s h buf shut = shut

    pub server_reply-After :
        (w : World) (s : CommonSession) (h : H) (buf : Bytes)
        → IsShut s
        → Every After (server_reply host_keys keys default_login next config w s h buf)
    unfolding server_reply
    server_reply-After w s h buf shut = reply_in-After w s.kex (record s { kex = none }) h buf shut
