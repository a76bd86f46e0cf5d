-- ===== src/Server/LetIn.antt =====
-- What lets a client in, over the states of a session (src/server/encrypted.rs).
use thrussh_fork.Base.{
  ℕ, ◌≡◌, ◌≢◌, refl, sym, ap, ◌∙◌, Bool, true, false, Option, none, some, Bytes, codes, drop,
  bytes_eq, ◌==◌, if◌then◌else◌, Outcome, ok, ◌>>=◌,
}
use thrussh_fork.Base.Every.{Every, Every-try, Every-bind, Every-if, Every-then, Every-map}
use thrussh_fork.Protocol.Msg
use thrussh_fork.Wire.{Encoding}
use thrussh_fork.Cipher.Keys.{Sodium}
use thrussh_fork.Auth.Methods.{AuthRequest, CurrentRequest, publickey_request, keyboard_request}
use thrussh_fork.Session.State.{
  received_rekey, Exchange, Encrypted, EncryptedState, CommonSession, waiting_service_request,
  waiting_auth_request, authenticated,
}
use thrussh_fork.Negotiation.Select.{select_server}
use thrussh_fork.Negotiation.ReadKex.{read_kex}
use thrussh_fork.Server.Kex.{server_parse, KexConfig, server_rekey}
use thrussh_fork.Server.Login.{Keys, Handler, Attempt, server_accept_service}
use thrussh_fork.Server.Granted.{
  Granted, Justified, reject_Justified, reply_Justified, request_Justified,
}
use thrussh_fork.Server.Encrypted.{
  LoginConfig, answer_challenge, read_userauth_info_response, with_attempt, read_in_state,
}

module _ ⦃e : Encoding⦄ ⦃c : Sodium⦄ {Key H : Type 0} (keys : Keys Key)
    (handler : Handler Key H) where
  module _ (next : CommonSession → H → Bytes → Outcome (CommonSession × H)) (enc : Encrypted)
      (h : H) (auth_user : Bytes) where
    -- A session that has let a client in, on `enc`, has a reason for its user.
    abbrev pub LetIn : CommonSession × H → Type 0
    LetIn r =
        (enc' : Encrypted)
        → r.0.encrypted ≡ some enc'
        → enc'.state ≡ authenticated
        → (auth : AuthRequest) × (enc.state ≡ waiting_auth_request auth)
          × Granted keys handler enc auth auth_user h r.0.auth_user

    challenge_Justified :
        (auth : AuthRequest) (current : Option CurrentRequest) (buf : Bytes)
        → Every
            (Justified keys handler enc auth auth_user h)
            (answer_challenge handler current enc auth h auth_user buf)
    unfolding answer_challenge
    challenge_Justified auth (some (keyboard_request submethods)) buf =
        Every-try (Justified keys handler enc auth auth_user h) (e.read_u32 (drop 1 buf)) _ (λ n p.
          Every-try (Justified keys handler enc auth auth_user h)
            (handler.auth_keyboard_interactive h auth_user submethods
              (some (record { pos = n.1; n = n.0 })))
            _
            (λ a asked.
              reply_Justified keys handler enc auth auth_user h submethods _ a auth_user auth
                asked))
    challenge_Justified auth (some (publickey_request k a s)) buf =
        reject_Justified keys handler enc auth auth_user h auth auth_user
    challenge_Justified auth none buf =
        reject_Justified keys handler enc auth auth_user h auth auth_user

    pub rekey_kept :
        (cookie : Option Bytes) (config : KexConfig) (s : CommonSession) (buf : Bytes)
        → s.encrypted ≡ some enc
        → enc.state ≢ authenticated
        → Every (λ s'. LetIn (s', h)) (server_rekey cookie config s enc buf)
    unfolding server_rekey
    rekey_kept cookie config s buf he ne = by_exchange enc.exchange refl
      where
        same : (enc' : Encrypted) → s.encrypted ≡ some enc' → enc'.state ≡ enc.state
        same enc' he' = ap (λ (x : Encrypted). x.state) (let eq : enc' ≡ enc = cc in eq)

        kept :
            (enc' : Encrypted)
            → some (record enc { exchange = none }) ≡ some enc'
            → enc.state ≡ enc'.state
        kept enc' he' =
            ap (λ (x : Encrypted). x.state)
              (let eq : record enc { exchange = none } ≡ enc' = cc in eq)

        by_exchange :
            (o : Option Exchange)
            → enc.exchange ≡ o
            → Every (λ s'. LetIn (s', h)) (server_rekey cookie config s enc buf)
        by_exchange none eq =
            rw (eq, server_rekey) (λ enc' he' done. absurd (ne (sym (same enc' he') ∙ done)))
        by_exchange (some exchange) eq =
            simp (eq, server_rekey)
              (Every-then (λ s'. LetIn (s', h)) (read_kex select_server buf config.preferred) _
                (λ names.
                  Every-then (λ s'. LetIn (s', h))
                    (server_parse cookie config s.cipher buf
                      (received_rekey exchange names enc.session_id) s.write_buffer)
                    _ (λ k enc' he' done. absurd (ne (kept enc' he' ∙ done)))))

    attempt_LetIn :
        (auth : AuthRequest) (s : CommonSession) (m : Outcome (Attempt H))
        → enc.state ≡ waiting_auth_request auth
        → Every (Justified keys handler enc auth auth_user h) m
        → Every LetIn (m >>= λ a. ok (with_attempt handler s a))
    attempt_LetIn auth s m waits known = Every-bind LetIn m _ (
        Every-map (Justified keys handler enc auth auth_user h) _ m
          (λ a why enc' he' done. (
            auth,
            waits,
            why (ap (λ (x : Encrypted). x.state) (let eq : a.enc ≡ enc' = cc in eq) ∙ done),
          ))
          known)

    -- A session that is left as it was lets nobody in.
    kept_LetIn :
        (s : CommonSession) (h' : H)
        → s.encrypted ≡ some enc
        → enc.state ≢ authenticated
        → LetIn (s, h')
    kept_LetIn s h' he ne = λ enc' he' done.
        absurd (ne (ap (λ (x : Encrypted). x.state) (let eq : enc ≡ enc' = cc in eq) ∙ done))

    service_LetIn :
        (s : CommonSession) (b : Bool) (x : Bytes × AuthRequest)
        → s.encrypted ≡ some enc
        → enc.state ≢ authenticated
        → LetIn (
            if b
            then (
              record s {
                encrypted = some (record enc { write = x.0; state = waiting_auth_request x.1 });
              },
              h,
            )
            else (s, h))
    service_LetIn s false x he ne = kept_LetIn s h he ne
    service_LetIn s true x he ne = λ enc' he' done. absurd (
        let state : waiting_auth_request x.1 ≡ enc'.state =
          ap (λ (y : Encrypted). y.state)
            (let eq : record enc { write = x.0; state = waiting_auth_request x.1 } ≡ enc' = cc in
              eq) in
        cc (state ∙ done))

    pub state_LetIn :
        (state : EncryptedState) (config : LoginConfig) (s : CommonSession) (first : ℕ)
        (buf : Bytes)
        → enc.state ≡ state
        → s.encrypted ≡ some enc
        → s.auth_user ≡ auth_user
        → enc.state ≢ authenticated
        → Every LetIn (read_in_state handler keys next state config s h enc first buf)
    unfolding read_in_state read_userauth_info_response
    state_LetIn (waiting_service_request a) config s first buf hs he hu ne =
        Every-if LetIn (first == Msg.service_request) _ _
          (λ t. Every-try LetIn (e.read_string (drop 1 buf)) _ (λ r p.
            service_LetIn s (bytes_eq r.0 (codes "ssh-userauth"))
              (server_accept_service config.auth_banner config.methods enc.write) he ne))
          (λ f. kept_LetIn s h he ne)
    state_LetIn (waiting_auth_request auth) config s first buf hs he hu ne = simp hu (
        Every-if LetIn (first == Msg.userauth_request) _ _
          (λ t.
            attempt_LetIn auth s _ hs (request_Justified keys handler enc auth auth_user h hs buf))
          (λ f.
            Every-if LetIn (first == Msg.userauth_info_response) _ _
              (λ t. attempt_LetIn auth s _ hs (challenge_Justified auth auth.current buf))
              (λ f. kept_LetIn s h he ne)))
    state_LetIn authenticated config s first buf hs he hu ne = absurd (ne hs)
