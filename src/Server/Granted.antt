-- ===== src/Server/Granted.antt =====
-- Who is let in by the authentication requests.
use thrussh_fork.Base.{
  ℕ, ◌≡◌, refl, ap, ◌∙◌, Bool, true, false, ◌⊎◌, inl, inr, Option, none, some, ◌++◌, Bytes, codes,
  length, drop, bytes_eq, ◌==◌, ◌&&◌, not, ok, ◌>>=◌,
}
use thrussh_fork.Base.Every.{Every, Every-try, Every-if, Every-bind, Every-map}
use thrussh_fork.Wire.{Encoding}
use thrussh_fork.Auth.Methods.{AuthRequest}
use thrussh_fork.Session.State.{Encrypted, waiting_auth_request, authenticated}
use thrussh_fork.Server.Login.{
  Response, Auth, reject, accept, unsupported_method, partial, Parsed, parsed, could_not_read,
  failed, Keys, Handler, Attempt, is_accept, sent_pk_ok, auth_request, reject_auth_request,
  reply_userauth_info_response,
}
use thrussh_fork.Server.Requests.{
  utf8, finish_password, auth_by_password, finish_probe, is_valid, finish_signed, auth_signed,
  auth_by_key, server_read_auth_request_pk, auth_by_challenge, auth_by_other,
  server_read_auth_request,
}

module _ ⦃e : Encoding⦄ {Key H : Type 0} (keys : Keys Key) (handler : Handler Key H) where
  -- Why a request on `enc` lets `user` in: `auth` is the request so far, `auth_user` the user of the
  -- last one, and `h` the handler that is asked.
  pub data Granted (enc : Encrypted) (auth : AuthRequest) (auth_user : Bytes) (h : H) (user : Bytes)
      : Type 0 where
    by_password :
        (text : Bytes) (h' : H)
        → handler.auth_password h user text ≡ some (h', accept)
        → Granted enc auth auth_user h user
    by_challenge :
        (submethods : Bytes) (response : Option Response) (h' : H)
        → handler.auth_keyboard_interactive h user submethods response ≡ some (h', accept)
        → Granted enc auth auth_user h user
    by_key :
        (pubkey : Key) (h' : H) (init sig : Bytes)
        → handler.auth_publickey h user pubkey ≡ some (h', accept)
        → keys.verify pubkey (e.ssh_string enc.session_id ++ init) sig ≡ true
        → Granted enc auth auth_user h user
    by_probe :
        (pubkey : Key) (init sig : Bytes)
        → sent_pk_ok auth ≡ true
        → user ≡ auth_user
        → keys.verify pubkey (e.ssh_string enc.session_id ++ init) sig ≡ true
        → Granted enc auth auth_user h user

  module _ (enc : Encrypted) (auth : AuthRequest) (auth_user : Bytes) (h : H) where
    abbrev pub Justified : Attempt H → Type 0
    Justified a = a.enc.state ≡ authenticated → Granted enc auth auth_user h a.auth_user

    password_Justified :
        (user text : Bytes) (answer : H × Auth)
        → handler.auth_password h user text ≡ some answer
        → Justified (finish_password keys handler enc auth user answer)
    unfolding finish_password reject_auth_request
    password_Justified user text (h', accept) asked = λ done. by_password text h' asked
    password_Justified user text (h', reject) asked = λ done. absurd cc
    password_Justified user text (h', unsupported_method) asked = λ done. absurd cc
    password_Justified user text (h', partial n i p) asked = λ done. absurd cc

    probe_Justified :
        (user algo key_bytes : Bytes) (answer : H × Auth)
        → Justified (finish_probe keys handler enc auth user algo key_bytes answer)
    unfolding finish_probe reject_auth_request
    probe_Justified user algo key_bytes (h', accept) = λ done. absurd cc
    probe_Justified user algo key_bytes (h', reject) = λ done. absurd cc
    probe_Justified user algo key_bytes (h', unsupported_method) = λ done. absurd cc
    probe_Justified user algo key_bytes (h', partial n i p) = λ done. absurd cc

    -- What the question whether a key may be used comes to.
    abbrev Checked : Key → Bool × Bytes × H → Type 0
    Checked pubkey r =
        r.0 ≡ true
        → ((sent_pk_ok auth ≡ true) × (r.1 ≡ auth_user))
          ⊎ ((h' : H) × (handler.auth_publickey h r.1 pubkey ≡ some (h', accept)))

    answer_Checked :
        (user : Bytes) (pubkey : Key) (answer : H × Auth)
        → handler.auth_publickey h user pubkey ≡ some answer
        → Checked pubkey (is_accept answer.1, user, answer.0)
    answer_Checked user pubkey (h', accept) asked = λ t. inr (h', asked)
    answer_Checked user pubkey (h', reject) asked = λ t. absurd cc
    answer_Checked user pubkey (h', unsupported_method) asked = λ t. absurd cc
    answer_Checked user pubkey (h', partial n i p) asked = λ t. absurd cc

    both : (a b : Bool) → (a && b) ≡ true → (a ≡ true) × (b ≡ true)
    both true b t = (refl, t)
    both false b t = absurd cc

    is_valid-Checked :
        (user : Bytes) (pubkey : Key)
        → Every (Checked pubkey) (is_valid keys handler auth auth_user user h pubkey)
    unfolding is_valid
    is_valid-Checked user pubkey =
        Every-if (Checked pubkey) (sent_pk_ok auth && bytes_eq user auth_user) _ _
          (λ t v. inl ((both _ _ t).0, refl))
          (λ f.
            Every-if (Checked pubkey) (length auth_user == 0) _ _
              (λ t.
                Every-try (Checked pubkey) (handler.auth_publickey h user pubkey) _
                  (answer_Checked user pubkey))
              (λ f' v. absurd cc))

    signed_Justified :
        (user : Bytes) (pubkey : Key) (init sig : Bytes) (checked : Bool × Bytes × H)
        → Checked pubkey checked
        → Justified (finish_signed keys handler enc auth pubkey init sig checked)
    unfolding finish_signed reject_auth_request
    signed_Justified user pubkey init sig (valid, user', h') c =
        verified valid (keys.verify pubkey (e.ssh_string enc.session_id ++ init) sig) refl c
      where
        verified :
            (valid v : Bool)
            → keys.verify pubkey (e.ssh_string enc.session_id ++ init) sig ≡ v
            → Checked pubkey (valid, user', h')
            → Justified (finish_signed keys handler enc auth pubkey init sig (valid, user', h'))
        verified false v eq c = λ done. absurd cc
        verified true false eq c = rw eq (λ done. absurd cc)
        verified true true eq c = rw eq (λ done. elim (c refl) [
          | inl probed ↦ by_probe pubkey init sig probed.0 probed.1 eq
          | inr asked ↦ by_key pubkey asked.0 init sig asked.1 eq
        ])

    auth_signed-Justified :
        (user init : Bytes) (pubkey : Key) (r : Bytes)
        → Every Justified (auth_signed keys handler enc auth h auth_user user init pubkey r)
    unfolding auth_signed
    auth_signed-Justified user init pubkey r = Every-try Justified (e.read_string r) _ (λ s p.
        Every-try Justified (e.read_string s.0) _ (λ a q.
          Every-try Justified (e.read_string a.1) _ (λ g t.
            Every-bind Justified (is_valid keys handler auth auth_user user h pubkey) _ (
              Every-map (Checked pubkey) _ (is_valid keys handler auth auth_user user h pubkey)
                (λ c known. signed_Justified user pubkey init g.0 c known)
                (is_valid-Checked user pubkey)))))

    pub reject_Justified :
        (auth' : AuthRequest) (user : Bytes)
        → Justified (record { enc = reject_auth_request enc auth'; auth_user = user; handler = h })
    unfolding reject_auth_request
    reject_Justified auth' user = λ done. absurd cc

    key_Justified :
        (key : Parsed Key) (user init : Bytes) (is_real : ℕ) (algo key_bytes r : Bytes)
        → Every Justified
            (auth_by_key keys handler key enc auth h auth_user user init is_real algo key_bytes r)
    unfolding auth_by_key
    key_Justified (parsed pubkey) user init is_real algo key_bytes r =
        Every-if Justified (not (is_real == 0)) _ _ (λ t. auth_signed-Justified user init pubkey r)
          (λ f.
            Every-try Justified (handler.auth_publickey h user pubkey) _
              (λ a asked. probe_Justified user algo key_bytes a))
    key_Justified could_not_read user init is_real algo key_bytes r =
        reject_Justified auth auth_user
    key_Justified failed user init is_real algo key_bytes r = tt

    reply_grants :
        (auth' : AuthRequest) (answer : Auth)
        → Every
            (λ enc'. enc'.state ≡ authenticated → answer ≡ accept)
            (reply_userauth_info_response enc auth' answer)
    unfolding reply_userauth_info_response reject_auth_request
    reply_grants auth' accept = λ done. refl
    reply_grants auth' reject = λ done. absurd cc
    reply_grants auth' unsupported_method = tt
    reply_grants auth' (partial n i p) = λ done. absurd cc

    -- The reply to an answer of the handler to a challenge.
    pub reply_Justified :
        (submethods : Bytes) (response : Option Response) (a : H × Auth) (user : Bytes)
        (auth' : AuthRequest)
        → handler.auth_keyboard_interactive h user submethods response ≡ some a
        → Every Justified (
            reply_userauth_info_response enc auth' a.1 >>= λ enc'.
            ok (record { enc = enc'; auth_user = user; handler = a.0 }))
    reply_Justified submethods response a user auth' asked =
        Every-bind Justified (reply_userauth_info_response enc auth' a.1) _ (
          Every-map _ _ (reply_userauth_info_response enc auth' a.1)
            (λ enc' grants done.
              by_challenge submethods response a.0 (asked ∙ ap (λ x. some (a.0, x)) (grants done)))
            (reply_grants auth' a.1))

    module _ (waits : enc.state ≡ waiting_auth_request auth) where
      waiting_lem : auth_request enc.state ≡ ok auth
      unfolding auth_request
      waiting_lem = rw waits refl

      by_password_Justified :
          (user r : Bytes) → Every Justified (auth_by_password keys handler enc h user r)
      unfolding auth_by_password
      by_password_Justified user r = rw waiting_lem (
          Every-try Justified (e.read_byte r) _ (λ b p.
            Every-try Justified (e.read_string b.1) _ (λ g q.
              Every-try Justified (utf8 g.0) _ (λ text t.
                Every-try Justified (handler.auth_password h user text) _
                  (password_Justified user text)))))

      by_pk_Justified :
          (buf user r : Bytes)
          → Every Justified (server_read_auth_request_pk keys handler enc h buf auth_user user r)
      unfolding server_read_auth_request_pk
      by_pk_Justified buf user r = rw waiting_lem (
          Every-try Justified (e.read_byte r) _ (λ b p.
            Every-try Justified (e.read_string b.1) _ (λ a q.
              Every-try Justified (e.read_string a.1) _
                (λ k t. key_Justified (keys.parse a.0 k.0) user _ b.0 a.0 k.0 k.1))))

      by_challenge_Justified :
          (user r : Bytes) → Every Justified (auth_by_challenge keys handler enc h user r)
      unfolding auth_by_challenge
      by_challenge_Justified user r = rw waiting_lem (
          Every-try Justified (e.read_string r) _ (λ l p.
            Every-try Justified (e.read_string l.1) _ (λ g q.
              Every-try Justified (utf8 g.0) _ (λ submethods t.
                Every-try Justified (handler.auth_keyboard_interactive h user submethods none) _
                  (λ a asked. reply_Justified submethods none a user _ asked)))))

      pub request_Justified :
          (buf : Bytes)
          → Every Justified (server_read_auth_request keys handler enc h buf auth_user)
      unfolding server_read_auth_request
      request_Justified buf = Every-try Justified (e.read_string (drop 1 buf)) _ (λ u p.
          Every-try Justified (utf8 u.0) _ (λ user p'.
            Every-try Justified (e.read_string u.1) _ (λ service q.
              Every-try Justified (e.read_string service.1) _ (λ method t.
                Every-if Justified (bytes_eq service.0 (codes "ssh-connection")) _ _
                  (λ c.
                    Every-if Justified (bytes_eq method.0 (codes "password")) _ _
                      (λ c. by_password_Justified user method.1)
                      (λ c.
                        Every-if Justified (bytes_eq method.0 (codes "publickey")) _ _
                          (λ c. by_pk_Justified buf user method.1)
                          (λ c.
                            Every-if Justified (bytes_eq method.0 (codes "keyboard-interactive")) _
                              _ (λ c. by_challenge_Justified user method.1)
                              (λ c. other_Justified))))
                  (λ c. tt)))))
        where
          other_Justified : Every Justified (auth_by_other keys handler enc h auth_user)
          other_Justified = rw (waiting_lem, auth_by_other) (reject_Justified auth auth_user)
