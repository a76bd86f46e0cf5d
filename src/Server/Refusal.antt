-- ===== src/Server/Refusal.antt =====
-- What a server that keeps the default methods of src/server/mod.rs makes of the packets of
-- src/server/encrypted.rs.
use thrussh_fork.Base.{
  ℕ, ◌≡◌, refl, Bool, true, false, Option, none, some, Bytes, codes, length, drop, bytes_eq, ◌==◌,
  ◌&&◌, not, if◌then◌else◌, ok,
}
use thrussh_fork.Base.Every.{Every, Every-try, Every-if, Every-bind, Every-map}
use thrussh_fork.Wire.{Encoding}
use thrussh_fork.Auth.Methods.{AuthRequest, CurrentRequest, publickey_request, keyboard_request}
use thrussh_fork.Session.State.{
  Encrypted, EncryptedState, waiting_service_request, waiting_auth_request, authenticated,
}
use thrussh_fork.Server.Login.{
  Parsed, parsed, could_not_read, failed, Keys, Attempt, sent_pk_ok, auth_request,
  reject_auth_request, reply_userauth_info_response,
}
use thrussh_fork.Server.Requests.{
  utf8, finish_password, auth_by_password, finish_probe, is_valid, finish_signed, auth_signed,
  auth_by_key, server_read_auth_request_pk, auth_by_challenge, auth_by_other,
  server_read_auth_request,
}
use thrussh_fork.Server.Encrypted.{answer_challenge}
use thrussh_fork.Server.Defaults.{default_login}

-- The client is not authenticated, and no key of it was probed with success.
abbrev pub Shut : Option EncryptedState → Type 0
Shut none = Unit
Shut (some (waiting_service_request accepted)) = Unit
Shut (some (waiting_auth_request auth)) = sent_pk_ok auth ≡ false
Shut (some authenticated) = ⊥

module _ ⦃e : Encoding⦄ {Key H : Type 0} (keys : Keys Key) where
  abbrev pub Turned : Attempt H → Type 0
  Turned a = Shut (some a.enc.state)

  module _ (enc : Encrypted) (auth : AuthRequest) (auth_user : Bytes) (h : H)
      (unprobed : sent_pk_ok auth ≡ false) where
    -- The question whether a key may be used is answered with no.
    is_valid_refuses :
        (user : Bytes) (pubkey : Key)
        → Every
            (λ (r : Bool × Bytes × H). r.0 ≡ false)
            (is_valid keys default_login auth auth_user user h pubkey)
    unfolding is_valid
    is_valid_refuses user pubkey = at (sent_pk_ok auth) unprobed
      where
        at :
            (sent : Bool)
            → sent ≡ false
            → Every
                (λ (r : Bool × Bytes × H). r.0 ≡ false)
                (if sent && bytes_eq user auth_user
                  then ok (true, auth_user, h)
                  else if length auth_user == 0
                  then ok (false, user, h)
                  else ok (false, auth_user, h))
        at true denied = absurd cc
        at false denied =
            Every-if (λ (r : Bool × Bytes × H). r.0 ≡ false) (length auth_user == 0) _ _ (λ _. refl)
              (λ _. refl)

    signed_Turned :
        (pubkey : Key) (init sig : Bytes) (checked : Bool × Bytes × H)
        → checked.0 ≡ false
        → Turned (finish_signed keys default_login enc auth pubkey init sig checked)
    unfolding finish_signed reject_auth_request
    signed_Turned pubkey init sig (false, user, h') denied = refl
    signed_Turned pubkey init sig (true, user, h') denied = absurd cc

    auth_signed-Turned :
        (user init : Bytes) (pubkey : Key) (r : Bytes)
        → Every Turned (auth_signed keys default_login enc auth h auth_user user init pubkey r)
    unfolding auth_signed
    auth_signed-Turned user init pubkey r = Every-try Turned (e.read_string r) _ (λ s _.
        Every-try Turned (e.read_string s.0) _ (λ a _.
          Every-try Turned (e.read_string a.1) _ (λ g _.
            Every-bind Turned (is_valid keys default_login auth auth_user user h pubkey) _ (
              Every-map _ _ (is_valid keys default_login auth auth_user user h pubkey)
                (λ checked denied. signed_Turned pubkey init g.0 checked denied)
                (is_valid_refuses user pubkey)))))

    rejected : (auth' : AuthRequest) → Shut (some (reject_auth_request enc auth').state)
    unfolding reject_auth_request
    rejected auth' = refl

    key_Turned :
        (key : Parsed Key) (user init : Bytes) (is_real : ℕ) (algo key_bytes r : Bytes)
        → Every Turned (
            auth_by_key keys default_login key enc auth h auth_user user init is_real algo key_bytes
              r)
    unfolding auth_by_key finish_probe
    key_Turned (parsed pubkey) user init is_real algo key_bytes r =
        Every-if Turned (not (is_real == 0)) _ _ (λ _. auth_signed-Turned user init pubkey r)
          (λ _. rejected (record auth { partial_success = false }))
    key_Turned could_not_read user init is_real algo key_bytes r = rejected auth
    key_Turned failed user init is_real algo key_bytes r = tt

    pub challenge_Turned :
        (current : Option CurrentRequest) (buf : Bytes)
        → Every Turned
            (answer_challenge (default_login {Key = Key}) current enc auth h auth_user buf)
    unfolding answer_challenge reply_userauth_info_response
    challenge_Turned (some (keyboard_request submethods)) buf =
        Every-try Turned (e.read_u32 (drop 1 buf)) _
          (λ n _. rejected (record auth { partial_success = false }))
    challenge_Turned (some (publickey_request k a s)) buf = rejected auth
    challenge_Turned none buf = rejected auth

    module _ (waits : enc.state ≡ waiting_auth_request auth) where
      waiting_lem : auth_request enc.state ≡ ok auth
      unfolding auth_request
      waiting_lem = rw waits refl

      password_Turned :
          (user r : Bytes) → Every Turned (auth_by_password keys default_login enc h user r)
      unfolding auth_by_password finish_password reject_auth_request
      password_Turned user r = rw waiting_lem (
          Every-try Turned (e.read_byte r) _ (λ b _.
            Every-try Turned (e.read_string b.1) _
              (λ g _. Every-try Turned (utf8 g.0) _ (λ text _. refl))))

      pk_Turned :
          (buf user r : Bytes)
          → Every Turned (server_read_auth_request_pk keys default_login enc h buf auth_user user r)
      unfolding server_read_auth_request_pk
      pk_Turned buf user r = rw waiting_lem (
          Every-try Turned (e.read_byte r) _ (λ b _. Every-try Turned (e.read_string b.1) _ (λ a _.
            Every-try Turned (e.read_string a.1) _
              (λ k _. key_Turned (keys.parse a.0 k.0) user _ b.0 a.0 k.0 k.1))))

      interactive_Turned :
          (user r : Bytes) → Every Turned (auth_by_challenge keys default_login enc h user r)
      unfolding auth_by_challenge reply_userauth_info_response reject_auth_request
      interactive_Turned user r = rw waiting_lem (
          Every-try Turned (e.read_string r) _ (λ l _.
            Every-try Turned (e.read_string l.1) _
              (λ g _. Every-try Turned (utf8 g.0) _ (λ submethods _. refl))))

      pub request_Turned :
          (buf : Bytes)
          → Every Turned (server_read_auth_request keys default_login enc h buf auth_user)
      unfolding server_read_auth_request
      request_Turned buf = Every-try Turned (e.read_string (drop 1 buf)) _ (λ u _.
          Every-try Turned (utf8 u.0) _ (λ user _.
            Every-try Turned (e.read_string u.1) _ (λ service _.
              Every-try Turned (e.read_string service.1) _ (λ method _.
                Every-if Turned (bytes_eq service.0 (codes "ssh-connection")) _ _
                  (λ _.
                    Every-if Turned (bytes_eq method.0 (codes "password")) _ _
                      (λ _. password_Turned user method.1)
                      (λ _.
                        Every-if Turned (bytes_eq method.0 (codes "publickey")) _ _
                          (λ _. pk_Turned buf user method.1)
                          (λ _.
                            Every-if Turned (bytes_eq method.0 (codes "keyboard-interactive")) _ _
                              (λ _. interactive_Turned user method.1) (λ _. other_Turned))))
                  (λ _. tt)))))
        where
          other_Turned : Every Turned (auth_by_other keys default_login enc h auth_user)
          other_Turned = rw (waiting_lem, auth_by_other) (rejected auth)
