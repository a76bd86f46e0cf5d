-- ===== src/Server/Encrypted.antt =====
-- `read_userauth_info_response` and `server_read_encrypted` of src/server/encrypted.rs. What is done
-- with a packet of an authenticated client, `server_read_authenticated`, is an argument.
use thrussh_fork.Base.{
  ℕ, Option, none, some, Bytes, codes, drop, get_elem?, bytes_eq, ◌==◌, if◌then◌else◌, Outcome, ok,
  ◌>>=◌, try_foreign, unwrap,
}
use thrussh_fork.Protocol.Msg
use thrussh_fork.Wire.{Encoding}
use thrussh_fork.Auth.Methods.{
  MethodSet, AuthRequest, CurrentRequest, publickey_request, keyboard_request,
}
use thrussh_fork.Cipher.Keys.{Sodium}
use thrussh_fork.Session.State.{
  Encrypted, EncryptedState, CommonSession, waiting_service_request, waiting_auth_request,
  authenticated,
}
use thrussh_fork.Server.Kex.{KexConfig, server_rekey}
use thrussh_fork.Server.Login.{
  Response, Keys, Handler, Attempt, server_accept_service, reject_auth_request,
  reply_userauth_info_response,
}
use thrussh_fork.Server.Requests.{server_read_auth_request}

-- What this code uses of the configuration.
pub record LoginConfig : Type 0 where
  pub auth_banner : Option Bytes
  pub methods : MethodSet
  pub key_exchange : KexConfig

module _ ⦃e : Encoding⦄ {Key H : Type 0} (handler : Handler Key H) where
  unfoldable pub answer_challenge :
      Option CurrentRequest → Encrypted → AuthRequest → H → Bytes → Bytes → Outcome (Attempt H)
  answer_challenge (some (keyboard_request submethods)) enc auth h user b = do
    (n, r) ← try_foreign (e.read_u32 (drop 1 b))
    let response : Response = record { pos = r; n = n }
    (h', answer) ← try_foreign (handler.auth_keyboard_interactive h user submethods (some response))
    enc' ← reply_userauth_info_response enc auth answer
    ok (record { enc = enc'; auth_user = user; handler = h' })
  answer_challenge (some (publickey_request key algo sent)) enc auth h user b =
      ok (record { enc = reject_auth_request enc auth; auth_user = user; handler = h })
  answer_challenge none enc auth h user b =
      ok (record { enc = reject_auth_request enc auth; auth_user = user; handler = h })

  unfoldable pub read_userauth_info_response :
      Encrypted → AuthRequest → H → Bytes → Bytes → Outcome (Attempt H)
  unfolding answer_challenge
  read_userauth_info_response enc auth h user b = answer_challenge auth.current enc auth h user b

  -- The session and the handler after a request.
  abbrev pub with_attempt : CommonSession → Attempt H → CommonSession × H
  with_attempt s a = (record s { encrypted = some a.enc; auth_user = a.auth_user }, a.handler)

  module _ ⦃c : Sodium⦄ (keys : Keys Key)
      (authenticated_packet : CommonSession → H → Bytes → Outcome (CommonSession × H)) where
    -- The packet `buf`, whose first byte is `first`, in each state.
    unfoldable pub read_in_state :
        EncryptedState
        → LoginConfig
        → CommonSession
        → H
        → Encrypted
        → ℕ
        → Bytes
        → Outcome (CommonSession × H)
    read_in_state (waiting_service_request accepted) config s h enc first buf =
        if first == Msg.service_request
        then (do
          (request, r) ← try_foreign (e.read_string (drop 1 buf))
          let (write, auth) = server_accept_service config.auth_banner config.methods enc.write
          let enc' = record enc { write = write; state = waiting_auth_request auth }
          ok (
              if bytes_eq request (codes "ssh-userauth")
              then (record s { encrypted = some enc' }, h)
              else (s, h)))
        else ok (s, h)
    read_in_state (waiting_auth_request auth) config s h enc first buf =
        if first == Msg.userauth_request
        then (do
          a ← server_read_auth_request keys handler enc h buf s.auth_user
          ok (with_attempt s a))
        else if first == Msg.userauth_info_response
        then (do a ← read_userauth_info_response enc auth h s.auth_user buf; ok (with_attempt s a))
        else ok (s, h)
    read_in_state authenticated config s h enc first buf = authenticated_packet s h buf

    unfoldable pub server_read_encrypted :
        Option Bytes → LoginConfig → CommonSession → H → Bytes → Outcome (CommonSession × H)
    unfolding read_in_state
    server_read_encrypted cookie config s h buf = do
      enc ← unwrap s.encrypted
      first ← unwrap (get_elem? buf 0)
      if first == Msg.kexinit
          then (do s' ← server_rekey cookie config.key_exchange s enc buf; ok (s', h))
          else read_in_state enc.state config s h enc first buf
