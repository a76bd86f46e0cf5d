-- ===== src/Server/Requests.antt =====
-- `server_read_auth_request` and `server_read_auth_request_pk` of src/server/encrypted.rs.
use thrussh_fork.Base.{
  ℕ, ◌-◌, Bool, true, false, Option, none, some, [], ◌∷◌, ◌++◌, Bytes, codes, length, take, drop,
  bytes_eq, ◌==◌, ◌&&◌, not, if◌then◌else◌, Outcome, ok, err, foreign, inconsistent, ◌>>=◌,
  try_foreign,
}
use thrussh_fork.Protocol.Msg
use thrussh_fork.Wire.{Encoding, push_packet}
use thrussh_fork.Auth.Methods.{AuthRequest, publickey_request, keyboard_request, password, remove}
use thrussh_fork.Session.State.{Encrypted, waiting_auth_request}
use thrussh_fork.Server.Login.{
  Auth, Parsed, parsed, could_not_read, failed, Keys, Handler, Attempt, is_accept, sent_pk_ok,
  auth_request, reject_auth_request, grant_access, reply_userauth_info_response,
}

-- `std::str::from_utf8(b)?`
abbrev pub utf8 : ⦃e : Encoding⦄ → Bytes → Option Bytes
utf8 ⦃e⦄ b = if e.is_utf8 b then some b else none

module _ ⦃e : Encoding⦄ {Key H : Type 0} (keys : Keys Key) (handler : Handler Key H) where
  unfoldable pub finish_password : Encrypted → AuthRequest → Bytes → H × Auth → Attempt H
  unfolding grant_access reject_auth_request
  finish_password enc auth user (h, answer) =
      if is_accept answer
      then record { enc = grant_access enc; auth_user = user; handler = h }
      else record {
        enc =
            reject_auth_request enc
              (record auth { methods = remove auth.methods password; partial_success = false });
        auth_user = [];
        handler = h;
      }

  unfoldable pub auth_by_password : Encrypted → H → Bytes → Bytes → Outcome (Attempt H)
  unfolding finish_password auth_request
  auth_by_password enc h user r = do
    auth ← auth_request enc.state
    (skip, r1) ← try_foreign (e.read_byte r)
    (given, r2) ← try_foreign (e.read_string r1)
    text ← try_foreign (utf8 given)
    answer ← try_foreign (handler.auth_password h user text)
    ok (finish_password enc auth user answer)

  -- A key that is offered without a signature: the handler says whether it may be used.
  unfoldable pub finish_probe :
      Encrypted → AuthRequest → Bytes → Bytes → Bytes → H × Auth → Attempt H
  unfolding reject_auth_request
  finish_probe enc auth user algo key_bytes (h, answer) =
      if is_accept answer
      then record {
        enc = record enc {
          write =
              push_packet enc.write
                (Msg.userauth_pk_ok ∷ (e.ssh_string algo ++ e.ssh_string key_bytes));
          state =
              waiting_auth_request
                (record auth { current = some (publickey_request key_bytes algo true) });
        };
        auth_user = user;
        handler = h;
      }
      else record {
        enc = reject_auth_request enc (record auth { partial_success = false });
        auth_user = [];
        handler = h;
      }

  -- Whether the key may be used, with the name of the user and the handler after the question.
  unfoldable pub is_valid : AuthRequest → Bytes → Bytes → H → Key → Outcome (Bool × Bytes × H)
  is_valid auth auth_user user h pubkey =
      if sent_pk_ok auth && bytes_eq user auth_user
      then ok (true, auth_user, h)
      else if length auth_user == 0
      then (do
        (h', answer) ← try_foreign (handler.auth_publickey h user pubkey)
        ok (is_accept answer, user, h'))
      else ok (false, auth_user, h)

  unfoldable pub finish_signed :
      Encrypted → AuthRequest → Key → Bytes → Bytes → Bool × Bytes × H → Attempt H
  unfolding grant_access reject_auth_request
  finish_signed enc auth pubkey init sig (valid, auth_user, h) =
      if valid && keys.verify pubkey (e.ssh_string enc.session_id ++ init) sig
      then record { enc = grant_access enc; auth_user = auth_user; handler = h }
      else record { enc = reject_auth_request enc auth; auth_user = auth_user; handler = h }

  -- A key with a signature: `init` is the part of the packet that is signed.
  unfoldable pub auth_signed :
      Encrypted → AuthRequest → H → Bytes → Bytes → Bytes → Key → Bytes → Outcome (Attempt H)
  unfolding is_valid finish_signed
  auth_signed enc auth h auth_user user init pubkey r = do
    (signature, r1) ← try_foreign (e.read_string r)
    (algo, s1) ← try_foreign (e.read_string signature)
    (sig, s2) ← try_foreign (e.read_string s1)
    checked ← is_valid auth auth_user user h pubkey
    ok (finish_signed enc auth pubkey init sig checked)

  -- The key that the packet names, and what follows it.
  unfoldable pub auth_by_key :
      Parsed Key
      → Encrypted
      → AuthRequest
      → H
      → Bytes
      → Bytes
      → Bytes
      → ℕ
      → Bytes
      → Bytes
      → Bytes
      → Outcome (Attempt H)
  unfolding auth_signed finish_probe
  auth_by_key (parsed pubkey) enc auth h auth_user user init is_real algo key_bytes r =
      if not (is_real == 0) then auth_signed enc auth h auth_user user init pubkey r else (do
        answer ← try_foreign (handler.auth_publickey h user pubkey)
        ok (finish_probe enc auth user algo key_bytes answer))
  auth_by_key could_not_read enc auth h auth_user user init is_real algo key_bytes r =
      ok (record { enc = reject_auth_request enc auth; auth_user = auth_user; handler = h })
  auth_by_key failed enc auth h auth_user user init is_real algo key_bytes r = foreign

  unfoldable pub server_read_auth_request_pk :
      Encrypted → H → Bytes → Bytes → Bytes → Bytes → Outcome (Attempt H)
  unfolding auth_by_key auth_request
  server_read_auth_request_pk enc h buf auth_user user r = do
    auth ← auth_request enc.state
    (is_real, r1) ← try_foreign (e.read_byte r)
    (algo, r2) ← try_foreign (e.read_string r1)
    (key_bytes, r3) ← try_foreign (e.read_string r2)
    auth_by_key (keys.parse algo key_bytes) enc auth h auth_user user
        (take (length buf - length r3) buf) is_real algo key_bytes r3

  unfoldable pub auth_by_challenge : Encrypted → H → Bytes → Bytes → Outcome (Attempt H)
  unfolding auth_request
  auth_by_challenge enc h user r = do
    auth ← auth_request enc.state
    (language_tag, r1) ← try_foreign (e.read_string r)
    (given, r2) ← try_foreign (e.read_string r1)
    submethods ← try_foreign (utf8 given)
    (h', answer) ← try_foreign (handler.auth_keyboard_interactive h user submethods none)
    enc' ←
        reply_userauth_info_response enc
          (record auth { current = some (keyboard_request submethods) }) answer
    ok (record { enc = enc'; auth_user = user; handler = h' })

  -- Methods that are insecure or optional.
  unfoldable pub auth_by_other : Encrypted → H → Bytes → Outcome (Attempt H)
  unfolding auth_request
  auth_by_other enc h auth_user = do
    auth ← auth_request enc.state
    ok (record { enc = reject_auth_request enc auth; auth_user = auth_user; handler = h })

  unfoldable pub server_read_auth_request : Encrypted → H → Bytes → Bytes → Outcome (Attempt H)
  unfolding auth_by_password server_read_auth_request_pk auth_by_challenge auth_by_other
  server_read_auth_request enc h buf auth_user = do
    (user_bytes, r1) ← try_foreign (e.read_string (drop 1 buf))
    user ← try_foreign (utf8 user_bytes)
    (service_name, r2) ← try_foreign (e.read_string r1)
    (method, r3) ← try_foreign (e.read_string r2)
    if bytes_eq service_name (codes "ssh-connection")
        then (if bytes_eq method (codes "password")
            then auth_by_password enc h user r3
            else if bytes_eq method (codes "publickey")
            then server_read_auth_request_pk enc h buf auth_user user r3
            else if bytes_eq method (codes "keyboard-interactive")
            then auth_by_challenge enc h user r3
            else auth_by_other enc h auth_user)
        else err inconsistent
