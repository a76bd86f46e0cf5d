-- ===== src/Client/Login.antt =====
-- The authentication of a client, src/client/encrypted.rs: the requests that it writes, what it
-- signs, and what it does with the answers of the server.
use thrussh_fork.Base.{
  ℕ, Bool, true, false, not, Option, none, some, List, [], ◌∷◌, ◌++◌, Bytes, codes, bytes_eq,
  length, drop, leb, ◌==◌, if◌then◌else◌, Outcome, ok, err, stuck, inconsistent, send_error,
  no_auth_method, ◌>>=◌, ◌>>◌, guard, assert, try_foreign,
}
use thrussh_fork.Protocol.Msg
use thrussh_fork.Wire.{Encoding}
use thrussh_fork.Negotiation.Select.{split}
use thrussh_fork.Auth.Methods.{all, AuthRequest, publickey_request, keyboard_request, union_names}
use thrussh_fork.Session.State.{
  Encrypted, EncryptedState, waiting_service_request, waiting_auth_request, authenticated,
}
use thrussh_fork.Key.{PublicKey, KeyPair, KeyCrate, public_name, pair_name, push_to, push_pair_to}
use thrussh_fork.Server.Senders.{push}
use thrussh_fork.Client.State.{
  Method, password, public_key, future_public_key, Reply, auth_success, auth_failure, sign_request,
  ClientMsg, signed, Session, Event, auth_banner, Handler,
}

-- `self.sender.send(reply).map_err(|_| Error::SendError)?`
abbrev pub send_reply : Session → Reply → Outcome Session
send_reply s reply =
    guard s.sender_open send_error >> ok (record s { sender = s.sender ++ (reply ∷ []) })

-- `loop { match self.receiver.recv().await { .. } }`: the first signature, and the messages behind it.
-- The messages before it are dropped; without one the loop waits for ever.
unfoldable pub await_signed : List ClientMsg → Outcome (Bytes × List ClientMsg)
await_signed [] = stuck
await_signed (signed given ∷ ms) = ok (given, ms)
await_signed (_ ∷ ms) = await_signed ms

abbrev pub with_enc : Session → Encrypted → Session
with_enc s enc = record s { common = record s.common { encrypted = some enc } }

abbrev pub client_deliver : {H : Type 0} → Handler H → Event → Session → H → Outcome (Session × H)
client_deliver handler ev s h = try_foreign (handler.call ev h s) >>= λ r. ok (r.1, r.0)

module _ ⦃e : Encoding⦄ ⦃ks : KeyCrate⦄ where
  -- The request for a user, up to what depends on the method.
  abbrev pub request_header : Bytes → Bytes → Bytes → Bytes
  request_header user method rest =
      Msg.userauth_request
      ∷ (e.ssh_string user
          ++ (e.ssh_string (codes "ssh-connection") ++ (e.ssh_string method ++ rest)))

  unfoldable pub auth_packet : Bytes → Method → Bytes
  unfolding push_to push_pair_to
  auth_packet user (password given) =
      request_header user (codes "password") (1 ∷ e.ssh_string given)
  auth_packet user (public_key key) =
      request_header user (codes "publickey")
        (0 ∷ (e.ssh_string (pair_name key) ++ push_pair_to key))
  auth_packet user (future_public_key key) =
      request_header user (codes "publickey") (0 ∷ (e.ssh_string (public_name key) ++ push_to key))

  unfoldable pub write_auth_request : Encrypted → Bytes → Method → Encrypted
  unfolding auth_packet
  write_auth_request enc user meth = push enc (auth_packet user meth)

  -- What is signed, and where in it the request begins. The key is given by its name and by what
  -- `push_to` appends for it.
  unfoldable pub client_make_to_sign : Encrypted → Bytes → Bytes → Bytes → Bytes × ℕ
  client_make_to_sign enc user key_name key_bytes = (
    e.ssh_string enc.session_id
        ++ request_header user (codes "publickey") (1 ∷ (e.ssh_string key_name ++ key_bytes)),
    length (e.ssh_string enc.session_id),
  )

  -- The buffer is what is left in `self.common.buffer`.
  unfoldable pub client_send_signature : Encrypted → Bytes → KeyPair → Outcome (Encrypted × Bytes)
  unfolding client_make_to_sign
  client_send_signature enc user key = do
    let to_sign = client_make_to_sign enc user (pair_name key) (push_pair_to key)
    signature ← try_foreign (ks.add_self_signature key to_sign.0)
    let buffer = to_sign.0 ++ signature
    ok (push enc (drop to_sign.1 buffer), buffer)

  -- Whether a request can be written now.
  abbrev pub is_waiting : EncryptedState → Bool
  is_waiting (waiting_auth_request a) = true
  is_waiting (waiting_service_request accepted) = accepted
  is_waiting authenticated = false

  unfoldable pub write_auth_request_if_needed : Session → Bytes → Method → Session
  unfolding write_auth_request
  write_auth_request_if_needed s user meth = elim s.common.encrypted [
    | none ↦ record s { common = record s.common { auth_user = user }; auth_method = some meth }
    | some enc ↦ record s {
      common = record s.common {
        encrypted = some (if is_waiting enc.state then write_auth_request enc user meth else enc);
        auth_user = user;
      };
      auth_method = some meth;
    }
  ]

  abbrev pub new_auth_request : AuthRequest
  new_auth_request = record {
    methods = all;
    partial_success = false;
    current = none;
    rejection_count = 0;
  }

  -- The service is accepted: a request that is known already is written.
  unfoldable pub on_service_accept : Session → Encrypted → Session
  unfolding write_auth_request
  on_service_accept s enc = elim s.auth_method [
    | none ↦ with_enc s (record enc { state = waiting_service_request true })
    | some meth ↦ with_enc s (record (write_auth_request enc s.common.auth_user meth) {
      state = waiting_auth_request new_auth_request;
    })
  ]

  unfoldable pub on_failure : Session → Encrypted → AuthRequest → Bytes → Outcome Session
  on_failure s enc auth buf = do
    (remaining, r) ← try_foreign (e.read_string (drop 1 buf))
    let methods = union_names (split remaining) 0
    s' ←
        send_reply
          (with_enc (record s { auth_method = none })
            (record enc { state = waiting_auth_request (record auth { methods = methods }) }))
          auth_failure
    guard (not (methods == 0)) no_auth_method
    ok s'

  -- `if let Some(CurrentRequest::PublicKey { ref mut sent_pk_ok, .. }) = auth_request.current`
  abbrev pub mark_pk_ok : AuthRequest → AuthRequest
  mark_pk_ok auth = elim auth.current [
    | none ↦ auth
    | some (publickey_request key algo sent) ↦ record auth {
      current = some (publickey_request key algo true);
    }
    | some (keyboard_request submethods) ↦ auth
  ]

  -- The key is not on this machine: its signature is asked for.
  unfoldable pub sign_elsewhere : Session → Encrypted → PublicKey → Outcome Session
  unfolding await_signed client_make_to_sign
  sign_elsewhere s enc key = do
    let to_sign = client_make_to_sign enc s.common.auth_user (public_name key) (push_to key)
    s' ← send_reply s (sign_request key to_sign.0)
    (given, later) ← await_signed s'.receiver
    let s'' = record s' { receiver = later; common = record s'.common { buffer = given } }
    if length given == length to_sign.0
        then ok (with_enc s'' enc)
        else (assert (leb to_sign.1 (length given))
            >> ok (with_enc s'' (push enc (drop to_sign.1 given))))

  unfoldable pub on_pk_ok : Option Method → Session → Encrypted → Outcome Session
  unfolding client_send_signature sign_elsewhere
  on_pk_ok none s enc = ok (with_enc s enc)
  on_pk_ok (some (password given)) s enc = ok (with_enc s enc)
  on_pk_ok (some (public_key key)) s enc = do
    (enc', buffer) ← client_send_signature enc s.common.auth_user key
    ok (with_enc (record s { common = record s.common { buffer = buffer } }) enc')
  on_pk_ok (some (future_public_key key)) s enc = sign_elsewhere s enc key

  module _ {H : Type 0} (handler : Handler H) where
    unfoldable pub on_banner : Session → H → Bytes → Outcome (Session × H)
    on_banner s h buf = do
      (banner, r) ← try_foreign (e.read_string (drop 1 buf))
      if e.is_utf8 banner then client_deliver handler (auth_banner banner) s h else ok (s, h)

    unfoldable pub client_waiting_auth :
        Session → H → Encrypted → AuthRequest → ℕ → Bytes → Outcome (Session × H)
    unfolding on_banner on_failure on_pk_ok
    client_waiting_auth s h enc auth first buf =
        if first == Msg.userauth_success
        then (do
          s' ← send_reply s auth_success
          ok (with_enc s' (record enc { state = authenticated }), h))
        else if first == Msg.userauth_banner
        then on_banner s h buf
        else if first == Msg.userauth_failure
        then (do s' ← on_failure s enc auth buf; ok (s', h))
        else if first == Msg.userauth_pk_ok
        then (do
          s' ←
              on_pk_ok s.auth_method (record s { auth_method = none })
                (record enc { state = waiting_auth_request (mark_pk_ok auth) })
          ok (s', h))
        else err inconsistent

    unfoldable pub client_waiting_service :
        Session → H → Encrypted → ℕ → Bytes → Outcome (Session × H)
    unfolding on_service_accept
    client_waiting_service s h enc first buf =
        if first == Msg.service_accept
        then (do
          (service, r) ← try_foreign (e.read_string (drop 1 buf))
          ok (if bytes_eq service (codes "ssh-userauth") then on_service_accept s enc else s, h))
        else err inconsistent
