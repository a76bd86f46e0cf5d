-- ===== src/Ends/Login.antt =====
-- The login of a client with a password: src/client/encrypted.rs and src/server/encrypted.rs
-- together; and what a client signs with a key.
use thrussh_fork.Base.{
  ◌^◌, ◌<◌, ◌≡◌, refl, sym, ap, ◌∙◌, true, some, [], ◌∷◌, ◌++◌, Bytes, codes, length, drop,
  drop-append, append-nil, append_assoc, ok, ◌>>=◌, try_foreign, arith,
}
use thrussh_fork.Protocol.Msg
use thrussh_fork.Wire.{Encoding, IsEncoding}
use thrussh_fork.Wire.Frames.{frame, push_packet_lem}
use thrussh_fork.Wire.Reads.{Fits, IsText, read_last}
use thrussh_fork.Cipher.Keys.{Sodium}
use thrussh_fork.Dh.Algorithm.{Curve}
use thrussh_fork.Key.{KeyPair, KeyCrate, pair_name, push_pair_to}
use thrussh_fork.Key.Blobs.{public, blob, IsKeyCrate, push_pair_lem, push_to_lem}
use thrussh_fork.Auth.Methods.{AuthRequest, publickey_request}
use thrussh_fork.Session.State.{Encrypted, waiting_auth_request, authenticated}
use thrussh_fork.Server.Login.{parsed, Keys, Handler, accept, auth_request, grant_access}
use thrussh_fork.Server.Requests.{finish_password, auth_by_password, server_read_auth_request}
use thrussh_fork.Server.Senders.{push}
use thrussh_fork.Server.Probe.{key_packet, key_packet_append, probed_key_unchecked}
use thrussh_fork.Client.State.{password, Reply, auth_success, Session, Config, World}
use thrussh_fork.Client.State as State
use thrussh_fork.Client.Login.{
  auth_packet, with_enc, client_make_to_sign, client_send_signature, client_waiting_auth,
}
use thrussh_fork.Client.Messages.{client_in_state, client_read_encrypted}

module _ ⦃e : Encoding⦄ ⦃c : Sodium⦄ ⦃k : Curve⦄ ⦃ks : KeyCrate⦄ (laws : IsEncoding e) where
  -- The server asks its handler, who lets the user in.
  lets_in :
      {Key H : Type 0} (keys : Keys Key) (handler : Handler Key H) (enc : Encrypted)
      (auth : AuthRequest) (h h' : H) (user given before : Bytes)
      → enc.state ≡ waiting_auth_request auth
      → handler.auth_password h user given ≡ some (h', accept)
      → IsText user
      → IsText given
      → server_read_auth_request keys handler enc h (auth_packet user (password given)) before
        ≡ ok (record { enc = grant_access enc; auth_user = user; handler = h' })
  unfolding server_read_auth_request auth_by_password finish_password auth_request auth_packet
  lets_in keys handler enc auth h h' user given before waits answer (fits, text) (fits', text') =
      rw (laws.read_string-ssh_string user _ fits, text)
        (rw (laws.read_string-ssh_string (codes "ssh-connection") _ (omega arith)) (
          rw (laws.read_string-ssh_string (codes "password") _ (omega arith)) (
            rw (waits, laws.read_byte-cons 1 _)
              (rw (read_last laws given fits', text') (rw answer refl)))))

  -- The client hears that it was let in.
  is_let_in :
      {H : Type 0} (handler : State.Handler H) (config : Config) (w : World) (s : Session)
      (enc : Encrypted) (auth : AuthRequest) (h : H)
      → s.common.encrypted ≡ some enc
      → enc.state ≡ waiting_auth_request auth
      → s.sender_open ≡ true
      → client_read_encrypted handler config w s h (Msg.userauth_success ∷ [])
        ≡ ok (
          with_enc
              (record s { sender = s.sender ++ (auth_success ∷ []) })
              (record enc { state = authenticated }),
          h,
        )
  unfolding client_read_encrypted client_in_state client_waiting_auth
  is_let_in handler config w s enc auth h keys waits alive = simp (keys, waits, alive)

  -- Where the handler of the server accepts the password of a user, both texts UTF-8 that fits: the
  -- packet that the client writes for them makes the server push the success packet and take the
  -- session for authenticated, and a client that waits for the answer, and whose handle is there,
  -- takes that packet for the success and tells the handle.
  pub password_login :
      {Key H K : Type 0} (keys : Keys Key) (handler : Handler Key H) (own : State.Handler K)
      (config : Config) (w : World) (senc cenc : Encrypted) (auth auth' : AuthRequest) (h h' : H)
      (g : K) (user given before : Bytes) (s : Session)
      → senc.state ≡ waiting_auth_request auth
      → handler.auth_password h user given ≡ some (h', accept)
      → IsText user
      → IsText given
      → s.common.encrypted ≡ some cenc
      → cenc.state ≡ waiting_auth_request auth'
      → s.sender_open ≡ true
      → (server_read_auth_request keys handler senc h (auth_packet user (password given)) before
          ≡ ok (record {
            enc = record senc {
              write = senc.write ++ frame (Msg.userauth_success ∷ []);
              state = authenticated;
            };
            auth_user = user;
            handler = h';
          }))
        × (client_read_encrypted own config w s g (Msg.userauth_success ∷ [])
            ≡ ok (
              with_enc
                  (record s { sender = s.sender ++ (auth_success ∷ []) })
                  (record cenc { state = authenticated }),
              g,
            ))
  unfolding grant_access
  password_login keys handler own config w senc cenc auth auth' h h' g user given before s waits
        answer text text' known waits' alive =
      (
        lets_in keys handler senc auth h h' user given before waits answer text text'
            ∙ rw push_packet_lem refl,
        is_let_in own config w s cenc auth' g known waits' alive,
      )

  to_sign :
      (crate : IsKeyCrate) (enc : Encrypted) (user : Bytes) (key : KeyPair)
      → length (blob (public key)) < 2 ^ 32
      → client_make_to_sign enc user (pair_name key) (push_pair_to key) ≡ (
        e.ssh_string enc.session_id ++ key_packet user (pair_name key) (blob (public key)) [],
        length (e.ssh_string enc.session_id),
      )
  unfolding client_make_to_sign
  to_sign crate enc user key fits =
      rw (push_pair_lem key, push_to_lem laws crate (public key) fits, append-nil)

  cut_off :
      (x user name b sig : Bytes)
      → drop (length x) ((x ++ key_packet user name b []) ++ sig) ≡ key_packet user name b sig
  cut_off x user name b sig =
      ap (λ (s : Bytes). drop (length x) s) (append_assoc x (key_packet user name b []) sig)
      ∙ drop-append (length x) x (key_packet user name b [] ++ sig) refl
      ∙ sym (key_packet_append user name b sig)

  sends :
      (enc : Encrypted) (user : Bytes) (key : KeyPair)
      → client_send_signature enc user key ≡ (
          let made = client_make_to_sign enc user (pair_name key) (push_pair_to key) in
          try_foreign (ks.add_self_signature key made.0) >>= λ signature.
          ok (push enc (drop made.1 (made.0 ++ signature)), made.0 ++ signature))
  unfolding client_send_signature client_make_to_sign
  sends enc user key = refl

  client_signs :
      (crate : IsKeyCrate) (enc : Encrypted) (user sig : Bytes) (key : KeyPair)
      → length (blob (public key)) < 2 ^ 32
      → ks.add_self_signature key
          (e.ssh_string enc.session_id ++ key_packet user (pair_name key) (blob (public key)) [])
        ≡ some sig
      → client_send_signature enc user key
        ≡ ok (
          record enc {
            write = enc.write ++ frame (key_packet user (pair_name key) (blob (public key)) sig);
          },
          (e.ssh_string enc.session_id ++ key_packet user (pair_name key) (blob (public key)) [])
              ++ sig,
        )
  client_signs crate enc user sig key fits signed =
      sends enc user key
      ∙ rw (to_sign crate enc user key fits, signed)
          (rw
            (
              cut_off (e.ssh_string enc.session_id) user (pair_name key) (blob (public key)) sig,
              push_packet_lem,
            )
            refl)

  -- The bytes of a signature, behind the name of its kind.
  abbrev pub signature_of : Bytes → Bytes → Bytes
  signature_of algo raw = e.ssh_string (e.ssh_string algo ++ (e.ssh_string raw ++ []))

  -- What the client signs, and what the server has to verify.
  abbrev pub signed_bytes : Encrypted → Bytes → KeyPair → Bytes
  signed_bytes enc user key =
      e.ssh_string enc.session_id ++ key_packet user (pair_name key) (blob (public key)) []

  -- Where both ends have the same session id, the user has probed a key at the server with success,
  -- the signature of the key pair over the bytes that the client has to sign is one that the server
  -- verifies over the bytes that it has to verify, and the lengths fit: the client appends the
  -- frame of a packet with which the server lets the user in.
  pub key_login :
      {Key H : Type 0} (crate : IsKeyCrate) (keys : Keys Key) (handler : Handler Key H)
      (cenc senc : Encrypted) (auth : AuthRequest) (h : H) (user probed algo raw : Bytes)
      (key : KeyPair) (pubkey : Key)
      → cenc.session_id ≡ senc.session_id
      → ks.add_self_signature key (signed_bytes cenc user key)
        ≡ some (signature_of (pair_name key) raw)
      → keys.parse (pair_name key) (blob (public key)) ≡ parsed pubkey
      → keys.verify pubkey (signed_bytes senc user key) raw ≡ true
      → senc.state ≡ waiting_auth_request auth
      → auth.current ≡ some (publickey_request probed algo true)
      → IsText user
      → Fits (pair_name key)
      → Fits (blob (public key))
      → Fits raw
      → Fits (e.ssh_string (pair_name key) ++ (e.ssh_string raw ++ []))
      → (sent : Encrypted) × (buffer p : Bytes) × (client_send_signature cenc user key
          ≡ ok (sent, buffer))
        × (sent.write ≡ cenc.write ++ frame p)
        × (server_read_auth_request keys handler senc h p user
            ≡ ok (record { enc = grant_access senc; auth_user = user; handler = h }))
  key_login crate keys handler cenc senc auth h user probed algo raw key pubkey same signed known
        verified waits current (fits, text) f1 f2 f3 f4 =
      (
        record cenc {
          write =
              cenc.write
              ++ frame (
                  key_packet user (pair_name key) (blob (public key))
                    (signature_of (pair_name key) raw));
        },
        signed_bytes cenc user key ++ signature_of (pair_name key) raw,
        key_packet user (pair_name key) (blob (public key)) (signature_of (pair_name key) raw),
        client_signs crate cenc user (signature_of (pair_name key) raw) key f2 signed,
        refl,
        ap
              (λ (b : Bytes).
                server_read_auth_request keys handler senc h
                  (key_packet user (pair_name key) (blob (public key)) b) user)
              (sym (append-nil (signature_of (pair_name key) raw)))
            ∙ probed_key_unchecked laws keys handler senc auth h user probed algo (pair_name key)
                (blob (public key)) raw pubkey waits current text known verified fits f1 f2 f3 f4,
      )
