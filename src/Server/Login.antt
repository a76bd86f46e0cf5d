-- ===== src/Server/Login.antt =====
-- The authentication requests of src/server/encrypted.rs. The handler belongs to the application
-- and the keys to thrussh-keys: both are parameters. Delays are left out.
use thrussh_fork.Base.{
  ℕ, ◌+◌, ◌%◌, ◌^◌, Bool, true, false, Option, none, some, List, [], ◌∷◌, ◌++◌, Bytes, codes,
  length, if◌then◌else◌, Outcome, ok, panic,
}
use thrussh_fork.Protocol.Msg
use thrussh_fork.Wire.{Encoding, push_packet}
use thrussh_fork.Auth.Methods.{
  MethodSet, AuthRequest, publickey_request, keyboard_request, method_names,
}
use thrussh_fork.Session.State.{
  Encrypted, EncryptedState, waiting_service_request, waiting_auth_request, authenticated,
}

pub data Auth : Type 0 where
  reject : Auth
  accept : Auth
  unsupported_method : Auth
  partial : Bytes → Bytes → List (Bytes × Bool) → Auth

-- The answers of a client: how many it announced, and the bytes that hold them.
pub record Response : Type 0 where
  pub pos : Bytes
  pub n : ℕ

-- `PublicKey::parse`: a key, the error `CouldNotReadKey`, or another error.
pub data Parsed (Key : Type 0) : Type 0 where
  parsed : Key → Parsed Key
  could_not_read : Parsed Key
  failed : Parsed Key

pub record Keys (Key : Type 0) : Type 0 where
  pub parse : Bytes → Bytes → Parsed Key
  -- `verify_client_auth`, of a key, the bytes signed and a signature.
  pub verify : Key → Bytes → Bytes → Bool

-- The methods of the trait `Handler` on authentication: the handler that is returned and the
-- answer, or an error.
pub record Handler (Key H : Type 0) : Type 0 where
  pub auth_password : H → Bytes → Bytes → Option (H × Auth)
  pub auth_publickey : H → Bytes → Key → Option (H × Auth)
  pub auth_keyboard_interactive : H → Bytes → Bytes → Option Response → Option (H × Auth)

-- What a request changes: the session, the name of its user, and the handler.
pub record Attempt (H : Type 0) : Type 0 where
  pub enc : Encrypted
  pub auth_user : Bytes
  pub handler : H

abbrev pub is_accept : Auth → Bool
is_accept accept = true
is_accept _ = false

abbrev pub sent_pk_ok : AuthRequest → Bool
sent_pk_ok auth = elim auth.current [
  | none ↦ false
  | some (publickey_request key algo sent) ↦ sent
  | some (keyboard_request submethods) ↦ false
]

-- `if let WaitingAuthRequest(ref mut a) = self.state { a } else { unreachable!() }`
unfoldable pub auth_request : EncryptedState → Outcome AuthRequest
auth_request (waiting_auth_request a) = ok a
auth_request (waiting_service_request accepted) = panic
auth_request authenticated = panic

abbrev pub prompt_bytes : ⦃e : Encoding⦄ → List (Bytes × Bool) → Bytes
prompt_bytes [] = []
prompt_bytes ⦃e⦄ ((text, echo) ∷ ps) =
    e.ssh_string text ++ ((if echo then 1 else 0) ∷ prompt_bytes ps)

module _ ⦃e : Encoding⦄ where
  -- The packets of a new service: that it is accepted, and the banner, if any.
  unfoldable pub server_accept_service : Option Bytes → MethodSet → Bytes → Bytes × AuthRequest
  server_accept_service banner methods buffer =
      let accepted =
        push_packet buffer (Msg.service_accept ∷ e.ssh_string (codes "ssh-userauth")) in
      let auth : AuthRequest = record {
        methods = methods;
        partial_success = false;
        current = none;
        rejection_count = 0;
      } in
      elim banner [
        | none ↦ (accepted, auth)
        | some text ↦ (
          push_packet accepted (Msg.userauth_banner ∷ (e.ssh_string text ++ e.ssh_string [])),
          auth,
        )
      ]

  abbrev pub failure_packet : AuthRequest → Bytes
  failure_packet auth =
      Msg.userauth_failure
      ∷ (e.name_list (method_names auth.methods) ++ ((if auth.partial_success then 1 else 0) ∷ []))

  -- The session is the one whose pending bytes and request the source passes by reference.
  unfoldable pub reject_auth_request : Encrypted → AuthRequest → Encrypted
  reject_auth_request enc auth = record enc {
    write = push_packet enc.write (failure_packet auth);
    state =
        waiting_auth_request
          (record auth { current = none; rejection_count = auth.rejection_count + 1 });
  }

  unfoldable pub server_auth_request_success : Bytes → Bytes
  server_auth_request_success buffer = push_packet buffer (Msg.userauth_success ∷ [])

  -- The request succeeds, and the state is set.
  unfoldable pub grant_access : Encrypted → Encrypted
  unfolding server_auth_request_success
  grant_access enc = record enc {
    write = server_auth_request_success enc.write;
    state = authenticated;
  }

  -- The answer in a challenge. `unreachable!()` is reached where the handler says that it does not
  -- support the method.
  unfoldable pub reply_userauth_info_response : Encrypted → AuthRequest → Auth → Outcome Encrypted
  unfolding grant_access reject_auth_request
  reply_userauth_info_response enc auth accept = ok (grant_access enc)
  reply_userauth_info_response enc auth reject =
      ok (reject_auth_request enc (record auth { partial_success = false }))
  reply_userauth_info_response enc auth (partial name instructions prompts) = ok (record enc {
    write = push_packet enc.write (
        Msg.userauth_info_request
        ∷ (e.ssh_string name
            ++ (e.ssh_string instructions
                ++ (e.ssh_string []
                    ++ (e.u32_be (length prompts % 2 ^ 32) ++ prompt_bytes prompts)))));
    state = waiting_auth_request auth;
  })
  reply_userauth_info_response enc auth unsupported_method = panic
