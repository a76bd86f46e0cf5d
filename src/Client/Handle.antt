-- ===== src/Client/Handle.antt =====
-- What a program calls on the client, `Handle`, `ChannelSender` and `Channel` of src/client/mod.rs:
-- each call sends a message to the session, and some wait for an answer.

pub mod Calls
pub mod Logins
use thrussh_fork.Base.{
  ℕ, ◌≡◌, ap, Bool, true, false, Option, none, some, List, [], ◌∷◌, ◌++◌, Bytes, Outcome, ok, err,
  foreign, panic, stuck, send_error, disconnect, ◌>>=◌, ◌>>◌, guard, try_foreign,
}
use thrussh_fork.Protocol.Pty.{Pty}
use thrussh_fork.Protocol.Names.{Disconnect, Sig, ChannelMsg}
use thrussh_fork.Key.{PublicKey, KeyPair}
use thrussh_fork.Client.State as State
use thrussh_fork.Client.State.{
  Method, password, public_key, future_public_key, Reply, auth_success, auth_failure,
  channel_open_failure, sign_request, OpenChannelMsg, opened, msg, ClientMsg,
}

-- The queue holds what was sent to the session, which takes it as long as `is_open`. The replies are
-- those of the session that are to come, and once it is gone there are no more.
pub record Handle : Type 0 where
  pub queue : List ClientMsg
  pub is_open : Bool
  pub replies : List Reply

-- A call that waits has taken all replies; else it has returned.
pub data Call (A : Type 0) : Type 0 where
  waits : Handle → Call A
  returned : Handle → A → Call A

-- `self.sender.send(m).await.map_err(|_| Error::SendError)?`
unfoldable pub send_msg : Handle → ClientMsg → Outcome Handle
send_msg h m = guard h.is_open send_error >> ok (record h { queue = h.queue ++ (m ∷ []) })

pub send_msg_lem :
    (h : Handle) (m : ClientMsg)
    → h.is_open ≡ true
    → send_msg h m ≡ ok (record h { queue = h.queue ++ (m ∷ []) })
unfolding send_msg
send_msg_lem h m on =
    ap (λ (b : Bool). guard b send_error >> ok (record h { queue = h.queue ++ (m ∷ []) })) on

-- The session is gone: `recv` gives None behind the last reply.
abbrev pub no_reply : {A : Type 0} → Handle → A → Call A
no_reply h a = elim h.is_open [ true ↦ waits h | false ↦ returned h a ]

-- `loop { match self.receiver.recv().await { .. } }`
unfoldable pub await_auth : Handle → List Reply → Call Bool
await_auth h [] = no_reply (record h { replies = [] }) false
await_auth h (auth_success ∷ rs) = returned (record h { replies = rs }) true
await_auth h (auth_failure ∷ rs) = returned (record h { replies = rs }) false
await_auth h (channel_open_failure ∷ rs) = await_auth h rs
await_auth h (sign_request key given ∷ rs) = await_auth h rs

unfoldable pub authenticate_password : Handle → Bytes → Bytes → Outcome (Call Bool)
unfolding send_msg await_auth
authenticate_password h user text = do
  h' ← send_msg h (State.authenticate user (password text))
  ok (await_auth h' h'.replies)

unfoldable pub authenticate_publickey : Handle → Bytes → KeyPair → Outcome (Call Bool)
unfolding send_msg await_auth
authenticate_publickey h user key = do
  h' ← send_msg h (State.authenticate user (public_key key))
  ok (await_auth h' h'.replies)

-- `auth_publickey_sign` belongs to the program: the signer that it returns, and the signature or an
-- error.
module _ {S : Type 0} (sign : S → PublicKey → Bytes → S × Option Bytes) where
  unfoldable pub await_future : Handle → S → List Reply → Outcome (Call (S × Bool))
  unfolding send_msg
  await_future h s [] = ok (no_reply (record h { replies = [] }) (s, false))
  await_future h s (auth_success ∷ rs) = ok (returned (record h { replies = rs }) (s, true))
  await_future h s (auth_failure ∷ rs) = ok (returned (record h { replies = rs }) (s, false))
  await_future h s (channel_open_failure ∷ rs) = await_future h s rs
  await_future h s (sign_request key given ∷ rs) = try_foreign (sign s key given).1 >>= λ signature.
      send_msg h (State.signed signature) >>= λ h'. await_future h' (sign s key given).0 rs

  unfoldable pub authenticate_future : Handle → Bytes → PublicKey → S → Outcome (Call (S × Bool))
  unfolding send_msg await_future
  authenticate_future h user key s = do
    h' ← send_msg h (State.authenticate user (future_public_key key))
    await_future h' s h'.replies

-- What the receiver of a channel has to come, and whether its sender is there.
unfoldable pub wait_channel_confirmation :
    Bool → List OpenChannelMsg → Option (Outcome (ℕ × List OpenChannelMsg))
wait_channel_confirmation true [] = none
wait_channel_confirmation false [] = some (err disconnect)
wait_channel_confirmation b (opened id ∷ ms) = some (ok (id, ms))
wait_channel_confirmation b (msg m ∷ ms) = wait_channel_confirmation b ms

-- `Channel::wait`: the message, if any, and what is left.
unfoldable pub wait : Bool → List OpenChannelMsg → Option (Option ChannelMsg × List OpenChannelMsg)
wait true [] = none
wait false [] = some (none, [])
wait b (msg m ∷ ms) = some (some m, ms)
wait b (opened id ∷ ms) = wait b ms

-- The handle, the number of the channel and the rest of its messages, or the error; none where the
-- call waits.
abbrev pub confirmed :
    Outcome Handle
    → Bool
    → List OpenChannelMsg
    → Option (Outcome (Handle × ℕ × List OpenChannelMsg))
confirmed (ok h) b ms = elim (wait_channel_confirmation b ms) [
  | none ↦ none
  | some m ↦ some (m >>= λ r. ok (h, r.0, r.1))
]
confirmed (err x) b ms = some (err x)
confirmed foreign b ms = some foreign
confirmed panic b ms = some panic
confirmed stuck b ms = some stuck

module _ (h : Handle) (b : Bool) (ms : List OpenChannelMsg) where
  unfoldable pub open_session : Option (Outcome (Handle × ℕ × List OpenChannelMsg))
  unfolding send_msg wait_channel_confirmation
  open_session = confirmed (send_msg h State.channel_open_session) b ms

  unfoldable pub open_x11 : Bytes → ℕ → Option (Outcome (Handle × ℕ × List OpenChannelMsg))
  unfolding send_msg wait_channel_confirmation
  open_x11 address port = confirmed (send_msg h (State.channel_open_x11 address port)) b ms

  unfoldable pub open_direct_tcpip :
      Bytes → ℕ → Bytes → ℕ → Option (Outcome (Handle × ℕ × List OpenChannelMsg))
  unfolding send_msg wait_channel_confirmation
  open_direct_tcpip host port address port' =
      confirmed (send_msg h (State.channel_open_direct_tcpip host port address port')) b ms

unfoldable pub send_disconnect : Handle → Disconnect → Bytes → Bytes → Outcome Handle
unfolding send_msg
send_disconnect h reason description language_tag =
    send_msg h (State.disconnect reason description language_tag)
