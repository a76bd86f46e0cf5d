-- ===== src/Server/Senders.antt =====
-- What a server pushes on a session: the replies and requests of src/server/session.rs.
use thrussh_fork.Base.{
  ℕ, Bool, false, none, some, [], ◌∷◌, ◌++◌, Bytes, codes, if◌then◌else◌, Outcome, ok, err, panic,
  inconsistent, ◌>>=◌, ◌>>◌, assert,
}
use thrussh_fork.Base.Assoc.{lookup, insert}
use thrussh_fork.Protocol.Msg
use thrussh_fork.Protocol.Names.{ChannelOpenFailure, failure_code, Sig, name}
use thrussh_fork.Wire.{Encoding, push_packet}
use thrussh_fork.Session.State.{
  Channel, Encrypted, EncryptedState, waiting_service_request, waiting_auth_request, authenticated,
  CommonSession,
}
use thrussh_fork.Session.Channels.{byte, new_channel}
use thrussh_fork.Session.Data.{send, send_extended}

-- `if b { 1 } else { 0 }`
abbrev pub flag : Bool → ℕ
flag b = if b then 1 else 0

-- `if let Some(ref mut enc) = self.common.encrypted { .. }`
abbrev pub with_encrypted : CommonSession → (Encrypted → Outcome Encrypted) → Outcome CommonSession
with_encrypted s f = elim s.encrypted [
  | none ↦ ok s
  | some enc ↦ f enc >>= λ enc'. ok (record s { encrypted = some enc' })
]

-- The same, with `unreachable!()` for a session without keys.
abbrev pub with_keys :
    CommonSession → (Encrypted → Outcome (Encrypted × ℕ)) → Outcome (CommonSession × ℕ)
with_keys s f = elim s.encrypted [
  | none ↦ panic
  | some enc ↦ f enc >>= λ r. ok (record s { encrypted = some r.0 }, r.1)
]

-- `if let Some(channel) = enc.channels.get(&channel) { assert!(channel.confirmed); .. }`
abbrev pub with_confirmed : Encrypted → ℕ → (Channel → Encrypted) → Outcome Encrypted
with_confirmed enc id f = elim (lookup id enc.channels) [
  | none ↦ ok enc
  | some ch ↦ assert ch.confirmed >> ok (f ch)
]

module _ ⦃e : Encoding⦄ where
  abbrev pub push : Encrypted → Bytes → Encrypted
  push enc packet = record enc { write = push_packet enc.write packet }

  unfoldable pub request_success : CommonSession → Outcome CommonSession
  request_success s =
      if s.wants_reply
      then (elim s.encrypted [
        | none ↦ ok s
        | some enc ↦ ok (record s {
          wants_reply = false;
          encrypted = some (push enc (Msg.request_success ∷ []));
        })
      ])
      else ok s

  unfoldable pub request_anyhow : CommonSession → Outcome CommonSession
  request_anyhow s = elim s.encrypted [
    | none ↦ ok s
    | some enc ↦
        ok
          (record s { wants_reply = false; encrypted = some (push enc (Msg.request_failure ∷ [])) })
  ]

  -- Both replies to a channel request, of the message number `msg`: one is pushed if one is wanted.
  unfoldable pub reply_to : ℕ → Encrypted → ℕ → Channel → Encrypted
  reply_to msg enc id ch =
      if ch.wants_reply
      then push
          (record enc { channels = insert id (record ch { wants_reply = false }) enc.channels })
          (msg ∷ e.u32_be ch.recipient_channel)
      else enc

  unfoldable pub channel_success : CommonSession → ℕ → Outcome CommonSession
  unfolding reply_to
  channel_success s id =
      with_encrypted s (λ enc. with_confirmed enc id (reply_to Msg.channel_success enc id))

  unfoldable pub channel_anyhow : CommonSession → ℕ → Outcome CommonSession
  unfolding reply_to
  channel_anyhow s id =
      with_encrypted s (λ enc. with_confirmed enc id (reply_to Msg.channel_failure enc id))

  unfoldable pub channel_open_anyhow :
      CommonSession → ℕ → ChannelOpenFailure → Bytes → Bytes → Outcome CommonSession
  channel_open_anyhow s id reason description language = with_encrypted s (λ enc. ok (
      push enc (
        Msg.channel_open_failure
        ∷ (e.u32_be id
            ++ (e.u32_be (failure_code reason)
                ++ (e.ssh_string description ++ e.ssh_string language))))))

  unfoldable pub close : CommonSession → ℕ → Outcome CommonSession
  close s id = with_encrypted s (λ enc. ok (byte enc id Msg.channel_close))

  unfoldable pub eof_channel : CommonSession → ℕ → Outcome CommonSession
  eof_channel s id = with_encrypted s (λ enc. ok (byte enc id Msg.channel_eof))

  unfoldable pub data_on : CommonSession → ℕ → Bytes → Outcome (CommonSession × ℕ)
  data_on s id buf = with_keys s (λ enc. send enc id buf)

  unfoldable pub extended_data_on : CommonSession → ℕ → ℕ → Bytes → Outcome (CommonSession × ℕ)
  extended_data_on s id extended buf = with_keys s (λ enc. send_extended enc id extended buf)

  -- The start of a channel request that wants no reply.
  abbrev pub request_header : Channel → Bytes → Bytes → Bytes
  request_header ch kind rest =
      Msg.channel_request ∷ (e.u32_be ch.recipient_channel ++ (e.ssh_string kind ++ (0 ∷ rest)))

  unfoldable pub xon_xoff_request : CommonSession → ℕ → Bool → Outcome CommonSession
  xon_xoff_request s id client_can_do = with_encrypted s (λ enc.
      with_confirmed enc id
        (λ ch. push enc (request_header ch (codes "xon-xoff") (flag client_can_do ∷ []))))

  unfoldable pub exit_status_request : CommonSession → ℕ → ℕ → Outcome CommonSession
  exit_status_request s id exit_status = with_encrypted s (λ enc.
      with_confirmed enc id
        (λ ch. push enc (request_header ch (codes "exit-status") (e.u32_be exit_status))))

  unfoldable pub exit_signal_request :
      CommonSession → ℕ → Sig → Bool → Bytes → Bytes → Outcome CommonSession
  exit_signal_request s id signal core_dumped error_message language_tag = with_encrypted s (λ enc.
      with_confirmed enc id (λ ch. push enc (
        request_header ch (codes "exit-signal") (
          e.ssh_string (name signal)
          ++ (flag core_dumped ∷ (e.ssh_string error_message ++ e.ssh_string language_tag))))))

  -- The packet that asks for a channel, of the number `id`.
  abbrev pub forwarded_packet : ℕ → ℕ → ℕ → Bytes → ℕ → Bytes → ℕ → Bytes
  forwarded_packet id window_size maxpacket address port originator originator_port =
      Msg.channel_open
      ∷ (e.ssh_string (codes "forwarded-tcpip")
          ++ (e.u32_be id
              ++ (e.u32_be window_size
                  ++ (e.u32_be maxpacket
                      ++ (e.ssh_string address
                          ++ (e.u32_be port
                              ++ (e.ssh_string originator ++ e.u32_be originator_port)))))))

  unfoldable pub open_in_state :
      EncryptedState → CommonSession → Encrypted → ℕ → ℕ → (ℕ → Bytes) → Outcome (CommonSession × ℕ)
  open_in_state authenticated s enc window_size maxpacket packet = do
    (enc', id) ← new_channel enc window_size maxpacket
    ok (record s { encrypted = some (push enc' (packet id)) }, id)
  open_in_state (waiting_service_request a) s enc window_size maxpacket packet = err inconsistent
  open_in_state (waiting_auth_request a) s enc window_size maxpacket packet = err inconsistent

  -- The window and the packet size are those of the configuration.
  unfoldable pub channel_open_forwarded_tcpip :
      ℕ → ℕ → CommonSession → Bytes → ℕ → Bytes → ℕ → Outcome (CommonSession × ℕ)
  unfolding open_in_state
  channel_open_forwarded_tcpip window_size maxpacket s address port originator originator_port =
      elim s.encrypted [
        | none ↦ err inconsistent
        | some enc ↦ open_in_state enc.state s enc window_size maxpacket (λ id.
            forwarded_packet id window_size maxpacket address port originator originator_port)
      ]
