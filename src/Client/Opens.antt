-- ===== src/Client/Opens.antt =====
-- What a client pushes outside of channel requests, src/client/session.rs: the opening of channels,
-- global requests, data and the end of data.
use thrussh_fork.Base.{
  ℕ, Bool, none, some, [], ◌∷◌, ◌++◌, Bytes, codes, Outcome, ok, err, panic, inconsistent,
  not_authenticated, ◌>>=◌,
}
use thrussh_fork.Protocol.Msg
use thrussh_fork.Wire.{Encoding}
use thrussh_fork.Session.State.{
  Encrypted, EncryptedState, waiting_service_request, waiting_auth_request, authenticated,
  CommonSession,
}
use thrussh_fork.Session.Channels.{new_channel, eof}
use thrussh_fork.Session.Data.{send, send_extended}
use thrussh_fork.Server.Senders.{flag, push, with_keys}
use thrussh_fork.Server.Channels.Messages.{map_encrypted}

module _ ⦃e : Encoding⦄ where
  -- The packet that opens a channel, whose number is the client's.
  abbrev pub open_packet_of : Bytes → ℕ → ℕ → ℕ → Bytes → Bytes
  open_packet_of kind window_size maxpacket id rest =
      Msg.channel_open
      ∷ (e.ssh_string kind
          ++ (e.u32_be id ++ (e.u32_be window_size ++ (e.u32_be maxpacket ++ rest))))

  unfoldable pub open_authenticated :
      EncryptedState → CommonSession → Encrypted → ℕ → ℕ → (ℕ → Bytes) → Outcome (CommonSession × ℕ)
  open_authenticated authenticated s enc window_size maxpacket packet = do
    (enc', id) ← new_channel enc window_size maxpacket
    ok (record s { encrypted = some (push enc' (packet id)) }, id)
  open_authenticated (waiting_service_request a) s enc window_size maxpacket packet =
      err not_authenticated
  open_authenticated (waiting_auth_request a) s enc window_size maxpacket packet =
      err not_authenticated

  -- The window and the packet size of the configuration stand in every such packet.
  unfoldable pub open_with : ℕ → ℕ → CommonSession → (ℕ → Bytes) → Outcome (CommonSession × ℕ)
  unfolding open_authenticated
  open_with window_size maxpacket s packet = elim s.encrypted [
    | none ↦ err inconsistent
    | some enc ↦ open_authenticated enc.state s enc window_size maxpacket packet
  ]

  abbrev pub pair_bytes : Bytes → ℕ → Bytes → Bytes
  pair_bytes address port rest = e.ssh_string address ++ (e.u32_be port ++ rest)

  unfoldable pub client_open_session : ℕ → ℕ → CommonSession → Outcome (CommonSession × ℕ)
  unfolding open_with
  client_open_session window_size maxpacket s =
      open_with window_size maxpacket s
        (λ id. open_packet_of (codes "session") window_size maxpacket id [])

  unfoldable pub client_open_x11 : ℕ → ℕ → CommonSession → Bytes → ℕ → Outcome (CommonSession × ℕ)
  unfolding open_with
  client_open_x11 window_size maxpacket s originator_address originator_port =
      open_with window_size maxpacket s (λ id.
        open_packet_of (codes "x11") window_size maxpacket id
          (pair_bytes originator_address originator_port []))

  unfoldable pub client_open_direct_tcpip :
      ℕ → ℕ → CommonSession → Bytes → ℕ → Bytes → ℕ → Outcome (CommonSession × ℕ)
  unfolding open_with
  client_open_direct_tcpip window_size maxpacket s host port originator originator_port =
      open_with window_size maxpacket s (λ id.
        open_packet_of (codes "direct-tcpip") window_size maxpacket id
          (pair_bytes host port (pair_bytes originator originator_port [])))

  abbrev pub global_packet : Bytes → Bool → Bytes → ℕ → Bytes
  global_packet kind want_reply address port =
      Msg.global_request ∷ (e.ssh_string kind ++ (flag want_reply ∷ pair_bytes address port []))

  unfoldable pub client_tcpip_forward : CommonSession → Bool → Bytes → ℕ → CommonSession
  client_tcpip_forward s want_reply address port =
      map_encrypted s
        (λ enc. push enc (global_packet (codes "tcpip-forward") want_reply address port))

  unfoldable pub client_cancel_tcpip_forward : CommonSession → Bool → Bytes → ℕ → CommonSession
  client_cancel_tcpip_forward s want_reply address port =
      map_encrypted s
        (λ enc. push enc (global_packet (codes "cancel-tcpip-forward") want_reply address port))

  unfoldable pub client_data : CommonSession → ℕ → Bytes → Outcome (CommonSession × ℕ)
  client_data s id buf = with_keys s (λ enc. send enc id buf)

  unfoldable pub client_extended_data : CommonSession → ℕ → ℕ → Bytes → Outcome (CommonSession × ℕ)
  client_extended_data s id ext buf = with_keys s (λ enc. send_extended enc id ext buf)

  -- `unreachable!()` without keys.
  unfoldable pub client_eof : CommonSession → ℕ → Outcome CommonSession
  client_eof s id = elim s.encrypted [
    | none ↦ panic
    | some enc ↦ ok (record s { encrypted = some (eof enc id) })
  ]
