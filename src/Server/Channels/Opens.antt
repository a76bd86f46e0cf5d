-- ===== src/Server/Channels/Opens.antt =====
-- `server_handle_channel_open`, `confirm_channel_open` and `server_confirm_channel_open` of
-- src/server/encrypted.rs.
use thrussh_fork.Base.{
  ℕ, true, false, Option, none, some, ◌∷◌, ◌++◌, Bytes, codes, bytes_eq, if◌then◌else◌, Outcome, ok,
  ◌>>=◌, try_foreign, unwrap,
}
use thrussh_fork.Base.Assoc.{insert}
use thrussh_fork.Protocol.Msg
use thrussh_fork.Wire.{Encoding}
use thrussh_fork.Session.State.{Channel, Encrypted, CommonSession}
use thrussh_fork.Session.Channels.{new_channel_id}
use thrussh_fork.Server.Senders.{push}
use thrussh_fork.Server.Channels.Events.{
  Event, channel_open_session, channel_open_x11, channel_open_direct_tcpip, ChannelHandler,
  ChannelConfig,
}
use thrussh_fork.Server.Channels.Messages.{deliver, read_pair}

module _ ⦃e : Encoding⦄ where
  unfoldable pub server_confirm_channel_open : Channel → ChannelConfig → Bytes
  server_confirm_channel_open ch config =
      Msg.channel_open_confirmation
      ∷ (e.u32_be ch.recipient_channel
          ++ (e.u32_be ch.sender_channel
              ++ (e.u32_be config.window_size ++ e.u32_be config.maximum_packet_size)))

  unfoldable pub confirm_channel_open : ChannelConfig → Channel → Encrypted → Encrypted
  unfolding server_confirm_channel_open
  confirm_channel_open config ch enc = record (push enc (server_confirm_channel_open ch config)) {
    channels = insert ch.sender_channel ch enc.channels;
  }

  -- The channel of an open request: the number of the other side, its window and its packet size.
  abbrev pub opened_channel : ChannelConfig → ℕ → ℕ → ℕ → ℕ → Channel
  opened_channel config id sender window maxpacket = record {
    recipient_channel = sender;
    sender_channel = id;
    recipient_window_size = window;
    sender_window_size = config.window_size;
    recipient_maximum_packet_size = maxpacket;
    sender_maximum_packet_size = config.maximum_packet_size;
    confirmed = true;
    wants_reply = false;
  }

  -- 3 is SSH_OPEN_UNKNOWN_CHANNEL_TYPE.
  abbrev pub unknown_type_packet : ℕ → Bytes
  unknown_type_packet sender =
      Msg.channel_open_failure
      ∷ (e.u32_be sender
          ++ (e.u32_be 3
              ++ (e.ssh_string (codes "Unknown channel type") ++ e.ssh_string (codes "en"))))

  -- What the request asks for, by its type: none for a type that is not known.
  unfoldable pub parse_open : Bytes → ℕ → Bytes → Outcome (Option Event)
  unfolding read_pair
  parse_open typ id r =
      if bytes_eq typ (codes "session")
      then ok (some (channel_open_session id))
      else if bytes_eq typ (codes "x11")
      then (read_pair r >>= λ x. ok (some (channel_open_x11 id x.0.0 x.0.1)))
      else if bytes_eq typ (codes "direct-tcpip")
      then (do
        (host, r1) ← read_pair r
        (originator, r2) ← read_pair r1
        ok (some (channel_open_direct_tcpip id host.0 host.1 originator.0 originator.1)))
      else ok none

  unfoldable pub server_handle_channel_open :
      {H : Type 0}
      → ChannelHandler H
      → ChannelConfig
      → CommonSession
      → H
      → Bytes
      → Outcome (CommonSession × H)
  unfolding parse_open confirm_channel_open
  server_handle_channel_open handler config s h r = do
    (typ, r1) ← try_foreign (e.read_string r)
    (sender, r2) ← try_foreign (e.read_u32 r1)
    (window, r3) ← try_foreign (e.read_u32 r2)
    (maxpacket, r4) ← try_foreign (e.read_u32 r3)
    enc ← unwrap s.encrypted
    (enc', id) ← new_channel_id enc
    request ← parse_open typ id r4
    elim request [
      | none ↦ ok (record s { encrypted = some (push enc' (unknown_type_packet sender)) }, h)
      | some ev ↦
          deliver handler ev
            (record s {
              encrypted = some (
                  confirm_channel_open config (opened_channel config id sender window maxpacket)
                    enc');
            })
            h
    ]
