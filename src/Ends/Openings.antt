-- ===== src/Ends/Openings.antt =====
-- The channels that a client asks for, src/client/session.rs, with the arguments of each kind, what
-- is pushed for it and what src/server/encrypted.rs answers.
use thrussh_fork.Base.{ℕ, ◌^◌, ◌<◌, ◌≡◌, some, [], ◌∷◌, ◌++◌, Bytes, codes, Outcome, ok}
use thrussh_fork.Wire.{Encoding}
use thrussh_fork.Wire.Frames.{frame, push_packet_lem}
use thrussh_fork.Wire.Reads.{IsText}
use thrussh_fork.Session.State.{Encrypted, CommonSession, authenticated}
use thrussh_fork.Session.Channels.{new_channel}
use thrussh_fork.Server.Channels.Events.{
  Event, channel_open_session, channel_open_x11, channel_open_direct_tcpip, ChannelConfig,
}
use thrussh_fork.Client.Opens.{
  open_packet_of, open_authenticated, open_with, pair_bytes, client_open_session, client_open_x11,
  client_open_direct_tcpip,
}

-- A kind of channel, with the arguments of the function that opens it.
pub data Opening : Type 0 where
  session : Opening
  x11 : Bytes → ℕ → Opening
  direct : Bytes → ℕ → Bytes → ℕ → Opening

abbrev pub event : ℕ → Opening → Event
event id session = channel_open_session id
event id (x11 address port) = channel_open_x11 id address port
event id (direct host port originator port') =
    channel_open_direct_tcpip id host port originator port'

abbrev pub kind : Opening → Bytes
kind session = codes "session"
kind (x11 address port) = codes "x11"
kind (direct host port originator port') = codes "direct-tcpip"

module _ ⦃e : Encoding⦄ where
  abbrev pub open_channel : Opening → ℕ → ℕ → CommonSession → Outcome (CommonSession × ℕ)
  open_channel session window maxpacket s = client_open_session window maxpacket s
  open_channel (x11 address port) window maxpacket s =
      client_open_x11 window maxpacket s address port
  open_channel (direct host port originator port') window maxpacket s =
      client_open_direct_tcpip window maxpacket s host port originator port'

  abbrev pub arguments : Opening → Bytes
  arguments session = []
  arguments (x11 address port) = pair_bytes address port []
  arguments (direct host port originator port') =
      pair_bytes host port (pair_bytes originator port' [])

  -- The packet of the client for its channel `id`.
  abbrev pub open_packet : Opening → ℕ → ℕ → ℕ → Bytes
  open_packet o window maxpacket id = open_packet_of (kind o) window maxpacket id (arguments o)

  abbrev pub IsOpening : Opening → Type 0
  IsOpening session = Unit
  IsOpening (x11 address port) = IsText address × (port < 2 ^ 32)
  IsOpening (direct host port originator port') =
      (IsText host × (port < 2 ^ 32)) × (IsText originator × (port' < 2 ^ 32))

  -- A channel is asked for: it stands among the client's, and the packet is pushed.
  pub opens :
      (o : Opening) (window maxpacket : ℕ) (s : CommonSession) (enc enc' : Encrypted) (id : ℕ)
      → s.encrypted ≡ some enc
      → enc.state ≡ authenticated
      → new_channel enc window maxpacket ≡ ok (enc', id)
      → open_channel o window maxpacket s
        ≡ ok (
          record s {
            encrypted =
                some
                  (record enc' { write = enc'.write ++ frame (open_packet o window maxpacket id) });
          },
          id,
        )
  unfolding client_open_session client_open_x11 client_open_direct_tcpip open_with
      open_authenticated
  opens session window maxpacket s enc enc' id keys ready new =
      rw keys (simp (ready, new, push_packet_lem))
  opens (x11 address port) window maxpacket s enc enc' id keys ready new =
      rw keys (simp (ready, new, push_packet_lem))
  opens (direct host port originator port') window maxpacket s enc enc' id keys ready new =
      rw keys (simp (ready, new, push_packet_lem))

  abbrev pub confirmation : ChannelConfig → ℕ → ℕ → Bytes
  confirmation config id id' =
      91
      ∷ (e.u32_be id
          ++ (e.u32_be id' ++ (e.u32_be config.window_size ++ e.u32_be config.maximum_packet_size)))
