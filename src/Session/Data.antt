-- ===== src/Session/Data.antt =====
-- `Encrypted::data` and `Encrypted::extended_data` of src/session.rs. Their loops are one loop, over
-- the bytes that stand before the data in each packet.
use thrussh_fork.Base.{
  ℕ, zero, suc, ◌-◌, ◌%◌, ◌^◌, min, none, some, [], ◌∷◌, ◌++◌, Bytes, length, take, drop, ltb,
  if◌then◌else◌, Outcome, ok, stuck, ◌>>=◌, ◌>>◌, assert,
}
use thrussh_fork.Base.Assoc.{lookup, insert}
use thrussh_fork.Protocol.Msg
use thrussh_fork.Wire.{Encoding, push_packet}
use thrussh_fork.Session.State.{Channel, Encrypted}

-- `if buf.len() as u32 > window { &buf[0..window] } else { buf }`
unfoldable pub clip : Bytes → ℕ → Bytes
clip buf window = if ltb window (length buf % 2 ^ 32) then take window buf else buf

-- The length of the next packet's data.
abbrev pub chunk_len : Bytes → ℕ → ℕ → ℕ
chunk_len buf maxpacket window = min (min (length buf) maxpacket) window

module _ ⦃e : Encoding⦄ where
  abbrev pub data_packet : Bytes → Bytes → Bytes
  data_packet header chunk = header ++ e.ssh_string chunk

  -- `while buf.len() > 0`: the window and the packets to be written, after the loop.
  unfoldable pub send_loop : ℕ → Bytes → ℕ → Bytes → ℕ → Bytes → Outcome (ℕ × Bytes)
  send_loop fuel header maxpacket [] window write = ok (window, write)
  send_loop zero header maxpacket (b ∷ bs) window write = stuck
  send_loop (suc fuel) header maxpacket (b ∷ bs) window write =
      let off = chunk_len (b ∷ bs) maxpacket window in
      send_loop fuel header maxpacket (drop off (b ∷ bs)) (window - off)
        (push_packet write (data_packet header (take off (b ∷ bs))))

  -- On a confirmed channel: what the window allows is sent.
  unfoldable pub transmit :
      ℕ → Encrypted → ℕ → (Channel → Bytes) → Bytes → Channel → Outcome (Encrypted × ℕ)
  unfolding send_loop clip
  transmit fuel enc id header buf ch = do
    let clipped = clip buf ch.recipient_window_size
    (window, write) ←
        send_loop fuel (header ch) ch.recipient_maximum_packet_size clipped ch.recipient_window_size
          enc.write
    ok (
      record enc {
        channels = insert id (record ch { recipient_window_size = window }) enc.channels;
        write = write;
      },
      length clipped,
    )

  -- Both functions: nothing is sent on a channel that is not open; on one that is not confirmed the
  -- assertion fails.
  unfoldable pub send_data : ℕ → Encrypted → ℕ → (Channel → Bytes) → Bytes → Outcome (Encrypted × ℕ)
  unfolding transmit
  send_data fuel enc id header buf = elim (lookup id enc.channels) [
    | none ↦ ok (enc, 0)
    | some ch ↦ assert ch.confirmed >> transmit fuel enc id header buf ch
  ]

  abbrev pub data_header : Channel → Bytes
  data_header ch = Msg.channel_data ∷ e.u32_be ch.recipient_channel

  abbrev pub extended_header : ℕ → Channel → Bytes
  extended_header ext ch =
      Msg.channel_extended_data ∷ (e.u32_be ch.recipient_channel ++ e.u32_be ext)

  -- The fuel is a round for each byte: each packet takes one byte at least, if any.
  unfoldable pub send : Encrypted → ℕ → Bytes → Outcome (Encrypted × ℕ)
  unfolding send_data
  send enc id buf = send_data (length buf) enc id data_header buf

  unfoldable pub send_extended : Encrypted → ℕ → ℕ → Bytes → Outcome (Encrypted × ℕ)
  unfolding send_data
  send_extended enc id ext buf = send_data (length buf) enc id (extended_header ext) buf
