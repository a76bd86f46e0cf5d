-- ===== src/Session/Windows.antt =====
-- Flow control on the receiving side.
use thrussh_fork.Base.{
  ℕ, ◌-◌, ◌/◌, ◌^◌, ◌≤◌, ◌<◌, ◌≡◌, ◌∙◌, ◌⊎◌, ap, some, ◌∷◌, ◌++◌, Bytes, length, arith,
  if◌then◌else◌, ◌==◌,
}
use thrussh_fork.Base.Assoc.{lookup, insert, lookup-insert}
use thrussh_fork.Protocol.Msg
use thrussh_fork.Wire.{Encoding}
use thrussh_fork.Wire.Frames.{frame, push_packet_lem}
use thrussh_fork.Session.State.{Channel, Encrypted}
use thrussh_fork.Session.Channels.{adjust_channel, adjust_packet, adjust_window_size}

module _ ⦃e : Encoding⦄ where
  -- The message that grants the other side `amount` more bytes.
  abbrev pub grant : Channel → ℕ → Bytes
  grant ch amount = Msg.channel_window_adjust ∷ (e.u32_be ch.recipient_channel ++ e.u32_be amount)

  -- What one channel's window and the packets to be written are after data of `len` bytes, at a
  -- target: the window falls by the data where it allows them, and if it is then below half of the
  -- target, the difference is granted and the window is the target.
  adjust_cases :
      (ch : Channel) (data' : Bytes) (target : ℕ) (write : Bytes)
      → length data' ≤ ch.sender_window_size
      → ch.sender_window_size < 2 ^ 32
      → let window = (adjust_channel ch data' target).sender_window_size in
        let left = ch.sender_window_size - length data' in
        (target / 2 ≤ window)
        × (((window ≡ left) × (adjust_packet ch data' target write ≡ write))
            ⊎ ((window ≡ target)
                × (left < target)
                × (adjust_packet ch data' target write
                    ≡ write ++ frame (grant ch (target - left)))))
  unfolding adjust_channel adjust_packet
  adjust_cases ch data' target write h hw =
      ground
        (arith, push_packet_lem write (grant ch (target - (ch.sender_window_size - length data'))))

  adjust_found :
      (enc : Encrypted) (id : ℕ) (data' : Bytes) (target : ℕ) {ch : Channel}
      → lookup id enc.channels ≡ some ch
      → adjust_window_size enc id data' target ≡ record enc {
        channels = insert id (adjust_channel ch data' target) enc.channels;
        write = adjust_packet ch data' target enc.write;
      }
  unfolding adjust_window_size
  adjust_found enc id data' target found = rw (found, adjust_window_size)

  adjust_channel_lem :
      (ch : Channel) (data' : Bytes) (target : ℕ)
      → adjust_channel ch data' target
        ≡ record ch { sender_window_size = (adjust_channel ch data' target).sender_window_size }
  unfolding adjust_channel
  adjust_channel_lem ch data' target = ground arith

  -- After data that the window of the channel allows, the window is not below half of the target:
  -- it is what the data left of it and nothing is written, or it is the target and the difference,
  -- which is positive, is granted to the other side in one packet. No other channel changes.
  pub adjust_window_size_grants :
      (enc : Encrypted) (id : ℕ) (data' : Bytes) (target : ℕ) (ch : Channel)
      → lookup id enc.channels ≡ some ch
      → length data' ≤ ch.sender_window_size
      → ch.sender_window_size < 2 ^ 32
      → let enc' = adjust_window_size enc id data' target in
        let left = ch.sender_window_size - length data' in
        (window : ℕ) × ((j : ℕ)
          → lookup j enc'.channels ≡ (
              if id == j
              then some (record ch { sender_window_size = window })
              else lookup j enc.channels))
        × (target / 2 ≤ window)
        × (((window ≡ left) × (enc'.write ≡ enc.write))
            ⊎ ((window ≡ target)
                × (left < target)
                × (enc'.write ≡ enc.write ++ frame (grant ch (target - left)))))
  adjust_window_size_grants enc id data' target ch found h hw =
      let (half, cases) = adjust_cases ch data' target enc.write h hw in
      rw (adjust_found enc id data' target found) (
        (adjust_channel ch data' target).sender_window_size,
        λ j.
            lookup-insert id j (adjust_channel ch data' target) enc.channels
            ∙ ap (λ c. if id == j then some c else lookup j enc.channels)
                (adjust_channel_lem ch data' target),
        half,
        cases,
      )
