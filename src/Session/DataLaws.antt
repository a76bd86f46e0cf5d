-- ===== src/Session/DataLaws.antt =====
-- What `data` and `extended_data` send.
use thrussh_fork.Base.{
  ℕ, zero, suc, ◌-◌, ◌^◌, ◌≤◌, ◌<◌, ◌≡◌, ◌∙◌, refl, ap, min, true, some, List, [], ◌∷◌, ◌++◌, map,
  Bytes, length, take, drop, All, ok, stuck, assert, ◌>>◌, arith, append_assoc, append-nil,
  length-take, length-drop, take-append-drop, take_all,
}
use mathlib.Core.List.{flatten}
use thrussh_fork.Base.Assoc.{lookup, insert}
use thrussh_fork.Wire.{Encoding}
use thrussh_fork.Wire.Frames.{frames, push_packet_lem}
use thrussh_fork.Session.State.{Channel, Encrypted}
use thrussh_fork.Session.Data.{clip, chunk_len, data_packet, send_loop, transmit, send_data}

-- The pieces of a text: none empty, none longer than the bound, and together the text.
pub record Pieces (maxpacket : ℕ) (text : Bytes) (cs : List Bytes) : Type 0 where
  pub joined : flatten cs ≡ text
  pub sizes : All (λ c. (1 ≤ length c) × (length c ≤ maxpacket)) cs

-- The pieces that the loop makes of a text.
abbrev chunks : ℕ → ℕ → Bytes → ℕ → List Bytes
chunks fuel maxpacket [] window = []
chunks zero maxpacket (b ∷ bs) window = []
chunks (suc fuel) maxpacket (b ∷ bs) window =
    let off = chunk_len (b ∷ bs) maxpacket window in
    take off (b ∷ bs) ∷ chunks fuel maxpacket (drop off (b ∷ bs)) (window - off)

chunks-Pieces :
    (fuel maxpacket : ℕ) (buf : Bytes) (window : ℕ)
    → length buf ≤ fuel
    → 0 < maxpacket
    → length buf ≤ window
    → Pieces maxpacket buf (chunks fuel maxpacket buf window)
unfolding flatten
chunks-Pieces fuel maxpacket [] window hf hm hw = record { joined = refl; sizes = tt }
chunks-Pieces zero maxpacket (b ∷ bs) window hf hm hw = absurd (omega arith)
chunks-Pieces (suc fuel) maxpacket (b ∷ bs) window hf hm hw =
    let off = chunk_len (b ∷ bs) maxpacket window in
    let size : length (take off (b ∷ bs)) ≡ off = omega (arith, length-take off (b ∷ bs)) in
    let rest : length (drop off (b ∷ bs)) ≡ length (b ∷ bs) - off =
      omega (arith, length-drop off (b ∷ bs)) in
    let later =
      chunks-Pieces fuel maxpacket (drop off (b ∷ bs)) (window - off) (omega arith) hm
        (omega arith) in
    record {
      joined =
          ap (λ (t : Bytes). take off (b ∷ bs) ++ t) later.joined ∙ take-append-drop off (b ∷ bs);
      sizes = ((omega arith, omega arith), later.sizes);
    }

module _ ⦃e : Encoding⦄ where
  -- With a positive packet size and a window that covers the text the loop ends: it takes the
  -- length of the text from the window, and adds one packet for each piece of the text.
  send_loop_sends :
      (fuel : ℕ) (header : Bytes) (maxpacket : ℕ) (buf : Bytes) (window : ℕ) (write : Bytes)
      → length buf ≤ fuel
      → 0 < maxpacket
      → length buf ≤ window
      → send_loop fuel header maxpacket buf window write
        ≡ ok (
          window - length buf,
          write ++ frames (map (data_packet header) (chunks fuel maxpacket buf window)),
        )
  unfolding send_loop
  send_loop_sends fuel header maxpacket [] window write hf hm hw =
      let same : window - 0 ≡ window = omega arith in rw (append-nil, same)
  send_loop_sends zero header maxpacket (b ∷ bs) window write hf hm hw = absurd (omega arith)
  send_loop_sends (suc fuel) header maxpacket (b ∷ bs) window write hf hm hw =
      let off = chunk_len (b ∷ bs) maxpacket window in
      let left = drop off (b ∷ bs) in
      let rest : length left ≡ length (b ∷ bs) - off = omega (arith, length-drop off (b ∷ bs)) in
      let even : window - off - length left ≡ window - length (b ∷ bs) = omega arith in
      send_loop_sends fuel header maxpacket left (window - off) _ (omega arith) hm (omega arith)
      ∙ rw (even, push_packet_lem, append_assoc)

  clip_lem : (buf : Bytes) (window : ℕ) → length buf < 2 ^ 32 → clip buf window ≡ take window buf
  unfolding clip
  clip_lem buf window h = ground (arith, take_all window buf)

  send_data_open :
      (fuel : ℕ) (enc : Encrypted) (id : ℕ) (header : Channel → Bytes) (buf : Bytes) (ch : Channel)
      → lookup id enc.channels ≡ some ch
      → ch.confirmed ≡ true
      → send_data fuel enc id header buf ≡ transmit fuel enc id header buf ch
  unfolding send_data
  send_data_open fuel enc id header buf ch found conf =
      rw (found, send_data) (ap (λ b. assert b >> transmit fuel enc id header buf ch) conf)

  -- On a confirmed channel whose other side takes packets of one byte at least, sending data below
  -- 2 ^ 32 bytes succeeds with the length of the data as fuel: the part that the other side's
  -- window allows is sent in non-empty pieces no longer than its largest packet, one packet each,
  -- in order, and its length is returned and taken from the window.
  pub send_data_sends :
      (fuel : ℕ) (enc : Encrypted) (id : ℕ) (header : Channel → Bytes) (buf : Bytes) (ch : Channel)
      → lookup id enc.channels ≡ some ch
      → ch.confirmed ≡ true
      → 0 < ch.recipient_maximum_packet_size
      → length buf < 2 ^ 32
      → length buf ≤ fuel
      → let n = min (length buf) ch.recipient_window_size in
        (cs : List Bytes) × Pieces ch.recipient_maximum_packet_size
          (take ch.recipient_window_size buf)
          cs
        × (send_data fuel enc id header buf
            ≡ ok (
              record enc {
                channels =
                    insert id
                      (record ch { recipient_window_size = ch.recipient_window_size - n })
                      enc.channels;
                write = enc.write ++ frames (map (data_packet (header ch)) cs);
              },
              n,
            ))
  unfolding transmit
  send_data_sends fuel enc id header buf ch found conf hm hl hf = (
    chunks fuel ch.recipient_maximum_packet_size (take ch.recipient_window_size buf)
        ch.recipient_window_size,
    chunks-Pieces fuel _ (take ch.recipient_window_size buf) ch.recipient_window_size
        (omega (arith, sent_len)) hm (omega (arith, sent_len)),
    send_data_open fuel enc id header buf ch found conf ∙ transmitted,
  )
    where
      sent_len :
          length (take ch.recipient_window_size buf) ≡ min (length buf) ch.recipient_window_size
      sent_len = omega (arith, length-take ch.recipient_window_size buf)

      transmitted :
          transmit fuel enc id header buf ch
          ≡ ok (
            record enc {
              channels =
                  insert id
                    (record ch {
                      recipient_window_size =
                          ch.recipient_window_size - min (length buf) ch.recipient_window_size;
                    })
                    enc.channels;
              write =
                  enc.write
                  ++ frames (
                      map (data_packet (header ch)) (
                        chunks fuel ch.recipient_maximum_packet_size
                          (take ch.recipient_window_size buf)
                          ch.recipient_window_size));
            },
            min (length buf) ch.recipient_window_size,
          )
      transmitted = rw (
        clip_lem buf ch.recipient_window_size hl,
        send_loop_sends fuel (header ch) ch.recipient_maximum_packet_size
            (take ch.recipient_window_size buf) ch.recipient_window_size enc.write
            (omega (arith, sent_len)) hm (omega (arith, sent_len)),
        sent_len,
      )

  loop_stuck :
      (fuel : ℕ) (header : Bytes) (b : ℕ) (bs : Bytes) (window : ℕ) (write : Bytes)
      → send_loop fuel header 0 (b ∷ bs) window write ≡ stuck
  unfolding send_loop
  loop_stuck zero header b bs window write = refl
  loop_stuck (suc fuel) header b bs window write =
      let none' : chunk_len (b ∷ bs) 0 window ≡ 0 = omega arith in
      rw (none', send_loop) (loop_stuck fuel header b bs (window - 0) _)

  text_stuck :
      (fuel : ℕ) (header text : Bytes) (window : ℕ) (write : Bytes)
      → 0 < length text
      → send_loop fuel header 0 text window write ≡ stuck
  text_stuck fuel header [] window write h = absurd (omega arith)
  text_stuck fuel header (b ∷ bs) window write h = loop_stuck fuel header b bs window write

  -- On a confirmed channel with an open window whose other side announced packets of at most 0
  -- bytes, sending anything below 2 ^ 32 bytes runs out of every fuel: the loop does not end.
  pub send_data_never_ends :
      (fuel : ℕ) (enc : Encrypted) (id : ℕ) (header : Channel → Bytes) (buf : Bytes) (ch : Channel)
      → lookup id enc.channels ≡ some ch
      → ch.confirmed ≡ true
      → ch.recipient_maximum_packet_size ≡ 0
      → 0 < ch.recipient_window_size
      → 0 < length buf
      → length buf < 2 ^ 32
      → send_data fuel enc id header buf ≡ stuck
  unfolding transmit
  send_data_never_ends fuel enc id header buf ch found conf hm hw hb hl =
      send_data_open fuel enc id header buf ch found conf
      ∙ rw (clip_lem buf ch.recipient_window_size hl, endless)
    where
      text : Bytes
      text = take ch.recipient_window_size buf

      endless :
          send_loop fuel
            (header ch)
            ch.recipient_maximum_packet_size
            text
            ch.recipient_window_size
            enc.write
          ≡ stuck
      endless =
          ap (λ m. send_loop fuel (header ch) m text ch.recipient_window_size enc.write) hm
          ∙ text_stuck fuel (header ch) text ch.recipient_window_size enc.write
              (omega (arith, length-take ch.recipient_window_size buf))
