-- ===== src/Cipher/Write.antt =====
-- What `write` appends to its buffer.
use thrussh_fork.Base.{
  ℕ, ◌+◌, ◌-◌, ◌%◌, ◌^◌, ◌≤◌, ◌<◌, ◌≡◌, refl, sym, ap, Bytes, [], ◌∷◌, ◌++◌, length, take, drop,
  replicate, ok, leb, panic, length-append, length-replicate, take-append, drop-append,
  append_assoc, Outcome, arith, if◌then◌else◌, assert,
}
use thrussh_fork.Base
use thrussh_fork.Wire.{Encoding, IsEncoding}
use thrussh_fork.Cipher.Keys.{
  Sodium, CipherPair, SealingCipher, sealing_tag_len, padding_length, fill_padding, seal_packet,
}
use thrussh_fork.Cipher.Packet.{SshBuffer, plain_packet, write}
use thrussh_fork.Cipher.Padding.{padding_length_bounds, length-fill_padding}

-- The length field of the packet.
abbrev pub packet_length : SealingCipher → Bytes → ℕ
packet_length key payload = 1 + length payload + padding_length key payload

module _ ⦃e : Encoding⦄ ⦃c : Sodium⦄ where
  pub length-plain_packet :
      (laws : IsEncoding e) (key : SealingCipher) (payload : Bytes)
      → length (plain_packet key payload) ≡ 4 + packet_length key payload
  unfolding plain_packet
  length-plain_packet laws key payload = omega (
    arith,
    length-append (e.u32_be (packet_length key payload))
        (pad ∷ (payload ++ fill_padding (replicate pad 0))),
    laws.length-u32_be (packet_length key payload),
    length-append payload (fill_padding (replicate pad 0)),
    length-fill_padding (replicate pad 0),
    length-replicate pad (let z : ℕ = 0 in z),
  )
    where
      pad : ℕ
      pad = padding_length key payload

  -- The packet, sealed with the buffer's sequence number.
  abbrev pub sealed : SealingCipher → ℕ → Bytes → Bytes × Bytes
  sealed key seqn payload =
      seal_packet key seqn (plain_packet key payload) (replicate (sealing_tag_len key) 0)

  -- `write` panics on a payload that does not fit the length field.
  pub write_too_long :
      (pair : CipherPair) (payload : Bytes) (b : SshBuffer)
      → 2 ^ 32 ≤ packet_length pair.local_to_remote payload
      → write pair payload b ≡ panic
  unfolding write
  write_too_long pair payload b h = ground arith

  pub write_lem :
      (laws : IsEncoding e) (pair : CipherPair) (payload : Bytes) (b : SshBuffer)
      → packet_length pair.local_to_remote payload < 2 ^ 32
      → write pair payload b
        ≡ ok (record b {
          buffer =
              b.buffer
              ++ ((sealed pair.local_to_remote b.seqn payload).0
                  ++ (sealed pair.local_to_remote b.seqn payload).1);
          seqn = (b.seqn + 1) % 2 ^ 32;
        })
  unfolding write
  write_lem laws pair payload b h = rw (fits, short, cut, tail_lem, first, second)
    where
      key : SealingCipher
      key = pair.local_to_remote

      zeros : Bytes
      zeros = replicate (sealing_tag_len key) 0

      fits : leb (packet_length key payload) 0xffff_ffff ≡ Base.true
      fits = ground arith

      short : leb (padding_length key payload) 0xff ≡ Base.true
      short = ground (arith, padding_length_bounds key payload)

      tail_lem :
          drop (length b.buffer) (b.buffer ++ (plain_packet key payload ++ zeros))
          ≡ plain_packet key payload ++ zeros
      tail_lem = drop-append (length b.buffer) b.buffer _ refl

      cut : take (length b.buffer) (b.buffer ++ (plain_packet key payload ++ zeros)) ≡ b.buffer
      cut = take-append (length b.buffer) b.buffer _ refl

      first :
          take (4 + packet_length key payload) (plain_packet key payload ++ zeros)
          ≡ plain_packet key payload
      first = take-append _ _ zeros (length-plain_packet laws key payload)

      second : drop (4 + packet_length key payload) (plain_packet key payload ++ zeros) ≡ zeros
      second = drop-append _ _ zeros (length-plain_packet laws key payload)

  -- A payload that leaves room for the padding is written.
  pub write_fits :
      (laws : IsEncoding e) (pair : CipherPair) (payload : Bytes) (b : SshBuffer)
      → length payload < 4_000_000_000
      → (b' : SshBuffer) × (write pair payload b ≡ ok b')
  write_fits laws pair payload b h = (
    _,
    write_lem laws pair payload b
        (omega (arith, padding_length_bounds pair.local_to_remote payload)),
  )
