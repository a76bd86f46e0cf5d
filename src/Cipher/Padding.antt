-- ===== src/Cipher/Padding.antt =====
-- The padding of both ciphers and the rules of RFC 4253, section 6.
use thrussh_fork.Base.{ℕ, ◌+◌, ◌%◌, ◌≤◌, ◌≡◌, Bytes, length, [], ◌∷◌, suc, refl, ap, arith}
use thrussh_fork.Cipher.Keys.{
  SealingCipher, clear_sealing, chacha_sealing, clear_padding_length, chacha_padding_length,
  padding_length, fill_padding,
}

pub clear_padding_rules :
    (n : ℕ)
    → (4 ≤ clear_padding_length n)
      × (clear_padding_length n ≤ 11)
      × ((5 + n + clear_padding_length n) % 8 ≡ 0)
unfolding clear_padding_length
clear_padding_rules n = ground arith

-- The four bytes of the packet's length are not counted: they are encrypted on their own.
pub chacha_padding_rules :
    (n : ℕ)
    → (4 ≤ chacha_padding_length n)
      × (chacha_padding_length n ≤ 15)
      × ((1 + n + chacha_padding_length n) % 8 ≡ 0)
      × (16 ≤ 1 + n + chacha_padding_length n)
unfolding chacha_padding_length
chacha_padding_rules n = ground arith

-- Every packet has at least four and at most fifteen bytes of padding.
pub padding_length_bounds :
    (key : SealingCipher) (payload : Bytes)
    → (4 ≤ padding_length key payload) × (padding_length key payload ≤ 15)
unfolding padding_length
padding_length_bounds clear_sealing payload = omega (arith, clear_padding_rules (length payload))
padding_length_bounds (chacha_sealing k1 k2) payload =
    omega (arith, chacha_padding_rules (length payload))

-- What the cipher encrypts at once is a multiple of eight bytes: for the clear cipher the whole
-- packet, for the other the packet without its length.
abbrev pub block_length : SealingCipher → ℕ → ℕ
block_length clear_sealing packet_length = 4 + packet_length
block_length (chacha_sealing k1 k2) packet_length = packet_length

-- For every payload and both ciphers the padding has 4 to 15 bytes, and what is encrypted at once
-- is a multiple of eight bytes.
pub padding_length_fills :
    (key : SealingCipher) (payload : Bytes)
    → (4 ≤ padding_length key payload)
      × (padding_length key payload ≤ 15)
      × (block_length key (1 + length payload + padding_length key payload) % 8 ≡ 0)
unfolding padding_length
padding_length_fills clear_sealing payload = omega (arith, clear_padding_rules (length payload))
padding_length_fills (chacha_sealing k1 k2) payload =
    omega (arith, chacha_padding_rules (length payload))

pub length-fill_padding : (bs : Bytes) → length (fill_padding bs) ≡ length bs
unfolding fill_padding
length-fill_padding [] = refl
length-fill_padding (b ∷ bs) = ap suc (length-fill_padding bs)
