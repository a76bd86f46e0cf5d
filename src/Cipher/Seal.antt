-- ===== src/Cipher/Seal.antt =====
-- Sealing and opening with each of the two ciphers, src/cipher.
use thrussh_fork.Base.{
  ℕ, zero, suc, ◌-◌, ◌≤◌, ◌≡◌, refl, Bytes, ◌++◌, length, take, drop, replicate, ok, length-append,
  length-take, length-drop, take-append, drop-append, arith,
}
use thrussh_fork.Wire.{Encoding}
use thrussh_fork.Cipher.Keys.{
  Sodium, IsSodium, OpeningCipher, clear_opening, chacha_opening, SealingCipher, clear_sealing,
  chacha_sealing, opening_tag_len, sealing_tag_len, make_counter, reset_first,
  decrypt_packet_length, open_packet, seal_packet,
}

-- The cipher at the other end, which has the same keys.
abbrev pub opener : SealingCipher → OpeningCipher
opener clear_sealing = clear_opening
opener (chacha_sealing k1 k2) = chacha_opening k1 k2

pub opening_tag_len-opener :
    (key : SealingCipher) → opening_tag_len (opener key) ≡ sealing_tag_len key
unfolding opening_tag_len sealing_tag_len
opening_tag_len-opener clear_sealing = refl
opening_tag_len-opener (chacha_sealing k1 k2) = refl

module _ ⦃e : Encoding⦄ ⦃c : Sodium⦄ (laws : IsSodium c) where
  reset_zeros :
      (n : ℕ) (bs : Bytes) → 1 ≤ n → reset_first (replicate n 0 ++ bs) ≡ replicate n 0 ++ bs
  unfolding reset_first
  reset_zeros zero bs h = absurd (omega arith)
  reset_zeros (suc n) bs h = refl

  -- The first byte of the nonce is zero already: the reset in `seal` changes nothing.
  pub reset_first-make_counter : (seqn : ℕ) → reset_first (make_counter seqn) ≡ make_counter seqn
  unfolding make_counter
  reset_first-make_counter seqn =
      reset_zeros (c.nonce_bytes - 4) (e.u32_be seqn) (omega (arith, laws.nonce_has_room))

  -- The parts of a sealed packet.
  pub record Opens (key : SealingCipher) (seqn : ℕ) (p tag_out : Bytes) : Type 0 where
    pub opened : Bytes
    pub length_sealed : length (seal_packet key seqn p tag_out).0 ≡ length p
    pub length_tag : length (seal_packet key seqn p tag_out).1 ≡ sealing_tag_len key
    pub length_lem :
        decrypt_packet_length (opener key) seqn (take 4 (seal_packet key seqn p tag_out).0)
        ≡ take 4 p
    pub open_lem :
        open_packet
          (opener key)
          seqn
          (seal_packet key seqn p tag_out).0
          (seal_packet key seqn p tag_out).1
        ≡ ok opened
    pub length_opened : length opened ≡ length p
    pub drop_opened : drop 4 opened ≡ drop 4 p

  clear-Opens :
      (seqn : ℕ) (p tag_out : Bytes)
      → length tag_out ≡ sealing_tag_len clear_sealing
      → Opens clear_sealing seqn p tag_out
  unfolding seal_packet open_packet decrypt_packet_length sealing_tag_len
  clear-Opens seqn p tag_out h = record {
    opened = p;
    length_sealed = refl;
    length_tag = h;
    length_lem = refl;
    open_lem = refl;
    length_opened = refl;
    drop_opened = refl;
  }

  chacha-Opens :
      (k1 k2 : Bytes) (seqn : ℕ) (p tag_out : Bytes)
      → 4 ≤ length p
      → Opens (chacha_sealing k1 k2) seqn p tag_out
  unfolding seal_packet open_packet decrypt_packet_length sealing_tag_len
  chacha-Opens k1 k2 seqn p tag_out h = record {
    opened = a ++ drop 4 p;
    length_sealed = omega (arith, length-append a b, la, lb, length-take 4 p, length-drop 4 p);
    length_tag = laws.length-auth _ _;
    length_lem = rw (take-append 4 a b l4) (laws.xor_xor _ _ _);
    open_lem = rw (
      reset_first-make_counter seqn,
      laws.verify-auth,
      take-append 4 a b l4,
      drop-append 4 a b l4,
      laws.xor_ic-xor_ic,
    );
    length_opened = omega (arith, length-append a (drop 4 p), la, length-take 4 p, length-drop 4 p);
    drop_opened = drop-append 4 a (drop 4 p) l4;
  }
    where
      a : Bytes
      a = c.chacha20_xor (take 4 p) (make_counter seqn) k1

      b : Bytes
      b = c.chacha20_xor_ic (drop 4 p) (make_counter seqn) 1 k2

      la : length a ≡ length (take 4 p)
      la = laws.length-xor _ _ _

      lb : length b ≡ length (drop 4 p)
      lb = laws.length-xor_ic _ _ _ _

      l4 : length a ≡ 4
      l4 = omega (arith, la, length-take 4 p)

  pub seal-Opens :
      (key : SealingCipher) (seqn : ℕ) (p tag_out : Bytes)
      → 4 ≤ length p
      → length tag_out ≡ sealing_tag_len key
      → Opens key seqn p tag_out
  seal-Opens clear_sealing seqn p tag_out h t = clear-Opens seqn p tag_out t
  seal-Opens (chacha_sealing k1 k2) seqn p tag_out h t = chacha-Opens k1 k2 seqn p tag_out h
