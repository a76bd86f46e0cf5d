-- ===== src/Cipher/Keys.antt =====
-- Keys and the trait methods of both ciphers: src/cipher/clear.rs, src/cipher/chacha20poly1305.rs
-- and the dispatch of src/cipher/mod.rs.
use thrussh_fork.Base.{
  ℕ, ◌+◌, ◌-◌, ◌%◌, ◌≤◌, ◌≡◌, Bool, true, [], ◌∷◌, ◌++◌, Bytes, length, take, drop, replicate, ltb,
  leb, if◌then◌else◌, Outcome, ok, err, packet_auth, ◌==◌, assert, ◌>>◌, ◌>>=◌,
}
use thrussh_fork.Wire.{Encoding}

-- The calls of thrussh-libsodium. The stream ciphers return the bytes that they overwrite.
pub record Sodium : Type 0 where
  pub key_bytes : ℕ
  pub nonce_bytes : ℕ
  pub chacha20_xor : Bytes → Bytes → Bytes → Bytes
  pub chacha20_xor_ic : Bytes → Bytes → ℕ → Bytes → Bytes
  pub poly1305_auth : Bytes → Bytes → Bytes
  pub poly1305_verify : Bytes → Bytes → Bytes → Bool

-- What is documented of them: a stream cipher undoes itself and keeps the length, a tag has 16
-- bytes and verifies under its key, and a key has 32 bytes.
pub record IsSodium (c : Sodium) : Type 0 where
  pub xor_xor : (b n k : Bytes) → c.chacha20_xor (c.chacha20_xor b n k) n k ≡ b
  pub length-xor : (b n k : Bytes) → length (c.chacha20_xor b n k) ≡ length b
  pub xor_ic-xor_ic :
      (b n : Bytes) (i : ℕ) (k : Bytes) → c.chacha20_xor_ic (c.chacha20_xor_ic b n i k) n i k ≡ b
  pub length-xor_ic :
      (b n : Bytes) (i : ℕ) (k : Bytes) → length (c.chacha20_xor_ic b n i k) ≡ length b
  pub verify-auth : (m k : Bytes) → c.poly1305_verify (c.poly1305_auth m k) m k ≡ true
  pub length-auth : (m k : Bytes) → length (c.poly1305_auth m k) ≡ 16
  pub nonce_has_room : 5 ≤ c.nonce_bytes
  pub key_bytes_lem : c.key_bytes ≡ 32

abbrev pub tag_bytes : ℕ
tag_bytes = 16

abbrev pub packet_length_len : ℕ
packet_length_len = 4

abbrev pub minimum_packet_len : ℕ
minimum_packet_len = 16

abbrev pub padding_length_len : ℕ
padding_length_len = 1

pub data OpeningCipher : Type 0 where
  clear_opening : OpeningCipher
  chacha_opening : Bytes → Bytes → OpeningCipher

pub data SealingCipher : Type 0 where
  clear_sealing : SealingCipher
  chacha_sealing : Bytes → Bytes → SealingCipher

pub record CipherPair : Type 0 where
  pub local_to_remote : SealingCipher
  pub remote_to_local : OpeningCipher

abbrev pub clear_pair : CipherPair
clear_pair = record { local_to_remote = clear_sealing; remote_to_local = clear_opening }

-- `tag_len` of both traits.
unfoldable pub opening_tag_len : OpeningCipher → ℕ
opening_tag_len clear_opening = 0
opening_tag_len (chacha_opening k1 k2) = tag_bytes

unfoldable pub sealing_tag_len : SealingCipher → ℕ
sealing_tag_len clear_sealing = 0
sealing_tag_len (chacha_sealing k1 k2) = tag_bytes

-- `padding_length`, of a payload of the length given. The subtractions do not underflow.
unfoldable pub clear_padding_length : ℕ → ℕ
clear_padding_length len =
    let block_size : ℕ = 8 in
    let padding_len = block_size - (5 + len) % block_size in
    if ltb padding_len 4 then padding_len + block_size else padding_len

unfoldable pub chacha_padding_length : ℕ → ℕ
chacha_padding_length len =
    let block_size : ℕ = 8 in
    let extra_len = packet_length_len + padding_length_len in
    let padding_len =
      if leb (len + extra_len) minimum_packet_len
      then minimum_packet_len - len - padding_length_len
      else block_size - (padding_length_len + len) % block_size in
    if ltb padding_len packet_length_len then padding_len + block_size else padding_len

unfoldable pub padding_length : SealingCipher → Bytes → ℕ
unfolding clear_padding_length chacha_padding_length
padding_length clear_sealing payload = clear_padding_length (length payload)
padding_length (chacha_sealing k1 k2) payload = chacha_padding_length (length payload)

-- Both ciphers pad with zeros.
unfoldable pub fill_padding : Bytes → Bytes
fill_padding [] = []
fill_padding (b ∷ bs) = 0 ∷ fill_padding bs

module _ ⦃e : Encoding⦄ ⦃c : Sodium⦄ where
  -- `k1.0.clone_from_slice(&k[KEY_BYTES..])` and `k2.0.clone_from_slice(&k[..KEY_BYTES])`: each
  -- slice has to be there, and to be as long as a key.
  unfoldable pub split_key : Bytes → Outcome (Bytes × Bytes)
  split_key k = do
    assert (leb c.key_bytes (length k))
    assert (length (drop c.key_bytes k) == c.key_bytes)
    assert (length (take c.key_bytes k) == c.key_bytes)
    ok (drop c.key_bytes k, take c.key_bytes k)

  unfoldable pub make_sealing_cipher : Bytes → Outcome SealingCipher
  unfolding split_key
  make_sealing_cipher k = do (k1, k2) ← split_key k; ok (chacha_sealing k1 k2)

  unfoldable pub make_opening_cipher : Bytes → Outcome OpeningCipher
  unfolding split_key
  make_opening_cipher k = do (k1, k2) ← split_key k; ok (chacha_opening k1 k2)

  -- Zeros, and the sequence number in the last four bytes.
  unfoldable pub make_counter : ℕ → Bytes
  make_counter seqn = replicate (c.nonce_bytes - 4) 0 ++ e.u32_be seqn

  unfoldable pub decrypt_packet_length : OpeningCipher → ℕ → Bytes → Bytes
  unfolding make_counter
  decrypt_packet_length clear_opening seqn len = len
  decrypt_packet_length (chacha_opening k1 k2) seqn len = c.chacha20_xor len (make_counter seqn) k1

  -- `open` overwrites the ciphertext; the plaintext is what stands behind the four bytes of the
  -- length. On an error the bytes stay as they were.
  unfoldable pub open_packet : OpeningCipher → ℕ → Bytes → Bytes → Outcome Bytes
  unfolding make_counter
  open_packet clear_opening seqn ciphertext tag = ok ciphertext
  open_packet (chacha_opening k1 k2) seqn ciphertext tag =
      let nonce = make_counter seqn in
      let poly_key = c.chacha20_xor (replicate 32 0) nonce k2 in
      if c.poly1305_verify tag ciphertext poly_key
      then ok (take 4 ciphertext ++ c.chacha20_xor_ic (drop 4 ciphertext) nonce 1 k2)
      else err packet_auth

  -- `nonce.0[0] = 0`
  unfoldable pub reset_first : Bytes → Bytes
  reset_first [] = []
  reset_first (b ∷ bs) = 0 ∷ bs

  -- `seal` returns the ciphertext and the tag that it writes.
  unfoldable pub seal_packet : SealingCipher → ℕ → Bytes → Bytes → Bytes × Bytes
  unfolding make_counter reset_first
  seal_packet clear_sealing seqn plaintext tag_out = (plaintext, tag_out)
  seal_packet (chacha_sealing k1 k2) seqn plaintext tag_out =
      let nonce = make_counter seqn in
      let a = c.chacha20_xor (take 4 plaintext) nonce k1 in
      let b = c.chacha20_xor_ic (drop 4 plaintext) nonce 1 k2 in
      let poly_key = c.chacha20_xor (replicate 32 0) (reset_first nonce) k2 in
      (a ++ b, c.poly1305_auth (a ++ b) poly_key)
