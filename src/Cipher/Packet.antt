-- ===== src/Cipher/Packet.antt =====
-- The buffers of src/sshbuffer.rs, and `read` and `CipherPair::write` of src/cipher/mod.rs.
use thrussh_fork.Base.{
  stuck, suc, ℕ, ◌+◌, ◌-◌, ◌%◌, ◌^◌, [], ◌∷◌, ◌++◌, Bytes, length, take, drop, replicate, Option,
  none, some, leb, if◌then◌else◌, Outcome, ok, err, foreign, panic, index_out_of_bounds, assert,
  ◌>>◌,
}
use thrussh_fork.Wire.{Encoding}
use thrussh_fork.Cipher.Keys.{
  Sodium, CipherPair, OpeningCipher, SealingCipher, opening_tag_len, sealing_tag_len,
  padding_length, fill_padding, decrypt_packet_length, open_packet, seal_packet, packet_length_len,
  padding_length_len,
}

pub record SshBuffer : Type 0 where
  pub buffer : Bytes
  pub len : ℕ
  pub bytes : ℕ
  pub seqn : ℕ  -- wraps at 2 ^ 32

abbrev pub new : SshBuffer
new = record { buffer = []; len = 0; bytes = 0; seqn = 0 }

unfoldable pub send_ssh_id : Bytes → SshBuffer → SshBuffer
send_ssh_id id b = record b { buffer = b.buffer ++ id ++ (b'\r' ∷ b'\n' ∷ []) }

-- What `read` leaves: its result, the buffer, and the bytes of the stream not yet read.
pub record ReadResult : Type 0 where
  pub result : Outcome ℕ
  pub buf : SshBuffer
  pub stream : Bytes

-- `read_exact`: the bytes and what follows them. At the end of the stream it fails, and what was
-- left is gone.
unfoldable pub read_exact : ℕ → Bytes → Option (Bytes × Bytes)
read_exact n stream = if leb n (length stream) then some (take n stream, drop n stream) else none

-- The padding length is the first byte of the plaintext; `plaintext[0]` on an empty one panics.
unfoldable pub strip_plaintext : Bytes → SshBuffer → Bytes → ReadResult
strip_plaintext [] b rest = record { result = panic; buf = b; stream = rest }
strip_plaintext (padding ∷ body) b rest =
    let plaintext_len = suc (length body) in
    if leb padding plaintext_len
    then record {
      result = ok (plaintext_len - padding + 4);
      buf = record b {
        buffer = take (plaintext_len - padding + 4) b.buffer;
        len = 0;
        seqn = (b.seqn + 1) % 2 ^ 32;
      };
      stream = rest;
    }
    else record { result = err index_out_of_bounds; buf = b; stream = rest }

unfoldable pub strip_padding : SshBuffer → Bytes → Bytes → ReadResult
unfolding strip_plaintext
strip_padding b rest opened = strip_plaintext (drop 4 opened) b rest

-- The second half of `read`, on the result of `open`. A failed `open` leaves the ciphertext in the
-- buffer.
unfoldable pub finish_open : Outcome Bytes → Bytes → SshBuffer → Bytes → ReadResult
unfolding strip_padding
finish_open (ok opened) tag b rest = strip_padding (record b { buffer = opened ++ tag }) rest opened
finish_open (err x) tag b rest = record { result = err x; buf = b; stream = rest }
finish_open foreign tag b rest = record { result = foreign; buf = b; stream = rest }
finish_open panic tag b rest = record { result = panic; buf = b; stream = rest }
finish_open stuck tag b rest = record { result = stuck; buf = b; stream = rest }

module _ ⦃e : Encoding⦄ ⦃c : Sodium⦄ where
  unfoldable pub open_body : OpeningCipher → SshBuffer → Bytes → ReadResult
  unfolding finish_open
  open_body key b rest =
      let ciphertext_len = length b.buffer - opening_tag_len key in
      let ciphertext = take ciphertext_len b.buffer in
      let tag = drop ciphertext_len b.buffer in
      finish_open (open_packet key b.seqn ciphertext tag) tag b rest

  -- Where the second `read_exact` fails, `resize` has filled the buffer with zeros, and what came
  -- of the body stands over the first of them.
  unfoldable pub finish_body :
      Option (Bytes × Bytes) → ℕ → OpeningCipher → SshBuffer → Bytes → Bytes → ReadResult
  unfolding open_body
  finish_body none clear_len key b len_bytes stream = record {
    result = foreign;
    buf = record b { buffer = len_bytes ++ (stream ++ replicate (clear_len - length stream) 0) };
    stream = [];
  }
  finish_body (some (body, rest)) clear_len key b len_bytes stream =
      open_body key (record b { buffer = len_bytes ++ body }) rest

  unfoldable pub read_body : OpeningCipher → SshBuffer → Bytes → Bytes → ReadResult
  unfolding finish_body
  read_body key b len_bytes stream =
      let clear_len = e.be_u32 (decrypt_packet_length key b.seqn len_bytes) + opening_tag_len key in
      finish_body (read_exact clear_len stream) clear_len key b len_bytes stream

  unfoldable pub read_with : Option (Bytes × Bytes) → CipherPair → SshBuffer → ReadResult
  unfolding read_body
  read_with none pair b = record { result = foreign; buf = b; stream = [] }
  read_with (some (len_bytes, rest)) pair b = read_body pair.remote_to_local b len_bytes rest

  unfoldable pub read : CipherPair → SshBuffer → Bytes → ReadResult
  unfolding read_with
  read pair b stream = read_with (read_exact 4 stream) pair b

  -- The bytes that `write` lays out before it seals them.
  unfoldable pub plain_packet : SealingCipher → Bytes → Bytes
  unfolding fill_padding
  plain_packet key payload =
      let padding_length' = padding_length key payload in
      let packet_length = padding_length_len + length payload + padding_length' in
      e.u32_be packet_length
      ++ (padding_length' ∷ (payload ++ fill_padding (replicate padding_length' 0)))

  unfoldable pub write : CipherPair → Bytes → SshBuffer → Outcome SshBuffer
  unfolding plain_packet
  write pair payload b = do
    let key = pair.local_to_remote
    let padding_length' = padding_length key payload
    let packet_length = padding_length_len + length payload + padding_length'
    let offset = length b.buffer
    assert (leb packet_length 0xffff_ffff)
    assert (leb padding_length' 0xff)
    let filled = b.buffer ++ (plain_packet key payload ++ replicate (sealing_tag_len key) 0)
    let tail = drop offset filled
    let plaintext = take (packet_length_len + packet_length) tail
    let tag = drop (packet_length_len + packet_length) tail
    let sealed = seal_packet key b.seqn plaintext tag
    ok (record b {
      buffer = take offset filled ++ (sealed.0 ++ sealed.1);
      seqn = (b.seqn + 1) % 2 ^ 32;
    })
