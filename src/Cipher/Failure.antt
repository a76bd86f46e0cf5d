-- ===== src/Cipher/Failure.antt =====
-- What `read` leaves behind when it fails.
use thrussh_fork.Base.{
  stuck, Bool, true, ℕ, ◌+◌, ◌-◌, ◌%◌, ◌^◌, ◌≡◌, refl, sym, ap, ◌∙◌, Bytes, [], ◌∷◌, ◌++◌, length,
  take, drop, replicate, ok, err, foreign, stuck, panic, packet_auth, some, none, false, Outcome,
  Option, length-append, take-append, drop-append, arith, if◌then◌else◌, append_assoc,
}
use thrussh_fork.Wire.{Encoding}
use thrussh_fork.Cipher.Keys.{
  Sodium, CipherPair, OpeningCipher, chacha_opening, opening_tag_len, open_packet,
  decrypt_packet_length, make_counter,
}
use thrussh_fork.Cipher.Stages.{read_front, body_front}
use thrussh_fork.Cipher.Packet.{
  strip_plaintext, finish_body, read_with, SshBuffer, ReadResult, read, read_exact, read_body,
  open_body, finish_open,
}

abbrev pub is_ok {ℓ} : {A : Type ℓ} → Outcome A → Bool
is_ok (ok a) = true
is_ok _ = false

abbrev CountsPackets : ℕ → ReadResult → Type 0
CountsPackets before out =
    out.buf.seqn ≡ (if is_ok out.result then (before + 1) % 2 ^ 32 else before)

strip_plaintext_counts :
    (p : Bytes) (b : SshBuffer) (rest : Bytes) → CountsPackets b.seqn (strip_plaintext p b rest)
unfolding strip_plaintext
strip_plaintext_counts [] b rest = refl
strip_plaintext_counts (p ∷ ps) b rest = ground arith

finish_open_counts :
    (o : Outcome Bytes) (tag : Bytes) (b : SshBuffer) (rest : Bytes)
    → CountsPackets b.seqn (finish_open o tag b rest)
unfolding finish_open
finish_open_counts (ok opened) tag b rest =
    strip_plaintext_counts (drop 4 opened) (record b { buffer = opened ++ tag }) rest
finish_open_counts (err x) tag b rest = refl
finish_open_counts foreign tag b rest = refl
finish_open_counts panic tag b rest = refl
finish_open_counts stuck tag b rest = refl

module _ ⦃e : Encoding⦄ ⦃c : Sodium⦄ where
  open_body_counts :
      (key : OpeningCipher) (b : SshBuffer) (rest : Bytes)
      → CountsPackets b.seqn (open_body key b rest)
  unfolding open_body
  open_body_counts key b rest =
      let n = length b.buffer - opening_tag_len key in
      let tag = drop n b.buffer in
      finish_open_counts (open_packet key b.seqn (take n b.buffer) tag) tag b rest

  finish_body_counts :
      (o : Option (Bytes × Bytes)) (n : ℕ) (key : OpeningCipher) (b : SshBuffer) (x y : Bytes)
      → CountsPackets b.seqn (finish_body o n key b x y)
  unfolding finish_body
  finish_body_counts none n key b x y = refl
  finish_body_counts (some (body, rest)) n key b x y =
      open_body_counts key (record b { buffer = x ++ body }) rest

  read_with_counts :
      (o : Option (Bytes × Bytes)) (pair : CipherPair) (b : SshBuffer)
      → CountsPackets b.seqn (read_with o pair b)
  unfolding read_with
  read_with_counts none pair b = refl
  read_with_counts (some (x, rest)) pair b = finish_body_counts _ _ _ b x rest

  -- Whatever the keys and the stream, `read` counts a packet, modulo 2 ^ 32, exactly if it
  -- succeeds.
  pub seqn-read :
      (pair : CipherPair) (b : SshBuffer) (stream : Bytes)
      → (read pair b stream).buf.seqn
        ≡ (if is_ok (read pair b stream).result then (b.seqn + 1) % 2 ^ 32 else b.seqn)
  unfolding read
  seqn-read pair b stream = read_with_counts (read_exact 4 stream) pair b

  -- `open` on a body whose tag does not verify.
  open_body_tampered :
      (k1 k2 : Bytes) (b : SshBuffer) (ct tag rest : Bytes)
      → b.buffer ≡ ct ++ tag
      → length tag ≡ 16
      → c.poly1305_verify tag ct (c.chacha20_xor (replicate 32 0) (make_counter b.seqn) k2) ≡ false
      → open_body (chacha_opening k1 k2) b rest
        ≡ record { result = err packet_auth; buf = b; stream = rest }
  unfolding open_body open_packet opening_tag_len
  open_body_tampered k1 k2 b ct tag rest hb ht hv =
      rw (hb, n) (rw (take-append (length ct) ct tag refl, drop-append (length ct) ct tag refl, hv))
    where
      n : length (ct ++ tag) - 16 ≡ length ct
      n = omega (arith, length-append ct tag)

  -- Where the tag of a packet does not verify, `read` under the ChaCha20-Poly1305 cipher returns
  -- the error `PacketAuth`, does not count the packet, and leaves the ciphertext in the buffer.
  pub read_tampered :
      (pair : CipherPair) (k1 k2 x y tag rest : Bytes) (b : SshBuffer)
      → pair.remote_to_local ≡ chacha_opening k1 k2
      → length x ≡ 4
      → length tag ≡ 16
      → e.be_u32 (decrypt_packet_length (chacha_opening k1 k2) b.seqn x) ≡ length y
      → c.poly1305_verify tag (x ++ y) (c.chacha20_xor (replicate 32 0) (make_counter b.seqn) k2)
        ≡ false
      → read pair b (x ++ ((y ++ tag) ++ rest)) ≡ record {
        result = err packet_auth;
        buf = record b { buffer = x ++ (y ++ tag) };
        stream = rest;
      }
  unfolding opening_tag_len
  read_tampered pair k1 k2 x y tag rest b hk hx ht hl hv =
      read_front pair b x ((y ++ tag) ++ rest) hx
      ∙ ap (λ k. read_body k b x ((y ++ tag) ++ rest)) hk
      ∙ body_front (chacha_opening k1 k2) b x (y ++ tag) rest
          (omega (arith, length-append y tag, hl))
      ∙ open_body_tampered k1 k2 (record b { buffer = x ++ (y ++ tag) }) (x ++ y) tag rest
          (sym (append_assoc x y tag)) ht hv
