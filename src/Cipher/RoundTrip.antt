-- ===== src/Cipher/RoundTrip.antt =====
-- A packet that `write` sends, and what `read` makes of it at the other end.
use thrussh_fork.Base.{
  ℕ, ◌+◌, ◌%◌, ◌^◌, ◌≤◌, ◌<◌, ◌≡◌, refl, sym, ap, ◌∙◌, Bytes, [], ◌∷◌, ◌++◌, length, take, drop,
  replicate, ok, length-append, length-take, length-replicate, drop-append, append_assoc, arith,
}
use thrussh_fork.Wire.{Encoding, IsEncoding}
use thrussh_fork.Cipher.Keys.{
  Sodium, IsSodium, CipherPair, SealingCipher, sealing_tag_len, padding_length,
}
use thrussh_fork.Cipher.Packet.{SshBuffer, plain_packet, write, read}
use thrussh_fork.Cipher.Seal.{opener, Opens, seal-Opens}
use thrussh_fork.Cipher.Write.{packet_length, length-plain_packet, sealed, write_lem}
use thrussh_fork.Cipher.Sealed.{read_sealed}

module _ ⦃e : Encoding⦄ ⦃c : Sodium⦄ (laws : IsEncoding e) (crypto : IsSodium c) where
  drop_kept :
      (opened payload : Bytes) (p : ℕ)
      → 4 ≤ length opened
      → drop 5 (take 4 opened ++ (p ∷ payload)) ≡ payload
  drop_kept opened payload p h =
      ap (drop 5) (sym (append_assoc (take 4 opened) (p ∷ []) payload))
      ∙ drop-append 5 (take 4 opened ++ (p ∷ [])) payload
          (omega (arith, length-append (take 4 opened) (p ∷ []), length-take 4 opened))

  -- Where the payload is written to an empty buffer and the reader holds the opposite keys and the
  -- same sequence number, `read` of the packet, with any bytes behind it, succeeds: behind the
  -- first five bytes its buffer has exactly the payload, the bytes behind the packet are left in
  -- the stream, and the sequence numbers agree again. For both ciphers and packets below 2 ^ 32
  -- bytes.
  pub read-write :
      (pair pair' : CipherPair) (payload rest : Bytes) (w r : SshBuffer) {w' : SshBuffer}
      → pair'.remote_to_local ≡ opener pair.local_to_remote
      → r.seqn ≡ w.seqn
      → w.buffer ≡ []
      → packet_length pair.local_to_remote payload < 2 ^ 32
      → write pair payload w ≡ ok w'
      → let out = read pair' r (w'.buffer ++ rest) in
        (out.result ≡ ok (5 + length payload))
        × (drop 5 out.buf.buffer ≡ payload)
        × (length out.buf.buffer ≡ 5 + length payload)
        × (out.stream ≡ rest)
        × (out.buf.seqn ≡ w'.seqn)
  read-write pair pair' payload rest w r {w'} hk hs he hl hw =
      rw (buffer_lem, read_lem)
        (
          refl,
          drop_kept o.opened payload pad long,
          kept_length,
          refl,
          rw hs (sym (ap (λ b. b.seqn) w_lem)),
        )
    where
      key : SealingCipher
      key = pair.local_to_remote

      pad : ℕ
      pad = padding_length key payload

      o : Opens crypto key r.seqn (plain_packet key payload) (replicate (sealing_tag_len key) 0)
      o =
          seal-Opens crypto key r.seqn _ _ (omega (arith, length-plain_packet laws key payload))
            (length-replicate _ _)

      long : 4 ≤ length o.opened
      long = omega (arith, o.length_opened, length-plain_packet laws key payload)

      kept_length : length (take 4 o.opened ++ (pad ∷ payload)) ≡ 5 + length payload
      kept_length =
          omega
            (arith, length-append (take 4 o.opened) (pad ∷ payload), length-take 4 o.opened, long)

      w_lem : w' ≡ record w {
        buffer = w.buffer ++ ((sealed key w.seqn payload).0 ++ (sealed key w.seqn payload).1);
        seqn = (w.seqn + 1) % 2 ^ 32;
      }
      w_lem = cc (write_lem laws pair payload w hl)

      buffer_lem : w'.buffer ≡ (sealed key r.seqn payload).0 ++ (sealed key r.seqn payload).1
      buffer_lem = ap (λ b. b.buffer) w_lem ∙ rw (he, hs)

      read_lem :
          read pair' r (((sealed key r.seqn payload).0 ++ (sealed key r.seqn payload).1) ++ rest)
          ≡ record {
            result = ok (5 + length payload);
            buf = record r {
              buffer = take 4 o.opened ++ (pad ∷ payload);
              len = 0;
              seqn = (r.seqn + 1) % 2 ^ 32;
            };
            stream = rest;
          }
      read_lem = read_sealed laws crypto pair' key payload rest r hk hl o
