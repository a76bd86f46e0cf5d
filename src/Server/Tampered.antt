-- ===== src/Server/Tampered.antt =====
-- A packet that does not verify, in the loop of `run_stream`, src/server/mod.rs.
use thrussh_fork.Base.{
  ℕ, ◌<◌, ◌≡◌, refl, false, some, ◌++◌, Bytes, length, drop, replicate, get_elem?, ltb, leb, ◌==◌,
  length-append, Outcome, ok, ◌>>=◌, arith,
}
use thrussh_fork.Wire.{Encoding}
use thrussh_fork.Cipher.Keys.{
  Sodium, CipherPair, chacha_opening, make_counter, decrypt_packet_length,
}
use thrussh_fork.Cipher.Packet.{read}
use thrussh_fork.Cipher.Failure.{read_tampered}
use thrussh_fork.Session.State.{CommonSession}
use thrussh_fork.Rounds.{turned}
use thrussh_fork.Server.Loop.{
  Running, packet, payload, inspect, finish_round, on_packet, server_round,
}

pub inspect_lem :
    (buffer : Bytes) (kind : ℕ)
    → 4 < length buffer
    → get_elem? buffer 5 ≡ some kind
    → 4 < kind
    → inspect buffer ≡ ok (payload (drop 5 buffer))
unfolding inspect
inspect_lem buffer kind long at big = rw (room, at, other, bigger) refl
  where
    room : ltb (length buffer) 5 ≡ false
    room = ground arith

    other : (kind == 1) ≡ false
    other = ground arith

    bigger : leb kind 4 ≡ false
    bigger = ground arith

module _ ⦃e : Encoding⦄ ⦃c : Sodium⦄ {H : Type 0}
    (reply : CommonSession → H → Bytes → Outcome (CommonSession × H))
    (flush : CommonSession → Outcome CommonSession) where
  -- Where the tag of a packet does not verify under the ChaCha20-Poly1305 cipher, and the sixth of
  -- the bytes as they came is more than 4, a round of the loop of the server does not stop: it
  -- replies to the bytes from the sixth on, as they came, as to a packet of the client.
  pub tampered_packet_handled :
      (r : Running H) (pair : CipherPair) (k1 k2 x y tag rest : Bytes) (kind : ℕ)
      → pair.remote_to_local ≡ chacha_opening k1 k2
      → length x ≡ 4
      → length tag ≡ 16
      → e.be_u32 (decrypt_packet_length (chacha_opening k1 k2) r.buffer.seqn x) ≡ length y
      → c.poly1305_verify tag
          (x ++ y)
          (c.chacha20_xor (replicate 32 0) (make_counter r.buffer.seqn) k2)
        ≡ false
      → get_elem? (x ++ (y ++ tag)) 5 ≡ some kind
      → 4 < kind
      → server_round reply flush (packet (read pair r.buffer (x ++ ((y ++ tag) ++ rest)))) r ≡ (
          reply r.session r.handler (drop 5 (x ++ (y ++ tag))) >>= λ (a : CommonSession × H).
          finish_round reply flush (record r {
            session = a.0;
            handler = a.1;
            buffer = record r.buffer { buffer = x ++ (y ++ tag) };
          })
          >>= λ r'. ok (turned r'))
  unfolding server_round on_packet
  tampered_packet_handled r pair k1 k2 x y tag rest kind hk hx ht hl hv at big =
      rw (read_tampered pair k1 k2 x y tag rest r.buffer hk hx ht hl hv) (
        rw (
          inspect_lem (x ++ (y ++ tag)) kind
            (omega (arith, length-append x (y ++ tag), length-append y tag)) at big))
