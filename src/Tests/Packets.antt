-- ===== src/Tests/Packets.antt =====
-- Concrete instances of the theorems on packets and ciphers (src/cipher).
use thrussh_fork.Base.{
  ◌+◌, ◌%◌, ◌≤◌, ◌≡◌, refl, [], ◌∷◌, ◌++◌, Bytes, length, drop, replicate, Outcome, ok, err,
  packet_auth, arith,
}
use thrussh_fork.Wire.Standard.{standard, standard-IsEncoding}
use thrussh_fork.Cipher.Keys.{
  CipherPair, chacha_sealing, chacha_opening, padding_length, decrypt_packet_length,
}
use thrussh_fork.Cipher.Packet.{SshBuffer, new, read, write}
use thrussh_fork.Cipher.Padding.{block_length, padding_length_fills}
use thrussh_fork.Cipher.RoundTrip.{read-write}
use thrussh_fork.Cipher.Failure.{read_tampered}
use thrussh_fork.Tests.Toy.{toy, toy-IsSodium}

abbrev client_keys : CipherPair
client_keys = record {
  local_to_remote = chacha_sealing (1 ∷ 2 ∷ []) (3 ∷ 4 ∷ []);
  remote_to_local = chacha_opening (5 ∷ 6 ∷ []) (7 ∷ 8 ∷ []);
}

abbrev pub server_keys : CipherPair
server_keys = record {
  local_to_remote = chacha_sealing (5 ∷ 6 ∷ []) (7 ∷ 8 ∷ []);
  remote_to_local = chacha_opening (1 ∷ 2 ∷ []) (3 ∷ 4 ∷ []);
}

abbrev packet : Bytes
packet = 94 ∷ 0 ∷ 0 ∷ 0 ∷ 1 ∷ 42 ∷ []

abbrev pub seven : SshBuffer
seven = record { buffer = []; len = 0; bytes = 0; seqn = 7 }

-- What a call that succeeds leaves in the buffer.
abbrev done : Outcome SshBuffer → SshBuffer
done (ok b) = b
done _ = new

abbrev written : SshBuffer
unfolding write
written = done (write client_keys packet seven)

written_lem : write client_keys packet seven ≡ ok written
unfolding write padding_length
written_lem = refl

read-write_example :
    let out = read server_keys seven (written.buffer ++ (1 ∷ 2 ∷ [])) in
    (out.result ≡ ok 11)
    × (drop 5 out.buf.buffer ≡ packet)
    × (length out.buf.buffer ≡ 11)
    × (out.stream ≡ 1 ∷ 2 ∷ [])
    × (out.buf.seqn ≡ written.seqn)
unfolding padding_length
read-write_example =
    read-write standard-IsEncoding toy-IsSodium client_keys server_keys packet (1 ∷ 2 ∷ []) seven
      seven refl refl refl (omega arith) written_lem

read_tampered_example :
    read server_keys seven (
      (1 ∷ 1 ∷ 1 ∷ 9 ∷ [])
      ++ (((9 ∷ 9 ∷ 9 ∷ 9 ∷ 9 ∷ 9 ∷ 9 ∷ 9 ∷ []) ++ replicate 16 0) ++ (1 ∷ [])))
    ≡ record {
      result = err packet_auth;
      buf = record seven {
        buffer = (1 ∷ 1 ∷ 1 ∷ 9 ∷ []) ++ ((9 ∷ 9 ∷ 9 ∷ 9 ∷ 9 ∷ 9 ∷ 9 ∷ 9 ∷ []) ++ replicate 16 0);
      };
      stream = 1 ∷ [];
    }
unfolding decrypt_packet_length
read_tampered_example =
    read_tampered server_keys (1 ∷ 2 ∷ []) (3 ∷ 4 ∷ []) (1 ∷ 1 ∷ 1 ∷ 9 ∷ [])
      (9 ∷ 9 ∷ 9 ∷ 9 ∷ 9 ∷ 9 ∷ 9 ∷ 9 ∷ []) (replicate 16 0) (1 ∷ []) seven refl refl refl refl refl

padding_length_fills_example :
    (4 ≤ padding_length client_keys.local_to_remote packet)
    × (padding_length client_keys.local_to_remote packet ≤ 15)
    × (block_length client_keys.local_to_remote
            (7 + padding_length client_keys.local_to_remote packet)
          % 8
        ≡ 0)
padding_length_fills_example = padding_length_fills client_keys.local_to_remote packet
