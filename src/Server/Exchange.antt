-- ===== src/Server/Exchange.antt =====
-- `KexDh::parse` of src/server/kex.rs: the answer of the server to the client's half of the key
-- exchange.
use thrussh_fork.Base.{
  true, false, Option, List, [], ◌∷◌, ◌++◌, Bytes, drop, get_elem?, ◌==◌, if◌then◌else◌, Outcome,
  ok, ◌>>=◌, ◌>>◌, assert, unwrap, try_foreign,
}
use thrussh_fork.Protocol.Msg
use thrussh_fork.Wire.{Encoding}
use thrussh_fork.Cipher.Keys.{Sodium, CipherPair}
use thrussh_fork.Cipher.Packet.{SshBuffer, write}
use thrussh_fork.Session.State.{Kex, kex_dh, new_keys, KexDh, KexDhDone}
use thrussh_fork.Key.{KeyPair, KeyCrate, push_pair_to}
use thrussh_fork.Dh.Algorithm.{Curve, server_dh, compute_exchange_hash}
use thrussh_fork.Dh.Done.{done_compute_keys}

module _ ⦃e : Encoding⦄ ⦃k : Curve⦄ ⦃c : Sodium⦄ ⦃ks : KeyCrate⦄ where
  -- The reply: the key, the point of the server and the signature, in this order.
  abbrev pub ecdh_reply : Bytes → Bytes → Bytes → Bytes
  ecdh_reply key point signature = Msg.kex_ecdh_reply ∷ (key ++ (e.ssh_string point ++ signature))

  -- The exchange hash is signed, and the reply and NEWKEYS are written.
  unfoldable pub sign_exchange :
      CipherPair → KeyPair → KexDhDone → SshBuffer → Outcome (Kex × SshBuffer)
  unfolding done_compute_keys
  sign_exchange pair key d wb = do
    hash ← compute_exchange_hash d.kex (push_pair_to key) d.exchange
    signed ← try_foreign (ks.add_signature key hash)
    wb1 ← write pair (ecdh_reply (push_pair_to key) d.exchange.server_ephemeral signed) wb
    wb2 ← write pair (Msg.newkeys ∷ []) wb1
    newkeys ← done_compute_keys d hash true
    ok (new_keys newkeys, wb2)

  -- A packet that was guessed wrong is passed over, once. `secret` is as for `server_dh`.
  unfoldable pub kex_dh_parse :
      Option Bytes
      → List KeyPair
      → CipherPair
      → Bytes
      → KexDh
      → SshBuffer
      → Outcome (Kex × SshBuffer)
  unfolding sign_exchange
  kex_dh_parse secret keys pair buf d wb =
      if d.names.ignore_guessed
      then ok (kex_dh (record d { names = record d.names { ignore_guessed = false } }), wb)
      else (do
        first ← unwrap (get_elem? buf 0)
        assert (first == Msg.kex_ecdh_init)
        (ephemeral, r) ← try_foreign (e.read_string (drop 1 buf))
        (kex', exchange') ←
            server_dh secret
              (record d.exchange { client_ephemeral = d.exchange.client_ephemeral ++ ephemeral })
              buf
        key ← unwrap (get_elem? keys d.key)
        sign_exchange pair key
            (record {
              exchange = exchange';
              kex = kex';
              key = d.key;
              session_id = d.session_id;
              names = d.names;
            })
            wb)
