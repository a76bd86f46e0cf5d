-- ===== src/Client/Exchange.antt =====
-- `server_key_check` of src/client/mod.rs: the client's half of the key exchange.
use thrussh_fork.Base.{
  Bool, true, false, Option, some, [], ◌∷◌, ◌++◌, Bytes, drop, Outcome, ok, ◌>>=◌, ◌>>◌, guard,
  unknown_key, wrong_server_sig, try_foreign,
}
use thrussh_fork.Protocol.Msg
use thrussh_fork.Wire.{Encoding}
use thrussh_fork.Cipher.Keys.{Sodium}
use thrussh_fork.Cipher.Packet.{write}
use thrussh_fork.Session.State.{new_keys, KexDhDone, NewKeys, CommonSession}
use thrussh_fork.Key.{PublicKey, KeyCrate, push_to}
use thrussh_fork.Dh.Algorithm.{Curve, compute_shared_secret, compute_exchange_hash}
use thrussh_fork.Dh.Done.{done_compute_keys}

module _ ⦃e : Encoding⦄ ⦃k : Curve⦄ ⦃c : Sodium⦄ ⦃ks : KeyCrate⦄ where
  -- The bytes of the signature, behind the name of its kind.
  unfoldable pub read_signature : Bytes → Outcome Bytes
  read_signature signature = do
    (sig_type, r) ← try_foreign (e.read_string signature)
    (sig, r') ← try_foreign (e.read_string r)
    ok sig

  -- The exchange hash that the client computes has to be signed by the key. The rest of the reply is
  -- `r`.
  unfoldable pub check_exchange : PublicKey → KexDhDone → Bytes → Outcome NewKeys
  unfolding read_signature done_compute_keys
  check_exchange pubkey d r = do
    (server_ephemeral, r1) ← try_foreign (e.read_string r)
    let exchange = record d.exchange {
      server_ephemeral = d.exchange.server_ephemeral ++ server_ephemeral;
    }
    (signature, r2) ← try_foreign (e.read_string r1)
    kex' ← compute_shared_secret d.kex exchange.server_ephemeral
    hash ← compute_exchange_hash kex' (push_to pubkey) exchange
    sig ← read_signature signature
    guard (ks.verify_server_auth pubkey hash sig) wrong_server_sig
    done_compute_keys (record d { exchange = exchange; kex = kex' }) hash false

  -- `check_server_key` is the handler's; it returns the handler and whether the key is accepted, or
  -- an error.
  unfoldable pub server_key_check :
      {H : Type 0}
      → (H → PublicKey → Option (H × Bool))
      → CommonSession
      → H
      → KexDhDone
      → Bytes
      → Outcome (CommonSession × H)
  unfolding check_exchange
  server_key_check check_server_key s h d buf = do
    (blob, r) ← try_foreign (e.read_string (drop 1 buf))
    pubkey ← try_foreign (ks.parse_public_key blob)
    (h', check) ← try_foreign (check_server_key h pubkey)
    guard check unknown_key
    newkeys ← check_exchange pubkey d r
    wb ← write s.cipher (Msg.newkeys ∷ []) s.write_buffer
    ok (record s { kex = some (new_keys (record newkeys { sent = true })); write_buffer = wb }, h')
