-- ===== src/Dh/Algorithm.antt =====
-- `kex::Algorithm` of src/kex.rs. The curve is that of thrussh-libsodium and the hash that of
-- openssl: both are interfaces.
use thrussh_fork.Base.{
  ℕ, zero, suc, ◌+◌, ◌≡◌, Bool, Option, none, some, [], ◌∷◌, ◌++◌, Bytes, length, drop, get_elem?,
  leb, ◌==◌, bytes_eq, if◌then◌else◌, Outcome, ok, stuck, ◌>>=◌, ◌>>◌, assert, unwrap, try_foreign,
}
use thrussh_fork.Protocol.Msg
use thrussh_fork.Wire.{Encoding}
use thrussh_fork.Cipher.Keys.{Sodium, CipherPair, make_sealing_cipher, make_opening_cipher}
use thrussh_fork.Negotiation.ReadKex.{chacha20_poly1305}
use thrussh_fork.Session.State.{Algorithm, Exchange}
use thrussh_fork.Session.Flush.{slice}

pub record Curve : Type 0 where
  pub scalarmult_base : Bytes → Bytes
  pub scalarmult : Bytes → Bytes → Bytes
  -- SHA-256, of `Hasher`, which may fail.
  pub sha256 : Bytes → Option Bytes

-- Points have 32 bytes, and both ends come to the same point.
pub record IsCurve (k : Curve) : Type 0 where
  pub length-base : (a : Bytes) → length (k.scalarmult_base a) ≡ 32
  pub mult-base :
      (a b : Bytes) → k.scalarmult a (k.scalarmult_base b) ≡ k.scalarmult b (k.scalarmult_base a)

-- A hash that does not fail has 32 bytes.
pub record IsDigest (k : Curve) : Type 0 where
  pub digest : Bytes → Bytes
  pub sha256_lem : (b : Bytes) → k.sha256 b ≡ some (digest b)
  pub length-digest : (b : Bytes) → length (digest b) ≡ 32

-- The length of the keys of the cipher.
abbrev pub key_len : ℕ
key_len = 64

module _ ⦃e : Encoding⦄ ⦃k : Curve⦄ where
  -- `secret` is what `rand_bytes` gives. `&payload[1..]` has four bytes at least, the slice of the
  -- key is there, and `clone_from_slice` takes 32 bytes, or the call panics.
  unfoldable pub server_dh : Option Bytes → Exchange → Bytes → Outcome (Algorithm × Exchange)
  unfolding slice
  server_dh secret exchange payload = do
    first ← unwrap (get_elem? payload 0)
    assert (first == Msg.kex_ecdh_init)
    assert (leb 5 (length payload))
    let pubkey_len = e.be_u32 (drop 1 payload)
    client_pubkey ← unwrap (slice 5 (5 + pubkey_len) payload)
    assert (length client_pubkey == 32)
    server_secret ← try_foreign secret
    ok (
      record {
        local_secret = none;
        shared_secret = some (k.scalarmult server_secret client_pubkey);
      },
      record exchange { server_ephemeral = k.scalarmult_base server_secret },
    )

  -- The new client ephemeral, and what is pushed to `buf`.
  unfoldable pub client_dh : Option Bytes → Bytes → Outcome (Algorithm × Bytes × Bytes)
  client_dh secret buf = do
    client_secret ← try_foreign secret
    let client_pubkey = k.scalarmult_base client_secret
    ok (
      record { local_secret = some client_secret; shared_secret = none },
      client_pubkey,
      buf ++ (Msg.kex_ecdh_init ∷ e.ssh_string client_pubkey),
    )

  unfoldable pub compute_shared_secret : Algorithm → Bytes → Outcome Algorithm
  compute_shared_secret kex remote_pubkey = do
    local_secret ← unwrap kex.local_secret
    assert (length remote_pubkey == 32)
    ok (record {
      local_secret = none;
      shared_secret = some (k.scalarmult local_secret remote_pubkey);
    })

  -- `if let Some(ref shared) = self.shared_secret { .. }`
  abbrev pub shared_mpint : Algorithm → Bytes
  shared_mpint kex = elim kex.shared_secret [ none ↦ [] | some shared ↦ e.mpint shared ]

  -- The key is given by what `push_to` appends for it.
  unfoldable pub compute_exchange_hash : Algorithm → Bytes → Exchange → Outcome Bytes
  compute_exchange_hash kex key exchange = try_foreign (
      k.sha256 (
        e.ssh_string exchange.client_id
        ++ (e.ssh_string exchange.server_id
            ++ (e.ssh_string exchange.client_kex_init
                ++ (e.ssh_string exchange.server_kex_init
                    ++ (key
                        ++ (e.ssh_string exchange.client_ephemeral
                            ++ (e.ssh_string exchange.server_ephemeral ++ shared_mpint kex))))))))

  -- `while key.len() < len`; each round adds a hash. `shared` stands before what is hashed.
  unfoldable pub extend_key : ℕ → Bytes → Bytes → ℕ → Bytes → Outcome Bytes
  extend_key zero shared exchange_hash len key = if leb len (length key) then ok key else stuck
  extend_key (suc fuel) shared exchange_hash len key = if leb len (length key) then ok key else (do
    hash ← try_foreign (k.sha256 (shared ++ (exchange_hash ++ key)))
    extend_key fuel shared exchange_hash len (key ++ hash))

  unfoldable pub compute_key : Bytes → Bytes → Bytes → ℕ → ℕ → Outcome Bytes
  unfolding extend_key
  compute_key shared session_id exchange_hash c len = do
    hash ← try_foreign (k.sha256 (shared ++ (exchange_hash ++ (c ∷ session_id))))
    extend_key len shared exchange_hash len hash

  -- `unreachable!()` for another cipher.
  unfoldable pub compute_keys :
      ⦃c : Sodium⦄ → Algorithm → Bytes → Bytes → Bytes → Bool → Outcome CipherPair
  unfolding compute_key
  compute_keys kex session_id exchange_hash cipher is_server = do
    assert (bytes_eq cipher chacha20_poly1305)
    sealing ←
        compute_key (shared_mpint kex) session_id exchange_hash (if is_server then b'D' else b'C')
          key_len
    opening ←
        compute_key (shared_mpint kex) session_id exchange_hash (if is_server then b'C' else b'D')
          key_len
    to_remote ← make_sealing_cipher sealing
    to_local ← make_opening_cipher opening
    ok (record { local_to_remote = to_remote; remote_to_local = to_local })
