-- ===== src/Key.antt =====
-- `PubKey::push_to` of src/key.rs, and `Named::name` of src/negotiation.rs, for public keys and for
-- key pairs. The keys belong to
-- thrussh-keys: a key has here what the code reads of it, and `KeyCrate` holds the calls that the
-- source makes of that crate.
pub mod Blobs
use thrussh_fork.Base.{
  ℕ, ◌+◌, ◌%◌, ◌^◌, ◌≡◌, Bool, true, Option, none, some, List, [], ◌∷◌, ◌++◌, Bytes, length, drop,
}
use thrussh_fork.Wire.{Encoding}

-- The bytes of an Ed25519 key; the name of the hash, the exponent and the modulus of an RSA key.
pub data PublicKey : Type 0 where
  ed25519 : Bytes → PublicKey
  rsa : Bytes → Bytes → Bytes → PublicKey

-- The 64 bytes of an Ed25519 key; the name of the hash, the private part, the exponent and the
-- modulus of an RSA key.
pub data KeyPair : Type 0 where
  ed25519_pair : Bytes → KeyPair
  rsa_pair : Bytes → Bytes → Bytes → Bytes → KeyPair

pub record KeyCrate : Type 0 where
  pub ed25519_name : Bytes
  pub ssh_rsa : Bytes
  pub mpint_len : Bytes → ℕ
  -- What `add_signature` and `add_self_signature` append, of the bytes that are signed; a failure of
  -- openssl is none.
  pub add_signature : KeyPair → Bytes → Option Bytes
  pub add_self_signature : KeyPair → Bytes → Option Bytes
  pub parse_public_key : Bytes → Option PublicKey
  -- Whether the signature is one of the bytes, by this key.
  pub verify_server_auth : PublicKey → Bytes → Bytes → Bool

module _ ⦃ks : KeyCrate⦄ where
  -- `Named::name` of both, src/negotiation.rs.
  abbrev pub public_name : PublicKey → Bytes
  public_name (ed25519 key) = ks.ed25519_name
  public_name (rsa hash exponent modulus) = ks.ssh_rsa

  abbrev pub pair_name : KeyPair → Bytes
  pair_name (ed25519_pair key) = ks.ed25519_name
  pair_name (rsa_pair hash secret exponent modulus) = hash

module _ ⦃e : Encoding⦄ ⦃ks : KeyCrate⦄ where
  unfoldable pub push_to : PublicKey → Bytes
  push_to (ed25519 key) =
      e.u32_be ((length ks.ed25519_name + length key + 8) % 2 ^ 32)
      ++ (e.ssh_string ks.ed25519_name ++ e.ssh_string key)
  push_to (rsa hash exponent modulus) =
      e.u32_be ((4 + length ks.ssh_rsa + ks.mpint_len modulus + ks.mpint_len exponent) % 2 ^ 32)
      ++ (e.ssh_string ks.ssh_rsa ++ (e.mpint exponent ++ e.mpint modulus))

  -- The slice `key[32..]` is there, since the key has 64 bytes.
  unfoldable pub push_pair_to : KeyPair → Bytes
  push_pair_to (ed25519_pair key) =
      e.u32_be ((length ks.ed25519_name + length (drop 32 key) + 8) % 2 ^ 32)
      ++ (e.ssh_string ks.ed25519_name ++ e.ssh_string (drop 32 key))
  push_pair_to (rsa_pair hash secret exponent modulus) =
      e.u32_be ((4 + length ks.ssh_rsa + ks.mpint_len modulus + ks.mpint_len exponent) % 2 ^ 32)
      ++ (e.ssh_string ks.ssh_rsa ++ (e.mpint exponent ++ e.mpint modulus))
