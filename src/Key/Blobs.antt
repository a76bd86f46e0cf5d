-- ===== src/Key/Blobs.antt =====
-- The public key blob that both functions push, src/key.rs.
use thrussh_fork.Base.{
  ℕ, ◌+◌, ◌%◌, ◌^◌, ◌<◌, ◌≡◌, refl, sym, ap, ◌∙◌, Bool, true, some, ◌++◌, Bytes, length, drop,
  length-append, arith,
}
use thrussh_fork.Wire.{Encoding, IsEncoding}
use thrussh_fork.Key.{
  PublicKey, ed25519, rsa, KeyPair, ed25519_pair, rsa_pair, KeyCrate, pair_name, push_to,
  push_pair_to,
}

-- The public half of a key.
abbrev pub public : KeyPair → PublicKey
public (ed25519_pair key) = ed25519 (drop 32 key)
public (rsa_pair hash secret exponent modulus) = rsa hash exponent modulus

module _ ⦃e : Encoding⦄ ⦃ks : KeyCrate⦄ where
  -- The name of the algorithm, and the numbers of the key.
  abbrev pub blob : PublicKey → Bytes
  blob (ed25519 key) = e.ssh_string ks.ed25519_name ++ e.ssh_string key
  blob (rsa hash exponent modulus) =
      e.ssh_string ks.ssh_rsa ++ (e.mpint exponent ++ e.mpint modulus)

  -- What is documented of the crate: a number has the length that is announced, and a
  -- signature of a pair, whose halves belong together, is a name and bytes that the public half,
  -- which has the hash of the pair, verifies.
  pub record IsKeyCrate : Type 0 where
    pub mpint_len_lem : (n : Bytes) → length (e.mpint n) ≡ ks.mpint_len n
    pub signature : KeyPair → Bytes → Bytes
    pub is_pair : KeyPair → Bool
    pub signed :
        (key : KeyPair) (b : Bytes)
        → is_pair key ≡ true
        → ks.add_signature key b
          ≡ some (e.ssh_string (e.ssh_string (pair_name key) ++ e.ssh_string (signature key b)))
    pub verified :
        (key : KeyPair) (b : Bytes)
        → is_pair key ≡ true
        → ks.verify_server_auth (public key) b (signature key b) ≡ true
    pub signature_fits : (key : KeyPair) (b : Bytes) → length (signature key b) < 2 ^ 30

  pub push_pair_lem : (key : KeyPair) → push_pair_to key ≡ push_to (public key)
  unfolding push_to push_pair_to
  push_pair_lem (ed25519_pair key) = refl
  push_pair_lem (rsa_pair hash secret exponent modulus) = refl

  module _ (laws : IsEncoding e) (crate : IsKeyCrate) where
    pub length-ssh_string : (s : Bytes) → length (e.ssh_string s) ≡ 4 + length s
    length-ssh_string s =
        ap length (laws.ssh_string_lem s)
        ∙ omega (arith, length-append (e.u32_be (length s)) s, laws.length-u32_be (length s))

    pub push_to_lem : (p : PublicKey) → length (blob p) < 2 ^ 32 → push_to p ≡ e.ssh_string (blob p)
    unfolding push_to
    push_to_lem (ed25519 key) h =
        ap (λ (n : ℕ). e.u32_be n ++ blob (ed25519 key)) size ∙ sym (laws.ssh_string_lem _)
      where
        size : (length ks.ed25519_name + length key + 8) % 2 ^ 32 ≡ length (blob (ed25519 key))
        size = omega (
          arith,
          h,
          length-append (e.ssh_string ks.ed25519_name) (e.ssh_string key),
          length-ssh_string ks.ed25519_name,
          length-ssh_string key,
        )
    push_to_lem (rsa hash exponent modulus) h =
        ap (λ (n : ℕ). e.u32_be n ++ blob (rsa hash exponent modulus)) size
        ∙ sym (laws.ssh_string_lem _)
      where
        size :
            (4 + length ks.ssh_rsa + ks.mpint_len modulus + ks.mpint_len exponent) % 2 ^ 32
            ≡ length (blob (rsa hash exponent modulus))
        size = omega (
          arith,
          h,
          length-append (e.ssh_string ks.ssh_rsa) (e.mpint exponent ++ e.mpint modulus),
          length-append (e.mpint exponent) (e.mpint modulus),
          length-ssh_string ks.ssh_rsa,
          crate.mpint_len_lem exponent,
          crate.mpint_len_lem modulus,
        )

    -- For a key whose blob is below 2 ^ 32 bytes, what is pushed for a key pair is what is pushed
    -- for its public half: the blob of the algorithm and the numbers of the key, behind exactly its
    -- length.
    pub push_to-blob :
        (key : KeyPair)
        → length (blob (public key)) < 2 ^ 32
        → (push_pair_to key ≡ push_to (public key))
          × (push_to (public key) ≡ e.ssh_string (blob (public key)))
    push_to-blob key h = (push_pair_lem key, push_to_lem (public key) h)
