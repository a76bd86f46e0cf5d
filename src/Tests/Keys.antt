-- ===== src/Tests/Keys.antt =====
-- A stand-in for the calls of thrussh-keys that keeps what is documented of them.
use thrussh_fork.Base.{
  ◌≡◌, refl, true, Option, none, some, [], ◌∷◌, ◌++◌, Bytes, codes, length, bytes_eq, bytes_eq_refl,
  if◌then◌else◌, arith,
}
use thrussh_fork.Wire.Standard.{standard}
use thrussh_fork.Key.{PublicKey, ed25519, rsa, KeyPair, ed25519_pair, rsa_pair, KeyCrate, pair_name}
use thrussh_fork.Key.Blobs.{IsKeyCrate}

abbrev ed_name : Bytes
ed_name = codes "ssh-ed25519"

abbrev rsa_name : Bytes
rsa_name = codes "ssh-rsa"

abbrev as_ed25519 : Option (Bytes × Bytes) → Option PublicKey
as_ed25519 none = none
as_ed25519 (some (key, r)) = some (ed25519 key)

abbrev with_modulus : Bytes → Option (Bytes × Bytes) → Option PublicKey
with_modulus exponent none = none
with_modulus exponent (some (modulus, r)) = some (rsa rsa_name exponent modulus)

abbrev as_rsa : Option (Bytes × Bytes) → Option PublicKey
as_rsa none = none
as_rsa (some (exponent, r)) = with_modulus exponent (standard.read_string r)

abbrev by_name : Option (Bytes × Bytes) → Option PublicKey
by_name none = none
by_name (some (name, r)) =
    if bytes_eq name ed_name
    then as_ed25519 (standard.read_string r)
    else as_rsa (standard.read_string r)

abbrev pub named : KeyPair → Bytes
named (ed25519_pair key) = ed_name
named (rsa_pair hash secret exponent modulus) = hash

instance abbrev pub toy_crate : KeyCrate
toy_crate = record {
  ed25519_name = ed_name;
  ssh_rsa = rsa_name;
  mpint_len = λ n. length (standard.mpint n);
  add_signature = λ key b. some (
      standard.ssh_string (standard.ssh_string (named key) ++ standard.ssh_string (length b ∷ [])));
  add_self_signature = λ key b. some (
      standard.ssh_string
        (standard.ssh_string (named key) ++ (standard.ssh_string (length b ∷ []) ++ [])));
  parse_public_key = λ b. by_name (standard.read_string b);
  verify_server_auth = λ key b s. bytes_eq s (length b ∷ []);
}

signed_lem :
    (key : KeyPair) (b : Bytes)
    → toy_crate.add_signature key b
      ≡ some (
          standard.ssh_string
            (standard.ssh_string (pair_name key) ++ standard.ssh_string (length b ∷ [])))
signed_lem (ed25519_pair key) b = refl
signed_lem (rsa_pair hash secret exponent modulus) b = refl

pub toy_crate-IsKeyCrate : IsKeyCrate
toy_crate-IsKeyCrate = record {
  mpint_len_lem = λ n. refl;
  signature = λ key b. length b ∷ [];
  is_pair = λ key. true;
  signed = λ key b pair. signed_lem key b;
  verified = λ key b pair. bytes_eq_refl (length b ∷ []);
  signature_fits = λ key b. omega arith;
}

pub toy_is_pair : (key : KeyPair) → toy_crate-IsKeyCrate.is_pair key ≡ true
unfolding toy_crate-IsKeyCrate
toy_is_pair key = refl
