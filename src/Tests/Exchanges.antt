-- ===== src/Tests/Exchanges.antt =====
-- Concrete instances of the theorems on the key exchange, over a toy curve.
use thrussh_fork.Base.{
  ℕ, ◌+◌, ◌≡◌, refl, ap, true, false, none, some, [], ◌∷◌, Bytes, length, replicate,
  length-replicate, ok, arith,
}
use thrussh_fork.Wire.Standard.{standard, standard-IsEncoding}
use thrussh_fork.Cipher.Keys.{CipherPair}
use thrussh_fork.Cipher.Seal.{opener}
use thrussh_fork.Negotiation.ReadKex.{chacha20_poly1305}
use thrussh_fork.Session.State.{Algorithm, Exchange, new_exchange}
use thrussh_fork.Dh.Algorithm.{
  Curve, IsCurve, IsDigest, client_dh, server_dh, compute_shared_secret, compute_keys,
}
use thrussh_fork.Dh.Secrets.{shared_secrets_agree}
use thrussh_fork.Dh.Mirror.{compute_keys_mirror}
use thrussh_fork.Tests.Toy.{toy, toy-IsSodium}

abbrev first : Bytes → ℕ
first [] = 0
first (b ∷ bs) = b

instance abbrev pub toy_curve : Curve
toy_curve = record {
  scalarmult_base = λ a. replicate 32 (first a);
  scalarmult = λ a p. replicate 32 (first a + first p);
  sha256 = λ b. some (replicate 32 (length b));
}

pub toy-IsCurve : IsCurve toy_curve
toy-IsCurve = record {
  length-base = λ a. length-replicate 32 (first a);
  mult-base = λ a b. ap (λ (x : ℕ). replicate 32 x) (omega arith);
}

pub toy-IsDigest : IsDigest toy_curve
toy-IsDigest = record {
  digest = λ b. replicate 32 (length b);
  sha256_lem = λ b. refl;
  length-digest = λ b. length-replicate 32 (length b);
}

shared_secrets_agree_example :
    (mine mine' theirs : Algorithm) × (ephemeral packet : Bytes) × (exchange' : Exchange)
    × (client_dh (some (3 ∷ 4 ∷ [])) [] ≡ ok (mine, ephemeral, packet))
    × (server_dh (some (5 ∷ [])) new_exchange packet ≡ ok (theirs, exchange'))
    × (compute_shared_secret mine exchange'.server_ephemeral ≡ ok mine')
    × (mine'.shared_secret ≡ theirs.shared_secret)
    × (theirs.shared_secret ≡ some (toy_curve.scalarmult (5 ∷ []) ephemeral))
shared_secrets_agree_example =
    shared_secrets_agree standard-IsEncoding toy-IsCurve (3 ∷ 4 ∷ []) (5 ∷ []) new_exchange

abbrev agreed : Algorithm
agreed = record { local_secret = none; shared_secret = some (replicate 32 8) }

compute_keys_mirror_example :
    (theirs ours : CipherPair) × (compute_keys agreed (1 ∷ []) (2 ∷ []) chacha20_poly1305 true
      ≡ ok theirs)
    × (compute_keys agreed (1 ∷ []) (2 ∷ []) chacha20_poly1305 false ≡ ok ours)
    × (theirs.remote_to_local ≡ opener ours.local_to_remote)
    × (ours.remote_to_local ≡ opener theirs.local_to_remote)
compute_keys_mirror_example =
    compute_keys_mirror toy-IsDigest toy-IsSodium agreed agreed (1 ∷ []) (2 ∷ []) refl
