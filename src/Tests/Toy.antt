-- ===== src/Tests/Toy.antt =====
-- A concrete stand-in for the calls of thrussh-libsodium that keeps what is documented of them.
use thrussh_fork.Base.{
  ℕ, suc, ◌+◌, ◌-◌, ◌%◌, ◌≡◌, refl, ap, [], ◌∷◌, Bytes, length, replicate, ◌==◌, if◌then◌else◌,
  bytes_eq, bytes_eq_refl, length-replicate, arith,
}
use thrussh_fork.Cipher.Keys.{Sodium, IsSodium}

abbrev flip : ℕ → ℕ
flip x = if x % 2 == 0 then x + 1 else x - 1

flip-flip : (x : ℕ) → flip (flip x) ≡ x
flip-flip x = ground arith

abbrev flip_all : Bytes → Bytes
flip_all [] = []
flip_all (b ∷ bs) = flip b ∷ flip_all bs

flip_all_twice : (bs : Bytes) → flip_all (flip_all bs) ≡ bs
flip_all_twice [] = refl
flip_all_twice (b ∷ bs) = rw (flip-flip b, flip_all_twice bs)

length-flip_all : (bs : Bytes) → length (flip_all bs) ≡ length bs
length-flip_all [] = refl
length-flip_all (b ∷ bs) = ap suc (length-flip_all bs)

abbrev checksum : Bytes → ℕ
checksum [] = 0
checksum (b ∷ bs) = (b + checksum bs) % 251

abbrev toy_auth : Bytes → Bytes → Bytes
toy_auth m k = replicate 16 (checksum m)

instance abbrev pub toy : Sodium
toy = record {
  key_bytes = 32;
  nonce_bytes = 8;
  chacha20_xor = λ b n k. flip_all b;
  chacha20_xor_ic = λ b n i k. flip_all b;
  poly1305_auth = toy_auth;
  poly1305_verify = λ t m k. bytes_eq t (toy_auth m k);
}

pub toy-IsSodium : IsSodium toy
toy-IsSodium = record {
  xor_xor = λ b n k. flip_all_twice b;
  length-xor = λ b n k. length-flip_all b;
  xor_ic-xor_ic = λ b n i k. flip_all_twice b;
  length-xor_ic = λ b n i k. length-flip_all b;
  verify-auth = λ m k. bytes_eq_refl (toy_auth m k);
  length-auth = λ m k. length-replicate 16 (checksum m);
  nonce_has_room = omega arith;
  key_bytes_lem = refl;
}
