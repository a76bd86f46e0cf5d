-- ===== src/Dh/Mirror.antt =====
-- The derived keys of both ends, src/kex.rs.
use thrussh_fork.Base.{
  ℕ, zero, suc, ◌+◌, ◌≤◌, ◌≡◌, refl, true, false, ◌∷◌, ◌++◌, Bytes, length, leb, length-append,
  length-take, length-drop, take, drop, ◌*◌, ◌==◌, ok, arith,
}
use thrussh_fork.Wire.{Encoding}
use thrussh_fork.Cipher.Keys.{
  Sodium, IsSodium, CipherPair, chacha_sealing, chacha_opening, split_key, make_sealing_cipher,
  make_opening_cipher,
}
use thrussh_fork.Cipher.Seal.{opener}
use thrussh_fork.Negotiation.ReadKex.{chacha20_poly1305}
use thrussh_fork.Session.State.{Algorithm}
use thrussh_fork.Dh.Algorithm.{
  Curve, IsDigest, shared_mpint, extend_key, compute_key, compute_keys, key_len,
}

module _ ⦃e : Encoding⦄ ⦃k : Curve⦄ (laws : IsDigest k) where
  -- Each round adds 32 bytes, so the fuel of one round for each byte is enough: a key that is `gap`
  -- hashes short gets exactly the length asked for.
  extend_key_total :
      (fuel : ℕ) (shared hash : Bytes) (len : ℕ) (key : Bytes) (gap : ℕ)
      → len ≤ length key + fuel
      → len ≡ length key + 32 * gap
      → (out : Bytes) × (extend_key fuel shared hash len key ≡ ok out) × (length out ≡ len)
  unfolding extend_key
  extend_key_total zero shared hash len key gap h exact = (key, ground arith, omega arith)
  extend_key_total (suc fuel) shared hash len key zero h exact =
      let over : leb len (length key) ≡ true = ground arith in (key, rw over refl, omega arith)
  extend_key_total (suc fuel) shared hash len key (suc gap) h exact =
      let more = laws.digest (shared ++ (hash ++ key)) in
      let grown : length (key ++ more) ≡ length key + 32 =
        omega (arith, length-append key more, laws.length-digest (shared ++ (hash ++ key))) in
      let short : leb len (length key) ≡ false = ground arith in
      let (out, rest, size) =
        extend_key_total fuel shared hash len (key ++ more) gap (omega (arith, grown))
          (omega (arith, grown)) in
      (out, rw (short, laws.sha256_lem (shared ++ (hash ++ key))) rest, size)

  compute_key_total :
      (shared session_id hash : Bytes) (letter : ℕ)
      → (out : Bytes) × (compute_key shared session_id hash letter key_len ≡ ok out)
        × (length out ≡ key_len)
  unfolding compute_key
  compute_key_total shared session_id hash letter =
      let first = laws.digest (shared ++ (hash ++ (letter ∷ session_id))) in
      let short : length first ≡ 32 =
        laws.length-digest (shared ++ (hash ++ (letter ∷ session_id))) in
      let (out, eq, size) =
        extend_key_total key_len shared hash key_len first 1 (omega arith) (omega (arith, short)) in
      (out, rw (laws.sha256_lem (shared ++ (hash ++ (letter ∷ session_id)))) eq, size)

  module _ ⦃c : Sodium⦄ (crypto : IsSodium c) where
    -- A key of 64 bytes is two keys of the cipher: the copying of its halves does not panic.
    split_key_total :
        (key : Bytes)
        → length key ≡ key_len
        → split_key key ≡ ok (drop c.key_bytes key, take c.key_bytes key)
    unfolding split_key
    split_key_total key size = rw (there, second, first) refl
      where
        there : leb c.key_bytes (length key) ≡ true
        there = ground (arith, crypto.key_bytes_lem)

        second : (length (drop c.key_bytes key) == c.key_bytes) ≡ true
        second = ground (arith, crypto.key_bytes_lem, length-drop c.key_bytes key)

        first : (length (take c.key_bytes key) == c.key_bytes) ≡ true
        first = ground (arith, crypto.key_bytes_lem, length-take c.key_bytes key)

    -- Where the hash does not fail and gives 32 bytes, a key of the cipher has 32 bytes, and both
    -- ends have the same shared secret, session id and exchange hash, `compute_keys` succeeds on
    -- both ends for the ChaCha20-Poly1305 cipher, the loop for 64 bytes and the copying of both
    -- halves included, and each end opens with the keys with which the other seals.
    pub compute_keys_mirror :
        (server client : Algorithm) (session_id hash : Bytes)
        → server.shared_secret ≡ client.shared_secret
        → (theirs ours : CipherPair) × (compute_keys server session_id hash chacha20_poly1305 true
            ≡ ok theirs)
          × (compute_keys client session_id hash chacha20_poly1305 false ≡ ok ours)
          × (theirs.remote_to_local ≡ opener ours.local_to_remote)
          × (ours.remote_to_local ≡ opener theirs.local_to_remote)
    unfolding compute_keys make_sealing_cipher make_opening_cipher
    compute_keys_mirror server client session_id hash same =
        let (down, eq, size) = compute_key_total (shared_mpint client) session_id hash b'D' in
        let (up, eq', size') = compute_key_total (shared_mpint client) session_id hash b'C' in
        let halves = split_key_total down size in
        let halves' = split_key_total up size' in
        (
          record {
            local_to_remote = chacha_sealing (drop c.key_bytes down) (take c.key_bytes down);
            remote_to_local = chacha_opening (drop c.key_bytes up) (take c.key_bytes up);
          },
          record {
            local_to_remote = chacha_sealing (drop c.key_bytes up) (take c.key_bytes up);
            remote_to_local = chacha_opening (drop c.key_bytes down) (take c.key_bytes down);
          },
          rw (same, compute_keys) (simp (eq, eq', halves, halves')),
          simp (eq, eq', halves, halves'),
          refl,
          refl,
        )
