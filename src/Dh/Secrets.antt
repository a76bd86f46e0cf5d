-- ===== src/Dh/Secrets.antt =====
-- The shared secret of both ends, src/kex.rs.
use thrussh_fork.Base.{
  ◌≡◌, refl, ap, ◌∙◌, true, none, some, [], ◌∷◌, Bytes, length, take, drop, leb, length-append,
  drop-append, take_all, ok, arith,
}
use thrussh_fork.Wire.{Encoding, IsEncoding}
use thrussh_fork.Session.State.{Algorithm, Exchange}
use thrussh_fork.Session.Flush.{slice}
use thrussh_fork.Dh.Algorithm.{Curve, IsCurve, server_dh, client_dh, compute_shared_secret}

module _ ⦃e : Encoding⦄ ⦃k : Curve⦄ (laws : IsEncoding e) (curve : IsCurve k) where
  -- How the server reads a point of 32 bytes.
  point_string : (p : Bytes) → length p ≡ 32 → length (e.ssh_string p) ≡ 36
  point_string p hp =
      ap length (laws.ssh_string_lem p)
      ∙ omega (arith, length-append (e.u32_be (length p)) p, laws.length-u32_be (length p))

  point_room : (p : Bytes) → length p ≡ 32 → leb 5 (length (30 ∷ e.ssh_string p)) ≡ true
  point_room p hp = ground (arith, point_string p hp)

  point_len : (p : Bytes) → length p ≡ 32 → e.be_u32 (e.ssh_string p) ≡ 32
  point_len p hp = rw (laws.ssh_string_lem p, hp) (laws.be_u32-u32_be 32 p (omega arith))

  point_slice : (p : Bytes) → length p ≡ 32 → slice 5 37 (30 ∷ e.ssh_string p) ≡ some p
  unfolding slice
  point_slice p hp = rw (point_string p hp) (ap some inner)
    where
      inner : take 32 (drop 4 (e.ssh_string p)) ≡ p
      inner =
          ap (λ (s : Bytes). take 32 (drop 4 s)) (laws.ssh_string_lem p)
          ∙ ap (λ (s : Bytes). take 32 s)
              (drop-append 4 (e.u32_be (length p)) p (laws.length-u32_be (length p)))
          ∙ take_all 32 p (omega arith)

  -- What the server makes of the packet of a client.
  pub server_dh-client_dh :
      (client_secret server_secret : Bytes) (exchange : Exchange)
      → server_dh
          (some server_secret)
          exchange
          (30 ∷ e.ssh_string (k.scalarmult_base client_secret))
        ≡ ok (
          record {
            local_secret = none;
            shared_secret = some (k.scalarmult server_secret (k.scalarmult_base client_secret));
          },
          record exchange { server_ephemeral = k.scalarmult_base server_secret },
        )
  unfolding server_dh
  server_dh-client_dh client_secret server_secret exchange =
      let p = k.scalarmult_base client_secret in
      let hp = curve.length-base client_secret in
      rw (point_room p hp, point_len p hp, point_slice p hp, hp) refl

  -- For any two secrets, where points have 32 bytes and multiplication commutes, the packet that
  -- `client_dh` pushes is accepted by `server_dh`, the client takes the ephemeral key that the
  -- server leaves in its exchange, and both end with the same shared secret: the product of the
  -- server's secret and the client's ephemeral key.
  pub shared_secrets_agree :
      (client_secret server_secret : Bytes) (exchange : Exchange)
      → (mine mine' theirs : Algorithm) × (ephemeral packet : Bytes) × (exchange' : Exchange)
        × (client_dh (some client_secret) [] ≡ ok (mine, ephemeral, packet))
        × (server_dh (some server_secret) exchange packet ≡ ok (theirs, exchange'))
        × (compute_shared_secret mine exchange'.server_ephemeral ≡ ok mine')
        × (mine'.shared_secret ≡ theirs.shared_secret)
        × (theirs.shared_secret ≡ some (k.scalarmult server_secret ephemeral))
  unfolding client_dh compute_shared_secret
  shared_secrets_agree client_secret server_secret exchange = (
    record { local_secret = some client_secret; shared_secret = none },
    record {
      local_secret = none;
      shared_secret = some (k.scalarmult client_secret (k.scalarmult_base server_secret));
    },
    record {
      local_secret = none;
      shared_secret = some (k.scalarmult server_secret (k.scalarmult_base client_secret));
    },
    k.scalarmult_base client_secret,
    30 ∷ e.ssh_string (k.scalarmult_base client_secret),
    record exchange { server_ephemeral = k.scalarmult_base server_secret },
    refl,
    server_dh-client_dh client_secret server_secret exchange,
    rw (curve.length-base server_secret) refl,
    ap some (curve.mult-base client_secret server_secret),
    refl,
  )
