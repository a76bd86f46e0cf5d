-- ===== src/Ends/Halves.antt =====
-- The halves of a key exchange, step by step: src/client/kex.rs, src/client/mod.rs, src/server/kex.rs and
-- src/kex.rs together.
use thrussh_fork.Base.{
  ◌^◌, ◌<◌, ◌≡◌, refl, true, false, none, some, [], ◌∷◌, ◌++◌, Bytes, length, take-append,
  drop-append, length-append, ok, ◌>>=◌, arith,
}
use thrussh_fork.Protocol.Msg
use thrussh_fork.Wire.{Encoding, IsEncoding}
use thrussh_fork.Wire.Reads.{read_last}
use thrussh_fork.Cipher.Keys.{Sodium, CipherPair}
use thrussh_fork.Cipher.Packet.{SshBuffer, write}
use thrussh_fork.Negotiation.ReadKex.{Names}
use thrussh_fork.Session.State.{Algorithm, Exchange, KexInit, KexDhDone, new_keys}
use thrussh_fork.Key.{KeyPair, KeyCrate, pair_name}
use thrussh_fork.Key.Blobs.{public, blob, IsKeyCrate, push_to_lem, push_pair_lem, length-ssh_string}
use thrussh_fork.Dh.Algorithm.{
  Curve, IsCurve, IsDigest, client_dh, compute_shared_secret, compute_exchange_hash,
}
use thrussh_fork.Dh.Done.{done_compute_keys}
use thrussh_fork.Client.Kex.{start_dh}
use thrussh_fork.Client.Exchange.{read_signature, check_exchange}
use thrussh_fork.Server.Exchange.{ecdh_reply, sign_exchange}

module _ ⦃e : Encoding⦄ ⦃k : Curve⦄ ⦃c : Sodium⦄ ⦃ks : KeyCrate⦄ where
  -- The client's half: its packet, and what it keeps of the exchange.
  abbrev pub ecdh_init : Bytes → Bytes
  ecdh_init a = Msg.kex_ecdh_init ∷ e.ssh_string (k.scalarmult_base a)

  abbrev pub started : KexInit → Names → Bytes → KexDhDone
  started i algo a = record {
    exchange = record i.exchange { client_ephemeral = k.scalarmult_base a };
    names = algo;
    kex = record { local_secret = some a; shared_secret = none };
    key = 0;
    session_id = i.session_id;
  }

  pub start_dh_lem :
      (a : Bytes) (pair : CipherPair) (i : KexInit) (algo : Names) (wb : SshBuffer)
      → start_dh (some a) pair i algo wb
        ≡ (write pair (ecdh_init a) wb >>= λ wb'. ok (started i algo a, wb'))
  unfolding start_dh client_dh
  start_dh_lem a pair i algo wb = rw (
    drop-append (length i.exchange.client_kex_init) i.exchange.client_kex_init (ecdh_init a) refl,
    take-append (length i.exchange.client_kex_init) i.exchange.client_kex_init (ecdh_init a) refl,
  )

  -- The secret that both ends come to, and the exchange with both points.
  abbrev pub agreed : Bytes → Algorithm
  agreed secret = record { local_secret = none; shared_secret = some secret }

  abbrev pub with_points : Exchange → Bytes → Bytes → Exchange
  with_points ex a b = record ex {
    client_ephemeral = k.scalarmult_base a;
    server_ephemeral = k.scalarmult_base b;
  }

  abbrev pub hashed : Bytes → Bytes → Exchange → Bytes
  hashed secret key exchange =
      e.ssh_string exchange.client_id
      ++ (e.ssh_string exchange.server_id
          ++ (e.ssh_string exchange.client_kex_init
              ++ (e.ssh_string exchange.server_kex_init
                  ++ (key
                      ++ (e.ssh_string exchange.client_ephemeral
                          ++ (e.ssh_string exchange.server_ephemeral ++ e.mpint secret))))))

  module _ (laws : IsEncoding e) (curve : IsCurve k) (digest : IsDigest k)
      (crate : IsKeyCrate) where
    pub hash_lem :
        (secret key : Bytes) (exchange : Exchange)
        → compute_exchange_hash (agreed secret) key exchange
          ≡ ok (digest.digest (hashed secret key exchange))
    unfolding compute_exchange_hash
    hash_lem secret key exchange = rw (digest.sha256_lem (hashed secret key exchange))

    pub point_fits : (a : Bytes) → length (k.scalarmult_base a) < 2 ^ 32
    point_fits a = omega (arith, curve.length-base a)

    abbrev pub signature_string : KeyPair → Bytes → Bytes
    signature_string key b = e.ssh_string (pair_name key) ++ e.ssh_string (crate.signature key b)

    pub signature_string_fits :
        (key : KeyPair) (b : Bytes)
        → length (pair_name key) < 2 ^ 30
        → length (signature_string key b) < 2 ^ 32
    signature_string_fits key b named = omega (
      arith,
      length-append (e.ssh_string (pair_name key)) (e.ssh_string (crate.signature key b)),
      length-ssh_string laws crate (pair_name key),
      length-ssh_string laws crate (crate.signature key b),
      named,
      crate.signature_fits key b,
    )

    pub read_signature_lem :
        (key : KeyPair) (b : Bytes)
        → length (pair_name key) < 2 ^ 30
        → read_signature (signature_string key b) ≡ ok (crate.signature key b)
    unfolding read_signature
    read_signature_lem key b named =
        rw (laws.read_string-ssh_string (pair_name key) _ (omega (arith, named)))
          (rw (read_last laws (crate.signature key b) (omega (arith, crate.signature_fits key b))))

    pub sign_exchange_lem :
        (secret : Bytes) (pair : CipherPair) (key : KeyPair) (d : KexDhDone) (wb : SshBuffer)
        → d.kex ≡ agreed secret
        → length (blob (public key)) < 2 ^ 32
        → crate.is_pair key ≡ true
        → sign_exchange pair key d wb ≡ (
            let hash =
              digest.digest (hashed secret (e.ssh_string (blob (public key))) d.exchange) in
            write pair
              (ecdh_reply
                (e.ssh_string (blob (public key)))
                d.exchange.server_ephemeral
                (e.ssh_string (signature_string key hash)))
              wb
            >>= λ wb1. write pair (Msg.newkeys ∷ []) wb1 >>= λ wb2.
                done_compute_keys d hash true >>= λ newkeys. ok (new_keys newkeys, wb2))
    unfolding sign_exchange
    sign_exchange_lem secret pair key d wb kex fits paired =
        rw (push_pair_lem key, push_to_lem laws crate (public key) fits, kex)
          (rw (hash_lem secret (e.ssh_string (blob (public key))) d.exchange)
            (rw (crate.signed key _ paired)))

    pub check_exchange_lem :
        (a b secret : Bytes) (key : KeyPair) (d : KexDhDone)
        → k.scalarmult a (k.scalarmult_base b) ≡ secret
        → d.kex ≡ record { local_secret = some a; shared_secret = none }
        → d.exchange.server_ephemeral ≡ []
        → length (blob (public key)) < 2 ^ 32
        → length (pair_name key) < 2 ^ 30
        → crate.is_pair key ≡ true
        → check_exchange (public key) d (
            e.ssh_string (k.scalarmult_base b)
            ++ e.ssh_string (
                signature_string key (
                  digest.digest (
                    hashed secret
                      (e.ssh_string (blob (public key)))
                      (record d.exchange { server_ephemeral = k.scalarmult_base b })))))
          ≡ done_compute_keys
              (record d {
                exchange = record d.exchange { server_ephemeral = k.scalarmult_base b };
                kex = agreed secret;
              })
              (digest.digest (
                hashed secret
                  (e.ssh_string (blob (public key)))
                  (record d.exchange { server_ephemeral = k.scalarmult_base b })))
              false
    unfolding check_exchange compute_shared_secret
    check_exchange_lem a b secret key d same kex empty fits named paired =
        rw (laws.read_string-ssh_string (k.scalarmult_base b) _ (point_fits b), empty)
          (rw
            (
              read_last laws _ (signature_string_fits key _ named),
              kex,
              curve.length-base b,
              push_to_lem laws crate (public key) fits,
            )
            (rw same (
              rw (hash_lem secret (e.ssh_string (blob (public key))) _)
                (rw (read_signature_lem key _ named, crate.verified key _ paired)))))
