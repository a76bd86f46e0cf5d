-- ===== src/Ends/Sides.antt =====
-- What each end makes of a key exchange: src/client/mod.rs and src/server/kex.rs.
use thrussh_fork.Base.{
  ℕ, ◌^◌, ◌<◌, ◌≡◌, refl, Bool, true, false, Option, some, List, [], ◌∷◌, Bytes, length, get_elem?,
  ok, ◌>>=◌,
}
use thrussh_fork.Protocol.Msg
use thrussh_fork.Wire.{Encoding, IsEncoding}
use thrussh_fork.Wire.Reads.{read_last}
use thrussh_fork.Cipher.Keys.{Sodium, CipherPair}
use thrussh_fork.Cipher.Packet.{SshBuffer, write}
use thrussh_fork.Negotiation.ReadKex.{Names, chacha20_poly1305}
use thrussh_fork.Session.State.{
  Exchange, KexInit, KexDh, KexDhDone, NewKeys, new_keys, CommonSession,
}
use thrussh_fork.Key.{PublicKey, KeyPair, KeyCrate, pair_name}
use thrussh_fork.Key.Blobs.{public, blob, IsKeyCrate}
use thrussh_fork.Dh.Algorithm.{Curve, IsCurve, IsDigest, compute_keys}
use thrussh_fork.Dh.Done.{done_compute_keys, session_id_of}
use thrussh_fork.Ends.Halves.{
  agreed, with_points, hashed, signature_string, point_fits, sign_exchange_lem, check_exchange_lem,
  ecdh_init, started,
}
use thrussh_fork.Dh.Secrets.{server_dh-client_dh}
use thrussh_fork.Client.Exchange.{server_key_check}
use thrussh_fork.Server.Exchange.{ecdh_reply, kex_dh_parse}

module _ ⦃e : Encoding⦄ ⦃k : Curve⦄ ⦃c : Sodium⦄ ⦃ks : KeyCrate⦄ where
  module _ (laws : IsEncoding e) (curve : IsCurve k) (digest : IsDigest k)
      (crate : IsKeyCrate) where
    -- What both ends make of the exchange, once the cipher pair is known.
    abbrev pub hash_of : KeyPair → Exchange → Bytes → Bytes → Bytes
    hash_of key ex a b = digest.digest (
        hashed (k.scalarmult b (k.scalarmult_base a)) (e.ssh_string (blob (public key)))
          (with_points ex a b))

    abbrev pub keys_of : Bytes → Exchange → Names → ℕ → Option Bytes → Bytes → CipherPair → NewKeys
    keys_of secret exchange names key session_id hash cipher = record {
      exchange = exchange;
      names = names;
      kex = agreed secret;
      key = key;
      cipher = cipher;
      session_id = session_id_of session_id hash;
      received = false;
      sent = false;
    }

    abbrev pub done_of : Bytes → Exchange → Names → ℕ → Option Bytes → KexDhDone
    done_of secret exchange names key session_id = record {
      exchange = exchange;
      names = names;
      kex = agreed secret;
      key = key;
      session_id = session_id;
    }

    abbrev pub reply_of : KeyPair → Exchange → Bytes → Bytes → Bytes
    reply_of key ex a b =
        ecdh_reply (e.ssh_string (blob (public key))) (k.scalarmult_base b)
          (e.ssh_string (signature_string laws curve digest crate key (hash_of key ex a b)))

    pub server_lem :
        (a b : Bytes) (keys : List KeyPair) (key : KeyPair) (pair : CipherPair) (d : KexDh)
        (wb : SshBuffer)
        → d.names.ignore_guessed ≡ false
        → d.exchange.client_ephemeral ≡ []
        → get_elem? keys d.key ≡ some key
        → length (blob (public key)) < 2 ^ 32
        → crate.is_pair key ≡ true
        → kex_dh_parse (some b) keys pair (ecdh_init a) d wb ≡ (
            write pair (reply_of key d.exchange a b) wb >>= λ wb1.
            write pair (Msg.newkeys ∷ []) wb1 >>= λ wb2.
            done_compute_keys
              (done_of
                (k.scalarmult b (k.scalarmult_base a))
                (with_points d.exchange a b)
                d.names
                d.key
                d.session_id)
              (hash_of key d.exchange a b)
              true
            >>= λ newkeys. ok (new_keys newkeys, wb2))
    unfolding kex_dh_parse
    server_lem a b keys key pair d wb taken empty here fits paired = simp taken (
        rw (read_last laws (k.scalarmult_base a) (point_fits laws curve digest crate a)) (
          simp empty (
            rw
              (
                server_dh-client_dh laws curve a b
                    (record d.exchange { client_ephemeral = k.scalarmult_base a }),
                here,
              )
              (sign_exchange_lem laws curve digest crate (k.scalarmult b (k.scalarmult_base a)) pair
                key
                (done_of (k.scalarmult b (k.scalarmult_base a)) (with_points d.exchange a b) d.names
                  d.key d.session_id)
                wb refl fits paired))))

    pub client_lem :
        {H : Type 0} (check : H → PublicKey → Option (H × Bool)) (s : CommonSession) (h h' : H)
        (a b : Bytes) (key : KeyPair) (i : KexInit) (algo : Names)
        → check h (public key) ≡ some (h', true)
        → i.exchange.server_ephemeral ≡ []
        → length (blob (public key)) < 2 ^ 32
        → length (pair_name key) < 2 ^ 30
        → ks.parse_public_key (blob (public key)) ≡ some (public key)
        → crate.is_pair key ≡ true
        → server_key_check check s h (started i algo a) (reply_of key i.exchange a b) ≡ (
            done_compute_keys
              (done_of
                (k.scalarmult b (k.scalarmult_base a))
                (with_points i.exchange a b)
                algo
                0
                i.session_id)
              (hash_of key i.exchange a b)
              false
            >>= λ newkeys. write s.cipher (Msg.newkeys ∷ []) s.write_buffer >>= λ wb. ok (
              record s {
                kex = some (new_keys (record newkeys { sent = true }));
                write_buffer = wb;
              },
              h',
            ))
    unfolding server_key_check
    client_lem check s h h' a b key i algo accepted empty fits named known paired =
        rw (laws.read_string-ssh_string (blob (public key)) _ fits) (
          rw (known) (
            rw (accepted) (
              rw (
                check_exchange_lem laws curve digest crate a b
                  (k.scalarmult b (k.scalarmult_base a)) key (started i algo a)
                  (curve.mult-base a b) refl empty fits named paired))))

    pub done_lem :
        (secret : Bytes) (exchange : Exchange) (names : Names) (n : ℕ) (id : Option Bytes)
        (hash : Bytes) (is_server : Bool) (cipher : CipherPair)
        → names.cipher ≡ chacha20_poly1305
        → compute_keys (agreed secret) (session_id_of id hash) hash chacha20_poly1305 is_server
          ≡ ok cipher
        → done_compute_keys (done_of secret exchange names n id) hash is_server
          ≡ ok (keys_of secret exchange names n id hash cipher)
    unfolding done_compute_keys
    done_lem secret exchange names n id hash is_server cipher chosen computed =
        simp (chosen, computed)
