-- ===== src/Client/Trust.antt =====
-- Whom a client exchanges keys with, `server_key_check` of src/client/mod.rs.
use thrussh_fork.Base.{
  ◌≡◌, refl, ap, ◌∙◌, Bool, true, false, Option, some, [], ◌∷◌, ◌++◌, Bytes, drop, ok, unknown_key,
  wrong_server_sig,
}
use thrussh_fork.Base.Every.{
  Every, Every-try, Every-given, Every-guard, Every-returned, Every-bind, Every-map, Every-then,
}
use thrussh_fork.Protocol.Msg
use thrussh_fork.Wire.{Encoding}
use thrussh_fork.Cipher.Keys.{Sodium}
use thrussh_fork.Cipher.Packet.{write}
use thrussh_fork.Session.State.{Algorithm, Exchange, new_keys, KexDhDone, NewKeys, CommonSession}
use thrussh_fork.Key.{PublicKey, KeyCrate, push_to}
use thrussh_fork.Dh.Algorithm.{Curve, compute_shared_secret, compute_exchange_hash}
use thrussh_fork.Dh.Done.{done_compute_keys}
use thrussh_fork.Client.Exchange.{read_signature, check_exchange, server_key_check}

module _ ⦃e : Encoding⦄ ⦃k : Curve⦄ ⦃c : Sodium⦄ ⦃ks : KeyCrate⦄ where
  -- Keys of an exchange whose hash the key `pubkey` has signed: the hash is the client's own, of its
  -- side of the exchange and of the point that the server has sent.
  pub record IsSigned (pubkey : PublicKey) (d : KexDhDone) (newkeys : NewKeys) : Type 0 where
    pub point : Bytes
    pub shared : Algorithm
    pub hash : Bytes
    pub sig : Bytes
    pub shared_lem : compute_shared_secret d.kex (d.exchange.server_ephemeral ++ point) ≡ ok shared
    pub hash_lem :
        compute_exchange_hash shared
          (push_to pubkey)
          (record d.exchange { server_ephemeral = d.exchange.server_ephemeral ++ point })
        ≡ ok hash
    pub signed : ks.verify_server_auth pubkey hash sig ≡ true
    pub derived :
        done_compute_keys
          (record d {
            exchange = record d.exchange {
              server_ephemeral = d.exchange.server_ephemeral ++ point;
            };
            kex = shared;
          })
          hash
          false
        ≡ ok newkeys

  -- The reply behind its key: the point, and a name with a signature.
  abbrev pub HasSignature : Bytes → Bytes → Bytes → Type 0
  HasSignature r point sig =
      (after_point signature after_signature name after_name left : Bytes) × (e.read_string r
        ≡ some (point, after_point))
      × (e.read_string after_point ≡ some (signature, after_signature))
      × (e.read_string signature ≡ some (name, after_name))
      × (e.read_string after_name ≡ some (sig, left))

  -- The point and the signature are those that the rest `r` of a reply has.
  abbrev Confirms : PublicKey → KexDhDone → Bytes → NewKeys → Type 0
  Confirms pubkey d r newkeys =
      (signed : IsSigned pubkey d newkeys) × HasSignature r signed.point signed.sig

  check_exchange-Confirms :
      (pubkey : PublicKey) (d : KexDhDone) (r : Bytes)
      → Every (Confirms pubkey d r) (check_exchange pubkey d r)
  unfolding check_exchange read_signature
  check_exchange-Confirms pubkey d r = Every-try P (e.read_string r) _ (λ p at_point.
      Every-try P (e.read_string p.1) _ (λ q at_signature.
        Every-given P (compute_shared_secret d.kex (d.exchange.server_ephemeral ++ p.0)) _
          (λ shared h1.
            Every-given P (compute_exchange_hash shared (push_to pubkey) (exchange p.0)) _
              (λ hash h2. Every-bind P (read_signature q.0) _ (
                Every-try _ (e.read_string q.0) _ (λ n at_name.
                  Every-try _ (e.read_string n.1) _ (λ g at_sig.
                    Every-guard P (ks.verify_server_auth pubkey hash g.0) wrong_server_sig _ (λ h3.
                      Every-returned P
                        (done_compute_keys (record d { exchange = exchange p.0; kex = shared }) hash
                          false)
                        (λ newkeys h4. (
                          record {
                            point = p.0;
                            shared = shared;
                            hash = hash;
                            sig = g.0;
                            shared_lem = h1;
                            hash_lem = h2;
                            signed = h3;
                            derived = h4;
                          },
                          (p.1, q.0, q.1, n.0, n.1, g.1, at_point, at_signature, at_name, at_sig),
                        ))))))))))
    where
      P : NewKeys → Type 0
      P = Confirms pubkey d r

      exchange : Bytes → Exchange
      exchange point = record d.exchange { server_ephemeral = d.exchange.server_ephemeral ++ point }

  -- What a client holds after the reply `buf` of the server: keys for the key of the reply, which
  -- the handler accepted, and which signed the exchange with the signature and the point of the
  -- reply.
  abbrev pub Checked :
      {H : Type 0}
      → (H → PublicKey → Option (H × Bool))
      → H
      → KexDhDone
      → Bytes
      → CommonSession × H
      → Type 0
  Checked check h d buf r =
      (key rest : Bytes) × (pubkey : PublicKey) × (newkeys : NewKeys) × (signed : IsSigned pubkey d
        newkeys)
      × (e.read_string (drop 1 buf) ≡ some (key, rest))
      × (ks.parse_public_key key ≡ some pubkey)
      × HasSignature rest signed.point signed.sig
      × (check h pubkey ≡ some (r.1, true))
      × (r.0.kex ≡ some (new_keys (record newkeys { sent = true })))

  -- Whatever the reply of the server, the client has new keys after it only if its handler accepted
  -- the public key of the reply and the signature of the reply verified by this key over the
  -- exchange hash that the client computes itself, of its own side of the exchange and the point of
  -- the reply; the new keys are derived from that hash.
  pub server_key_check-Checked :
      {H : Type 0} (check : H → PublicKey → Option (H × Bool)) (s : CommonSession) (h : H)
      (d : KexDhDone) (buf : Bytes)
      → Every (Checked check h d buf) (server_key_check check s h d buf)
  unfolding server_key_check
  server_key_check-Checked {H} check s h d buf =
      Every-try P (e.read_string (drop 1 buf)) _ (λ b at_key.
        Every-try P (ks.parse_public_key b.0) _ (λ pubkey parsed.
          Every-try P (check h pubkey) _ (λ a h1. Every-guard P a.1 unknown_key _ (λ h2.
            Every-bind P (check_exchange pubkey d b.1) _ (
              Every-map (Confirms pubkey d b.1) _ (check_exchange pubkey d b.1)
                (λ newkeys (signed, reads).
                  Every-then P (write s.cipher (Msg.newkeys ∷ []) s.write_buffer) _ (λ wb. (
                    b.0,
                    b.1,
                    pubkey,
                    newkeys,
                    signed,
                    at_key,
                    parsed,
                    reads,
                    h1 ∙ ap (λ (x : Bool). some (a.0, x)) h2,
                    refl,
                  )))
                (check_exchange-Confirms pubkey d b.1))))))
    where
      P : CommonSession × H → Type 0
      P = Checked check h d buf
