-- ===== src/Ends/Exchange.antt =====
-- A key exchange between both ends: src/client/kex.rs, src/client/mod.rs, src/server/kex.rs and
-- src/kex.rs together.
use thrussh_fork.Base.{
  ◌^◌, ◌<◌, ◌≡◌, refl, ap, ◌∙◌, Bool, true, false, Option, some, List, [], ◌∷◌, Bytes, length,
  get_elem?, ok, ◌++◌, length-append, arith, ◌+◌,
}
use thrussh_fork.Protocol.Msg
use thrussh_fork.Wire.{Encoding, IsEncoding}
use thrussh_fork.Cipher.Keys.{Sodium, IsSodium, CipherPair}
use thrussh_fork.Cipher.Seal.{opener}
use thrussh_fork.Cipher.Packet.{SshBuffer, write}
use thrussh_fork.Negotiation.ReadKex.{Names, chacha20_poly1305}
use thrussh_fork.Session.State.{
  Exchange, KexInit, KexDh, KexDhDone, NewKeys, new_keys, CommonSession,
}
use thrussh_fork.Key.{PublicKey, KeyPair, KeyCrate, pair_name}
use thrussh_fork.Key.Blobs.{public, blob, IsKeyCrate, length-ssh_string}
use thrussh_fork.Cipher.Write.{write_fits}
use thrussh_fork.Dh.Algorithm.{Curve, IsCurve, IsDigest}
use thrussh_fork.Dh.Done.{session_id_of}
use thrussh_fork.Dh.Mirror.{compute_keys_mirror}
use thrussh_fork.Ends.Halves.{
  agreed, with_points, signature_string, start_dh_lem, ecdh_init, started,
}
use thrussh_fork.Client.Kex.{start_dh}
use thrussh_fork.Client.Exchange.{server_key_check}
use thrussh_fork.Server.Exchange.{kex_dh_parse}
use thrussh_fork.Ends.Sides.{hash_of, keys_of, reply_of, server_lem, client_lem, done_lem}

module _ ⦃e : Encoding⦄ ⦃k : Curve⦄ ⦃c : Sodium⦄ ⦃ks : KeyCrate⦄ where
  -- The whole exchange: the client's half of it and its packet, the answer of the server and the
  -- server's new keys, and what the client makes of the answer. The keys mirror each other.
  abbrev pub Exchanged :
      {H : Type 0}
      → (H → PublicKey → Option (H × Bool))
      → CommonSession
      → H
      → H
      → Bytes
      → Bytes
      → KexInit
      → Names
      → KexDh
      → List KeyPair
      → CipherPair
      → SshBuffer
      → SshBuffer
      → Type 0
  Exchanged check s h h' a b i algo d keys pair wb wb' =
      (done : KexDhDone) × (init answer : Bytes) × (theirs ours : NewKeys) × (first second third
        last : SshBuffer)
      × (write s.cipher init wb ≡ ok first)
      × (start_dh (some a) s.cipher i algo wb ≡ ok (done, first))
      × (write pair answer wb' ≡ ok second)
      × (write pair (Msg.newkeys ∷ []) second ≡ ok third)
      × (kex_dh_parse (some b) keys pair init d wb' ≡ ok (new_keys theirs, third))
      × (write s.cipher (Msg.newkeys ∷ []) s.write_buffer ≡ ok last)
      × (server_key_check check s h done answer
          ≡ ok (
            record s { kex = some (new_keys (record ours { sent = true })); write_buffer = last },
            h',
          ))
      × (theirs.session_id ≡ ours.session_id)
      × (theirs.exchange ≡ ours.exchange)
      × (theirs.cipher.remote_to_local ≡ opener ours.cipher.local_to_remote)
      × (ours.cipher.remote_to_local ≡ opener theirs.cipher.local_to_remote)

  module _ (laws : IsEncoding e) (crypto : IsSodium c) (curve : IsCurve k) (digest : IsDigest k)
      (crate : IsKeyCrate) where
    init_fits : (a : Bytes) → length (ecdh_init a) < 4_000_000_000
    init_fits a =
        omega (arith, length-ssh_string laws crate (k.scalarmult_base a), curve.length-base a)

    reply_fits :
        (key : KeyPair) (ex : Exchange) (a b : Bytes)
        → length (blob (public key)) < 2 ^ 30
        → length (pair_name key) < 2 ^ 30
        → length (reply_of laws curve digest crate key ex a b) < 4_000_000_000
    reply_fits key ex a b fits named =
        let hash = hash_of laws curve digest crate key ex a b in
        let str = signature_string laws curve digest crate key hash in
        let inner : length str ≡ 8 + length (pair_name key) + length (crate.signature key hash) =
          omega (
            arith,
            length-append (e.ssh_string (pair_name key)) (e.ssh_string (crate.signature key hash)),
            length-ssh_string laws crate (pair_name key),
            length-ssh_string laws crate (crate.signature key hash),
          ) in
        omega (
          arith,
          inner,
          crate.signature_fits key hash,
          curve.length-base b,
          length-append (e.ssh_string (blob (public key)))
              (e.ssh_string (k.scalarmult_base b) ++ e.ssh_string str),
          length-append (e.ssh_string (k.scalarmult_base b)) (e.ssh_string str),
          length-ssh_string laws crate (blob (public key)),
          length-ssh_string laws crate (k.scalarmult_base b),
          length-ssh_string laws crate str,
        )

    -- Where both ends hold the same identifications and KEXINIT packets, the same session id if
    -- any, and chose the ChaCha20-Poly1305 cipher, where the server takes the next packet (no wrong
    -- guess), its host key is a pair whose halves belong together, with a name and a blob below 2 ^
    -- 30 bytes, and the blob is read as the public half of that key, which the handler of the
    -- client accepts: for any two secrets the client writes a packet, the server takes it and
    -- writes a reply and NEWKEYS, and the client accepts the reply and writes NEWKEYS, all without
    -- an error or a panic; both then have new keys with the same session id and exchange, and each
    -- end opens with the keys with which the other seals. For keys, cipher, curve and hash that do
    -- what they document.
    pub exchange_completes :
        {H : Type 0} (check : H → PublicKey → Option (H × Bool)) (s : CommonSession) (h h' : H)
        (a b : Bytes) (i : KexInit) (algo : Names) (d : KexDh) (keys : List KeyPair) (key : KeyPair)
        (pair : CipherPair) (wb wb' : SshBuffer)
        → check h (public key) ≡ some (h', true)
        → crate.is_pair key ≡ true
        → ks.parse_public_key (blob (public key)) ≡ some (public key)
        → length (blob (public key)) < 2 ^ 30
        → length (pair_name key) < 2 ^ 30
        → get_elem? keys d.key ≡ some key
        → d.exchange ≡ i.exchange
        → d.session_id ≡ i.session_id
        → i.exchange.client_ephemeral ≡ []
        → i.exchange.server_ephemeral ≡ []
        → d.names.ignore_guessed ≡ false
        → algo.cipher ≡ chacha20_poly1305
        → d.names.cipher ≡ chacha20_poly1305
        → Exchanged check s h h' a b i algo d keys pair wb wb'
    exchange_completes check s h h' a b i algo d keys key pair wb wb' accepted paired known fits
          named here same same_id empty empty' taken chacha chacha' =
        let secret = k.scalarmult b (k.scalarmult_base a) in
        let hash = hash_of laws curve digest crate key i.exchange a b in
        let (theirs, ours, sealed, opened, down, up) =
          compute_keys_mirror digest crypto (agreed secret) (agreed secret)
            (session_id_of i.session_id hash) hash refl in
        let (first, w1) = write_fits laws s.cipher (ecdh_init a) wb (init_fits a) in
        let (second, w2) =
          write_fits laws pair (reply_of laws curve digest crate key i.exchange a b) wb'
            (reply_fits key i.exchange a b fits named) in
        let (third, w3) = write_fits laws pair (Msg.newkeys ∷ []) second (omega arith) in
        let (last, w4) = write_fits laws s.cipher (Msg.newkeys ∷ []) s.write_buffer (omega arith) in
        (
          started i algo a,
          ecdh_init a,
          reply_of laws curve digest crate key i.exchange a b,
          keys_of laws curve digest crate secret (with_points i.exchange a b) d.names d.key
              i.session_id hash theirs,
          keys_of laws curve digest crate secret (with_points i.exchange a b) algo 0 i.session_id
              hash ours,
          first,
          second,
          third,
          last,
          w1,
          start_dh_lem a s.cipher i algo wb ∙ rw w1 refl,
          w2,
          w3,
          server_lem laws curve digest crate a b keys key pair d wb' taken
                (ap (λ (x : Exchange). x.client_ephemeral) same ∙ empty) here (omega arith) paired
              ∙ simp (
                same,
                same_id,
                done_lem laws curve digest crate secret (with_points i.exchange a b) d.names d.key
                    i.session_id hash true theirs chacha' sealed,
                w2,
                w3,
              ),
          w4,
          client_lem laws curve digest crate check s h h' a b key i algo accepted empty'
                (omega arith) named known paired
              ∙ simp (
                done_lem laws curve digest crate secret (with_points i.exchange a b) algo 0
                    i.session_id hash false ours chacha opened,
                w4,
              ),
          refl,
          refl,
          down,
          up,
        )
