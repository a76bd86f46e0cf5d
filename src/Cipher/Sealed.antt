-- ===== src/Cipher/Sealed.antt =====
-- What `read` of src/cipher/mod.rs makes of the bytes of a sealed packet.
use thrussh_fork.Base.{
  ℕ, zero, suc, ◌+◌, ◌-◌, ◌%◌, ◌^◌, ◌≤◌, ◌<◌, ◌≡◌, refl, sym, ap, ◌∙◌, Bytes, [], ◌∷◌, ◌++◌, length,
  take, drop, replicate, ok, leb, panic, some, none, length-append, length-take, length-drop,
  length-replicate, take-append, take-append-drop, drop-append, take_all, append_assoc, append-nil,
  Outcome, arith, if◌then◌else◌,
}
use thrussh_fork.Base
use thrussh_fork.Wire.{Encoding, IsEncoding}
use thrussh_fork.Cipher.Keys.{
  Sodium, IsSodium, CipherPair, SealingCipher, sealing_tag_len, opening_tag_len, padding_length,
  fill_padding, decrypt_packet_length,
}
use thrussh_fork.Cipher.Packet.{SshBuffer, plain_packet, read, read_body, open_body, strip_padding}
use thrussh_fork.Cipher.Stages.{read_front, body_front, open_front}
use thrussh_fork.Cipher.Padding.{length-fill_padding}
use thrussh_fork.Cipher.Seal.{opener, opening_tag_len-opener, Opens}
use thrussh_fork.Cipher.Write.{packet_length, length-plain_packet, sealed}

-- The plaintext behind the length: the padding's length, the payload and the padding.
abbrev body : SealingCipher → Bytes → Bytes
body key payload =
    padding_length key payload
    ∷ (payload ++ fill_padding (replicate (padding_length key payload) 0))

length-body :
    (key : SealingCipher) (payload : Bytes) → length (body key payload) ≡ packet_length key payload
length-body key payload = omega (
  arith,
  length-append payload (fill_padding (replicate (padding_length key payload) 0)),
  length-fill_padding (replicate (padding_length key payload) 0),
  length-replicate (padding_length key payload) (let z : ℕ = 0 in z),
)

-- The last step of `read`, on a body that `write` laid out.
strip_body :
    (key : SealingCipher) (payload opened tag rest : Bytes) (b : SshBuffer)
    → drop 4 opened ≡ body key payload
    → strip_padding (record b { buffer = opened ++ tag }) rest opened ≡ record {
      result = ok (5 + length payload);
      buf = record b {
        buffer = take (5 + length payload) (opened ++ tag);
        len = 0;
        seqn = (b.seqn + 1) % 2 ^ 32;
      };
      stream = rest;
    }
unfolding strip_padding
strip_body key payload opened tag rest b h = rw (h, strip_padding) (rw fits (rw gap))
  where
    n : ℕ
    n = length (payload ++ fill_padding (replicate (padding_length key payload) 0))

    total : suc n ≡ packet_length key payload
    total = length-body key payload

    fits : leb (padding_length key payload) (suc n) ≡ Base.true
    fits = ground (arith, total)

    gap : suc n - padding_length key payload + 4 ≡ 5 + length payload
    gap = omega (arith, total)

regroup :
    (q pay z tag : Bytes) (p : ℕ) → (q ++ (p ∷ (pay ++ z))) ++ tag ≡ (q ++ (p ∷ pay)) ++ (z ++ tag)
regroup q pay z tag p = simp append_assoc

-- What is kept of the opened bytes: four bytes, the padding's length and the payload.
kept :
    (key : SealingCipher) (payload opened tag : Bytes)
    → drop 4 opened ≡ body key payload
    → length opened ≡ 4 + packet_length key payload
    → take (5 + length payload) (opened ++ tag)
      ≡ take 4 opened ++ (padding_length key payload ∷ payload)
kept key payload opened tag h l =
    ap (λ (t : Bytes). take (5 + length payload) (t ++ tag)) parts
    ∙ ap (take (5 + length payload))
        (regroup (take 4 opened) payload z tag (padding_length key payload))
    ∙ take-append (5 + length payload) front (z ++ tag) front_length
  where
    z : Bytes
    z = fill_padding (replicate (padding_length key payload) 0)

    front : Bytes
    front = take 4 opened ++ (padding_length key payload ∷ payload)

    parts : opened ≡ take 4 opened ++ (padding_length key payload ∷ (payload ++ z))
    parts = sym (take-append-drop 4 opened) ∙ ap (λ (t : Bytes). take 4 opened ++ t) h

    front_length : length front ≡ 5 + length payload
    front_length = omega (
      arith,
      length-append (take 4 opened) (padding_length key payload ∷ payload),
      length-take 4 opened,
      l,
    )

module _ ⦃e : Encoding⦄ ⦃c : Sodium⦄ (laws : IsEncoding e) (crypto : IsSodium c) where
  drop_plain :
      (key : SealingCipher) (payload : Bytes) → drop 4 (plain_packet key payload) ≡ body key payload
  unfolding plain_packet
  drop_plain key payload =
      drop-append 4 (e.u32_be (packet_length key payload)) _ (laws.length-u32_be _)

  take_plain :
      (key : SealingCipher) (payload : Bytes)
      → take 4 (plain_packet key payload) ≡ e.u32_be (packet_length key payload)
  unfolding plain_packet
  take_plain key payload =
      take-append 4 (e.u32_be (packet_length key payload)) _ (laws.length-u32_be _)

  be_u32_self : (n : ℕ) → n < 2 ^ 32 → e.be_u32 (e.u32_be n) ≡ n
  be_u32_self n h = rw append-nil at (laws.be_u32-u32_be n [] h)

  -- The whole of `read` on a sealed packet, in terms of the opened bytes.
  module _ (pair' : CipherPair) (key : SealingCipher) (payload rest : Bytes) (r : SshBuffer)
      (hk : pair'.remote_to_local ≡ opener key) (hl : packet_length key payload < 2 ^ 32)
      (o : Opens crypto key r.seqn
        (plain_packet key payload)
        (replicate (sealing_tag_len key) 0)) where
    abbrev pub ct : Bytes
    ct = (sealed key r.seqn payload).0

    abbrev pub tag : Bytes
    tag = (sealed key r.seqn payload).1

    regroup_stream : (ct ++ tag) ++ rest ≡ take 4 ct ++ ((drop 4 ct ++ tag) ++ rest)
    regroup_stream =
        ap (λ (t : Bytes). (t ++ tag) ++ rest) (sym (take-append-drop 4 ct)) ∙ simp append_assoc

    length_read :
        length (drop 4 ct ++ tag)
        ≡ e.be_u32 (decrypt_packet_length (opener key) r.seqn (take 4 ct))
          + opening_tag_len (opener key)
    length_read =
        rw (o.length_lem, take_plain key payload, be_u32_self _ hl, opening_tag_len-opener)
          (omega (
            arith,
            length-append (drop 4 ct) tag,
            length-drop 4 ct,
            o.length_sealed,
            o.length_tag,
            length-plain_packet laws key payload,
          ))

    pub read_sealed : read pair' r ((ct ++ tag) ++ rest) ≡ record {
      result = ok (5 + length payload);
      buf = record r {
        buffer = take 4 o.opened ++ (padding_length key payload ∷ payload);
        len = 0;
        seqn = (r.seqn + 1) % 2 ^ 32;
      };
      stream = rest;
    }
    read_sealed =
        ap (read pair' r) regroup_stream
        ∙ read_front pair' r (take 4 ct) ((drop 4 ct ++ tag) ++ rest) length_front
        ∙ ap (λ k. read_body k r (take 4 ct) ((drop 4 ct ++ tag) ++ rest)) hk
        ∙ body_front (opener key) r (take 4 ct) (drop 4 ct ++ tag) rest length_read
        ∙ ap (λ (t : Bytes). open_body (opener key) (record r { buffer = t }) rest) regroup_buffer
        ∙ open_front (opener key) r ct tag rest o.opened length_tag' o.open_lem
        ∙ strip_body key payload o.opened tag rest r body_lem
        ∙ rw (
            kept key payload o.opened tag body_lem
              (o.length_opened ∙ length-plain_packet laws key payload))
      where
        length_front : length (take 4 ct) ≡ 4
        length_front =
            omega (arith, length-take 4 ct, o.length_sealed, length-plain_packet laws key payload)

        regroup_buffer : take 4 ct ++ (drop 4 ct ++ tag) ≡ ct ++ tag
        regroup_buffer =
            sym (append_assoc (take 4 ct) (drop 4 ct) tag)
            ∙ ap (λ (t : Bytes). t ++ tag) (take-append-drop 4 ct)

        length_tag' : length tag ≡ opening_tag_len (opener key)
        length_tag' = o.length_tag ∙ sym (opening_tag_len-opener key)

        body_lem : drop 4 o.opened ≡ body key payload
        body_lem = o.drop_opened ∙ drop_plain key payload
