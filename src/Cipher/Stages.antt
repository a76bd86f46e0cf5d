-- ===== src/Cipher/Stages.antt =====
-- The stages of `read`, where enough of the stream has come.
use thrussh_fork.Base.{
  ℕ, ◌+◌, ◌-◌, ◌≤◌, ◌≡◌, refl, Bytes, ◌++◌, length, take, drop, ok, leb, some, length-append,
  take-append, drop-append, arith,
}
use thrussh_fork.Base
use thrussh_fork.Wire.{Encoding}
use thrussh_fork.Cipher.Keys.{
  Sodium, CipherPair, OpeningCipher, opening_tag_len, open_packet, decrypt_packet_length,
}
use thrussh_fork.Cipher.Packet.{SshBuffer, read, read_exact, read_body, open_body, strip_padding}

read_exact_append :
    (n : ℕ) (xs ys : Bytes) → length xs ≡ n → read_exact n (xs ++ ys) ≡ some (xs, ys)
unfolding read_exact
read_exact_append n xs ys h = rw (fits, take-append n xs ys h, drop-append n xs ys h)
  where
    fits : leb n (length (xs ++ ys)) ≡ Base.true
    fits = ground (arith, length-append xs ys)

module _ ⦃e : Encoding⦄ ⦃c : Sodium⦄ where
  pub read_front :
      (pair' : CipherPair) (r : SshBuffer) (x y : Bytes)
      → length x ≡ 4
      → read pair' r (x ++ y) ≡ read_body pair'.remote_to_local r x y
  unfolding read
  read_front pair' r x y h = rw (read_exact_append 4 x y h, read)

  pub body_front :
      (key' : OpeningCipher) (r : SshBuffer) (x y rest : Bytes)
      → length y ≡ e.be_u32 (decrypt_packet_length key' r.seqn x) + opening_tag_len key'
      → read_body key' r x (y ++ rest) ≡ open_body key' (record r { buffer = x ++ y }) rest
  unfolding read_body
  body_front key' r x y rest h = rw (read_exact_append _ y rest h, read_body)

  pub open_front :
      (key' : OpeningCipher) (r : SshBuffer) (ct t rest opened : Bytes)
      → length t ≡ opening_tag_len key'
      → open_packet key' r.seqn ct t ≡ ok opened
      → open_body key' (record r { buffer = ct ++ t }) rest
        ≡ strip_padding (record r { buffer = opened ++ t }) rest opened
  unfolding open_body
  open_front key' r ct t rest opened h o =
      let n : length (ct ++ t) - opening_tag_len key' ≡ length ct =
        omega (arith, length-append ct t) in
      rw (n, open_body)
        (rw (take-append (length ct) ct t refl, drop-append (length ct) ct t refl, o))
