-- ===== src/Session/FlushRound.antt =====
-- One round of the loop of `flush` in src/session.rs.
use thrussh_fork.Base.{
  ℕ, suc, ◌+◌, ◌-◌, ◌%◌, ◌^◌, ◌<◌, ◌≡◌, ◌∙◌, refl, sym, ap, false, some, [], ◌++◌, Bytes, length,
  leb, ◌>>=◌, arith, append_assoc, append-nil, length-append, take-append, drop-append,
}
use thrussh_fork.Wire.{Encoding, IsEncoding}
use thrussh_fork.Wire.Frames.{frame}
use thrussh_fork.Cipher.Keys.{Sodium, CipherPair}
use thrussh_fork.Cipher.Packet.{SshBuffer, write}
use thrussh_fork.Session.State.{Limits}
use thrussh_fork.Session.Flush.{slice, is_due, flush_loop}

slice_middle :
    (a b rest : Bytes) (from to : ℕ)
    → from ≡ length a
    → to ≡ length a + length b
    → slice from to (a ++ (b ++ rest)) ≡ some b
unfolding slice
slice_middle a b rest from to hf ht = ground (
  arith,
  length-append a (b ++ rest),
  length-append b rest,
  drop-append from a (b ++ rest) (sym hf),
  take-append (to - from) b rest (omega arith),
)

module _ ⦃e : Encoding⦄ ⦃c : Sodium⦄ where
  module _ (laws : IsEncoding e) (clock : ℕ → ℕ) (limits : Limits) (pair : CipherPair) where
    -- One round of the loop, at the packet `p`.
    pub round_lem :
        (fuel i last : ℕ) (done p rest : Bytes) (wb : SshBuffer)
        → is_due limits wb (clock i) last ≡ false
        → length p < 2 ^ 32
        → flush_loop
            (suc fuel)
            i
            clock
            limits
            pair
            (done ++ (frame p ++ rest))
            last
            (length done)
            wb
          ≡ (write pair p wb >>= λ wb'.
              flush_loop fuel
                (suc i)
                clock
                limits
                pair
                (done ++ (frame p ++ rest))
                last
                (length (done ++ frame p))
                wb')
    unfolding flush_loop
    round_lem fuel i last done p rest wb hd hp = rw (more, hd, first, be, second, sym even)
      where
        num : Bytes
        num = e.u32_be (length p % 2 ^ 32)

        l4 : length num ≡ 4
        l4 = laws.length-u32_be _

        pending : Bytes
        pending = done ++ (frame p ++ rest)

        more : leb (length pending) (length done) ≡ false
        more = ground (
          arith,
          length-append done (frame p ++ rest),
          length-append (frame p) rest,
          length-append num p,
          l4,
        )

        first : slice (length done) (length done + 4) pending ≡ some num
        first =
            ap (λ (t : Bytes). slice (length done) (length done + 4) (done ++ t))
              (append_assoc num p rest)
            ∙ slice_middle done num (p ++ rest) (length done) (length done + 4) refl
                (omega (arith, l4))

        be : e.be_u32 num ≡ length p
        be =
            let back : e.be_u32 num ≡ length p % 2 ^ 32 =
              rw append-nil at (laws.be_u32-u32_be (length p % 2 ^ 32) [] (omega arith)) in
            back ∙ omega arith

        regroup : pending ≡ (done ++ num) ++ (p ++ rest)
        regroup = simp append_assoc

        second : slice (length done + 4) (length done + 4 + length p) pending ≡ some p
        second =
            ap (slice (length done + 4) (length done + 4 + length p)) regroup
            ∙ slice_middle (done ++ num) p rest (length done + 4) (length done + 4 + length p)
                (omega (arith, length-append done num, l4))
                (omega (arith, length-append done num, l4))

        even : length (done ++ frame p) ≡ length done + 4 + length p
        even = omega (arith, length-append done (frame p), length-append num p, l4)
