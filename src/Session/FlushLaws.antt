-- ===== src/Session/FlushLaws.antt =====
-- What `flush` of src/session.rs does with the pending packets.
use thrussh_fork.Base.{
  ℕ, zero, suc, ◌-◌, ◌%◌, ◌^◌, ◌≤◌, ◌<◌, ◌≡◌, ◌∙◌, refl, ap, false, List, [], ◌∷◌, ◌++◌, Bytes,
  length, All, Outcome, ok, err, foreign, stuck, panic, ◌>>=◌, arith, append_assoc, append-nil,
  length-append,
}
use thrussh_fork.Wire.{Encoding, IsEncoding}
use thrussh_fork.Wire.Frames.{frame, frames}
use thrussh_fork.Cipher.Keys.{Sodium, CipherPair}
use thrussh_fork.Cipher.Packet.{SshBuffer, write}
use thrussh_fork.Session.State.{Encrypted, Limits}
use thrussh_fork.Session.Flush.{Flushed, is_due, flush_loop, finish_flush, flush}
use thrussh_fork.Session.FlushRound.{round_lem}

module _ ⦃e : Encoding⦄ ⦃c : Sodium⦄ where
  -- The count of bytes, by which a new key exchange would be due, is never raised.
  pub bytes-write :
      (pair : CipherPair) (payload : Bytes) (b b' : SshBuffer)
      → write pair payload b ≡ ok b'
      → b'.bytes ≡ b.bytes
  unfolding write
  bytes-write pair payload b b' h = ground arith

  -- `write`, of each packet in turn.
  abbrev pub write_all : CipherPair → List Bytes → SshBuffer → Outcome SshBuffer
  write_all pair [] wb = ok wb
  write_all pair (p ∷ ps) wb = write pair p wb >>= λ wb'. write_all pair ps wb'

  module _ (laws : IsEncoding e) (clock : ℕ → ℕ) (limits : Limits) (pair : CipherPair) where
    -- The end of the loop after all packets.
    abbrev pub all_flushed : Bytes → ℕ → SshBuffer → Flushed
    all_flushed pending last wb = record {
      rekey = false;
      cursor = length pending;
      last_rekey = last;
      write_buffer = wb;
    }

    end_lem :
        (fuel i last : ℕ) (pending : Bytes) (wb : SshBuffer)
        → flush_loop fuel i clock limits pair pending last (length pending) wb
          ≡ ok (all_flushed pending last wb)
    unfolding flush_loop
    end_lem zero i last pending wb = ground arith
    end_lem (suc fuel) i last pending wb = ground arith

    not_due :
        (wb : SshBuffer) (now last : ℕ)
        → wb.bytes < limits.rekey_write_limit
        → now - last < limits.rekey_time_limit
        → is_due limits wb now last ≡ false
    unfolding is_due
    not_due wb now last h h' = ground arith

    -- As long as no new keys are due, the loop writes the packets that are left, in order.
    loop_frames :
        (ps : List Bytes) (fuel i last : ℕ) (done : Bytes) (wb : SshBuffer)
        → length ps ≤ fuel
        → wb.bytes < limits.rekey_write_limit
        → ((k : ℕ) → clock k - last < limits.rekey_time_limit)
        → All (λ p. length p < 2 ^ 32) ps
        → flush_loop fuel i clock limits pair (done ++ frames ps) last (length done) wb
          ≡ (write_all pair ps wb >>= λ wb'. ok (all_flushed (done ++ frames ps) last wb'))
    loop_frames [] fuel i last done wb hf hb ht hp = rw append-nil (end_lem fuel i last done wb)
    loop_frames (p ∷ ps) zero i last done wb hf hb ht hp = absurd (omega arith)
    loop_frames (p ∷ ps) (suc fuel) i last done wb hf hb ht hp =
        round_lem laws clock limits pair fuel i last done p (frames ps) wb
          (not_due wb (clock i) last hb (ht i)) hp.0
        ∙ continue (write pair p wb) refl (λ wb' same.
          loop_frames ps fuel (suc i) last (done ++ frame p) wb' (omega arith) (omega (arith, same))
            ht hp.1)
      where
        pending : Bytes
        pending = done ++ (frame p ++ frames ps)

        regroup : (done ++ frame p) ++ frames ps ≡ pending
        regroup = append_assoc done (frame p) (frames ps)

        continue :
            (r : Outcome SshBuffer)
            → write pair p wb ≡ r
            → ((wb' : SshBuffer)
                → wb'.bytes ≡ wb.bytes
                → flush_loop fuel
                    (suc i)
                    clock
                    limits
                    pair
                    ((done ++ frame p) ++ frames ps)
                    last
                    (length (done ++ frame p))
                    wb'
                  ≡ (write_all pair ps wb' >>= λ w.
                      ok (all_flushed ((done ++ frame p) ++ frames ps) last w)))
            → (r >>= λ wb'.
                flush_loop fuel
                  (suc i)
                  clock
                  limits
                  pair
                  pending
                  last
                  (length (done ++ frame p))
                  wb')
              ≡ ((r >>= λ wb'. write_all pair ps wb') >>= λ w. ok (all_flushed pending last w))
        continue (ok wb') h ih = rw regroup at (ih wb' (bytes-write pair p wb wb' h))
        continue (err x) h ih = refl
        continue foreign h ih = refl
        continue panic h ih = refl
        continue stuck h ih = refl

    length-frames : (ps : List Bytes) → length ps ≤ length (frames ps)
    length-frames [] = omega arith
    length-frames (p ∷ ps) = omega (
      arith,
      length-frames ps,
      length-append (frame p) (frames ps),
      length-append (e.u32_be (length p % 2 ^ 32)) p,
      laws.length-u32_be (length p % 2 ^ 32),
    )

    -- Where the pending bytes are the frames of some packets, each below 2 ^ 32 bytes, the cursor
    -- is at their start and no limit is reached at any reading of the clock, `flush` does what
    -- writing the packets one by one does, panics included; if that succeeds it asks for no new
    -- keys and leaves no pending bytes and the cursor at 0.
    pub flush-frames :
        (enc : Encrypted) (ps : List Bytes) (wb : SshBuffer)
        → enc.write ≡ frames ps
        → enc.write_cursor ≡ 0
        → wb.bytes < limits.rekey_write_limit
        → ((k : ℕ) → clock k - enc.last_rekey < limits.rekey_time_limit)
        → All (λ p. length p < 2 ^ 32) ps
        → flush clock limits pair enc wb ≡ (
            write_all pair ps wb >>= λ wb'.
            ok (false, record enc { write = []; write_cursor = 0 }, wb'))
    unfolding flush
    flush-frames enc ps wb hw hc hb ht hp =
        ap (λ r. r >>= λ f. ok (finish_flush enc f)) looped ∙ finish (write_all pair ps wb)
      where
        looped :
            flush_loop
              (length enc.write)
              0
              clock
              limits
              pair
              enc.write
              enc.last_rekey
              enc.write_cursor
              wb
            ≡ (write_all pair ps wb >>= λ wb'. ok (all_flushed enc.write enc.last_rekey wb'))
        looped =
            rw (hw, hc)
              (loop_frames ps (length (frames ps)) 0 enc.last_rekey [] wb (length-frames ps) hb ht
                hp)

        finish :
            (r : Outcome SshBuffer)
            → ((r >>= λ wb'. ok (all_flushed enc.write enc.last_rekey wb')) >>= λ f.
                ok (finish_flush enc f))
              ≡ (r >>= λ wb'. ok (false, record enc { write = []; write_cursor = 0 }, wb'))
        finish (ok wb') = unfold finish_flush in ground arith
        finish (err x) = refl
        finish foreign = refl
        finish panic = refl
        finish stuck = refl
