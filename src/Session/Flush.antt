-- ===== src/Session/Flush.antt =====
-- `Encrypted::flush` of src/session.rs: the pending packets are encrypted into the write buffer, or
-- a new key exchange is asked for. The clock is a parameter, read once in each round.
use thrussh_fork.Base.{
  ℕ, zero, suc, ◌+◌, ◌-◌, Bool, true, false, ◌||◌, Option, none, some, [], Bytes, length, take,
  drop, leb, if◌then◌else◌, Outcome, ok, stuck, ◌>>=◌, unwrap,
}
use thrussh_fork.Wire.{Encoding}
use thrussh_fork.Cipher.Keys.{Sodium, CipherPair}
use thrussh_fork.Cipher.Packet.{SshBuffer, write}
use thrussh_fork.Session.State.{Encrypted, Limits}

-- `&buf[from..to]`
unfoldable pub slice : ℕ → ℕ → Bytes → Option Bytes
slice from to buf =
    if leb from to
    then (if leb to (length buf) then some (take (to - from) (drop from buf)) else none)
    else none

-- How the loop ends: whether a new key exchange is due, and the variables that it changes.
pub record Flushed : Type 0 where
  pub rekey : Bool
  pub cursor : ℕ
  pub last_rekey : ℕ
  pub write_buffer : SshBuffer

-- `duration_since` of an earlier time, in seconds.
unfoldable pub is_due : Limits → SshBuffer → ℕ → ℕ → Bool
is_due limits wb now last_rekey =
    leb limits.rekey_write_limit wb.bytes || leb limits.rekey_time_limit (now - last_rekey)

module _ ⦃e : Encoding⦄ ⦃c : Sodium⦄ where
  unfoldable pub flush_loop :
      ℕ → ℕ → (ℕ → ℕ) → Limits → CipherPair → Bytes → ℕ → ℕ → SshBuffer → Outcome Flushed
  unfolding is_due slice
  flush_loop zero i clock limits pair pending last_rekey cursor wb =
      if leb (length pending) cursor
      then ok
          (record { rekey = false; cursor = cursor; last_rekey = last_rekey; write_buffer = wb })
      else stuck
  flush_loop (suc fuel) i clock limits pair pending last_rekey cursor wb =
      if leb (length pending) cursor
      then ok
          (record { rekey = false; cursor = cursor; last_rekey = last_rekey; write_buffer = wb })
      else if is_due limits wb (clock i) last_rekey
      then ok (record {
        rekey = true;
        cursor = cursor;
        last_rekey = clock i;
        write_buffer = record wb { bytes = 0 };
      })
      else do
        len_bytes ← unwrap (slice cursor (cursor + 4) pending)
        let len = e.be_u32 len_bytes
        packet ← unwrap (slice (cursor + 4) (cursor + 4 + len) pending)
        wb' ← write pair packet wb
        flush_loop fuel (suc i) clock limits pair pending last_rekey (cursor + 4 + len) wb'

  -- What is done with the end of the loop: written packets are cleared.
  unfoldable pub finish_flush : Encrypted → Flushed → Bool × Encrypted × SshBuffer
  finish_flush enc f =
      if f.rekey
      then (true, record enc { write_cursor = f.cursor; last_rekey = f.last_rekey }, f.write_buffer)
      else if leb (length enc.write) f.cursor
      then (
        false,
        record enc { write = []; write_cursor = 0; last_rekey = f.last_rekey },
        f.write_buffer,
      )
      else (
        false,
        record enc { write_cursor = f.cursor; last_rekey = f.last_rekey },
        f.write_buffer,
      )

  -- Each round passes four bytes at least, so the bytes that are pending are enough fuel.
  unfoldable pub flush :
      (ℕ → ℕ) → Limits → CipherPair → Encrypted → SshBuffer → Outcome (Bool × Encrypted × SshBuffer)
  unfolding flush_loop
  flush clock limits pair enc wb = do
    f ←
        flush_loop (length enc.write) 0 clock limits pair enc.write enc.last_rekey enc.write_cursor
          wb
    ok (finish_flush enc f)
