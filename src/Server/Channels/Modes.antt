-- ===== src/Server/Channels/Modes.antt =====
-- The terminal modes of a pty-req, `while 5 * i < mode_string.len()` of src/server/encrypted.rs.
use thrussh_fork.Base.{
  ℕ, suc, Option, none, some, List, [], ◌∷◌, Bytes, ltb, leb, ◌==◌, if◌then◌else◌, Outcome, ok,
  panic, ◌>>=◌, ◌>>◌, assert,
}
use thrussh_fork.Protocol.Pty.{Pty, tty_op_end, from_u8}
use thrussh_fork.Wire.{Encoding}

-- `modes[i] = (code, num)`: the array has 130 places, and the place of an unknown code keeps what it
-- was filled with.
abbrev pub place : ℕ → Option Pty → ℕ → Outcome (Pty × ℕ)
place i none num = ok (tty_op_end, 0)
place i (some p) num = assert (ltb i 130) >> ok (p, num)

-- `&modes[0..i]`
abbrev pub finish_modes : ℕ → Outcome (List (Pty × ℕ))
finish_modes i = assert (leb i 130) >> ok []

module _ ⦃e : Encoding⦄ where
  -- `i` entries have been read. A code without four bytes behind it panics.
  unfoldable pub read_modes : ℕ → Bytes → Outcome (List (Pty × ℕ))
  read_modes i [] = finish_modes i
  read_modes i (code ∷ a ∷ b ∷ c ∷ d ∷ rest) =
      let later = read_modes (suc i) rest in
      if code == 0 then finish_modes i else (do
        entry ← place i (from_u8 code) (e.be_u32 (a ∷ b ∷ c ∷ d ∷ rest))
        entries ← later
        ok (entry ∷ entries))
  read_modes i (code ∷ a ∷ b ∷ c ∷ []) = if code == 0 then finish_modes i else panic
  read_modes i (code ∷ a ∷ b ∷ []) = if code == 0 then finish_modes i else panic
  read_modes i (code ∷ a ∷ []) = if code == 0 then finish_modes i else panic
  read_modes i (code ∷ []) = if code == 0 then finish_modes i else panic
