-- ===== src/Ends/Modes.antt =====
-- The terminal modes that a client sends, and what the server reads.
use thrussh_fork.Base.{
  ℕ, suc, ◌+◌, ◌*◌, ◌/◌, ◌%◌, ◌^◌, ◌<◌, ◌≤◌, ◌≡◌, ◌≢◌, refl, sym, ap, ◌∙◌, false, some, List, [],
  ◌∷◌, ◌++◌, Bytes, length, All, ◌==◌, if◌then◌else◌, Bool-cases, inl, inr, ==_iff, length-append,
  ok, ◌>>=◌, arith,
}
use thrussh_fork.Protocol.Pty.{Pty, tty_op_end, code, from_u8}
use thrussh_fork.Protocol.RoundTrip.{from_u8-code}
use thrussh_fork.Wire.{Encoding, IsEncoding}
use thrussh_fork.Client.Senders.{mode_bytes}
use thrussh_fork.Server.Channels.Modes.{read_modes, place, finish_modes}

-- A mode that can stand in the list, whose end is the code 0.
abbrev pub IsMode : Pty × ℕ → Type 0
IsMode m = (m.0 ≢ tty_op_end) × (m.1 < 2 ^ 32)

no_zero : (p : Pty) → ¬ (some p ≡ from_u8 0)
unfolding from_u8
no_zero p h = cc

code_positive : (p : Pty) → p ≢ tty_op_end → (code p == 0) ≡ false
code_positive p ne = elim (Bool-cases (code p == 0)) [
  | inl t ↦ absurd (no_zero p (sym (from_u8-code p ne) ∙ ap from_u8 ((==_iff (code p) 0).0 t)))
  | inr f ↦ f
]

module _ ⦃e : Encoding⦄ (laws : IsEncoding e) where
  pub length-mode_bytes : (ms : List (Pty × ℕ)) → length (mode_bytes ms) ≡ 1 + 5 * length ms
  length-mode_bytes [] = refl
  length-mode_bytes ((p, v) ∷ ms) = omega (
    arith,
    length-append (e.u32_be v) (mode_bytes ms),
    laws.length-u32_be v,
    length-mode_bytes ms,
  )

  read_modes_step :
      (i x a b c d : ℕ) (rest : Bytes)
      → read_modes i (x ∷ a ∷ b ∷ c ∷ d ∷ rest) ≡ (
          if x == 0
          then finish_modes i
          else (place i (from_u8 x) (e.be_u32 (a ∷ b ∷ c ∷ d ∷ rest)) >>= λ entry.
              read_modes (suc i) rest >>= λ entries. ok (entry ∷ entries)))
  unfolding read_modes
  read_modes_step i x a b c d rest = refl

  finish_lem : (i : ℕ) → i ≤ 130 → finish_modes i ≡ ok []
  finish_lem i h = ground arith

  place_lem : (i : ℕ) (p : Pty) (v : ℕ) → i < 130 → place i (some p) v ≡ ok (p, v)
  place_lem i p v h = ground arith

  end_lem : (i : ℕ) → read_modes i (0 ∷ []) ≡ finish_modes i
  unfolding read_modes
  end_lem i = refl

  -- A list of terminal modes other than the end mark, with values of 32 bits, that fits in the 130
  -- places from the entry `i` on: what the client writes for it is read back by the server as the
  -- same list.
  pub read_modes-mode_bytes :
      (ms : List (Pty × ℕ)) (i : ℕ)
      → All IsMode ms
      → i + length ms ≤ 130
      → read_modes i (mode_bytes ms) ≡ ok ms
  read_modes-mode_bytes [] i good h = end_lem i ∙ finish_lem i (omega arith)
  read_modes-mode_bytes ((p, v) ∷ ms) i ((ne, small), good) h =
      ap (λ (s : Bytes). read_modes i (code p ∷ (s ++ mode_bytes ms))) (laws.u32_be_lem v)
      ∙ read_modes_step i (code p) (v / 2 ^ 24 % 256) (v / 2 ^ 16 % 256) (v / 2 ^ 8 % 256) (v % 256)
          (mode_bytes ms)
      ∙ rw (code_positive p ne, from_u8-code p ne, number, place_lem i p v (omega arith))
          (rw (read_modes-mode_bytes ms (suc i) good (omega arith)) refl)
    where
      number :
          e.be_u32 (
            (v / 2 ^ 24 % 256) ∷ (v / 2 ^ 16 % 256) ∷ (v / 2 ^ 8 % 256) ∷ (v % 256) ∷ mode_bytes ms)
          ≡ v
      number =
          ap (λ (s : Bytes). e.be_u32 (s ++ mode_bytes ms)) (sym (laws.u32_be_lem v))
          ∙ laws.be_u32-u32_be v (mode_bytes ms) small
