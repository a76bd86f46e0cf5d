-- ===== src/Protocol/RoundTrip.antt =====
-- Numbers and names, and what reads them back (src/pty.rs, src/lib.rs).
use thrussh_fork.Base.{
  all_below, all_below_sound, ℕ, ◌≤◌, ◌≡◌, ◌≢◌, refl, Bool, true, none, some, Bytes, ◌==◌, ==_iff,
  if◌then◌else◌, bytes_eq, bytes_eq_sound, ok, foreign, Outcome, arith,
}
use native.Mathlib.Decide.{dec_lt}
use thrussh_fork.Protocol.Pty.{Pty, code, from_u8, tty_op_end}
use thrussh_fork.Protocol.Names.{
  ChannelOpenFailure, failure_code, from_u32, Sig, custom, abrt, alrm, fpe, hup, ill, int, kill,
  pipe, quit, segv, term, usr1, name, from_name,
}

-- `from_u8` reads back the code of every terminal operation but the end marker.
pub from_u8-code : (p : Pty) → p ≢ tty_op_end → from_u8 (code p) ≡ some p
unfolding code from_u8
from_u8-code tty_op_end h = absurd (h refl)
from_u8-code _ h = refl

-- What `from_u8` gives for a number has that number as its code.
names_code : ℕ → Bool
names_code x = elim (from_u8 x) [ none ↦ true | some p ↦ code p == x ]

names_code_table : all_below 130 names_code ≡ true
unfolding all_below names_code from_u8 code
names_code_table = refl

from_u8_large : (x : ℕ) → 130 ≤ x → from_u8 x ≡ none
unfolding from_u8
from_u8_large x h = ground arith

code_of_small : (x : ℕ) (p : Pty) → names_code x ≡ true → from_u8 x ≡ some p → code p ≡ x
unfolding names_code
code_of_small x p t e = (==_iff (code p) x).0 (rw (e, names_code) at t)

-- What `from_u8` reads from a number has that number as its code.
pub code-from_u8 : (x : ℕ) (p : Pty) → from_u8 x ≡ some p → code p ≡ x
code-from_u8 x p e = elim (dec_lt x 130) [
  | yes h ↦ code_of_small x p (all_below_sound names_code 130 h names_code_table) e
  | no h ↦ ground (arith, from_u8_large x)
]

-- A channel failure is read back from its code.
pub from_u32-failure_code : (r : ChannelOpenFailure) → from_u32 (failure_code r) ≡ some r
unfolding from_u32 failure_code
from_u32-failure_code r = ground arith

-- One arm of the `match` of `from_name`.
name_arm :
    (n lit : Bytes) (a s : Sig) (rest : Outcome Sig)
    → name a ≡ lit
    → (rest ≡ ok s → name s ≡ n)
    → (if bytes_eq n lit then ok a else rest) ≡ ok s
    → name s ≡ n
name_arm n lit a s rest h later e = ground (arith, bytes_eq_sound n lit)

name_custom :
    (utf8 : Bytes → Bool) (n : Bytes) (s : Sig)
    → (if utf8 n then ok (custom n) else foreign) ≡ ok s
    → name s ≡ n
unfolding name
name_custom utf8 n s e = ground arith

-- A signal that `from_name` reads has the name that was read, custom signals included.
pub name-from_name :
    (utf8 : Bytes → Bool) (n : Bytes) (s : Sig) → from_name utf8 n ≡ ok s → name s ≡ n
unfolding from_name name
name-from_name utf8 n s = arm abrt (
    arm alrm (
      arm fpe (
        arm hup (
          arm ill (
            arm int (
              arm kill
                (arm pipe (arm quit (arm segv (arm term (arm usr1 (name_custom utf8 n s))))))))))))
  where
    arm :
        (a : Sig) {rest : Outcome Sig}
        → (rest ≡ ok s → name s ≡ n)
        → (if bytes_eq n (name a) then ok a else rest) ≡ ok s
        → name s ≡ n
    arm a {rest} later e = name_arm n (name a) a s rest refl later e
