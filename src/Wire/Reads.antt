-- ===== src/Wire/Reads.antt =====
-- What the reader makes of what was written, as the proofs on packets use it.
use thrussh_fork.Base.{ℕ, ◌^◌, ◌<◌, ◌≡◌, true, some, [], Bytes, length, append-nil}
use thrussh_fork.Wire.{Encoding, IsEncoding}

module _ ⦃e : Encoding⦄ where
  -- A string that fits its length field, and a text that is UTF-8 as well.
  abbrev pub Fits : Bytes → Type 0
  Fits s = length s < 2 ^ 32

  abbrev pub IsText : Bytes → Type 0
  IsText s = Fits s × (e.is_utf8 s ≡ true)

  -- The last string or number of a packet.
  pub read_last :
      (laws : IsEncoding e) (s : Bytes) → Fits s → e.read_string (e.ssh_string s) ≡ some (s, [])
  read_last laws s h = rw (← append-nil (e.ssh_string s)) (laws.read_string-ssh_string s [] h)

  pub read_last_u32 :
      (laws : IsEncoding e) (n : ℕ) → n < 2 ^ 32 → e.read_u32 (e.u32_be n) ≡ some (n, [])
  read_last_u32 laws n h = rw (← append-nil (e.u32_be n)) (laws.read_u32-u32_be n [] h)
