-- ===== src/Ends/Texts.antt =====
-- Flags and texts of a packet, as either end reads them.
use thrussh_fork.Base.{◌≡◌, refl, Bool, true, false, not, [], ◌++◌, Bytes, ◌==◌, ok}
use thrussh_fork.Wire.{Encoding, IsEncoding}
use thrussh_fork.Wire.Reads.{IsText, read_last}
use thrussh_fork.Server.Senders.{flag}
use thrussh_fork.Server.Channels.Parse.{read_text}

pub flag_lem : (b : Bool) → not (flag b == 0) ≡ b
flag_lem true = refl
flag_lem false = refl

module _ ⦃e : Encoding⦄ (laws : IsEncoding e) where
  pub read_text_lem :
      (s rest : Bytes) → IsText s → read_text (e.ssh_string s ++ rest) ≡ ok (s, rest)
  unfolding read_text
  read_text_lem s rest (h, t) = rw (laws.read_string-ssh_string s rest h, t)

  pub read_text_last : (s : Bytes) → IsText s → read_text (e.ssh_string s) ≡ ok (s, [])
  unfolding read_text
  read_text_last s (h, t) = rw (read_last laws s h, t)
