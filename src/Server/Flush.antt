-- ===== src/Server/Flush.antt =====
-- `Session::flush` of src/server/session.rs.
use thrussh_fork.Base.{ℕ, Option, none, some, Bytes, if◌then◌else◌, Outcome, ok, ◌>>=◌}
use thrussh_fork.Wire.{Encoding}
use thrussh_fork.Cipher.Keys.{Sodium}
use thrussh_fork.Cipher.Packet.{SshBuffer}
use thrussh_fork.Session.State.{
  Exchange, Encrypted, CommonSession, Limits, kex_init, initiate_rekey,
}
use thrussh_fork.Session.Flush.{flush}
use thrussh_fork.Server.Kex.{KexConfig, server_write}

module _ ⦃e : Encoding⦄ ⦃c : Sodium⦄ where
  -- `if let Some(exchange) = enc.exchange.take() { .. }`, after `enc.flush` has said that new keys are
  -- due.
  unfoldable pub start_rekey :
      Option Exchange
      → Option Bytes
      → KexConfig
      → CommonSession
      → Encrypted
      → SshBuffer
      → Outcome CommonSession
  start_rekey none cookie config s enc wb =
      ok (record s { encrypted = some enc; write_buffer = wb })
  start_rekey (some exchange) cookie config s enc wb = do
    (kexinit, wb') ← server_write cookie config s.cipher (initiate_rekey exchange enc.session_id) wb
    ok (record s {
      encrypted = some (record enc { exchange = none; rekey = some (kex_init kexinit) });
      write_buffer = wb';
    })

  -- The clock and the cookie are as for `Encrypted::flush` and `server_write`.
  unfoldable pub flush_encrypted :
      Option Encrypted
      → (ℕ → ℕ)
      → Option Bytes
      → Limits
      → KexConfig
      → CommonSession
      → Outcome CommonSession
  unfolding start_rekey
  flush_encrypted none clock cookie limits config s = ok s
  flush_encrypted (some enc) clock cookie limits config s = do
    (due, enc', wb) ← flush clock limits s.cipher enc s.write_buffer
    if due
        then start_rekey enc'.exchange cookie config s enc' wb
        else ok (record s { encrypted = some enc'; write_buffer = wb })

  unfoldable pub server_flush :
      (ℕ → ℕ) → Option Bytes → Limits → KexConfig → CommonSession → Outcome CommonSession
  unfolding flush_encrypted
  server_flush clock cookie limits config s =
      flush_encrypted s.encrypted clock cookie limits config s
