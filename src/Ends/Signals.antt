-- ===== src/Ends/Signals.antt =====
-- The signal of a client, src/client/session.rs, and what the server makes of it,
-- src/server/encrypted.rs.
use thrussh_fork.Base.{
  ℕ, suc, ◌+◌, ◌*◌, ◌/◌, ◌%◌, ◌^◌, ◌<◌, ◌≡◌, refl, ◌∙◌, ◌∷◌, ◌++◌, Bytes, codes, length, foreign,
  arith,
}
use thrussh_fork.Protocol.Names.{Sig, name}
use thrussh_fork.Wire.{Encoding, IsEncoding}
use thrussh_fork.Cipher.Keys.{Sodium}
use thrussh_fork.Session.State.{CommonSession}
use thrussh_fork.Server.Channels.Events.{ChannelHandler, ChannelConfig}
use thrussh_fork.Server.Channels.Parse.{parse_signal, parse_request}
use thrussh_fork.Server.Channels.Messages.{on_request}
use thrussh_fork.Server.Channels.Dispatch.{server_read_authenticated}
use thrussh_fork.Client.Senders.{signal_packet}

module _ ⦃e : Encoding⦄ (laws : IsEncoding e) where
  digits :
      (n x : ℕ)
      → x < 256
      → n < 2 ^ 16
      → (n / 2 ^ 24 % 256 ≡ 0)
        × (n / 2 ^ 16 % 256 ≡ (n * 256 + x) / 2 ^ 24 % 256)
        × (n / 2 ^ 8 % 256 ≡ (n * 256 + x) / 2 ^ 16 % 256)
        × (n % 256 ≡ (n * 256 + x) / 2 ^ 8 % 256)
        × (x ≡ (n * 256 + x) % 256)
  digits n x small short = (omega arith, omega arith, omega arith, omega arith, omega arith)

  -- What is read as the length of the name, once a byte has been skipped.
  shifted :
      (x : ℕ) (rest : Bytes)
      → x < 256
      → suc (length rest) < 2 ^ 16
      → e.ssh_string (x ∷ rest) ≡ 0 ∷ (e.u32_be (suc (length rest) * 256 + x) ++ rest)
  shifted x rest small short =
      let (a, b, c, d, f) = digits (suc (length rest)) x small short in
      laws.ssh_string_lem (x ∷ rest)
      ∙ rw (laws.u32_be_lem (length (x ∷ rest)), laws.u32_be_lem (suc (length rest) * 256 + x))
          (cons a (cons b (cons c (cons d (cons f refl)))))
    where
      cons : {x y : ℕ} {xs ys : Bytes} → x ≡ y → xs ≡ ys → (x ∷ xs) ≡ (y ∷ ys)
      cons p q = cc

  -- For a signal whose name has between 1 and 65535 characters, all of them bytes, the packet that
  -- a client pushes for it makes the server fail with an error of the reader, and so end the
  -- session.
  pub signal_fails :
      {H : Type 0} (handler : ChannelHandler H) (config : ChannelConfig) (n : ℕ) (sig : Sig) (x : ℕ)
      (rest : Bytes) (s : CommonSession) (h : H) ⦃sodium : Sodium⦄
      → n < 2 ^ 32
      → name sig ≡ x ∷ rest
      → x < 256
      → suc (length rest) < 2 ^ 16
      → server_read_authenticated handler config s h (signal_packet n sig) ≡ foreign
  unfolding server_read_authenticated on_request parse_request parse_signal
  signal_fails handler config n sig x rest s h small named byte short =
      rw (laws.read_u32-u32_be n _ small) (
        rw (laws.read_string-ssh_string (codes "signal") _ (omega arith)) (
          rw (laws.read_byte-cons 0 _, named)
            (rw (shifted x rest byte short, laws.read_byte-cons 0 _)
              (rw
                (laws.read_string_short (suc (length rest) * 256 + x) rest (omega arith)
                  (omega arith))
                refl))))
