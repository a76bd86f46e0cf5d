-- ===== src/Server/Beginning.antt =====
-- That a connection of src/server/mod.rs begins without keys.
use thrussh_fork.Base.{ℕ, ◌≡◌, refl, ◌∙◌, false, Option, none, List, [], Bytes, Outcome}
use thrussh_fork.Base.Every.{Every, Every-bind, Every-map, Every-then, Every-try}
use thrussh_fork.Wire.{Encoding}
use thrussh_fork.Cipher.Keys.{Sodium, clear_pair}
use thrussh_fork.Cipher.Packet.{new}
use thrussh_fork.Ident.{read_ssh_id, line}
use thrussh_fork.Session.State.{CommonSession, KexInit, new_exchange}
use thrussh_fork.Server.Kex.{KexConfig, server_write}
use thrussh_fork.Server.Loop.{Running}
use thrussh_fork.Server.Connection.{server_read_ssh_id, begin}
use thrussh_fork.Server.Stage.{state_of, Kept}

keyless_start :
    ⦃e : Encoding⦄ ⦃c : Sodium⦄ (cookie : Option Bytes) (config : KexConfig)
    (server_id sshid : Bytes)
    → Every
        (λ (s : CommonSession). state_of s.encrypted ≡ none)
        (server_read_ssh_id cookie config server_id sshid)
unfolding server_read_ssh_id
keyless_start cookie config server_id sshid =
    Every-then (λ (s : CommonSession). state_of s.encrypted ≡ none)
      (server_write cookie config clear_pair first new) _ (λ r. refl)
  where
    first : KexInit
    first = record {
      exchange = record new_exchange { client_id = sshid; server_id = server_id };
      algo = none;
      sent = false;
      session_id = none;
    }

-- For a flush that keeps how far the client is.
pub begin_keyless :
    ⦃e : Encoding⦄ ⦃c : Sodium⦄ {H : Type 0}
    (flush : (ℕ → ℕ) → Option Bytes → CommonSession → Outcome CommonSession)
    → ((clock : ℕ → ℕ) (cookie : Option Bytes) (s : CommonSession)
        → Every (Kept s) (flush clock cookie s))
    → (clock : ℕ → ℕ) (cookie : Option Bytes) (config : KexConfig) (server_id : Bytes)
      (reads : Option (List Bytes)) (h : H)
    → Every
        (λ (r : Running H). state_of r.session.encrypted ≡ none)
        (begin flush clock cookie config server_id reads h)
unfolding begin
begin_keyless {H} flush keeps clock cookie config server_id reads h =
    Every-try P reads _ (λ chunks _. Every-then P (read_ssh_id chunks []) _ (λ sshid.
      Every-bind P (server_read_ssh_id cookie config server_id (line sshid)) _ (
        Every-map _ _ (server_read_ssh_id cookie config server_id (line sshid))
          (λ s keyless. Every-bind P (flush clock cookie s) _ (
            Every-map (Kept s) _ (flush clock cookie s) (λ s' kept. kept.0 ∙ keyless)
              (keeps clock cookie s)))
          (keyless_start cookie config server_id (line sshid)))))
  where
    P : Running H → Type 0
    P r = state_of r.session.encrypted ≡ none
