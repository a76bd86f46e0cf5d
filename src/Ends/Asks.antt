-- ===== src/Ends/Asks.antt =====
-- The channel requests that a client pushes, src/client/session.rs, and the call of the server's
-- handler that each stands for.
use thrussh_fork.Base.{
  ℕ, ◌+◌, ◌*◌, ◌%◌, ◌^◌, ◌<◌, ◌≤◌, ◌≡◌, refl, Bool, false, List, [], ◌∷◌, ◌++◌, Bytes, codes,
  length, All,
}
use thrussh_fork.Protocol.Pty.{Pty}
use thrussh_fork.Wire.{Encoding}
use thrussh_fork.Wire.Reads.{Fits, IsText}
use thrussh_fork.Session.State.{CommonSession}
use thrussh_fork.Server.Senders.{flag}
use thrussh_fork.Server.Channels.Events.{
  Event, pty_request, x11_request, env_request, shell_request, exec_request, subsystem_request,
  window_change_request,
}
use thrussh_fork.Client.Senders.{
  channel_packet, mode_bytes, measures, on_channel, request_pty, request_x11, set_env,
  request_shell, exec, request_subsystem, window_change,
}
use thrussh_fork.Ends.Modes.{IsMode}

-- A request of a client, as the arguments of the function that pushes it.
pub data Request : Type 0 where
  pty : Bool → Bytes → ℕ → ℕ → ℕ → ℕ → List (Pty × ℕ) → Request
  x11 : Bool → Bool → Bytes → Bytes → ℕ → Request
  env : Bool → Bytes → Bytes → Request
  shell : Bool → Request
  command : Bool → Bytes → Request
  subsystem : Bool → Bytes → Request
  resize : ℕ → ℕ → ℕ → ℕ → Request

module _ ⦃e : Encoding⦄ where
  -- The request on the channel `id` of the client.
  abbrev pub ask : Request → CommonSession → ℕ → CommonSession
  ask (pty want term cw rh pw ph modes) s id = request_pty s id want term cw rh pw ph modes
  ask (x11 want single protocol cookie screen) s id =
      request_x11 s id want single protocol cookie screen
  ask (env want variable value) s id = set_env s id want variable value
  ask (shell want) s id = request_shell s want id
  ask (command want text) s id = exec s id want text
  ask (subsystem want text) s id = request_subsystem s want id text
  ask (resize cw rh pw ph) s id = window_change s id cw rh pw ph

  abbrev pub kind : Request → Bytes
  kind (pty want term cw rh pw ph modes) = codes "pty-req"
  kind (x11 want single protocol cookie screen) = codes "x11-req"
  kind (env want variable value) = codes "env"
  kind (shell want) = codes "shell"
  kind (command want text) = codes "exec"
  kind (subsystem want text) = codes "subsystem"
  kind (resize cw rh pw ph) = codes "window-change"

  abbrev pub wants : Request → Bool
  wants (pty want term cw rh pw ph modes) = want
  wants (x11 want single protocol cookie screen) = want
  wants (env want variable value) = want
  wants (shell want) = want
  wants (command want text) = want
  wants (subsystem want text) = want
  wants (resize cw rh pw ph) = false

  abbrev pub payload : Request → Bytes
  payload (pty want term cw rh pw ph modes) =
      e.ssh_string term
      ++ measures cw rh pw ph (e.u32_be ((1 + 5 * length modes) % 2 ^ 32) ++ mode_bytes modes)
  payload (x11 want single protocol cookie screen) =
      flag single ∷ (e.ssh_string protocol ++ (e.ssh_string cookie ++ e.u32_be screen))
  payload (env want variable value) = e.ssh_string variable ++ e.ssh_string value
  payload (shell want) = []
  payload (command want text) = e.ssh_string text
  payload (subsystem want text) = e.ssh_string text
  payload (resize cw rh pw ph) = measures cw rh pw ph []

  -- The packet of the request on the channel that the other side knows as `n`.
  abbrev pub packet : ℕ → Request → Bytes
  packet n r = channel_packet n (kind r) (wants r) (payload r)

  -- The call of the handler for the channel `n`.
  abbrev pub event : ℕ → Request → Event
  event n (pty want term cw rh pw ph modes) = pty_request n term cw rh pw ph modes
  event n (x11 want single protocol cookie screen) = x11_request n single protocol cookie screen
  event n (env want variable value) = env_request n variable value
  event n (shell want) = shell_request n
  event n (command want text) = exec_request n text
  event n (subsystem want text) = subsystem_request n text
  event n (resize cw rh pw ph) = window_change_request n cw rh pw ph

  -- Numbers of 32 bits, texts that fit, and at most 130 modes.
  abbrev pub Measures : ℕ → ℕ → ℕ → ℕ → Type 0
  Measures cw rh pw ph = (cw < 2 ^ 32) × (rh < 2 ^ 32) × (pw < 2 ^ 32) × (ph < 2 ^ 32)

  abbrev pub IsRequest : Request → Type 0
  IsRequest (pty want term cw rh pw ph modes) =
      IsText term × Measures cw rh pw ph × All IsMode modes × (length modes ≤ 130)
  IsRequest (x11 want single protocol cookie screen) =
      IsText protocol × IsText cookie × (screen < 2 ^ 32)
  IsRequest (env want variable value) = IsText variable × IsText value
  IsRequest (shell want) = Unit
  IsRequest (command want text) = Fits text
  IsRequest (subsystem want text) = IsText text
  IsRequest (resize cw rh pw ph) = Measures cw rh pw ph

  pub ask_lem :
      (r : Request) (s : CommonSession) (id : ℕ)
      → ask r s id ≡ on_channel s id (λ n. channel_packet n (kind r) (wants r) (payload r))
  unfolding request_pty request_x11 set_env request_shell exec request_subsystem window_change
  ask_lem (pty want term cw rh pw ph modes) s id = refl
  ask_lem (x11 want single protocol cookie screen) s id = refl
  ask_lem (env want variable value) s id = refl
  ask_lem (shell want) s id = refl
  ask_lem (command want text) s id = refl
  ask_lem (subsystem want text) s id = refl
  ask_lem (resize cw rh pw ph) s id = refl
