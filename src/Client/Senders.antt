-- ===== src/Client/Senders.antt =====
-- What a client pushes on a session: the requests of src/client/session.rs. `pty`, `x11` and so on
-- are the packets, from which the functions that push them are made.
use thrussh_fork.Base.{
  ℕ, ◌+◌, ◌*◌, ◌%◌, ◌^◌, Bool, false, none, some, List, [], ◌∷◌, ◌++◌, Bytes, codes, length,
}
use thrussh_fork.Base.Assoc.{lookup}
use thrussh_fork.Protocol.Msg
use thrussh_fork.Protocol.Pty.{Pty, code}
use thrussh_fork.Protocol.Names.{Sig, name}
use thrussh_fork.Wire.{Encoding}
use thrussh_fork.Session.State.{CommonSession}
use thrussh_fork.Server.Senders.{flag, push}
use thrussh_fork.Server.Channels.Messages.{map_encrypted}

module _ ⦃e : Encoding⦄ where
  -- A channel request, of the number that the other side gave to the channel.
  abbrev pub channel_packet : ℕ → Bytes → Bool → Bytes → Bytes
  channel_packet recipient kind want_reply rest =
      Msg.channel_request ∷ (e.u32_be recipient ++ (e.ssh_string kind ++ (flag want_reply ∷ rest)))

  -- `for &(code, value) in terminal_modes`
  abbrev pub mode_bytes : List (Pty × ℕ) → Bytes
  mode_bytes [] = 0 ∷ []
  mode_bytes ((p, value) ∷ modes) = code p ∷ (e.u32_be value ++ mode_bytes modes)

  abbrev pub measures : ℕ → ℕ → ℕ → ℕ → Bytes → Bytes
  measures col_width row_height pix_width pix_height rest =
      e.u32_be col_width
      ++ (e.u32_be row_height ++ (e.u32_be pix_width ++ (e.u32_be pix_height ++ rest)))

  abbrev pub pty_packet : ℕ → Bool → Bytes → ℕ → ℕ → ℕ → ℕ → List (Pty × ℕ) → Bytes
  pty_packet recipient want_reply term col_width row_height pix_width pix_height modes =
      channel_packet recipient (codes "pty-req") want_reply (
        e.ssh_string term
        ++ measures col_width row_height pix_width pix_height
            (e.u32_be ((1 + 5 * length modes) % 2 ^ 32) ++ mode_bytes modes))

  abbrev pub x11_packet : ℕ → Bool → Bool → Bytes → Bytes → ℕ → Bytes
  x11_packet recipient want_reply single_connection protocol cookie screen =
      channel_packet recipient (codes "x11-req") want_reply (
        flag single_connection
        ∷ (e.ssh_string protocol ++ (e.ssh_string cookie ++ e.u32_be screen)))

  abbrev pub env_packet : ℕ → Bool → Bytes → Bytes → Bytes
  env_packet recipient want_reply variable value =
      channel_packet recipient (codes "env") want_reply
        (e.ssh_string variable ++ e.ssh_string value)

  abbrev pub shell_packet : ℕ → Bool → Bytes
  shell_packet recipient want_reply = channel_packet recipient (codes "shell") want_reply []

  abbrev pub exec_packet : ℕ → Bool → Bytes → Bytes
  exec_packet recipient want_reply command =
      channel_packet recipient (codes "exec") want_reply (e.ssh_string command)

  abbrev pub signal_packet : ℕ → Sig → Bytes
  signal_packet recipient sig =
      channel_packet recipient (codes "signal") false (e.ssh_string (name sig))

  abbrev pub subsystem_packet : ℕ → Bool → Bytes → Bytes
  subsystem_packet recipient want_reply subsystem =
      channel_packet recipient (codes "subsystem") want_reply (e.ssh_string subsystem)

  abbrev pub window_change_packet : ℕ → ℕ → ℕ → ℕ → ℕ → Bytes
  window_change_packet recipient col_width row_height pix_width pix_height =
      channel_packet recipient (codes "window-change") false
        (measures col_width row_height pix_width pix_height [])

  -- A packet is pushed on a session with keys that has the channel; else nothing is done.
  abbrev pub on_channel : CommonSession → ℕ → (ℕ → Bytes) → CommonSession
  on_channel s id packet = map_encrypted s (λ enc. elim (lookup id enc.channels) [
    | none ↦ enc
    | some ch ↦ push enc (packet ch.recipient_channel)
  ])

  unfoldable pub request_pty :
      CommonSession → ℕ → Bool → Bytes → ℕ → ℕ → ℕ → ℕ → List (Pty × ℕ) → CommonSession
  request_pty s id want_reply term col_width row_height pix_width pix_height modes =
      on_channel s id
        (λ n. pty_packet n want_reply term col_width row_height pix_width pix_height modes)

  unfoldable pub request_x11 : CommonSession → ℕ → Bool → Bool → Bytes → Bytes → ℕ → CommonSession
  request_x11 s id want_reply single_connection protocol cookie screen =
      on_channel s id (λ n. x11_packet n want_reply single_connection protocol cookie screen)

  unfoldable pub set_env : CommonSession → ℕ → Bool → Bytes → Bytes → CommonSession
  set_env s id want_reply variable value =
      on_channel s id (λ n. env_packet n want_reply variable value)

  unfoldable pub request_shell : CommonSession → Bool → ℕ → CommonSession
  request_shell s want_reply id = on_channel s id (λ n. shell_packet n want_reply)

  unfoldable pub exec : CommonSession → ℕ → Bool → Bytes → CommonSession
  exec s id want_reply command = on_channel s id (λ n. exec_packet n want_reply command)

  unfoldable pub send_signal : CommonSession → ℕ → Sig → CommonSession
  send_signal s id sig = on_channel s id (λ n. signal_packet n sig)

  unfoldable pub request_subsystem : CommonSession → Bool → ℕ → Bytes → CommonSession
  request_subsystem s want_reply id subsystem =
      on_channel s id (λ n. subsystem_packet n want_reply subsystem)

  unfoldable pub window_change : CommonSession → ℕ → ℕ → ℕ → ℕ → ℕ → CommonSession
  window_change s id col_width row_height pix_width pix_height =
      on_channel s id (λ n. window_change_packet n col_width row_height pix_width pix_height)
