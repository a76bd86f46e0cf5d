-- ===== src/Server/Channels/Parse.antt =====
-- The arms of `msg::CHANNEL_REQUEST` in `server_read_authenticated`, src/server/encrypted.rs: what is
-- read of each request, up to the call of the handler.
use thrussh_fork.Base.{
  ℕ, not, Option, none, some, Bytes, codes, bytes_eq, ◌==◌, if◌then◌else◌, Outcome, ok, ◌>>=◌,
  try_foreign,
}
use thrussh_fork.Protocol.Names.{from_name}
use thrussh_fork.Wire.{Encoding}
use thrussh_fork.Server.Requests.{utf8}
use thrussh_fork.Server.Channels.Events.{
  Event, pty_request, x11_request, env_request, shell_request, exec_request, subsystem_request,
  window_change_request, signal,
}
use thrussh_fork.Server.Channels.Modes.{read_modes}

module _ ⦃e : Encoding⦄ where
  -- `std::str::from_utf8(r.read_string()?)?`
  unfoldable pub read_text : Bytes → Outcome (Bytes × Bytes)
  read_text r = do
    (s, r') ← try_foreign (e.read_string r)
    text ← try_foreign (utf8 s)
    ok (text, r')

  -- Four numbers, the measures of a window.
  unfoldable pub read_measures : Bytes → Outcome ((ℕ × ℕ × ℕ × ℕ) × Bytes)
  read_measures r = do
    (col_width, r1) ← try_foreign (e.read_u32 r)
    (row_height, r2) ← try_foreign (e.read_u32 r1)
    (pix_width, r3) ← try_foreign (e.read_u32 r2)
    (pix_height, r4) ← try_foreign (e.read_u32 r3)
    ok ((col_width, row_height, pix_width, pix_height), r4)

  unfoldable pub parse_pty : ℕ → Bytes → Outcome Event
  unfolding read_text read_measures
  parse_pty id r = do
    (term, r1) ← read_text r
    ((col_width, row_height, pix_width, pix_height), r2) ← read_measures r1
    (mode_string, r3) ← try_foreign (e.read_string r2)
    modes ← read_modes 0 mode_string
    ok (pty_request id term col_width row_height pix_width pix_height modes)

  unfoldable pub parse_x11 : ℕ → Bytes → Outcome Event
  unfolding read_text
  parse_x11 id r = do
    (single_connection, r1) ← try_foreign (e.read_byte r)
    (x11_auth_protocol, r2) ← read_text r1
    (x11_auth_cookie, r3) ← read_text r2
    (x11_screen_number, r4) ← try_foreign (e.read_u32 r3)
    ok (
        x11_request id (not (single_connection == 0)) x11_auth_protocol x11_auth_cookie
          x11_screen_number)

  unfoldable pub parse_env : ℕ → Bytes → Outcome Event
  unfolding read_text
  parse_env id r = do
    (env_variable, r1) ← read_text r
    (env_value, r2) ← read_text r1
    ok (env_request id env_variable env_value)

  unfoldable pub parse_exec : ℕ → Bytes → Outcome Event
  parse_exec id r = do (req, r1) ← try_foreign (e.read_string r); ok (exec_request id req)

  unfoldable pub parse_subsystem : ℕ → Bytes → Outcome Event
  unfolding read_text
  parse_subsystem id r = do (name, r1) ← read_text r; ok (subsystem_request id name)

  unfoldable pub parse_window_change : ℕ → Bytes → Outcome Event
  unfolding read_measures
  parse_window_change id r = do
    ((col_width, row_height, pix_width, pix_height), r1) ← read_measures r
    ok (window_change_request id col_width row_height pix_width pix_height)

  -- The byte that is read here comes after the one that was read for `wants_reply`.
  unfoldable pub parse_signal : ℕ → Bytes → Outcome Event
  parse_signal id r = do
    (zero_byte, r1) ← try_foreign (e.read_byte r)
    (name, r2) ← try_foreign (e.read_string r1)
    signal_name ← from_name e.is_utf8 name
    ok (signal id signal_name)

  -- The request of each type; none for a type that is not known.
  unfoldable pub parse_request : Bytes → ℕ → Bytes → Outcome (Option Event)
  parse_request req_type id r =
      if bytes_eq req_type (codes "pty-req")
      then (parse_pty id r >>= λ ev. ok (some ev))
      else if bytes_eq req_type (codes "x11-req")
      then (parse_x11 id r >>= λ ev. ok (some ev))
      else if bytes_eq req_type (codes "env")
      then (parse_env id r >>= λ ev. ok (some ev))
      else if bytes_eq req_type (codes "shell")
      then ok (some (shell_request id))
      else if bytes_eq req_type (codes "exec")
      then (parse_exec id r >>= λ ev. ok (some ev))
      else if bytes_eq req_type (codes "subsystem")
      then (parse_subsystem id r >>= λ ev. ok (some ev))
      else if bytes_eq req_type (codes "window-change")
      then (parse_window_change id r >>= λ ev. ok (some ev))
      else if bytes_eq req_type (codes "signal")
      then (parse_signal id r >>= λ ev. ok (some ev))
      else ok none
