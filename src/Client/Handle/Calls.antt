-- ===== src/Client/Handle/Calls.antt =====
-- The methods of `ChannelSender`, src/client/mod.rs: each puts one message on the queue. `id` is the
-- number of the channel.
use thrussh_fork.Base.{ℕ, Bool, List, Bytes, Outcome}
use thrussh_fork.Protocol.Pty.{Pty}
use thrussh_fork.Protocol.Names.{Sig}
use thrussh_fork.Client.State as State
use thrussh_fork.Client.Handle.{Handle, send_msg}

module _ (h : Handle) (id : ℕ) where
  unfoldable pub queue_request_pty : Bool → Bytes → ℕ → ℕ → ℕ → ℕ → List (Pty × ℕ) → Outcome Handle
  unfolding send_msg
  queue_request_pty want_reply term col_width row_height pix_width pix_height modes =
      send_msg h
        (State.request_pty id want_reply term col_width row_height pix_width pix_height modes)

  unfoldable pub queue_request_shell : Bool → Outcome Handle
  unfolding send_msg
  queue_request_shell want_reply = send_msg h (State.request_shell id want_reply)

  unfoldable pub queue_exec : Bool → Bytes → Outcome Handle
  unfolding send_msg
  queue_exec want_reply command = send_msg h (State.exec id want_reply command)

  unfoldable pub queue_signal : Sig → Outcome Handle
  unfolding send_msg
  queue_signal sig = send_msg h (State.signal id sig)

  unfoldable pub queue_request_subsystem : Bool → Bytes → Outcome Handle
  unfolding send_msg
  queue_request_subsystem want_reply name = send_msg h (State.request_subsystem id want_reply name)

  unfoldable pub queue_request_x11 : Bool → Bool → Bytes → Bytes → ℕ → Outcome Handle
  unfolding send_msg
  queue_request_x11 want_reply single_connection protocol cookie screen =
      send_msg h (State.request_x11 id want_reply single_connection protocol cookie screen)

  unfoldable pub queue_set_env : Bool → Bytes → Bytes → Outcome Handle
  unfolding send_msg
  queue_set_env want_reply variable value = send_msg h (State.set_env id want_reply variable value)

  unfoldable pub queue_window_change : ℕ → ℕ → ℕ → ℕ → Outcome Handle
  unfolding send_msg
  queue_window_change col_width row_height pix_width pix_height =
      send_msg h (State.window_change id col_width row_height pix_width pix_height)

  unfoldable pub queue_data : Bytes → Outcome Handle
  unfolding send_msg
  queue_data given = send_msg h (State.data' id given)

  unfoldable pub queue_extended_data : ℕ → Bytes → Outcome Handle
  unfolding send_msg
  queue_extended_data ext given = send_msg h (State.extended_data id given ext)

  unfoldable pub queue_eof : Outcome Handle
  unfolding send_msg
  queue_eof = send_msg h (State.eof id)

-- These two are not about a channel.
unfoldable pub queue_tcpip_forward : Handle → Bool → Bytes → ℕ → Outcome Handle
unfolding send_msg
queue_tcpip_forward h want_reply address port =
    send_msg h (State.tcpip_forward want_reply address port)

unfoldable pub queue_cancel_tcpip_forward : Handle → Bool → Bytes → ℕ → Outcome Handle
unfolding send_msg
queue_cancel_tcpip_forward h want_reply address port =
    send_msg h (State.cancel_tcpip_forward want_reply address port)
