-- ===== src/Server/Handle.antt =====
-- The `Handle` of src/server/session.rs, with which a program sends to a client at any time: each call
-- puts a message on the queue of the session.
use thrussh_fork.Base.{ℕ, Bool, List, [], ◌∷◌, ◌++◌, Bytes, if◌then◌else◌}
use thrussh_fork.Protocol.Names.{
  ChannelMsg, data_msg, extended_data_msg, eof, xon_xoff, exit_status, exit_signal, Sig,
}

-- The queue, and whether the session is there to take from it.
pub record Handle : Type 0 where
  pub queue : List (ℕ × ChannelMsg)
  pub is_open : Bool

-- `Result<(), E>`, with the handle.
pub data Sent (E : Type 0) : Type 0 where
  sent : Handle → Sent E
  failed : E → Sent E

unfoldable pub send_or : {E : Type 0} → Handle → ℕ → ChannelMsg → E → Sent E
send_or h id m lost =
    if h.is_open then sent (record h { queue = h.queue ++ ((id, m) ∷ []) }) else failed lost

-- The data that could not be sent is given back.
unfoldable pub handle_data : Handle → ℕ → Bytes → Sent Bytes
unfolding send_or
handle_data h id given = send_or h id (data_msg given) given

unfoldable pub handle_extended_data : Handle → ℕ → ℕ → Bytes → Sent Bytes
unfolding send_or
handle_extended_data h id ext given = send_or h id (extended_data_msg given ext) given

unfoldable pub handle_eof : Handle → ℕ → Sent (Unit {0})
unfolding send_or
handle_eof h id = send_or h id eof tt

unfoldable pub handle_xon_xoff_request : Handle → ℕ → Bool → Sent (Unit {0})
unfolding send_or
handle_xon_xoff_request h id client_can_do = send_or h id (xon_xoff client_can_do) tt

unfoldable pub handle_exit_status_request : Handle → ℕ → ℕ → Sent (Unit {0})
unfolding send_or
handle_exit_status_request h id status = send_or h id (exit_status status) tt

unfoldable pub handle_exit_signal_request :
    Handle → ℕ → Sig → Bool → Bytes → Bytes → Sent (Unit {0})
unfolding send_or
handle_exit_signal_request h id signal_name core_dumped error_message lang_tag =
    send_or h id (exit_signal signal_name core_dumped error_message lang_tag) tt
