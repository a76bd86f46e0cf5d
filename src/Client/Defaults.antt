-- ===== src/Client/Defaults.antt =====
-- The methods that the trait `Handler` of src/client/mod.rs has unless the application writes its
-- own: they pass what has come to the channels of the `Handle`.
use thrussh_fork.Base.{ℕ, false, none, some, [], ◌∷◌, ◌++◌, if◌then◌else◌}
use thrussh_fork.Base.Assoc.{lookup, insert, remove}
use thrussh_fork.Protocol.Names.{
  data_msg, extended_data_msg, eof, xon_xoff, exit_status, exit_signal,
}
use thrussh_fork.Client.State as State
use thrussh_fork.Client.State.{
  Session, OpenChannelMsg, opened, msg, channel_open_failure, Event, auth_banner,
  channel_open_confirmation, channel_close, channel_eof, channel_open_failed,
  channel_open_forwarded_tcpip, on_data, on_extended_data, window_adjusted, Handler,
}

-- `if let Some(chan) = session.channels.get(&channel) { chan.send(..).unwrap_or(()) }`
unfoldable pub send_on : Session → ℕ → OpenChannelMsg → Session
send_on s id m = elim (lookup id s.channels) [
  | none ↦ s
  | some queue ↦ record s { channels = insert id (queue ++ (m ∷ [])) s.channels }
]

unfoldable pub default_call : Event → Session → Session
unfolding send_on
default_call (auth_banner banner) s = s
default_call (channel_open_confirmation id) s = send_on s id (opened id)
default_call (channel_close id) s = record s { channels = remove id s.channels }
default_call (channel_eof id) s = send_on s id (msg eof)
default_call (channel_open_failed id reason description language) s = record s {
  channels = remove id s.channels;
  sender = if s.sender_open then s.sender ++ (channel_open_failure ∷ []) else s.sender;
}
default_call (channel_open_forwarded_tcpip id address port originator port') s = s
default_call (on_data id given) s = send_on s id (msg (data_msg given))
default_call (on_extended_data id ext given) s = send_on s id (msg (extended_data_msg given ext))
default_call (State.xon_xoff id can_do) s = send_on s id (msg (xon_xoff can_do))
default_call (State.exit_status id status) s = send_on s id (msg (exit_status status))
default_call (State.exit_signal id sig core error language) s =
    send_on s id (msg (exit_signal sig core error language))
default_call (window_adjusted id size) s = s

-- No key of a server is accepted.
abbrev pub default_handler : {H : Type 0} → Handler H
default_handler = record {
  call = λ ev h s. some (h, default_call ev s);
  check_server_key = λ h key. some (h, false);
}
