-- ===== src/Ends/Calls.antt =====
-- The requests of a program on a channel, from the call of src/client/mod.rs to the handler of the
-- server.
use thrussh_fork.Base.{ℕ, ◌^◌, ◌<◌, ◌≡◌, refl, ap, ◌∙◌, true, some, [], ◌∷◌, ◌++◌, Outcome, ok}
use thrussh_fork.Base.Assoc.{lookup}
use thrussh_fork.Wire.{Encoding, IsEncoding}
use thrussh_fork.Wire.Frames.{frame}
use thrussh_fork.Cipher.Keys.{Sodium}
use thrussh_fork.Key.{KeyCrate}
use thrussh_fork.Session.State.{Channel, Encrypted, CommonSession}
use thrussh_fork.Server.Channels.Events.{ChannelHandler, ChannelConfig}
use thrussh_fork.Server.Channels.Messages.{map_encrypted, map_channel, deliver}
use thrussh_fork.Server.Channels.Dispatch.{server_read_authenticated}
use thrussh_fork.Client.State as State
use thrussh_fork.Client.State.{Session, Config, ClientMsg}
use thrussh_fork.Client.Reply.{with_common}
use thrussh_fork.Client.Loop.{on_client_msg}
use thrussh_fork.Client.Handle.{Handle, send_msg_lem}
use thrussh_fork.Client.Handle.Calls.{
  queue_request_pty, queue_request_x11, queue_set_env, queue_request_shell, queue_exec,
  queue_request_subsystem, queue_window_change,
}
use thrussh_fork.Ends.Asks.{
  Request, pty, x11, env, shell, command, subsystem, resize, ask, packet, event, wants, IsRequest,
}
use thrussh_fork.Ends.Requests.{request_heard}

-- The call for a request on the channel `id`.
abbrev pub call : Request → Handle → ℕ → Outcome Handle
call (pty want term cw rh pw ph modes) h id = queue_request_pty h id want term cw rh pw ph modes
call (x11 want single protocol cookie screen) h id =
    queue_request_x11 h id want single protocol cookie screen
call (env want variable value) h id = queue_set_env h id want variable value
call (shell want) h id = queue_request_shell h id want
call (command want text) h id = queue_exec h id want text
call (subsystem want text) h id = queue_request_subsystem h id want text
call (resize cw rh pw ph) h id = queue_window_change h id cw rh pw ph

-- The message of a call.
abbrev message : Request → ℕ → ClientMsg
message (pty want term cw rh pw ph modes) id = State.request_pty id want term cw rh pw ph modes
message (x11 want single protocol cookie screen) id =
    State.request_x11 id want single protocol cookie screen
message (env want variable value) id = State.set_env id want variable value
message (shell want) id = State.request_shell id want
message (command want text) id = State.exec id want text
message (subsystem want text) id = State.request_subsystem id want text
message (resize cw rh pw ph) id = State.window_change id cw rh pw ph

called :
    (r : Request) (h : Handle) (id : ℕ)
    → h.is_open ≡ true
    → call r h id ≡ ok (record h { queue = h.queue ++ (message r id ∷ []) })
unfolding queue_request_pty queue_request_x11 queue_set_env queue_request_shell queue_exec
    queue_request_subsystem queue_window_change
called (pty want term cw rh pw ph modes) h id on = send_msg_lem h _ on
called (x11 want single protocol cookie screen) h id on = send_msg_lem h _ on
called (env want variable value) h id on = send_msg_lem h _ on
called (shell want) h id on = send_msg_lem h _ on
called (command want text) h id on = send_msg_lem h _ on
called (subsystem want text) h id on = send_msg_lem h _ on
called (resize cw rh pw ph) h id on = send_msg_lem h _ on

module _ ⦃e : Encoding⦄ ⦃ks : KeyCrate⦄ where
  served :
      (config : Config) (r : Request) (id : ℕ) (s : Session)
      → on_client_msg config (message r id) s ≡ ok (with_common s (ask r s.common id))
  unfolding on_client_msg
  served config (pty want term cw rh pw ph modes) id s = refl
  served config (x11 want single protocol cookie screen) id s = refl
  served config (env want variable value) id s = refl
  served config (shell want) id s = refl
  served config (command want text) id s = refl
  served config (subsystem want text) id s = refl
  served config (resize cw rh pw ph) id s = refl

  module _ ⦃c : Sodium⦄ (laws : IsEncoding e) {H : Type 0} (handler : ChannelHandler H)
      (config : ChannelConfig) (own : Config) where
    -- Each of the seven requests pty, x11, env, shell, exec, subsystem and window-change of a
    -- program, with texts and numbers that fit and at most 130 terminal modes: while the session is
    -- there, the call puts one message on its queue; where the session takes this message, has keys
    -- and has the channel, it appends the frame of one packet; and the server that reads this
    -- packet notes whether a reply is wanted and calls its handler with exactly the arguments of
    -- the program.
    pub call_heard :
        (r : Request) (hd : Handle) (id : ℕ) (s : Session) (enc : Encrypted) (ch : Channel)
        (server : CommonSession) (h : H)
        → hd.is_open ≡ true
        → s.common.encrypted ≡ some enc
        → lookup id enc.channels ≡ some ch
        → ch.recipient_channel < 2 ^ 32
        → IsRequest r
        → (m : ClientMsg) × (call r hd id ≡ ok (record hd { queue = hd.queue ++ (m ∷ []) }))
          × (on_client_msg own m s
              ≡ ok (
                  with_common s (record s.common {
                    encrypted =
                        some (record enc {
                          write = enc.write ++ frame (packet ch.recipient_channel r);
                        });
                  })))
          × (server_read_authenticated handler config server h (packet ch.recipient_channel r)
              ≡ deliver handler
                  (event ch.recipient_channel r)
                  (map_encrypted server (
                    map_channel ch.recipient_channel
                      (λ (c : Channel). record c { wants_reply = wants r })))
                  h)
    call_heard r hd id s enc ch server h on keys found small good =
        let (pushed, heard) =
          request_heard laws handler config r id s.common enc ch server h keys found small good in
        (
          message r id,
          called r hd id on,
          served own r id s ∙ ap (λ (x : CommonSession). ok (with_common s x)) pushed,
          heard,
        )
