-- ===== src/Ends/Requests.antt =====
-- The channel requests of a client, and the calls that the server makes of them.
use thrussh_fork.Base.{
  ℕ, ◌+◌, ◌*◌, ◌%◌, ◌^◌, ◌<◌, ◌≤◌, ◌≡◌, refl, ap, ◌∙◌, some, List, [], ◌++◌, Bytes, length, ok,
  arith,
}
use thrussh_fork.Base.Assoc.{lookup}
use thrussh_fork.Protocol.Pty.{Pty}
use thrussh_fork.Wire.{Encoding, IsEncoding}
use thrussh_fork.Wire.Frames.{frame, push_packet_lem}
use thrussh_fork.Wire.Reads.{Fits, read_last, read_last_u32}
use thrussh_fork.Cipher.Keys.{Sodium}
use thrussh_fork.Session.State.{Channel, Encrypted, CommonSession}
use thrussh_fork.Server.Senders.{flag}
use thrussh_fork.Server.Channels.Events.{ChannelHandler, ChannelConfig}
use thrussh_fork.Server.Channels.Parse.{
  read_measures, parse_pty, parse_x11, parse_env, parse_exec, parse_subsystem, parse_window_change,
  parse_request,
}
use thrussh_fork.Server.Channels.Messages.{map_encrypted, map_channel, deliver, on_request}
use thrussh_fork.Server.Channels.Dispatch.{server_read_authenticated}
use thrussh_fork.Client.Senders.{mode_bytes, measures}
use thrussh_fork.Ends.Texts.{flag_lem, read_text_lem, read_text_last}
use thrussh_fork.Ends.Modes.{length-mode_bytes, read_modes-mode_bytes}
use thrussh_fork.Ends.Asks.{
  Request, pty, x11, env, shell, command, subsystem, resize, ask, kind, wants, payload, packet,
  event, Measures, IsRequest, ask_lem,
}

module _ ⦃e : Encoding⦄ where
  module _ (laws : IsEncoding e) where
    read_measures_lem :
        (cw rh pw ph : ℕ) (rest : Bytes)
        → Measures cw rh pw ph
        → read_measures (measures cw rh pw ph rest) ≡ ok ((cw, rh, pw, ph), rest)
    unfolding read_measures
    read_measures_lem cw rh pw ph rest (h1, h2, h3, h4) = rw (laws.read_u32-u32_be cw _ h1) (
        rw (laws.read_u32-u32_be rh _ h2)
          (rw (laws.read_u32-u32_be pw _ h3) (rw (laws.read_u32-u32_be ph _ h4) refl)))

    mode_string_lem :
        (ms : List (Pty × ℕ))
        → length ms ≤ 130
        → e.read_string (e.u32_be ((1 + 5 * length ms) % 2 ^ 32) ++ mode_bytes ms)
          ≡ some (mode_bytes ms, [])
    mode_string_lem ms h =
        ap e.read_string announced
        ∙ read_last laws (mode_bytes ms) (omega (arith, length-mode_bytes laws ms))
      where
        announced :
            e.u32_be ((1 + 5 * length ms) % 2 ^ 32) ++ mode_bytes ms ≡ e.ssh_string (mode_bytes ms)
        announced = rw (laws.ssh_string_lem (mode_bytes ms), length-mode_bytes laws ms, small)
          where
            small : (1 + 5 * length ms) % 2 ^ 32 ≡ 1 + 5 * length ms
            small = omega arith

    parsed :
        (n : ℕ) (r : Request)
        → IsRequest r
        → parse_request (kind r) n (payload r) ≡ ok (some (event n r))
    unfolding parse_request parse_pty parse_x11 parse_env parse_exec parse_subsystem
        parse_window_change
    parsed n (pty want term cw rh pw ph modes) (text, m, good, few) =
        rw (read_text_lem laws term _ text) (
          rw (read_measures_lem cw rh pw ph _ m)
            (rw (mode_string_lem modes few, read_modes-mode_bytes laws modes 0 good (omega arith))))
    parsed n (x11 want single protocol cookie screen) (p, k, small) =
        rw (laws.read_byte-cons (flag single) _) (
          rw (read_text_lem laws protocol _ p) (
            rw (read_text_lem laws cookie _ k)
              (rw (read_last_u32 laws screen small, flag_lem single))))
    parsed n (env want variable value) (a, b) =
        rw (read_text_lem laws variable _ a) (rw (read_text_last laws value b))
    parsed n (shell want) h = refl
    parsed n (command want text) h = rw (read_last laws text h)
    parsed n (subsystem want text) h = rw (read_text_last laws text h)
    parsed n (resize cw rh pw ph) h = rw (read_measures_lem cw rh pw ph [] h)

    kind-Fits : (r : Request) → Fits (kind r)
    kind-Fits (pty want term cw rh pw ph modes) = omega arith
    kind-Fits (x11 want single protocol cookie screen) = omega arith
    kind-Fits (env want variable value) = omega arith
    kind-Fits (shell want) = omega arith
    kind-Fits (command want text) = omega arith
    kind-Fits (subsystem want text) = omega arith
    kind-Fits (resize cw rh pw ph) = omega arith

    module _ ⦃c : Sodium⦄ {H : Type 0} (handler : ChannelHandler H) (config : ChannelConfig) where
      heard :
          (r : Request) (n : ℕ) (server : CommonSession) (h : H)
          → IsRequest r
          → n < 2 ^ 32
          → server_read_authenticated handler config server h (packet n r)
            ≡ deliver handler
                (event n r)
                (map_encrypted server (map_channel n (λ ch. record ch { wants_reply = wants r })))
                h
      unfolding server_read_authenticated on_request
      heard r n server h good small = rw (laws.read_u32-u32_be n _ small) (
          rw (laws.read_string-ssh_string (kind r) _ (kind-Fits r)) (
            rw (laws.read_byte-cons (flag (wants r)) (payload r))
              (rw (parsed n r good, flag_lem (wants r)))))

      -- Each of the seven requests pty, x11, env, shell, exec, subsystem and window-change, with
      -- texts and numbers that fit and at most 130 terminal modes: on a session with keys that has
      -- the channel, the client appends the frame of one packet, and the server that reads this
      -- packet notes whether a reply is wanted and calls its handler with exactly the arguments of
      -- the client.
      pub request_heard :
          (r : Request) (id : ℕ) (client : CommonSession) (enc : Encrypted) (ch : Channel)
          (server : CommonSession) (h : H)
          → client.encrypted ≡ some enc
          → lookup id enc.channels ≡ some ch
          → ch.recipient_channel < 2 ^ 32
          → IsRequest r
          → (ask r client id ≡ record client {
            encrypted =
                some (record enc { write = enc.write ++ frame (packet ch.recipient_channel r) });
          })
            × (server_read_authenticated handler config server h (packet ch.recipient_channel r)
                ≡ deliver handler
                    (event ch.recipient_channel r)
                    (map_encrypted server (
                      map_channel ch.recipient_channel
                        (λ (c : Channel). record c { wants_reply = wants r })))
                    h)
      request_heard r id client enc ch server h keys found small good =
          (sent, heard r ch.recipient_channel server h good small)
        where
          sent : ask r client id ≡ record client {
            encrypted =
                some (record enc { write = enc.write ++ frame (packet ch.recipient_channel r) });
          }
          sent = ask_lem r client id ∙ rw (keys, found, push_packet_lem) refl
