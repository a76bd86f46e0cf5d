-- ===== src/Ends/Heard.antt =====
-- What each end makes of the packets by which a channel is opened: src/server/encrypted.rs and
-- src/client/encrypted.rs.
use thrussh_fork.Base.{
  ℕ, ◌^◌, ◌<◌, ◌≡◌, refl, some, [], ◌++◌, Bytes, Outcome, ok, err, inconsistent, arith,
}
use thrussh_fork.Base.Assoc.{lookup, insert}
use thrussh_fork.Wire.{Encoding, IsEncoding}
use thrussh_fork.Wire.Frames.{frame, push_packet_lem}
use thrussh_fork.Wire.Reads.{Fits, IsText, read_last_u32}
use thrussh_fork.Session.State.{Channel, Encrypted, CommonSession}
use thrussh_fork.Session.Channels.{new_channel_id}
use thrussh_fork.Server.Channels.Events.{ChannelHandler, ChannelConfig}
use thrussh_fork.Server.Channels.Messages.{deliver, read_pair}
use thrussh_fork.Server.Channels.Parse.{read_text}
use thrussh_fork.Server.Channels.Opens.{
  server_confirm_channel_open, confirm_channel_open, opened_channel, parse_open,
  server_handle_channel_open,
}
use thrussh_fork.Client.State.{Session, Config, Handler, channel_open_confirmation}
use thrussh_fork.Client.Opens.{pair_bytes}
use thrussh_fork.Client.Login.{client_deliver, with_enc}
use thrussh_fork.Client.Messages.{confirm, on_known, on_confirmation, client_read_authenticated}
use thrussh_fork.Ends.Openings.{
  Opening, session, x11, direct, event, kind, arguments, IsOpening, confirmation,
}

module _ ⦃e : Encoding⦄ where
  module _ (laws : IsEncoding e) where
    read_pair_lem :
        (address : Bytes) (port : ℕ) (rest : Bytes)
        → IsText address
        → port < 2 ^ 32
        → read_pair (pair_bytes address port rest) ≡ ok ((address, port), rest)
    unfolding read_pair read_text
    read_pair_lem address port rest (fits, text) small =
        rw (laws.read_string-ssh_string address _ fits, text)
          (rw (laws.read_u32-u32_be port rest small))

    parse_open_lem :
        (o : Opening) (id : ℕ)
        → IsOpening o
        → parse_open (kind o) id (arguments o) ≡ ok (some (event id o))
    unfolding parse_open
    parse_open_lem session id h = refl
    parse_open_lem (x11 address port) id (text, small) =
        rw (read_pair_lem address port [] text small)
    parse_open_lem (direct host port originator port') id ((text, small), (text', small')) =
        rw (read_pair_lem host port _ text small)
          (rw (read_pair_lem originator port' [] text' small'))

    kind-Fits : (o : Opening) → Fits (kind o)
    kind-Fits session = omega arith
    kind-Fits (x11 address port) = omega arith
    kind-Fits (direct host port originator port') = omega arith

    -- The number of the channel at the server, and what stands there for it.
    pub accepts :
        {H : Type 0} (handler : ChannelHandler H) (config : ChannelConfig) (o : Opening)
        (window maxpacket id id' : ℕ) (s : CommonSession) (enc enc' : Encrypted) (h : H)
        → s.encrypted ≡ some enc
        → new_channel_id enc ≡ ok (enc', id')
        → IsOpening o
        → id < 2 ^ 32
        → window < 2 ^ 32
        → maxpacket < 2 ^ 32
        → server_handle_channel_open handler config s h (
            e.ssh_string (kind o)
            ++ (e.u32_be id ++ (e.u32_be window ++ (e.u32_be maxpacket ++ arguments o))))
          ≡ deliver handler
              (event id' o)
              (record s {
                encrypted = some (
                    confirm_channel_open config
                      (opened_channel config id' id window maxpacket)
                      enc');
              })
              h
    unfolding server_handle_channel_open
    accepts handler config o window maxpacket id id' s enc enc' h keys new good small small'
          small'' =
        rw (laws.read_string-ssh_string (kind o) _ (kind-Fits o)) (
          rw (laws.read_u32-u32_be id _ small) (
            rw (laws.read_u32-u32_be window _ small') (
              rw (laws.read_u32-u32_be maxpacket _ small'', keys)
                (rw (new, parse_open_lem o id' good)))))

    pub confirms :
        (config : ChannelConfig) (id id' window maxpacket : ℕ) (enc : Encrypted)
        → confirm_channel_open config (opened_channel config id' id window maxpacket) enc
          ≡ record enc {
            write = enc.write ++ frame (confirmation config id id');
            channels = insert id' (opened_channel config id' id window maxpacket) enc.channels;
          }
    unfolding confirm_channel_open server_confirm_channel_open
    confirms config id id' window maxpacket enc = rw (push_packet_lem) refl

    known :
        (s : Session) (id : ℕ) (f : Channel → Channel) (missing : Outcome Session) (enc : Encrypted)
        (ch : Channel)
        → s.common.encrypted ≡ some enc
        → lookup id enc.channels ≡ some ch
        → on_known s id f missing
          ≡ ok (with_enc s (record enc { channels = insert id (f ch) enc.channels }))
    unfolding on_known
    known s id f missing enc ch keys there = rw (keys, on_known) (rw (there, on_known) refl)

    pub hears :
        {H : Type 0} (handler : Handler H) (client : Config) (config : ChannelConfig) (id id' : ℕ)
        (s : Session) (enc : Encrypted) (ch : Channel) (h : H)
        → s.common.encrypted ≡ some enc
        → lookup id enc.channels ≡ some ch
        → id < 2 ^ 32
        → id' < 2 ^ 32
        → config.window_size < 2 ^ 32
        → config.maximum_packet_size < 2 ^ 32
        → client_read_authenticated handler client s h (confirmation config id id')
          ≡ client_deliver handler
              (channel_open_confirmation id)
              (with_enc s (record enc {
                channels =
                    insert id
                      (confirm id' config.window_size config.maximum_packet_size ch)
                      enc.channels;
              }))
              h
    unfolding client_read_authenticated on_confirmation
    hears handler client config id id' s enc ch h keys there small small' small'' small3 =
        rw (laws.read_u32-u32_be id _ small) (
          rw (laws.read_u32-u32_be id' _ small') (
            rw (laws.read_u32-u32_be config.window_size _ small'') rw (
              read_last_u32 laws config.maximum_packet_size small3,
              known s id (confirm id' config.window_size config.maximum_packet_size)
                  (err inconsistent) enc ch keys there,
            )))
