-- ===== src/Ends/Opens.antt =====
-- The opening of a channel by a client, and its confirmation by the server: src/client/session.rs,
-- src/server/encrypted.rs and src/client/encrypted.rs together.
use thrussh_fork.Base.{ℕ, ◌^◌, ◌<◌, ◌≡◌, ap, ◌∙◌, some, ◌++◌, ok}
use thrussh_fork.Base.Assoc.{lookup, insert}
use thrussh_fork.Wire.{Encoding, IsEncoding}
use thrussh_fork.Wire.Frames.{frame}
use thrussh_fork.Cipher.Keys.{Sodium}
use thrussh_fork.Session.State.{Channel, Encrypted, CommonSession, authenticated}
use thrussh_fork.Session.Channels.{new_channel, new_channel_id}
use thrussh_fork.Server.Channels.Events.{ChannelHandler, ChannelConfig}
use thrussh_fork.Server.Channels.Messages.{deliver}
use thrussh_fork.Server.Channels.Opens.{opened_channel}
use thrussh_fork.Server.Channels.Dispatch.{server_read_authenticated}
use thrussh_fork.Client.State.{Session, Config, Handler, channel_open_confirmation}
use thrussh_fork.Client.Login.{client_deliver, with_enc}
use thrussh_fork.Client.Messages.{confirm, client_read_authenticated}
use thrussh_fork.Ends.Openings.{
  Opening, event, open_channel, open_packet, IsOpening, opens, confirmation,
}
use thrussh_fork.Ends.Heard.{accepts, confirms, hears}

module _ ⦃e : Encoding⦄ where
  -- The channel is asked for, the server takes it up and confirms it, and it is confirmed at the
  -- client: each side holds the number, the window and the packet size of the other.
  abbrev pub Opened :
      {H K : Type 0} ⦃sodium : Sodium⦄
      → ChannelHandler H
      → ChannelConfig
      → Handler K
      → Config
      → Opening
      → ℕ
      → ℕ
      → CommonSession
      → CommonSession
      → Session
      → Encrypted
      → Encrypted
      → Encrypted
      → Channel
      → H
      → K
      → Type 0
  Opened handler config own client o id id' c s c' cenc' cenc'' senc' ch h g =
      (open_channel o client.window_size client.maximum_packet_size c
        ≡ ok (
          record c {
            encrypted = some (record cenc' {
              write =
                  cenc'.write
                  ++ frame (open_packet o client.window_size client.maximum_packet_size id);
            });
          },
          id,
        ))
      × (server_read_authenticated handler config s h
            (open_packet o client.window_size client.maximum_packet_size id)
          ≡ deliver handler (event id' o)
              (record s {
                encrypted = some (record senc' {
                  write = senc'.write ++ frame (confirmation config id id');
                  channels =
                      insert id'
                        (opened_channel config id' id client.window_size client.maximum_packet_size)
                        senc'.channels;
                });
              })
              h)
      × (client_read_authenticated own client c' g (confirmation config id id')
          ≡ client_deliver own (channel_open_confirmation id)
              (with_enc c' (record cenc'' {
                channels =
                    insert id (confirm id' config.window_size config.maximum_packet_size ch)
                      cenc''.channels;
              }))
              g)

  module _ (laws : IsEncoding e) where
    -- For each kind of channel, texts that are UTF-8 and numbers of 32 bits: an authenticated
    -- client for which `new_channel` gives a number pushes a packet that the server, for which
    -- `new_channel_id` gives a number, takes up with the arguments of the client, and it pushes a
    -- confirmation; a client that has the channel and reads the confirmation calls its handler with
    -- the channel confirmed. The channel at each end then has the number, the window and the packet
    -- size that the other end has sent.
    pub channel_confirmed :
        {H K : Type 0} (handler : ChannelHandler H) (config : ChannelConfig) (own : Handler K)
        (client : Config) (o : Opening) (id id' : ℕ) (c s : CommonSession) (c' : Session)
        (cenc cenc' cenc'' senc senc' : Encrypted) (ch : Channel) (h : H) (g : K) ⦃sodium : Sodium⦄
        → c.encrypted ≡ some cenc
        → cenc.state ≡ authenticated
        → new_channel cenc client.window_size client.maximum_packet_size ≡ ok (cenc', id)
        → s.encrypted ≡ some senc
        → new_channel_id senc ≡ ok (senc', id')
        → c'.common.encrypted ≡ some cenc''
        → lookup id cenc''.channels ≡ some ch
        → IsOpening o
        → id < 2 ^ 32
        → id' < 2 ^ 32
        → client.window_size < 2 ^ 32
        → client.maximum_packet_size < 2 ^ 32
        → config.window_size < 2 ^ 32
        → config.maximum_packet_size < 2 ^ 32
        → Opened handler config own client o id id' c s c' cenc' cenc'' senc' ch h g
    unfolding server_read_authenticated
    channel_confirmed handler config own client o id id' c s c' cenc cenc' cenc'' senc senc' ch h g
          keys ready new keys' new' keys'' there good i1 i2 i3 i4 i5 i6 =
        (
          opens o client.window_size client.maximum_packet_size c cenc cenc' id keys ready new,
          accepts laws handler config o client.window_size client.maximum_packet_size id id' s senc
                senc' h keys' new' good i1 i3 i4
              ∙ ap
                  (λ (enc : Encrypted).
                    deliver handler (event id' o) (record s { encrypted = some enc }) h)
                  (confirms laws config id id' client.window_size client.maximum_packet_size senc'),
          hears laws own client config id id' c' cenc'' ch g keys'' there i1 i2 i5 i6,
        )
