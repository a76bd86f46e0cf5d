-- ===== src/Server/Channels/Dispatch.antt =====
-- The messages of `server_read_authenticated`, src/server/encrypted.rs, by their number.
use thrussh_fork.Base.{
  ℕ, Bytes, drop, get_elem?, ◌==◌, if◌then◌else◌, Outcome, ok, ◌>>=◌, try_foreign, unwrap,
}
use thrussh_fork.Protocol.Msg
use thrussh_fork.Wire.{Encoding}
use thrussh_fork.Cipher.Keys.{Sodium}
use thrussh_fork.Session.State.{CommonSession}
use thrussh_fork.Session.Channels.{adjust_window_size}
use thrussh_fork.Server.Flush.{server_flush}
use thrussh_fork.Server.Channels.Events.{
  Event, channel_data, channel_extended_data, ChannelHandler, ChannelConfig,
}
use thrussh_fork.Server.Channels.Messages.{
  map_encrypted, deliver, on_close, on_eof, on_window_adjust, on_request, on_global_request,
}
use thrussh_fork.Server.Channels.Opens.{server_handle_channel_open}

module _ ⦃e : Encoding⦄ ⦃c : Sodium⦄ {H : Type 0} (handler : ChannelHandler H)
    (config : ChannelConfig) where
  -- Data has come on a channel: its window is adjusted, and what is pending is flushed before the
  -- handler is called.
  unfoldable pub on_bytes : ℕ → Event → Bytes → CommonSession → H → Outcome (CommonSession × H)
  on_bytes id ev given s h = do
    s' ←
        server_flush config.clock config.cookie config.limits config.key_exchange
          (map_encrypted s (λ enc. adjust_window_size enc id given config.window_size))
    deliver handler ev s' h

  unfoldable pub on_data : CommonSession → H → Bytes → Outcome (CommonSession × H)
  unfolding on_bytes
  on_data s h r = do
    (id, r1) ← try_foreign (e.read_u32 r)
    (given, r2) ← try_foreign (e.read_string r1)
    on_bytes id (channel_data id given) given s h

  unfoldable pub on_extended_data : CommonSession → H → Bytes → Outcome (CommonSession × H)
  unfolding on_bytes
  on_extended_data s h r = do
    (id, r1) ← try_foreign (e.read_u32 r)
    (ext, r2) ← try_foreign (e.read_u32 r1)
    (given, r3) ← try_foreign (e.read_string r2)
    on_bytes id (channel_extended_data id ext given) given s h

  -- Every arm reads from the second byte on; other messages are passed over.
  unfoldable pub server_read_authenticated : CommonSession → H → Bytes → Outcome (CommonSession × H)
  unfolding on_data on_extended_data
  server_read_authenticated s h buf = do
    first ← unwrap (get_elem? buf 0)
    let r = drop 1 buf
    if first == Msg.channel_open
        then server_handle_channel_open handler config s h r
        else if first == Msg.channel_close
        then on_close handler s h r
        else if first == Msg.channel_eof
        then on_eof handler s h r
        else if first == Msg.channel_data
        then on_data s h r
        else if first == Msg.channel_extended_data
        then on_extended_data s h r
        else if first == Msg.channel_window_adjust
        then on_window_adjust handler s h r
        else if first == Msg.channel_request
        then on_request handler s h r
        else if first == Msg.global_request
        then on_global_request handler s h r
        else ok (s, h)
