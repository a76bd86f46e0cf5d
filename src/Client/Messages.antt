-- ===== src/Client/Messages.antt =====
-- `client_read_encrypted` and `client_read_authenticated` of src/client/encrypted.rs.
use thrussh_fork.Base.{
  ℕ, true, not, Option, none, some, Bytes, codes, bytes_eq, drop, get_elem?, ◌==◌, if◌then◌else◌,
  Outcome, ok, err, inconsistent, wrong_channel, ◌>>=◌, try_foreign, unwrap,
}
use thrussh_fork.Base.Assoc.{lookup, insert, remove}
use thrussh_fork.Protocol.Msg
use thrussh_fork.Protocol.Names.{from_name, from_u32}
use thrussh_fork.Wire.{Encoding}
use thrussh_fork.Cipher.Keys.{Sodium}
use thrussh_fork.Session.State.{
  Channel, Encrypted, EncryptedState, waiting_service_request, waiting_auth_request, authenticated,
}
use thrussh_fork.Session.Channels.{adjust_window_size}
use thrussh_fork.Dh.Algorithm.{Curve}
use thrussh_fork.Key.{KeyCrate}
use thrussh_fork.Server.Channels.Messages.{map_encrypted, read_pair, widen}
use thrussh_fork.Server.Channels.Parse.{read_text}
use thrussh_fork.Client.State.{
  Session, Config, World, Event, channel_open_confirmation, channel_close, channel_eof,
  channel_open_failed, channel_open_forwarded_tcpip, on_data, on_extended_data, xon_xoff,
  exit_status, exit_signal, window_adjusted, Handler,
}
use thrussh_fork.Client.Kex.{client_rekey}
use thrussh_fork.Client.Login.{
  with_enc, client_deliver, client_waiting_auth, client_waiting_service,
}

-- `if let Some(ref mut enc) = self.common.encrypted { .. }`
abbrev pub on_enc : Session → (Encrypted → Encrypted) → Session
on_enc s f = record s { common = map_encrypted s.common f }

-- What a confirmation does to the channel.
abbrev pub confirm : ℕ → ℕ → ℕ → Channel → Channel
confirm id_recv window max_packet ch = record ch {
  recipient_channel = id_recv;
  recipient_window_size = window;
  recipient_maximum_packet_size = max_packet;
  confirmed = true;
}

-- `if let Some(ref mut enc) = .. { if let Some(ch) = enc.channels.get_mut(..) { .. } else { error } }`
unfoldable pub on_known : Session → ℕ → (Channel → Channel) → Outcome Session → Outcome Session
on_known s id f missing = elim s.common.encrypted [
  | none ↦ ok s
  | some enc ↦ elim (lookup id enc.channels) [
    | none ↦ missing
    | some ch ↦ ok (with_enc s (record enc { channels = insert id (f ch) enc.channels }))
  ]
]

-- The window that is reported: 0 without keys.
unfoldable pub new_window : Session → ℕ → ℕ
new_window s id = elim s.common.encrypted [
  | none ↦ 0
  | some enc ↦ elim (lookup id enc.channels) [ none ↦ 0 | some ch ↦ ch.recipient_window_size ]
]

module _ ⦃e : Encoding⦄ where
  -- The arms of CHANNEL_REQUEST, up to the call of the handler; none for a request that is not known.
  unfoldable pub client_parse_request : Bytes → ℕ → Bytes → Outcome (Option Event)
  unfolding read_text read_pair
  client_parse_request req id r =
      if bytes_eq req (codes "forwarded_tcpip")
      then (do
        (a, r1) ← read_pair r
        (b, r2) ← read_pair r1
        ok (some (channel_open_forwarded_tcpip id a.0 a.1 b.0 b.1)))
      else if bytes_eq req (codes "xon-xoff")
      then (do
        (zero_byte, r1) ← try_foreign (e.read_byte r)
        (client_can_do, r2) ← try_foreign (e.read_byte r1)
        ok (some (xon_xoff id (not (client_can_do == 0)))))
      else if bytes_eq req (codes "exit-status")
      then (do
        (zero_byte, r1) ← try_foreign (e.read_byte r)
        (status, r2) ← try_foreign (e.read_u32 r1)
        ok (some (exit_status id status)))
      else if bytes_eq req (codes "exit-signal")
      then (do
        (zero_byte, r1) ← try_foreign (e.read_byte r)
        (name, r2) ← try_foreign (e.read_string r1)
        signal_name ← from_name e.is_utf8 name
        (core_dumped, r3) ← try_foreign (e.read_byte r2)
        (error_message, r4) ← read_text r3
        (lang_tag, r5) ← read_text r4
        ok (some (exit_signal id signal_name (not (core_dumped == 0)) error_message lang_tag)))
      else ok none

  module _ {H : Type 0} (handler : Handler H) (config : Config) where
    unfoldable pub on_confirmation : Session → H → Bytes → Outcome (Session × H)
    unfolding on_known
    on_confirmation s h r = do
      (id_send, r1) ← try_foreign (e.read_u32 r)
      (id_recv, r2) ← try_foreign (e.read_u32 r1)
      (window, r3) ← try_foreign (e.read_u32 r2)
      (max_packet, r4) ← try_foreign (e.read_u32 r3)
      s' ← on_known s id_send (confirm id_recv window max_packet) (err inconsistent)
      client_deliver handler (channel_open_confirmation id_send) s' h

    unfoldable pub client_on_close : Session → H → Bytes → Outcome (Session × H)
    client_on_close s h r = do
      (id, r1) ← try_foreign (e.read_u32 r)
      client_deliver handler (channel_close id)
          (on_enc s (λ enc. record enc { channels = remove id enc.channels })) h

    unfoldable pub client_on_eof : Session → H → Bytes → Outcome (Session × H)
    client_on_eof s h r = do
      (id, r1) ← try_foreign (e.read_u32 r)
      client_deliver handler (channel_eof id) s h

    unfoldable pub on_open_failure : Session → H → Bytes → Outcome (Session × H)
    unfolding read_text
    on_open_failure s h r = do
      (id, r1) ← try_foreign (e.read_u32 r)
      (code, r2) ← try_foreign (e.read_u32 r1)
      reason ← unwrap (from_u32 code)
      (descr, r3) ← read_text r2
      (language, r4) ← read_text r3
      client_deliver handler (channel_open_failed id reason descr language)
          (on_enc s (λ enc. record enc { channels = remove id enc.channels })) h

    unfoldable pub client_on_data : Session → H → Bytes → Outcome (Session × H)
    client_on_data s h r = do
      (id, r1) ← try_foreign (e.read_u32 r)
      (given, r2) ← try_foreign (e.read_string r1)
      client_deliver handler (on_data id given)
          (on_enc s (λ enc. adjust_window_size enc id given config.window_size)) h

    unfoldable pub client_on_extended_data : Session → H → Bytes → Outcome (Session × H)
    client_on_extended_data s h r = do
      (id, r1) ← try_foreign (e.read_u32 r)
      (ext, r2) ← try_foreign (e.read_u32 r1)
      (given, r3) ← try_foreign (e.read_string r2)
      client_deliver handler (on_extended_data id ext given)
          (on_enc s (λ enc. adjust_window_size enc id given config.window_size)) h

    unfoldable pub client_on_request : Session → H → Bytes → Outcome (Session × H)
    unfolding client_parse_request
    client_on_request s h r = do
      (id, r1) ← try_foreign (e.read_u32 r)
      (req, r2) ← try_foreign (e.read_string r1)
      request ← client_parse_request req id r2
      elim request [ none ↦ ok (s, h) | some ev ↦ client_deliver handler ev s h ]

    -- The sum is taken on 32 bits, as in a release build; a debug build panics where it wraps.
    unfoldable pub client_on_window_adjust : Session → H → Bytes → Outcome (Session × H)
    unfolding on_known new_window
    client_on_window_adjust s h r = do
      (id, r1) ← try_foreign (e.read_u32 r)
      (amount, r2) ← try_foreign (e.read_u32 r1)
      s' ← on_known s id (widen amount) (err wrong_channel)
      client_deliver handler (window_adjusted id (new_window s' id)) s' h

    -- Every arm reads from the second byte on; other messages are passed over.
    unfoldable pub client_read_authenticated : Session → H → Bytes → Outcome (Session × H)
    unfolding on_confirmation client_on_close client_on_eof on_open_failure client_on_data
        client_on_extended_data client_on_request client_on_window_adjust
    client_read_authenticated s h buf = do
      first ← unwrap (get_elem? buf 0)
      let r = drop 1 buf
      if first == Msg.channel_open_confirmation
          then on_confirmation s h r
          else if first == Msg.channel_close
          then client_on_close s h r
          else if first == Msg.channel_eof
          then client_on_eof s h r
          else if first == Msg.channel_open_failure
          then on_open_failure s h r
          else if first == Msg.channel_data
          then client_on_data s h r
          else if first == Msg.channel_extended_data
          then client_on_extended_data s h r
          else if first == Msg.channel_request
          then client_on_request s h r
          else if first == Msg.channel_window_adjust
          then client_on_window_adjust s h r
          else if first == Msg.global_request
          then (do (req, r1) ← try_foreign (e.read_string r); ok (s, h))
          else ok (s, h)

    module _ ⦃c : Sodium⦄ ⦃k : Curve⦄ ⦃ks : KeyCrate⦄ where
      -- The packet `buf`, whose first byte is `first`, in each state.
      unfoldable pub client_in_state :
          EncryptedState → Session → H → Encrypted → ℕ → Bytes → Outcome (Session × H)
      client_in_state (waiting_service_request accepted) s h enc first buf =
          client_waiting_service handler s h enc first buf
      client_in_state (waiting_auth_request auth) s h enc first buf =
          client_waiting_auth handler s h enc auth first buf
      client_in_state authenticated s h enc first buf = client_read_authenticated s h buf

      -- `unreachable!()` for a KEXINIT without keys.
      unfoldable pub client_read_encrypted : World → Session → H → Bytes → Outcome (Session × H)
      unfolding client_in_state client_rekey
      client_read_encrypted w s h buf = do
        first ← unwrap (get_elem? buf 0)
        if first == Msg.kexinit
            then (do
              enc ← unwrap s.common.encrypted
              common ← client_rekey w.cookie w.secret config.preferred s.common enc buf
              ok (record s { common = common }, h))
            else elim s.common.encrypted [
              | none ↦ ok (s, h)
              | some enc ↦ client_in_state enc.state s h enc first buf
            ]
