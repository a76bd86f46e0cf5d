-- ===== src/Server/Channels/Messages.antt =====
-- `server_read_authenticated`, `server_handle_channel_open` and `confirm_channel_open` of
-- src/server/encrypted.rs.
use thrussh_fork.Base.{
  ℕ, ◌+◌, ◌%◌, ◌^◌, Bool, false, not, none, some, [], ◌∷◌, Bytes, codes, bytes_eq, ◌==◌,
  if◌then◌else◌, Outcome, ok, err, wrong_channel, ◌>>=◌, try_foreign,
}
use thrussh_fork.Base.Assoc.{lookup, insert, remove}
use thrussh_fork.Protocol.Msg
use thrussh_fork.Wire.{Encoding}
use thrussh_fork.Session.State.{Channel, Encrypted, CommonSession}
use thrussh_fork.Server.Senders.{push}
use thrussh_fork.Server.Channels.Events.{
  Event, channel_close, channel_eof, window_adjusted, Forward, tcpip_forward, cancel_tcpip_forward,
  ChannelHandler,
}
use thrussh_fork.Server.Channels.Parse.{read_text, parse_request}

-- `if let Some(ref mut enc) = self.common.encrypted { .. }`
abbrev pub map_encrypted : CommonSession → (Encrypted → Encrypted) → CommonSession
map_encrypted s f = elim s.encrypted [ none ↦ s | some enc ↦ record s { encrypted = some (f enc) } ]

-- `if let Some(channel) = enc.channels.get_mut(&id) { .. }`
abbrev pub map_channel : ℕ → (Channel → Channel) → Encrypted → Encrypted
map_channel id f enc = elim (lookup id enc.channels) [
  | none ↦ enc
  | some ch ↦ record enc { channels = insert id (f ch) enc.channels }
]

-- The amount is added on 32 bits, as a release build does; a debug build panics where it wraps.
abbrev pub widen : ℕ → Channel → Channel
widen amount ch = record ch { recipient_window_size = (ch.recipient_window_size + amount) % 2 ^ 32 }

module _ ⦃e : Encoding⦄ where
  -- A text and a number, as an address and its port; and what follows them.
  unfoldable pub read_pair : Bytes → Outcome ((Bytes × ℕ) × Bytes)
  read_pair r = do
    (address, r1) ← read_text r
    (port, r2) ← try_foreign (e.read_u32 r1)
    ok ((address, port), r2)

module _ ⦃e : Encoding⦄ {H : Type 0} (handler : ChannelHandler H) where
  abbrev pub deliver : Event → CommonSession → H → Outcome (CommonSession × H)
  deliver ev s h = try_foreign (handler.call ev h s) >>= λ r. ok (r.1, r.0)

  unfoldable pub on_close : CommonSession → H → Bytes → Outcome (CommonSession × H)
  on_close s h r = do
    (id, r1) ← try_foreign (e.read_u32 r)
    deliver (channel_close id)
        (map_encrypted s (λ enc. record enc { channels = remove id enc.channels })) h

  unfoldable pub on_eof : CommonSession → H → Bytes → Outcome (CommonSession × H)
  on_eof s h r = do (id, r1) ← try_foreign (e.read_u32 r); deliver (channel_eof id) s h

  unfoldable pub on_window_adjust : CommonSession → H → Bytes → Outcome (CommonSession × H)
  on_window_adjust s h r = do
    (id, r1) ← try_foreign (e.read_u32 r)
    (amount, r2) ← try_foreign (e.read_u32 r1)
    elim s.encrypted [
      | none ↦ deliver (window_adjusted id 0) s h
      | some enc ↦ elim (lookup id enc.channels) [
        | none ↦ err wrong_channel
        | some ch ↦
            deliver (window_adjusted id (widen amount ch).recipient_window_size)
              (record s {
                encrypted =
                    some (record enc { channels = insert id (widen amount ch) enc.channels });
              })
              h
      ]
    ]

  unfoldable pub on_request : CommonSession → H → Bytes → Outcome (CommonSession × H)
  on_request s h r = do
    (id, r1) ← try_foreign (e.read_u32 r)
    (req_type, r2) ← try_foreign (e.read_string r1)
    (wants_reply, r3) ← try_foreign (e.read_byte r2)
    let s' =
        map_encrypted s (map_channel id (λ ch. record ch { wants_reply = not (wants_reply == 0) }))
    request ← parse_request req_type id r3
    elim request [
      | none ↦ ok (map_encrypted s' (λ enc. push enc (Msg.channel_failure ∷ [])), h)
      | some ev ↦ deliver ev s' h
    ]

  abbrev pub answer : Bool → CommonSession → CommonSession
  answer result s =
      map_encrypted s
        (λ enc. push enc ((if result then Msg.request_success else Msg.request_failure) ∷ []))

  abbrev pub deliver_forward : Forward → CommonSession → H → Outcome (CommonSession × H)
  deliver_forward f s h = try_foreign (handler.forward f h s) >>= λ r. ok (answer r.2 r.1, r.0)

  unfoldable pub on_global_request : CommonSession → H → Bytes → Outcome (CommonSession × H)
  unfolding read_pair
  on_global_request s h r = do
    (req_type, r1) ← try_foreign (e.read_string r)
    (wants_reply, r2) ← try_foreign (e.read_byte r1)
    let s' = record s { wants_reply = not (wants_reply == 0) }
    if bytes_eq req_type (codes "tcpip-forward")
        then (read_pair r2 >>= λ a. deliver_forward (tcpip_forward a.0.0 a.0.1) s' h)
        else if bytes_eq req_type (codes "cancel-tcpip-forward")
        then (read_pair r2 >>= λ a. deliver_forward (cancel_tcpip_forward a.0.0 a.0.1) s' h)
        else ok (answer false s', h)
