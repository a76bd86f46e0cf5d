-- ===== src/Session/Channels.antt =====
-- The operations of src/session.rs on channels: short messages, flow control and new numbers; and
-- the switch to new keys and the disconnection.
use thrussh_fork.Base.{
  ℕ, zero, suc, ◌+◌, ◌-◌, ◌/◌, ◌%◌, ◌^◌, true, false, Option, none, some, List, [], ◌∷◌, ◌++◌,
  Bytes, length, ltb, leb, if◌then◌else◌, Outcome, ok, stuck,
}
use thrussh_fork.Base.Assoc.{lookup, insert}
use thrussh_fork.Protocol.Msg
use thrussh_fork.Protocol.Names.{Disconnect, reason_code}
use thrussh_fork.Wire.{Encoding, push_packet}
use thrussh_fork.Session.State.{Channel, Encrypted, EncryptedState, CommonSession, NewKeys}

-- `self.last_channel_id += Wrapping(1)`
abbrev pub next_id : ℕ → ℕ
next_id n = (n + 1) % 2 ^ 32

-- `loop { last_channel_id += 1; if vacant, stop }`: the number that it stops at.
unfoldable pub vacant_id : ℕ → ℕ → List (ℕ × Channel) → Option ℕ
vacant_id zero last channels = none
vacant_id (suc fuel) last channels = elim (lookup (next_id last) channels) [
  | none ↦ some (next_id last)
  | some taken ↦ vacant_id fuel (next_id last) channels
]

-- Both loops for a new number: one round more than there are channels is enough.
unfoldable pub new_channel_id : Encrypted → Outcome (Encrypted × ℕ)
new_channel_id enc = elim (vacant_id (length enc.channels + 1) enc.last_channel_id enc.channels) [
  | none ↦ stuck
  | some id ↦ ok (record enc { last_channel_id = id }, id)
]

abbrev pub unconfirmed : ℕ → ℕ → ℕ → Channel
unconfirmed id window_size maxpacket = record {
  recipient_channel = 0;
  sender_channel = id;
  recipient_window_size = 0;
  sender_window_size = window_size;
  recipient_maximum_packet_size = 0;
  sender_maximum_packet_size = maxpacket;
  confirmed = false;
  wants_reply = false;
}

unfoldable pub new_channel : Encrypted → ℕ → ℕ → Outcome (Encrypted × ℕ)
new_channel enc window_size maxpacket =
    elim (vacant_id (length enc.channels + 1) enc.last_channel_id enc.channels) [
      | none ↦ stuck
      | some id ↦ ok (
        record enc {
          last_channel_id = id;
          channels = insert id (unconfirmed id window_size maxpacket) enc.channels;
        },
        id,
      )
    ]

module _ ⦃e : Encoding⦄ where
  -- A message of one byte about an open channel; nothing for another.
  unfoldable pub byte : Encrypted → ℕ → ℕ → Encrypted
  byte enc id msg = elim (lookup id enc.channels) [
    | none ↦ enc
    | some ch ↦ record enc { write = push_packet enc.write (msg ∷ e.u32_be ch.recipient_channel) }
  ]

  unfoldable pub eof : Encrypted → ℕ → Encrypted
  unfolding byte
  eof enc id = byte enc id Msg.channel_eof

  -- What `adjust_window_size` does to the channel, and to the packets to be written.
  unfoldable pub adjust_channel : Channel → Bytes → ℕ → Channel
  adjust_channel ch data' target =
      let len = length data' % 2 ^ 32 in
      let size =
        if leb len ch.sender_window_size
        then ch.sender_window_size - len
        else ch.sender_window_size in
      if ltb size (target / 2)
      then record ch { sender_window_size = target }
      else record ch { sender_window_size = size }

  unfoldable pub adjust_packet : Channel → Bytes → ℕ → Bytes → Bytes
  adjust_packet ch data' target write =
      let len = length data' % 2 ^ 32 in
      let size =
        if leb len ch.sender_window_size
        then ch.sender_window_size - len
        else ch.sender_window_size in
      if ltb size (target / 2)
      then push_packet write
          (Msg.channel_window_adjust ∷ (e.u32_be ch.recipient_channel ++ e.u32_be (target - size)))
      else write

  unfoldable pub adjust_window_size : Encrypted → ℕ → Bytes → ℕ → Encrypted
  unfolding adjust_channel adjust_packet
  adjust_window_size enc id data' target = elim (lookup id enc.channels) [
    | none ↦ enc
    | some ch ↦ record enc {
      channels = insert id (adjust_channel ch data' target) enc.channels;
      write = adjust_packet ch data' target enc.write;
    }
  ]

  -- `CommonSession::encrypted`, with the time of the first keys.
  unfoldable pub encrypted : CommonSession → EncryptedState → NewKeys → ℕ → CommonSession
  encrypted s state newkeys now = elim s.encrypted [
    | some enc ↦ record s {
      encrypted = some (record enc {
        exchange = some newkeys.exchange;
        kex = newkeys.kex;
        key = newkeys.key;
        mac = newkeys.names.mac;
      });
      cipher = newkeys.cipher;
    }
    | none ↦ record s {
      encrypted = some (record {
        exchange = some newkeys.exchange;
        kex = newkeys.kex;
        key = newkeys.key;
        mac = newkeys.names.mac;
        session_id = newkeys.session_id;
        state = state;
        rekey = none;
        channels = [];
        last_channel_id = 1;
        wants_reply = false;
        write = [];
        write_cursor = 0;
        last_rekey = now;
      });
      cipher = newkeys.cipher;
    }
  ]

  -- The packet of a disconnection.
  unfoldable pub disconnect_packet : Disconnect → Bytes → Bytes → Bytes
  disconnect_packet reason description language_tag =
      Msg.disconnect
      ∷ (e.u32_be (reason_code reason) ++ (e.ssh_string description ++ e.ssh_string language_tag))

  unfoldable pub disconnect : CommonSession → Disconnect → Bytes → Bytes → CommonSession
  unfolding disconnect_packet
  disconnect s reason description language_tag =
      let packet = disconnect_packet reason description language_tag in
      let s' = record s { disconnected = true } in
      let sent : CommonSession = elim s.encrypted [
        | some enc ↦ record s' {
          encrypted = some (record enc { write = push_packet enc.write packet });
        }
        | none ↦ record s' {
          write_buffer = record s.write_buffer {
            buffer = push_packet s.write_buffer.buffer packet;
          };
        }
      ] in
      if s.disconnected then s else sent
