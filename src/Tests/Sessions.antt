-- ===== src/Tests/Sessions.antt =====
-- Concrete instances of the theorems on channels and on what is flushed.
use thrussh_fork.Base.{
  ℕ, ◌+◌, ◌^◌, ◌<◌, ◌≤◌, ◌≡◌, ◌⊎◌, refl, true, false, none, some, List, [], ◌∷◌, Bytes, take, ◌==◌,
  if◌then◌else◌, map, ok, stuck, ◌>>=◌, codes, arith,
}
use thrussh_fork.Base.Assoc.{lookup, insert}
use thrussh_fork.Wire.Frames.{frame, frames}
use thrussh_fork.Wire.Standard.{standard, standard-IsEncoding}
use thrussh_fork.Cipher.Keys.{clear_pair}
use thrussh_fork.Cipher.Packet.{new}
use thrussh_fork.Session.State.{Channel, Encrypted, authenticated, default_limits}
use thrussh_fork.Session.Channels.{new_channel, unconfirmed, adjust_window_size}
use thrussh_fork.Session.Numbers.{new_channel_opens}
use thrussh_fork.Session.Windows.{grant, adjust_window_size_grants}
use thrussh_fork.Session.Data.{data_header, data_packet, send_data}
use thrussh_fork.Session.DataLaws.{Pieces, send_data_sends, send_data_never_ends}
use thrussh_fork.Session.Flush.{flush}
use thrussh_fork.Session.FlushLaws.{write_all, flush-frames}
use thrussh_fork.Tests.Toy.{toy}

-- The other side takes packets of three bytes, and seven bytes in all.
abbrev pub narrow : Channel
narrow = record {
  recipient_channel = 9;
  sender_channel = 2;
  recipient_window_size = 7;
  sender_window_size = 10;
  recipient_maximum_packet_size = 3;
  sender_maximum_packet_size = 100;
  confirmed = true;
  wants_reply = true;
}

abbrev closed : Channel
closed = record narrow { recipient_maximum_packet_size = 0 }

abbrev pub with_channels : List (ℕ × Channel) → Encrypted
with_channels channels = record {
  state = authenticated;
  exchange = none;
  kex = record { local_secret = none; shared_secret = none };
  key = 0;
  mac = none;
  session_id = [];
  rekey = none;
  channels = channels;
  last_channel_id = 1;
  wants_reply = false;
  write = [];
  write_cursor = 0;
  last_rekey = 100;
}

abbrev pub one : Encrypted
one = with_channels ((2, narrow) ∷ [])

abbrev text : Bytes
text = codes "hello, world"

send_data_sends_example :
    (cs : List Bytes) × Pieces 3 (take 7 text) cs
    × (send_data 12 one 2 data_header text
        ≡ ok (
          record one {
            channels = insert 2 (record narrow { recipient_window_size = 0 }) one.channels;
            write = frames (map (data_packet (data_header narrow)) cs);
          },
          7,
        ))
unfolding lookup
send_data_sends_example =
    send_data_sends 12 one 2 data_header text narrow refl refl (omega arith) (omega arith)
      (omega arith)

send_data_never_ends_example :
    send_data 1000 (with_channels ((2, closed) ∷ [])) 2 data_header text ≡ stuck
unfolding lookup
send_data_never_ends_example =
    send_data_never_ends 1000 (with_channels ((2, closed) ∷ [])) 2 data_header text closed refl refl
      refl (omega arith) (omega arith) (omega arith)

adjust_window_size_grants_example :
    let enc' = adjust_window_size one 2 (codes "data") 16 in
    (window : ℕ) × ((j : ℕ)
      → lookup j enc'.channels ≡ (
          if 2 == j
          then some (record narrow { sender_window_size = window })
          else lookup j one.channels))
    × (8 ≤ window)
    × (((window ≡ 6) × (enc'.write ≡ []))
        ⊎ ((window ≡ 16) × (6 < 16) × (enc'.write ≡ frame (grant narrow 10))))
unfolding lookup
adjust_window_size_grants_example =
    adjust_window_size_grants one 2 (codes "data") 16 narrow refl (omega arith) (omega arith)

new_channel_opens_example :
    (enc' : Encrypted) × (id : ℕ) × (new_channel one 64 32 ≡ ok (enc', id))
    × (lookup id one.channels ≡ none)
    × (id < 2 ^ 32)
    × (enc'.write ≡ one.write)
    × ((j : ℕ)
        → lookup j enc'.channels
          ≡ (if id == j then some (unconfirmed id 64 32) else lookup j one.channels))
new_channel_opens_example = new_channel_opens one 64 32 (omega arith)

abbrev waiting : Encrypted
waiting = record one { write = frames ((5 ∷ 6 ∷ []) ∷ (7 ∷ []) ∷ []) }

flush-frames_example : flush (λ i. 100 + 60) default_limits clear_pair waiting new ≡ (
    write_all clear_pair ((5 ∷ 6 ∷ []) ∷ (7 ∷ []) ∷ []) new >>= λ wb'.
    ok (false, record waiting { write = []; write_cursor = 0 }, wb'))
flush-frames_example =
    flush-frames standard-IsEncoding (λ i. 100 + 60) default_limits clear_pair waiting
      ((5 ∷ 6 ∷ []) ∷ (7 ∷ []) ∷ []) new refl refl (omega arith) (λ k. omega arith)
      (omega arith, (omega arith, tt))
