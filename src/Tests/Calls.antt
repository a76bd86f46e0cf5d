-- ===== src/Tests/Calls.antt =====
-- A concrete instance of the theorem on what a server pushes.
use thrussh_fork.Base.{refl, true, false, none, some, List, [], ◌∷◌, codes, Outcome, ok}
use thrussh_fork.Base.Assoc.{lookup, insert}
use thrussh_fork.Wire.Standard.{standard}
use thrussh_fork.Cipher.Keys.{clear_pair}
use thrussh_fork.Cipher.Packet.{new}
use thrussh_fork.Session.State.{Channel, CommonSession, authenticated}
use thrussh_fork.Session.Data.{send}
use thrussh_fork.Server.Senders.{exit_status_request, data_on, close}
use thrussh_fork.Server.Commands.{
  Command, do_data, do_exit_status_request, do_close, run_all, IsFramed,
}
use thrussh_fork.Server.Pending.{run_all-IsFramed}

abbrev open_channel : Channel
open_channel = record {
  recipient_channel = 9;
  sender_channel = 2;
  recipient_window_size = 7;
  sender_window_size = 10;
  recipient_maximum_packet_size = 3;
  sender_maximum_packet_size = 100;
  confirmed = true;
  wants_reply = true;
}

abbrev session : CommonSession
session = record {
  auth_user = codes "root";
  encrypted = some (record {
    state = authenticated;
    exchange = none;
    kex = record { local_secret = none; shared_secret = none };
    key = 0;
    mac = none;
    session_id = [];
    rekey = none;
    channels = (2, open_channel) ∷ [];
    last_channel_id = 2;
    wants_reply = false;
    write = [];
    write_cursor = 0;
    last_rekey = 0;
  });
  write_buffer = new;
  kex = none;
  cipher = clear_pair;
  wants_reply = false;
  disconnected = false;
  buffer = [];
}

-- The output of a program, its exit status, and the end of the channel.
abbrev ending : List Command
ending = do_data 2 (codes "bye") ∷ do_exit_status_request 2 0 ∷ do_close 2 ∷ []

abbrev finished : Outcome CommonSession → CommonSession
finished (ok s) = s
finished _ = session

abbrev ended : CommonSession
unfolding run_all
ended = finished (run_all ending session)

run_all-IsFramed_example : IsFramed ended.encrypted
unfolding run_all data_on send lookup exit_status_request insert close
run_all-IsFramed_example = run_all-IsFramed ending session ended ([], refl) refl
