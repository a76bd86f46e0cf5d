-- ===== src/Tests/Ends.antt =====
-- Concrete instances of the theorems on both ends together.
use thrussh_fork.Base.{
  ◌≡◌, refl, true, false, none, some, List, [], ◌∷◌, ◌++◌, codes, ok, err, foreign, inconsistent,
  arith,
}
use thrussh_fork.Base.Assoc.{lookup}
use thrussh_fork.Protocol.Msg
use thrussh_fork.Protocol.Names.{hup, name}
use thrussh_fork.Wire.Frames.{frame}
use thrussh_fork.Wire.Standard.{standard, standard-IsEncoding}
use thrussh_fork.Cipher.Keys.{clear_pair}
use thrussh_fork.Cipher.Packet.{new, ReadResult}
use thrussh_fork.Negotiation.ReadKex.{Preferred, curve25519, chacha20_poly1305}
use thrussh_fork.Session.State.{Encrypted, CommonSession, default_limits, waiting_service_request}
use thrussh_fork.Server.Channels.Events as Server
use thrussh_fork.Server.Channels.Events.{ChannelHandler, ChannelConfig}
use thrussh_fork.Server.Channels.Dispatch.{server_read_authenticated}
use thrussh_fork.Client.Senders.{signal_packet, mode_bytes}
use thrussh_fork.Server.Channels.Modes.{read_modes}
use thrussh_fork.Ends.Modes.{read_modes-mode_bytes}
use thrussh_fork.Protocol.Pty.{vintr}
use thrussh_fork.Client.State as Client
use thrussh_fork.Client.State.{Session, Config, World, Handler, password}
use thrussh_fork.Client.Login.{client_deliver, write_auth_request_if_needed}
use thrussh_fork.Client.Messages.{client_read_authenticated}
use thrussh_fork.Client.Reply.{client_reply}
use thrussh_fork.Client.Loop.{Running, packet, client_round}
use thrussh_fork.Client.Late.{asked, late_login_fails}
use thrussh_fork.Ends.Reports as Reports
use thrussh_fork.Ends.Reports.{report_heard}
use thrussh_fork.Ends.Signals.{signal_fails}
use thrussh_fork.Tests.Toy.{toy}
use thrussh_fork.Tests.Keys.{toy_crate}
use thrussh_fork.Tests.Exchanges.{toy_curve}
use thrussh_fork.Tests.Sessions.{narrow, one}

abbrev pub talking : Encrypted → CommonSession
talking enc = record {
  auth_user = [];
  encrypted = some enc;
  write_buffer = new;
  kex = none;
  cipher = clear_pair;
  wants_reply = false;
  disconnected = false;
  buffer = [];
}

abbrev pub at_client : CommonSession → Session
at_client s = record {
  common = s;
  auth_method = none;
  receiver = [];
  sender = [];
  sender_open = true;
  channels = [];
}

-- Handlers that remember how they were called.
abbrev pub recorder : ChannelHandler (List Server.Event)
recorder = record { call = λ ev h s. some (ev ∷ h, s); forward = λ f h s. some (h, s, true) }

abbrev pub listener : Handler (List Client.Event)
listener = record { call = λ ev h s. some (ev ∷ h, s); check_server_key = λ h key. some (h, true) }

abbrev pub preferred : Preferred
preferred = record {
  kex = curve25519 ∷ [];
  key = codes "ssh-ed25519" ∷ [];
  cipher = chacha20_poly1305 ∷ [];
  mac = [];
  compression = [];
}

abbrev pub settings : ChannelConfig
settings = record {
  window_size = 2000;
  maximum_packet_size = 100;
  limits = default_limits;
  key_exchange = record { preferred = preferred; key_names = codes "ssh-ed25519" ∷ [] };
  clock = λ n. n;
  cookie = none;
}

abbrev pub own_settings : Config
own_settings = record {
  client_id = codes "SSH-2.0-client";
  limits = default_limits;
  window_size = 3000;
  maximum_packet_size = 300;
  preferred = preferred;
}

abbrev pub world : World
world = record { cookie = none; secret = none; clock = λ n. n }

report_heard_example :
    (Reports.report (Reports.status 1) (talking one) 2
      ≡ ok (record (talking one) {
        encrypted = some (record one { write = [] ++ frame (Reports.packet 9 (Reports.status 1)) });
      }))
    × (client_read_authenticated listener own_settings
          (at_client (talking one))
          []
          (Reports.packet 9 (Reports.status 1))
        ≡ client_deliver listener (Reports.event 9 (Reports.status 1)) (at_client (talking one)) [])
unfolding lookup
report_heard_example =
    report_heard standard-IsEncoding listener own_settings (Reports.status 1) 2 (talking one) one
      narrow (at_client (talking one)) [] refl refl refl (omega arith) (omega arith)

signal_fails_example :
    server_read_authenticated recorder settings (talking one) [] (signal_packet 9 hup) ≡ foreign
unfolding name
signal_fails_example =
    signal_fails standard-IsEncoding recorder settings 9 hup 72 (codes "UP") (talking one) []
      (omega arith) refl (omega arith) (omega arith)

abbrev too_late : Encrypted
too_late = record one { state = waiting_service_request true }

abbrev answered : Running (List Client.Event)
answered = record {
  session = at_client (talking too_late);
  handler = [];
  buffer = new;
  written = [];
}

-- The success of the login, as `read` leaves it.
abbrev success : ReadResult
success = record {
  result = ok 6;
  buf = record new { buffer = 0 ∷ 0 ∷ 0 ∷ 12 ∷ 10 ∷ Msg.userauth_success ∷ [] };
  stream = [];
}

late_login_fails_example :
    (write_auth_request_if_needed
        (at_client (talking too_late))
        (codes "alice")
        (password (codes "secret"))
      ≡ asked (at_client (talking too_late)) too_late (codes "alice") (password (codes "secret")))
    × (client_round own_settings
          (λ s h buf. client_reply listener own_settings world s h buf)
          ok
          (packet success)
          (record answered {
            session =
                write_auth_request_if_needed
                  (at_client (talking too_late))
                  (codes "alice")
                  (password (codes "secret"));
          })
        ≡ err inconsistent)
late_login_fails_example =
    late_login_fails listener own_settings world ok answered too_late (codes "alice")
      (password (codes "secret")) success 0 0 0 12 10 Msg.userauth_success [] refl refl refl refl
      refl (omega arith) (omega arith) (omega arith)

read_modes-mode_bytes_example : read_modes 129 (mode_bytes ((vintr, 3) ∷ [])) ≡ ok ((vintr, 3) ∷ [])
read_modes-mode_bytes_example =
    read_modes-mode_bytes standard-IsEncoding ((vintr, 3) ∷ []) 129 (((λ p. cc), omega arith), tt)
      (omega arith)
