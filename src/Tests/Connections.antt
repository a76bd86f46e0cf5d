-- ===== src/Tests/Connections.antt =====
-- A whole connection of a server, from the identification line to the login.
use thrussh_fork.Base.{
  ℕ, ◌≡◌, refl, Option, none, some, List, [], ◌∷◌, ◌++◌, Bytes, codes, replicate, Outcome, ok,
}
use thrussh_fork.Auth.Methods.{method_names}
use thrussh_fork.Wire.{push_packet}
use thrussh_fork.Wire.Standard.{standard}
use thrussh_fork.Cipher.Keys.{padding_length, make_sealing_cipher, make_opening_cipher}
use thrussh_fork.Cipher.Packet.{new, write}
use thrussh_fork.Ident.{read_ssh_id}
use thrussh_fork.Negotiation.Select.{split, select_server}
use thrussh_fork.Session.Flush
use thrussh_fork.Session.Channels.{encrypted}
use thrussh_fork.Key.{push_pair_to}
use thrussh_fork.Dh.Algorithm.{server_dh, compute_exchange_hash, compute_keys}
use thrussh_fork.Server.Exchange.{kex_dh_parse}
use thrussh_fork.Server.Kex.{server_parse}
use thrussh_fork.Server.Flush.{server_flush}
use thrussh_fork.Server.Login.{auth_request, server_accept_service}
use thrussh_fork.Server.Requests.{server_read_auth_request, finish_password}
use thrussh_fork.Negotiation.ReadKex.{write_kex, read_kex}
use thrussh_fork.Session.State.{CommonSession, default_limits}
use thrussh_fork.Server.Reply.{World, server_reply}
use thrussh_fork.Server.Loop.{Running, packet, server_round}
use thrussh_fork.Server.Encrypted.{LoginConfig, server_read_encrypted}
use thrussh_fork.Server.Connection.{Round, run_stream}
use thrussh_fork.Rounds.{Progress, waiting, latest}
use thrussh_fork.Server.Admission.{Admits}
use thrussh_fork.Server.Admission.Whole as Whole
use thrussh_fork.Server.Admission.Whole.{run_stream-Admits}
use thrussh_fork.Server.Refused.{IsShut}
use thrussh_fork.Server.Refused.Rounds as Refused
use thrussh_fork.Server.Refused.Rounds.{run_stream-IsShut}
use thrussh_fork.Tests.Toy.{toy}
use thrussh_fork.Tests.Keys.{toy_crate}
use thrussh_fork.Tests.Exchanges.{toy_curve}
use thrussh_fork.Tests.Logins.{toy_keys, doorkeeper, password_packet}
use thrussh_fork.Tests.Ends.{preferred, talking}
use thrussh_fork.Tests.Sessions.{one}
use thrussh_fork.Tests.Joint.{host_key}

abbrev login : LoginConfig
login = record {
  auth_banner = none;
  methods = 31;
  key_exchange = record { preferred = preferred; key_names = codes "ssh-ed25519" ∷ [] };
}

abbrev nothing : CommonSession → ℕ → Bytes → Outcome (CommonSession × ℕ)
nothing s n buf = ok (s, n)

-- A round that a packet begins.
abbrev round : Bytes → Round
round payload = record {
  input = packet (record {
    result = ok 0;
    buf = record new { buffer = 0 ∷ 0 ∷ 0 ∷ 0 ∷ 0 ∷ payload };
    stream = [];
  });
  world = record { cookie = some (replicate 16 7); secret = some (5 ∷ []); now = 0 };
  clock = λ n. 0;
  cookie = none;
}

abbrev rounds : List Round
unfolding write_kex
rounds =
    round (write_kex (replicate 16 9) preferred [])
    ∷ round (30 ∷ standard.ssh_string (replicate 32 3))
    ∷ round (21 ∷ [])
    ∷ round (5 ∷ standard.ssh_string (codes "ssh-userauth"))
    ∷ round password_packet
    ∷ []

abbrev line : Option (List Bytes)
line = some ((codes "SSH-2.0-client" ++ (13 ∷ 10 ∷ [])) ∷ [])

abbrev answer : World → CommonSession → ℕ → Bytes → Outcome (CommonSession × ℕ)
answer = Whole.reply (host_key ∷ []) toy_keys doorkeeper nothing login default_limits

abbrev flush : (ℕ → ℕ) → Option Bytes → CommonSession → Outcome CommonSession
flush = Whole.flushed (host_key ∷ []) toy_keys doorkeeper nothing login default_limits

-- The connection after the rounds.
abbrev connection : List Round → Outcome (Progress (Running ℕ))
connection played =
    run_stream answer flush (λ n. 0) (some (replicate 16 7)) login.key_exchange
      (codes "SSH-2.0-server") line 0 played

abbrev or_else : Outcome (Progress (Running ℕ)) → Progress (Running ℕ)
or_else (ok p) = p
or_else m = waiting (record {
  session = talking one;
  handler = 0;
  data_queue = [];
  extended_data_queue = [];
  buffer = new;
  written = [];
})

run_stream-Admits_example :
    (before after : List Round) × (x : Round) × (r : Running ℕ) × (rounds ≡ before ++ (x ∷ after))
    × (connection before ≡ ok (waiting r))
    × Admits toy_keys doorkeeper answer flush r x
unfolding run_stream read_ssh_id write write_kex padding_length server_flush server_round
    server_reply server_parse read_kex select_server split kex_dh_parse server_dh
    compute_exchange_hash push_pair_to compute_keys encrypted Flush.flush server_read_encrypted
    server_read_auth_request finish_password auth_request Flush.finish_flush server_accept_service
    push_packet make_sealing_cipher make_opening_cipher
run_stream-Admits_example =
    run_stream-Admits (host_key ∷ []) toy_keys doorkeeper nothing login default_limits (λ n. 0)
      (some (replicate 16 7)) (codes "SSH-2.0-server") line 0 rounds (or_else (connection rounds))
      refl refl

-- The same rounds with a handler that keeps the default methods.
abbrev refused : Outcome (Progress (Running ℕ))
refused =
    run_stream (Refused.reply toy_keys nothing login (host_key ∷ []) default_limits)
      (Refused.flushed toy_keys nothing login (host_key ∷ []) default_limits) (λ n. 0)
      (some (replicate 16 7)) login.key_exchange (codes "SSH-2.0-server") line 0 rounds

run_stream-IsShut_example : IsShut (latest (or_else refused)).session
unfolding run_stream read_ssh_id write write_kex padding_length server_flush server_round
    server_reply server_parse read_kex select_server split kex_dh_parse server_dh
    compute_exchange_hash push_pair_to compute_keys encrypted Flush.flush server_read_encrypted
    server_read_auth_request finish_password auth_request Flush.finish_flush server_accept_service
    push_packet make_sealing_cipher make_opening_cipher method_names
run_stream-IsShut_example =
    run_stream-IsShut toy_keys nothing login (host_key ∷ []) default_limits (λ n. 0)
      (some (replicate 16 7)) (codes "SSH-2.0-server") line 0 rounds (or_else refused) refl
