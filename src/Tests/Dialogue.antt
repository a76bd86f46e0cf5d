-- ===== src/Tests/Dialogue.antt =====
-- A whole connection of a client, from the identification line to the first keys.
use thrussh_fork.Base.{◌≡◌, refl, some, List, [], ◌∷◌, ◌++◌, Bytes, codes, replicate, Outcome, ok}
use thrussh_fork.Wire.{push_packet}
use thrussh_fork.Wire.Standard.{standard}
use thrussh_fork.Cipher.Keys.{padding_length, make_sealing_cipher, make_opening_cipher}
use thrussh_fork.Cipher.Packet.{new, write}
use thrussh_fork.Ident.{read_ssh_id}
use thrussh_fork.Negotiation.Select.{split, select_client}
use thrussh_fork.Negotiation.ReadKex.{write_kex, read_kex}
use thrussh_fork.Session.Flush
use thrussh_fork.Session.Channels.{encrypted}
use thrussh_fork.Dh.Algorithm.{
  client_dh, compute_exchange_hash, compute_shared_secret, compute_keys,
}
use thrussh_fork.Client.Kex.{client_parse, client_flush, start_dh}
use thrussh_fork.Client.Exchange.{server_key_check}
use thrussh_fork.Client.Reply.{client_reply}
use thrussh_fork.Key.{push_to}
use thrussh_fork.Key.Blobs.{public}
use thrussh_fork.Rounds.{Progress, waiting}
use thrussh_fork.Client.State as Client
use thrussh_fork.Server.Loop.{inspect}
use thrussh_fork.Client.Loop.{Running, packet, client_round}
use thrussh_fork.Client.Connection.{ClientRound, connect_stream}
use thrussh_fork.Client.Faith.Whole as Whole
use thrussh_fork.Client.Faith.Whole.{Convinces, connect_stream-Convinces}
use thrussh_fork.Tests.Toy.{toy}
use thrussh_fork.Tests.Keys.{toy_crate}
use thrussh_fork.Tests.Exchanges.{toy_curve}
use thrussh_fork.Tests.Ends.{talking, at_client, preferred, listener, own_settings}
use thrussh_fork.Tests.Sessions.{one}
use thrussh_fork.Tests.Joint.{host_key}

abbrev random : Client.World
random = record { cookie = some (replicate 16 9); secret = some (3 ∷ []); clock = λ n. 0 }

-- A round that a packet begins.
abbrev round : Bytes → ClientRound
round payload = record {
  input = packet (record {
    result = ok 0;
    buf = record new { buffer = 0 ∷ 0 ∷ 0 ∷ 0 ∷ 0 ∷ payload };
    stream = [];
  });
  queued = [];
  world = random;
  flush_world = random;
}

abbrev signature : Bytes
signature = standard.ssh_string (codes "ssh-ed25519") ++ standard.ssh_string (32 ∷ [])

abbrev rounds : List ClientRound
unfolding write_kex push_to
rounds =
    round (write_kex (replicate 16 7) preferred [])
    ∷ round (
        31
        ∷ (push_to (public host_key)
            ++ (standard.ssh_string (replicate 32 5) ++ standard.ssh_string signature)))
    ∷ round (21 ∷ [])
    ∷ []

abbrev connection : List ClientRound → Outcome (Progress (Running (List Client.Event)))
connection played =
    connect_stream own_settings (Whole.reply listener own_settings)
      (Whole.flushed listener own_settings) random ((codes "SSH-2.0-server" ++ (13 ∷ 10 ∷ [])) ∷ [])
      [] played

abbrev or_else :
    Outcome (Progress (Running (List Client.Event))) → Progress (Running (List Client.Event))
or_else (ok p) = p
or_else m =
    waiting (record { session = at_client (talking one); handler = []; buffer = new; written = [] })

connect_stream-Convinces_example :
    (before after : List ClientRound) × (x : ClientRound) × (r : Running (List Client.Event))
    × (rounds ≡ before ++ (x ∷ after))
    × (connection before ≡ ok (waiting r))
    × Convinces listener own_settings r x
unfolding connect_stream read_ssh_id write write_kex push_to padding_length client_flush
    client_round client_reply client_parse read_kex select_client split client_dh start_dh
    server_key_check compute_exchange_hash compute_shared_secret compute_keys make_sealing_cipher
    make_opening_cipher encrypted Flush.flush Flush.finish_flush push_packet inspect
connect_stream-Convinces_example =
    connect_stream-Convinces listener own_settings random
      ((codes "SSH-2.0-server" ++ (13 ∷ 10 ∷ [])) ∷ []) [] rounds (or_else (connection rounds)) refl
      (λ q. cc)
