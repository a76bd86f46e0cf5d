-- ===== src/Tests/Joint.antt =====
-- Concrete instances of the theorems on key exchange, login and the opening of channels.
use thrussh_fork.Base.{
  ℕ, ◌+◌, ◌≡◌, refl, Bool, true, false, Option, none, some, List, [], ◌∷◌, ◌++◌, Bytes, codes,
  length, replicate, bytes_eq, drop, ok, ◌>>=◌, arith, Outcome, err, kex,
}
use thrussh_fork.Base.Assoc.{lookup, insert}
use thrussh_fork.Base.Every.{Every}
use thrussh_fork.Protocol.Msg
use thrussh_fork.Wire.Frames.{frame}
use thrussh_fork.Wire.Standard.{standard, standard-IsEncoding}
use thrussh_fork.Cipher.Keys.{
  clear_pair, decrypt_packet_length, make_sealing_cipher, make_opening_cipher, padding_length,
}
use thrussh_fork.Cipher.Packet.{new, read, write}
use thrussh_fork.Negotiation.ReadKex.{Names, curve25519, chacha20_poly1305, read_kex}
use thrussh_fork.Auth.Methods.{AuthRequest}
use thrussh_fork.Session.State.{
  Encrypted, CommonSession, KexInit, KexDh, Exchange, new_exchange, waiting_auth_request,
  authenticated,
}
use thrussh_fork.Session.Channels.{new_channel, new_channel_id, vacant_id, unconfirmed}
use thrussh_fork.Key.{PublicKey, KeyPair, ed25519_pair, push_to, push_pair_to}
use thrussh_fork.Key.Blobs.{public, blob, push_to-blob}
use thrussh_fork.Client.Exchange.{server_key_check, read_signature}
use thrussh_fork.Dh.Algorithm.{compute_shared_secret, compute_exchange_hash, compute_keys}
use thrussh_fork.Client.Trust.{Checked, server_key_check-Checked}
use thrussh_fork.Server.Login.{Keys, parsed, grant_access}
use thrussh_fork.Server.Requests.{server_read_auth_request}
use thrussh_fork.Client.State.{password, auth_success}
use thrussh_fork.Client.Login.{auth_packet, with_enc, client_send_signature}
use thrussh_fork.Client.Messages.{client_read_encrypted}
use thrussh_fork.Ends.Exchange.{Exchanged, exchange_completes}
use thrussh_fork.Ends.Halves.{started}
use thrussh_fork.Ends.Login.{password_login, key_login, signed_bytes}
use thrussh_fork.Ends.Openings
use thrussh_fork.Ends.Opens.{Opened, channel_confirmed}
use thrussh_fork.Rounds.{turned}
use thrussh_fork.Server.Loop.{Running, packet, finish_round, server_round, drain}
use thrussh_fork.Server.Tampered.{tampered_packet_handled}
use thrussh_fork.Server.Queues.{IsRest, drain-IsRest}
use thrussh_fork.Client.Kex.{client_rekey}
use thrussh_fork.Client.Rekey.{client_rekey_fails}
use thrussh_fork.Negotiation.Select.{select_client}
use thrussh_fork.Tests.Packets.{server_keys, seven}
use thrussh_fork.Tests.Toy.{toy, toy-IsSodium}
use thrussh_fork.Tests.Keys.{toy_is_pair, toy_crate, toy_crate-IsKeyCrate}
use thrussh_fork.Tests.Exchanges.{toy_curve, toy-IsCurve, toy-IsDigest}
use thrussh_fork.Tests.Sessions.{one, with_channels}
use thrussh_fork.Tests.Logins.{toy_keys, doorkeeper, probed, waiting}
use thrussh_fork.Tests.Ends.{
  talking, at_client, recorder, listener, settings, own_settings, world, preferred,
}

abbrev pub host_key : KeyPair
host_key = ed25519_pair (replicate 64 7)

abbrev chosen : Names
chosen = record {
  kex = curve25519;
  key = codes "ssh-ed25519";
  cipher = chacha20_poly1305;
  mac = none;
  ignore_guessed = false;
}

abbrev greetings : Exchange
greetings = record new_exchange { client_id = codes "client"; server_id = codes "server" }

abbrev begun : KexInit
begun = record { algo = none; exchange = greetings; session_id = none; sent = true }

abbrev awaiting : KexDh
awaiting = record { exchange = greetings; names = chosen; key = 0; session_id = none }

-- The client trusts every key, and counts them.
abbrev trusting : ℕ → PublicKey → Option (ℕ × Bool)
trusting n key = some (n + 1, true)

exchange_completes_example :
    Exchanged trusting
      (talking one)
      0
      1
      (3 ∷ [])
      (5 ∷ [])
      begun
      chosen
      awaiting
      (host_key ∷ [])
      clear_pair
      new
      new
exchange_completes_example =
    exchange_completes standard-IsEncoding toy-IsSodium toy-IsCurve toy-IsDigest
      toy_crate-IsKeyCrate trusting (talking one) 0 1 (3 ∷ []) (5 ∷ []) begun chosen awaiting
      (host_key ∷ []) host_key clear_pair new new refl (toy_is_pair host_key) refl (omega arith)
      (omega arith) refl refl refl refl refl refl refl refl

-- What the server answers: its key, its point, and the signature of a hash of 32 bytes.
abbrev reply_packet : Bytes
reply_packet =
    31
    ∷ (standard.ssh_string (blob (public host_key))
        ++ (standard.ssh_string (replicate 32 5)
            ++ standard.ssh_string
                (standard.ssh_string (codes "ssh-ed25519") ++ standard.ssh_string (32 ∷ []))))

abbrev keyed : Outcome (CommonSession × ℕ)
keyed = server_key_check trusting (talking one) 0 (started begun chosen (3 ∷ [])) reply_packet

-- The session of no key that was taken has another number at its handler.
abbrev outcome : Outcome (CommonSession × ℕ) → CommonSession × ℕ
outcome (ok r) = r
outcome m = (talking one, 9)

-- The reply is taken: the theorem says something of a session.
server_key_check-Checked_example :
    Checked trusting 0 (started begun chosen (3 ∷ [])) reply_packet (outcome keyed)
unfolding server_key_check read_signature compute_exchange_hash compute_shared_secret compute_keys
    make_sealing_cipher make_opening_cipher write padding_length
server_key_check-Checked_example =
    server_key_check-Checked trusting (talking one) 0 (started begun chosen (3 ∷ [])) reply_packet

push_to-blob_example :
    (push_pair_to host_key ≡ push_to (public host_key))
    × (push_to (public host_key) ≡ standard.ssh_string (blob (public host_key)))
push_to-blob_example = push_to-blob standard-IsEncoding toy_crate-IsKeyCrate host_key (omega arith)

abbrev asking : AuthRequest
asking = record { methods = 31; partial_success = false; current = none; rejection_count = 0 }

abbrev logging_in : Encrypted
logging_in = record waiting { state = waiting_auth_request asking }

password_login_example :
    (server_read_auth_request toy_keys doorkeeper logging_in 0
        (auth_packet (codes "alice") (password (codes "secret")))
        []
      ≡ ok (record {
        enc = record logging_in {
          write = [] ++ frame (Msg.userauth_success ∷ []);
          state = authenticated;
        };
        auth_user = codes "alice";
        handler = 1;
      }))
    × (client_read_encrypted listener own_settings world
          (at_client (talking logging_in))
          []
          (Msg.userauth_success ∷ [])
        ≡ ok (
          with_enc
              (record (at_client (talking logging_in)) { sender = auth_success ∷ [] })
              (record logging_in { state = authenticated }),
          [],
        ))
password_login_example =
    password_login standard-IsEncoding toy_keys doorkeeper listener own_settings world logging_in
      logging_in asking asking 0 1 [] (codes "alice") (codes "secret") []
      (at_client (talking logging_in)) refl refl (omega arith, refl) (omega arith, refl) refl refl
      refl

-- The client's side once the channel is asked for.
abbrev unheard : Encrypted
unheard = record (with_channels []) {
  last_channel_id = 2;
  channels = (2, unconfirmed 2 3000 300) ∷ [];
}

channel_confirmed_example :
    Opened recorder settings listener own_settings Openings.session 2 2
      (talking (with_channels []))
      (talking (with_channels []))
      (at_client (talking unheard))
      unheard
      unheard
      (record (with_channels []) { last_channel_id = 2 })
      (unconfirmed 2 3000 300)
      []
      []
unfolding lookup insert new_channel new_channel_id vacant_id
channel_confirmed_example =
    channel_confirmed standard-IsEncoding recorder settings listener own_settings Openings.session 2
      2 (talking (with_channels [])) (talking (with_channels [])) (at_client (talking unheard))
      (with_channels []) unheard unheard (with_channels [])
      (record (with_channels []) { last_channel_id = 2 }) (unconfirmed 2 3000 300) [] [] refl refl
      refl refl refl refl refl tt (omega arith) (omega arith) (omega arith) (omega arith)
      (omega arith) (omega arith)

-- A key is its bytes, and a signature is the length of what is signed.
abbrev keys : Keys Bytes
keys = record { parse = λ algo k. parsed k; verify = λ k text sig. bytes_eq sig (length text ∷ []) }

abbrev raw : Bytes
raw = length (signed_bytes standard-IsEncoding waiting (codes "alice") host_key) ∷ []

key_login_example :
    (sent : Encrypted) × (buffer p : Bytes) × (client_send_signature waiting
        (codes "alice")
        host_key
      ≡ ok (sent, buffer))
    × (sent.write ≡ [] ++ frame p)
    × (server_read_auth_request keys doorkeeper waiting 0 p (codes "alice")
        ≡ ok (record { enc = grant_access waiting; auth_user = codes "alice"; handler = 0 }))
key_login_example =
    key_login standard-IsEncoding toy_crate-IsKeyCrate keys doorkeeper waiting waiting probed 0
      (codes "alice") (codes "alice's key") (codes "ssh-ed25519") raw host_key
      (blob (public host_key)) refl refl refl refl refl refl (omega arith, refl) (omega arith)
      (omega arith) (omega arith) (omega arith)

abbrev running : Running (List Bytes)
running = record {
  session = talking one;
  handler = [];
  data_queue = [];
  extended_data_queue = [];
  buffer = seven;
  written = [];
}

-- It remembers what it was given.
abbrev remember : CommonSession → List Bytes → Bytes → Outcome (CommonSession × List Bytes)
remember s h buf = ok (s, buf ∷ h)

abbrev forged : Bytes
forged = (1 ∷ 1 ∷ 1 ∷ 9 ∷ []) ++ ((9 ∷ 9 ∷ 9 ∷ 9 ∷ 9 ∷ 9 ∷ 9 ∷ 9 ∷ []) ++ replicate 16 0)

tampered_packet_handled_example :
    server_round remember ok
      (packet (
        read server_keys seven (
          (1 ∷ 1 ∷ 1 ∷ 9 ∷ [])
          ++ (((9 ∷ 9 ∷ 9 ∷ 9 ∷ 9 ∷ 9 ∷ 9 ∷ 9 ∷ []) ++ replicate 16 0) ++ (1 ∷ [])))))
      running
    ≡ (remember (talking one) [] (drop 5 forged) >>= λ (a : CommonSession × List Bytes).
        finish_round remember ok (record running {
          session = a.0;
          handler = a.1;
          buffer = record seven { buffer = forged };
        })
        >>= λ r'. ok (turned r'))
unfolding decrypt_packet_length
tampered_packet_handled_example =
    tampered_packet_handled remember ok running server_keys (1 ∷ 2 ∷ []) (3 ∷ 4 ∷ [])
      (1 ∷ 1 ∷ 1 ∷ 9 ∷ []) (9 ∷ 9 ∷ 9 ∷ 9 ∷ 9 ∷ 9 ∷ 9 ∷ 9 ∷ []) (replicate 16 0) (1 ∷ []) 9 refl
      refl refl refl refl refl (omega arith)

-- More than the window of the channel takes, and one more item for the same channel.
abbrev waiting_data : List (ℕ × Bytes)
waiting_data = (2, codes "hello, world") ∷ (2, codes "again") ∷ []

drain-IsRest_example : Every (IsRest (talking one) waiting_data) (drain (talking one) waiting_data)
drain-IsRest_example = drain-IsRest (talking one) waiting_data

abbrev rekeying : Encrypted
rekeying = record one { exchange = some new_exchange }

client_rekey_fails_example :
    client_rekey none none preferred (talking rekeying) rekeying (20 ∷ [])
    ≡ (read_kex select_client (20 ∷ []) preferred >>= λ names. err kex)
client_rekey_fails_example =
    client_rekey_fails none none preferred (talking rekeying) rekeying (20 ∷ []) new_exchange refl
