-- ===== src/Tests/Logins.antt =====
-- Concrete instances of the theorems on authentication.
use thrussh_fork.Base.{
  ℕ, ◌+◌, ◌≡◌, refl, true, false, none, some, [], ◌∷◌, ◌++◌, Bytes, codes, bytes_eq, if◌then◌else◌,
  ok, arith,
}
use thrussh_fork.Wire.Standard.{standard, standard-IsEncoding}
use thrussh_fork.Cipher.Keys.{clear_pair}
use thrussh_fork.Cipher.Packet.{new}
use thrussh_fork.Auth.Methods.{AuthRequest, publickey_request}
use thrussh_fork.Negotiation.ReadKex.{default}
use thrussh_fork.Session.State.{Encrypted, CommonSession, waiting_auth_request, new_exchange}
use thrussh_fork.Server.Login.{reject, accept, parsed, Keys, Handler, grant_access, auth_request}
use thrussh_fork.Server.Requests.{server_read_auth_request, finish_password}
use thrussh_fork.Server.Encrypted.{LoginConfig, server_read_encrypted}
use thrussh_fork.Server.Granted.{Granted}
use thrussh_fork.Server.Guarded.{unauthenticated_ignored, server_read_encrypted-Granted}
use thrussh_fork.Server.Probe.{key_packet, probed_key_unchecked}
use thrussh_fork.Tests.Toy.{toy}

-- A key is its bytes, and a signature is good if it repeats the key.
abbrev pub toy_keys : Keys Bytes
toy_keys = record { parse = λ algo k. parsed k; verify = λ k text sig. bytes_eq k sig }

-- The handler counts the questions; it accepts one password and one key.
abbrev pub doorkeeper : Handler Bytes ℕ
doorkeeper = record {
  auth_password =
      λ n user text. some (n + 1, if bytes_eq text (codes "secret") then accept else reject);
  auth_publickey =
      λ n user k. some (n + 1, if bytes_eq k (codes "alice's key") then accept else reject);
  auth_keyboard_interactive = λ n user submethods response. some (n + 1, reject);
}

abbrev pub probed : AuthRequest
probed = record {
  methods = 31;
  partial_success = false;
  current = some (publickey_request (codes "alice's key") (codes "ssh-ed25519") true);
  rejection_count = 0;
}

abbrev pub waiting : Encrypted
waiting = record {
  state = waiting_auth_request probed;
  exchange = some new_exchange;
  kex = record { local_secret = none; shared_secret = none };
  key = 0;
  mac = none;
  session_id = 1 ∷ 2 ∷ [];
  rekey = none;
  channels = [];
  last_channel_id = 1;
  wants_reply = false;
  write = [];
  write_cursor = 0;
  last_rekey = 0;
}

abbrev session : CommonSession
session = record {
  auth_user = codes "alice";
  encrypted = some waiting;
  write_buffer = new;
  kex = none;
  cipher = clear_pair;
  wants_reply = false;
  disconnected = false;
  buffer = [];
}

-- Mallory's key was never shown to the handler.
probed_key_unchecked_example :
    server_read_auth_request toy_keys doorkeeper waiting 1
      (key_packet (codes "alice") (codes "ssh-ed25519") (codes "mallory's key") (
        standard.ssh_string (
          standard.ssh_string (codes "ssh-ed25519")
          ++ (standard.ssh_string (codes "mallory's key") ++ []))
        ++ []))
      (codes "alice")
    ≡ ok (record { enc = grant_access waiting; auth_user = codes "alice"; handler = 1 })
probed_key_unchecked_example =
    probed_key_unchecked standard-IsEncoding toy_keys doorkeeper waiting probed 1 (codes "alice")
      (codes "alice's key") (codes "ssh-ed25519") (codes "ssh-ed25519") (codes "mallory's key")
      (codes "mallory's key") (codes "mallory's key") refl refl refl refl refl (omega arith)
      (omega arith) (omega arith) (omega arith) (omega arith)

-- A request with the right password.
abbrev pub password_packet : Bytes
password_packet =
    50
    ∷ (standard.ssh_string (codes "bob")
        ++ (standard.ssh_string (codes "ssh-connection")
            ++ (standard.ssh_string (codes "password")
                ++ (0 ∷ standard.ssh_string (codes "secret")))))

abbrev config : LoginConfig
unfolding default
config = record {
  auth_banner = none;
  methods = 31;
  key_exchange = record { preferred = default []; key_names = [] };
}

server_read_encrypted-Granted_example :
    (auth : AuthRequest) × (waiting.state ≡ waiting_auth_request auth)
    × Granted toy_keys doorkeeper waiting auth (codes "alice") 0 (codes "bob")
unfolding server_read_encrypted server_read_auth_request finish_password auth_request
server_read_encrypted-Granted_example =
    server_read_encrypted-Granted toy_keys doorkeeper (λ s n b. ok (s, n)) none config session
      (record session { encrypted = some (grant_access waiting); auth_user = codes "bob" }) 0 1
      password_packet waiting (grant_access waiting) refl (λ p. cc) refl refl refl

-- A packet of a channel, before the client is authenticated.
unauthenticated_ignored_example :
    server_read_encrypted doorkeeper toy_keys
      (λ s n b. ok (s, n + 7))
      none
      config
      session
      0
      (94 ∷ 0 ∷ [])
    ≡ server_read_encrypted doorkeeper toy_keys
        (λ s n b. ok (s, n))
        none
        config
        session
        0
        (94 ∷ 0 ∷ [])
unauthenticated_ignored_example =
    unauthenticated_ignored toy_keys doorkeeper (λ s n b. ok (s, n + 7)) (λ s n b. ok (s, n)) none
      config session waiting 0 (94 ∷ 0 ∷ []) refl (λ p. cc)
