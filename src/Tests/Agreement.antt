-- ===== src/Tests/Agreement.antt =====
-- Concrete instances of the theorems on the negotiation, on keys anew and on the methods.
use thrussh_fork.Base.{
  ℕ, Outcome, ok, ◌≡◌, refl, false, none, some, [], ◌∷◌, ◌++◌, Bytes, replicate, err, kex, ◌>>=◌,
  codes, arith,
}
use thrussh_fork.Wire.{join}
use thrussh_fork.Wire.Standard.{standard, standard-IsEncoding}
use thrussh_fork.Cipher.Keys.{clear_pair}
use thrussh_fork.Cipher.Packet.{new}
use thrussh_fork.Negotiation.Select.{select_server, select_client, split}
use thrussh_fork.Negotiation.Agree.{common, same_first, with_flag, select-agree}
use thrussh_fork.Negotiation.ReadKex.{Preferred, read_kex, write_kex}
use thrussh_fork.Negotiation.Follows.{IsPreferred, chosen, strings, read_kex_lem, read_kex-agree}
use thrussh_fork.Auth.Methods.{method_names, union_names}
use thrussh_fork.Auth.Sets.{union_names-method_names}
use thrussh_fork.Session.State.{Encrypted, CommonSession, authenticated, new_exchange}
use thrussh_fork.Server.Kex.{KexConfig}
use thrussh_fork.Server.Rekey.{server_rekey_fails}
use thrussh_fork.Server.Encrypted.{LoginConfig}
use thrussh_fork.Server.Reply.{World, server_reply}
use thrussh_fork.Tests.Toy.{toy}
use thrussh_fork.Tests.Keys.{toy_crate}
use thrussh_fork.Tests.Exchanges.{toy_curve}
use thrussh_fork.Tests.Logins.{toy_keys, doorkeeper}
use thrussh_fork.Tests.Toy.{toy}

abbrev client_prefers : Preferred
client_prefers = record {
  kex = codes "curve25519" ∷ [];
  key = codes "ssh-ed25519" ∷ codes "rsa-sha2-512" ∷ [];
  cipher = codes "chacha20" ∷ [];
  mac = codes "none" ∷ [];
  compression = codes "none" ∷ [];
}

abbrev server_prefers : Preferred
server_prefers = record {
  kex = codes "dh-group14" ∷ codes "curve25519" ∷ [];
  key = codes "rsa-sha2-512" ∷ [];
  cipher = codes "chacha20" ∷ [];
  mac = codes "none" ∷ [];
  compression = codes "none" ∷ [];
}

abbrev cookie : Bytes
cookie = replicate 16 7

client-IsPreferred : IsPreferred standard-IsEncoding client_prefers
client-IsPreferred = record {
  kex_names = grind arith;
  key_names = grind arith;
  cipher_names = grind arith;
  mac_names = grind arith;
  some_kex = λ p. cc;
  some_key = λ p. cc;
  some_cipher = λ p. cc;
  some_mac = λ p. cc;
  short = grind arith;
}

server-IsPreferred : IsPreferred standard-IsEncoding server_prefers
server-IsPreferred = record {
  kex_names = grind arith;
  key_names = grind arith;
  cipher_names = grind arith;
  mac_names = grind arith;
  some_kex = λ p. cc;
  some_key = λ p. cc;
  some_cipher = λ p. cc;
  some_mac = λ p. cc;
  short = grind arith;
}

read_kex-agree_example :
    read_kex select_server (write_kex cookie client_prefers []) server_prefers
    ≡ read_kex select_client (write_kex cookie server_prefers []) client_prefers
read_kex-agree_example =
    read_kex-agree standard-IsEncoding client_prefers server_prefers cookie cookie
      client-IsPreferred server-IsPreferred refl refl

-- A packet that says that a guessed packet follows.
abbrev guessing : Bytes
guessing =
    (20 ∷ cookie)
    ++ strings
        (codes "dh-group14,curve25519"
          ∷ codes "rsa-sha2-512"
          ∷ codes "chacha20"
          ∷ codes "chacha20"
          ∷ codes "none"
          ∷ codes "none"
          ∷ codes "none"
          ∷ codes "none"
          ∷ []
          ∷ []
          ∷ [])
        (1 ∷ 0 ∷ 0 ∷ 0 ∷ 0 ∷ [])

read_kex_lem_example :
    read_kex select_client guessing client_prefers
    ≡ chosen select_client client_prefers
        (codes "dh-group14,curve25519")
        (codes "rsa-sha2-512")
        (codes "chacha20")
        (codes "none")
read_kex_lem_example =
    read_kex_lem standard-IsEncoding select_client client_prefers (20 ∷ cookie)
      (codes "dh-group14,curve25519") (codes "rsa-sha2-512") (codes "chacha20") (codes "chacha20")
      (codes "none") (codes "none") (codes "none") (codes "none") [] [] (1 ∷ 0 ∷ 0 ∷ 0 ∷ 0 ∷ [])
      refl (grind arith)

select-agree_example :
    (select_server (codes "b" ∷ codes "c" ∷ []) (join (codes "a" ∷ codes "c" ∷ []))
      ≡ with_flag
          (same_first (codes "a" ∷ codes "c" ∷ []) (codes "b" ∷ codes "c" ∷ []))
          (common (codes "a" ∷ codes "c" ∷ []) (codes "b" ∷ codes "c" ∷ [])))
    × (select_client (codes "a" ∷ codes "c" ∷ []) (join (codes "b" ∷ codes "c" ∷ []))
        ≡ with_flag
            (same_first (codes "a" ∷ codes "c" ∷ []) (codes "b" ∷ codes "c" ∷ []))
            (common (codes "a" ∷ codes "c" ∷ []) (codes "b" ∷ codes "c" ∷ [])))
select-agree_example =
    select-agree (codes "a") (codes "b") (codes "c" ∷ []) (codes "c" ∷ []) (grind arith)
      (grind arith)

union_names-method_names_example : union_names (split (join (method_names 6))) 0 ≡ 6
union_names-method_names_example = union_names-method_names 6 (omega arith)

abbrev asking : Bytes
asking =
    cookie
    ++ strings
        (codes "curve25519"
          ∷ codes "rsa-sha2-512"
          ∷ codes "chacha20"
          ∷ codes "chacha20"
          ∷ codes "none"
          ∷ codes "none"
          ∷ codes "none"
          ∷ codes "none"
          ∷ []
          ∷ []
          ∷ [])
        (0 ∷ 0 ∷ 0 ∷ 0 ∷ 0 ∷ [])

abbrev config : KexConfig
config = record { preferred = server_prefers; key_names = codes "rsa-sha2-512" ∷ [] }

abbrev keyed : Encrypted
keyed = record {
  state = authenticated;
  exchange = some new_exchange;
  kex = record { local_secret = none; shared_secret = none };
  key = 0;
  mac = none;
  session_id = 1 ∷ 2 ∷ [];
  rekey = none;
  channels = [];
  last_channel_id = 1;
  wants_reply = false;
  write = [];
  write_cursor = 0;
  last_rekey = 0;
}

abbrev session : CommonSession
session = record {
  auth_user = codes "root";
  encrypted = some keyed;
  write_buffer = new;
  kex = none;
  cipher = clear_pair;
  wants_reply = false;
  disconnected = false;
  buffer = [];
}

abbrev login : LoginConfig
login = record { auth_banner = none; methods = 31; key_exchange = config }

abbrev outside : World
outside = record { cookie = some cookie; secret = none; now = 0 }

abbrev unread : CommonSession → ℕ → Bytes → Outcome (CommonSession × ℕ)
unread s h buf = ok (s, h)

server_rekey_fails_example :
    server_reply [] toy_keys doorkeeper unread login outside session 0 (20 ∷ asking)
    ≡ (read_kex select_server (20 ∷ asking) server_prefers >>= λ names. err kex)
server_rekey_fails_example =
    server_rekey_fails [] toy_keys doorkeeper unread login outside session 0 keyed asking
      new_exchange refl refl refl
