-- ===== src/Dh/Done.antt =====
-- `KexDhDone::compute_keys` of src/session.rs.
use thrussh_fork.Base.{Bool, false, Option, none, some, Bytes, Outcome, ok, ◌>>=◌}
use thrussh_fork.Wire.{Encoding}
use thrussh_fork.Cipher.Keys.{Sodium}
use thrussh_fork.Session.State.{KexDhDone, NewKeys}
use thrussh_fork.Dh.Algorithm.{Curve, compute_keys}

-- The hash of the first exchange is the session id.
abbrev pub session_id_of : Option Bytes → Bytes → Bytes
session_id_of none hash = hash
session_id_of (some id) hash = id

module _ ⦃e : Encoding⦄ ⦃k : Curve⦄ ⦃c : Sodium⦄ where
  unfoldable pub done_compute_keys : KexDhDone → Bytes → Bool → Outcome NewKeys
  done_compute_keys d hash is_server = do
    cipher ← compute_keys d.kex (session_id_of d.session_id hash) hash d.names.cipher is_server
    ok (record {
      exchange = d.exchange;
      names = d.names;
      kex = d.kex;
      key = d.key;
      cipher = cipher;
      session_id = session_id_of d.session_id hash;
      received = false;
      sent = false;
    })
