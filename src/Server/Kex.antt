-- ===== src/Server/Kex.antt =====
-- `KexInit::server_parse` and `server_write` of src/server/kex.rs, and the start of a new key
-- exchange in `reply` (src/server/mod.rs) and `server_read_encrypted` (src/server/encrypted.rs).
use thrussh_fork.Base.{
  ℕ, ◌+◌, true, Option, none, some, List, [], ◌∷◌, ◌++◌, Bytes, bytes_eq, get_elem?, ◌==◌,
  if◌then◌else◌, Outcome, ok, err, kex, unknown_key, ◌>>=◌, unwrap, try_foreign, ok_or,
}
use thrussh_fork.Protocol.Msg
use thrussh_fork.Wire.{Encoding}
use thrussh_fork.Cipher.Keys.{Sodium, CipherPair}
use thrussh_fork.Cipher.Packet.{SshBuffer, write}
use thrussh_fork.Negotiation.Select.{select_server}
use thrussh_fork.Negotiation.ReadKex.{Names, Preferred, read_kex, write_kex}
use thrussh_fork.Session.State.{
  KexInit, Kex, kex_init, kex_dh, Encrypted, CommonSession, received_rekey,
}

-- What the key exchange uses of the configuration: the names of the server's keys stand for them.
pub record KexConfig : Type 0 where
  pub preferred : Preferred
  pub key_names : List Bytes

-- `while key < len && keys[key].name() != name { key += 1 }`
unfoldable pub find_key : List Bytes → Bytes → ℕ → Option ℕ
find_key [] name key = none
find_key (k ∷ ks) name key = if bytes_eq k name then some key else find_key ks name (key + 1)

module _ ⦃e : Encoding⦄ ⦃c : Sodium⦄ where
  -- The cookie is what `rand_bytes` gives, or nothing where it fails.
  unfoldable pub server_write :
      Option Bytes → KexConfig → CipherPair → KexInit → SshBuffer → Outcome (KexInit × SshBuffer)
  server_write cookie config pair k wb = do
    random ← try_foreign cookie
    let init = write_kex random config.preferred []
    wb' ← write pair init wb
    ok (record k { exchange = record k.exchange { server_kex_init = init }; sent = true }, wb')

  -- `if !self.sent { self.server_write(..)? }`
  unfoldable pub write_once :
      Option Bytes → KexConfig → CipherPair → KexInit → SshBuffer → Outcome (KexInit × SshBuffer)
  unfolding server_write
  write_once cookie config pair k wb =
      if k.sent then ok (k, wb) else server_write cookie config pair k wb

  -- The algorithms are read from the packet, unless there are some already: that is an error.
  unfoldable pub read_algo : KexConfig → Bytes → Option Names → Outcome Names
  read_algo config buf none = read_kex select_server buf config.preferred
  read_algo config buf (some algo) = err kex

  unfoldable pub server_parse :
      Option Bytes
      → KexConfig
      → CipherPair
      → Bytes
      → KexInit
      → SshBuffer
      → Outcome (Kex × SshBuffer)
  unfolding write_once read_algo find_key
  server_parse cookie config pair buf k wb = do
    first ← unwrap (get_elem? buf 0)
    if first == Msg.kexinit
        then (do
          algo ← read_algo config buf k.algo
          let k' = record k {
            exchange = record k.exchange { client_kex_init = k.exchange.client_kex_init ++ buf };
          }
          (k'', wb') ← write_once cookie config pair k' wb
          key ← ok_or (find_key config.key_names algo.key 0) unknown_key
          ok (
            kex_dh (record {
              exchange = k''.exchange;
              key = key;
              names = algo;
              session_id = k''.session_id;
            }),
            wb',
          ))
        else ok (kex_init k, wb)

  -- A KEXINIT packet that comes when no key exchange is going on. If the exchange has been taken
  -- already, nothing happens.
  unfoldable pub server_rekey :
      Option Bytes → KexConfig → CommonSession → Encrypted → Bytes → Outcome CommonSession
  unfolding server_parse
  server_rekey cookie config s enc buf = elim enc.exchange [
    | none ↦ ok s
    | some exchange ↦ do
      names ← read_kex select_server buf config.preferred
      (kex', wb) ←
          server_parse cookie config s.cipher buf (received_rekey exchange names enc.session_id)
            s.write_buffer
      ok (record s {
        kex = some kex';
        encrypted = some (record enc { exchange = none });
        write_buffer = wb;
      })
  ]
