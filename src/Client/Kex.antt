-- ===== src/Client/Kex.antt =====
-- `KexInit::client_parse` and `client_write` of src/client/kex.rs, and `Session::flush` and
-- `Session::read_ssh_id` of src/client/mod.rs.
use thrussh_fork.Base.{
  ℕ, true, false, Option, none, some, [], ◌++◌, Bytes, length, take, drop, if◌then◌else◌, Outcome,
  ok, err, kex, ◌>>=◌, try_foreign,
}
use thrussh_fork.Wire.{Encoding}
use thrussh_fork.Cipher.Keys.{Sodium, CipherPair}
use thrussh_fork.Cipher.Packet.{SshBuffer, write}
use thrussh_fork.Negotiation.Select.{select_client}
use thrussh_fork.Negotiation.ReadKex.{Names, Preferred, read_kex, write_kex}
use thrussh_fork.Session.State.{
  Exchange, new_exchange, KexInit, KexDhDone, kex_init, kex_dh_done, Encrypted, CommonSession,
  Limits, initiate_rekey, received_rekey,
}
use thrussh_fork.Session.Flush.{flush}
use thrussh_fork.Dh.Algorithm.{Curve, client_dh}

module _ ⦃e : Encoding⦄ ⦃c : Sodium⦄ where
  -- The cookie is as for `server_write`.
  unfoldable pub client_write :
      Option Bytes → Preferred → CipherPair → KexInit → SshBuffer → Outcome (KexInit × SshBuffer)
  client_write cookie preferred pair k wb = do
    random ← try_foreign cookie
    let init = write_kex random preferred []
    wb' ← write pair init wb
    ok (record k { exchange = record k.exchange { client_kex_init = init }; sent = true }, wb')

  unfoldable pub client_write_once :
      Option Bytes → Preferred → CipherPair → KexInit → SshBuffer → Outcome (KexInit × SshBuffer)
  unfolding client_write
  client_write_once cookie preferred pair k wb =
      if k.sent then ok (k, wb) else client_write cookie preferred pair k wb

  unfoldable pub client_read_algo : Preferred → Bytes → Option Names → Outcome Names
  client_read_algo preferred buf none = read_kex select_client buf preferred
  client_read_algo preferred buf (some algo) = err kex

  module _ ⦃k : Curve⦄ where
    -- The packet of `client_dh` is pushed behind the KEXINIT, written, and cut off again.
    unfoldable pub start_dh :
        Option Bytes → CipherPair → KexInit → Names → SshBuffer → Outcome (KexDhDone × SshBuffer)
    start_dh secret pair i algo wb = do
      let i0 = length i.exchange.client_kex_init
      (kex', ephemeral, pushed) ← client_dh secret i.exchange.client_kex_init
      wb' ← write pair (drop i0 pushed) wb
      ok (
        record {
          exchange = record i.exchange {
            client_ephemeral = ephemeral;
            client_kex_init = take i0 pushed;
          };
          names = algo;
          kex = kex';
          key = 0;
          session_id = i.session_id;
        },
        wb',
      )

    unfoldable pub client_parse :
        Option Bytes
        → Option Bytes
        → Preferred
        → CipherPair
        → Bytes
        → KexInit
        → SshBuffer
        → Outcome (KexDhDone × SshBuffer)
    unfolding client_write_once client_read_algo start_dh
    client_parse cookie secret preferred pair buf i wb = do
      algo ← client_read_algo preferred buf i.algo
      let i' = record i {
        exchange = record i.exchange { server_kex_init = i.exchange.server_kex_init ++ buf };
      }
      (i'', wb') ← client_write_once cookie preferred pair i' wb
      start_dh secret pair i'' algo wb'

    -- A KEXINIT that comes when no key exchange is going on, `client_read_encrypted`.
    unfoldable pub client_rekey :
        Option Bytes
        → Option Bytes
        → Preferred
        → CommonSession
        → Encrypted
        → Bytes
        → Outcome CommonSession
    unfolding client_parse
    client_rekey cookie secret preferred s enc buf = elim enc.exchange [
      | none ↦ ok s
      | some exchange ↦ do
        names ← read_kex select_client buf preferred
        (done, wb) ←
            client_parse cookie secret preferred s.cipher buf
              (received_rekey exchange names enc.session_id) s.write_buffer
        ok (record s {
          kex = some (kex_dh_done done);
          encrypted = some (record enc { exchange = none });
          write_buffer = wb;
        })
    ]

  -- The identification line of the server has come: the key exchange begins.
  unfoldable pub client_read_ssh_id :
      Option Bytes → Preferred → Bytes → Bytes → CommonSession → Outcome CommonSession
  unfolding client_write
  client_read_ssh_id cookie preferred client_id sshid s = do
    (k, wb) ←
        client_write cookie preferred s.cipher
          (record {
            exchange = record new_exchange { server_id = sshid; client_id = client_id };
            algo = none;
            sent = false;
            session_id = none;
          })
          (record s.write_buffer { buffer = [] })
    ok (record s { kex = some (kex_init k); write_buffer = wb })

  -- `if let Some(exchange) = enc.exchange.take() { .. }`, where `enc.flush` asked for new keys.
  unfoldable pub client_start_rekey :
      Option Exchange
      → Option Bytes
      → Preferred
      → CommonSession
      → Encrypted
      → SshBuffer
      → Outcome CommonSession
  client_start_rekey none cookie preferred s enc wb =
      ok (record s { encrypted = some enc; write_buffer = wb })
  client_start_rekey (some exchange) cookie preferred s enc wb = do
    (k, wb') ← client_write cookie preferred s.cipher (initiate_rekey exchange enc.session_id) wb
    ok (record s {
      encrypted = some (record enc { exchange = none; rekey = some (kex_init k) });
      write_buffer = wb';
    })

  unfoldable pub client_flush :
      (ℕ → ℕ) → Option Bytes → Limits → Preferred → CommonSession → Outcome CommonSession
  unfolding client_start_rekey
  client_flush clock cookie limits preferred s = elim s.encrypted [
    | none ↦ ok s
    | some enc ↦ flush clock limits s.cipher enc s.write_buffer >>= λ f.
        if f.0
        then client_start_rekey f.1.exchange cookie preferred s f.1 f.2
        else ok (record s { encrypted = some f.1; write_buffer = f.2 })
  ]
