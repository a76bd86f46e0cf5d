-- ===== src/Client/Rekey.antt =====
-- What comes of a server that asks for new keys, src/client/encrypted.rs and src/client/kex.rs.
use thrussh_fork.Base.{
  ◌≡◌, refl, Option, some, Bytes, Outcome, ok, err, foreign, panic, stuck, kex, ◌>>=◌,
}
use thrussh_fork.Wire.{Encoding}
use thrussh_fork.Cipher.Keys.{Sodium, CipherPair}
use thrussh_fork.Cipher.Packet.{SshBuffer}
use thrussh_fork.Dh.Algorithm.{Curve}
use thrussh_fork.Negotiation.Select.{select_client}
use thrussh_fork.Negotiation.ReadKex.{Names, Preferred, read_kex}
use thrussh_fork.Session.State.{Exchange, Encrypted, CommonSession, received_rekey}
use thrussh_fork.Client.Kex.{client_read_algo, client_parse, client_rekey}

module _ ⦃e : Encoding⦄ ⦃c : Sodium⦄ ⦃k : Curve⦄ where
  -- The algorithms are taken for a second negotiation.
  known :
      (cookie secret : Option Bytes) (preferred : Preferred) (pair : CipherPair) (buf : Bytes)
      (exchange : Exchange) (names : Names) (session_id : Bytes) (wb : SshBuffer)
      → client_parse cookie secret preferred pair buf (received_rekey exchange names session_id) wb
        ≡ err kex
  unfolding client_parse received_rekey client_read_algo
  known cookie secret preferred pair buf exchange names session_id wb = refl

  -- On a client with keys whose exchange is there, what comes of a KEXINIT packet of the server is
  -- the error of the negotiation, or `Kex` where the algorithms are agreed.
  pub client_rekey_fails :
      (cookie secret : Option Bytes) (preferred : Preferred) (s : CommonSession) (enc : Encrypted)
      (buf : Bytes) (exchange : Exchange)
      → enc.exchange ≡ some exchange
      → client_rekey cookie secret preferred s enc buf
        ≡ (read_kex select_client buf preferred >>= λ names. err kex)
  unfolding client_rekey
  client_rekey_fails cookie secret preferred s enc buf exchange h = by_names _ refl
    where
      by_names :
          (o : Outcome Names)
          → read_kex select_client buf preferred ≡ o
          → client_rekey cookie secret preferred s enc buf
            ≡ (read_kex select_client buf preferred >>= λ names. err kex)
      by_names (ok names) eq = rw (h, client_rekey) (rw (eq, known))
      by_names (err x) eq = rw (h, client_rekey) (rw eq)
      by_names foreign eq = rw (h, client_rekey) (rw eq)
      by_names panic eq = rw (h, client_rekey) (rw eq)
      by_names stuck eq = rw (h, client_rekey) (rw eq)
