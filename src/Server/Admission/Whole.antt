-- ===== src/Server/Admission/Whole.antt =====
-- Who is let in over a whole connection of src/server/mod.rs, from its first line on.
use mathlib.Core.Path.{sym}
use thrussh_fork.Base.{ℕ, ◌≡◌, ◌∙◌, Option, none, some, List, ◌∷◌, ◌++◌, Bytes, Outcome, ok}
use thrussh_fork.Base.Every.{Every, Every-map}
use thrussh_fork.Wire.{Encoding}
use thrussh_fork.Cipher.Keys.{Sodium}
use thrussh_fork.Key.{KeyPair, KeyCrate}
use thrussh_fork.Dh.Algorithm.{Curve}
use thrussh_fork.Session.State.{CommonSession, authenticated, Limits}
use thrussh_fork.Rounds.{Progress, waiting, latest}
use thrussh_fork.Rounds.Blame.{blame}
use thrussh_fork.Server.Login.{Keys, Handler}
use thrussh_fork.Server.Encrypted.{LoginConfig}
use thrussh_fork.Server.Flush.{server_flush}
use thrussh_fork.Server.Reply.{World, server_reply}
use thrussh_fork.Server.Loop.{Running, server_round}
use thrussh_fork.Server.Connection.{Round, server_loop, begin, run_stream}
use thrussh_fork.Server.Stage.{state_of, Kept}
use thrussh_fork.Server.Stage.Rounds.{server_flush-Kept}
use thrussh_fork.Server.Entry.{IsOut, LetsIn, server_reply-LetsIn}
use thrussh_fork.Server.Beginning.{begin_keyless}
use thrussh_fork.Server.Admission.{Admits, round-Admits}

module _ ⦃e : Encoding⦄ ⦃c : Sodium⦄ ⦃k : Curve⦄ ⦃ks : KeyCrate⦄ {Key H : Type 0}
    (host_keys : List KeyPair) (keys : Keys Key) (handler : Handler Key H)
    (next : CommonSession → H → Bytes → Outcome (CommonSession × H)) (config : LoginConfig)
    (limits : Limits) where
  abbrev pub reply : World → CommonSession → H → Bytes → Outcome (CommonSession × H)
  reply w s h buf = server_reply host_keys keys handler next config w s h buf

  abbrev pub flushed : (ℕ → ℕ) → Option Bytes → CommonSession → Outcome CommonSession
  flushed clock cookie s = server_flush clock cookie limits config.key_exchange s

  lets_in :
      (w : World) (s : CommonSession) (h : H) (buf : Bytes)
      → IsOut s
      → Every (LetsIn keys handler s h) (reply w s h buf)
  lets_in w s h buf out = server_reply-LetsIn keys handler next config host_keys w s h buf out

  keeps :
      (clock : ℕ → ℕ) (cookie : Option Bytes) (s : CommonSession)
      → Every (Kept s) (flushed clock cookie s)
  keeps clock cookie s = server_flush-Kept clock cookie limits config.key_exchange s

  module _ (clock : ℕ → ℕ) (cookie : Option Bytes) (server_id : Bytes) (reads : Option (List Bytes))
      (h : H) where
    begin-IsOut :
        Every
          (λ (r : Running H). IsOut r.session)
          (begin flushed clock cookie config.key_exchange server_id reads h)
    begin-IsOut =
        Every-map (λ (r : Running H). state_of r.session.encrypted ≡ none) _
          (begin flushed clock cookie config.key_exchange server_id reads h)
          (λ r keyless done.
            absurd (let no_keys : none ≡ some authenticated = sym keyless ∙ done in cc no_keys))
          (begin_keyless flushed keeps clock cookie config.key_exchange server_id reads h)

    -- Where the client of a connection is authenticated after some rounds of the loop, from the
    -- identification line on, one of these rounds has brought a packet to the loop that the rounds
    -- before have left waiting, and at the packet the session was waiting for a request: the
    -- handler of that state accepted a password of the user whom the session names after the reply,
    -- or accepted a keyboard-interactive request of this user, with answers or before there are
    -- any, or a signature of the session verifies under a key that the handler accepted for this
    -- user, or under some key while the pending request has a key that was probed with success and
    -- the user is the one whom the session named before. This is so whatever is done with the
    -- packets of authenticated clients.
    pub run_stream-Admits :
        (rounds : List Round) (p : Progress (Running H))
        → run_stream reply flushed clock cookie config.key_exchange server_id reads h rounds ≡ ok p
        → state_of (latest p).session.encrypted ≡ some authenticated
        → (before after : List Round) × (x : Round) × (r : Running H) × (rounds
            ≡ before ++ (x ∷ after))
          × (run_stream reply flushed clock cookie config.key_exchange server_id reads h before
              ≡ ok (waiting r))
          × Admits keys handler reply flushed r x
    unfolding run_stream server_loop
    run_stream-Admits rounds p ran done =
        blame (λ x. server_round (reply x.world) (flushed x.clock x.cookie) x.input)
          (λ r. r.session.disconnected) (λ r. IsOut r.session) (Admits keys handler reply flushed)
          (λ x r out. round-Admits keys handler reply flushed lets_in keeps x r out)
          (begin flushed clock cookie config.key_exchange server_id reads h) rounds p begin-IsOut
          ran (λ out. out done)
