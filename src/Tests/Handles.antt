-- ===== src/Tests/Handles.antt =====
-- Concrete instances of the theorems on what a program calls on the client.
use thrussh_fork.Base.{
  ℕ, ◌+◌, ◌≡◌, refl, true, some, [], ◌∷◌, ◌++◌, Bytes, codes, replicate, Option, ok, arith,
}
use thrussh_fork.Base.Assoc.{lookup}
use thrussh_fork.Wire.Standard.{standard, standard-IsEncoding}
use thrussh_fork.Wire.Frames.{frame}
use thrussh_fork.Key.{PublicKey, ed25519}
use thrussh_fork.Session.State.{Channel}
use thrussh_fork.Server.Channels.Messages.{map_encrypted, map_channel, deliver}
use thrussh_fork.Server.Channels.Dispatch.{server_read_authenticated}
use thrussh_fork.Client.State as State
use thrussh_fork.Client.State.{
  ClientMsg, future_public_key, auth_success, channel_open_failure, sign_request,
}
use thrussh_fork.Client.Reply.{with_common}
use thrussh_fork.Client.Loop.{on_client_msg}
use thrussh_fork.Client.Handle.{Handle, returned, authenticate_future}
use thrussh_fork.Client.Handle.Logins.{authenticate_future_answers}
use thrussh_fork.Ends.Asks
use thrussh_fork.Ends.Calls.{call, call_heard}
use thrussh_fork.Tests.Toy.{toy}
use thrussh_fork.Tests.Keys.{toy_crate}
use thrussh_fork.Tests.Sessions.{one, narrow}
use thrussh_fork.Tests.Ends.{talking, at_client, recorder, settings, own_settings}

abbrev list_files : Asks.Request
list_files = Asks.command true (codes "ls")

abbrev key : PublicKey
key = ed25519 (replicate 32 7)

abbrev idle : Handle
idle = record { queue = []; is_open = true; replies = [] }

call_heard_example :
    (m : ClientMsg) × (call list_files idle 2 ≡ ok (record idle { queue = [] ++ (m ∷ []) }))
    × (on_client_msg own_settings m (at_client (talking one))
        ≡ ok (
            with_common (at_client (talking one)) (record (talking one) {
              encrypted = some (record one { write = [] ++ frame (Asks.packet 9 list_files) });
            })))
    × (server_read_authenticated recorder settings (talking one) [] (Asks.packet 9 list_files)
        ≡ deliver recorder
            (Asks.event 9 list_files)
            (map_encrypted
              (talking one)
              (map_channel 9 (λ (c : Channel). record c { wants_reply = true })))
            [])
unfolding lookup
call_heard_example =
    call_heard standard-IsEncoding recorder settings own_settings list_files idle 2
      (at_client (talking one)) one narrow (talking one) [] refl refl refl (omega arith)
      (omega arith)

-- The signer counts, and signs with its count.
abbrev sign : ℕ → PublicKey → Bytes → ℕ × Option Bytes
sign n k given = (n + 1, some (n ∷ given))

abbrev asked : Handle
asked = record idle {
  replies =
      channel_open_failure
      ∷ sign_request key (4 ∷ [])
      ∷ sign_request key (5 ∷ [])
      ∷ auth_success
      ∷ [];
}

authenticate_future_answers_example :
    authenticate_future sign asked (codes "alice") key 0
    ≡ ok (
        returned
          (record asked {
            queue =
                State.authenticate (codes "alice") (future_public_key key)
                ∷ State.signed (0 ∷ 4 ∷ [])
                ∷ State.signed (1 ∷ 5 ∷ [])
                ∷ [];
            replies = [];
          })
          (2, true))
authenticate_future_answers_example =
    authenticate_future_answers sign asked (codes "alice") key 0 2
      (channel_open_failure ∷ sign_request key (4 ∷ []) ∷ sign_request key (5 ∷ []) ∷ []) []
      ((0 ∷ 4 ∷ []) ∷ (1 ∷ 5 ∷ []) ∷ []) true refl refl (refl, (refl, (refl, refl)))
