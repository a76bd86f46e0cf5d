-- ===== src/Server/Guarded.antt =====
-- What a client reaches before it is authenticated.
use thrussh_fork.Base.{
  ℕ, ◌≡◌, ◌≢◌, refl, Option, none, some, Bytes, get_elem?, ◌==◌, if◌then◌else◌, Outcome, ok, ◌>>=◌,
  unwrap,
}
use thrussh_fork.Base.Every.{Every, Every-bind, Every-ok, Every-if}
use thrussh_fork.Protocol.Msg
use thrussh_fork.Wire.{Encoding}
use thrussh_fork.Cipher.Keys.{Sodium}
use thrussh_fork.Auth.Methods.{AuthRequest}
use thrussh_fork.Session.State.{
  Encrypted, EncryptedState, CommonSession, waiting_service_request, waiting_auth_request,
  authenticated,
}
use thrussh_fork.Server.Kex.{server_rekey}
use thrussh_fork.Server.Login.{Keys, Handler}
use thrussh_fork.Server.Granted.{Granted}
use thrussh_fork.Server.Encrypted.{LoginConfig, read_in_state, server_read_encrypted}
use thrussh_fork.Server.LetIn.{LetIn, rekey_kept, state_LetIn}

module _ ⦃e : Encoding⦄ ⦃c : Sodium⦄ {Key H : Type 0} (keys : Keys Key)
    (handler : Handler Key H) where
  module _ (next next' : CommonSession → H → Bytes → Outcome (CommonSession × H)) where
    state_ignores :
        (state : EncryptedState) (config : LoginConfig) (s : CommonSession) (h : H)
        (enc : Encrypted) (first : ℕ) (buf : Bytes)
        → state ≢ authenticated
        → read_in_state handler keys next state config s h enc first buf
          ≡ read_in_state handler keys next' state config s h enc first buf
    unfolding read_in_state
    state_ignores (waiting_service_request a) config s h enc first buf ne = refl
    state_ignores (waiting_auth_request a) config s h enc first buf ne = refl
    state_ignores authenticated config s h enc first buf ne = absurd (ne refl)

    -- In a session whose client is not authenticated, what `server_read_encrypted` does with a
    -- packet is the same whatever is done with the packets of authenticated clients: none of them
    -- gets there.
    pub unauthenticated_ignored :
        (cookie : Option Bytes) (config : LoginConfig) (s : CommonSession) (enc : Encrypted) (h : H)
        (buf : Bytes)
        → s.encrypted ≡ some enc
        → enc.state ≢ authenticated
        → server_read_encrypted handler keys next cookie config s h buf
          ≡ server_read_encrypted handler keys next' cookie config s h buf
    unfolding server_read_encrypted
    unauthenticated_ignored cookie config s enc h buf he ne = simp he (by_first (get_elem? buf 0))
      where
        by_first :
            (o : Option ℕ)
            → (unwrap o >>= λ first.
                if first == Msg.kexinit
                then (server_rekey cookie config.key_exchange s enc buf >>= λ s'. ok (s', h))
                else read_in_state handler keys next enc.state config s h enc first buf)
              ≡ (unwrap o >>= λ first.
                  if first == Msg.kexinit
                  then (server_rekey cookie config.key_exchange s enc buf >>= λ s'. ok (s', h))
                  else read_in_state handler keys next' enc.state config s h enc first buf)
        by_first none = refl
        by_first (some first) = rw (state_ignores enc.state config s h enc first buf ne)

  -- Where `server_read_encrypted` takes a packet in a session whose client is not authenticated,
  -- and leaves it authenticated, the session was waiting for a request, and there is a reason for
  -- the user whom the session then names: the handler accepted a password of this user, or a
  -- keyboard-interactive request of this user, with answers or before there are any, or a signature
  -- of the session verifies under a key that the handler accepted for this user, or a signature of
  -- the session verifies under some key, the pending request has a key that was probed with
  -- success, and the user is the one whom the session named before.
  pub server_read_encrypted-Granted :
      (next : CommonSession → H → Bytes → Outcome (CommonSession × H)) (cookie : Option Bytes)
      (config : LoginConfig) (s s' : CommonSession) (h h' : H) (buf : Bytes) (enc enc' : Encrypted)
      → s.encrypted ≡ some enc
      → enc.state ≢ authenticated
      → server_read_encrypted handler keys next cookie config s h buf ≡ ok (s', h')
      → s'.encrypted ≡ some enc'
      → enc'.state ≡ authenticated
      → (auth : AuthRequest) × (enc.state ≡ waiting_auth_request auth)
        × Granted keys handler enc auth s.auth_user h s'.auth_user
  unfolding server_read_encrypted
  server_read_encrypted-Granted next cookie config s s' h h' buf enc enc' he ne done he' let_in =
      Every-ok P (server_read_encrypted handler keys next cookie config s h buf) done
        (simp he (by_first (get_elem? buf 0))) enc' he' let_in
    where
      P : CommonSession × H → Type 0
      P = LetIn keys handler next enc h s.auth_user

      by_first :
          (o : Option ℕ)
          → Every P (
              unwrap o >>= λ first.
              if first == Msg.kexinit
              then (server_rekey cookie config.key_exchange s enc buf >>= λ s''. ok (s'', h))
              else read_in_state handler keys next enc.state config s h enc first buf)
      by_first none = tt
      by_first (some first) =
          Every-if P (first == Msg.kexinit) _ _
            (λ t. Every-bind P (server_rekey cookie config.key_exchange s enc buf) _ (
              rekey_kept keys handler next enc h s.auth_user cookie config.key_exchange s buf he
                ne))
            (λ f.
              state_LetIn keys handler next enc h s.auth_user enc.state config s first buf refl he
                refl ne)
