-- ===== src/Client/Handle/Logins.antt =====
-- What comes of a login whose signer is the program, `authenticate_future` of src/client/mod.rs.
use thrussh_fork.Base.{
  ◌≡◌, refl, ap, ◌∙◌, Bool, true, false, Option, some, List, [], ◌∷◌, ◌++◌, Bytes, map, Outcome, ok,
  ◌>>=◌, try_foreign, append_assoc, append-nil,
}
use thrussh_fork.Key.{PublicKey}
use thrussh_fork.Client.State as State
use thrussh_fork.Client.State.{
  future_public_key, Reply, auth_success, auth_failure, channel_open_failure, sign_request,
}
use thrussh_fork.Client.Handle.{
  Handle, Call, returned, send_msg, send_msg_lem, await_future, authenticate_future,
}

-- The last reply to a login.
abbrev pub answer : Bool → Reply
answer true = auth_success
answer false = auth_failure

module _ {S : Type 0} (sign : S → PublicKey → Bytes → S × Option Bytes) where
  -- None of the replies is the last one, and the signer `s` signs what they ask for, one after the
  -- other, and is `s'` behind.
  abbrev pub Signs : S → List Reply → S → List Bytes → Type 0
  Signs s [] s' sigs = (s ≡ s') × (sigs ≡ [])
  Signs s (sign_request key given ∷ rs) s' [] = ⊥
  Signs s (sign_request key given ∷ rs) s' (g ∷ gs) =
      ((sign s key given).1 ≡ some g) × Signs (sign s key given).0 rs s' gs
  Signs s (channel_open_failure ∷ rs) s' sigs = Signs s rs s' sigs
  Signs s (auth_success ∷ rs) s' sigs = ⊥
  Signs s (auth_failure ∷ rs) s' sigs = ⊥

  -- The handle behind the call.
  abbrev pub answered : Handle → List Bytes → List Reply → Handle
  answered h sigs rest = record h { queue = h.queue ++ map State.signed sigs; replies = rest }

  over :
      (h : Handle) (s s' : S) (rest : List Reply) (sigs : List Bytes) (b : Bool)
      → s ≡ s'
      → sigs ≡ []
      → ◌≡◌ {A = Outcome (Call (S × Bool))}
          (ok (returned (record h { replies = rest }) (s, b)))
          (ok (returned (answered h sigs rest) (s', b)))
  over h s s' rest sigs b same none_left = rw (none_left, append-nil, same) refl

  await_lem :
      (h : Handle) (s s' : S) (early rest : List Reply) (sigs : List Bytes) (b : Bool)
      → h.is_open ≡ true
      → Signs s early s' sigs
      → await_future sign h s (early ++ (answer b ∷ rest))
        ≡ ok (returned (answered h sigs rest) (s', b))
  unfolding await_future send_msg
  await_lem h s s' [] rest sigs true on (same, none_left) =
      over h s s' rest sigs true same none_left
  await_lem h s s' [] rest sigs false on (same, none_left) =
      over h s s' rest sigs false same none_left
  await_lem h s s' (sign_request key given ∷ rs) rest [] b on signs = absurd signs
  await_lem h s s' (sign_request key given ∷ rs) rest (g ∷ gs) b on (signed, signs) =
      ap (λ (o : Option Bytes). try_foreign o >>= pass) signed
      ∙ ap (λ (m : Outcome Handle). m >>= next) (send_msg_lem h (State.signed g) on)
      ∙ await_lem (record h { queue = h.queue ++ (State.signed g ∷ []) }) (sign s key given).0 s' rs
          rest gs b on signs
      ∙ ap
          (λ (q : List State.ClientMsg).
            ok (returned (record h { queue = q; replies = rest }) (s', b)))
          (append_assoc h.queue (State.signed g ∷ []) (map State.signed gs))
    where
      next : Handle → Outcome (Call (S × Bool))
      next h' = await_future sign h' (sign s key given).0 (rs ++ (answer b ∷ rest))

      pass : Bytes → Outcome (Call (S × Bool))
      pass signature = send_msg h (State.signed signature) >>= next
  await_lem h s s' (channel_open_failure ∷ rs) rest sigs b on signs =
      await_lem h s s' rs rest sigs b on signs
  await_lem h s s' (auth_success ∷ rs) rest sigs b on signs = absurd signs
  await_lem h s s' (auth_failure ∷ rs) rest sigs b on signs = absurd signs

  -- While the session is there, a login by a signer of the program returns at the first reply that
  -- is a success or a failure, and says which of them it was: the request was sent, and behind it,
  -- in their order, the signatures for all requests to sign before that reply, each by the signer
  -- that the one before has left, where the signer does not fail; the replies behind it are left.
  pub authenticate_future_answers :
      (h : Handle) (user : Bytes) (key : PublicKey) (s s' : S) (early rest : List Reply)
      (sigs : List Bytes) (b : Bool)
      → h.is_open ≡ true
      → h.replies ≡ early ++ (answer b ∷ rest)
      → Signs s early s' sigs
      → authenticate_future sign h user key s
        ≡ ok (
            returned
              (record h {
                queue =
                    h.queue
                    ++ (State.authenticate user (future_public_key key) ∷ map State.signed sigs);
                replies = rest;
              })
              (s', b))
  unfolding authenticate_future
  authenticate_future_answers h user key s s' early rest sigs b on come signs =
      ap (λ (m : Outcome Handle). m >>= λ h'. await_future sign h' s h'.replies)
        (send_msg_lem h request on)
      ∙ ap (λ (rs : List Reply). await_future sign asked s rs) come
      ∙ await_lem asked s s' early rest sigs b on signs
      ∙ ap
          (λ (q : List State.ClientMsg).
            ok (returned (record h { queue = q; replies = rest }) (s', b)))
          (append_assoc h.queue (request ∷ []) (map State.signed sigs))
    where
      request : State.ClientMsg
      request = State.authenticate user (future_public_key key)

      asked : Handle
      asked = record h { queue = h.queue ++ (request ∷ []) }
