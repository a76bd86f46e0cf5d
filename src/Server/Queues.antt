-- ===== src/Server/Queues.antt =====
-- What the loops over both queues of `run_stream` leave, src/server/mod.rs.
use thrussh_fork.Base.{
  ℕ, ◌≡◌, ◌⊎◌, inl, inr, refl, ap, ◌∙◌, ==_iff, false, List, [], ◌∷◌, ◌++◌, Bytes, length, drop,
  ◌==◌, ok,
}
use thrussh_fork.Base.Every.{Every, Every-given, Every-if, Every-map}
use thrussh_fork.Wire.{Encoding}
use thrussh_fork.Session.State.{CommonSession}
use thrussh_fork.Server.Senders.{data_on}
use thrussh_fork.Server.Loop.{drain}

module _ ⦃e : Encoding⦄ where
  -- Each item of the list is sent in full by `data`, one after the other.
  abbrev pub Sent : CommonSession → List (ℕ × Bytes) → CommonSession → Type 0
  Sent s [] s' = s' ≡ s
  Sent s ((id, given) ∷ queue) s' =
      (next : CommonSession) × (data_on s id given ≡ ok (next, length given)) × Sent next queue s'

  -- Either every item was sent in full and none is left, or the items before some item were, `data`
  -- sent `wrote` bytes of this one, and what is left is the rest of it and the items behind.
  abbrev pub IsRest : CommonSession → List (ℕ × Bytes) → CommonSession × List (ℕ × Bytes) → Type 0
  IsRest s queue r =
      (Sent s queue r.0 × (r.1 ≡ []))
      ⊎ ((sent later : List (ℕ × Bytes)) × (id wrote : ℕ) × (given : Bytes)
          × (before : CommonSession) × (queue ≡ sent ++ ((id, given) ∷ later))
          × Sent s sent before
          × (data_on before id given ≡ ok (r.0, wrote))
          × ((wrote == length given) ≡ false)
          × (r.1 ≡ (id, drop wrote given) ∷ later))

  one_more :
      (s next : CommonSession) (id : ℕ) (given : Bytes) (queue : List (ℕ × Bytes))
      (r : CommonSession × List (ℕ × Bytes))
      → data_on s id given ≡ ok (next, length given)
      → IsRest next queue r
      → IsRest s ((id, given) ∷ queue) r
  one_more s next id given queue r all (inl (sent, nothing)) = inl ((next, all, sent), nothing)
  one_more s next id given queue r all
        (inr (sent, later, id', wrote, given', before, eq, was_sent, some_sent, partly, left)) =
      inr (
        (id, given) ∷ sent,
        later,
        id',
        wrote,
        given',
        before,
        ap (λ (q : List (ℕ × Bytes)). (id, given) ∷ q) eq,
        (next, all, was_sent),
        some_sent,
        partly,
        left,
      )

  -- Whatever the session and the queue of data that was held back, where the loop over the queue
  -- ends, either `data` has sent every item in full, one after the other, and nothing is left; or
  -- it has sent the items before some item in full and then n bytes of this item, n not being the
  -- length of its data, and what is left is this item less its first n bytes, and the items behind
  -- it in their order. The session is that after these calls of `data`.
  pub drain-IsRest :
      (s : CommonSession) (queue : List (ℕ × Bytes)) → Every (IsRest s queue) (drain s queue)
  unfolding drain
  drain-IsRest s [] = inl (refl, refl)
  drain-IsRest s ((id, given) ∷ queue) =
      Every-given (IsRest s ((id, given) ∷ queue)) (data_on s id given) _
        (λ (r : CommonSession × ℕ) sends.
          Every-if (IsRest s ((id, given) ∷ queue)) (r.1 == length given) (drain r.0 queue)
            (ok (r.0, (id, drop r.1 given) ∷ queue))
            (λ all.
              Every-map (IsRest r.0 queue) _ (drain r.0 queue)
                (λ out rest.
                  one_more s r.0 id given queue out
                    (sends ∙ ap (λ (n : ℕ). ok (r.0, n)) ((==_iff r.1 (length given)).0 all)) rest)
                (drain-IsRest r.0 queue))
            (λ partly. inr ([], queue, id, r.1, given, s, refl, refl, sends, partly, refl)))
