-- ===== src/Rounds/Blame.antt =====
-- That what some rounds have broken was broken by one of them.
use thrussh_fork.Base.{
  ◌≡◌, refl, ap, ◌∙◌, Bool, true, false, ◌⊎◌, inl, inr, List, [], ◌∷◌, ◌++◌, if◌then◌else◌, Outcome,
  ok, err, foreign, panic, stuck, ◌>>=◌,
}
use thrussh_fork.Base.Every.{Every, Every-given, Every-ok, Every-map, Every-returned}
use thrussh_fork.Rounds.{
  Turn, leave, skip, turned, Progress, waiting, ended, turn_of, latest, after_turn, play, play_turn,
}

module _ {X R : Type 0} (round : X → R → Outcome (Turn R)) (is_over : R → Bool) (Good : R → Type 0)
    (Cause : R → X → Type 0) where
  -- The rounds before `x` end in a state that waits, and there `x` is to blame.
  abbrev pub Caused : List X → R → Type 0
  Caused rounds r =
      (before after : List X) × (x : X) × (r' : R) × (rounds ≡ before ++ (x ∷ after))
      × (play round is_over before r ≡ ok (waiting r'))
      × Cause r' x

  abbrev pub CausedFrom : Outcome R → List X → Type 0
  CausedFrom m rounds =
      (before after : List X) × (x : X) × (r' : R) × (rounds ≡ before ++ (x ∷ after))
      × ((m >>= λ r. play round is_over before r) ≡ ok (waiting r'))
      × Cause r' x

  abbrev pub Blamed : List X → R → Progress R → Type 0
  Blamed rounds r p = Good (latest p) ⊎ Caused rounds r

  module _ (x : X) (xs : List X) (r : R) (on : is_over r ≡ false) where
    later :
        (r' : R)
        → ((rest : List X) → play round is_over (x ∷ rest) r ≡ play round is_over rest r')
        → Caused xs r'
        → Caused (x ∷ xs) r
    later r' step (before, after, y, r'', eq, ran, why) =
        (x ∷ before, after, y, r'', ap (λ (l : List X). x ∷ l) eq, step before ∙ ran, why)

    now : Cause r x → Caused (x ∷ xs) r
    unfolding play
    now why = ([], xs, x, r, refl, rw on refl, why)

    goes_on :
        (r' : R)
        → ((rest : List X) → play round is_over (x ∷ rest) r ≡ play round is_over rest r')
        → Good r' ⊎ Cause r x
        → (Good r' → Every (Blamed xs r') (play round is_over xs r'))
        → Every (Blamed (x ∷ xs) r) (play round is_over xs r')
    goes_on r' step (inr why) rest =
        Every-returned (Blamed (x ∷ xs) r) (play round is_over xs r') (λ p _. inr (now why))
    goes_on r' step (inl good) rest =
        Every-map (Blamed xs r') (Blamed (x ∷ xs) r) (play round is_over xs r') shifted (rest good)
      where
        shifted : (p : Progress R) → Blamed xs r' p → Blamed (x ∷ xs) r p
        shifted p (inl fine) = inl fine
        shifted p (inr why) = inr (later r' step why)

    by_turn :
        (t : Turn R)
        → round x r ≡ ok t
        → Good (turn_of t) ⊎ Cause r x
        → ((r' : R) → Good r' → Every (Blamed xs r') (play round is_over xs r'))
        → Every (Blamed (x ∷ xs) r) (after_turn t (λ r'. play round is_over xs r'))
    by_turn (leave r') played (inl fine) rest = inl fine
    by_turn (leave r') played (inr why) rest = inr (now why)
    by_turn (skip r') played known rest =
        goes_on r' (λ l. play_turn round is_over x l r (skip r') on played) known (rest r')
    by_turn (turned r') played known rest =
        goes_on r' (λ l. play_turn round is_over x l r (turned r') on played) known (rest r')

  module _
      (step : (x : X) (r : R)
        → Good r
        → Every (λ t. Good (turn_of t) ⊎ Cause r x) (round x r)) where
    pub play-Blamed :
        (rounds : List X) (r : R) → Good r → Every (Blamed rounds r) (play round is_over rounds r)
    unfolding play
    play-Blamed [] r good = at (is_over r)
      where
        at : (b : Bool) → Good (latest (if b then ended r else waiting r)) ⊎ Caused [] r
        at true = inl good
        at false = inl good
    play-Blamed (x ∷ xs) r good = at (is_over r) refl (λ r' good'. play-Blamed xs r' good')
      where
        at :
            (b : Bool)
            → is_over r ≡ b
            → ((r' : R) → Good r' → Every (Blamed xs r') (play round is_over xs r'))
            → Every (Blamed (x ∷ xs) r) (elim b [
              | true ↦ ok (ended r)
              | false ↦ round x r >>= λ t. after_turn t (λ r'. play round is_over xs r')
            ])
        at true off rest = inl good
        at false on rest = Every-given (Blamed (x ∷ xs) r) (round x r) _ (λ t played.
            by_turn x xs r on t played
              (Every-ok (λ (t' : Turn R). Good (turn_of t') ⊎ Cause r x) (round x r) played
                (step x r good))
              rest)

    pub from_start :
        (m : Outcome R) (rounds : List X)
        → Every Good m
        → Every
            (λ (p : Progress R). Good (latest p) ⊎ CausedFrom m rounds)
            (m >>= λ r. play round is_over rounds r)
    from_start (ok r) rounds good = play-Blamed rounds r good
    from_start (err x) rounds good = tt
    from_start foreign rounds good = tt
    from_start panic rounds good = tt
    from_start stuck rounds good = tt

    -- From a beginning that may fail, and of whose states all are good, to one that is not.
    pub blame :
        (m : Outcome R) (rounds : List X) (p : Progress R)
        → Every Good m
        → (m >>= λ r. play round is_over rounds r) ≡ ok p
        → ¬ Good (latest p)
        → CausedFrom m rounds
    blame m rounds p good ran bad = decide (
        Every-ok (λ (q : Progress R). Good (latest q) ⊎ CausedFrom m rounds)
          (m >>= λ r. play round is_over rounds r) ran (from_start m rounds good))
      where
        decide : Good (latest p) ⊎ CausedFrom m rounds → CausedFrom m rounds
        decide (inl fine) = absurd (bad fine)
        decide (inr why) = why
