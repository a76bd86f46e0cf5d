-- ===== src/Rounds.antt =====
-- Rounds of a loop that a connection goes through, as the loops of src/server/mod.rs and
-- src/client/mod.rs have them: what each round begins with is a list.
pub mod Blame
use thrussh_fork.Base.{
  ◌≡◌, ap, ◌∙◌, Bool, true, false, List, [], ◌∷◌, if◌then◌else◌, Outcome, ok, ◌>>=◌,
}

-- How a round ends: the loop is left, the rest of the round is skipped, or it has been done.
pub data Turn (A : Type 0) : Type 0 where
  leave : A → Turn A
  skip : A → Turn A
  turned : A → Turn A

-- Where the loop is after some rounds: it waits for the next, or has been left.
pub data Progress (A : Type 0) : Type 0 where
  waiting : A → Progress A
  ended : A → Progress A

abbrev pub turn_of : {A : Type 0} → Turn A → A
turn_of (leave r) = r
turn_of (skip r) = r
turn_of (turned r) = r

abbrev pub latest : {A : Type 0} → Progress A → A
latest (waiting r) = r
latest (ended r) = r

abbrev pub after_turn : {A : Type 0} → Turn A → (A → Outcome (Progress A)) → Outcome (Progress A)
after_turn (leave r) k = ok (ended r)
after_turn (skip r) k = k r
after_turn (turned r) k = k r

module _ {X R : Type 0} (round : X → R → Outcome (Turn R)) (is_over : R → Bool) where
  -- `while !disconnected { .. }`
  unfoldable pub play : List X → R → Outcome (Progress R)
  play [] r = ok (if is_over r then ended r else waiting r)
  play (x ∷ xs) r = elim (is_over r) [
    | true ↦ ok (ended r)
    | false ↦ round x r >>= λ t. after_turn t (λ r'. play xs r')
  ]

  module _ (x : X) (xs : List X) (r : R) where
    abbrev go : Outcome (Turn R) → Outcome (Progress R)
    go m = m >>= λ t. after_turn t (λ r'. play xs r')

    abbrev at_test : Bool → Outcome (Progress R)
    at_test b = elim b [ true ↦ ok (ended r) | false ↦ go (round x r) ]

    pub play_turn :
        (t : Turn R)
        → is_over r ≡ false
        → round x r ≡ ok t
        → play (x ∷ xs) r ≡ after_turn t (λ r'. play xs r')
    unfolding play
    play_turn t h played = ap at_test h ∙ ap go played
