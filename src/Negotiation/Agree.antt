-- ===== src/Negotiation/Agree.antt =====
-- What both ends choose, src/negotiation.rs.
use thrussh_fork.Base.{
  ◌≡◌, ◌≢◌, refl, ap, ◌∙◌, Bool, true, false, ◌||◌, Option, none, some, List, [], ◌∷◌, ◌++◌, Bytes,
  bytes_eq, if◌then◌else◌, All, append_assoc, append-nil, arith,
}
use thrussh_fork.Wire.{join}
use thrussh_fork.Negotiation.Select.{
  split_at, split, select_inner, select_outer, select_server, select_client,
}

-- A name that can stand in a list.
abbrev pub IsName : Bytes → Type 0
IsName n = All (λ x. x ≢ b',') n

split_at_name : (part n : Bytes) → IsName n → split_at part n ≡ (part ++ n) ∷ []
unfolding split_at
split_at_name part [] h = rw append-nil
split_at_name part (x ∷ xs) h =
    ground (arith, split_at_name (part ++ (x ∷ [])) xs, append_assoc part (x ∷ []) xs)

split_at_more :
    (part n rest : Bytes)
    → IsName n
    → split_at part (n ++ (b',' ∷ rest)) ≡ (part ++ n) ∷ split_at [] rest
unfolding split_at
split_at_more part [] rest h = rw append-nil
split_at_more part (x ∷ xs) rest h =
    ground (arith, split_at_more (part ++ (x ∷ [])) xs rest, append_assoc part (x ∷ []) xs)

-- What is joined with commas is split into the same names.
pub split-join :
    (n : Bytes) (ns : List Bytes) → All IsName (n ∷ ns) → split (join (n ∷ ns)) ≡ n ∷ ns
unfolding split
split-join n [] h = split_at_name [] n h.0
split-join n (m ∷ ns) h =
    split_at_more [] n (join (m ∷ ns)) h.0 ∙ ap (λ (t : List Bytes). n ∷ t) (split-join m ns h.1)

-- Whether a list has the name; the first name that another list has too.
abbrev pub has : Bytes → List Bytes → Bool
has a [] = false
has a (b ∷ bs) = bytes_eq a b || has a bs

abbrev pub common : List Bytes → List Bytes → Option Bytes
common [] ss = none
common (c ∷ cs) ss = if has c ss then some c else common cs ss

-- Whether the first choices of both ends are the same.
abbrev pub same_first : List Bytes → List Bytes → Bool
same_first (c ∷ cs) (s ∷ ss) = bytes_eq c s
same_first _ _ = false

abbrev pub with_flag : Bool → Option Bytes → Option (Bool × Bytes)
with_flag flag none = none
with_flag flag (some n) = some (flag, n)

inner_false :
    (a : Bytes) (bs : List Bytes)
    → select_inner a bs false ≡ ((if has a bs then some (false, a) else none), false)
unfolding select_inner
inner_false a [] = refl
inner_false a (b ∷ bs) = ground (arith, inner_false a bs)

outer_false : (cs ss : List Bytes) → select_outer cs ss false ≡ with_flag false (common cs ss)
unfolding select_outer
outer_false [] ss = refl
outer_false (c ∷ cs) ss = ground (arith, inner_false c ss, outer_false cs ss)

common-none : (cs : List Bytes) → common cs [] ≡ none
common-none [] = refl
common-none (c ∷ cs) = common-none cs

outer_nil : (cs : List Bytes) → select_outer cs [] true ≡ none
unfolding select_outer
outer_nil [] = refl
outer_nil (c ∷ cs) = outer_nil cs

-- The loops find the first common name, and whether both lists begin with it.
pub select_outer_lem :
    (cs ss : List Bytes) → select_outer cs ss true ≡ with_flag (same_first cs ss) (common cs ss)
unfolding select_outer
select_outer_lem [] ss = refl
select_outer_lem (c ∷ cs) [] = rw common-none (outer_nil cs)
select_outer_lem (c ∷ cs) (s ∷ ss) = ground (arith, inner_false c ss, outer_false cs (s ∷ ss))

-- For non-empty lists of names without commas, server and client select the same: the first of the
-- client's names that the server has, with a flag saying whether both lists begin with the same
-- name; nothing if there is none.
pub select-agree :
    (c s : Bytes) (cs ss : List Bytes)
    → All IsName (c ∷ cs)
    → All IsName (s ∷ ss)
    → (select_server (s ∷ ss) (join (c ∷ cs))
        ≡ with_flag (same_first (c ∷ cs) (s ∷ ss)) (common (c ∷ cs) (s ∷ ss)))
      × (select_client (c ∷ cs) (join (s ∷ ss))
          ≡ with_flag (same_first (c ∷ cs) (s ∷ ss)) (common (c ∷ cs) (s ∷ ss)))
unfolding select_server select_client
select-agree c s cs ss hc hs = (
  rw (split-join c cs hc, select_server) (select_outer_lem (c ∷ cs) (s ∷ ss)),
  rw (split-join s ss hs, select_client) (select_outer_lem (c ∷ cs) (s ∷ ss)),
)
