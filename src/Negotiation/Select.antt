-- ===== src/Negotiation/Select.antt =====
-- `Server::select` and `Client::select` of src/negotiation.rs. A name is the bytes of its text.
use thrussh_fork.Base.{
  Bool, true, false, Option, none, some, List, [], ◌∷◌, ◌++◌, Bytes, bytes_eq, ◌==◌, if◌then◌else◌,
}

-- `slice.split(|&x| x == b',')`: there is always one part at least.
unfoldable pub split_at : Bytes → Bytes → List Bytes
split_at part [] = part ∷ []
split_at part (x ∷ xs) =
    let next = split_at [] xs in
    let longer = split_at (part ++ (x ∷ [])) xs in if x == b',' then part ∷ next else longer

unfoldable pub split : Bytes → List Bytes
unfolding split_at
split xs = split_at [] xs

-- The inner loop of both functions: it compares `a` with each name of the list, and clears the flag
-- after each name that differs. It returns what is found, and the flag. The name found has the
-- same bytes in both lists, so one function serves both directions of the comparison.
unfoldable pub select_inner : Bytes → List Bytes → Bool → Option (Bool × Bytes) × Bool
select_inner a [] flag = (none, flag)
select_inner a (b ∷ bs) flag =
    if bytes_eq a b then (some (flag, a), flag) else select_inner a bs false

unfoldable pub select_outer : List Bytes → List Bytes → Bool → Option (Bool × Bytes)
unfolding select_inner
select_outer [] bs flag = none
select_outer (a ∷ as') bs flag = elim ((select_inner a bs flag).0) [
  | none ↦ select_outer as' bs (select_inner a bs flag).1
  | some found ↦ some found
]

-- The outer loop of `Server::select` runs over the client's names, the inner one over its own.
unfoldable pub select_server : List Bytes → Bytes → Option (Bool × Bytes)
unfolding select_outer
select_server server_list client_list = select_outer (split client_list) server_list true

-- That of `Client::select` runs over its own names, the inner one over the server's.
unfoldable pub select_client : List Bytes → Bytes → Option (Bool × Bytes)
unfolding select_outer
select_client client_list server_list = select_outer client_list (split server_list) true
