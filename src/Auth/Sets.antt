-- ===== src/Auth/Sets.antt =====
-- The list of methods that a server sends, and what the client makes of it.
use thrussh_fork.Base.{all_below, all_below_sound, ◌<◌, ◌≡◌, refl, true, ◌==◌, ==_iff}
use thrussh_fork.Wire.{join}
use thrussh_fork.Negotiation.Select.{split}
use thrussh_fork.Auth.Methods.{MethodSet, method_names, union_names}

read_back_table : all_below 32 (λ s. union_names (split (join (method_names s))) 0 == s) ≡ true
unfolding all_below union_names split method_names
read_back_table = refl

-- For every set of the five methods, the names that the server lists, joined with commas, split by
-- the client and united, give the same set.
pub union_names-method_names :
    (s : MethodSet) → s < 32 → union_names (split (join (method_names s))) 0 ≡ s
union_names-method_names s h = (==_iff _ s).0 (all_below_sound _ 32 h read_back_table)
