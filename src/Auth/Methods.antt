-- ===== src/Auth/Methods.antt =====
-- The set of methods, its iterator, and the names of the methods, src/auth.rs.
use Prim.Native.Nat.{bit_and, bit_or}
use thrussh_fork.Base.{
  ℕ, zero, suc, ◌-◌, ◌^◌, Bool, Option, none, some, List, [], ◌∷◌, map, Bytes, codes, bytes_eq,
  ◌==◌, if◌then◌else◌,
}

abbrev pub MethodSet : Type 0
MethodSet = ℕ

abbrev pub none_method : MethodSet
none_method = 1

abbrev pub password : MethodSet
password = 2

abbrev pub publickey : MethodSet
publickey = 4

abbrev pub hostbased : MethodSet
hostbased = 8

abbrev pub keyboard_interactive : MethodSet
keyboard_interactive = 16

abbrev pub all : MethodSet
all = 31

abbrev pub contains : MethodSet → MethodSet → Bool
contains s x = bit_and s x == x

-- `remove`, and the difference of two sets: the bits of `s` that `x` lacks.
abbrev pub remove : MethodSet → MethodSet → MethodSet
remove s x = bit_and s (2 ^ 32 - 1 - x)

abbrev pub union : MethodSet → MethodSet → MethodSet
union s x = bit_or s x

-- `next`: the first method that the set contains, and the set without it.
unfoldable pub next : MethodSet → Option (MethodSet × MethodSet)
next s =
    if contains s none_method
    then some (none_method, remove s none_method)
    else if contains s password
    then some (password, remove s password)
    else if contains s publickey
    then some (publickey, remove s publickey)
    else if contains s hostbased
    then some (hostbased, remove s hostbased)
    else if contains s keyboard_interactive
    then some (keyboard_interactive, remove s keyboard_interactive)
    else none

-- The items of the iterator. Each step removes a bit, so that five steps and the last are enough.
unfoldable pub items : ℕ → MethodSet → List MethodSet
unfolding next
items zero s = []
items (suc fuel) s = elim (next s) [ none ↦ [] | some (x, s') ↦ x ∷ items fuel s' ]

unfoldable pub bytes : MethodSet → Bytes
bytes s =
    if s == none_method
    then codes "none"
    else if s == password
    then codes "password"
    else if s == publickey
    then codes "publickey"
    else if s == hostbased
    then codes "hostbased"
    else if s == keyboard_interactive
    then codes "keyboard-interactive"
    else []

unfoldable pub from_bytes : Bytes → Option MethodSet
from_bytes b =
    if bytes_eq b (codes "none")
    then some none_method
    else if bytes_eq b (codes "password")
    then some password
    else if bytes_eq b (codes "publickey")
    then some publickey
    else if bytes_eq b (codes "hostbased")
    then some hostbased
    else if bytes_eq b (codes "keyboard-interactive")
    then some keyboard_interactive
    else none

pub data CurrentRequest : Type 0 where
  publickey_request : Bytes → Bytes → Bool → CurrentRequest
  keyboard_request : Bytes → CurrentRequest

pub record AuthRequest : Type 0 where
  pub methods : MethodSet
  pub partial_success : Bool
  pub current : Option CurrentRequest
  pub rejection_count : ℕ

-- The names that `extend_list` writes for the set.
unfoldable pub method_names : MethodSet → List Bytes
unfolding items bytes
method_names s = map bytes (items 6 s)

-- What the client makes of the names that the server sends, src/client/encrypted.rs.
unfoldable pub union_names : List Bytes → MethodSet → MethodSet
unfolding from_bytes
union_names [] s = s
union_names (n ∷ ns) s = elim (from_bytes n) [
  | none ↦ union_names ns s
  | some m ↦ union_names ns (union s m)
]
