-- ===== src/Base/Fallible.antt =====
-- What a call of fallible code comes to. `foreign` is an error value of another crate that `?`
-- passes on, `panic` is an assertion, an unwrap or an index that fails, and `stuck` says that a loop
-- did not end within the fuel of the model.
use Prim.Native.Nat.{ℕ}
use mathlib.Core.Bool.{Bool, true, false}
use mathlib.Core.Option.{Option, none, some}

-- The error values of the library, src/lib.rs.
pub data Error : Type 0 where
  could_not_read_key kex_init no_common_kex_algo no_common_key_algo no_common_cipher : Error
  version kex packet_auth inconsistent not_authenticated index_out_of_bounds : Error
  unknown_key wrong_server_sig wrong_channel disconnect no_home_dir : Error
  key_changed : ℕ → Error
  hup connection_timeout no_auth_method send_error : Error

pub data Outcome {ℓ} (A : Type ℓ) : Type ℓ where
  ok : A → Outcome A
  err : Error → Outcome A
  foreign : Outcome A
  panic : Outcome A
  stuck : Outcome A

infixl 5 ◌>>=◌ ◌>>◌
abbrev pub ◌>>=◌ {ℓ κ} : {A : Type ℓ} {B : Type κ} → Outcome A → (A → Outcome B) → Outcome B
ok a >>= f = f a
err e >>= f = err e
foreign >>= f = foreign
panic >>= f = panic
stuck >>= f = stuck

abbrev pub ◌>>◌ {ℓ} : {B : Type ℓ} → Outcome (Unit {0}) → Outcome B → Outcome B
m >> k = m >>= λ _. k

-- `assert!(b)`
abbrev pub assert : Bool → Outcome (Unit {0})
assert true = ok tt
assert false = panic

-- `guard b e` returns early with the error `e` where the condition fails.
abbrev pub guard : Bool → Error → Outcome (Unit {0})
guard true e = ok tt
guard false e = err e

-- `x?` on a result of another crate.
abbrev pub try_foreign {ℓ} : {A : Type ℓ} → Option A → Outcome A
try_foreign none = foreign
try_foreign (some a) = ok a

-- `x.ok_or(e)?`
abbrev pub ok_or {ℓ} : {A : Type ℓ} → Option A → Error → Outcome A
ok_or none e = err e
ok_or (some a) e = ok a

-- `x.unwrap()`, and an index into a slice.
abbrev pub unwrap {ℓ} : {A : Type ℓ} → Option A → Outcome A
unwrap none = panic
unwrap (some a) = ok a

-- A call whose result is not looked at: errors are dropped, and a panic is not.
abbrev pub settled {ℓ} : {A : Type ℓ} → Outcome A → Outcome (Unit {0})
settled (ok a) = ok tt
settled (err e) = ok tt
settled foreign = ok tt
settled panic = panic
settled stuck = stuck
