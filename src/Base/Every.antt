-- ===== src/Base/Every.antt =====
-- What holds of every result that a call can return, errors and panics aside.
use mathlib.Core.Path.{◌≡◌, refl, subst}
use mathlib.Core.Option.{Option, none, some}
use mathlib.Core.Bool.{Bool, true, false}
use thrussh_fork.Base.Tests.{if◌then◌else◌}
use thrussh_fork.Base.Fallible.{
  Error, Outcome, ok, err, foreign, panic, stuck, ◌>>=◌, ◌>>◌, try_foreign, guard,
}

abbrev pub Every {ℓ κ} : {A : Type ℓ} → (A → Type κ) → Outcome A → Type κ
Every P (ok a) = P a
Every P (err x) = Unit
Every P foreign = Unit
Every P panic = Unit
Every P stuck = Unit

module _ {ℓ κ} {B : Type ℓ} (P : B → Type κ) where
  pub Every-try {ι} :
      {A : Type ι} (o : Option A) (f : A → Outcome B)
      → ((a : A) → o ≡ some a → Every P (f a))
      → Every P (try_foreign o >>= f)
  Every-try none f h = tt
  Every-try (some a) f h = h a refl

  pub Every-bind {ι} :
      {A : Type ι} (m : Outcome A) (f : A → Outcome B)
      → Every (λ a. Every P (f a)) m
      → Every P (m >>= f)
  Every-bind (ok a) f h = h
  Every-bind (err x) f h = tt
  Every-bind foreign f h = tt
  Every-bind panic f h = tt
  Every-bind stuck f h = tt

  pub Every-ok : (m : Outcome B) {b : B} → m ≡ ok b → Every P m → P b
  Every-ok (ok x) {b} h p = subst P (let same : x ≡ b = cc in same) p
  Every-ok (err x) h p = absurd cc
  Every-ok foreign h p = absurd cc
  Every-ok panic h p = absurd cc
  Every-ok stuck h p = absurd cc

  pub Every-if :
      (b : Bool) (x y : Outcome B)
      → (b ≡ true → Every P x)
      → (b ≡ false → Every P y)
      → Every P (if b then x else y)
  Every-if true x y hx hy = hx refl
  Every-if false x y hx hy = hy refl

  pub Every-then {ι} :
      {A : Type ι} (m : Outcome A) (f : A → Outcome B)
      → ((a : A) → Every P (f a))
      → Every P (m >>= f)
  Every-then (ok a) f h = h a
  Every-then (err x) f h = tt
  Every-then foreign f h = tt
  Every-then panic f h = tt
  Every-then stuck f h = tt

  -- A call that returns a value, as an equation.
  pub Every-given {ι} :
      {A : Type ι} (m : Outcome A) (f : A → Outcome B)
      → ((a : A) → m ≡ ok a → Every P (f a))
      → Every P (m >>= f)
  Every-given (ok a) f h = h a refl
  Every-given (err x) f h = tt
  Every-given foreign f h = tt
  Every-given panic f h = tt
  Every-given stuck f h = tt

  pub Every-guard :
      (b : Bool) (x : Error) (m : Outcome B) → (b ≡ true → Every P m) → Every P (guard b x >> m)
  Every-guard true x m h = h refl
  Every-guard false x m h = tt

  pub Every-returned : (m : Outcome B) → ((b : B) → m ≡ ok b → P b) → Every P m
  Every-returned (ok b) h = h b refl
  Every-returned (err x) h = tt
  Every-returned foreign h = tt
  Every-returned panic h = tt
  Every-returned stuck h = tt

pub Every-map {ℓ κ ι} :
    {A : Type ℓ} (P : A → Type κ) (Q : A → Type ι) (m : Outcome A)
    → ((a : A) → P a → Q a)
    → Every P m
    → Every Q m
Every-map P Q (ok a) f h = f a h
Every-map P Q (err x) f h = tt
Every-map P Q foreign f h = tt
Every-map P Q panic f h = tt
Every-map P Q stuck f h = tt
