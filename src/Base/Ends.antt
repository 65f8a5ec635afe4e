-- ===== src/Base/Ends.antt =====
-- Results that were not cut off by the end of the fuel, and what holds of their values.
use mathlib.Core.Path.{◌≡◌, subst}
use mathlib.Core.Bool.{Bool, true, false}
use mathlib.Core.Option.{Option, none, some}
use komfy_db.Base.Status.{StatusOr, Code, ok, err, fault, no_fuel, ◌>>=◌, or_err, or_fault, guard}

abbrev pub Ends : {A : Type 0} → (A → Type 0) → StatusOr A → Type 0
Ends P (ok a) = P a
Ends P (err c) = Unit
Ends P fault = Unit
Ends P no_fuel = ⊥

-- There is a result, whatever it is.
abbrev pub Returns : {A : Type 0} → StatusOr A → Type 0
Returns r = Ends (λ _. Unit {0}) r

module _ {A B : Type 0} where
  pub >>=-Ends :
      (P : A → Type 0) (Q : B → Type 0) (r : StatusOr A) (k : A → StatusOr B)
      → Ends P r
      → ((a : A) → P a → Ends Q (k a))
      → Ends Q (r >>= k)
  >>=-Ends P Q (ok a) k h f = f a h
  >>=-Ends P Q (err c) k h f = tt
  >>=-Ends P Q fault k h f = tt
  >>=-Ends P Q no_fuel k h f = absurd h

  pub >>=-Returns :
      (r : StatusOr A) (k : A → StatusOr B)
      → Returns r
      → ((a : A) → Returns (k a))
      → Returns (r >>= k)
  >>=-Returns r k h f = >>=-Ends (λ _. Unit {0}) (λ _. Unit {0}) r k h (λ a _. f a)

pub or_err-Returns : {A : Type 0} (o : Option A) (c : Code) → Returns (or_err o c)
or_err-Returns none c = tt
or_err-Returns (some a) c = tt

pub or_fault-Returns : {A : Type 0} (o : Option A) → Returns (or_fault o)
or_fault-Returns none = tt
or_fault-Returns (some a) = tt

pub guard-Returns : (b : Bool) (c : Code) → Returns (guard b c)
guard-Returns true c = tt
guard-Returns false c = tt

pub no_fuel-Returns : {A : Type 0} (r : StatusOr A) → Returns r → r ≡ no_fuel → ⊥
no_fuel-Returns (ok a) h e = cc
no_fuel-Returns (err c) h e = cc
no_fuel-Returns fault h e = cc
no_fuel-Returns no_fuel h e = h

pub Ends-ok : {A : Type 0} (P : A → Type 0) {r : StatusOr A} {a : A} → Ends P r → r ≡ ok a → P a
Ends-ok P h e = subst (Ends P) e h
