-- ===== src/Base/Status.antt =====
-- `absl::Status` and `absl::StatusOr`, with the macros of utils/status_macros.h as a monad.
use mathlib.Core.Path.{◌≡◌, refl}
use mathlib.Core.Bool.{Bool, true, false}
use mathlib.Core.Option.{Option, none, some}

-- The status codes that the program uses. A message is not part of the model.
pub data Code : Type 0 where
  invalid_argument out_of_range failed_precondition unimplemented : Code

-- `fault` stands for undefined behaviour and for an uncaught exception, a failed assertion or the
-- `value()` of an error; `no_fuel` for a loop that was cut off.
pub data StatusOr {ℓ} (A : Type ℓ) : Type ℓ where
  ok : A → StatusOr A
  err : Code → StatusOr A
  fault : StatusOr A
  no_fuel : StatusOr A

abbrev pub Status : Type 0
Status = StatusOr (Unit {0})

-- `ASSIGN_OR_RETURN`, and with no value `RETURN_IF_ERROR`.
infixl 5 ◌>>=◌ ◌>>◌
abbrev pub ◌>>=◌ {ℓ κ} : {A : Type ℓ} {B : Type κ} → StatusOr A → (A → StatusOr B) → StatusOr B
ok a >>= f = f a
err c >>= f = err c
fault >>= f = fault
no_fuel >>= f = no_fuel

abbrev pub ◌>>◌ {ℓ} : {B : Type ℓ} → Status → StatusOr B → StatusOr B
m >> k = m >>= λ _. k

abbrev pub guard : Bool → Code → Status
guard true c = ok tt
guard false c = err c

abbrev pub or_err {ℓ} : {A : Type ℓ} → Option A → Code → StatusOr A
or_err none c = err c
or_err (some a) c = ok a

-- A dereference that must find something.
abbrev pub or_fault {ℓ} : {A : Type ℓ} → Option A → StatusOr A
or_fault none = fault
or_fault (some a) = ok a

-- `value()` or `*` of a StatusOr: an error there is fatal.
abbrev pub value {ℓ} : {A : Type ℓ} → StatusOr A → StatusOr A
value (ok a) = ok a
value (err c) = fault
value fault = fault
value no_fuel = no_fuel

pub ok-injective {ℓ} : {A : Type ℓ} {a b : A} → ok a ≡ ok b → a ≡ b
ok-injective e = cc

-- Inversion of a successful chain.
module _ {ℓ κ} {A : Type ℓ} {B : Type κ} where
  pub >>=-eq-ok :
      (r : StatusOr A) (k : A → StatusOr B) {y : B}
      → (r >>= k) ≡ ok y
      → (x : A) × (r ≡ ok x) × (k x ≡ ok y)
  >>=-eq-ok fault k e = cc
  >>=-eq-ok no_fuel k e = cc
  >>=-eq-ok (err c) k e = cc
  >>=-eq-ok (ok x) k e = (x, refl, e)
