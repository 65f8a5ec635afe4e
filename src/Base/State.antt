-- ===== src/Base/State.antt =====
-- Methods that change an object, as a state monad: the object afterwards, also after an error or a
-- fault, beside the result.
use mathlib.Core.Path.{◌≡◌, refl, ap}
use komfy_db.Base.Status.{StatusOr, ok, err, fault, no_fuel}

abbrev pub State : Type 0 → Type 0 → Type 0
State S A = S → S × StatusOr A

module _ {S A B : Type 0} where
  -- what follows a call that returned the object `s` and the result `r`
  abbrev pub after : (A → State S B) → S → StatusOr A → S × StatusOr B
  after f s (ok a) = f a s
  after f s (err c) = (s, err c)
  after f s fault = (s, fault)
  after f s no_fuel = (s, no_fuel)

  infixl 5 ◌>>=◌
  abbrev pub ◌>>=◌ : State S A → (A → State S B) → State S B
  ◌>>=◌ m f s = after f (m s).0 (m s).1

infixl 5 ◌>>◌
abbrev pub ◌>>◌ : {S B : Type 0} → State S (Unit {0}) → State S B → State S B
m >> k = m >>= λ _. k

abbrev pub return : {S A : Type 0} → A → State S A
return a s = (s, ok a)

-- A result that touches no object.
abbrev pub lift : {S A : Type 0} → StatusOr A → State S A
lift r s = (s, r)

-- Inversion of a successful chain.
module _ {S A B : Type 0} where
  after-eq-ok :
      (f : A → State S B) (s : S) (r : StatusOr A) {t : S} {b : B}
      → after f s r ≡ (t, ok b)
      → (a : A) × (r ≡ ok a) × (f a s ≡ (t, ok b))
  after-eq-ok f s (ok a) e = (a, refl, e)
  after-eq-ok f s (err c) e = cc
  after-eq-ok f s fault e = cc
  after-eq-ok f s no_fuel e = cc

  pub >>=-eq-ok :
      (m : State S A) (f : A → State S B) (s : S) {t : S} {b : B}
      → (m >>= f) s ≡ (t, ok b)
      → (u : S) × (a : A) × (m s ≡ (u, ok a)) × (f a u ≡ (t, ok b))
  >>=-eq-ok m f s e =
      let (a, r, k) = after-eq-ok f (m s).0 (m s).1 e in ((m s).0, a, ap (λ x. ((m s).0, x)) r, k)
