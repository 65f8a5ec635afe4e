-- ===== src/Common/Tuple/Equality.antt =====
-- `Tuple::operator==` (komfydb/common/tuple.cc).

use komfy_db.Base.{
  ℕ, ◌≡◌, refl, ◌≢◌, ◌⊎◌, inl, ap, true, false, [], ◌∷◌, arith, bytes_eq_iff, eqb_ℤ_iff, Option,
  none, some, length,
}
use komfy_db.Base.Status.{ok}
use komfy_db.Common.Field.{Field, int_field, string_field}
use komfy_db.Common.Tuple.{Tuple, same_field, fields_eq, tuple_eq}

-- Every field is set.
abbrev pub IsFilled : Tuple → Type 0
IsFilled [] = Unit
IsFilled (f ∷ t) = (f ≢ none) × IsFilled t

same_field_iff :
    (a b : Option Field)
    → a ≢ none
    → b ≢ none
    → ((same_field a b ≡ ok true) × (a ≡ b)) ⊎ ((same_field a b ≡ ok false) × (a ≢ b))
unfolding same_field
same_field_iff none b p q = absurd (p refl)
same_field_iff (some a) none p q = absurd (q refl)
same_field_iff (some (int_field a)) (some (int_field b)) p q = ground (arith, eqb_ℤ_iff a b)
same_field_iff (some (int_field a)) (some (string_field b)) p q = ground arith
same_field_iff (some (string_field a)) (some (int_field b)) p q = ground arith
same_field_iff (some (string_field a)) (some (string_field b)) p q =
    ground (arith, bytes_eq_iff a b)

fields_eq_iff :
    (a b : Tuple)
    → length a ≡ length b
    → IsFilled a
    → IsFilled b
    → ((fields_eq a b ≡ ok true) × (a ≡ b)) ⊎ ((fields_eq a b ≡ ok false) × (a ≢ b))
unfolding fields_eq
fields_eq_iff [] [] h p q = inl (refl, refl)
fields_eq_iff [] (y ∷ b) h p q = absurd (omega arith)
fields_eq_iff (x ∷ a) [] h p q = absurd (omega arith)
fields_eq_iff (x ∷ a) (y ∷ b) h p q =
    ground (arith, same_field_iff x y p.0 q.0, fields_eq_iff a b (omega arith) p.1 q.1)

-- On tuples whose fields are all set, `==` neither faults nor fails, and it answers true exactly
-- on equal tuples.
pub tuple_eq_iff :
    (a b : Tuple)
    → IsFilled a
    → IsFilled b
    → ((tuple_eq a b ≡ ok true) × (a ≡ b)) ⊎ ((tuple_eq a b ≡ ok false) × (a ≢ b))
unfolding tuple_eq
tuple_eq_iff a b p q = ground (arith, fields_eq_iff a b, ap {B = ℕ} length {x = a} {y = b})
