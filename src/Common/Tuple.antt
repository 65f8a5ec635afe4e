-- ===== src/Common/Tuple.antt =====
-- Tuples of fields that may be unset: komfydb/common/tuple.h and tuple.cc.
pub mod Equality
use komfy_db.Base.{
  ℕ, Bool, true, false, List, [], ◌∷◌, ◌++◌, if◌then◌else◌, ◌==◌, ltb, bytes_eq, length, at?, set,
  replicate, Option, none, some,
}
use komfy_db.Base.Int.{ℤ, pos, negsuc, eqb_ℤ}
use komfy_db.Base.Status.{StatusOr, ok, err, fault, ◌>>=◌, or_err, invalid_argument}
use komfy_db.Common.Field.{Field, int_field, string_field}

-- `fields`; `none` is a null pointer.
abbrev pub Tuple : Type 0
Tuple = List (Option Field)

-- `Tuple(int size)`
abbrev pub make : ℕ → Tuple
make size = replicate size none

-- `Tuple(Tuple& t1, Tuple&& t2)`: the new tuple, and `t2` with its fields moved out.
unfoldable pub join : Tuple → Tuple → Tuple × Tuple
join t1 t2 = (t1 ++ t2, replicate (length t2) none)

abbrev pub not_set : Option Field → StatusOr Field
not_set none = err invalid_argument
not_set (some f) = ok f

-- `GetField`: out of range and not set yet are both errors.
unfoldable pub get_field : Tuple → ℤ → StatusOr Field
get_field t i = do f ← or_err (at? t i) invalid_argument; not_set f

-- `ReleaseField`: the field moves out.
unfoldable pub release_field : Tuple → ℤ → Tuple × StatusOr Field
unfolding get_field
release_field t (negsuc i) = (t, err invalid_argument)
release_field t (pos i) = elim (get_field t (pos i)) [
  | ok f ↦ (set t i none, ok f)
  | err c ↦ (t, err c)
  | other ↦ (t, other)
]

unfoldable pub set_field : Tuple → ℤ → Option Field → StatusOr Tuple
set_field t (negsuc i) f = err invalid_argument
set_field t (pos i) f = if ltb i (length t) then ok (set t i f) else err invalid_argument

-- One round of the loop of `operator==`: a null field is dereferenced.
unfoldable pub same_field : Option Field → Option Field → StatusOr Bool
same_field (some (int_field a)) (some (int_field b)) = ok (eqb_ℤ a b)
same_field (some (string_field a)) (some (string_field b)) = ok (bytes_eq a b)
same_field (some (int_field a)) (some (string_field b)) = ok false
same_field (some (string_field a)) (some (int_field b)) = ok false
same_field none b = fault
same_field (some a) none = fault

unfoldable pub fields_eq : Tuple → Tuple → StatusOr Bool
unfolding same_field
fields_eq (a ∷ as') (b ∷ bs) =
    let rest = fields_eq as' bs in do same ← same_field a b; if same then rest else ok false
fields_eq [] bs = ok true
fields_eq (a ∷ as') [] = ok true

-- `Tuple::operator==`
unfoldable pub tuple_eq : Tuple → Tuple → StatusOr Bool
unfolding fields_eq
tuple_eq a b = if length a == length b then fields_eq a b else ok false
