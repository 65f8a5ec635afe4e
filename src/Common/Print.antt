-- ===== src/Common/Print.antt =====
-- The printed forms of values: the conversions to `std::string` in komfydb/common/int_field.cc,
-- string_field.cc, tuple.cc and tuple_desc.cc.
use komfy_db.Base.{
  ℕ, zero, suc, ◌+◌, ◌/◌, ◌%◌, List, [], ◌∷◌, ◌++◌, none, some, if◌then◌else◌, ltb, Bytes, codes,
}
use komfy_db.Base.Int.{ℤ, pos, negsuc}
use komfy_db.Base.Status.{StatusOr, ok, fault, ◌>>=◌}
use komfy_db.Common.Field.{Field, int_field, string_field}
use komfy_db.Common.Tuple.{Tuple}
use komfy_db.Common.TupleDesc.{TdItem, TupleDesc, item_to_str}

-- the decimal digits of a number before `rest`; `fuel` rounds at most, one for each digit
unfoldable pub digits : (fuel n : ℕ) → Bytes → Bytes
digits zero n rest = rest
digits (suc fuel) n rest =
    let more = digits fuel (n / 10) ((b'0' + n % 10) ∷ rest) in
    if ltb n 10 then (b'0' + n) ∷ rest else more

-- `std::to_string` of an `int`: ten digits at most.
unfoldable pub to_string : ℤ → Bytes
unfolding digits
to_string (pos n) = digits 10 n []
to_string (negsuc n) = b'-' ∷ digits 10 (suc n) []

unfoldable pub field_to_str : Field → Bytes
unfolding to_string
field_to_str (int_field v) = to_string v
field_to_str (string_field s) = s

-- `Tuple::operator std::string`: a null field is dereferenced, and so is the last of no fields.
unfoldable pub tuple_to_str : Tuple → StatusOr Bytes
unfolding field_to_str
tuple_to_str [] = fault
tuple_to_str (none ∷ t) = fault
tuple_to_str (some f ∷ []) = ok (field_to_str f)
tuple_to_str (some f ∷ g ∷ t) = do
  rest ← tuple_to_str (g ∷ t)
  ok (field_to_str f ++ (codes " " ++ rest))

unfoldable pub items_to_str : List TdItem → StatusOr Bytes
unfolding item_to_str
items_to_str [] = fault
items_to_str (i ∷ []) = ok (item_to_str i)
items_to_str (i ∷ j ∷ items) = do
  rest ← items_to_str (j ∷ items)
  ok (item_to_str i ++ (codes ", " ++ rest))

-- `TupleDesc::operator std::string`
abbrev pub desc_to_str : TupleDesc → StatusOr Bytes
desc_to_str td = items_to_str td.items
