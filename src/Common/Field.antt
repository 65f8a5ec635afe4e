-- ===== src/Common/Field.antt =====
-- Field values: komfydb/common/type.h, type.cc, field.h, int_field.cc and string_field.cc.
pub mod Order
use Prim.Native.Nat.{compare, Ordering}
use komfy_db.Base.{ℕ, ◌+◌, Bool, true, false, not, ◌&&◌, ◌||◌, [], ◌∷◌, ◌==◌, Bytes, codes}
use komfy_db.Base.Int.{ℤ, ltb_ℤ, leb_ℤ, eqb_ℤ}
use komfy_db.Base.Status.{StatusOr, ok, err, invalid_argument}
use komfy_db.Common.Op.{
  Op, equals, greater_than, less_than, less_than_or_eq, greater_than_or_eq, like, not_equals,
}

-- `Type::Value`
pub data FieldType : Type 0 where
  int string : FieldType

abbrev pub str_len : ℕ
str_len = 128

abbrev pub int_len : ℕ
int_len = 4

-- `Type::GetLen`
unfoldable pub get_len : FieldType → ℕ
get_len int = int_len
get_len string = str_len + int_len

-- `Type::operator==`
unfoldable pub type_eq : FieldType → FieldType → Bool
type_eq int int = true
type_eq string string = true
type_eq int string = false
type_eq string int = false

-- `Type::operator std::string`
unfoldable pub type_to_str : FieldType → Bytes
type_to_str int = codes "int"
type_to_str string = codes "str"

-- `IntField` and `StringField`
pub data Field : Type 0 where
  int_field : ℤ → Field
  string_field : Bytes → Field

unfoldable pub get_type : Field → FieldType
get_type (int_field v) = int
get_type (string_field s) = string

-- The switch of `IntField::Compare`.
unfoldable pub compare_int : Op → ℤ → ℤ → Bool
compare_int equals value fv = eqb_ℤ value fv
compare_int like value fv = eqb_ℤ value fv
compare_int not_equals value fv = not (eqb_ℤ value fv)
compare_int greater_than value fv = ltb_ℤ fv value
compare_int greater_than_or_eq value fv = leb_ℤ fv value
compare_int less_than value fv = ltb_ℤ value fv
compare_int less_than_or_eq value fv = leb_ℤ value fv

-- `std::string::compare`: by the first byte that differs, then by length.
unfoldable pub compare_bytes : Bytes → Bytes → Ordering
compare_bytes [] [] = Ordering.eq
compare_bytes [] (b ∷ bs) = Ordering.lt
compare_bytes (a ∷ xs) [] = Ordering.gt
compare_bytes (a ∷ xs) (b ∷ bs) =
    let rest = compare_bytes xs bs in
    elim (compare a b) [
      | Ordering.lt ↦ Ordering.lt
      | Ordering.gt ↦ Ordering.gt
      | Ordering.eq ↦ rest
    ]

unfoldable pub is_prefix : Bytes → Bytes → Bool
is_prefix [] s = true
is_prefix (p ∷ ps) [] = false
is_prefix (p ∷ ps) (c ∷ s) = (p == c) && is_prefix ps s

-- `value.find(fs, 0) != npos`
unfoldable pub contains : Bytes → Bytes → Bool
unfolding is_prefix
contains [] fs = is_prefix fs []
contains (c ∷ s) fs = is_prefix fs (c ∷ s) || contains s fs

abbrev pub is_eq : Ordering → Bool
is_eq o = elim o [ Ordering.eq ↦ true | _ ↦ false ]

abbrev pub is_lt : Ordering → Bool
is_lt o = elim o [ Ordering.lt ↦ true | _ ↦ false ]

abbrev pub is_gt : Ordering → Bool
is_gt o = elim o [ Ordering.gt ↦ true | _ ↦ false ]

-- The switch of `StringField::Compare`, on `cmp_val`.
unfoldable pub compare_string : Op → Bytes → Bytes → Bool
unfolding compare_bytes contains
compare_string equals value fs = is_eq (compare_bytes value fs)
compare_string not_equals value fs = not (is_eq (compare_bytes value fs))
compare_string greater_than value fs = is_gt (compare_bytes value fs)
compare_string greater_than_or_eq value fs = not (is_lt (compare_bytes value fs))
compare_string less_than value fs = is_lt (compare_bytes value fs)
compare_string less_than_or_eq value fs = not (is_gt (compare_bytes value fs))
compare_string like value fs = contains value fs

-- `Field::Compare`
unfoldable pub compare_fields : Op → Field → Field → StatusOr Bool
unfolding compare_int compare_string
compare_fields op (int_field v) (int_field f) = ok (compare_int op v f)
compare_fields op (string_field v) (string_field f) = ok (compare_string op v f)
compare_fields op (int_field v) (string_field f) = err invalid_argument
compare_fields op (string_field v) (int_field f) = err invalid_argument
