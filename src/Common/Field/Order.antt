-- ===== src/Common/Field/Order.antt =====
-- The comparisons of fields as an order (komfydb/common/int_field.cc and string_field.cc), and
-- `Op::Flip` (komfydb/execution/op.cc).
use Prim.Native.Nat.{Ordering}
use komfy_db.Base.{◌≡◌, refl, ◌≢◌, ◌↔◌, ◌⊎◌, true, false, [], ◌∷◌, arith, Bytes, eqb_ℤ_iff}
use komfy_db.Base.Int.{ℤ}
use komfy_db.Base.Status.{ok}
use komfy_db.Common.Op.{Op, equals, greater_than, less_than, like, flip, str_to_op, op_to_str}
use komfy_db.Common.Field.{
  Field, int_field, string_field, compare_int, compare_bytes, compare_string, compare_fields,
  get_type,
}

abbrev opposite : Ordering → Ordering
opposite o = elim o [
  | Ordering.lt ↦ Ordering.gt
  | Ordering.gt ↦ Ordering.lt
  | Ordering.eq ↦ Ordering.eq
]

compare_bytes_swap : (a b : Bytes) → compare_bytes b a ≡ opposite (compare_bytes a b)
unfolding compare_bytes
compare_bytes_swap [] [] = refl
compare_bytes_swap [] (y ∷ b) = refl
compare_bytes_swap (x ∷ a) [] = refl
compare_bytes_swap (x ∷ a) (y ∷ b) = ground (arith, compare_bytes_swap a b)

compare_bytes-eq : (a b : Bytes) → compare_bytes a b ≡ Ordering.eq → a ≡ b
unfolding compare_bytes
compare_bytes-eq [] [] h = refl
compare_bytes-eq [] (y ∷ b) h = ground arith
compare_bytes-eq (x ∷ a) [] h = ground arith
compare_bytes-eq (x ∷ a) (y ∷ b) h = ground (arith, compare_bytes-eq a b)

compare_bytes_refl : (a : Bytes) → compare_bytes a a ≡ Ordering.eq
unfolding compare_bytes
compare_bytes_refl [] = refl
compare_bytes_refl (x ∷ a) = ground (arith, compare_bytes_refl a)

compare_bytes_trans :
    (a b c : Bytes)
    → compare_bytes a b ≡ Ordering.lt
    → compare_bytes b c ≡ Ordering.lt
    → compare_bytes a c ≡ Ordering.lt
unfolding compare_bytes
compare_bytes_trans [] [] c p q = ground arith
compare_bytes_trans [] (y ∷ b) [] p q = ground arith
compare_bytes_trans [] (y ∷ b) (z ∷ c) p q = refl
compare_bytes_trans (x ∷ a) [] c p q = ground arith
compare_bytes_trans (x ∷ a) (y ∷ b) [] p q = ground arith
compare_bytes_trans (x ∷ a) (y ∷ b) (z ∷ c) p q = ground (arith, compare_bytes_trans a b c)

compare_int-flip : (op : Op) (a b : ℤ) → compare_int (flip op) a b ≡ compare_int op b a
unfolding compare_int flip
compare_int-flip equals a b = ground arith
compare_int-flip op a b = ground arith

compare_string-flip :
    (op : Op) (a b : Bytes) → op ≢ like → compare_string (flip op) a b ≡ compare_string op b a
unfolding compare_string flip
compare_string-flip like a b h = absurd (h refl)
compare_string-flip op a b h = ground (arith, compare_bytes_swap a b)

-- The flipped operator compares the same two fields in the other order: for every operator but
-- LIKE, on fields of any two types, errors included.
pub compare_fields-flip :
    (op : Op) (a b : Field) → op ≢ like → compare_fields (flip op) a b ≡ compare_fields op b a
unfolding compare_fields
compare_fields-flip op (int_field a) (int_field b) h = ground (arith, compare_int-flip op a b)
compare_fields-flip op (int_field a) (string_field b) h = refl
compare_fields-flip op (string_field a) (int_field b) h = refl
compare_fields-flip op (string_field a) (string_field b) h =
    ground (arith, compare_string-flip op a b)

-- EQUALS answers true exactly on one and the same value (of one type).
pub compare_fields-equals : (a b : Field) → (compare_fields equals a b ≡ ok true) ↔ (a ≡ b)
unfolding compare_fields compare_int compare_string
compare_fields-equals (int_field a) (int_field b) = ground (arith, eqb_ℤ_iff a b)
compare_fields-equals (int_field a) (string_field b) = ground arith
compare_fields-equals (string_field a) (int_field b) = ground arith
compare_fields-equals (string_field a) (string_field b) =
    ground (arith, compare_bytes-eq a b, compare_bytes_refl a)

-- LESS_THAN is transitive.
pub less_than_trans :
    (a b c : Field)
    → compare_fields less_than a b ≡ ok true
    → compare_fields less_than b c ≡ ok true
    → compare_fields less_than a c ≡ ok true
unfolding compare_fields compare_int compare_string
less_than_trans (int_field a) (int_field b) (int_field c) h g = ground arith
less_than_trans (int_field a) (int_field b) (string_field c) h g = ground arith
less_than_trans (string_field a) (string_field b) (string_field c) h g =
    ground (arith, compare_bytes_trans a b c)
less_than_trans (string_field a) (string_field b) (int_field c) h g = ground arith
less_than_trans (int_field a) (string_field b) c h g = ground arith
less_than_trans (string_field a) (int_field b) c h g = ground arith

-- On two values of one type exactly one of LESS_THAN, EQUALS and GREATER_THAN answers true.
pub trichotomy :
    (a b : Field)
    → get_type a ≡ get_type b
    → ((compare_fields less_than a b ≡ ok true)
        × (compare_fields equals a b ≡ ok false)
        × (compare_fields greater_than a b ≡ ok false))
      ⊎ ((compare_fields less_than a b ≡ ok false)
          × (compare_fields equals a b ≡ ok true)
          × (compare_fields greater_than a b ≡ ok false))
      ⊎ ((compare_fields less_than a b ≡ ok false)
          × (compare_fields equals a b ≡ ok false)
          × (compare_fields greater_than a b ≡ ok true))
unfolding compare_fields compare_int compare_string get_type
trichotomy (int_field a) (int_field b) h = ground arith
trichotomy (string_field a) (string_field b) h = ground arith
trichotomy (int_field a) (string_field b) h = ground arith
trichotomy (string_field a) (int_field b) h = ground arith

-- The printed operators are read back.
pub str_to_op-op_to_str : (op : Op) → str_to_op (op_to_str op) ≡ ok op
unfolding str_to_op op_to_str
str_to_op-op_to_str equals = refl
str_to_op-op_to_str op = refl
