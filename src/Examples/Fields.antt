-- ===== src/Examples/Fields.antt =====
-- Examples for fields, tuples and schemas.
use komfy_db.Base.{ℕ, ◌<◌, ◌≡◌, refl, ◌≢◌, ◌↔◌, ◌⊎◌, true, false, codes}
use komfy_db.Base.Int.{pos, negsuc}
use komfy_db.Base.Status.{ok, err, invalid_argument}
use komfy_db.Common.Field.{Field, int_field, string_field, get_type, compare_fields}
use komfy_db.Common.Field.Order.{compare_fields-flip, compare_fields-equals}
use komfy_db.Common.Op.{equals, less_than, flip}
use komfy_db.Common.Tuple.{tuple_eq}
use komfy_db.Common.Tuple.Equality.{IsFilled, tuple_eq_iff}
use komfy_db.Common.TupleDesc.{get_field_name, index_for_field_name}
use komfy_db.Common.TupleDesc.Lookup.{index_for_field_name_lem}
use komfy_db.Examples.{people, ann, bob}

abbrev ant : Field
ant = string_field (codes "ant")

abbrev bee : Field
bee = string_field (codes "bee")

abbrev cow : Field
cow = string_field (codes "cow")

compare_fields-flip_example :
    compare_fields (flip less_than) (int_field (pos 3)) (int_field (negsuc 3))
    ≡ compare_fields less_than (int_field (negsuc 3)) (int_field (pos 3))
compare_fields-flip_example =
    compare_fields-flip less_than (int_field (pos 3)) (int_field (negsuc 3)) (λ e. cc)

compare_fields-equals_example : (compare_fields equals ant bee ≡ ok true) ↔ (ant ≡ bee)
compare_fields-equals_example = compare_fields-equals ant bee

ant-bee : compare_fields less_than ant bee ≡ ok true
unfolding compare_fields
ant-bee = refl

bee-cow : compare_fields less_than bee cow ≡ ok true
unfolding compare_fields
bee-cow = refl

both_strings : get_type ant ≡ get_type bee
unfolding get_type
both_strings = refl

ann-IsFilled : IsFilled ann
ann-IsFilled = ((λ e. cc), ((λ e. cc), tt))

bob-IsFilled : IsFilled bob
bob-IsFilled = ((λ e. cc), ((λ e. cc), tt))

tuple_eq_iff_example :
    ((tuple_eq ann bob ≡ ok true) × (ann ≡ bob)) ⊎ ((tuple_eq ann bob ≡ ok false) × (ann ≢ bob))
tuple_eq_iff_example = tuple_eq_iff ann bob ann-IsFilled bob-IsFilled

index_for_field_name_lem_example :
    ((k : ℕ) × (index_for_field_name people (codes "name") ≡ ok k)
      × (get_field_name people (pos k) ≡ ok (codes "name"))
      × ((j : ℕ) → j < k → get_field_name people (pos j) ≢ ok (codes "name")))
    ⊎ ((index_for_field_name people (codes "name") ≡ err invalid_argument)
        × ((j : ℕ) → get_field_name people (pos j) ≢ ok (codes "name")))
index_for_field_name_lem_example = index_for_field_name_lem people (codes "name")
