-- ===== src/Execution/Aggregator.antt =====
-- Aggregate functions: komfydb/execution/aggregator.h and aggregate_tuple.cc.
use komfy_db.Base.{
  ℕ, Bool, true, false, List, [], ◌∷◌, map, if◌then◌else◌, ◌+◌, ◌&&◌, leb, Bytes, codes, bytes_eq,
  Option, some,
}
use komfy_db.Base.Int.{ℤ, pos, ◌+ℤ◌, is_int, ltb_ℤ, div_ℤ}
use komfy_db.Base.Status.{StatusOr, ok, err, fault, ◌>>=◌, invalid_argument}
use komfy_db.Common.Field.{Field, int_field, string_field, FieldType, int, string, compare_fields}
use komfy_db.Common.Op.{less_than, greater_than}
use komfy_db.Common.Tuple.{Tuple}

pub data AggregateType : Type 0 where
  none max min sum avg count : AggregateType

-- `std::tolower` on ASCII.
unfoldable pub tolower : ℕ → ℕ
tolower c = if leb b'A' c && leb c b'Z' then c + 32 else c

abbrev pub str_to_agg : List (Bytes × AggregateType)
str_to_agg =
    (codes "max", max)
    ∷ (codes "min", min)
    ∷ (codes "sum", sum)
    ∷ (codes "avg", avg)
    ∷ (codes "count", count)
    ∷ (codes "none", none)
    ∷ []

unfoldable pub find_agg : Bytes → List (Bytes × AggregateType) → StatusOr AggregateType
find_agg fun [] = err invalid_argument
find_agg fun ((k, v) ∷ rest) = if bytes_eq k fun then ok v else find_agg fun rest

-- `GetAggregateType`
unfoldable pub get_aggregate_type : Bytes → StatusOr AggregateType
unfolding tolower find_agg bytes_eq
get_aggregate_type fun = find_agg (map tolower fun) str_to_agg

-- `AggregateTypeToString`
unfoldable pub aggregate_type_to_string : AggregateType → Bytes
aggregate_type_to_string none = codes "none"
aggregate_type_to_string max = codes "max"
aggregate_type_to_string min = codes "min"
aggregate_type_to_string sum = codes "sum"
aggregate_type_to_string avg = codes "avg"
aggregate_type_to_string count = codes "count"

-- `IsApplicable`
unfoldable pub is_applicable : AggregateType → FieldType → Bool
is_applicable type int = true
is_applicable avg string = false
is_applicable sum string = false
is_applicable none string = true
is_applicable max string = true
is_applicable min string = true
is_applicable count string = true

-- A sum of two `int`: overflow is undefined.
abbrev pub add_int : ℤ → ℤ → StatusOr Field
add_int a b = if is_int (a +ℤ b) then ok (int_field (a +ℤ b)) else fault

-- The branch `Type::INT` of `ApplyAggregate`: the new field is cast to an `IntField` where its value
-- is read.
unfoldable pub apply_int : AggregateType → ℤ → Field → StatusOr Field
apply_int none old new = ok (int_field old)
apply_int count old new = add_int old (pos 1)
apply_int avg old (int_field new) = add_int old new
apply_int sum old (int_field new) = add_int old new
apply_int max old (int_field new) = ok (int_field (if ltb_ℤ old new then new else old))
apply_int min old (int_field new) = ok (int_field (if ltb_ℤ new old then new else old))
apply_int type old (string_field s) = fault

-- The branch `Type::STRING`.
unfoldable pub apply_string : AggregateType → Bytes → Field → StatusOr Field
apply_string none old new = ok (string_field old)
apply_string max old (string_field new) = do
  replace ← compare_fields less_than (string_field old) (string_field new)
  ok (string_field (if replace then new else old))
apply_string min old (string_field new) = do
  replace ← compare_fields greater_than (string_field old) (string_field new)
  ok (string_field (if replace then new else old))
apply_string max old (int_field v) = fault
apply_string min old (int_field v) = fault
apply_string sum old new = err invalid_argument
apply_string avg old new = err invalid_argument
apply_string count old new = err invalid_argument

-- `ApplyAggregate` to a field that is set: the new value of the field.
unfoldable pub apply_aggregate : AggregateType → Field → Field → StatusOr Field
unfolding apply_int apply_string
apply_aggregate type (int_field old) new = apply_int type old new
apply_aggregate type (string_field old) new = apply_string type old new

pub record AggregateTuple : Type 0 where
  pub fields : Tuple
  pub group_size : ℕ

-- `FinalizeAggregates`, field by field.
unfoldable pub finalize_field : AggregateType → ℕ → Field → StatusOr Field
finalize_field avg n (int_field v) = ok (int_field (div_ℤ v n))
finalize_field avg n (string_field s) = fault
finalize_field none n f = ok f
finalize_field max n f = ok f
finalize_field min n f = ok f
finalize_field sum n f = ok f
finalize_field count n f = ok f

unfoldable pub finalize_fields : List AggregateType → ℕ → Tuple → StatusOr Tuple
unfolding finalize_field
finalize_fields types n [] = ok []
finalize_fields types n (Option.none ∷ t) = err invalid_argument
finalize_fields [] n (some f ∷ t) = fault
finalize_fields (type ∷ types) n (some f ∷ t) = do
  f' ← finalize_field type n f
  rest ← finalize_fields types n t
  ok (some f' ∷ rest)

-- `FinalizeAggregates`
unfoldable pub finalize_aggregates : List AggregateType → AggregateTuple → StatusOr AggregateTuple
unfolding finalize_fields
finalize_aggregates types g = do
  t ← finalize_fields types g.group_size g.fields
  ok (record g { fields = t })
