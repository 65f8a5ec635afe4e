-- ===== src/Execution/Predicate.antt =====
-- Filter and join predicates: komfydb/execution/predicate.h, predicate.cc, join_predicate.h and
-- join_predicate.cc. Their `value()` and `*` make an error fatal.
use komfy_db.Base.{Bool}
use komfy_db.Base.Int.{ℤ}
use komfy_db.Base.Status.{StatusOr, ◌>>=◌, value}
use komfy_db.Common.Field.{Field, compare_fields}
use komfy_db.Common.Op.{Op}
use komfy_db.Common.Tuple.{Tuple, get_field}

pub data Predicate : Type 0 where
  col_const : ℤ → Op → Field → Predicate
  col_col : ℤ → Op → ℤ → Predicate

-- `Predicate::Evaluate`
unfoldable pub evaluate : Predicate → Tuple → StatusOr Bool
evaluate (col_const l_field op const_field) t = do
  l ← value (get_field t l_field)
  value (compare_fields op l const_field)
evaluate (col_col l_field op r_field) t = do
  r ← value (get_field t r_field)
  l ← value (get_field t l_field)
  value (compare_fields op l r)

pub record JoinPredicate : Type 0 where
  pub l_field_idx : ℤ
  pub op : Op
  pub r_field_idx : ℤ

-- `JoinPredicate::Filter`
unfoldable pub matches : JoinPredicate → Tuple → Tuple → StatusOr Bool
matches p l_tuple r_tuple = do
  l ← value (get_field l_tuple p.l_field_idx)
  r ← value (get_field r_tuple p.r_field_idx)
  value (compare_fields p.op l r)
