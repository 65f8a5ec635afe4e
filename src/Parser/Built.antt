-- ===== src/Parser/Built.antt =====
-- The calls that the parser makes on a logical plan are checked for types before: komfydb/parser.cc.
use komfy_db.Base.{
  arith, ◌≡◌, refl, sym, ap, ◌∙◌, Bool, true, false, ◌&&◌, ◌||◌, if◌then◌else◌, Bytes,
}
use komfy_db.Base.State.{State, ◌>>=◌, ◌>>◌, after, lift}
use komfy_db.Base.Status
use komfy_db.Base.Status.{StatusOr, Status, ok, err, fault, no_fuel, guard, invalid_argument}
use komfy_db.Common.Field.{Field, FieldType, int, string, get_type, type_eq}
use komfy_db.Common.Op.{Op, flip}
use komfy_db.Execution.LogicalPlan.{
  ColumnRef, LogicalPlan, empty_plan, get_column_ref, get_column_type,
}
use komfy_db.Execution.LogicalPlan.Build.{
  Building, Call, run, scan, join, subquery_join, filter_col_col, filter_col_const, group_by,
  aggregate, select, order_by, limit_to, add_subquery_join, add_filter_col_const,
}
use komfy_db.Parser.Condition.{
  reading, column, same_type, compare_types, const_field, is_join, join_with, compared_join,
  compared_filter, constant_filter, join_or_filter, parse_join, column_filter, left_column,
  parse_filter, parse_simple_expression, is_literal, is_constant_expr, is_select,
}
use komfy_db.Parser.Syntax.{Expr, column_ref, literal_int, literal_string}
use komfy_db.Storage.Catalog.{Catalog}

module _ {Sub : Type 0} where
  -- Both columns have one type.
  abbrev pub SameType : LogicalPlan Sub → ColumnRef → ColumnRef → Type 0
  SameType p lref rref =
      (t : FieldType) × (get_column_type p lref ≡ ok t) × (get_column_type p rref ≡ ok t)

  -- A call that compares values of one type, or compares none.
  abbrev pub Allowed : LogicalPlan Sub → Call Sub → Type 0
  Allowed p (join lref op rref) = SameType p lref rref
  Allowed p (filter_col_col lref op rref) = SameType p lref rref
  Allowed p (filter_col_const ref op constant) = get_column_type p ref ≡ ok (get_type constant)
  Allowed p (scan table_id alias) = Unit
  Allowed p (subquery_join ref op subplan) = Unit
  Allowed p (group_by ref) = Unit
  Allowed p (aggregate agg_fun ref) = Unit
  Allowed p (select ref) = Unit
  Allowed p (order_by ref asc) = Unit
  Allowed p (limit_to limit) = Unit

-- The plans that allowed calls can make.
pub data Built (Sub : Type 0) (c : Catalog) : LogicalPlan Sub → Type 0 where
  empty : Built Sub c (empty_plan c)
  called :
      {p : LogicalPlan Sub}
      → Built Sub c p
      → (call : Call Sub) → Allowed p call
      → Built Sub c (run call p).0

types_of : (lt rt : FieldType) → same_type lt rt ≡ ok tt → lt ≡ rt
unfolding type_eq
types_of int int e = refl
types_of string string e = refl
types_of int string e = cc
types_of string int e = cc

const_field-type :
    (t : FieldType) (rexpr : Expr) (f : Field) → const_field t rexpr ≡ ok f → get_type f ≡ t
unfolding get_type
const_field-type int (literal_int v) f h = ground arith
const_field-type string (literal_string s) f h = ground arith
const_field-type int rexpr f h = cc
const_field-type string rexpr f h = cc

module _ {Sub : Type 0} (c : Catalog) where
  abbrev pub Keeps : {A : Type 0} → State (LogicalPlan Sub) A → Type 0
  Keeps m = (p : LogicalPlan Sub) → Built Sub c p → Built Sub c (m p).0

  pub after-Built :
      {A B : Type 0} (k : A → State (LogicalPlan Sub) B) (p : LogicalPlan Sub) (r : StatusOr A)
      → Built Sub c p
      → ((a : A) → r ≡ ok a → Built Sub c (k a p).0)
      → Built Sub c (after k p r).0
  after-Built k p (ok a) h next = next a refl
  after-Built k p (err e) h next = h
  after-Built k p fault h next = h
  after-Built k p no_fuel h next = h

  pub then-Keeps :
      {A B : Type 0} (m : State (LogicalPlan Sub) A) (k : A → State (LogicalPlan Sub) B)
      → Keeps m
      → ((a : A) → Keeps (k a))
      → Keeps (m >>= k)
  then-Keeps m k h next p b = after-Built k (m p).0 (m p).1 (h p b) (λ a _. next a (m p).0 (h p b))

  pub read-Keeps :
      {A B : Type 0} (f : LogicalPlan Sub → StatusOr A) (k : A → State (LogicalPlan Sub) B)
      → ((a : A) → Keeps (k a))
      → Keeps (reading f >>= k)
  read-Keeps f k next = then-Keeps (reading f) k (λ p b. b) next

  pub call-Keeps : (call : Call Sub) → ((p : LogicalPlan Sub) → Allowed p call) → Keeps (run call)
  call-Keeps call h p b = Built.called b call (h p)

  compare_types-SameType :
      (p : LogicalPlan Sub) (lref rref : ColumnRef)
      → compare_types lref rref p ≡ ok tt
      → SameType p lref rref
  unfolding compare_types
  compare_types-SameType p lref rref h =
      let (lt, l, h') = Status.>>=-eq-ok (get_column_type p lref) _ h in
      let (rt, r, same) = Status.>>=-eq-ok (get_column_type p rref) (same_type lt) h' in
      (lt, l, r ∙ ap ok (sym (types_of lt rt same)))

  compared-Built :
      (p : LogicalPlan Sub) (lref rref : ColumnRef) (call : Call Sub)
      → (SameType p lref rref → Allowed p call)
      → Built Sub c p
      → Built Sub c ((reading (compare_types lref rref) >> run call) p).0
  compared-Built p lref rref call allowed b =
      after-Built {B = Unit {0}} (λ u. run call) p (compare_types lref rref p) b
        (λ u e. Built.called b call (allowed (compare_types-SameType p lref rref e)))

  pub column-Keeps :
      (table name : Bytes) (k : ColumnRef → Building Sub)
      → ((ref : ColumnRef) → Keeps (k ref))
      → Keeps (column table name >>= k)
  column-Keeps table name k next = read-Keeps (λ p. get_column_ref p table name) k next

  subplan-Keeps :
      (lref : ColumnRef) (op : Op) (subplan : StatusOr Sub)
      → Keeps (lift subplan >>= λ plan. add_subquery_join lref op plan)
  subplan-Keeps lref op subplan =
      read-Keeps (λ p. subplan) (λ plan. add_subquery_join lref op plan)
        (λ plan. call-Keeps (subquery_join lref op plan) (λ p. tt))

  join_with-Keeps :
      (lref : ColumnRef) (op : Op) (rexpr : Expr) (subplan : StatusOr Sub)
      → Keeps (join_with lref op rexpr subplan)
  unfolding join_with
  join_with-Keeps lref op (column_ref table name) subplan =
      column-Keeps table name (compared_join lref op)
        (λ rref p b. compared-Built p lref rref (join lref op rref) (λ h. h) b)
  join_with-Keeps lref op rexpr subplan = subplan-Keeps lref op subplan

  parse_join-Keeps :
      (lexpr : Expr) (op : Op) (rexpr : Expr) (subplan : StatusOr Sub)
      → Keeps (parse_join lexpr op rexpr subplan)
  unfolding parse_join
  parse_join-Keeps (column_ref table name) op rexpr subplan =
      column-Keeps table name (λ lref. join_with lref op rexpr subplan)
        (λ lref. join_with-Keeps lref op rexpr subplan)
  parse_join-Keeps lexpr op rexpr subplan = λ p b. b

  constant-Keeps :
      (lref : ColumnRef) (op : Op) (rexpr : Expr)
      → Keeps (reading (λ p. get_column_type p lref) >>= λ t. constant_filter lref op rexpr t)
  constant-Keeps lref op rexpr p b =
      after-Built {B = Unit {0}} (λ t. constant_filter lref op rexpr t) p (get_column_type p lref) b
        (λ t e.
          after-Built {B = Unit {0}} (λ f. add_filter_col_const lref op f) p (const_field t rexpr) b
            (λ f e'.
              Built.called b (filter_col_const lref op f)
                (e ∙ ap ok (sym (const_field-type t rexpr f e')))))

  column_filter-Keeps :
      (lref : ColumnRef) (op : Op) (rexpr : Expr) → Keeps (column_filter lref op rexpr)
  unfolding column_filter
  column_filter-Keeps lref op (column_ref table name) =
      column-Keeps table name (compared_filter lref op)
        (λ rref p b. compared-Built p lref rref (filter_col_col lref op rref) (λ h. h) b)
  column_filter-Keeps lref op rexpr = constant-Keeps lref op rexpr

  left_column-Keeps : (lexpr : Expr) (op : Op) (rexpr : Expr) → Keeps (left_column lexpr op rexpr)
  unfolding left_column
  left_column-Keeps (column_ref table name) op rexpr =
      column-Keeps table name (λ lref. column_filter lref op rexpr)
        (λ lref. column_filter-Keeps lref op rexpr)
  left_column-Keeps lexpr op rexpr = λ p b. b

  if-Keeps : (b : Bool) (m n : Building Sub) → Keeps m → Keeps n → Keeps (if b then m else n)
  if-Keeps true m n h k = h
  if-Keeps false m n h k = k

  parse_filter-Keeps : (lexpr : Expr) (op : Op) (rexpr : Expr) → Keeps (parse_filter lexpr op rexpr)
  unfolding parse_filter
  parse_filter-Keeps lexpr op rexpr =
      if-Keeps (is_literal lexpr && is_literal rexpr) (lift (err invalid_argument))
        (if is_literal lexpr then left_column rexpr (flip op) lexpr else left_column lexpr op rexpr)
        (λ p b. b)
        (if-Keeps (is_literal lexpr) (left_column rexpr (flip op) lexpr)
          (left_column lexpr op rexpr) (left_column-Keeps rexpr (flip op) lexpr)
          (left_column-Keeps lexpr op rexpr))

  pub parse_simple_expression-Keeps :
      (lexpr : Expr) (op : Op) (rexpr : Expr) (subplan : StatusOr Sub)
      → Keeps (parse_simple_expression lexpr op rexpr subplan)
  unfolding parse_simple_expression
  parse_simple_expression-Keeps lexpr op rexpr subplan =
      read-Keeps (is_join lexpr rexpr) (join_or_filter lexpr op rexpr subplan) λ joins.
        read-Keeps
          (λ p.
            guard (is_constant_expr lexpr && (is_constant_expr rexpr || is_select rexpr))
              invalid_argument)
          (λ u. if joins then parse_join lexpr op rexpr subplan else parse_filter lexpr op rexpr)
          (λ u.
            if-Keeps joins (parse_join lexpr op rexpr subplan) (parse_filter lexpr op rexpr)
              (parse_join-Keeps lexpr op rexpr subplan) (parse_filter-Keeps lexpr op rexpr))
