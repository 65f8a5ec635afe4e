-- ===== src/Parser/Conjuncts.antt =====
-- A WHERE clause is the sequence of its conditions, and a constant may stand on either side of a
-- comparison: komfydb/parser.cc.
use mathlib.Core.Path.{fun_ext}
use komfy_db.Base.{◌≡◌, refl, sym, ap, ◌∙◌, List, [], ◌∷◌, ◌++◌, Bytes}
use komfy_db.Base.State.{State, ◌>>=◌, ◌>>◌, after, return}
use komfy_db.Base.Status.{StatusOr, ok, err, fault, no_fuel}
use komfy_db.Common.Field.{Field, int_field, string_field}
use komfy_db.Common.Op.{Op, flip}
use komfy_db.Execution.LogicalPlan.{LogicalPlan}
use komfy_db.Execution.LogicalPlan.Build.{Building}
use komfy_db.Parser.Condition.{
  parse_filter, parse_simple_expression, is_literal, is_constant_expr, is_join,
}
use komfy_db.Parser.Select.{parse_where_expression}
use komfy_db.Parser.Syntax.{Expr, operator, op_and, column_ref, literal_int, literal_string}
use komfy_db.Storage.Catalog.{Catalog}

-- The conditions between the ANDs of an expression, from left to right.
pub conjuncts : Expr → List Expr
conjuncts Expr.null = []
conjuncts (operator op_and expr expr2) = conjuncts expr ++ conjuncts expr2
conjuncts expr = expr ∷ []

module _ {S A B : Type 0} where
  then_assoc :
      (f : A → State S B) {C : Type 0} (g : B → State S C) (s : S) (r : StatusOr A)
      → after g (after f s r).0 (after f s r).1 ≡ after (λ a. f a >>= g) s r
  then_assoc f g s (ok a) = refl
  then_assoc f g s (err c) = refl
  then_assoc f g s fault = refl
  then_assoc f g s no_fuel = refl

then_return : {S : Type 0} (s : S) (r : StatusOr (Unit {0})) → after (λ _. return tt) s r ≡ (s, r)
then_return s (ok u) = refl
then_return s (err c) = refl
then_return s fault = refl
then_return s no_fuel = refl

then_cong :
    {S : Type 0} (m n k l : State S (Unit {0}))
    → ((s : S) → m s ≡ n s)
    → ((s : S) → k s ≡ l s)
    → (s : S) → (m >> k) s ≡ (n >> l) s
then_cong m n k l h h' s =
    ap (λ x. after (λ (u : Unit {0}). k) (x s).0 (x s).1) (fun_ext h)
    ∙ ap (λ x. after (λ (u : Unit {0}). x) (n s).0 (n s).1) (fun_ext h')

module _ {Sub : Type 0} (pack : LogicalPlan Sub → Sub) (c : Catalog) where
  -- One condition after the other.
  pub parse_each : List Expr → Building Sub
  parse_each [] = return tt
  parse_each (expr ∷ rest) = parse_where_expression pack c expr >> parse_each rest

  parse_each-append :
      (xs ys : List Expr) (p : LogicalPlan Sub)
      → parse_each (xs ++ ys) p ≡ (parse_each xs >> parse_each ys) p
  unfolding parse_each
  parse_each-append [] ys p = refl
  parse_each-append (x ∷ xs) ys p =
      let m = parse_where_expression pack c x in
      ap (λ k. after (λ (u : Unit {0}). k) (m p).0 (m p).1) (fun_ext (parse_each-append xs ys))
      ∙ sym (then_assoc (λ u. parse_each xs) (λ u. parse_each ys) (m p).0 (m p).1)

  parse_each-single :
      (expr : Expr) (p : LogicalPlan Sub)
      → parse_where_expression pack c expr p ≡ parse_each (expr ∷ []) p
  unfolding parse_each
  parse_each-single expr p =
      let m = parse_where_expression pack c expr in sym (then_return (m p).0 (m p).1)

  -- AND is the sequence of its sides.
  parse_and :
      (expr expr2 : Expr) (p : LogicalPlan Sub)
      → parse_where_expression pack c (operator op_and expr expr2) p
        ≡ (parse_where_expression pack c expr >> parse_where_expression pack c expr2) p
  unfolding parse_where_expression
  parse_and expr expr2 p = refl

  parse_null : (p : LogicalPlan Sub) → parse_where_expression pack c Expr.null p ≡ parse_each [] p
  unfolding parse_where_expression parse_each
  parse_null p = refl

  -- Parsing a WHERE clause is parsing the conditions between its ANDs from left to right, however the
  -- ANDs are nested, up to the first one that is refused.
  pub parse_where_expression-conjuncts :
      (expr : Expr) (p : LogicalPlan Sub)
      → parse_where_expression pack c expr p ≡ parse_each (conjuncts expr) p
  unfolding conjuncts
  parse_where_expression-conjuncts Expr.null p = parse_null p
  parse_where_expression-conjuncts (operator op_and expr expr2) p =
      parse_and expr expr2 p
      ∙ then_cong (parse_where_expression pack c expr) (parse_each (conjuncts expr))
          (parse_where_expression pack c expr2) (parse_each (conjuncts expr2))
          (parse_where_expression-conjuncts expr) (parse_where_expression-conjuncts expr2) p
      ∙ sym (parse_each-append (conjuncts expr) (conjuncts expr2) p)
  parse_where_expression-conjuncts expr p = parse_each-single expr p

-- The literal for a constant.
abbrev pub literal_of : Field → Expr
literal_of (int_field v) = literal_int v
literal_of (string_field s) = literal_string s

-- A constant on the left of a comparison with a column is parsed as the column with the flipped operator
-- and the constant on the right.
pub parse_simple_expression-flip :
    {Sub : Type 0} (constant : Field) (op : Op) (table name : Bytes) (subplan : StatusOr Sub)
    (p : LogicalPlan Sub)
    → parse_simple_expression (literal_of constant) op (column_ref table name) subplan p
      ≡ parse_simple_expression (column_ref table name) (flip op) (literal_of constant) subplan p
unfolding parse_simple_expression is_join is_constant_expr parse_filter is_literal
parse_simple_expression-flip (int_field v) op table name subplan p = refl
parse_simple_expression-flip (string_field s) op table name subplan p = refl
