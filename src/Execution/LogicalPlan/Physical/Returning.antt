-- ===== src/Execution/LogicalPlan/Physical/Returning.antt =====
-- The calls that make one operator of a physical plan return
-- (komfydb/execution/logical_plan/logical_plan.cc and komfydb/optimizer/join_optimizer.cc).
use komfy_db.Base.{
  ℕ, suc, Bool, true, false, List, [], ◌∷◌, Option, Bytes, if◌then◌else◌, at?, bytes_eq, ◌&&◌, ◌==◌,
}
use komfy_db.Base.Ends.{Returns, >>=-Returns, or_err-Returns, or_fault-Returns, guard-Returns}
use komfy_db.Base.Int.{ℤ, pos}
use komfy_db.Base.Maps.{lookup}
use komfy_db.Base.Status.{
  StatusOr, ok, or_err, or_fault, guard, invalid_argument, failed_precondition,
}
use komfy_db.Common.Field.{type_eq}
use komfy_db.Common.Op.{Op}
use komfy_db.Common.TupleDesc.{
  TdItem, TupleDesc, get_item, get_field_type, get_field_name, index_from, index_for_field_name,
}
use komfy_db.Storage.Catalog.{Catalog, get_table_name, get_database_file, get_tuple_desc}
use komfy_db.Execution.Filter
use komfy_db.Execution.Predicate.{Predicate, col_const, col_col}
use komfy_db.Execution.LogicalPlan.{
  ColumnRef, FilterNode, two_columns, column_constant, ScanNode, get_predicate,
}
use komfy_db.Execution.LogicalPlan.Fields.{column_from}
use komfy_db.Execution.LogicalPlan.Physical.{
  Plan, tuple_desc, aliases_of, index_of, create_scan, create_filter, create_join, join_two,
  join_first,
}

pub if-Returns :
    {A : Type 0} (b : Bool) (r s : StatusOr A)
    → Returns r
    → Returns s
    → Returns (if b then r else s)
if-Returns true r s h k = h
if-Returns false r s h k = k

pub get_item-Returns : (td : TupleDesc) (i : ℤ) → Returns (get_item td i)
unfolding get_item
get_item-Returns td i = or_err-Returns (at? td.items i) invalid_argument

pub get_field_type-Returns : (td : TupleDesc) (i : ℤ) → Returns (get_field_type td i)
unfolding get_field_type
get_field_type-Returns td i =
    >>=-Returns (or_err (at? td.items i) invalid_argument) _
      (or_err-Returns (at? td.items i) invalid_argument) (λ item. tt)

pub get_field_name-Returns : (td : TupleDesc) (i : ℤ) → Returns (get_field_name td i)
unfolding get_field_name
get_field_name-Returns td i =
    >>=-Returns (or_err (at? td.items i) invalid_argument) _
      (or_err-Returns (at? td.items i) invalid_argument) (λ item. tt)

index_from-Returns :
    (i : ℕ) (name : Bytes) (items : List TdItem) → Returns (index_from i name items)
unfolding index_from
index_from-Returns i name [] = tt
index_from-Returns i name (item ∷ items) =
    if-Returns (bytes_eq item.field_name name) (ok i) (index_from (suc i) name items) tt
      (index_from-Returns (suc i) name items)

index_for_field_name-Returns :
    (td : TupleDesc) (name : Bytes) → Returns (index_for_field_name td name)
unfolding index_for_field_name
index_for_field_name-Returns td name = index_from-Returns 0 name td.items

pub create_scan-Returns : (c : Catalog) (scan : ScanNode) → Returns (create_scan c scan)
unfolding create_scan get_table_name get_tuple_desc get_database_file
create_scan-Returns c scan =
    >>=-Returns (get_table_name c scan.id) _
      (or_err-Returns (lookup ◌==◌ scan.id c.table_names) invalid_argument)
      λ name.
        >>=-Returns (get_tuple_desc c scan.id) _
          (>>=-Returns (get_database_file c scan.id) _
            (or_err-Returns (lookup ◌==◌ scan.id c.db_files) invalid_argument) (λ file. tt))
          λ td. tt

get_predicate-Returns : (td : TupleDesc) (node : FilterNode) → Returns (get_predicate td node)
unfolding get_predicate
get_predicate-Returns td (two_columns lcol op rcol) =
    >>=-Returns (index_for_field_name td lcol.column) _
      (index_for_field_name-Returns td lcol.column)
      λ l.
        >>=-Returns (index_for_field_name td rcol.column) _
          (index_for_field_name-Returns td rcol.column) λ r. tt
get_predicate-Returns td (column_constant lcol op constant) =
    >>=-Returns (index_for_field_name td lcol.column) _
      (index_for_field_name-Returns td lcol.column) λ l. tt

predicate_checked-Returns : (td : TupleDesc) (p : Predicate) → Returns (Filter.create td p)
unfolding Filter.create
predicate_checked-Returns td (col_const l op f) =
    >>=-Returns (get_field_type td l) _ (get_field_type-Returns td l) λ t. tt
predicate_checked-Returns td (col_col l op r) =
    >>=-Returns (get_field_type td l) _ (get_field_type-Returns td l)
      λ t. >>=-Returns (get_field_type td r) _ (get_field_type-Returns td r) λ t. tt

pub create_filter-Returns : (node : FilterNode) (child : Plan) → Returns (create_filter node child)
unfolding create_filter
create_filter-Returns node child =
    >>=-Returns (get_predicate (tuple_desc child) node) _
      (get_predicate-Returns (tuple_desc child) node)
      λ p.
        >>=-Returns (Filter.create (tuple_desc child) p) _
          (predicate_checked-Returns (tuple_desc child) p) λ u. tt

pub column_from-Returns :
    (i : ℕ) (col : ColumnRef) (items : List TdItem) (aliases : List Bytes)
    → Returns (column_from i col items aliases)
unfolding column_from
column_from-Returns i col [] aliases = tt
column_from-Returns i col (item ∷ items) [] = tt
column_from-Returns i col (item ∷ items) (alias ∷ aliases) =
    if-Returns (bytes_eq col.table alias && bytes_eq item.field_name col.column) (ok i)
      (column_from (suc i) col items aliases) tt (column_from-Returns (suc i) col items aliases)

pub index_of-Returns : (p : Plan) (col : ColumnRef) → Returns (index_of p col)
index_of-Returns p col = column_from-Returns 0 col (tuple_desc p).items (aliases_of p)

create_join-Returns :
    (l : Plan) (i : ℕ) (op : Op) (r : Plan) (j : ℕ) → Returns (create_join l i op r j)
unfolding create_join
create_join-Returns l i op r j =
    >>=-Returns (get_field_type (tuple_desc l) (pos i)) _
      (get_field_type-Returns (tuple_desc l) (pos i))
      λ t.
        >>=-Returns (get_field_type (tuple_desc r) (pos j)) _
          (get_field_type-Returns (tuple_desc r) (pos j))
          λ t'.
            >>=-Returns (guard (type_eq t t') failed_precondition) _
              (guard-Returns (type_eq t t') failed_precondition) λ u. tt

pub join_two-Returns :
    (lref : ColumnRef) (op : Op) (rref : ColumnRef) (l r : Option Plan)
    → Returns (join_two lref op rref l r)
unfolding join_two
join_two-Returns lref op rref l r = >>=-Returns (or_fault l) _ (or_fault-Returns l) λ l'.
    >>=-Returns (index_of l' lref) _ (index_of-Returns l' lref) λ i.
      >>=-Returns (or_fault r) _ (or_fault-Returns r) λ r'.
        >>=-Returns (index_of r' rref) _ (index_of-Returns r' rref)
          λ j. create_join-Returns l' i op r' j

pub join_first-Returns :
    (lref : ColumnRef) (op : Op) (l : Option Plan) (r : Plan) → Returns (join_first lref op l r)
unfolding join_first
join_first-Returns lref op l r = >>=-Returns (or_fault l) _ (or_fault-Returns l) λ l'.
    >>=-Returns (index_of l' lref) _ (index_of-Returns l' lref) λ i. create_join-Returns l' i op r 0
