-- ===== src/Parser/Statement.antt =====
-- INSERT, CREATE TABLE and SHOW, and the dispatch on statements: komfydb/parser.cc and
-- komfydb/execution/query.cc. Of hsql the types hold what the code reads, as in Parser/Syntax.
use komfy_db.Base.{
  ℕ, suc, Bool, List, [], ◌∷◌, if◌then◌else◌, ◌==◌, Bytes, length, Option, none, some,
}
use komfy_db.Base.Int.{negsuc, to_int}
use komfy_db.Base.Status.{
  StatusOr, ok, err, fault, ◌>>=◌, ◌>>◌, guard, invalid_argument, unimplemented,
}
use komfy_db.Common.Field.{Field, FieldType, int, string, int_field, string_field}
use komfy_db.Common.Tuple.{Tuple}
use komfy_db.Common.TupleDesc.{TdItem, TupleDesc}
use komfy_db.Execution.LogicalPlan.{LogicalPlan}
use komfy_db.Parser.Select.{generate_logical_plan}
use komfy_db.Parser.Syntax.{Expr, Exprs, literal_int, literal_string, SelectStatement}
use komfy_db.Storage.Catalog.{Catalog, get_table_id, get_tuple_desc}
use komfy_db.Storage.Ids.{Record}

pub data InsertStatement : Type 0 where
  insert_select : (table_name : Bytes) → SelectStatement → InsertStatement
  insert_values : (table_name : Bytes) → Exprs → InsertStatement

pub data DataType : Type 0 where
  int_type text_type other_type : DataType

-- `primary_key`: the constraints of the column count `PrimaryKey`.
pub record ColumnDefinition : Type 0 where
  pub name : Bytes
  pub data_type : DataType
  pub primary_key : Bool

pub data CreateStatement : Type 0 where
  create_table : (table_name : Bytes) → List ColumnDefinition → CreateStatement
  create_other : CreateStatement

pub data ShowStatement : Type 0 where
  show_tables : ShowStatement
  show_columns : (name : Bytes) → ShowStatement

pub data Statement : Type 0 where
  select : SelectStatement → Statement
  insert : InsertStatement → Statement
  create : CreateStatement → Statement
  show : ShowStatement → Statement
  other : Statement

-- `Query`, by its type; `I` is the type of the pointers to iterators.
pub data Query (I : Type 0) : Type 0 where
  iterator : I → Query I
  create_table : (table_name : Bytes) (tuple_desc : TupleDesc) (primary_key : Bytes) → Query I
  show_tables : Query I
  show_columns : (table_name : Bytes) → Query I

-- One value of `GetTuple`, by the type of its column.
unfoldable pub value_field : FieldType → Expr → StatusOr Field
value_field int (literal_int ival) = ok (int_field (to_int ival))
value_field string (literal_string name) = ok (string_field name)
value_field t Expr.null = fault
value_field t value = err invalid_argument

-- The loop of `GetTuple` over values and columns, which are as many.
unfoldable pub value_fields : List TdItem → Exprs → StatusOr Tuple
value_fields [] values = ok []
value_fields (item ∷ items) Exprs.nil = ok []
value_fields (item ∷ items) (Exprs.cons value values) = do
  field ← value_field item.field_type value
  rest ← value_fields items values
  ok (some field ∷ rest)

unfoldable pub size : Exprs → ℕ
size Exprs.nil = 0
size (Exprs.cons value values) = suc (size values)

-- `GetTuple`
unfoldable pub get_tuple : Exprs → TupleDesc → StatusOr Tuple
unfolding value_fields size
get_tuple values tuple_desc = do
  guard (size values == length tuple_desc.items) invalid_argument
  value_fields tuple_desc.items values

-- The record of one tuple that an INSERT passes on, with the id of no page.
abbrev pub new_record : Tuple → Record
new_record t = record {
  tuple = t;
  rid = record { pid = record { table_id = 0; page_no = 0 }; tuple_no = negsuc 0 };
}

-- The types of the columns of a CREATE TABLE.
abbrev pub column_type : DataType → StatusOr FieldType
column_type int_type = ok int
column_type text_type = ok string
column_type other_type = err unimplemented

-- The loop of `ParseCreateStatement`: the types and names of the columns, paired as the constructor of
-- `TupleDesc` pairs them, and the primary key found so far.
unfoldable pub parse_columns : List ColumnDefinition → Bytes → StatusOr (List TdItem × Bytes)
parse_columns [] key = ok ([], key)
parse_columns (def ∷ defs) key = do
  t ← column_type def.data_type
  (items, last) ← parse_columns defs (if def.primary_key then def.name else key)
  ok (record { field_type = t; field_name = def.name } ∷ items, last)

-- The name of the first column where there is no primary key.
abbrev pub or_first : Bytes → List TdItem → StatusOr Bytes
or_first (b ∷ bs) items = ok (b ∷ bs)
or_first [] [] = fault
or_first [] (item ∷ items) = ok item.field_name

-- `ParseCreateStatement`, with the constructor of `Query` for it
unfoldable pub parse_create_statement : {I : Type 0} → CreateStatement → StatusOr (Query I)
unfolding parse_columns
parse_create_statement create_other = err unimplemented
parse_create_statement (CreateStatement.create_table table_name columns) = do
  (items, key) ← parse_columns columns []
  primary_key ← or_first key items
  ok (Query.create_table table_name (record { items = items }) primary_key)

-- `ParseShowStatement`
unfoldable pub parse_show_statement : {I : Type 0} → ShowStatement → Query I
parse_show_statement ShowStatement.show_tables = Query.show_tables
parse_show_statement (ShowStatement.show_columns name) = Query.show_columns name

-- The iterators that the parser makes: those of a plan, and an insertion of what another iterator or
-- a list of records gives.
pub data Iterator (I : Type 0) : Type 0 where
  planned : I → Iterator I
  fixed_records : (tuple_desc : TupleDesc) (records : List Record) → Iterator I
  insert_into : (table_id : ℕ) (child : Iterator I) → Iterator I

-- What the parser uses: `GeneratePhysicalPlan` of komfydb/execution/logical_plan/logical_plan.cc, which
-- makes an iterator of a plan, and the SQL parser, which gives the statements of a valid query.
pub record Interface : Type 1 where
  pub I : Type 0
  pub Sub : Type 0
  pub pack : LogicalPlan Sub → Sub
  pub generate_physical_plan : LogicalPlan Sub → StatusOr I
  pub parse : Bytes → Option (List Statement)

module _ (uses : Interface) where
  open uses use {I, Sub, pack, generate_physical_plan, parse}

  -- `ParseSelectStatement`
  unfoldable pub parse_select_statement : Catalog → SelectStatement → StatusOr (Iterator I)
  parse_select_statement c stmt = do
    logical_plan ← generate_logical_plan pack c stmt
    plan ← generate_physical_plan logical_plan
    ok (planned plan)

  -- `ParseInsertStatement`
  unfoldable pub parse_insert_statement : Catalog → InsertStatement → StatusOr (Iterator I)
  unfolding parse_select_statement get_tuple
  parse_insert_statement c (insert_select table_name stmt) = do
    table_id ← get_table_id c table_name
    tuple_desc ← get_tuple_desc c table_id
    subiterator ← parse_select_statement c stmt
    ok (insert_into table_id subiterator)
  parse_insert_statement c (insert_values table_name values) = do
    table_id ← get_table_id c table_name
    tuple_desc ← get_tuple_desc c table_id
    tuple ← get_tuple values tuple_desc
    ok (insert_into table_id (fixed_records tuple_desc (new_record tuple ∷ [])))

  -- `ParseQuery`
  abbrev pub parse_statement : Catalog → Statement → StatusOr (Query (Iterator I))
  parse_statement c (select stmt) = do it ← parse_select_statement c stmt; ok (iterator it)
  parse_statement c (insert stmt) = do it ← parse_insert_statement c stmt; ok (iterator it)
  parse_statement c (create stmt) = parse_create_statement stmt
  parse_statement c (show stmt) = ok (parse_show_statement stmt)
  parse_statement c other = err unimplemented

  abbrev pub parse_only : Catalog → Option (List Statement) → StatusOr (Query (Iterator I))
  parse_only c none = err invalid_argument
  parse_only c (some []) = err unimplemented
  parse_only c (some (stmt ∷ [])) = parse_statement c stmt
  parse_only c (some (a ∷ b ∷ rest)) = err unimplemented

  unfoldable pub parse_query : Catalog → Bytes → StatusOr (Query (Iterator I))
  parse_query c query = parse_only c (parse query)
