-- ===== src/Examples/Parsing.antt =====
-- Examples for the parser and the database.
use komfy_db.Base.{
  All, ℕ, ◌≡◌, refl, true, false, List, [], ◌∷◌, map, some, Bytes, codes, arith, bytes_eq,
}
use komfy_db.Base.Int.{pos, to_int}
use komfy_db.Base.Maps.{lookup, insert}
use komfy_db.Base.Status.{ok}
use komfy_db.Common.Field.{int_field, string_field, int, string}
use komfy_db.Common.Op.{greater_than, less_than, flip}
use komfy_db.Common.Tuple.{Tuple}
use komfy_db.Common.TupleDesc.{TdItem, TupleDesc, index_for_field_name, get_field_type}
use komfy_db.Database.{Database, empty_database, create_table, load_schema}
use komfy_db.Database.Tables.{IsSettled, Grows, HasTable, create_table-Grows, load_schema-Grows}
use komfy_db.Examples.{people}
use komfy_db.Examples.Pools.{no_tables}
use komfy_db.Execution.LogicalPlan.{
  LogicalPlan, ColumnRef, column_constant, empty_plan, get_column_ref, get_column_type, check_ref,
}
use komfy_db.Execution.LogicalPlan.Build.{add_scan, add_filter_col_const, add_select}
use komfy_db.Execution.LogicalPlan.Resolved.{IsResolved}
use komfy_db.Parser.Condition.{hsql_op_to_op, parse_simple_expression}
use komfy_db.Parser.Conjuncts.{
  conjuncts, parse_each, parse_where_expression-conjuncts, parse_simple_expression-flip,
}
use komfy_db.Parser.PrimaryKey.{IsNamed, KeyRule, sql_types, parse_create_statement-primary_key}
use komfy_db.Parser.Select.{
  generate_logical_plan, parse_where_expression, parse_from_clause, parse_group_by,
  parse_column_selection, parse_order_by, parse_limit, add_scans,
}
use komfy_db.Parser.Statement.{
  ColumnDefinition, CreateStatement, Interface, Query, get_tuple, parse_create_statement,
  parse_query, value_field, int_type, text_type, parse_columns,
}
use komfy_db.Parser.Statement
use komfy_db.Parser.Syntax.{
  Expr, Exprs, TableRef, SelectStatement, select_statement, column_ref, literal_int, literal_string,
  operator, op_and, op_greater, no_group_by, no_order_by, no_limit,
}
use komfy_db.Parser.Typed.{IsTyped, generate_logical_plan_sound}
use komfy_db.Parser.Values.{ShortTexts, get_tuple-Fits}
use komfy_db.Storage.Catalog.{Catalog, add_table, get_table_id, get_tuple_desc}
use komfy_db.Storage.HeapFile.{HeapFile, Stream}
use komfy_db.Storage.HeapPage.Slots.{Fits}

-- p.id > 1
abbrev above_one : Expr
above_one = operator op_greater (column_ref (codes "p") (codes "id")) (literal_int (pos 1))

-- SELECT id FROM people p WHERE p.id > 1
abbrev select_id : SelectStatement
select_id =
    select_statement (TableRef.table_name (codes "people") (codes "p")) above_one no_group_by
      (Exprs.cons (column_ref [] (codes "id")) Exprs.nil) no_order_by no_limit

abbrev no_subplan : LogicalPlan (Unit {0}) → Unit {0}
no_subplan p = tt

abbrev no_records : HeapFile
no_records = record {
  file = record { contents = []; writable = true; good = true };
  tuple_desc = people;
  file_length = 0;
  table_id = 1;
}

abbrev no_people : Catalog
no_people = add_table no_records (codes "people") (codes "id") no_tables

abbrev id_of_p : ColumnRef
id_of_p = record { table = codes "p"; column = codes "id" }

-- the plan of the statement
abbrev ids_above_one : LogicalPlan (Unit {0})
ids_above_one = record (empty_plan no_people) {
  scans = record { id = 1; alias = codes "p" } ∷ [];
  alias_to_id = (codes "p", 1) ∷ [];
  filters = column_constant id_of_p greater_than (int_field (pos 1)) ∷ [];
  selects = id_of_p ∷ [];
}

select_id_parsed : generate_logical_plan no_subplan no_people select_id ≡ ok ids_above_one
unfolding generate_logical_plan parse_from_clause parse_group_by parse_column_selection
    parse_order_by parse_limit parse_simple_expression get_column_ref get_column_type check_ref
    add_scans hsql_op_to_op add_scan add_filter_col_const add_select lookup insert bytes_eq
    get_tuple_desc add_table index_for_field_name get_field_type get_table_id to_int
select_id_parsed = refl

generate_logical_plan_sound_example : IsResolved ids_above_one × IsTyped ids_above_one
generate_logical_plan_sound_example =
    generate_logical_plan_sound no_subplan no_people select_id select_id_parsed

-- p.id > 1 AND (p.id > 1 AND p.id > 1)
abbrev thrice : Expr
thrice = operator op_and above_one (operator op_and above_one above_one)

parse_where_expression-conjuncts_example :
    parse_where_expression no_subplan no_people thrice ids_above_one
    ≡ parse_each no_subplan no_people (conjuncts thrice) ids_above_one
parse_where_expression-conjuncts_example =
    parse_where_expression-conjuncts no_subplan no_people thrice ids_above_one

parse_simple_expression-flip_example :
    parse_simple_expression
      (literal_int (pos 1))
      less_than
      (column_ref (codes "p") (codes "id"))
      (ok tt)
      ids_above_one
    ≡ parse_simple_expression
        (column_ref (codes "p") (codes "id"))
        (flip less_than)
        (literal_int (pos 1))
        (ok tt)
        ids_above_one
parse_simple_expression-flip_example =
    parse_simple_expression-flip (int_field (pos 1)) less_than (codes "p") (codes "id") (ok tt)
      ids_above_one

abbrev pub five_and_eve : Exprs
five_and_eve =
    Exprs.cons (literal_int (pos 5)) (Exprs.cons (literal_string (codes "Eve")) Exprs.nil)

abbrev eve : Tuple
eve = some (int_field (pos 5)) ∷ some (string_field (codes "Eve")) ∷ []

eve_made : get_tuple five_and_eve people ≡ ok eve
unfolding get_tuple value_field to_int
eve_made = refl

eve_short : ShortTexts 128 five_and_eve
eve_short = (tt, ((omega arith, ((λ e. cc), ((λ e. cc), ((λ e. cc), tt)))), tt))

get_tuple-Fits_example : Fits 128 people.items eve
get_tuple-Fits_example = get_tuple-Fits 128 five_and_eve people eve eve_short eve_made

abbrev pub pet_columns : List ColumnDefinition
pet_columns =
    record { name = codes "name"; data_type = text_type; primary_key = false }
    ∷ record { name = codes "age"; data_type = int_type; primary_key = true }
    ∷ []

abbrev pets : TupleDesc
pets = record {
  items =
      record { field_type = string; field_name = codes "name" }
      ∷ record { field_type = int; field_name = codes "age" }
      ∷ [];
}

abbrev pets_query : Query (Unit {0})
pets_query = Query.create_table (codes "pets") pets (codes "age")

pets_parsed :
    parse_create_statement (CreateStatement.create_table (codes "pets") pet_columns) ≡ ok pets_query
unfolding parse_create_statement
pets_parsed = refl

pet_columns-IsNamed : All IsNamed pet_columns
pet_columns-IsNamed = ((λ e. cc), ((λ e. cc), tt))

parse_create_statement-primary_key_example :
    (td : TupleDesc) × (key : Bytes) × (pets_query ≡ Query.create_table (codes "pets") td key)
    × (map (λ (i : TdItem). i.field_name) td.items
        ≡ map (λ (d : ColumnDefinition). d.name) pet_columns)
    × (sql_types td.items ≡ map (λ (d : ColumnDefinition). d.data_type) pet_columns)
    × KeyRule pet_columns key
    × (k : ℕ) × (index_for_field_name td key ≡ ok k)
parse_create_statement-primary_key_example =
    parse_create_statement-primary_key (codes "pets") pet_columns pets_query pet_columns-IsNamed
      pets_parsed

abbrev pub new_files : Bytes → Stream
new_files name = record { contents = []; writable = true; good = true }

abbrev pub start : Database
start = empty_database 50

start-IsSettled : IsSettled start
unfolding get_table_id lookup
start-IsSettled = record { counted = λ name id h. cc }

create_table-Grows_example :
    Grows start (create_table new_files (codes "pets") pets (codes "name") start).0 1
    × ((create_table new_files (codes "pets") pets (codes "name") start).1 ≡ ok tt
        → HasTable
            (create_table new_files (codes "pets") pets (codes "name") start).0
            (codes "pets")
            pets)
create_table-Grows_example =
    create_table-Grows new_files (codes "pets") pets (codes "name") start start-IsSettled
      (omega arith)

-- every query makes the table of pets
abbrev only_pets : Interface
only_pets = record {
  I = LogicalPlan (Unit {0});
  Sub = Unit {0};
  pack = no_subplan;
  generate_physical_plan = λ p. ok p;
  parse = λ query.
      some (Statement.create (CreateStatement.create_table (codes "pets") pet_columns) ∷ []);
}

abbrev schema : List Bytes
schema = codes "CREATE TABLE pets (name TEXT, age INT PRIMARY KEY);" ∷ []

load_schema-Grows_example : Grows start (load_schema new_files only_pets (some schema) start).0 1
load_schema-Grows_example =
    load_schema-Grows new_files only_pets schema start start-IsSettled (omega arith)
