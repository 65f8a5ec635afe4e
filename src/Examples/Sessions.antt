-- ===== src/Examples/Sessions.antt =====
-- An example of a session of the test loop. The executor is that of the model, on the iterators of an
-- insertion; a plan stands for the records that it gives.
use komfy_db.Base.{
  ◌≡◌, refl, ◌⊎◌, List, [], ◌∷◌, Bytes, codes, bytes_eq, map, if◌then◌else◌, some, false,
}
use komfy_db.Base.Int.{pos}
use komfy_db.Base.State.{State}
use komfy_db.Base.Status.{Status, ok}
use komfy_db.Common.Field.{int}
use komfy_db.Common.Tuple.{Tuple}
use komfy_db.Common.TupleDesc.{TupleDesc, of_types}
use komfy_db.Database.{Database}
use komfy_db.Database.Repl.{Engine, Round, sigusr1, sigusr2, test_repl}
use komfy_db.Database.Repl.Rounds.{reply}
use komfy_db.Database.Repl.Signals.{Through, Broken, test_repl-signals}
use komfy_db.Examples.{people, both}
use komfy_db.Examples.Parsing.{new_files, start, pet_columns}
use komfy_db.Execution.Executor.{python_execute}
use komfy_db.Execution.Fixed.{Fixed, fixed}
use komfy_db.Execution.Iterator.{Iter, OpIterator, iterator, fresh}
use komfy_db.Execution.Modify.{Modify, insert}
use komfy_db.Parser.Statement.{
  CreateStatement, Iterator, planned, fixed_records, insert_into, InsertStatement, Statement,
}
use komfy_db.Parser.Syntax.{
  Expr, Exprs, TableRef, SelectStatement, select_statement, literal_int, literal_string,
  no_group_by, no_order_by, no_limit,
}
use komfy_db.Storage.BufferPool.{BufferPool, insert_tuples}
use komfy_db.Storage.Ids.{Record}

-- the schema and the records of a plan
abbrev Given : Type 0
Given = TupleDesc × List Record

abbrev given_by : Iterator Given → Given
given_by (planned given) = given
given_by (fixed_records td rs) = (td, rs)
given_by (insert_into table_id child) = (of_types (int ∷ []), [])

abbrev listed : List Record → Iter Fixed
listed rs = fresh (record { records = rs; it = rs })

-- an iterator beside the pool that it does not use
abbrev beside : {C A : Type 0} → State C A → State (BufferPool × C) A
beside m (p, c) = let (c', r) = m c in ((p, c'), r)

abbrev source : OpIterator (BufferPool × Iter Fixed)
source = record {
  open_it = beside (iterator fixed).open_it;
  rewind = beside (iterator fixed).rewind;
  has_next = beside (iterator fixed).has_next;
  next = beside (iterator fixed).next;
}

abbrev into_pool : List Tuple → State (BufferPool × Iter Fixed) (Unit {0})
into_pool ts (p, c) = let (p', r) = insert_tuples 2 0 0 ts p in ((p', c), r)

abbrev inserted :
    Database
    → (Iter (Modify (BufferPool × Iter Fixed)) × Bytes) × Status
    → Database × Bytes × Status
inserted d ((it, out), r) = (record d { buffer_pool = it.own.child.0 }, out, r)

abbrev printed : Database → (Iter Fixed × Bytes) × Status → Database × Bytes × Status
printed d ((it, out), r) = (d, out, r)

abbrev execute : Iterator Given → Database → Database × Bytes × Status
execute (insert_into table_id child) d = inserted d (
    python_execute (iterator (insert source into_pool 4)) 4 (of_types (int ∷ []))
      (fresh (record { child = (d.buffer_pool, listed (given_by child).1); run = false }), []))
execute (planned (td, rs)) d = printed d (python_execute (iterator fixed) 4 td (listed rs, []))
execute (fixed_records td rs) d = printed d (python_execute (iterator fixed) 4 td (listed rs, []))

-- SELECT without FROM
abbrev select_nothing : SelectStatement
select_nothing = select_statement TableRef.null Expr.null no_group_by Exprs.nil no_order_by no_limit

abbrev rex : Exprs
rex = Exprs.cons (literal_string (codes "Rex")) (Exprs.cons (literal_int (pos 3)) Exprs.nil)

abbrev statement_of : Bytes → Statement
statement_of query =
    if bytes_eq query (codes "CREATE")
    then Statement.create (CreateStatement.create_table (codes "pets") pet_columns)
    else if bytes_eq query (codes "INSERT")
    then Statement.insert (InsertStatement.insert_values (codes "pets") rex)
    else Statement.select select_nothing

abbrev engine : Engine
engine = record {
  uses = record {
    I = Given;
    Sub = Unit {0};
    pack = λ p. tt;
    generate_physical_plan = λ p. ok (people, both);
    parse = λ query. some (statement_of query ∷ []);
  };
  files = new_files;
  python_execute = execute;
  pretty_execute = execute;
}

-- A table is made, a row goes into it, and the third query has no FROM.
abbrev session : List Bytes
session = codes "CREATE" ∷ codes "INSERT" ∷ codes "SYNC;" ∷ codes "SELECT" ∷ codes "SYNC;" ∷ []

test_repl-signals_example :
    Through session (test_repl engine session start)
    ⊎ Broken engine session start (test_repl engine session start)
test_repl-signals_example = test_repl-signals engine session start

abbrev out : Round
out = test_repl engine session start

session_replies : map reply session ≡ sigusr2 ∷ sigusr2 ∷ sigusr1 ∷ sigusr2 ∷ sigusr1 ∷ []
unfolding bytes_eq
session_replies = refl
