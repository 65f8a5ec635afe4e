-- ===== src/Database/Repl.antt =====
-- The loops of queries: komfydb/database.cc. What the process writes and the signals that it sends to
-- its parent are events, in their order. The messages about errors are events without their texts.
pub mod Calls
pub mod Rounds
pub mod Signals
use komfy_db.Base.{ℕ, Bool, List, [], ◌∷◌, ◌++◌, if◌then◌else◌, Bytes, codes, bytes_eq}
use komfy_db.Base.Status.{StatusOr, Status, ok, err, fault, no_fuel}
use komfy_db.Common.TupleDesc.{TupleDesc}
use komfy_db.Database.{Database, catalog_of, create_table}
use komfy_db.Execution.Executor.Text.{pretty_show_tables, pretty_show_columns}
use komfy_db.Parser.Statement.{Query, Iterator, Interface, parse_query}
use komfy_db.Storage.Catalog.{get_table_id, get_table_names, get_tuple_desc}
use komfy_db.Storage.HeapFile.{Stream}

pub data Signal : Type 0 where
  sigusr1 sigusr2 : Signal

pub data Event : Type 0 where
  written : Bytes → Event
  sent : Signal → Event
  parsing_error executor_error create_table_error no_table catalog_error : Event

-- A database, what was done besides, and whether the process goes on.
abbrev pub Round : Type 0
Round = Database × List Event × Status

-- What the loops use: the parser's parts, the files, and the executor on the iterators of the parser,
-- with what it writes: `PythonExecute`, and `Explain` with `PrettyExecute`.
pub record Engine : Type 1 where
  pub uses : Interface
  pub files : Bytes → Stream
  pub python_execute : Iterator (uses.I) → Database → Database × Bytes × Status
  pub pretty_execute : Iterator (uses.I) → Database → Database × Bytes × Status

-- An error of a call is told, a crash of it is one of the process.
abbrev pub told : Database → List Event → Event → Status → Round
told d es message (ok u) = (d, es, ok tt)
told d es message (err c) = (d, es ++ message ∷ [], ok tt)
told d es message fault = (d, es, fault)
told d es message no_fuel = (d, es, no_fuel)

-- `LOG(ERROR)` tells nothing, and then the signal is sent.
abbrev pub signalled : Database → List Event → Status → Round
signalled d es (ok u) = (d, es ++ sent sigusr2 ∷ [], ok tt)
signalled d es (err c) = (d, es ++ sent sigusr2 ∷ [], ok tt)
signalled d es fault = (d, es, fault)
signalled d es no_fuel = (d, es, no_fuel)

-- A round, and the rounds behind it.
abbrev pub then_rounds : Round → (Database → Round) → Round
then_rounds (d, es, ok u) rest = let (d', es', r) = rest d in (d', es ++ es', r)
then_rounds (d, es, err c) rest = (d, es, err c)
then_rounds (d, es, fault) rest = (d, es, fault)
then_rounds (d, es, no_fuel) rest = (d, es, no_fuel)

-- `IsDiagnosticCommand`
abbrev pub is_diagnostic_command : Bytes → Bool
is_diagnostic_command query_str = bytes_eq query_str (codes "SYNC;")

module _ (e : Engine) where
  open e use {uses, files, python_execute, pretty_execute}

  -- The switch of `TestRepl`.
  unfoldable pub test_query : StatusOr (Query (Iterator (uses.I))) → Database → Round
  test_query (ok (Query.iterator it)) d =
      let (d', out, r) = python_execute it d in signalled d' (written out ∷ []) r
  test_query (ok (Query.create_table table_name tuple_desc primary_key)) d =
      let (d', r) = create_table files table_name tuple_desc primary_key d in signalled d' [] r
  test_query (ok Query.show_tables) d = signalled d [] (ok tt)
  test_query (ok (Query.show_columns table_name)) d = signalled d [] (ok tt)
  test_query (err c) d = (d, sent sigusr2 ∷ [], ok tt)
  test_query fault d = (d, [], fault)
  test_query no_fuel d = (d, [], no_fuel)

  -- A line of `TestRepl`; `ParseDiagnosticCommand` knows only SYNC.
  unfoldable pub test_round : Bytes → Database → Round
  test_round query_str d =
      if is_diagnostic_command query_str
      then (d, sent sigusr1 ∷ [], ok tt)
      else test_query (parse_query uses (catalog_of d) query_str) d

  -- `TestRepl`
  unfoldable pub test_repl : List Bytes → Database → Round
  test_repl [] d = (d, [], ok tt)
  test_repl (query_str ∷ lines) d = then_rounds (test_round query_str d) (test_repl lines)

  -- The texts of SHOW.
  abbrev pub shown : Database → StatusOr Bytes → Round
  shown d (ok text) = (d, written text ∷ [], ok tt)
  shown d (err c) = (d, executor_error ∷ [], ok tt)
  shown d fault = (d, [], fault)
  shown d no_fuel = (d, [], no_fuel)

  abbrev pub show_found : Database → StatusOr TupleDesc → Round
  show_found d (ok tuple_desc) = shown d (pretty_show_columns tuple_desc)
  show_found d (err c) = (d, catalog_error ∷ [], ok tt)
  show_found d fault = (d, [], fault)
  show_found d no_fuel = (d, [], no_fuel)

  abbrev pub show_of : Database → StatusOr ℕ → Round
  show_of d (ok table_id) = show_found d (get_tuple_desc (catalog_of d) table_id)
  show_of d (err c) = (d, no_table ∷ [], ok tt)
  show_of d fault = (d, [], fault)
  show_of d no_fuel = (d, [], no_fuel)

  -- The switch of `Repl`.
  unfoldable pub repl_query : StatusOr (Query (Iterator (uses.I))) → Database → Round
  repl_query (ok (Query.iterator it)) d =
      let (d', out, r) = pretty_execute it d in told d' (written out ∷ []) executor_error r
  repl_query (ok (Query.create_table table_name tuple_desc primary_key)) d =
      let (d', r) = create_table files table_name tuple_desc primary_key d in
      told d' [] create_table_error r
  repl_query (ok Query.show_tables) d =
      shown d (pretty_show_tables (get_table_names (catalog_of d)))
  repl_query (ok (Query.show_columns table_name)) d =
      show_of d (get_table_id (catalog_of d) table_name)
  repl_query (err c) d = (d, parsing_error ∷ [], ok tt)
  repl_query fault d = (d, [], fault)
  repl_query no_fuel d = (d, [], no_fuel)

  -- `Repl`, over the lines that `ReadInputLine` reads: it passes over empty lines, and gives an empty one
  -- only at the end of the input.
  unfoldable pub repl : List Bytes → Database → Round
  unfolding repl_query
  repl [] d = (d, [], ok tt)
  repl ([] ∷ lines) d = repl lines d
  repl ((b ∷ bs) ∷ lines) d =
      then_rounds (repl_query (parse_query uses (catalog_of d) (b ∷ bs)) d) (repl lines)
