-- ===== src/Execution/Executor.antt =====
-- Printing the results of queries: komfydb/execution/executor.h and executor.cc. What is written to
-- the stream is a list of bytes; the width of the terminal is a parameter.
pub mod Lines
pub mod Text
pub mod Wrapping
pub mod Width
pub mod Outcome
use komfy_db.Base.{ℕ, zero, suc, [], ◌∷◌, ◌++◌, Bytes, codes, length}
use komfy_db.Base.State.{State, ◌>>=◌, ◌>>◌, lift}
use komfy_db.Base.Status.{StatusOr, Status, ok, err, fault, no_fuel}
use komfy_db.Common.TupleDesc.{TupleDesc}
use komfy_db.Storage.Ids.{Record}
use komfy_db.Execution.Executor.Lines.{get_line_break}
use komfy_db.Execution.Executor.Text.{
  print_lines, header_text, column_width_of, pretty_record, python_record,
}
use komfy_db.Execution.Iterator.{OpIterator}

-- What has been written stands beside the state of the iterator.
abbrev pub Printing : Type 0 → Type 0
Printing C = State (C × Bytes) (Unit {0})

module _ {C : Type 0} (iterator : OpIterator C) where
  abbrev pub emit : StatusOr Bytes → Printing C
  emit (ok text) (c, out) = ((c, out ++ text), ok tt)
  emit (err e) (c, out) = ((c, out), err e)
  emit fault (c, out) = ((c, out), fault)
  emit no_fuel (c, out) = ((c, out), no_fuel)

  abbrev open_first : Printing C
  open_first (c, out) = let (c', r) = iterator.open_it c in ((c', out), r)

  -- A round of `ITERATE_RECORDS` with a body that prints a record, by what `Next` gave. An error ends
  -- the loop and is not looked at; a fault or no more fuel ends all.
  abbrev pub printed :
      (Record → StatusOr Bytes) → Printing C → Bytes → C × StatusOr Record → (C × Bytes) × Status
  printed body later out (c, ok r) = (emit (body r) >> later) (c, out)
  printed body later out (c, err e) = ((c, out), ok tt)
  printed body later out (c, fault) = ((c, out), fault)
  printed body later out (c, no_fuel) = ((c, out), no_fuel)

  unfoldable pub print_all : (Record → StatusOr Bytes) → ℕ → Printing C
  print_all body zero s = (s, no_fuel)
  print_all body (suc fuel) (c, out) = printed body (print_all body fuel) out (iterator.next c)

  -- `PrettyExecute`
  unfoldable pub pretty_execute : (terminal_width fuel : ℕ) → TupleDesc → Printing C
  unfolding print_all
  pretty_execute terminal_width fuel td = do
    column_width ← lift (column_width_of terminal_width (length td.items))
    emit (header_text td column_width)
    line_break ← lift (get_line_break column_width (length td.items))
    open_first
    print_all (pretty_record (length td.items) column_width line_break) fuel
    emit (ok (print_lines (line_break ∷ [])))

  -- `PythonExecute`
  unfoldable pub python_execute : ℕ → TupleDesc → Printing C
  unfolding print_all
  python_execute fuel td = do
    open_first
    emit (ok (codes "["))
    print_all (python_record (length td.items)) fuel
    emit (ok (b']' ∷ b'\n' ∷ []))
