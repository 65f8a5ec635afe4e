-- ===== src/Examples/Plans.antt =====
-- Examples for logical plans and for what is printed.
use komfy_db.Base.{
  ◌+◌, ◌*◌, ◌≤◌, ◌≡◌, refl, List, [], ◌∷◌, Bytes, codes, length, arith, All, flatten, bytes_eq,
  false,
}
use komfy_db.Base.Int.{pos}
use komfy_db.Base.Maps.{lookup, insert}
use komfy_db.Base.Status.{StatusOr, ok, err, failed_precondition}
use komfy_db.Common.TupleDesc.{index_for_field_name}
use komfy_db.Storage.Catalog.{add_table, get_tuple_desc}
use komfy_db.Storage.Ids.{Record}
use komfy_db.Execution.Executor.{python_execute}
use komfy_db.Execution.Executor.Lines.{wrap_word, get_lines, get_line_break}
use komfy_db.Execution.Executor.Text.{python_record, print_record}
use komfy_db.Execution.Executor.Outcome.{Stops, each, python_execute_lem}
use komfy_db.Execution.Executor.Width.{get_lines_lem}
use komfy_db.Execution.Executor.Wrapping.{wrap_word_lem}
use komfy_db.Execution.Iterator.{OpIterator}
use komfy_db.Execution.LogicalPlan.{ColumnRef, LogicalPlan, empty_plan, is_empty, get_column_ref}
use komfy_db.Execution.LogicalPlan.Build.{Reachable, run, scan, select, add_scan}
use komfy_db.Execution.LogicalPlan.Lookup.{IsOwner, get_column_ref_unique}
use komfy_db.Execution.LogicalPlan.Reached.{Reachable-IsResolved}
use komfy_db.Execution.LogicalPlan.Resolved.{IsResolved}
use komfy_db.Examples.{people, ann_record}
use komfy_db.Examples.Pools.{tables}

wrap_word_lem_example :
    (parts : List Bytes) × (wrap_word (codes "department") (pos 4) ≡ ok parts)
    × (flatten parts ≡ codes "department")
    × All (λ p. length p ≤ 4) parts
wrap_word_lem_example = wrap_word_lem (codes "department") 4 (omega arith) (omega arith)

abbrev headings : List Bytes
headings = codes "id" ∷ codes "department" ∷ []

get_lines_lem_example :
    (lines : List Bytes) × (line_break : Bytes) × (get_lines headings (pos 7) ≡ ok lines)
    × (get_line_break (pos 7) 2 ≡ ok line_break)
    × All (λ line. length line ≡ 2 * (6 + 2) + 1) lines
    × (length line_break ≡ 2 * (6 + 2) + 1)
get_lines_lem_example =
    get_lines_lem headings 6 (omega arith, (omega arith, tt)) (omega arith) (omega arith)

-- an iterator that fails behind its records
abbrev failing_next : List Record → List Record × StatusOr Record
failing_next [] = ([], err failed_precondition)
failing_next (r ∷ rs) = (rs, ok r)

abbrev failing : OpIterator (List Record)
failing = record {
  open_it = λ s. (s, ok tt);
  rewind = λ s. (s, ok tt);
  has_next = λ s. (s, ok tt);
  next = failing_next;
}

abbrev ann_printed : Bytes
ann_printed = codes "(1, \"Ann\", ), "

ann_prints : each (python_record 2) (ann_record ∷ []) ≡ ok ann_printed
unfolding each print_record
ann_prints = refl

python_execute_lem_example :
    python_execute failing 2 people (ann_record ∷ [], [])
    ≡ (([], codes "[(1, \"Ann\", ), ]\n"), ok tt)
python_execute_lem_example =
    python_execute_lem failing people 2 refl (Stops.more refl (Stops.stop failed_precondition refl))
      ann_prints (omega arith)

abbrev with_people : LogicalPlan (Unit {0})
with_people = (run (scan 7 (codes "p")) (empty_plan tables)).0

abbrev id_of_p : ColumnRef
id_of_p = record { table = codes "p"; column = codes "id" }

Reachable-IsResolved_example : IsResolved (run (select id_of_p) with_people).0
Reachable-IsResolved_example =
    Reachable-IsResolved
      (Reachable.step (Reachable.step Reachable.start (scan 7 (codes "p"))) (select id_of_p))

id_found : get_column_ref with_people [] (codes "id") ≡ ok id_of_p
unfolding get_column_ref add_scan lookup insert bytes_eq get_tuple_desc add_table
    index_for_field_name
id_found = refl

p_is_named : All (λ entry. is_empty entry.0 ≡ false) with_people.alias_to_id
unfolding add_scan insert lookup
p_is_named = (refl, tt)

get_column_ref_unique_example :
    (codes "id" ≡ codes "id")
    × IsOwner with_people.catalog (codes "id") with_people.alias_to_id (codes "p")
get_column_ref_unique_example =
    get_column_ref_unique with_people (codes "id") id_of_p p_is_named id_found
