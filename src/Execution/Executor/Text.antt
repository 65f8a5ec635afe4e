-- ===== src/Execution/Executor/Text.antt =====
-- The texts that the executor prints: komfydb/execution/executor.cc.
use komfy_db.Base.{
  ℕ, zero, suc, ◌+◌, List, [], ◌∷◌, ◌++◌, map, if◌then◌else◌, ltb, Bytes, codes, length,
}
use komfy_db.Base.Int.{ℤ, pos, negsuc, ◌+ℤ◌, sub_ℕ, div_ℤ}
use komfy_db.Base.Status.{StatusOr, ok, fault, value, ◌>>=◌}
use komfy_db.Common.Field.{Field, int_field, string_field}
use komfy_db.Common.Print.{field_to_str, desc_to_str}
use komfy_db.Common.Tuple.{Tuple, get_field}
use komfy_db.Common.TupleDesc.{TupleDesc, item_to_str}
use komfy_db.Storage.Ids.{Record}
use komfy_db.Execution.Executor.Lines.{get_line_break, get_lines}

-- `PrintLines`
unfoldable pub print_lines : List Bytes → Bytes
print_lines [] = []
print_lines (line ∷ lines) = line ++ (b'\n' ∷ print_lines lines)

-- `GetFieldNames`
abbrev pub get_field_names : TupleDesc → List Bytes
get_field_names td = map item_to_str td.items

-- `GetTableHeader`
unfoldable pub get_table_header : TupleDesc → ℤ → ℕ → StatusOr (List Bytes)
get_table_header td column_width count = get_line_break column_width count >>= λ line_break.
    get_lines (get_field_names td) column_width >>= λ lines. ok (line_break ∷ lines)

-- The values of `GetTupleLines`: the first `length` fields.
unfoldable pub values_from : (i left : ℕ) → Tuple → StatusOr (List Bytes)
unfolding get_field field_to_str
values_from i zero t = ok []
values_from i (suc left) t = value (get_field t (pos i)) >>= λ f.
    values_from (suc i) left t >>= λ rest. ok (field_to_str f ∷ rest)

unfoldable pub get_tuple_lines : Tuple → ℕ → ℤ → StatusOr (List Bytes)
unfolding values_from
get_tuple_lines t count column_width =
    values_from 0 count t >>= λ values. get_lines values column_width

-- One field in `PrintRecord`.
abbrev quoted : Field → Bytes
quoted (int_field v) = field_to_str (int_field v)
quoted (string_field s) = b'"' ∷ (s ++ codes "\"")

unfoldable pub print_fields : (i left : ℕ) → Tuple → StatusOr Bytes
unfolding get_field field_to_str
print_fields i zero t = ok []
print_fields i (suc left) t = value (get_field t (pos i)) >>= λ f.
    print_fields (suc i) left t >>= λ rest. ok (quoted f ++ (codes ", " ++ rest))

-- `PrintRecord`
unfoldable pub print_record : Tuple → ℕ → StatusOr Bytes
unfolding print_fields
print_record t count = print_fields 0 count t >>= λ fields. ok (b'(' ∷ (fields ++ codes ")"))

-- `InitializePrettyPrinter`, given the width of the terminal: the width of a column.
unfoldable pub column_width_of : ℕ → ℕ → StatusOr ℤ
column_width_of terminal_width zero = fault
column_width_of terminal_width (suc n) = ok (div_ℤ (sub_ℕ terminal_width 1) (suc n) +ℤ negsuc 0)

-- `GetLines({content}).back()`
abbrev last_line : List Bytes → StatusOr Bytes
last_line [] = fault
last_line (line ∷ []) = ok line
last_line (line ∷ other ∷ lines) = last_line (other ∷ lines)

unfoldable pub one_line : Bytes → ℤ → StatusOr Bytes
one_line content column_width = get_lines (content ∷ []) column_width >>= last_line

unfoldable pub table_lines : List Bytes → ℤ → StatusOr (List Bytes)
unfolding one_line
table_lines [] column_width = ok []
table_lines (t ∷ tables) column_width = one_line t column_width >>= λ line.
    table_lines tables column_width >>= λ lines. ok (line ∷ lines)

-- The length of the longest name; of no name at all it is read past the end.
unfoldable pub longest : List Bytes → StatusOr ℕ
longest [] = fault
longest (t ∷ []) = ok (length t)
longest (t ∷ other ∷ tables) =
    longest (other ∷ tables) >>= λ n. ok (if ltb n (length t) then length t else n)

-- `PrettyShowTables`
unfoldable pub pretty_show_tables : List Bytes → StatusOr Bytes
unfolding longest table_lines one_line print_lines
pretty_show_tables tables = longest tables >>= λ n.
    let column_width = pos ((if ltb n 6 then 6 else n) + 2) in
    get_line_break column_width 1 >>= λ line_break.
    one_line (codes "Tables") column_width >>= λ header.
    table_lines tables column_width >>= λ lines.
    ok (print_lines (line_break ∷ header ∷ line_break ∷ (lines ++ line_break ∷ [])))

-- `PrettyShowColumns`
unfoldable pub pretty_show_columns : TupleDesc → StatusOr Bytes
unfolding one_line print_lines
pretty_show_columns td = desc_to_str td >>= λ tuple_desc_str.
    let column_width = pos (length tuple_desc_str + 2) in
    get_line_break column_width 1 >>= λ line_break. one_line tuple_desc_str column_width >>= λ line.
    ok (print_lines (line_break ∷ line ∷ line_break ∷ []))

-- The body of the loop of `PrettyExecute`, and of `PythonExecute`.
abbrev pub pretty_record : ℕ → ℤ → Bytes → Record → StatusOr Bytes
pretty_record count column_width line_break r = do
  lines ← get_tuple_lines r.tuple count column_width
  ok (print_lines (line_break ∷ lines))

abbrev pub python_record : ℕ → Record → StatusOr Bytes
python_record count r = do text ← print_record r.tuple count; ok (text ++ codes ", ")

-- `PrintHeader`
abbrev pub header_text : TupleDesc → ℤ → StatusOr Bytes
header_text td column_width = do
  lines ← get_table_header td column_width (length td.items)
  ok (print_lines lines)
