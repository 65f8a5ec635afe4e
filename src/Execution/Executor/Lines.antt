-- ===== src/Execution/Executor/Lines.antt =====
-- The lines of a printed table: the helpers of komfydb/execution/executor.cc.
use komfy_db.Base.{
  ℕ, zero, suc, ◌+◌, ◌*◌, ◌/◌, Bool, true, false, ◌||◌, List, [], ◌∷◌, ◌++◌, Option, none, some,
  if◌then◌else◌, leb, ltb, ◌==◌, Bytes, codes, length, take, drop, replicate, get_elem?,
}
use komfy_db.Base.Int.{ℤ, pos, negsuc, sub_ℕ, ◌+ℤ◌}
use komfy_db.Base.Status.{StatusOr, ok, fault, no_fuel, ◌>>=◌}

-- `word.substr(at)` with a position past the end throws; a negative position is a huge one.
unfoldable pub substr_from : ℤ → Bytes → StatusOr Bytes
substr_from (negsuc n) word = fault
substr_from (pos n) word = if leb n (length word) then ok (drop n word) else fault

-- The loop of `WrapWord` over the parts before the last, from part `i`.
unfoldable pub full_parts : (rounds i width : ℕ) → Bytes → List Bytes
full_parts zero i width word = []
full_parts (suc rounds) i width word =
    take width (drop (i * width) word) ∷ full_parts rounds (suc i) width word

-- `WrapWord` into `parts` parts of a positive width.
unfoldable pub wrap_parts : (parts width : ℕ) → Bytes → StatusOr (List Bytes)
unfolding substr_from full_parts
wrap_parts zero width word = do last ← substr_from (sub_ℕ 0 width) word; ok (last ∷ [])
wrap_parts (suc rounds) width word = do
  last ← substr_from (pos (rounds * width)) word
  ok (full_parts rounds 0 width word ++ last ∷ [])

-- `WrapWord`: a division by zero, or by the huge unsigned number that a negative `length` is. There
-- the number of parts is zero or one, and the last part starts at minus the length, or at 0.
unfoldable pub wrap_word : Bytes → ℤ → StatusOr (List Bytes)
unfolding wrap_parts
wrap_word word (pos zero) = fault
wrap_word word (pos (suc l)) = wrap_parts ((length word + l) / suc l) (suc l) word
wrap_word word (negsuc n) = do
  last ←
      substr_from (pos (if (length word == 0) || ltb (suc n) (length word) then suc n else 0)) word
  ok (last ∷ [])

-- `std::string(n, c)`; a negative count throws.
unfoldable pub fill : ℤ → ℕ → StatusOr Bytes
fill (pos n) c = ok (replicate n c)
fill (negsuc n) c = fault

-- The loop of `GetLineBreak` after the first column.
unfoldable pub more_dashes : ℕ → Bytes → Bytes
more_dashes zero dashes = []
more_dashes (suc count) dashes = b'+' ∷ (dashes ++ more_dashes count dashes)

abbrev pub line_break_of : ℕ → Bytes → Bytes
line_break_of zero dashes = codes "++"
line_break_of (suc count) dashes = b'+' ∷ (dashes ++ (more_dashes count dashes ++ codes "+"))

-- `GetLineBreak`; with no column no dashes are made.
unfoldable pub get_line_break : ℤ → ℕ → StatusOr Bytes
unfolding fill more_dashes
get_line_break column_width zero = ok (line_break_of zero [])
get_line_break column_width (suc count) = do
  dashes ← fill column_width b'-'
  ok (line_break_of (suc count) dashes)

-- `WrapColumns`
unfoldable pub wrap_columns : List Bytes → ℤ → StatusOr (List (List Bytes))
unfolding wrap_word
wrap_columns [] column_width = ok []
wrap_columns (column ∷ columns) column_width = do
  parts ← wrap_word column (column_width +ℤ negsuc 1)
  rest ← wrap_columns columns column_width
  ok (parts ∷ rest)

-- `ExtendToColumnWidth`
unfoldable pub extend : Bytes → ℤ → StatusOr Bytes
unfolding fill
extend content column_width = do
  spaces ← fill (column_width +ℤ sub_ℕ 0 (length content)) b' '
  ok (content ++ spaces)

-- One cell: `append`, and whether the column has such a row.
abbrev pub cell_of : Option Bytes → Bytes → ℤ → StatusOr (Bytes × Bool)
cell_of none blank width = ok (blank, false)
cell_of (some part) blank width = do content ← extend part width; ok (content, true)

unfoldable pub cell : ℕ → ℤ → List Bytes → StatusOr (Bytes × Bool)
unfolding fill extend
cell row column_width wrapped_column = do
  blank ← fill (column_width +ℤ negsuc 0) b' '
  cell_of (get_elem? wrapped_column row) blank (column_width +ℤ negsuc 0)

-- The inner loop of `ConcatenateWrappedColumns`, with `sep` before the next column: the text, and
-- whether some column has the row.
unfoldable pub cells : (sep : Bytes) → ℕ → ℤ → List (List Bytes) → StatusOr (Bytes × Bool)
unfolding cell
cells sep row column_width [] = ok ([], false)
cells sep row column_width (column ∷ columns) = do
  (append, here) ← cell row column_width column
  (rest, later) ← cells (codes "|") row column_width columns
  ok (sep ++ (b' ' ∷ (append ++ rest)), here || later)

-- Its outer loop from a row on, of `fuel` rows at most.
unfoldable pub rows_from : (fuel row : ℕ) → ℤ → List (List Bytes) → StatusOr (List Bytes)
unfolding cells
rows_from zero row column_width columns = no_fuel
rows_from (suc fuel) row column_width columns =
    let later = rows_from fuel (suc row) column_width columns in
    do
      (text, unempty) ← cells [] row column_width columns
      (if unempty then (later >>= λ lines. ok ((b'|' ∷ (text ++ codes "|")) ∷ lines)) else ok [])

-- The number of rows of the longest column.
unfoldable pub depth : List (List Bytes) → ℕ
depth [] = 0
depth (column ∷ columns) =
    let rest = depth columns in if ltb rest (length column) then length column else rest

-- `ConcatenateWrappedColumns`, on fuel for all rows and the test after the last.
unfoldable pub concatenate : List (List Bytes) → ℤ → StatusOr (List Bytes)
unfolding rows_from depth
concatenate columns column_width = rows_from (suc (depth columns)) 0 column_width columns

-- `GetLines`
unfoldable pub get_lines : List Bytes → ℤ → StatusOr (List Bytes)
unfolding wrap_columns concatenate
get_lines contents column_width = do
  wrapped ← wrap_columns contents column_width
  concatenate wrapped column_width
