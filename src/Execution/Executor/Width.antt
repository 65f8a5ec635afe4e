-- ===== src/Execution/Executor/Width.antt =====
-- The widths of printed lines: `GetLines` and `GetLineBreak` of komfydb/execution/executor.cc.
use native.Mathlib.Nat.{suc-mul, zero-mul}
use mathlib.Core.Path.{subst}
use komfy_db.Base.{
  ℕ, zero, suc, ◌+◌, ◌-◌, ◌*◌, ◌≤◌, ◌<◌, ◌≡◌, refl, ◌∙◌, ap, Bool, ◌||◌, List, [], ◌∷◌, ◌++◌, inl,
  inr, Bytes, codes, length, ltb, ltb→lt, Bool-cases, length-append, length-replicate, replicate,
  get_elem?, All, arith, if◌then◌else◌,
}
use komfy_db.Base.Int.{pos, negsuc, ◌+ℤ◌}
use komfy_db.Base.Status.{ok, StatusOr}
use komfy_db.Execution.Executor.Lines.{
  fill, extend, cell, cell_of, cells, rows_from, depth, concatenate, wrap_columns, get_lines,
  get_line_break, more_dashes, line_break_of,
}
use komfy_db.Execution.Executor.Wrapping.{wrap_word_lem}

-- The parts of a column that fit a width.
abbrev Fits : ℕ → List Bytes → Type 0
Fits w = All (λ p. length p ≤ w)

extend_width :
    (content : Bytes) (w : ℕ)
    → length content ≤ w
    → (text : Bytes) × (extend content (pos w) ≡ ok text) × (length text ≡ w)
unfolding extend fill ◌+ℤ◌
extend_width content w h = (
  content ++ replicate (w - length content) b' ',
  ground arith,
  omega (
    arith,
    length-append content (replicate (w - length content) b' '),
    length-replicate {A = ℕ} (w - length content) b' ',
  ),
)

one_less : (w : ℕ) → pos (suc w) +ℤ negsuc 0 ≡ pos w
unfolding ◌+ℤ◌
one_less w = ground arith

cell_of-width :
    (row w : ℕ) (column : List Bytes)
    → Fits w column
    → (text : Bytes) × (cell_of (get_elem? column row) (replicate w b' ') (pos w)
        ≡ ok (text, ltb row (length column)))
      × (length text ≡ w)
cell_of-width row w [] h = (replicate w b' ', ground arith, length-replicate w b' ')
cell_of-width zero w (part ∷ column) h =
    let (text, e, l) = extend_width part w h.0 in (text, rw e (ground arith), l)
cell_of-width (suc row) w (part ∷ column) h =
    let (text, e, l) = cell_of-width row w column h.1 in (text, e ∙ ground arith, l)

cell_width :
    (row w : ℕ) (column : List Bytes)
    → Fits w column
    → (text : Bytes) × (cell row (pos (suc w)) column ≡ ok (text, ltb row (length column)))
      × (length text ≡ w)
unfolding cell fill
cell_width row w column h =
    let (text, e, l) = cell_of-width row w column h in (text, rw (one_less w) e, l)

longer : (row a b : ℕ) → (ltb row a || ltb row b) ≡ ltb row (if ltb b a then a else b)
longer row a b = ground arith

abbrev whole_row : Bytes → Bool → StatusOr (Bytes × Bool)
whole_row text b = ok (text, b)

sides : {b b' : Bool} (text : Bytes) → b ≡ b' → whole_row text b ≡ ok (text, b')
sides text e = ap (λ b. whole_row text b) e

-- what stands before the first column
abbrev edge : Bytes → ℕ → ℕ
edge sep zero = 1
edge sep (suc n) = length sep

-- the text of a row
cells_width :
    (sep : Bytes) (row w : ℕ) (columns : List (List Bytes))
    → All (Fits w) columns
    → (text : Bytes) × (cells sep row (pos (suc w)) columns ≡ ok (text, ltb row (depth columns)))
      × (length text + 1 ≡ edge sep (length columns) + length columns * (w + 2))
unfolding cells depth
cells_width sep row w [] h = ([], ground arith, omega arith)
cells_width sep row w (column ∷ columns) h =
    let (append, e, l) = cell_width row w column h.0 in
    let (rest, e', l') = cells_width (codes "|") row w columns h.1 in
    let whole : Bytes = sep ++ (b' ' ∷ (append ++ rest)) in
    (
      whole,
      rw (e, e') (sides whole (longer row (length column) (depth columns))),
      wide sep append rest w (length columns) l (omega (arith, one_edge (length columns), l')),
    )
  where
    one_edge : (n : ℕ) → edge (codes "|") n ≡ 1
    one_edge zero = refl
    one_edge (suc n) = refl

    wide :
        (sep append rest : Bytes) (w n : ℕ)
        → length append ≡ w
        → length rest + 1 ≡ 1 + n * (w + 2)
        → length (sep ++ (b' ' ∷ (append ++ rest))) + 1 ≡ length sep + suc n * (w + 2)
    wide sep append rest w n l l' = omega (
      arith,
      length-append sep (b' ' ∷ (append ++ rest)),
      length-append append rest,
      suc-mul n (w + 2),
    )

some_column : (columns : List (List Bytes)) → 0 < depth columns → 0 < length columns
unfolding depth
some_column [] h = absurd (omega arith)
some_column (column ∷ columns) h = omega arith

line_width :
    (text : Bytes) (n m : ℕ)
    → 0 < n
    → length text + 1 ≡ edge [] n + m
    → length (b'|' ∷ (text ++ codes "|")) ≡ m + 1
line_width text zero m h l = absurd (omega arith)
line_width text (suc n) m h l = omega (arith, length-append text (codes "|"))

-- the lines from a row on
rows_width :
    (fuel row w : ℕ) (columns : List (List Bytes))
    → All (Fits w) columns
    → depth columns < row + fuel
    → row ≤ depth columns
    → (lines : List Bytes) × (rows_from fuel row (pos (suc w)) columns ≡ ok lines)
      × All (λ line. length line ≡ length columns * (w + 2) + 1) lines
unfolding rows_from
rows_width zero row w columns h k m = absurd (omega arith)
rows_width (suc fuel) row w columns h k m =
    let (text, e, l) = cells_width [] row w columns h in
    elim (Bool-cases (ltb row (depth columns))) [
      | inl t ↦
          let (lines, e', l') =
            rows_width fuel (suc row) w columns h (omega arith)
              (omega (arith, ltb→lt row (depth columns) t)) in
          (
            (b'|' ∷ (text ++ codes "|")) ∷ lines,
            rw (e, t, e') refl,
            (
              line_width text (length columns) (length columns * (w + 2))
                  (some_column columns (omega (arith, ltb→lt row (depth columns) t))) l,
              l',
            ),
          )
      | inr t ↦ ([], rw (e, t) refl, tt)
    ]

two_less : (w : ℕ) → 2 ≤ w → pos (suc w) +ℤ negsuc 1 ≡ pos (w - 1)
unfolding ◌+ℤ◌
two_less w k = ground arith

narrow : (w : ℕ) (parts : List Bytes) → All (λ p. length p ≤ w - 1) parts → Fits w parts
narrow w [] h = tt
narrow w (part ∷ parts) h = (omega arith, narrow w parts h.1)

wrap_columns_lem :
    (contents : List Bytes) (w : ℕ)
    → All (λ c. 0 < length c) contents
    → 2 ≤ w
    → (columns : List (List Bytes)) × (wrap_columns contents (pos (suc w)) ≡ ok columns)
      × All (Fits w) columns
      × (length columns ≡ length contents)
unfolding wrap_columns
wrap_columns_lem [] w h k = ([], refl, tt, refl)
wrap_columns_lem (content ∷ contents) w h k =
    let (parts, e, _, small) = wrap_word_lem content (w - 1) h.0 (omega arith) in
    let (columns, e', fit, same) = wrap_columns_lem contents w h.1 k in
    (parts ∷ columns, rw (two_less w k, e, e') refl, (narrow w parts small, fit), ap suc same)

line_break_width :
    (count w : ℕ) (dashes : Bytes)
    → length dashes ≡ suc w
    → length (line_break_of (suc count) dashes) ≡ suc count * (w + 2) + 1
unfolding more_dashes
line_break_width zero w dashes h =
    omega (arith, length-append dashes (codes "+"), suc-mul 0 (w + 2), zero-mul (w + 2))
line_break_width (suc count) w dashes h = omega (
  arith,
  line_break_width count w dashes h,
  suc-mul (suc count) (w + 2),
  length-append dashes (more_dashes (suc count) dashes ++ codes "+"),
  length-append (more_dashes (suc count) dashes) (codes "+"),
  length-append dashes (more_dashes count dashes),
  length-append dashes (more_dashes count dashes ++ codes "+"),
  length-append (more_dashes count dashes) (codes "+"),
)

-- `GetLines` of nonempty contents with a column width above two succeeds, and each of its lines is
-- as long as `GetLineBreak` makes the line between rows: one for the border and, for each column, one
-- more than the column width.
pub get_lines_lem :
    (contents : List Bytes) (w : ℕ)
    → All (λ c. 0 < length c) contents
    → 0 < length contents
    → 2 ≤ w
    → (lines : List Bytes) × (line_break : Bytes) × (get_lines contents (pos (suc w)) ≡ ok lines)
      × (get_line_break (pos (suc w)) (length contents) ≡ ok line_break)
      × All (λ line. length line ≡ length contents * (w + 2) + 1) lines
      × (length line_break ≡ length contents * (w + 2) + 1)
unfolding get_lines concatenate get_line_break fill
get_lines_lem [] w h m k = absurd (omega arith)
get_lines_lem (content ∷ contents) w h m k =
    let (columns, e, fit, same) = wrap_columns_lem (content ∷ contents) w h k in
    let (lines, e', wide) =
      rows_width (suc (depth columns)) 0 w columns fit (omega arith) (omega arith) in
    (
      lines,
      line_break_of (suc (length contents)) (replicate (suc w) b'-'),
      rw e e',
      refl,
      subst (λ n. All (λ line. length line ≡ n * (w + 2) + 1) lines) same wide,
      line_break_width (length contents) w (replicate (suc w) b'-')
          (length-replicate {A = ℕ} (suc w) b'-'),
    )
