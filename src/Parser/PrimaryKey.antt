-- ===== src/Parser/PrimaryKey.antt =====
-- The table of a CREATE TABLE has its columns, and its primary key: komfydb/parser.cc.
use mathlib.Core.Path.{subst}
use komfy_db.Base.{
  ℕ, ◌≡◌, ◌≢◌, ◌⊎◌, ◌++◌, All, inl, inr, refl, sym, ap, ◌∙◌, true, false, List, [], ◌∷◌, Bytes, map,
  if◌then◌else◌, Bool,
}
use komfy_db.Base.Status.{ok, >>=-eq-ok, ok-injective}
use komfy_db.Common.Field.{FieldType, int, string}
use komfy_db.Common.TupleDesc.{TdItem, TupleDesc, index_for_field_name}
use komfy_db.Common.TupleDesc.Lookup.{index_for_field_name_lem}
use komfy_db.Parser.Statement.{
  ColumnDefinition, DataType, int_type, text_type, other_type, column_type, parse_columns, or_first,
  Query, CreateStatement, parse_create_statement,
}
use komfy_db.Parser.Columns.{names, parse_columns-Found, or_first-Names}

-- The type that SQL has for the values of a column.
abbrev pub sql_type : FieldType → DataType
sql_type int = int_type
sql_type string = text_type

abbrev pub sql_types : List TdItem → List DataType
sql_types items = map (λ (i : TdItem). sql_type i.field_type) items

abbrev pub IsPlain : ColumnDefinition → Type 0
IsPlain d = d.primary_key ≡ false

-- The primary key of the columns: the name of the last one with a PRIMARY KEY constraint, and of the
-- first column where none has one.
pub data KeyRule : List ColumnDefinition → Bytes → Type 0 where
  constrained :
      (before : List ColumnDefinition) (d : ColumnDefinition) (later : List ColumnDefinition)
      → d.primary_key ≡ true
      → All IsPlain later
      → KeyRule (before ++ d ∷ later) d.name
  by_default :
      (d : ColumnDefinition) {later : List ColumnDefinition}
      → All IsPlain (d ∷ later)
      → KeyRule (d ∷ later) d.name

column_type-sql_type :
    (data_type : DataType) (t : FieldType) → column_type data_type ≡ ok t → sql_type t ≡ data_type
column_type-sql_type int_type t h = ap sql_type (sym (ok-injective h))
column_type-sql_type text_type t h = ap sql_type (sym (ok-injective h))
column_type-sql_type other_type t h = absurd cc

-- The last constraint, or none and the key that was given.
abbrev Last : List ColumnDefinition → Bytes → Bytes → Type 0
Last defs given key =
    ((before : List ColumnDefinition) × (d : ColumnDefinition) × (later : List ColumnDefinition)
      × (defs ≡ before ++ d ∷ later)
      × (d.primary_key ≡ true)
      × All IsPlain later
      × (key ≡ d.name))
    ⊎ (All IsPlain defs × (key ≡ given))

Last-cons :
    (d : ColumnDefinition) (defs : List ColumnDefinition) (given key : Bytes) (b : Bool)
    → d.primary_key ≡ b
    → Last defs (if b then d.name else given) key
    → Last (d ∷ defs) given key
Last-cons d defs given key b same (inl (before, d', later, split, constraint, plain, named)) =
    inl (d ∷ before, d', later, ap (λ ds. d ∷ ds) split, constraint, plain, named)
Last-cons d defs given key true same (inr (plain, named)) =
    inl ([], d, defs, refl, same, plain, named)
Last-cons d defs given key false same (inr (plain, named)) = inr ((same, plain), named)

parse_columns-Last :
    (defs : List ColumnDefinition) (given : Bytes) (r : List TdItem × Bytes)
    → parse_columns defs given ≡ ok r
    → (sql_types r.0 ≡ map (λ (d : ColumnDefinition). d.data_type) defs) × Last defs given r.1
unfolding parse_columns
parse_columns-Last [] given r e =
    subst (λ (r : List TdItem × Bytes). (sql_types r.0 ≡ []) × Last [] given r.1) (ok-injective e)
      (refl, inr (tt, refl))
parse_columns-Last (d ∷ defs) given r e =
    let (t, et, e') = >>=-eq-ok (column_type d.data_type) _ e in
    let key = if d.primary_key then d.name else given in
    let (inner, ei, e'') =
      >>=-eq-ok (parse_columns defs key)
        (λ s. ok (record { field_type = t; field_name = d.name } ∷ s.0, s.1)) e' in
    let (same, last) = parse_columns-Last defs key inner ei in
    subst
      (λ (r : List TdItem × Bytes).
        (sql_types r.0 ≡ map (λ (d : ColumnDefinition). d.data_type) (d ∷ defs))
        × Last (d ∷ defs) given r.1)
      (ok-injective e'')
      (
        ap (λ t'. t' ∷ sql_types inner.0) (column_type-sql_type d.data_type t et)
            ∙ ap (λ ts. d.data_type ∷ ts) same,
        Last-cons d defs given inner.1 d.primary_key refl last,
      )

abbrev pub IsNamed : ColumnDefinition → Type 0
IsNamed d = d.name ≢ []

named_at :
    (before : List ColumnDefinition) (d : ColumnDefinition) (later : List ColumnDefinition)
    → All IsNamed (before ++ d ∷ later)
    → d.name ≢ []
named_at [] d later h = h.0
named_at (b ∷ before) d later h = named_at before d later h.1

-- a key that is not empty is kept
or_first-given :
    (key : Bytes) (items : List TdItem) (k : Bytes) → key ≢ [] → or_first key items ≡ ok k → key ≡ k
or_first-given [] items k h e = absurd (h refl)
or_first-given (b ∷ bs) items k h e = ok-injective e

or_first-name :
    (defs : List ColumnDefinition) (items : List TdItem) (k : Bytes)
    → names items ≡ map (λ (d : ColumnDefinition). d.name) defs
    → All IsPlain defs
    → or_first [] items ≡ ok k
    → KeyRule defs k
or_first-name defs [] k same plain e = absurd cc
or_first-name [] (item ∷ items) k same plain e = absurd cc
or_first-name (d ∷ defs) (item ∷ items) k same plain e =
    let first : d.name ≡ k = cc in subst (KeyRule (d ∷ defs)) first (KeyRule.by_default d plain)

or_first-KeyRule :
    (columns : List ColumnDefinition) (key : Bytes) (items : List TdItem) (k : Bytes)
    → All IsNamed columns
    → names items ≡ map (λ (d : ColumnDefinition). d.name) columns
    → Last columns [] key
    → or_first key items ≡ ok k
    → KeyRule columns k
or_first-KeyRule columns key items k named same
      (inl (before, d, later, split, constraint, plain, is_name)) e =
    let given : d.name ≢ [] = named_at before d later (subst (All IsNamed) split named) in
    let kept : d.name ≡ k =
      sym is_name ∙ or_first-given key items k (λ p. given (sym is_name ∙ p)) e in
    subst (λ ds. KeyRule ds k) (sym split)
      (subst (KeyRule (before ++ d ∷ later)) kept
        (KeyRule.constrained before d later constraint plain))
or_first-KeyRule columns key items k named same (inr (plain, empty)) e =
    or_first-name columns items k same plain (ap (λ key. or_first key items) (sym empty) ∙ e)

-- Where no column has the empty name, the query that a CREATE TABLE is parsed to is for a table of its
-- name, with its columns in their order: each has the name and the type of its definition. The primary
-- key is the name of the last column with a PRIMARY KEY constraint, or of the first column where none has
-- one, and it is found among the columns.
pub parse_create_statement-primary_key :
    {I : Type 0} (table_name : Bytes) (columns : List ColumnDefinition) (query : Query I)
    → All IsNamed columns
    → parse_create_statement (CreateStatement.create_table table_name columns) ≡ ok query
    → (td : TupleDesc) × (key : Bytes) × (query ≡ Query.create_table table_name td key)
      × (names td.items ≡ map (λ (d : ColumnDefinition). d.name) columns)
      × (sql_types td.items ≡ map (λ (d : ColumnDefinition). d.data_type) columns)
      × KeyRule columns key
      × (k : ℕ) × (index_for_field_name td key ≡ ok k)
unfolding parse_create_statement
parse_create_statement-primary_key table_name columns query named e =
    let (r, er, e') = >>=-eq-ok (parse_columns columns []) _ e in
    let (key, ek, e'') =
      >>=-eq-ok (or_first r.1 r.0)
        (λ key. ok (Query.create_table table_name (record { items = r.0 }) key)) e' in
    let (same, found) = parse_columns-Found columns [] r er in
    let (typed, last) = parse_columns-Last columns [] r er in
    let (j, at_j) = or_first-Names r.1 r.0 key found ek in
    let td : TupleDesc = record { items = r.0 } in
    let indexed : (k : ℕ) × (index_for_field_name td key ≡ ok k) =
      elim (index_for_field_name_lem td key) [
        | inl (k, found', named', least) ↦ (k, found')
        | inr (missing, unnamed) ↦ absurd (unnamed j at_j)
      ] in
    (
      td,
      key,
      sym (ok-injective e''),
      same,
      typed,
      or_first-KeyRule columns r.1 r.0 key named same last ek,
      indexed.0,
      indexed.1,
    )
