-- ===== src/Parser/Columns.antt =====
-- The columns of a CREATE TABLE have their names, and the key that is found is one of these:
-- komfydb/parser.cc.
use mathlib.Core.Path.{subst}
use komfy_db.Base.{
  ℕ, suc, ◌≡◌, ◌⊎◌, inl, inr, refl, sym, ap, ◌∙◌, true, false, List, [], ◌∷◌, Bytes, map,
  if◌then◌else◌, Bool,
}
use komfy_db.Base.Int.{pos}
use komfy_db.Base.Status.{ok, >>=-eq-ok, ok-injective}
use komfy_db.Common.TupleDesc.{TdItem, get_field_name}
use komfy_db.Parser.Statement.{ColumnDefinition, column_type, parse_columns, or_first}

-- Some column has the name.
abbrev pub Names : List TdItem → Bytes → Type 0
Names items key = (j : ℕ) × (get_field_name (record { items = items }) (pos j) ≡ ok key)

abbrev pub names : List TdItem → List Bytes
names items = map (λ (i : TdItem). i.field_name) items

Names-later :
    (item : TdItem) (items : List TdItem) (key : Bytes) → Names items key → Names (item ∷ items) key
unfolding get_field_name
Names-later item items key (j, h) = (suc j, h)

-- the key that was given, or the name of a column
abbrev pub Found : List TdItem → Bytes → Bytes → Type 0
Found items given key = (key ≡ given) ⊎ Names items key

pub parse_columns-Found :
    (defs : List ColumnDefinition) (given : Bytes) (r : List TdItem × Bytes)
    → parse_columns defs given ≡ ok r
    → (names r.0 ≡ map (λ (d : ColumnDefinition). d.name) defs) × Found r.0 given r.1
unfolding parse_columns get_field_name
parse_columns-Found [] given r e =
    subst (λ (r : List TdItem × Bytes). (names r.0 ≡ []) × Found r.0 given r.1) (ok-injective e)
      (refl, inl refl)
parse_columns-Found (d ∷ defs) given r e =
    let (t, et, e') = >>=-eq-ok (column_type d.data_type) _ e in
    let key = if d.primary_key then d.name else given in
    let (inner, ei, e'') =
      >>=-eq-ok (parse_columns defs key)
        (λ s. ok (record { field_type = t; field_name = d.name } ∷ s.0, s.1)) e' in
    let (same, found) = parse_columns-Found defs key inner ei in
    subst
      (λ (r : List TdItem × Bytes).
        (names r.0 ≡ map (λ (d : ColumnDefinition). d.name) (d ∷ defs)) × Found r.0 given r.1)
      (ok-injective e'')
      (
        ap (λ ns. d.name ∷ ns) same,
        here (record { field_type = t; field_name = d.name }) refl inner found,
      )
  where
    by_constraint :
        (item : TdItem)
        → item.field_name ≡ d.name
        → (items : List TdItem) (k : Bytes) (b : Bool) → k ≡ (if b then d.name else given)
        → Found (item ∷ items) given k
    by_constraint item n items k true h = inr (0, ap ok (n ∙ sym h))
    by_constraint item n items k false h = inl h

    here :
        (item : TdItem)
        → item.field_name ≡ d.name
        → (s : List TdItem × Bytes) → Found s.0 (if d.primary_key then d.name else given) s.1
        → Found (item ∷ s.0) given s.1
    here item n s (inl h) = by_constraint item n s.0 s.1 d.primary_key h
    here item n s (inr h) = inr (Names-later item s.0 s.1 h)

pub or_first-Names :
    (key : Bytes) (items : List TdItem) (primary_key : Bytes)
    → Found items [] key
    → or_first key items ≡ ok primary_key
    → Names items primary_key
unfolding get_field_name
or_first-Names (b ∷ bs) items k (inl h) e = cc
or_first-Names (b ∷ bs) items k (inr h) e = subst (Names items) (ok-injective e) h
or_first-Names [] [] k h e = cc
or_first-Names [] (item ∷ items) k h e = (0, e)
