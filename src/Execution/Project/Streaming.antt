-- ===== src/Execution/Project/Streaming.antt =====
-- A projection gives the chosen columns of its child's records (komfydb/execution/project.cc).
use mathlib.Core.Path.{subst}
use komfy_db.Base.{
  ◌≡◌, refl, ap, ◌∙◌, List, [], ◌∷◌, Option, none, some, map, Bytes, at?, All, zero, suc,
}
use komfy_db.Base.Int.{ℤ, pos, negsuc}
use komfy_db.Base.Status.{ok, or_err, or_fault, invalid_argument, >>=-eq-ok, ok-injective}
use komfy_db.Common.Field.{Field, int_field, string_field, FieldType, int, string, get_type}
use komfy_db.Common.Tuple.{Tuple, get_field}
use komfy_db.Common.TupleDesc.{TdItem, TupleDesc, get_item}
use komfy_db.Storage.Ids.{Record}
use komfy_db.Execution.Iterator.{OpIterator, iterator, fresh}
use komfy_db.Execution.Iterator.Streams.{Streams}
use komfy_db.Execution.Project.{
  create_items, copy_field, project_fields, project, Projects, Projects-Streams,
}

-- The value in a column, if there is one.
abbrev pub value_in : Option (Option Field) → Option Field
value_in none = none
value_in (some f) = f

abbrev pub column_value : Tuple → ℤ → Option Field
column_value t idx = value_in (at? t idx)

-- The record with these columns of `r`, and nothing else.
abbrev pub chosen : List ℤ → Record → Record
chosen idxs r = record r { tuple = map (column_value r.tuple) idxs }

-- Every column of the schema is set in the tuple, to a value of its type.
abbrev pub IsTyped : List TdItem → Tuple → Type 0
IsTyped [] [] = Unit
IsTyped (item ∷ items) (some f ∷ t) = (get_type f ≡ item.field_type) × IsTyped items t
IsTyped (item ∷ items) (none ∷ t) = ⊥
IsTyped (item ∷ items) [] = ⊥
IsTyped [] (f ∷ t) = ⊥

typed_column :
    (items : List TdItem) (t : Tuple) (idx : ℤ) (item : TdItem)
    → IsTyped items t
    → at? items idx ≡ some item
    → (f : Field) × (at? t idx ≡ some (some f)) × (get_type f ≡ item.field_type)
typed_column items t (negsuc n) item h e = absurd cc
typed_column [] t (pos n) item h e = absurd cc
typed_column (i ∷ items) [] (pos n) item h e = absurd h
typed_column (i ∷ items) (none ∷ t) (pos n) item h e = absurd h
typed_column (i ∷ items) (some f ∷ t) (pos zero) item h e =
    let same : i ≡ item = cc in (f, refl, h.0 ∙ ap (λ (i : TdItem). i.field_type) same)
typed_column (i ∷ items) (some f ∷ t) (pos (suc n)) item h e =
    typed_column items t (pos n) item h.1 e

get_field-of_set :
    (t : Tuple) (idx : ℤ) (f : Field) → at? t idx ≡ some (some f) → get_field t idx ≡ ok f
unfolding get_field
get_field-of_set t idx f h = rw h refl

copy_field-same : (type : FieldType) (f : Field) → get_type f ≡ type → copy_field type f ≡ ok f
unfolding copy_field get_type
copy_field-same int (int_field v) h = refl
copy_field-same string (string_field s) h = refl
copy_field-same int (string_field s) h = absurd cc
copy_field-same string (int_field v) h = absurd cc

or_err-found : {A : Type 0} (o : Option A) (a : A) → or_err o invalid_argument ≡ ok a → o ≡ some a
or_err-found none a h = absurd cc
or_err-found (some b) a h = ap some (ok-injective h)

project_fields-chosen :
    (td : TupleDesc) (aliases : List Bytes) (idxs : List ℤ) (items : List TdItem) (out : List Bytes)
    (t : Tuple)
    → create_items td aliases idxs ≡ ok (items, out)
    → IsTyped td.items t
    → project_fields items idxs t ≡ ok (map (column_value t) idxs)
unfolding create_items project_fields get_item
project_fields-chosen td aliases [] items out t h typed =
    subst (λ (p : List TdItem × List Bytes). project_fields p.0 [] t ≡ ok []) (ok-injective h) refl
project_fields-chosen td aliases (idx ∷ idxs) items out t h typed =
    let (item, e, k) = >>=-eq-ok (get_item td idx) _ h in
    let (alias, e', k') = >>=-eq-ok (or_fault (at? aliases idx)) _ k in
    let ((items', out'), e'', k'') = >>=-eq-ok (create_items td aliases idxs) _ k' in
    let (f, there, same) =
      typed_column td.items t idx item typed (or_err-found (at? td.items idx) item e) in
    subst
      (λ (p : List TdItem × List Bytes).
        project_fields p.0 (idx ∷ idxs) t ≡ ok (map (column_value t) (idx ∷ idxs)))
      (ok-injective k'')
      (rw
        (
          get_field-of_set t idx f there,
          copy_field-same item.field_type f same,
          project_fields-chosen td aliases idxs items' out' t e'' typed,
          there,
        )
        refl)

module _ {C : Type 0} (child : OpIterator C) (td : TupleDesc) (aliases : List Bytes) (idxs : List ℤ)
    (items : List TdItem) (out : List Bytes)
    (created : create_items td aliases idxs ≡ ok (items, out)) where
  chosen-Projects :
      (rs : List Record)
      → All (λ (r : Record). IsTyped td.items r.tuple) rs
      → Projects child items idxs rs (map (chosen idxs) rs)
  chosen-Projects [] h = Projects.none_left
  chosen-Projects (r ∷ rs) (typed, h) =
      Projects.next (project_fields-chosen td aliases idxs items out r.tuple created typed)
        (chosen-Projects rs h)

  -- A projection that `Create` made for a schema, over a child whose records have in each column of the
  -- schema a value of its type, streams for each record of the child, in their order, the record with
  -- the same id and the values of the columns that were asked for, in the order asked for.
  pub project-Streams :
      {c e : C} {rs : List Record}
      → Streams child c rs e
      → All (λ (r : Record). IsTyped td.items r.tuple) rs
      → Streams (iterator (project child items idxs)) (fresh c) (map (chosen idxs) rs) (fresh e)
  project-Streams {rs = rs} s h = Projects-Streams child items idxs s (chosen-Projects rs h)
