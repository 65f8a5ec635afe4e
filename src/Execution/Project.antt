-- ===== src/Execution/Project.antt =====
-- Projections: komfydb/execution/project.cc.
pub mod Streaming
use komfy_db.Base.{◌≡◌, ◌∙◌, false, ap, List, [], ◌∷◌, Bytes, some, at?}
use komfy_db.Base.Int.{ℤ}
use komfy_db.Base.State.{State}
use komfy_db.Base.Status.{StatusOr, ok, fault, ◌>>=◌, or_fault}
use komfy_db.Common.Field.{Field, int_field, string_field, FieldType, int, string}
use komfy_db.Common.Tuple.{Tuple, get_field}
use komfy_db.Common.TupleDesc.{TdItem, TupleDesc, get_item}
use komfy_db.Storage.Ids.{Record}
use komfy_db.Execution.Iterator.{OpIterator, Operator, iterator, fresh}
use komfy_db.Execution.Iterator.Streams.{Streams, Fetches, Fetches-Streams}

-- The loop of `Project::Create`: the items and the table aliases of the output columns. An alias out
-- of range would be read out of bounds.
unfoldable pub create_items : TupleDesc → List Bytes → List ℤ → StatusOr (List TdItem × List Bytes)
create_items td aliases [] = ok ([], [])
create_items td aliases (idx ∷ idxs) = do
  item ← get_item td idx
  alias ← or_fault (at? aliases idx)
  (items, rest) ← create_items td aliases idxs
  ok (item ∷ items, alias ∷ rest)

-- The switch of `FetchNext`: a `dynamic_cast` to the wrong class is null and then dereferenced.
unfoldable pub copy_field : FieldType → Field → StatusOr Field
copy_field int (int_field v) = ok (int_field v)
copy_field string (string_field s) = ok (string_field s)
copy_field int (string_field s) = fault
copy_field string (int_field v) = fault

-- The loop of `FetchNext`, over the output schema and the column numbers.
unfoldable pub project_fields : List TdItem → List ℤ → Tuple → StatusOr Tuple
unfolding copy_field
project_fields [] idxs t = ok []
project_fields (item ∷ items) [] t = fault
project_fields (item ∷ items) (idx ∷ idxs) t = do
  f ← get_field t idx
  f' ← copy_field item.field_type f
  rest ← project_fields items idxs t
  ok (some f' ∷ rest)

module _ {C : Type 0} (child : OpIterator C) (items : List TdItem) (out_field_idxs : List ℤ) where
  -- the record made of the child's
  abbrev projected : Record → StatusOr Record
  projected r = do t ← project_fields items out_field_idxs r.tuple; ok (record r { tuple = t })

  abbrev project_result : StatusOr Record → StatusOr Record
  project_result m = m >>= projected

  -- `FetchNext`
  unfoldable pub fetch : State C Record
  fetch c = let (c', m) = child.next c in (c', project_result m)

  abbrev pub project : Operator C
  project = record {
    open_own = child.open_it;
    rewind_own = child.rewind;
    resets = false;
    fetch_next = fetch;
  }

  -- Each record of the second list is the projection of the one of the first.
  pub data Projects : List Record → List Record → Type 0 where
    none_left : Projects [] []
    next :
        {r : Record} {t : Tuple} {rs out : List Record}
        → project_fields items out_field_idxs r.tuple ≡ ok t
        → Projects rs out
        → Projects (r ∷ rs) (record r { tuple = t } ∷ out)

  project-Fetches :
      {c e : C} {rs out : List Record}
      → Streams child c rs e
      → Projects rs out
      → Fetches project c out e
  unfolding fetch
  project-Fetches (Streams.done _ h) Projects.none_left =
      Fetches.done (ap (λ (x : C × StatusOr Record). (x.0, project_result x.1)) h)
  project-Fetches (Streams.more {c' = c'} _ _ h s) (Projects.next {r} {t} p ps) =
      Fetches.more
        (ap (λ (x : C × StatusOr Record). (x.0, project_result x.1)) h
          ∙ ap (λ (m : StatusOr Tuple). (c', m >>= λ u. ok (record r { tuple = u }))) p)
        (project-Fetches s ps)

  -- Over a child that streams `rs`, a projection streams the projections of these records, where
  -- each can be projected.
  pub Projects-Streams :
      {c e : C} {rs out : List Record}
      → Streams child c rs e
      → Projects rs out
      → Streams (iterator project) (fresh c) out (fresh e)
  Projects-Streams s ps = Fetches-Streams (project-Fetches s ps)
