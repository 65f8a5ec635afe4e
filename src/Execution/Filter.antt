-- ===== src/Execution/Filter.antt =====
-- Filters: komfydb/execution/filter.cc.
pub mod Streaming
use komfy_db.Base.{
  ℕ, zero, suc, ◌<◌, ◌≡◌, refl, Bool, true, false, List, [], ◌∷◌, if◌then◌else◌, length, arith, ap,
}
use komfy_db.Base.State.{State}
use komfy_db.Base.Status.{
  StatusOr, ok, err, fault, no_fuel, out_of_range, ◌>>=◌, ◌>>◌, guard, invalid_argument,
}
use komfy_db.Common.TupleDesc.{TupleDesc, get_field_type}
use komfy_db.Storage.Ids.{Record}
use komfy_db.Execution.Iterator.{OpIterator, Operator}
use komfy_db.Execution.Iterator.Streams.{Streams, Fetches}
use komfy_db.Execution.Predicate.{Predicate, col_const, col_col, evaluate}

-- The checks of `Filter::Create`.
unfoldable pub create : TupleDesc → Predicate → StatusOr (Unit {0})
create td (col_const l op f) = do _ ← get_field_type td l; ok tt
create td (col_col l op r) = do _ ← get_field_type td l; _ ← get_field_type td r; ok tt

module _ {C : Type 0} (child : OpIterator C) (p : Predicate) where
  -- `FetchNext`: the loop takes at most `fuel` records from the child.
  unfoldable pub fetch : ℕ → State C Record
  fetch zero c = (c, no_fuel)
  fetch (suc fuel) c =
      let (c', next) = child.next c in
      elim next [
        | ok r ↦
            let rest = fetch fuel c' in
            elim (evaluate p r.tuple) [
              | ok b ↦ if b then (c', ok r) else rest
              | err e ↦ (c', fault)
              | fault ↦ (c', fault)
              | no_fuel ↦ (c', no_fuel)
            ]
        | err e ↦ (c', err e)
        | fault ↦ (c', fault)
        | no_fuel ↦ (c', no_fuel)
      ]

  abbrev pub filter : ℕ → Operator C
  filter fuel = record {
    open_own = child.open_it;
    rewind_own = child.rewind;
    resets = false;
    fetch_next = fetch fuel;
  }

-- The records that satisfy a predicate, which is evaluated without fault on each.
pub data Selects (p : Predicate) : List Record → List Record → Type 0 where
  none_left : Selects p [] []
  keep :
      {r : Record} {rs out : List Record}
      → evaluate p r.tuple ≡ ok true
      → Selects p rs out
      → Selects p (r ∷ rs) (r ∷ out)
  drop :
      {r : Record} {rs out : List Record}
      → evaluate p r.tuple ≡ ok false
      → Selects p rs out
      → Selects p (r ∷ rs) out
