-- ===== src/Execution/Iterator/Streams.antt =====
-- What an iterator produces: the records that a parent gets from it before it is out of range
-- (komfydb/execution/op_iterator.h, `WHILE_HAS_NEXT` and `ITERATE_RECORDS`).
use komfy_db.Base.{◌≡◌, refl, List, [], ◌∷◌, some, arith}
use komfy_db.Base.Status.{ok, err, out_of_range}
use komfy_db.Storage.Ids.{Record}
use komfy_db.Execution.Iterator.{OpIterator, Operator, fresh, has_next, next, iterator}

-- From state `c` the iterator gives the records of the list, one by one, by `Next` alone or by
-- `HasNext` and `Next`; then both are out of range, in state `e`.
pub data Streams {C : Type 0} (o : OpIterator C) : C → List Record → C → Type 0 where
  done :
      {c e : C}
      → o.has_next c ≡ (e, err out_of_range)
      → o.next c ≡ (e, err out_of_range)
      → Streams o c [] e
  more :
      {c d c' e : C} {r : Record} {rs : List Record}
      → o.has_next c ≡ (d, ok tt)
      → o.next d ≡ (c', ok r)
      → o.next c ≡ (c', ok r)
      → Streams o c' rs e
      → Streams o c (r ∷ rs) e

-- The same of a class, by `FetchNext`.
pub data Fetches {S : Type 0} (op : Operator S) : S → List Record → S → Type 0 where
  done : {s e : S} → op.fetch_next s ≡ (e, err out_of_range) → Fetches op s [] e
  more :
      {s s' e : S} {r : Record} {rs : List Record}
      → op.fetch_next s ≡ (s', ok r)
      → Fetches op s' rs e
      → Fetches op s (r ∷ rs) e

-- An object whose class fetches a list of records streams that list.
pub Fetches-Streams :
    {S : Type 0} {op : Operator S} {s e : S} {rs : List Record}
    → Fetches op s rs e
    → Streams (iterator op) (fresh s) rs (fresh e)
unfolding has_next next
Fetches-Streams (Fetches.done h) = Streams.done (ground arith) (ground arith)
Fetches-Streams {op = op} (Fetches.more {s} {s'} {e} {r} {rs} h f) =
    Streams.more {d = record { own = s'; next_record = some r }} (ground arith) refl (ground arith)
      (Fetches-Streams f)
