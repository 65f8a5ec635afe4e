-- ===== src/Execution/Fixed.antt =====
-- A fixed list of records: komfydb/execution/fixed_iterator.cc.
use komfy_db.Base.{refl, false, List, [], ◌∷◌}
use komfy_db.Base.State.{State}
use komfy_db.Base.Status.{StatusOr, ok, err, out_of_range}
use komfy_db.Storage.Ids.{Record}
use komfy_db.Execution.Iterator.{Operator}
use komfy_db.Execution.Iterator.Streams.{Fetches}

-- `records`, and those from `it` on.
pub record Fixed : Type 0 where
  pub records : List Record
  pub it : List Record

abbrev start : State Fixed (Unit {0})
start s = (record s { it = s.records }, ok tt)

-- `FetchNext`
abbrev fetch_at : Fixed → List Record → Fixed × StatusOr Record
fetch_at s [] = (s, err out_of_range)
fetch_at s (r ∷ rest) = (record s { it = rest }, ok r)

abbrev pub fixed : Operator Fixed
fixed = record {
  open_own = start;
  rewind_own = start;
  resets = false;
  fetch_next = λ s. fetch_at s s.it;
}

-- A fixed iterator gives the records from its position on.
pub fixed-Fetches :
    (records it : List Record)
    → Fetches fixed
        (record { records = records; it = it })
        it
        (record { records = records; it = [] })
fixed-Fetches records [] = Fetches.done refl
fixed-Fetches records (r ∷ it) = Fetches.more refl (fixed-Fetches records it)
