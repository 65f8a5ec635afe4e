-- ===== src/Storage/TableIterator.antt =====
-- The scan of a table, page by page: komfydb/storage/table_iterator.h and table_iterator.cc. The
-- buffer pool that it shares is part of its state.
use komfy_db.Base.{ℕ, zero, suc, List, [], ◌∷◌, Option, none, some, Bytes}
use komfy_db.Base.State.{State, ◌>>=◌, ◌>>◌}
use komfy_db.Base.Status.{StatusOr, ok, err, fault, no_fuel}
use komfy_db.Common.TupleDesc.{TupleDesc}
use komfy_db.Storage.BufferPool.{BufferPool, get_page}
use komfy_db.Storage.Catalog.{get_table_name, get_tuple_desc}
use komfy_db.Storage.HeapPage.{HeapPage, get_records}
use komfy_db.Storage.Ids.{Record}

-- `next_page` is `page_ctr` and one. `records` are those from `current_tuple` on; there are none to
-- point at before the first page is loaded.
pub record TableIterator : Type 0 where
  pub bufferpool : BufferPool
  pub table_id : ℕ
  pub table_name : Bytes
  pub next_page : ℕ
  pub records : Option (List Record)

-- `Create`
unfoldable pub create : ℕ → State BufferPool TableIterator
create table_id = do
  name ← (λ p. (p, get_table_name p.catalog table_id))
  (λ p. (
    p,
    ok (record {
      bufferpool = p;
      table_id = table_id;
      table_name = name;
      next_page = 0;
      records = none;
    }),
  ))

-- what `GetRecords` gave
abbrev pub show_records :
    TableIterator → StatusOr (List Record) → TableIterator × StatusOr (Unit {0})
show_records it (ok rs) = (record it { records = some rs }, ok tt)
show_records it other = (it, fault)

-- The page that `GetPage` gave becomes the current one.
abbrev pub current : TableIterator → StatusOr HeapPage → TableIterator × StatusOr (Unit {0})
current it (ok page) = show_records it (get_records page)
current it (err c) = (it, err c)
current it fault = (it, fault)
current it no_fuel = (it, no_fuel)

-- what `GetPage` left of the pool, and the page
abbrev pub loaded :
    TableIterator → BufferPool × StatusOr HeapPage → TableIterator × StatusOr (Unit {0})
loaded it (p, page) = current (record it { bufferpool = p; next_page = suc it.next_page }) page

-- `LoadNextPage`
unfoldable pub load_next_page : State TableIterator (Unit {0})
load_next_page it =
    loaded it (get_page (record { table_id = it.table_id; page_no = it.next_page }) it.bufferpool)

-- `Open`; `Rewind` does the same
unfoldable pub open_table : State TableIterator (Unit {0})
unfolding load_next_page
open_table it = load_next_page (record it { next_page = 0 })

-- `HasNext` by the records of the current page; `later` is the call of itself.
abbrev pub has_current :
    State TableIterator (Unit {0})
    → TableIterator
    → Option (List Record)
    → TableIterator × StatusOr (Unit {0})
has_current later it none = (it, fault)
has_current later it (some []) = (load_next_page >> later) it
has_current later it (some (r ∷ rs)) = (it, ok tt)

-- `HasNext`, over `fuel` pages at most
unfoldable pub has_next : ℕ → State TableIterator (Unit {0})
unfolding load_next_page
has_next zero it = (it, no_fuel)
has_next (suc fuel) it = has_current (has_next fuel) it it.records

abbrev pub take_current : State TableIterator Record
take_current it = elim it.records [
  | some (r ∷ rs) ↦ (record it { records = some rs }, ok r)
  | _ ↦ (it, fault)
]

-- `Next`
unfoldable pub next : ℕ → State TableIterator Record
unfolding has_next
next fuel = has_next fuel >> take_current

-- `GetTupleDesc`
unfoldable pub tuple_desc_of : TableIterator → StatusOr TupleDesc
tuple_desc_of it = get_tuple_desc it.bufferpool.catalog it.table_id
