-- ===== src/Execution/SeqScan/Streaming.antt =====
-- What a scan of a table gives: all records of all pages (komfydb/execution/seq_scan.cc,
-- komfydb/storage/table_iterator.cc).
use komfy_db.Base.{
  ℕ, zero, suc, ◌<◌, ◌≡◌, refl, ap, ◌∙◌, List, [], ◌∷◌, ◌++◌, some, Bytes, arith, Option,
}
use komfy_db.Base.State.{after}
use komfy_db.Base.Status.{ok, err, out_of_range}
use komfy_db.Storage.BufferPool.{BufferPool, get_page}
use komfy_db.Storage.HeapPage.{HeapPage, get_records}
use komfy_db.Storage.Ids.{Record}
use komfy_db.Storage.TableIterator.{
  TableIterator, load_next_page, loaded, show_records, has_next, next, open_table, take_current,
}
use komfy_db.Execution.Iterator.{Iter, fresh, iterator, open_iter}
use komfy_db.Execution.Iterator.Streams.{Streams, Fetches, Fetches-Streams}
use komfy_db.Execution.SeqScan.{fetch, seq_scan}

-- From a pool, the pages of a table from a page number on, `n` of them, hold the records of the list,
-- page by page; `GetPage` is then out of range.
pub data Pages (table_id : ℕ)
    : BufferPool → (page_no n : ℕ) → List Record → BufferPool → Type 0 where
  last :
      {p e : BufferPool} {j : ℕ}
      → get_page (record { table_id = table_id; page_no = j }) p ≡ (e, err out_of_range)
      → Pages table_id p j 0 [] e
  page :
      {p p' e : BufferPool} {j n : ℕ} {pg : HeapPage} {rs out : List Record}
      → get_page (record { table_id = table_id; page_no = j }) p ≡ (p', ok pg)
      → get_records pg ≡ ok rs
      → Pages table_id p' (suc j) n out e
      → Pages table_id p j (suc n) (rs ++ out) e

module _ (table_id : ℕ) (name : Bytes) where
  -- the iterator before page `j`, with some records of the page before it left
  abbrev scanning : BufferPool → ℕ → Option (List Record) → TableIterator
  scanning p j rs = record {
    bufferpool = p;
    table_id = table_id;
    table_name = name;
    next_page = j;
    records = rs;
  }

  load-page :
      (p : BufferPool) {p' : BufferPool} (j : ℕ) {pg : HeapPage} {rs : List Record}
      (was : Option (List Record))
      → get_page (record { table_id = table_id; page_no = j }) p ≡ (p', ok pg)
      → get_records pg ≡ ok rs
      → load_next_page (scanning p j was) ≡ (scanning p' (suc j) (some rs), ok tt)
  unfolding load_next_page
  load-page p j was g r =
      ap (loaded (scanning p j was)) g ∙ ap (show_records (scanning _ (suc j) was)) r

  load-last :
      (p : BufferPool) {e : BufferPool} (j : ℕ) (was : Option (List Record))
      → get_page (record { table_id = table_id; page_no = j }) p ≡ (e, err out_of_range)
      → load_next_page (scanning p j was) ≡ (scanning e (suc j) was, err out_of_range)
  unfolding load_next_page
  load-last p j was g = ap (loaded (scanning p j was)) g

  -- enough fuel is as good as more
  has_next_fuel :
      {p e : BufferPool} {j n : ℕ} {out : List Record} (f g : ℕ) (rs : List Record)
      → Pages table_id p j n out e
      → n < f
      → n < g
      → has_next f (scanning p j (some rs)) ≡ has_next g (scanning p j (some rs))
  unfolding has_next
  has_next_fuel zero g rs h k l = absurd (omega arith)
  has_next_fuel (suc f) zero rs h k l = absurd (omega arith)
  has_next_fuel (suc f) (suc g) (r ∷ rs) h k l = refl
  has_next_fuel (suc f) (suc g) [] (Pages.last {p} {e} {j} m) k l =
      rw (load-last p j (some []) m) refl
  has_next_fuel (suc f) (suc g) [] (Pages.page {p} {p'} {e} {j} {rs = rs} m r h) k l =
      rw (load-page p j (some []) m r) (has_next_fuel f g rs h (omega arith) (omega arith))

  Fetches-from :
      (fuel : ℕ) {s s' e : TableIterator} {out : List Record}
      → fetch fuel s ≡ fetch fuel s'
      → Fetches (seq_scan fuel) s' out e
      → Fetches (seq_scan fuel) s out e
  Fetches-from fuel h (Fetches.done m) = Fetches.done (h ∙ m)
  Fetches-from fuel h (Fetches.more m f) = Fetches.more (h ∙ m) f

  -- the rest of the page at hand, and all pages behind it
  Pages-Fetches :
      {p e : BufferPool} {j n : ℕ} {out : List Record} (fuel : ℕ) (rs : List Record)
      → Pages table_id p j n out e
      → n < fuel
      → (final : TableIterator) × Fetches (seq_scan fuel) (scanning p j (some rs)) (rs ++ out) final
  unfolding fetch next has_next
  Pages-Fetches zero rs h k = absurd (omega arith)
  Pages-Fetches (suc fuel) (r ∷ rs) h k =
      let (final, f) = Pages-Fetches (suc fuel) rs h k in (final, Fetches.more refl f)
  Pages-Fetches (suc fuel) [] (Pages.last {p} {e} {j} m) k =
      (scanning e (suc j) (some []), Fetches.done (rw (load-last p j (some []) m) refl))
  Pages-Fetches (suc fuel) [] (Pages.page {p} {p'} {e} {j} {rs = rs} m r h) k =
      let (final, f) = Pages-Fetches (suc fuel) rs h (omega arith) in
      let loads : has_next (suc fuel) (scanning p j (some []))
          ≡ has_next (suc fuel) (scanning p' (suc j) (some rs)) =
        rw (load-page p j (some []) m r)
          (has_next_fuel fuel (suc fuel) rs h (omega arith) (omega arith)) in
      (final, Fetches-from (suc fuel) (ap (λ m. after (λ _. take_current) m.0 m.1) loads) f)

  opened :
      {p e : BufferPool} {n : ℕ} {out : List Record} (fuel j : ℕ) (was : Option (List Record))
      → Pages table_id p 0 n out e
      → 0 < n
      → n < fuel
      → (c : Iter TableIterator) × (final : Iter TableIterator) × (open_iter
            (seq_scan fuel)
            (fresh (scanning p j was))
          ≡ (c, ok tt))
        × Streams (iterator (seq_scan fuel)) c out final
  unfolding open_iter open_table
  opened fuel j was (Pages.last m) h k = absurd (omega arith)
  opened fuel j was (Pages.page {p} {p'} {rs = rs} m r h) l k =
      let (final, f) = Pages-Fetches fuel rs h (omega arith) in
      (
        fresh (scanning p' 1 (some rs)),
        fresh final,
        ap (λ m. (fresh m.0, m.1)) (load-page p 0 was m r),
        Fetches-Streams f,
      )

-- A scan of a table with at least one page: it opens, and then streams the records of all pages, in the
-- order of the pages, with fuel for their number.
pub seq_scan-Streams :
    (fuel : ℕ) (it : TableIterator) {e : BufferPool} {n : ℕ} {out : List Record}
    → Pages it.table_id it.bufferpool 0 n out e
    → 0 < n
    → n < fuel
    → (c : Iter TableIterator) × (final : Iter TableIterator) × (open_iter
          (seq_scan fuel)
          (fresh it)
        ≡ (c, ok tt))
      × Streams (iterator (seq_scan fuel)) c out final
seq_scan-Streams fuel it h k l = opened it.table_id it.table_name fuel it.next_page it.records h k l

-- With no page the scan does not open.
pub open_iter-no_page :
    {e : BufferPool} (fuel : ℕ) (it : TableIterator)
    → get_page (record { table_id = it.table_id; page_no = 0 }) it.bufferpool
      ≡ (e, err out_of_range)
    → (open_iter (seq_scan fuel) (fresh it)).1 ≡ err out_of_range
unfolding open_iter open_table load_next_page
open_iter-no_page fuel it h = rw h refl
