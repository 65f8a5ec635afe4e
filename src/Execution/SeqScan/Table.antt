-- ===== src/Execution/SeqScan/Table.antt =====
-- A scan of a table gives the latest records of all its pages (komfydb/execution/seq_scan.cc,
-- komfydb/storage/table_iterator.cc, buffer_pool.cc).
use mathlib.Core.Path.{subst}
use komfy_db.Base.{ℕ, zero, suc, ◌+◌, ◌*◌, ◌≤◌, ◌<◌, ◌≡◌, refl, ◌∙◌, List, [], ◌++◌, some, arith}
use komfy_db.Base.Status.{StatusOr, ok, ◌>>=◌, >>=-eq-ok, ok-injective}
use komfy_db.Storage.BufferPool.{BufferPool}
use komfy_db.Storage.BufferPool.Sound.{IsSound}
use komfy_db.Storage.BufferPool.Coherent.{file_of, view, IsCoherent, view-ok}
use komfy_db.Storage.BufferPool.Latest.{get_page_latest}
use komfy_db.Storage.BufferPool.Beyond.{get_page_beyond}
use komfy_db.Storage.HeapFile.{HeapFile}
use komfy_db.Storage.HeapPage.{page_size}
use komfy_db.Storage.Ids.{PageId, Record}
use komfy_db.Storage.TableIterator.{TableIterator}
use komfy_db.Execution.Iterator.{Iter, fresh, iterator, open_iter}
use komfy_db.Execution.Iterator.Streams.{Streams}
use komfy_db.Execution.SeqScan.{seq_scan}
use komfy_db.Execution.SeqScan.Streaming.{Pages, seq_scan-Streams}

abbrev page_id : ℕ → ℕ → PageId
page_id t j = record { table_id = t; page_no = j }

-- The records of `left` pages of a table from page `j`, page by page.
unfoldable pub listed : (PageId → StatusOr (List Record)) → (t left j : ℕ) → StatusOr (List Record)
listed v t zero j = ok []
listed v t (suc left) j = do rs ← v (page_id t j); rest ← listed v t left (suc j); ok (rs ++ rest)

listed-cong :
    (v v' : PageId → StatusOr (List Record)) (t left j : ℕ)
    → ((i : ℕ) → i < j + left → v' (page_id t i) ≡ v (page_id t i))
    → listed v' t left j ≡ listed v t left j
unfolding listed
listed-cong v v' t zero j h = refl
listed-cong v v' t (suc left) j h =
    rw (h j (omega arith), listed-cong v v' t left (suc j) (λ i k. h i (omega arith)))

-- the pages of a table, as a scan reads them
coherent-Pages :
    (max : ℕ) (p : BufferPool) (t left j : ℕ) (f : HeapFile) {out : List Record}
    → max ≤ 128
    → IsSound p
    → IsCoherent max p
    → 0 < p.pages_cnt
    → file_of p t ≡ some f
    → f.file_length ≡ page_size * (j + left)
    → listed (view p) t left j ≡ ok out
    → (e : BufferPool) × Pages t p j left out e
unfolding listed
coherent-Pages max p t zero j f small s c h ff len l =
    let (e, run) = get_page_beyond max p (page_id t j) f small s c h ff (omega arith) in
    (e, subst (λ out. Pages t p j 0 out e) (ok-injective l) (Pages.last run))
coherent-Pages max p t (suc left) j f small s c h ff len l =
    let (rs, one, l1) = >>=-eq-ok (view p (page_id t j)) _ l in
    let (rest, more, l2) = >>=-eq-ok (listed (view p) t left (suc j)) _ l1 in
    let (p', page, run, shows, k) =
      get_page_latest max p (page_id t j) f small s c h (ff, omega arith) in
    let (f', ff', len') = k.same_files t f ff in
    let same : listed (view p') t left (suc j) ≡ listed (view p) t left (suc j) =
      listed-cong (view p) (view p') t left (suc j)
        (λ i b. k.shows (page_id t i) f (ff, omega arith)) in
    let (e, pages) =
      coherent-Pages max p' t left (suc j) f' small k.sound k.coherent (omega (arith, k.same_cnt))
        ff' (omega (arith, len')) (same ∙ more) in
    (
      e,
      subst (λ out. Pages t p j (suc left) out e) (ok-injective l2)
          (Pages.page run (shows ∙ one) pages),
    )

listed_ok :
    (max : ℕ) (p : BufferPool) (t left j : ℕ) (f : HeapFile)
    → IsCoherent max p
    → file_of p t ≡ some f
    → page_size * (j + left) ≤ f.file_length
    → (out : List Record) × (listed (view p) t left j ≡ ok out)
unfolding listed
listed_ok max p t zero j f c ff h = ([], refl)
listed_ok max p t (suc left) j f c ff h =
    let (rs, one) = view-ok max p (page_id t j) f c (ff, omega arith) in
    let (rest, more) = listed_ok max p t left (suc j) f c ff (omega arith) in
    (rs ++ rest, rw (one, more) refl)

-- A scan of a table of `n` pages, at least one, through a sound and coherent pool with room for a
-- page: the pages have their latest records, from the pool or the file; the scan opens, and with fuel
-- for the pages it streams these records in the order of the pages.
pub seq_scan_table :
    (max fuel n : ℕ) (it : TableIterator) (f : HeapFile)
    → max ≤ 128
    → IsSound it.bufferpool
    → IsCoherent max it.bufferpool
    → 0 < it.bufferpool.pages_cnt
    → file_of it.bufferpool it.table_id ≡ some f
    → f.file_length ≡ page_size * n
    → 0 < n
    → n < fuel
    → (out : List Record) × (c : Iter TableIterator) × (final : Iter TableIterator) × (listed
          (view it.bufferpool)
          it.table_id
          n
          0
        ≡ ok out)
      × (open_iter (seq_scan fuel) (fresh it) ≡ (c, ok tt))
      × Streams (iterator (seq_scan fuel)) c out final
seq_scan_table max fuel n it f small s c h ff len some_page enough =
    let (out, l) = listed_ok max it.bufferpool it.table_id n 0 f c ff (omega (arith, len)) in
    let (e, pages) =
      coherent-Pages max it.bufferpool it.table_id n 0 f small s c h ff (omega (arith, len)) l in
    let (c', final, opens, streams) = seq_scan-Streams fuel it pages some_page enough in
    (out, c', final, l, opens, streams)
