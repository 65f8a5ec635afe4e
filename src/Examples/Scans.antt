-- ===== src/Examples/Scans.antt =====
-- Examples for the buffer pool as a cache, and for scans of tables.
use mathlib.Core.Path.{subst}
use komfy_db.Base.{
  slice, codes, ◌≤◌, ◌*◌, ℕ, zero, suc, ◌+◌, ◌<◌, ◌≡◌, refl, ap, sym, ◌∙◌, inl, inr, true, List, [],
  ◌∷◌, Option, none, some, if◌then◌else◌, Bool-cases, ==_iff, ◌==◌, length, length-replicate,
  replicate, arith,
}
use komfy_db.Base.Maps.{lookup, insert}
use komfy_db.Base.Status.{StatusOr, ok, err, out_of_range}
use komfy_db.Storage.BufferPool.{BufferPool, get_page}
use komfy_db.Storage.BufferPool.Lru.{count_none}
use komfy_db.Storage.BufferPool.Sound.{IsSound}
use komfy_db.Storage.BufferPool.Kept.{get_page-IsSound}
use komfy_db.Storage.BufferPool.Coherent.{file_of, view, IsFile, OnDisk, IsCoherent, Keeps}
use komfy_db.Storage.BufferPool.Latest.{get_page_latest}
use komfy_db.Storage.BufferPool.Beyond.{get_page_beyond}
use komfy_db.Storage.Catalog.{add_table}
use komfy_db.Storage.HeapFile.{HeapFile}
use komfy_db.Storage.HeapPage.{HeapPage, get_records, page_size, create}
use komfy_db.Storage.HeapPage.Empty.{empty_page, create-zeros}
use komfy_db.Storage.Ids.{PageId, Record}
use komfy_db.Storage.TableIterator.{TableIterator}
use komfy_db.Execution.Iterator.{Iter, fresh, iterator, open_iter}
use komfy_db.Execution.Iterator.Streams.{Streams}
use komfy_db.Execution.SeqScan.{seq_scan}
use komfy_db.Execution.SeqScan.Table.{listed, seq_scan_table}
use komfy_db.Examples.{people, first_page}
use komfy_db.Examples.Pools.{pool, pool_after, people_file, people_name, no_tables, first_got}

slice-replicate : (at n m : ℕ) → at + n ≤ m → slice at n (replicate {A = ℕ} m 0) ≡ replicate n 0
slice-replicate zero zero m h = refl
slice-replicate zero (suc n) zero h = absurd (omega arith)
slice-replicate zero (suc n) (suc m) h = ap (λ xs. 0 ∷ xs) (slice-replicate zero n m (omega arith))
slice-replicate (suc at) n zero h = absurd-or n (omega arith)
  where
    absurd-or :
        (n : ℕ) → suc (at + n) ≤ 0 → slice (suc at) n (replicate {A = ℕ} zero 0) ≡ replicate n 0
    absurd-or n h = absurd (omega arith)
slice-replicate (suc at) n (suc m) h = slice-replicate at n m (omega arith)

-- a file of zeros, of `m` bytes, and a pool that has read nothing of it
module _ (f : HeapFile) (m : ℕ) (zeros : f.file.contents ≡ replicate m 0) (len : f.file_length ≡ m)
    (own : f.table_id ≡ 7) (good : f.file.good ≡ true) (writable : f.file.writable ≡ true)
    (aligned : (n : ℕ) → page_size * n < m → page_size * n + page_size ≤ m) where
  abbrev new_pool : BufferPool
  new_pool = record {
    pages_cnt = 1;
    catalog = add_table f people_name (codes "id") no_tables;
    page_pool = [];
    lru = [];
  }

  new_pool-IsSound : IsSound new_pool
  new_pool-IsSound = record {
    nodes = λ x. refl;
    once = λ x. omega (arith, count_none x);
    room = omega arith;
  }

  only_table : (t : ℕ) → file_of new_pool t ≡ (if f.table_id == t then some f else none)
  unfolding add_table insert lookup
  only_table t = refl

  found_table : (t : ℕ) → t ≡ 7 → file_of new_pool t ≡ some f
  found_table t e =
      only_table t ∙ ap (λ b. if b then some f else none) ((==_iff f.table_id t).1 (own ∙ sym e))

  only_file : (t : ℕ) (g : HeapFile) → file_of new_pool t ≡ some g → (t ≡ 7) × (f ≡ g)
  only_file t g h = elim (Bool-cases (f.table_id == t)) [
    | inl e ↦
        let here = sym ((==_iff f.table_id t).0 e) ∙ own in
        let same : some f ≡ some g = sym (found_table t here) ∙ h in (here, cc)
    | inr e ↦
        let clash : ◌≡◌ {A = Option HeapFile} none (some g) =
          sym (only_table t ∙ ap (λ b. if b then some f else none) e) ∙ h in
        cc
  ]

  page-OnDisk :
      (max : ℕ) (pid : PageId)
      → page_size * pid.page_no < m
      → (rs : StatusOr (List Record)) × OnDisk max f pid rs
  page-OnDisk max pid inside =
      let (p, made, valid, _, _) = create-zeros max pid f.tuple_desc in
      (
        get_records p,
        record {
          covers =
              omega
                (arith, aligned pid.page_no inside, ap length zeros, length-replicate {A = ℕ} m 0);
          page = p;
          made =
              ap (λ c. create pid f.tuple_desc (slice (page_size * pid.page_no) page_size c)) zeros
              ∙ ap (create pid f.tuple_desc) (
                  slice-replicate (page_size * pid.page_no) page_size m
                    (aligned pid.page_no inside))
              ∙ made;
          valid = valid;
          shows = refl;
        },
      )

  new_pool-IsCoherent : IsCoherent 127 new_pool
  unfolding lookup
  new_pool-IsCoherent = record {
    files = λ t g h.
        let (here, same) = only_file t g h in
        subst (IsFile 127 t) same (record {
          own = own ∙ sym here;
          good = good;
          writable = writable;
          slack = inl (omega arith);
        });
    held = λ pid page h. let clash : ◌≡◌ {A = Option HeapPage} none (some page) = h in cc;
    stored = λ pid g inside absent.
        let (here, same) = only_file pid.table_id g inside.0 in
        let (rs, d) =
          page-OnDisk 127 pid
            (omega (arith, inside.1, ap (λ (k : HeapFile). k.file_length) same, len)) in
        (rs, subst (λ k. OnDisk 127 k pid rs) same d);
  }

people_aligned : (n : ℕ) → page_size * n < 4096 → page_size * n + page_size ≤ 4096
people_aligned n h = omega arith

pool-IsSound : IsSound pool
pool-IsSound = new_pool-IsSound people_file 4096 refl refl refl refl refl people_aligned

pool-IsCoherent : IsCoherent 127 pool
pool-IsCoherent = new_pool-IsCoherent people_file 4096 refl refl refl refl refl people_aligned

people_found : file_of pool 7 ≡ some people_file
people_found = found_table people_file 4096 refl refl refl refl refl people_aligned 7 refl

get_page-IsSound_example : IsSound pool_after
get_page-IsSound_example =
    get_page-IsSound first_page (empty_page first_page people) pool pool_after pool-IsSound
      (omega arith) first_got

get_page_latest_example :
    (p' : BufferPool) × (page : HeapPage) × (get_page first_page pool ≡ (p', ok page))
    × (get_records page ≡ view pool first_page)
    × Keeps 127 pool p'
get_page_latest_example =
    get_page_latest 127 pool first_page people_file (omega arith) pool-IsSound pool-IsCoherent
      (omega arith) (people_found, omega arith)

abbrev second_page : PageId
second_page = record { table_id = 7; page_no = 1 }

get_page_beyond_example : (p' : BufferPool) × (get_page second_page pool ≡ (p', err out_of_range))
get_page_beyond_example =
    get_page_beyond 127 pool second_page people_file (omega arith) pool-IsSound pool-IsCoherent
      (omega arith) people_found (omega arith)

abbrev people_scan : TableIterator
people_scan = record {
  bufferpool = pool;
  table_id = 7;
  table_name = people_name;
  next_page = 0;
  records = none;
}

seq_scan_table_example :
    (out : List Record) × (c : Iter TableIterator) × (final : Iter TableIterator) × (listed
        (view pool)
        7
        1
        0
      ≡ ok out)
    × (open_iter (seq_scan 2) (fresh people_scan) ≡ (c, ok tt))
    × Streams (iterator (seq_scan 2)) c out final
seq_scan_table_example =
    seq_scan_table 127 2 1 people_scan people_file (omega arith) pool-IsSound pool-IsCoherent
      (omega arith) people_found refl (omega arith) (omega arith)
