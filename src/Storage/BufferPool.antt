-- ===== src/Storage/BufferPool.antt =====
-- The buffer pool: komfydb/storage/buffer_pool.h and buffer_pool.cc. A page is named by its number
-- wherever the code holds a pointer into the pool. `pid_to_lru` finds the node of a page in `lru`,
-- which here is its first place there; an iterator whose node is gone is a fault.
pub mod Repeat
pub mod Lru
pub mod Sound
pub mod Kept
pub mod Coherent
pub mod Eviction
pub mod Room
pub mod Latest
pub mod Beyond
use komfy_db.Base.{
  ℕ, zero, suc, ◌+◌, ◌-◌, min, Bool, true, false, not, ◌&&◌, ◌||◌, ◌==◌, List, [], ◌∷◌, length,
  drop, Option, none, some, if◌then◌else◌,
}
use komfy_db.Base.Maps.{lookup, insert, erase}
use komfy_db.Base.State.{State, ◌>>=◌, ◌>>◌, return, lift}
use komfy_db.Base.Status.{StatusOr, Status, ok, err, fault, no_fuel, or_fault}
use komfy_db.Common.Tuple.{Tuple}
use komfy_db.Storage.Catalog.{Catalog, get_database_file}
use komfy_db.Storage.HeapFile.{HeapFile, read_page, write_page, create_page, page_count}
use komfy_db.Storage.HeapPage.{HeapPage, set_dirty, add_tuples, remove_record, no_tid}
use komfy_db.Storage.Ids.{PageId, RecordId, page_eq}

pub record BufferPool : Type 0 where
  pub pages_cnt : ℕ
  pub catalog : Catalog
  pub page_pool : List (PageId × HeapPage)
  pub lru : List PageId

-- a file of the catalog after one of its operations
abbrev with_file : BufferPool → HeapFile → BufferPool
with_file p f = record p {
  catalog = record p.catalog { db_files = insert ◌==◌ f.table_id f p.catalog.db_files };
}

-- an operation of a file of the catalog
unfoldable pub on_file :
    {A : Type 0} → HeapFile → (HeapFile → HeapFile × StatusOr A) → State BufferPool A
on_file f op p = let (f', r) = op f in (with_file p f', r)

-- a page of the pool after one of its operations
abbrev pub with_page : PageId → HeapPage → BufferPool → BufferPool
with_page pid page p = record p { page_pool = insert page_eq pid page p.page_pool }

abbrev pub database_file : ℕ → State BufferPool HeapFile
database_file table_id p = (p, get_database_file p.catalog table_id)

-- `FlushPage`, by the page of the pool; one that is not there would be a null pointer.
abbrev pub write_back : PageId → HeapPage → State BufferPool (Unit {0})
write_back pid page = database_file pid.table_id >>= λ file. on_file file (λ f. write_page f page)

abbrev pub flush_found : PageId → BufferPool → Option HeapPage → BufferPool × StatusOr (Unit {0})
flush_found pid p none = (p, fault)
flush_found pid p (some page) =
    let written = write_back pid page p in if page.is_dirty then written else (p, ok tt)

unfoldable pub flush_page : PageId → State BufferPool (Unit {0})
unfolding on_file
flush_page pid p = flush_found pid p (lookup page_eq pid p.page_pool)

-- The last of a list that begins with `x`, and those before it.
abbrev pub split_last : PageId → List PageId → List PageId × PageId
split_last x [] = ([], x)
split_last x (y ∷ ys) = let (front, last) = split_last y ys in (x ∷ front, last)

abbrev pub forget : PageId → State BufferPool (Unit {0})
forget pid p = (record p { page_pool = erase page_eq pid p.page_pool }, ok tt)

abbrev pub evict_from : List PageId → State BufferPool (Unit {0})
evict_from [] p = (p, ok tt)
evict_from (x ∷ xs) p =
    let (front, evict) = split_last x xs in
    (flush_page evict >> forget evict) (record p { lru = front })

-- `EvictPage`
unfoldable pub evict_page : State BufferPool (Unit {0})
unfolding flush_page
evict_page p = evict_from p.lru p

abbrev pub make_room : State BufferPool (Unit {0})
make_room p =
    let evicted = evict_page p in if length p.page_pool == p.pages_cnt then evicted else (p, ok tt)

-- The end of a miss: the page is put into the pool, in front of `lru`.
abbrev pub admit : PageId → HeapPage → State BufferPool HeapPage
admit pid page p = (record (with_page pid page p) { lru = pid ∷ p.lru }, ok page)

-- `lru.erase(it)`, for the node of `pid`
unfoldable pub erase_node : PageId → List PageId → Option (List PageId)
erase_node pid [] = none
erase_node pid (x ∷ xs) =
    let rest = erase_node pid xs in
    if page_eq x pid then some xs else elim rest [ none ↦ none | some ys ↦ some (x ∷ ys) ]

-- A hit: the page moves to the front of `lru`.
abbrev pub touched :
    PageId → HeapPage → BufferPool → Option (List PageId) → BufferPool × StatusOr HeapPage
touched pid page p none = (p, fault)
touched pid page p (some rest) = (record p { lru = pid ∷ rest }, ok page)

abbrev pub read_in : PageId → HeapFile → State BufferPool HeapPage
read_in pid file = on_file file (λ f. read_page f pid) >>= admit pid

abbrev pub miss : PageId → State BufferPool HeapPage
miss pid = make_room >> (database_file pid.table_id >>= read_in pid)

-- The two branches of `GetPage`.
abbrev pub get_found : PageId → BufferPool → Option HeapPage → BufferPool × StatusOr HeapPage
get_found pid p none = miss pid p
get_found pid p (some page) = touched pid page p (erase_node pid p.lru)

-- `GetPage`; the permission is not looked at.
unfoldable pub get_page : PageId → State BufferPool HeapPage
get_page pid p = get_found pid p (lookup page_eq pid p.page_pool)

-- The loop of `FlushPages`, over the pages that were in the pool.
unfoldable pub flush_all : ℕ → List (PageId × HeapPage) → State BufferPool (Unit {0})
unfolding flush_page
flush_all tid [] = return tt
flush_all tid ((pid, page) ∷ pages) =
    let rest = flush_all tid pages in
    if (tid == no_tid) || (page.last_transaction == tid)
    then (flush_page page.pid >> rest)
    else rest

unfoldable pub flush_pages : ℕ → State BufferPool (Unit {0})
unfolding flush_all
flush_pages tid p = flush_all tid p.page_pool p

-- `InsertPage`
unfoldable pub insert_page : HeapPage → State BufferPool (Unit {0})
unfolding evict_page
insert_page page =
    make_room >> λ p. (record (with_page page.pid page p) { lru = page.pid ∷ p.lru }, ok tt)

-- what `AddTuples` and `SetDirty` make of a page; a page that refuses is not marked
abbrev filled : ℕ → HeapPage × Status → HeapPage × Status
filled tid (page, ok _) = (set_dirty page true tid, ok tt)
filled tid (page, other) = (page, other)

unfoldable pub fill_page : ℕ → List Tuple → ℕ → HeapPage → HeapPage × Status
fill_page tid tuples to_add page = filled tid (add_tuples tuples to_add page)

-- the same for the page `pid` of the pool
unfoldable pub fill_in_pool : ℕ → List Tuple → ℕ → HeapPage → PageId → State BufferPool (Unit {0})
unfolding fill_page
fill_in_pool tid tuples to_add page pid p =
    let (page', r) = fill_page tid tuples to_add page in (with_page pid page' p, r)

-- The loop over the pages that exist, `left` of them from `page_no`: the tuples that are left over.
unfoldable pub fill_pages :
    ℕ → (table_id left page_no : ℕ) → List Tuple → State BufferPool (List Tuple)
unfolding get_page fill_in_pool
fill_pages tid table_id zero page_no tuples = return tuples
fill_pages tid table_id (suc left) page_no [] = return []
fill_pages tid table_id (suc left) page_no (t ∷ ts) = do
  page ← get_page (record { table_id = table_id; page_no = page_no })
  let to_add = min (length (t ∷ ts)) page.free_space
  fill_in_pool tid (t ∷ ts) to_add page (record { table_id = table_id; page_no = page_no })
  fill_pages tid table_id left (suc page_no) (drop to_add (t ∷ ts))

-- The loop that makes new pages, `fuel` of them at most. A tuple that fits no page makes the source
-- go on for ever.
unfoldable pub new_pages : ℕ → (table_id fuel : ℕ) → List Tuple → State BufferPool (Unit {0})
unfolding insert_page fill_page on_file
new_pages tid table_id fuel [] = return tt
new_pages tid table_id zero (t ∷ ts) = lift no_fuel
new_pages tid table_id (suc fuel) (t ∷ ts) = do
  file ← database_file table_id
  page ← on_file file create_page
  let to_add = min (length (t ∷ ts)) page.free_space
  let (page', r) = fill_page tid (t ∷ ts) to_add page
  lift r
  insert_page page'
  new_pages tid table_id fuel (drop to_add (t ∷ ts))

-- `InsertTuples`
unfoldable pub insert_tuples : (fuel tid table_id : ℕ) → List Tuple → State BufferPool (Unit {0})
unfolding fill_pages new_pages
insert_tuples fuel tid table_id tuples = do
  file ← database_file table_id
  rest ← fill_pages tid table_id (page_count file) 0 tuples
  new_pages tid table_id fuel rest

-- One round of the loop of `RemoveTuples`: the page is fetched unless it is the one at hand.
abbrev at_hand : Option PageId → PageId → Bool
at_hand none pid = false
at_hand (some pid') pid = page_eq pid' pid

abbrev page_in_pool : PageId → State BufferPool HeapPage
page_in_pool pid p = (p, or_fault (lookup page_eq pid p.page_pool))

abbrev removed : ℕ → PageId → StatusOr HeapPage → State BufferPool (Unit {0})
removed tid pid (ok page) p = (with_page pid (set_dirty page true tid) p, ok tt)
removed tid pid (err c) p = (p, err c)
removed tid pid fault p = (p, fault)
removed tid pid no_fuel p = (p, no_fuel)

unfoldable pub remove_all : ℕ → Option PageId → List RecordId → State BufferPool (Unit {0})
unfolding get_page
remove_all tid held [] = return tt
remove_all tid held (rid ∷ ids) = do
  page ← (if at_hand held rid.pid then page_in_pool rid.pid else get_page rid.pid)
  removed tid rid.pid (remove_record page rid)
  remove_all tid (some rid.pid) ids

-- `RemoveTuples`
unfoldable pub remove_tuples : (tid table_id : ℕ) → List RecordId → State BufferPool (Unit {0})
unfolding remove_all
remove_tuples tid table_id ids = do file ← database_file table_id; remove_all tid none ids
