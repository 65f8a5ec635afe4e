-- ===== src/Storage/BufferPool/Coherent.antt =====
-- What the buffer pool and the files together say about pages (komfydb/storage/buffer_pool.cc,
-- heap_file.cc): the latest version of a page is the one in the pool, else the one in the file.
use komfy_db.Base.{
  ℕ, ◌<◌, ◌≡◌, ◌⊎◌, ap, sym, ◌∙◌, inl, inr, true, false, List, Option, none, some, if◌then◌else◌,
  length, ◌==◌, take, ltb, Option-cases,
}
use komfy_db.Base.Maps.{lookup}
use komfy_db.Base.Status.{
  StatusOr, ok, err, fault, invalid_argument, ◌>>=◌, >>=-eq-ok, ok-injective,
}
use komfy_db.Common.TupleDesc.{TupleDesc}
use komfy_db.Storage.HeapFile.{HeapFile, page_pos}
use komfy_db.Storage.HeapFile.Disk.{disk_page, Covers}
use komfy_db.Storage.HeapPage.{HeapPage, get_records, create, parse_slots, slots_of, header_len_of}
use komfy_db.Storage.HeapPage.Slots.{IsValid, get_records-occupied, slot, occupied}
use komfy_db.Storage.HeapPage.RoundTrip.{HasSlack}
use komfy_db.Storage.Ids.{PageId, Record, page_eq}
use komfy_db.Storage.BufferPool.{BufferPool}
use komfy_db.Storage.BufferPool.Sound.{IsSound}

abbrev pub file_of : BufferPool → ℕ → Option HeapFile
file_of p t = lookup ◌==◌ t p.catalog.db_files

-- The records of a page as the file has them, or as the pool has them.
abbrev pub view_file : PageId → Option HeapFile → StatusOr (List Record)
view_file pid none = err invalid_argument
view_file pid (some f) = disk_page f pid >>= get_records

abbrev pub view_pool : PageId → Option HeapFile → Option HeapPage → StatusOr (List Record)
view_pool pid file none = view_file pid file
view_pool pid file (some page) = get_records page

-- The records of a page.
abbrev pub view : BufferPool → PageId → StatusOr (List Record)
view p pid = view_pool pid (file_of p pid.table_id) (lookup page_eq pid p.page_pool)

-- A page of a table.
abbrev pub IsInside : BufferPool → PageId → HeapFile → Type 0
IsInside p pid f = (file_of p pid.table_id ≡ some f) × (page_pos pid < f.file_length)

-- A file that can be read and written, whose strings have at most `max` bytes.
pub record IsFile (max t : ℕ) (f : HeapFile) : Type 0 where
  pub own : f.table_id ≡ t
  pub good : f.file.good ≡ true
  pub writable : f.file.writable ≡ true
  pub slack : (max < 128) ⊎ HasSlack f.tuple_desc

-- The file has a page with these records.
pub record OnDisk (max : ℕ) (f : HeapFile) (pid : PageId) (rs : StatusOr (List Record))
    : Type 0 where
  pub covers : Covers f pid
  pub page : HeapPage
  pub made : disk_page f pid ≡ ok page
  pub valid : IsValid max page
  pub shows : get_records page ≡ rs

-- A page of the pool: where it is not dirty, the file has the same records.
pub record IsHeld (max : ℕ) (f : HeapFile) (pid : PageId) (page : HeapPage) : Type 0 where
  pub own : page.pid ≡ pid
  pub desc : page.tuple_desc ≡ f.tuple_desc
  pub valid : IsValid max page
  pub inside : page_pos pid < f.file_length
  pub clean : page.is_dirty ≡ false → OnDisk max f pid (get_records page)

-- Every page of the pool is one of its table; every page of a table that is not in the pool is in
-- the file.
pub record IsCoherent (max : ℕ) (p : BufferPool) : Type 0 where
  pub files : (t : ℕ) (f : HeapFile) → file_of p t ≡ some f → IsFile max t f
  pub held :
      (pid : PageId) (page : HeapPage)
      → lookup page_eq pid p.page_pool ≡ some page
      → (f : HeapFile) × (file_of p pid.table_id ≡ some f) × IsHeld max f pid page
  pub stored :
      (pid : PageId) (f : HeapFile)
      → IsInside p pid f
      → lookup page_eq pid p.page_pool ≡ none
      → (rs : StatusOr (List Record)) × OnDisk max f pid rs

-- What a call keeps that changes no page: the pool stays sound and coherent, the tables have the same
-- pages, and each page has the same records.
pub record Keeps (max : ℕ) (p p' : BufferPool) : Type 0 where
  pub sound : IsSound p'
  pub same_cnt : p'.pages_cnt ≡ p.pages_cnt
  pub coherent : IsCoherent max p'
  pub same_files :
      (t : ℕ) (f : HeapFile)
      → file_of p t ≡ some f
      → (f' : HeapFile) × (file_of p' t ≡ some f') × (f'.file_length ≡ f.file_length)
  pub shows : (pid : PageId) (f : HeapFile) → IsInside p pid f → view p' pid ≡ view p pid

-- What `Create` makes of bytes is a clean page with that id and schema.
pub create-frame :
    (pid : PageId) (td : TupleDesc) (all : List ℕ) (page : HeapPage)
    → create pid td all ≡ ok page
    → (page.pid ≡ pid) × (page.tuple_desc ≡ td) × (page.is_dirty ≡ false)
unfolding create
create-frame pid td all page h =
    let (a, g, h1) = >>=-eq-ok (if ltb (length all) (header_len_of td) then fault else ok tt) _ h in
    let (parsed, g', h2) =
      >>=-eq-ok
        (parse_slots pid td (take (header_len_of td) all) all (slots_of td) 0 (header_len_of td)) _
        h1 in
    let made = ok-injective h2 in
    (
      ap (λ (q : HeapPage). q.pid) (sym made),
      ap (λ (q : HeapPage). q.tuple_desc) (sym made),
      ap (λ (q : HeapPage). q.is_dirty) (sym made),
    )

pub view_file-OnDisk :
    (max : ℕ) (f : HeapFile) (pid : PageId) (rs : StatusOr (List Record))
    → OnDisk max f pid rs
    → view_file pid (some f) ≡ rs
view_file-OnDisk max f pid rs d = ap (λ r. r >>= get_records) d.made ∙ d.shows

-- a page that is in the pool, and one that is not
pub view-in_pool :
    (p : BufferPool) (pid : PageId) {page : HeapPage}
    → lookup page_eq pid p.page_pool ≡ some page
    → view p pid ≡ get_records page
view-in_pool p pid h = ap (view_pool pid (file_of p pid.table_id)) h

pub view-OnDisk :
    (max : ℕ) (p : BufferPool) (pid : PageId) (f : HeapFile) (rs : StatusOr (List Record))
    → lookup page_eq pid p.page_pool ≡ none
    → file_of p pid.table_id ≡ some f
    → OnDisk max f pid rs
    → view p pid ≡ rs
view-OnDisk max p pid f rs h g d =
    ap (view_pool pid (file_of p pid.table_id)) h
    ∙ ap (view_file pid) g
    ∙ view_file-OnDisk max f pid rs d

-- Every page of a table has records.
pub view-ok :
    (max : ℕ) (p : BufferPool) (pid : PageId) (f : HeapFile)
    → IsCoherent max p
    → IsInside p pid f
    → (rs : List Record) × (view p pid ≡ ok rs)
view-ok max p pid f c inside = elim (Option-cases (lookup page_eq pid p.page_pool)) [
  | inl absent ↦
      let (rs, d) = c.stored pid f inside absent in
      (
        occupied (slot d.page) d.page.num_slots 0,
        view-OnDisk max p pid f rs absent inside.0 d
            ∙ sym d.shows
            ∙ get_records-occupied d.page d.valid.shaped,
      )
  | inr (page, found) ↦
      let (g, fg, held) = c.held pid page found in
      (
        occupied (slot page) page.num_slots 0,
        view-in_pool p pid found ∙ get_records-occupied page held.valid.shaped,
      )
]
