-- ===== src/Storage/BufferPool/Room.antt =====
-- Making room in the pool: `EvictPage` succeeds and loses no record (komfydb/storage/buffer_pool.cc).
use mathlib.Core.Path.{subst}
use komfy_db.Base.{
  ℕ, ◌≤◌, ◌<◌, ◌≡◌, ◌⊎◌, refl, ap, sym, ◌∙◌, inl, inr, false, List, [], ◌∷◌, some, if◌then◌else◌,
  length, arith, ◌==◌, ==_iff, Bool-cases,
}
use komfy_db.Base.Maps.{lookup, erase, lookup-insert}
use komfy_db.Base.State.{after, ◌>>◌}
use komfy_db.Base.Status.{StatusOr, ok, or_err, invalid_argument}
use komfy_db.Storage.Catalog.{get_database_file}
use komfy_db.Storage.HeapFile.{HeapFile, page_pos, write_page}
use komfy_db.Storage.HeapFile.Disk.{write_page-IsWritten}
use komfy_db.Storage.HeapPage.{HeapPage, get_records}
use komfy_db.Storage.HeapPage.RoundTrip.{HasSlack}
use komfy_db.Storage.Ids.{PageId, page_eq}
use komfy_db.Storage.BufferPool.{
  BufferPool, with_file, on_file, write_back, flush_found, flush_page, forget, evict_from,
  split_last, evict_page, make_room,
}
use komfy_db.Storage.BufferPool.Lru.{count, keys, lookup-erase, lookup-of_count}
use komfy_db.Storage.BufferPool.Sound.{IsSound, AreSound, AreSound-evict}
use komfy_db.Storage.BufferPool.Kept.{HasRoom, make_room-HasRoom, no_page}
use komfy_db.Storage.BufferPool.Coherent.{file_of, IsFile, OnDisk, IsHeld, IsCoherent, Keeps}
use komfy_db.Storage.BufferPool.Eviction.{
  Follows, Follows-refl, IsEvicted, IsWritten-Follows, IsWritten-OnDisk, evicted-Keeps,
}

-- the file of a table, once found
pub same_file :
    (p : BufferPool) (t : ℕ) (f g : HeapFile) → file_of p t ≡ some f → file_of p t ≡ some g → f ≡ g
same_file p t f g h k = let e : some f ≡ some g = sym h ∙ k in cc

-- `FlushPage` of a dirty page
write_back-ok :
    (pid : PageId) (page : HeapPage) (p : BufferPool) (f f' : HeapFile)
    → file_of p pid.table_id ≡ some f
    → write_page f page ≡ (f', ok tt)
    → write_back pid page p ≡ (with_file p f', ok tt)
unfolding get_database_file on_file
write_back-ok pid page p f f' h w =
    ap (λ o. after (λ file. on_file file (λ g. write_page g page)) p (or_err o invalid_argument)) h
    ∙ ap (λ (r : HeapFile × StatusOr (Unit {0})). (with_file p r.0, r.1)) w

-- a file of the catalog is replaced
pub file_of-with_file :
    (p : BufferPool) (f : HeapFile) (t : ℕ)
    → file_of (with_file p f) t ≡ (if f.table_id == t then some f else file_of p t)
file_of-with_file p f t = lookup-insert ◌==◌ ==_iff f.table_id t f p.catalog.db_files

pub file_of-here :
    (p : BufferPool) (f : HeapFile) (t : ℕ) → f.table_id ≡ t → file_of (with_file p f) t ≡ some f
file_of-here p f t e =
    file_of-with_file p f t
    ∙ ap (λ b. if b then some f else file_of p t) ((==_iff f.table_id t).1 e)

pub file_of-elsewhere :
    (p : BufferPool) (f : HeapFile) (t : ℕ)
    → (f.table_id == t) ≡ false
    → file_of (with_file p f) t ≡ file_of p t
file_of-elsewhere p f t e = file_of-with_file p f t ∙ ap (λ b. if b then some f else file_of p t) e

module _ (max : ℕ) (p : BufferPool) (pid : PageId) (page : HeapPage) (lru : List PageId)
    (found : lookup page_eq pid p.page_pool ≡ some page) (once : count pid (keys p.page_pool) ≤ 1)
    (f : HeapFile) (ff : file_of p pid.table_id ≡ some f) where
  abbrev without : BufferPool → BufferPool
  without q = record q { page_pool = erase page_eq pid q.page_pool }

  clean-IsEvicted :
      OnDisk max f pid (get_records page)
      → IsEvicted max p (without (record p { lru = lru })) pid page
  clean-IsEvicted d = record {
    pool = lookup-erase pid p.page_pool once;
    found = found;
    forth = λ t g h. (g, h, Follows-refl max pid t g);
    back = λ t g h. (g, h, Follows-refl max pid t g);
    there = λ g h.
        subst (λ k. OnDisk max k pid (get_records page)) (same_file p pid.table_id f g ff h) d;
  }

  dirty-IsEvicted :
      (f' : HeapFile)
      → f'.table_id ≡ pid.table_id
      → Follows max pid pid.table_id f f'
      → OnDisk max f' pid (get_records page)
      → IsEvicted max p (without (with_file (record p { lru = lru }) f')) pid page
  dirty-IsEvicted f' own w d = record {
    pool = lookup-erase pid p.page_pool once;
    found = found;
    forth = λ t g h. elim (Bool-cases (f'.table_id == t)) [
      | inl e ↦
          let here = (==_iff f'.table_id t).0 e in
          (f', file_of-here p f' t here, follows t g here h)
      | inr e ↦ (g, file_of-elsewhere p f' t e ∙ h, Follows-refl max pid t g)
    ];
    back = λ t g h. elim (Bool-cases (f'.table_id == t)) [
      | inl e ↦
          let here = (==_iff f'.table_id t).0 e in
          let was = ap (file_of p) (sym (sym own ∙ here)) ∙ ff in
          (
            f,
            was,
            subst (Follows max pid t f)
                (same_file (with_file p f') t f' g (file_of-here p f' t here) h)
                (follows t f here was),
          )
      | inr e ↦ (g, sym (file_of-elsewhere p f' t e) ∙ h, Follows-refl max pid t g)
    ];
    there = λ g h.
        subst (λ k. OnDisk max k pid (get_records page))
          (same_file (with_file p f') pid.table_id f' g (file_of-here p f' pid.table_id own) h) d;
  }
    where
      follows :
          (t : ℕ) (g : HeapFile) → f'.table_id ≡ t → file_of p t ≡ some g → Follows max pid t g f'
      follows t g here h =
          let at_t : Follows max pid t f f' =
            subst (λ u. Follows max pid u f f') (sym own ∙ here) w in
          subst (λ k. Follows max pid t k f')
            (same_file p t f g (ap (file_of p) (sym (sym own ∙ here)) ∙ ff) h) at_t

  -- `EvictPage`, once the page is known
  evict_one :
      max ≤ 128
      → IsFile max pid.table_id f
      → IsHeld max f pid page
      → (p' : BufferPool) × ((flush_page pid >> forget pid) (record p { lru = lru }) ≡ (p', ok tt))
        × IsEvicted max p p' pid page
  unfolding flush_page
  evict_one small file held = elim (Bool-cases page.is_dirty) [
    | inl dirty ↦
        let (f', wrote, w) =
          write_page-IsWritten max f page file.good file.writable
            (ap (λ (x : PageId). x.table_id) held.own ∙ sym file.own)
            (subst (λ x. page_pos x < f.file_length) (sym held.own) held.inside) held.desc
            held.valid small (subst (λ td. (max < 128) ⊎ HasSlack td) (sym held.desc) file.slack) in
        (
          without (with_file q f'),
          run (with_file q f') (
              ap (flush_found pid q) found
              ∙ ap (λ b. if b then write_back pid page q else (q, ok tt)) dirty
              ∙ write_back-ok pid page q f f' ff wrote),
          dirty-IsEvicted f' (w.own ∙ file.own) (IsWritten-Follows max f f' pid page held.own w)
              (IsWritten-OnDisk max f f' pid page held w),
        )
    | inr clean ↦ (
      without q,
      run q (
          ap (flush_found pid q) found
          ∙ ap (λ b. if b then write_back pid page q else (q, ok tt)) clean),
      clean-IsEvicted (held.clean clean),
    )
  ]
    where
      q : BufferPool
      q = record p { lru = lru }

      run :
          (u : BufferPool)
          → flush_page pid q ≡ (u, ok tt)
          → (flush_page pid >> forget pid) q ≡ (without u, ok tt)
      run u e = ap (λ m. after (λ _. forget pid) m.0 m.1) e

-- `EvictPage` on a pool with a page.
evict_page-IsEvicted :
    (max : ℕ) (p : BufferPool)
    → max ≤ 128
    → IsSound p
    → IsCoherent max p
    → 0 < length p.page_pool
    → (p' : BufferPool) × (evict_page p ≡ (p', ok tt))
      × (pid : PageId) × (page : HeapPage) × IsEvicted max p p' pid page
unfolding evict_page
evict_page-IsEvicted max p small s c h = go p.lru s
  where
    go :
        (lru : List PageId)
        → AreSound p.pages_cnt lru p.page_pool
        → (p' : BufferPool) × (evict_from lru p ≡ (p', ok tt))
          × (pid : PageId) × (page : HeapPage) × IsEvicted max p p' pid page
    go [] s = absurd (omega (arith, no_page p.page_pool s.nodes))
    go (x ∷ xs) s =
        let (front, evict) = split_last x xs in
        let (there, _, _) = AreSound-evict p.pages_cnt x xs p.page_pool s in
        let (page, found) = lookup-of_count evict p.page_pool there in
        let (f, ff, held) = c.held evict page found in
        let (p', run, v) =
          evict_one max p evict page front found (s.once evict) f ff small
            (c.files evict.table_id f ff) held in
        (p', run, evict, page, v)

Keeps-refl : (max : ℕ) (p : BufferPool) → IsSound p → IsCoherent max p → Keeps max p p
Keeps-refl max p s c = record {
  sound = s;
  same_cnt = refl;
  coherent = c;
  same_files = λ t f h. (f, h, refl);
  shows = λ pid f h. refl;
}

-- Making room succeeds, and every page keeps its records.
pub make_room-Keeps :
    (max : ℕ) (p : BufferPool)
    → max ≤ 128
    → IsSound p
    → IsCoherent max p
    → 0 < p.pages_cnt
    → (p' : BufferPool) × (make_room p ≡ (p', ok tt)) × Keeps max p p' × HasRoom p p'
make_room-Keeps max p small s c h = elim (Bool-cases (length p.page_pool == p.pages_cnt)) [
  | inl full ↦
      let (p', run, pid, page, v) =
        evict_page-IsEvicted max p small s c
          (omega (arith, (==_iff (length p.page_pool) p.pages_cnt).0 full)) in
      let made : make_room p ≡ (p', ok tt) =
        ap (λ b. if b then evict_page p else (p, ok tt)) full ∙ run in
      let r = make_room-HasRoom p p' s h made in
      (p', made, evicted-Keeps max p p' pid page v c r.sound r.same_cnt, r)
  | inr free ↦
      let made : make_room p ≡ (p, ok tt) = ap (λ b. if b then evict_page p else (p, ok tt)) free in
      (p, made, Keeps-refl max p s c, make_room-HasRoom p p s h made)
]
