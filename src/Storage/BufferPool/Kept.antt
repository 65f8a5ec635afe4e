-- ===== src/Storage/BufferPool/Kept.antt =====
-- What the calls of the buffer pool keep of its pages and its LRU list
-- (komfydb/storage/buffer_pool.cc).
use mathlib.Core.Path.{subst}
use komfy_db.Base.{
  ◌<◌, ◌≡◌, refl, ap, sym, ◌∙◌, inl, inr, List, [], ◌∷◌, Option, none, some, if◌then◌else◌, length,
  arith, Bool-cases, ◌==◌, ==_iff,
}
use komfy_db.Base.Maps.{lookup, erase}
use komfy_db.Base.State.{State, after, ◌>>=◌, >>=-eq-ok}
use komfy_db.Base.Status.{StatusOr, ok, err, fault, no_fuel}
use komfy_db.Storage.Catalog.{Catalog, get_database_file}
use komfy_db.Storage.HeapPage.{HeapPage}
use komfy_db.Storage.HeapFile.{HeapFile, write_page, read_page}
use komfy_db.Storage.Ids.{PageId, page_eq}
use komfy_db.Storage.BufferPool.{
  BufferPool, with_file, with_page, get_found, get_page, insert_page, read_in, miss, touched,
  erase_node, database_file, flush_page, flush_found, write_back, forget, evict_from, split_last,
  evict_page, make_room, admit, on_file,
}
use komfy_db.Storage.BufferPool.Lru.{
  count, keys, count_self, erase_node-count, lookup-erase_absent, count_none, count-of_lookup,
}
use komfy_db.Storage.BufferPool.Sound.{
  AreSound, IsSound, AreSound-touch, AreSound-admit, AreSound-evict,
}

-- `FlushPage` changes no more than the files.
on_file-frame :
    (pid : PageId) (page : HeapPage) (p : BufferPool) (r : StatusOr HeapFile)
    → (c : Catalog) × ((after (λ file. on_file file (λ f. write_page f page)) p r).0
        ≡ record p { catalog = c })
unfolding on_file
on_file-frame pid page p (ok f) = (_, refl)
on_file-frame pid page p (err c) = (p.catalog, refl)
on_file-frame pid page p fault = (p.catalog, refl)
on_file-frame pid page p no_fuel = (p.catalog, refl)

flush_found-frame :
    (pid : PageId) (p : BufferPool) (found : Option HeapPage)
    → (c : Catalog) × ((flush_found pid p found).0 ≡ record p { catalog = c })
flush_found-frame pid p none = (p.catalog, refl)
flush_found-frame pid p (some page) = elim (Bool-cases page.is_dirty) [
  | inl d ↦
      let (c, f) = on_file-frame pid page p (get_database_file p.catalog pid.table_id) in
      (c, ap (λ b. (if b then write_back pid page p else (p, ok tt)).0) d ∙ f)
  | inr d ↦ (p.catalog, ap (λ b. (if b then write_back pid page p else (p, ok tt)).0) d)
]

pub flush_page-frame :
    (pid : PageId) (p : BufferPool)
    → (c : Catalog) × ((flush_page pid p).0 ≡ record p { catalog = c })
unfolding flush_page
flush_page-frame pid p = flush_found-frame pid p (lookup page_eq pid p.page_pool)

-- What `make_room` keeps where it succeeds.
pub record HasRoom (p p' : BufferPool) : Type 0 where
  pub sound : IsSound p'
  pub less : length p'.page_pool < p'.pages_cnt
  pub same_cnt : p'.pages_cnt ≡ p.pages_cnt
  pub absent :
      (x : PageId) → lookup page_eq x p.page_pool ≡ none → lookup page_eq x p'.page_pool ≡ none

-- a pool with a page has a node
pub no_page :
    (pool : List (PageId × HeapPage))
    → ((x : PageId) → count x [] ≡ count x (keys pool))
    → length pool ≡ 0
no_page [] h = refl
no_page ((k, v) ∷ pool) h = absurd (omega (arith, h k, count_self k (keys pool), count_none k))

evict_from-HasRoom :
    (p p' : BufferPool) (lru : List PageId)
    → AreSound p.pages_cnt lru p.page_pool
    → 0 < length p.page_pool
    → evict_from lru p ≡ (p', ok tt)
    → HasRoom p p'
evict_from-HasRoom p p' [] s h e = absurd (omega (arith, no_page p.page_pool s.nodes))
evict_from-HasRoom p p' (x ∷ xs) s h e =
    let (front, evict) = split_last x xs in
    let (u, a, flushed, gone) =
      >>=-eq-ok (flush_page evict) (λ _. forget evict) (record p { lru = front }) e in
    let (c, frame) = flush_page-frame evict (record p { lru = front }) in
    let (there, sound, less) = AreSound-evict p.pages_cnt x xs p.page_pool s in
    subst (HasRoom p)
      (ap (λ (q : BufferPool). record q { page_pool = erase page_eq evict q.page_pool })
          (sym frame ∙ ap (λ r. r.0) flushed)
        ∙ ap (λ r. r.0) gone)
      (record {
        sound = sound;
        less = omega (arith, s.room);
        same_cnt = refl;
        absent = lookup-erase_absent evict p.page_pool (s.once evict);
      })

pub make_room-HasRoom :
    (p p' : BufferPool) → IsSound p → 0 < p.pages_cnt → make_room p ≡ (p', ok tt) → HasRoom p p'
unfolding evict_page
make_room-HasRoom p p' s h e = elim (Bool-cases (length p.page_pool == p.pages_cnt)) [
  | inl full ↦
      evict_from-HasRoom p p' p.lru s
        (omega (arith, (==_iff (length p.page_pool) p.pages_cnt).0 full))
        (sym (ap (λ b. if b then evict_from p.lru p else (p, ok tt)) full) ∙ e)
  | inr free ↦
      subst (HasRoom p)
        (ap (λ r. r.0) (sym (ap (λ b. if b then evict_from p.lru p else (p, ok tt)) free) ∙ e))
        (record {
          sound = s;
          less = ground (arith, s.room);
          same_cnt = refl;
          absent = λ x none_there. none_there;
        })
]

touched-IsSound :
    (pid : PageId) (page page' : HeapPage) (p p' : BufferPool)
    → IsSound p
    → lookup page_eq pid p.page_pool ≡ some page
    → touched pid page p (erase_node pid p.lru) ≡ (p', ok page')
    → IsSound p'
touched-IsSound pid page page' p p' s found e =
    let (rest, f, same) =
      erase_node-count pid p.lru
        (omega (arith, s.nodes pid, count-of_lookup pid page p.page_pool found)) in
    subst IsSound (ap (λ r. r.0) (ap (touched pid page p) (sym f) ∙ e))
      (AreSound-touch p.pages_cnt pid p.lru rest p.page_pool s same)

miss-IsSound :
    (pid : PageId) (page' : HeapPage) (p p' : BufferPool)
    → IsSound p
    → 0 < p.pages_cnt
    → lookup page_eq pid p.page_pool ≡ none
    → miss pid p ≡ (p', ok page')
    → IsSound p'
unfolding on_file
miss-IsSound pid page' p p' s h absent e =
    let (q, a, made, rest) =
      >>=-eq-ok make_room (λ _. database_file pid.table_id >>= read_in pid) p e in
    let (q', file, looked, rest') = >>=-eq-ok (database_file pid.table_id) (read_in pid) q rest in
    let (q'', page, read, admitted) =
      >>=-eq-ok (on_file file (λ f. read_page f pid)) (admit pid) q' rest' in
    let r = make_room-HasRoom p q s h made in
    let same : with_file q (read_page file pid).0 ≡ q'' =
      ap (λ u. with_file u (read_page file pid).0) (ap (λ m. m.0) looked) ∙ ap (λ m. m.0) read in
    subst IsSound (ap (λ u. (admit pid page u).0) same ∙ ap (λ m. m.0) admitted)
      (AreSound-admit q.pages_cnt pid page q.lru q.page_pool r.sound (r.absent pid absent) r.less)

found-IsSound :
    (pid : PageId) (page : HeapPage) (p p' : BufferPool) (found : Option HeapPage)
    → IsSound p
    → 0 < p.pages_cnt
    → lookup page_eq pid p.page_pool ≡ found
    → get_found pid p found ≡ (p', ok page)
    → IsSound p'
found-IsSound pid page p p' none s h f e = miss-IsSound pid page p p' s h f e
found-IsSound pid page p p' (some held) s h f e = touched-IsSound pid held page p p' s f e

-- Where `GetPage` succeeds, on a pool with room for a page, it keeps the pool sound: each page of the
-- pool has one node in the LRU list and no other page has one, no page is there twice, and there are
-- not more than the capacity.
pub get_page-IsSound :
    (pid : PageId) (page : HeapPage) (p p' : BufferPool)
    → IsSound p
    → 0 < p.pages_cnt
    → get_page pid p ≡ (p', ok page)
    → IsSound p'
unfolding get_page
get_page-IsSound pid page p p' s h e =
    found-IsSound pid page p p' (lookup page_eq pid p.page_pool) s h refl e

-- So does `InsertPage` of a page that is not in the pool.
pub insert_page-IsSound :
    (page : HeapPage) (p p' : BufferPool)
    → IsSound p
    → 0 < p.pages_cnt
    → lookup page_eq page.pid p.page_pool ≡ none
    → insert_page page p ≡ (p', ok tt)
    → IsSound p'
unfolding insert_page
insert_page-IsSound page p p' s h absent e =
    let put : State BufferPool (Unit {0}) =
      λ q. (record (with_page page.pid page q) { lru = page.pid ∷ q.lru }, ok tt) in
    let (q, a, made, rest) = >>=-eq-ok make_room (λ _. put) p e in
    let r = make_room-HasRoom p q s h made in
    subst IsSound (ap (λ m. m.0) rest) (
      AreSound-admit q.pages_cnt page.pid page q.lru q.page_pool r.sound (r.absent page.pid absent)
        r.less)
