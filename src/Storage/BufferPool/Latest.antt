-- ===== src/Storage/BufferPool/Latest.antt =====
-- `GetPage` gives the latest version of a page (komfydb/storage/buffer_pool.cc).
use mathlib.Core.Path.{subst}
use komfy_db.Base.{
  ℕ, ◌≤◌, ◌<◌, ◌≡◌, ◌⊎◌, refl, ap, sym, ◌∙◌, inl, inr, true, false, List, ◌∷◌, Option, none, some,
  if◌then◌else◌, length, arith, ◌==◌, ==_iff, Bool-cases, Option-cases,
}
use komfy_db.Base.Maps.{lookup, lookup-insert}
use komfy_db.Base.State.{after, ◌>>=◌}
use komfy_db.Base.Status.{StatusOr, ok, or_err, invalid_argument}
use komfy_db.Storage.Catalog.{get_database_file}
use komfy_db.Storage.HeapFile.{HeapFile}
use komfy_db.Storage.HeapFile.Disk.{read_page-disk_page}
use komfy_db.Storage.HeapPage.{HeapPage, get_records}
use komfy_db.Storage.Ids.{PageId, Record, page_eq, page_eq_iff}
use komfy_db.Storage.BufferPool.{
  BufferPool, with_file, on_file, database_file, admit, touched, read_in, get_found, get_page,
}
use komfy_db.Storage.BufferPool.Lru.{erase_node-count, count-of_lookup}
use komfy_db.Storage.BufferPool.Sound.{IsSound, AreSound-touch, AreSound-admit}
use komfy_db.Storage.BufferPool.Coherent.{
  file_of, view, view_pool, IsInside, OnDisk, IsHeld, IsCoherent, Keeps, create-frame, view-OnDisk,
  view-in_pool,
}
use komfy_db.Storage.BufferPool.Room.{file_of-with_file, make_room-Keeps}

-- a file that is already the file of its table
file_of_same :
    (p : BufferPool) (f : HeapFile) (t : ℕ)
    → file_of p f.table_id ≡ some f
    → file_of (with_file p f) t ≡ file_of p t
file_of_same p f t h = file_of-with_file p f t ∙ go (Bool-cases (f.table_id == t))
  where
    go :
        ((f.table_id == t) ≡ true) ⊎ ((f.table_id == t) ≡ false)
        → (if f.table_id == t then some f else file_of p t) ≡ file_of p t
    go (inl e) =
        ap (λ b. if b then some f else file_of p t) e
        ∙ (sym h ∙ ap (file_of p) ((==_iff f.table_id t).0 e))
    go (inr e) = ap (λ b. if b then some f else file_of p t) e

pub Keeps-trans : (max : ℕ) (p q r : BufferPool) → Keeps max p q → Keeps max q r → Keeps max p r
Keeps-trans max p q r k l = record {
  sound = l.sound;
  same_cnt = l.same_cnt ∙ k.same_cnt;
  coherent = l.coherent;
  same_files = λ t f h.
      let (f', h', len) = k.same_files t f h in
      let (f'', h'', len') = l.same_files t f' h' in (f'', h'', len' ∙ len);
  shows = λ pid f h.
      let (f', h', len) = k.same_files pid.table_id f h.0 in
      l.shows pid f' (h', omega (arith, h.1, len)) ∙ k.shows pid f h;
}

module _ (max : ℕ) (p : BufferPool) (pid : PageId) (f : HeapFile) (rs : StatusOr (List Record))
    (s : IsSound p) (c : IsCoherent max p) (absent : lookup page_eq pid p.page_pool ≡ none)
    (less : length p.page_pool < p.pages_cnt) (inside : IsInside p pid f)
    (d : OnDisk max f pid rs) where
  -- the pool with the page of the file in it
  abbrev admitted : BufferPool
  admitted = (admit pid d.page (with_file p f)).0

  own_file : f.table_id ≡ pid.table_id
  own_file = (c.files pid.table_id f inside.0).own

  same_files : (t : ℕ) → file_of admitted t ≡ file_of p t
  same_files t = file_of_same p f t (ap (file_of p) own_file ∙ inside.0)

  pool_at :
      (x : PageId)
      → lookup page_eq x admitted.page_pool
        ≡ (if page_eq pid x then some d.page else lookup page_eq x p.page_pool)
  pool_at x = lookup-insert page_eq page_eq_iff pid x d.page p.page_pool

  pool_here :
      (x : PageId) → page_eq pid x ≡ true → lookup page_eq x admitted.page_pool ≡ some d.page
  pool_here x e = pool_at x ∙ ap (λ b. if b then some d.page else lookup page_eq x p.page_pool) e

  pool_other :
      (x : PageId)
      → page_eq pid x ≡ false
      → lookup page_eq x admitted.page_pool ≡ lookup page_eq x p.page_pool
  pool_other x e = pool_at x ∙ ap (λ b. if b then some d.page else lookup page_eq x p.page_pool) e

  page-IsHeld : IsHeld max f pid d.page
  page-IsHeld =
      let (own, desc, clean) = create-frame pid f.tuple_desc _ d.page d.made in
      record {
        own = own;
        desc = desc;
        valid = d.valid;
        inside = inside.1;
        clean = λ e. record {
          covers = d.covers;
          page = d.page;
          made = d.made;
          valid = d.valid;
          shows = refl;
        };
      }

  admitted-held :
      (x : PageId) (q : HeapPage)
      → lookup page_eq x admitted.page_pool ≡ some q
      → (g : HeapFile) × (file_of admitted x.table_id ≡ some g) × IsHeld max g x q
  admitted-held x q h = elim (Bool-cases (page_eq pid x)) [
    | inl e ↦
        let same = (page_eq_iff pid x).0 e in
        let found : some d.page ≡ some q = sym (pool_here x e) ∙ h in
        let one : d.page ≡ q = cc in
        (
          f,
          same_files x.table_id ∙ ap (λ (y : PageId). file_of p y.table_id) (sym same) ∙ inside.0,
          subst (λ (z : PageId × HeapPage). IsHeld max f z.0 z.1) (λ i. (same i, one i))
              page-IsHeld,
        )
    | inr e ↦
        let (g, fg, hg) = c.held x q (sym (pool_other x e) ∙ h) in
        (g, same_files x.table_id ∙ fg, hg)
  ]

  admitted-view : (x : PageId) (g : HeapFile) → IsInside p x g → view admitted x ≡ view p x
  admitted-view x g h = elim (Bool-cases (page_eq pid x)) [
    | inl e ↦
        let same = (page_eq_iff pid x).0 e in
        view-in_pool admitted x (pool_here x e)
        ∙ d.shows
        ∙ sym (ap (view p) (sym same) ∙ view-OnDisk max p pid f rs absent inside.0 d)
    | inr e ↦ λ i. view_pool x (same_files x.table_id i) (pool_other x e i)
  ]

  admitted-stored :
      (x : PageId) (g : HeapFile)
      → IsInside admitted x g
      → lookup page_eq x admitted.page_pool ≡ none
      → (qs : StatusOr (List Record)) × OnDisk max g x qs
  admitted-stored x g h e = elim (Bool-cases (page_eq pid x)) [
    | inl here ↦
        let clash : ◌≡◌ {A = Option HeapPage} none (some d.page) = sym e ∙ pool_here x here in cc
    | inr there ↦
        c.stored x g (sym (same_files x.table_id) ∙ h.0, h.1) (sym (pool_other x there) ∙ e)
  ]

  admitted-Keeps : Keeps max p admitted
  admitted-Keeps = record {
    sound = AreSound-admit p.pages_cnt pid d.page p.lru p.page_pool s absent less;
    same_cnt = refl;
    coherent = record {
      files = λ t g h. c.files t g (sym (same_files t) ∙ h);
      held = admitted-held;
      stored = admitted-stored;
    };
    same_files = λ t g h. (g, same_files t ∙ h, refl);
    shows = admitted-view;
  }

  -- the end of a miss
  read_in-ok : read_in pid f p ≡ (admitted, ok d.page)
  unfolding on_file
  read_in-ok =
      ap (λ (m : HeapFile × StatusOr HeapPage). after (admit pid) (with_file p m.0) m.1)
        (read_page-disk_page f pid (c.files pid.table_id f inside.0).good (sym own_file) inside.1
            d.covers
          ∙ ap (λ r. (f, r)) d.made)

-- `GetPage` of a page of a table, for a coherent pool with room for a page: it succeeds, the page has
-- the latest records, from the pool or the file, and every page keeps its records.
pub get_page_latest :
    (max : ℕ) (p : BufferPool) (pid : PageId) (f : HeapFile)
    → max ≤ 128
    → IsSound p
    → IsCoherent max p
    → 0 < p.pages_cnt
    → IsInside p pid f
    → (p' : BufferPool) × (page : HeapPage) × (get_page pid p ≡ (p', ok page))
      × (get_records page ≡ view p pid)
      × Keeps max p p'
unfolding get_page get_database_file
get_page_latest max p pid f small s c h inside =
    elim (Option-cases (lookup page_eq pid p.page_pool)) [
      | inr (page, found) ↦
          let (rest, node, same) =
            erase_node-count pid p.lru
              (omega (arith, s.nodes pid, count-of_lookup pid page p.page_pool found)) in
          (
            record p { lru = pid ∷ rest },
            page,
            ap (get_found pid p) found ∙ ap (touched pid page p) node,
            sym (view-in_pool p pid found),
            record {
              sound = AreSound-touch p.pages_cnt pid p.lru rest p.page_pool s same;
              same_cnt = refl;
              coherent = record { files = c.files; held = c.held; stored = c.stored };
              same_files = λ t g e. (g, e, refl);
              shows = λ x g e. refl;
            },
          )
      | inl absent ↦
          let (q, made, k, r) = make_room-Keeps max p small s c h in
          let (f', ff, len) = k.same_files pid.table_id f inside.0 in
          let inside' : IsInside q pid f' = (ff, omega (arith, inside.1, len)) in
          let gone = r.absent pid absent in
          let (rs, d) = k.coherent.stored pid f' inside' gone in
          (
            admitted max q pid f' rs k.sound k.coherent gone r.less inside' d,
            d.page,
            ap (get_found pid p) absent
                ∙ ap
                    (λ (m : BufferPool × StatusOr (Unit {0})).
                      after (λ _. database_file pid.table_id >>= read_in pid) m.0 m.1)
                    made
                ∙ ap (λ o. after (read_in pid) q (or_err o invalid_argument)) ff
                ∙ read_in-ok max q pid f' rs k.sound k.coherent gone r.less inside' d,
            d.shows ∙ sym (view-OnDisk max q pid f' rs gone ff d) ∙ k.shows pid f inside,
            Keeps-trans max p q _ k
                (admitted-Keeps max q pid f' rs k.sound k.coherent gone r.less inside' d),
          )
    ]
