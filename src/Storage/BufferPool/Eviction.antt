-- ===== src/Storage/BufferPool/Eviction.antt =====
-- Evicting a page: its latest version stays (komfydb/storage/buffer_pool.cc, `EvictPage` and
-- `FlushPage`).
use mathlib.Core.Path.{subst}
use komfy_db.Base.{
  ℕ, ◌<◌, ◌≡◌, ◌≢◌, ◌⊎◌, refl, ap, sym, ◌∙◌, inl, inr, true, false, List, Option, none, some,
  if◌then◌else◌, arith, Bool-cases, Option-cases,
}
use komfy_db.Base.Maps.{lookup}
use komfy_db.Base.Status.{StatusOr}
use komfy_db.Storage.HeapFile.{HeapFile}
use komfy_db.Storage.HeapFile.Disk.{disk_page, Covers, IsWritten}
use komfy_db.Storage.HeapPage.{HeapPage, get_records}
use komfy_db.Storage.HeapPage.RoundTrip.{
  HasSlack, reread_page, reread_page-get_records, reread_page-IsValid,
}
use komfy_db.Storage.Ids.{PageId, Record, page_eq, page_eq_iff}
use komfy_db.Storage.BufferPool.{BufferPool}
use komfy_db.Storage.BufferPool.Sound.{IsSound}
use komfy_db.Storage.BufferPool.Coherent.{
  file_of, view, IsInside, IsFile, OnDisk, IsHeld, IsCoherent, Keeps, view-OnDisk, view-in_pool,
}

-- What becomes of the file of a table when the page `pid` is flushed: its other pages stay.
pub record Follows (max : ℕ) (pid : PageId) (t : ℕ) (f f' : HeapFile) : Type 0 where
  pub file : IsFile max t f → IsFile max t f'
  pub desc : f'.tuple_desc ≡ f.tuple_desc
  pub len : f'.file_length ≡ f.file_length
  pub others :
      (x : PageId)
      → x.table_id ≡ t
      → x ≢ pid
      → Covers f x
      → (disk_page f' x ≡ disk_page f x) × Covers f' x

pub Follows-refl : (max : ℕ) (pid : PageId) (t : ℕ) (f : HeapFile) → Follows max pid t f f
Follows-refl max pid t f = record {
  file = λ h. h;
  desc = refl;
  len = refl;
  others = λ x t ne c. (refl, c);
}

other_page : (x pid : PageId) → x.table_id ≡ pid.table_id → x ≢ pid → x.page_no ≢ pid.page_no
other_page x pid t ne n = ne (λ i. record { table_id = t i; page_no = n i })

pub IsWritten-Follows :
    (max : ℕ) (f f' : HeapFile) (pid : PageId) (page : HeapPage)
    → page.pid ≡ pid
    → IsWritten page f f'
    → Follows max pid pid.table_id f f'
IsWritten-Follows max f f' pid page own w = record {
  file = λ k. record {
    own = w.own ∙ k.own;
    good = w.good;
    writable = w.writable;
    slack = subst (λ td. (max < 128) ⊎ HasSlack td) (sym w.desc) k.slack;
  };
  desc = w.desc;
  len = w.len;
  others = λ x t ne c.
      w.others x (λ n. other_page x pid t ne (n ∙ ap (λ (y : PageId). y.page_no) own)) c;
}

pub IsWritten-OnDisk :
    (max : ℕ) (f f' : HeapFile) (pid : PageId) (page : HeapPage)
    → IsHeld max f pid page
    → IsWritten page f f'
    → OnDisk max f' pid (get_records page)
IsWritten-OnDisk max f f' pid page h w =
    subst (λ x. OnDisk max f' x (get_records page)) h.own
      (record {
        covers = w.covers;
        page = reread_page page;
        made = w.there;
        valid = reread_page-IsValid max page h.valid;
        shows = reread_page-get_records max page h.valid;
      })

Follows-OnDisk :
    (max : ℕ) (pid : PageId) (t : ℕ) (f f' : HeapFile) (x : PageId) (rs : StatusOr (List Record))
    → Follows max pid t f f'
    → x.table_id ≡ t
    → x ≢ pid
    → OnDisk max f x rs
    → OnDisk max f' x rs
Follows-OnDisk max pid t f f' x rs w same ne d =
    let (e, covers) = w.others x same ne d.covers in
    record { covers = covers; page = d.page; made = e ∙ d.made; valid = d.valid; shows = d.shows }

-- A pool from which a page was taken, after it was flushed.
pub record IsEvicted (max : ℕ) (p p' : BufferPool) (pid : PageId) (page : HeapPage) : Type 0 where
  pub pool :
      (x : PageId)
      → lookup page_eq x p'.page_pool
        ≡ (if page_eq pid x then none else lookup page_eq x p.page_pool)
  pub found : lookup page_eq pid p.page_pool ≡ some page
  pub forth :
      (t : ℕ) (f : HeapFile)
      → file_of p t ≡ some f
      → (f' : HeapFile) × (file_of p' t ≡ some f') × Follows max pid t f f'
  pub back :
      (t : ℕ) (f' : HeapFile)
      → file_of p' t ≡ some f'
      → (f : HeapFile) × (file_of p t ≡ some f) × Follows max pid t f f'
  pub there :
      (f' : HeapFile) → file_of p' pid.table_id ≡ some f' → OnDisk max f' pid (get_records page)

module _ (max : ℕ) (p p' : BufferPool) (pid : PageId) (page : HeapPage)
    (v : IsEvicted max p p' pid page) where
  -- the other pages of the pool
  stays :
      (x : PageId)
      → page_eq pid x ≡ false
      → lookup page_eq x p'.page_pool ≡ lookup page_eq x p.page_pool
  stays x e = v.pool x ∙ ap (λ b. if b then none else lookup page_eq x p.page_pool) e

  goes : (x : PageId) → page_eq pid x ≡ true → lookup page_eq x p'.page_pool ≡ none
  goes x e = v.pool x ∙ ap (λ b. if b then none else lookup page_eq x p.page_pool) e

  apart : (x : PageId) → page_eq pid x ≡ false → x ≢ pid
  apart x e same = true_is_false (sym ((page_eq_iff pid x).1 (sym same)) ∙ e)
    where
      true_is_false : true ≡ false → ⊥
      true_is_false h = cc

  evicted-held :
      IsCoherent max p
      → (x : PageId) (q : HeapPage) → lookup page_eq x p'.page_pool ≡ some q
      → (f : HeapFile) × (file_of p' x.table_id ≡ some f) × IsHeld max f x q
  evicted-held c x q h = elim (Bool-cases (page_eq pid x)) [
    | inl e ↦ let clash : ◌≡◌ {A = Option HeapPage} none (some q) = sym (goes x e) ∙ h in cc
    | inr e ↦
        let (f, ff, hh) = c.held x q (sym (stays x e) ∙ h) in
        let (f', ff', w) = v.forth x.table_id f ff in
        (
          f',
          ff',
          record {
            own = hh.own;
            desc = hh.desc ∙ sym w.desc;
            valid = hh.valid;
            inside = omega (arith, hh.inside, w.len);
            clean = λ d.
                Follows-OnDisk max pid x.table_id f f' x (get_records q) w refl (apart x e)
                  (hh.clean d);
          },
        )
  ]

  evicted-stored :
      IsCoherent max p
      → (x : PageId) (f' : HeapFile) → IsInside p' x f'
      → lookup page_eq x p'.page_pool ≡ none
      → (rs : StatusOr (List Record)) × OnDisk max f' x rs
  evicted-stored c x f' inside h = elim (Bool-cases (page_eq pid x)) [
    | inl e ↦
        let same = (page_eq_iff pid x).0 e in
        (
          get_records page,
          subst (λ y. OnDisk max f' y (get_records page)) same
              (v.there f' (ap (λ (y : PageId). file_of p' y.table_id) same ∙ inside.0)),
        )
    | inr e ↦
        let (f, ff, w) = v.back x.table_id f' inside.0 in
        let (rs, d) = c.stored x f (ff, omega (arith, inside.1, w.len)) (sym (stays x e) ∙ h) in
        (rs, Follows-OnDisk max pid x.table_id f f' x rs w refl (apart x e) d)
  ]

  evicted-view :
      IsCoherent max p → (x : PageId) (f : HeapFile) → IsInside p x f → view p' x ≡ view p x
  evicted-view c x f inside = elim (Bool-cases (page_eq pid x)) [
    | inl e ↦
        let same = (page_eq_iff pid x).0 e in
        let (f', ff', w) = v.forth x.table_id f inside.0 in
        let d = v.there f' (ap (λ (y : PageId). file_of p' y.table_id) same ∙ ff') in
        view-OnDisk max p' x f' (get_records page) (goes x e) ff'
          (subst (λ y. OnDisk max f' y (get_records page)) same d)
        ∙ sym (view-in_pool p x (ap (λ y. lookup page_eq y p.page_pool) (sym same) ∙ v.found))
    | inr e ↦ elim (Option-cases (lookup page_eq x p.page_pool)) [
      | inl absent ↦
          let (f', ff', w) = v.forth x.table_id f inside.0 in
          let (rs, d) = c.stored x f inside absent in
          view-OnDisk max p' x f' rs (stays x e ∙ absent) ff'
            (Follows-OnDisk max pid x.table_id f f' x rs w refl (apart x e) d)
          ∙ sym (view-OnDisk max p x f rs absent inside.0 d)
      | inr (q, there) ↦ view-in_pool p' x (stays x e ∙ there) ∙ sym (view-in_pool p x there)
    ]
  ]

  pub evicted-Keeps : IsCoherent max p → IsSound p' → p'.pages_cnt ≡ p.pages_cnt → Keeps max p p'
  evicted-Keeps c s n = record {
    sound = s;
    same_cnt = n;
    coherent = record {
      files = λ t f' h. let (f, ff, w) = v.back t f' h in w.file (c.files t f ff);
      held = evicted-held c;
      stored = evicted-stored c;
    };
    same_files = λ t f h. let (f', ff', w) = v.forth t f h in (f', ff', w.len);
    shows = evicted-view c;
  }
