-- ===== src/Storage/BufferPool/Sound.antt =====
-- The pages of the pool and its LRU list (komfydb/storage/buffer_pool.cc): what GetPage and
-- InsertPage keep.
use komfy_db.Base.{
  ℕ, ◌≤◌, ◌<◌, ◌≡◌, ap, sym, ◌∙◌, inl, inr, List, ◌∷◌, none, length, arith, Bool-cases,
}
use komfy_db.Base.Maps.{lookup, insert, erase}
use komfy_db.Storage.HeapPage.{HeapPage}
use komfy_db.Storage.Ids.{PageId, page_eq, page_eq_iff}
use komfy_db.Storage.BufferPool.{BufferPool, split_last}
use komfy_db.Storage.BufferPool.Lru.{
  count, keys, count_self, count-cancel, count-cong, count-skip, count-hit, split_last-count,
  keys-erase, length-erase, keys-insert_absent, keys-insert_present, length-insert_absent,
  length-insert_present, lookup-none,
}

-- Each page of the pool has one node in the LRU list, and no other page has a node; no page is twice
-- in the pool, and there are not more than its capacity.
pub record AreSound (pages_cnt : ℕ) (lru : List PageId) (pool : List (PageId × HeapPage))
    : Type 0 where
  pub nodes : (x : PageId) → count x lru ≡ count x (keys pool)
  pub once : (x : PageId) → count x (keys pool) ≤ 1
  pub room : length pool ≤ pages_cnt

abbrev pub IsSound : BufferPool → Type 0
IsSound p = AreSound p.pages_cnt p.lru p.page_pool

module _ (n : ℕ) where
  -- a page moves to the front
  pub AreSound-touch :
      (pid : PageId) (lru rest : List PageId) (pool : List (PageId × HeapPage))
      → AreSound n lru pool
      → ((x : PageId) → count x (pid ∷ rest) ≡ count x lru)
      → AreSound n (pid ∷ rest) pool
  AreSound-touch pid lru rest pool s e = record {
    nodes = λ x. e x ∙ s.nodes x;
    once = s.once;
    room = s.room;
  }

  -- a new page comes in front
  pub AreSound-admit :
      (pid : PageId) (page : HeapPage) (lru : List PageId) (pool : List (PageId × HeapPage))
      → AreSound n lru pool
      → lookup page_eq pid pool ≡ none
      → length pool < n
      → AreSound n (pid ∷ lru) (insert page_eq pid page pool)
  AreSound-admit pid page lru pool s absent less = record {
    nodes = λ x.
        count-cong pid lru (keys pool) s.nodes x ∙ sym (keys-insert_absent pid page pool absent x);
    once = λ x. one x;
    room = omega (arith, length-insert_absent pid page pool absent);
  }
    where
      one : (x : PageId) → count x (keys (insert page_eq pid page pool)) ≤ 1
      one x = elim (Bool-cases (page_eq pid x)) [
        | inl e ↦
            let none_there : count x (keys pool) ≡ 0 =
              ap (λ y. count y (keys pool)) (sym ((page_eq_iff pid x).0 e))
              ∙ lookup-none pid pool absent in
            omega (
              arith,
              keys-insert_absent pid page pool absent x,
              count-hit x pid (keys pool) e,
              none_there,
            )
        | inr e ↦ omega (
          arith,
          keys-insert_absent pid page pool absent x,
          count-skip x pid (keys pool) e,
          s.once x,
        )
      ]

  -- a page of the pool is changed
  pub AreSound-change :
      (pid : PageId) (page : HeapPage) (lru : List PageId) (pool : List (PageId × HeapPage))
      → AreSound n lru pool
      → 0 < count pid (keys pool)
      → AreSound n lru (insert page_eq pid page pool)
  AreSound-change pid page lru pool s there =
      let same = keys-insert_present pid page pool there in
      record {
        nodes = λ x. s.nodes x ∙ ap (count x) (sym same);
        once = λ x. omega (arith, s.once x, ap (count x) same);
        room = omega (arith, s.room, length-insert_present pid page pool there);
      }

  -- the last page of the list goes
  pub AreSound-evict :
      (x : PageId) (xs : List PageId) (pool : List (PageId × HeapPage))
      → AreSound n (x ∷ xs) pool
      → let (front, evict) = split_last x xs in
        (0 < count evict (keys pool))
        × AreSound n front (erase page_eq evict pool)
        × (length (erase page_eq evict pool) < length pool)
  AreSound-evict x xs pool s =
      let (front, evict) = split_last x xs in
      let there : 0 < count evict (keys pool) =
        omega (arith, split_last-count x xs evict, count_self evict front, s.nodes evict) in
      let one_less : (y : PageId)
          → count y (evict ∷ keys (erase page_eq evict pool)) ≡ count y (keys pool) =
        keys-erase evict pool there in
      let fewer : (y : PageId) → count y (keys (erase page_eq evict pool)) ≤ 1 = λ y.
        at_most evict (keys (erase page_eq evict pool)) y (omega (arith, one_less y, s.once y)) in
      (
        there,
        record {
          nodes = λ y.
              count-cancel y evict front (keys (erase page_eq evict pool))
                (split_last-count x xs y ∙ s.nodes y ∙ sym (one_less y));
          once = fewer;
          room = omega (arith, s.room, length-erase evict pool there);
        },
        omega (arith, length-erase evict pool there),
      )
    where
      at_most : (k : PageId) (ks : List PageId) (y : PageId) → count y (k ∷ ks) ≤ 1 → count y ks ≤ 1
      at_most k ks y h = elim (Bool-cases (page_eq k y)) [
        | inl e ↦ omega (arith, count-hit y k ks e)
        | inr e ↦ omega (arith, count-skip y k ks e)
      ]
