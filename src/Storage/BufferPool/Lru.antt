-- ===== src/Storage/BufferPool/Lru.antt =====
-- How often a page stands in a list of pages: for the pages of the pool and its LRU list
-- (komfydb/storage/buffer_pool.cc).
use komfy_db.Base.{
  sym, ℕ, suc, ◌≤◌, ◌<◌, ◌≡◌, refl, ap, ◌∙◌, Bool, true, false, List, [], ◌∷◌, map, Option, none,
  some, if◌then◌else◌, length, arith, inl, inr, Bool-cases,
}
use komfy_db.Base.Maps.{lookup, insert, erase}
use komfy_db.Storage.Ids.{PageId, page_eq, page_eq_iff}
use komfy_db.Storage.BufferPool.{erase_node, split_last}

unfoldable pub count : PageId → List PageId → ℕ
count x [] = 0
count x (y ∷ ys) = let rest = count x ys in if page_eq y x then suc rest else rest

pub count_none : (x : PageId) → count x [] ≡ 0
unfolding count
count_none x = refl

abbrev pub keys : {V : Type 0} → List (PageId × V) → List PageId
keys m = map (λ e. e.0) m

pub count_self : (x : PageId) (xs : List PageId) → 0 < count x (x ∷ xs)
unfolding count
count_self x xs = rw ((page_eq_iff x x).1 refl) (omega arith)

pub count-cong :
    (y : PageId) (xs ys : List PageId)
    → ((x : PageId) → count x xs ≡ count x ys)
    → (x : PageId) → count x (y ∷ xs) ≡ count x (y ∷ ys)
unfolding count
count-cong y xs ys h x = rw (h x)

pub count-skip :
    (x y : PageId) (ys : List PageId) → page_eq y x ≡ false → count x (y ∷ ys) ≡ count x ys
unfolding count
count-skip x y ys e = rw e

pub count-hit :
    (x y : PageId) (ys : List PageId) → page_eq y x ≡ true → count x (y ∷ ys) ≡ suc (count x ys)
unfolding count
count-hit x y ys e = rw e

pub count-cancel :
    (x y : PageId) (xs ys : List PageId)
    → count x (y ∷ xs) ≡ count x (y ∷ ys)
    → count x xs ≡ count x ys
count-cancel x y xs ys h = elim (Bool-cases (page_eq y x)) [
  | inl e ↦ omega (arith, count-hit x y xs e, count-hit x y ys e)
  | inr e ↦ omega (arith, count-skip x y xs e, count-skip x y ys e)
]

-- two at the front may be swapped
count_swap : (x y z : PageId) (xs : List PageId) → count x (y ∷ z ∷ xs) ≡ count x (z ∷ y ∷ xs)
unfolding count
count_swap x y z xs = ground arith

pub erase_node-count :
    (pid : PageId) (l : List PageId)
    → 0 < count pid l
    → (rest : List PageId) × (erase_node pid l ≡ some rest)
      × ((x : PageId) → count x (pid ∷ rest) ≡ count x l)
unfolding erase_node count
erase_node-count pid [] h = absurd (omega arith)
erase_node-count pid (y ∷ ys) h = elim (Bool-cases (page_eq y pid)) [
  | inl e ↦ (ys, rw e refl, λ x. ap (λ z. count x (z ∷ ys)) (sym ((page_eq_iff y pid).0 e)))
  | inr e ↦
      let (rest, f, same) = erase_node-count pid ys (omega (arith, count-skip pid y ys e)) in
      (y ∷ rest, rw (e, f) refl, λ x. count_swap x pid y rest ∙ count-cong y (pid ∷ rest) ys same x)
]

pub split_last-count :
    (x : PageId) (xs : List PageId) (y : PageId)
    → count y ((split_last x xs).1 ∷ (split_last x xs).0) ≡ count y (x ∷ xs)
split_last-count x [] y = refl
split_last-count x (z ∷ zs) y =
    count_swap y (split_last z zs).1 x (split_last z zs).0
    ∙ count-cong x ((split_last z zs).1 ∷ (split_last z zs).0) (z ∷ zs) (split_last-count z zs) y

page_eq-flip_false : (a b : PageId) → page_eq a b ≡ false → page_eq b a ≡ false
page_eq-flip_false a b e = ground arith

module _ {V : Type 0} where
  pub lookup-none :
      (x : PageId) (m : List (PageId × V)) → lookup page_eq x m ≡ none → count x (keys m) ≡ 0
  unfolding lookup count
  lookup-none x [] h = refl
  lookup-none x ((y, v) ∷ m) h = ground (arith, lookup-none x m)

  pub lookup-of_count :
      (x : PageId) (m : List (PageId × V))
      → 0 < count x (keys m)
      → (v : V) × (lookup page_eq x m ≡ some v)
  unfolding lookup count
  lookup-of_count x [] h = absurd (omega arith)
  lookup-of_count x ((y, v) ∷ m) h = elim (Bool-cases (page_eq y x)) [
    | inl e ↦ (v, rw e refl)
    | inr e ↦
        let (w, f) = lookup-of_count x m (omega (arith, count-skip x y (keys m) e)) in (w, rw e f)
  ]

  pub keys-insert_present :
      (k : PageId) (v : V) (m : List (PageId × V))
      → 0 < count k (keys m)
      → keys (insert page_eq k v m) ≡ keys m
  unfolding insert count
  keys-insert_present k v [] h = absurd (omega arith)
  keys-insert_present k v ((j, w) ∷ m) h = elim (Bool-cases (page_eq j k)) [
    | inl e ↦ rw e refl
    | inr e ↦
        rw e
          (ap (λ ks. j ∷ ks) (keys-insert_present k v m (omega (arith, count-skip k j (keys m) e))))
  ]

  pub keys-insert_absent :
      (k : PageId) (v : V) (m : List (PageId × V))
      → lookup page_eq k m ≡ none
      → (x : PageId) → count x (keys (insert page_eq k v m)) ≡ count x (k ∷ keys m)
  unfolding insert lookup
  keys-insert_absent k v [] h x = refl
  keys-insert_absent k v ((j, w) ∷ m) h x = elim (Bool-cases (page_eq j k)) [
    | inl e ↦ absurd (ground arith)
    | inr e ↦ rw e (
        count-cong j (keys (insert page_eq k v m)) (k ∷ keys m)
          (keys-insert_absent k v m (ground arith)) x
        ∙ count_swap x j k (keys m))
  ]

  pub length-insert_present :
      (k : PageId) (v : V) (m : List (PageId × V))
      → 0 < count k (keys m)
      → length (insert page_eq k v m) ≡ length m
  unfolding insert count
  length-insert_present k v [] h = absurd (omega arith)
  length-insert_present k v ((j, w) ∷ m) h = elim (Bool-cases (page_eq j k)) [
    | inl e ↦ rw e refl
    | inr e ↦ rw e (ap suc (length-insert_present k v m (omega (arith, count-skip k j (keys m) e))))
  ]

  pub length-insert_absent :
      (k : PageId) (v : V) (m : List (PageId × V))
      → lookup page_eq k m ≡ none
      → length (insert page_eq k v m) ≡ suc (length m)
  unfolding insert lookup
  length-insert_absent k v [] h = refl
  length-insert_absent k v ((j, w) ∷ m) h = elim (Bool-cases (page_eq j k)) [
    | inl e ↦ absurd (ground arith)
    | inr e ↦ rw e (ap suc (length-insert_absent k v m (ground arith)))
  ]

  pub keys-erase :
      (k : PageId) (m : List (PageId × V))
      → 0 < count k (keys m)
      → (x : PageId) → count x (k ∷ keys (erase page_eq k m)) ≡ count x (keys m)
  unfolding erase count
  keys-erase k [] h x = absurd (omega arith)
  keys-erase k ((j, w) ∷ m) h x = elim (Bool-cases (page_eq j k)) [
    | inl e ↦ rw e (ap (λ y. count x (y ∷ keys m)) (sym ((page_eq_iff j k).0 e)))
    | inr e ↦ rw e (
        count_swap x k j (keys (erase page_eq k m))
        ∙ count-cong j (k ∷ keys (erase page_eq k m)) (keys m)
            (keys-erase k m (omega (arith, count-skip k j (keys m) e))) x)
  ]

  pub length-erase :
      (k : PageId) (m : List (PageId × V))
      → 0 < count k (keys m)
      → suc (length (erase page_eq k m)) ≡ length m
  unfolding erase count
  length-erase k [] h = absurd (omega arith)
  length-erase k ((j, w) ∷ m) h = elim (Bool-cases (page_eq j k)) [
    | inl e ↦ rw e refl
    | inr e ↦ rw e (ap suc (length-erase k m (omega (arith, count-skip k j (keys m) e))))
  ]

  pub lookup-of_zero :
      (x : PageId) (m : List (PageId × V)) → count x (keys m) ≡ 0 → lookup page_eq x m ≡ none
  unfolding lookup count
  lookup-of_zero x [] h = refl
  lookup-of_zero x ((j, w) ∷ m) h = elim (Bool-cases (page_eq j x)) [
    | inl e ↦ absurd (ground arith)
    | inr e ↦ rw e (lookup-of_zero x m (omega (arith, count-skip x j (keys m) e)))
  ]

  pub lookup-erase :
      (k : PageId) (m : List (PageId × V))
      → count k (keys m) ≤ 1
      → (x : PageId)
      → lookup page_eq x (erase page_eq k m) ≡ (if page_eq k x then none else lookup page_eq x m)
  unfolding erase lookup
  lookup-erase k [] h x = ground arith
  lookup-erase k ((j, w) ∷ m) h x = elim (Bool-cases (page_eq j k)) [
    | inl e ↦ elim (Bool-cases (page_eq k x)) [
      | inl f ↦
          let same : count x (keys m) ≡ count k (keys m) =
            ap (λ y. count y (keys m)) (sym ((page_eq_iff k x).0 f)) in
          rw (e, f) (lookup-of_zero x m (omega (arith, same, count-hit k j (keys m) e)))
      | inr f ↦ rw (e, ap (λ y. page_eq y x) ((page_eq_iff j k).0 e), f) refl
    ]
    | inr e ↦ elim (Bool-cases (page_eq j x)) [
      | inl f ↦
          let apart : page_eq k x ≡ false =
            ap (page_eq k) (sym ((page_eq_iff j x).0 f)) ∙ page_eq-flip_false j k e in
          rw (e, f, apart) refl
      | inr f ↦ rw (e, f) (lookup-erase k m (omega (arith, count-skip k j (keys m) e)) x)
    ]
  ]

  pub lookup-erase_absent :
      (k : PageId) (m : List (PageId × V))
      → count k (keys m) ≤ 1
      → (x : PageId) → lookup page_eq x m ≡ none
      → lookup page_eq x (erase page_eq k m) ≡ none
  lookup-erase_absent k m h x absent = lookup-erase k m h x ∙ rw absent (either (page_eq k x))
    where
      either : (b : Bool) → ◌≡◌ {A = Option V} (if b then none else none) none
      either true = refl
      either false = refl

  pub count-of_lookup :
      (x : PageId) (v : V) (m : List (PageId × V))
      → lookup page_eq x m ≡ some v
      → 0 < count x (keys m)
  unfolding lookup
  count-of_lookup x v [] h = absurd (ground arith)
  count-of_lookup x v ((j, w) ∷ m) h = elim (Bool-cases (page_eq j x)) [
    | inl e ↦ omega (arith, count-hit x j (keys m) e)
    | inr e ↦ omega (arith, count-skip x j (keys m) e, count-of_lookup x v m (sym (rw e refl) ∙ h))
  ]
