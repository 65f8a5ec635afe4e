-- ===== src/Storage/HeapPage/Reread.antt =====
-- The records of a page that was written and read back: komfydb/storage/heap_page.cc.
use komfy_db.Base.{
  ℕ, zero, suc, ◌+◌, ◌≤◌, ◌<◌, ◌≡◌, refl, sym, ap, ◌∙◌, inl, inr, List, [], ◌∷◌, Option, none, some,
  arith, length, get_elem?, get_elem?-of_lt, Bool-cases,
}
use native.Mathlib.Decide.{dec_lt}
use komfy_db.Storage.Header.Bits.{bit}
use komfy_db.Storage.Ids.{PageId, Record}
use komfy_db.Storage.HeapPage.{HeapPage}
use komfy_db.Storage.HeapPage.Slots.{slot, slot_in, rid_at, IsValid}
use komfy_db.Storage.HeapPage.Dumps.{reread, reread_all}

pub length-reread_all :
    (n : ℕ) (pid : PageId) (s : ℕ → Option Record) (left i : ℕ)
    → length (reread_all n pid s left i) ≡ left
unfolding reread_all
length-reread_all n pid s zero i = refl
length-reread_all n pid s (suc left) i = ap suc (length-reread_all n pid s left (suc i))

get_elem?-reread_all :
    (n : ℕ) (pid : PageId) (s : ℕ → Option Record) (left i j k : ℕ)
    → j < left
    → k ≡ i + j
    → get_elem? (reread_all n pid s left i) j ≡ some (reread n pid k (s k))
unfolding reread_all
get_elem?-reread_all n pid s zero i j k h e = absurd (omega arith)
get_elem?-reread_all n pid s (suc left) i zero k h e =
    ap (λ (m : ℕ). some (reread n pid m (s m))) (omega arith)
get_elem?-reread_all n pid s (suc left) i (suc j) k h e =
    get_elem?-reread_all n pid s left (suc i) j k (omega arith) (omega arith)

get_elem?-none : {A : Type 0} (xs : List A) (j : ℕ) → length xs ≤ j → get_elem? xs j ≡ none
get_elem?-none [] j h = refl
get_elem?-none (x ∷ xs) zero h = absurd (omega arith)
get_elem?-none (x ∷ xs) (suc j) h = get_elem?-none xs j (omega arith)

-- a slot reads the same after the page was read back
pub slot-reread :
    (max : ℕ) (p : HeapPage) (n j : ℕ)
    → IsValid max p
    → slot_in p.header (reread_all n p.pid (slot p) p.num_slots 0) j ≡ slot p j
slot-reread max p n j v = elim (Bool-cases (bit p.header j)) [
  | inr empty ↦ rw empty refl
  | inl taken ↦ elim (dec_lt j p.num_slots) [
    | no h ↦
        rw
          (
            taken,
            get_elem?-none (reread_all n p.pid (slot p) p.num_slots 0) j
                (omega (arith, length-reread_all n p.pid (slot p) p.num_slots 0)),
            get_elem?-none p.records j (omega (arith, v.shaped.records_length)),
          )
          refl
    | yes h ↦
        let (r, found) = get_elem?-of_lt p.records j (omega (arith, v.shaped.records_length)) in
        let here : slot p j ≡ some r = rw taken found in
        rw (taken, get_elem?-reread_all n p.pid (slot p) p.num_slots 0 j j h (omega arith))
          (ap (λ o. some (reread n p.pid j o)) here
            ∙ ap some (eta r (v.stored j r here).1)
            ∙ sym found)
  ]
]
  where
    eta :
        (r : Record) → r.rid ≡ rid_at p.pid j → record { tuple = r.tuple; rid = rid_at p.pid j } ≡ r
    eta r e = ap (λ x. record { tuple = r.tuple; rid = x }) (sym e)
