-- ===== src/Storage/HeapPage/Filling.antt =====
-- Filling one slot of a page, and the steps of the loop of `AddTuples`:
-- komfydb/storage/heap_page.cc.
use komfy_db.Base.{
  ℕ, suc, ◌-◌, ◌/◌, ◌≤◌, ◌<◌, ◌≡◌, refl, sym, ap, ◌∙◌, ◌≢◌, inl, inr, true, false, List, [], ◌∷◌,
  map, none, some, arith, length, set, length-set, get_elem?-set_self, get_elem?-set_ne,
  get_elem?-of_lt, ◌==◌, Bool-cases, ==_iff,
}
use komfy_db.Base.Int.{pos}
use komfy_db.Base.Status.{ok}
use komfy_db.Common.Tuple.{Tuple}
use komfy_db.Common.TupleDesc.{TdItem}
use komfy_db.Storage.Header.{tuple_present}
use komfy_db.Storage.Header.Bits.{bit, AreBytes, mark_occupied-Updates}
use komfy_db.Storage.Ids.{PageId, Record}
use komfy_db.Storage.HeapPage.{HeapPage, place, add_loop, add_tuples}
use komfy_db.Storage.HeapPage.Slots.{slot, occupied, rid_at, Fits}

abbrev pub tuples : List Record → List Tuple
tuples = map (λ r. r.tuple)

-- What changes while tuples are added.
pub record Extends (p p' : HeapPage) : Type 0 where
  pub frame : p' ≡ record p { header = p'.header; records = p'.records }
  pub same_header : length p'.header ≡ length p.header
  pub bytes : AreBytes p'.header
  pub same_records : length p'.records ≡ length p.records
  pub kept : (j : ℕ) (r : Record) → slot p j ≡ some r → slot p' j ≡ some r

-- a record placed in a free slot
pub record Places (p : HeapPage) (i : ℕ) (t : Tuple) (p' : HeapPage) : Type 0 where
  pub frame : p' ≡ record p { header = p'.header; records = p'.records }
  pub same_header : length p'.header ≡ length p.header
  pub bytes : AreBytes p'.header
  pub same_records : length p'.records ≡ length p.records
  pub here : slot p' i ≡ some (record { tuple = t; rid = rid_at p.pid i })
  pub bit_here : bit p'.header i ≡ true
  pub there : (j : ℕ) → i ≢ j → slot p' j ≡ slot p j
  pub bit_there : (j : ℕ) → i ≢ j → bit p'.header j ≡ bit p.header j

pub place-Places :
    (p : HeapPage) (i : ℕ) (t : Tuple)
    → i / 8 < length p.header
    → AreBytes p.header
    → i < length p.records
    → (p' : HeapPage) × (place p i t ≡ (p', ok tt)) × Places p i t p'
unfolding place
place-Places p i t h bytes hr =
    let (header, done, u) = mark_occupied-Updates p.header i h bytes in
    let r : Record = record { tuple = t; rid = rid_at p.pid i } in
    (
      record p { header = header; records = set p.records i r },
      rw (done, place),
      record {
        frame = refl;
        same_header = u.same_length;
        bytes = u.bytes;
        same_records = length-set p.records i r;
        here = rw u.slot (get_elem?-set_self p.records i r hr);
        bit_here = u.slot;
        there = λ j ne. rw (u.others j ne, get_elem?-set_ne p.records r ne);
        bit_there = u.others;
      },
    )

-- the tuples in `left` slots from slot `i`
abbrev pub held : HeapPage → ℕ → ℕ → List Tuple
held p left i = tuples (occupied (slot p) left i)

-- tuples that fit a schema
abbrev pub AllFit : ℕ → List TdItem → List Tuple → Type 0
AllFit max items [] = Unit
AllFit max items (t ∷ ts) = Fits max items t × AllFit max items ts

-- a property of the records of a page
abbrev pub Each {ℓ} : (ℕ → Record → Type ℓ) → HeapPage → Type ℓ
Each P p = (j : ℕ) (r : Record) → slot p j ≡ some r → P j r

abbrev pub Given {ℓ} : (ℕ → Record → Type ℓ) → PageId → List Tuple → Type ℓ
Given P pid [] = Unit
Given P pid (t ∷ ts) = ((j : ℕ) → P j (record { tuple = t; rid = rid_at pid j })) × Given P pid ts

pub slot-of_bit :
    (p : HeapPage) (i : ℕ)
    → i < length p.records
    → bit p.header i ≡ true
    → (r : Record) × (slot p i ≡ some r)
slot-of_bit p i h e = let (r, found) = get_elem?-of_lt p.records i h in (r, rw e found)

pub Extends-refl : (p : HeapPage) → AreBytes p.header → Extends p p
Extends-refl p b = record {
  frame = refl;
  same_header = refl;
  bytes = b;
  same_records = refl;
  kept = λ j r e. e;
}

pub Extends-trans : {p q r : HeapPage} → Extends p q → Extends q r → Extends p r
Extends-trans {p} {q} {r} a b = record {
  frame =
      b.frame ∙ ap (λ (x : HeapPage). record x { header = r.header; records = r.records }) a.frame;
  same_header = b.same_header ∙ a.same_header;
  bytes = b.bytes;
  same_records = b.same_records ∙ a.same_records;
  kept = λ j x e. b.kept j x (a.kept j x e);
}

pub slot_free : (p : HeapPage) (i : ℕ) → bit p.header i ≡ false → slot p i ≡ none
slot_free p i e = rw e

pub Places-Extends :
    {p p' : HeapPage} {i : ℕ} {t : Tuple} → Places p i t p' → bit p.header i ≡ false → Extends p p'
Places-Extends {p} {p'} {i} v e = record {
  frame = v.frame;
  same_header = v.same_header;
  bytes = v.bytes;
  same_records = v.same_records;
  kept = λ j r h. elim (Bool-cases (i == j)) [
    | inl same ↦ absurd (none≢some (sym (slot_free p i e) ∙ ap (slot p) ((==_iff i j).0 same) ∙ h))
    | inr other ↦ v.there j (ne_of i j other) ∙ h
  ];
}
  where
    none≢some : {r : Record} → none ≡ some r → ⊥
    none≢some e = cc

    ne_of : (i j : ℕ) → (i == j) ≡ false → i ≢ j
    ne_of i j h = ground arith

pub add_loop-taken :
    (left i num : ℕ) (ts : List Tuple) (p : HeapPage)
    → tuple_present p.header (pos i) ≡ ok true
    → add_loop (suc left) i (suc num) ts p ≡ add_loop left (suc i) (suc num) ts p
unfolding add_loop
add_loop-taken left i num ts p h = rw (h, add_loop)

pub add_loop-free :
    (left i num : ℕ) (t : Tuple) (ts : List Tuple) (p q : HeapPage)
    → tuple_present p.header (pos i) ≡ ok false
    → place p i t ≡ (q, ok tt)
    → add_loop (suc left) i (suc num) (t ∷ ts) p ≡ add_loop left (suc i) num ts q
unfolding add_loop
add_loop-free left i num t ts p q h e = ground arith

pub add_tuples-add_loop :
    (num : ℕ) (ts : List Tuple) (p q : HeapPage)
    → num ≤ p.free_space
    → add_loop p.num_slots 0 num ts p ≡ (q, ok tt)
    → add_tuples ts num p ≡ (record q { free_space = q.free_space - num }, ok tt)
unfolding add_tuples
add_tuples-add_loop num ts p q h e = ground arith
