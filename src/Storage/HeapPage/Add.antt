-- ===== src/Storage/HeapPage/Add.antt =====
-- Adding tuples to a page: `AddTuples` of komfydb/storage/heap_page.cc.
use mathlib.Core.List.{perm_middle, Perm}
use mathlib.Core.List.Perm
use mathlib.Core.Path.{subst, subst₂}
use komfy_db.Base.{
  ℕ, zero, suc, ◌+◌, ◌-◌, ◌/◌, ◌≤◌, ◌<◌, ◌≡◌, refl, sym, ap, ◌∙◌, inl, inr, true, false, List, [],
  ◌∷◌, ◌++◌, some, arith, length, ◌==◌, Bool-cases, take, ==_iff,
}
use komfy_db.Base.Int.{pos}
use komfy_db.Base.Status.{ok, err, failed_precondition}
use komfy_db.Common.Tuple.{Tuple}
use komfy_db.Storage.Header.{tuple_present}
use komfy_db.Storage.Header.Bits.{bit, AreBytes, tuple_present-bit}
use komfy_db.Storage.Ids.{Record}
use komfy_db.Storage.HeapPage.{HeapPage, add_loop, add_tuples}
use komfy_db.Storage.HeapPage.Slots.{
  slot, occupied, free_count, rid_at, Fits, IsValid, slot_bound, occupied-cong, free_count-cong,
}
use komfy_db.Storage.HeapPage.Filling.{
  Extends, Places, place-Places, held, AllFit, Each, Given, slot-of_bit, Extends-refl,
  Extends-trans, slot_free, Places-Extends, add_loop-taken, add_loop-free, add_tuples-add_loop,
}

module _ {ℓ} (P : ℕ → Record → Type ℓ) where
  record Added (p : HeapPage) (left i num : ℕ) (ts : List Tuple) (p' : HeapPage) : Type ℓ where
    extends : Extends p p'
    before : (j : ℕ) → j < i → slot p' j ≡ slot p j
    bits_before : (j : ℕ) → j < i → bit p'.header j ≡ bit p.header j
    held_perm : Perm (held p' left i) (take num ts ++ held p left i)
    free : free_count p'.header left i + num ≡ free_count p.header left i
    each : Each P p'

  Added-done :
      (p : HeapPage) (left i : ℕ) (ts : List Tuple)
      → AreBytes p.header
      → Each P p
      → Added p left i 0 ts p
  Added-done p left i ts bytes each = record {
    extends = Extends-refl p bytes;
    before = λ j h. refl;
    bits_before = λ j h. refl;
    held_perm = Perm.refl _;
    free = omega arith;
    each = each;
  }

  -- past a slot that is taken
  Added-taken :
      {p p' : HeapPage} {left i num : ℕ} {ts : List Tuple} {r : Record}
      → bit p.header i ≡ true
      → slot p i ≡ some r
      → Added p left (suc i) num ts p'
      → Added p (suc left) i num ts p'
  unfolding occupied free_count
  Added-taken {p} {p'} {left} {i} {num} {ts} {r} taken found a = record {
    extends = a.extends;
    before = λ j h. a.before j (omega arith);
    bits_before = λ j h. a.bits_before j (omega arith);
    held_perm =
        rw (a.before i (omega arith), found)
          (Perm.trans (Perm.cons r.tuple a.held_perm)
            (Perm.symm (perm_middle (take num ts) (held p left (suc i)))));
    free = rw (a.bits_before i (omega arith), taken) (omega (arith, a.free));
    each = a.each;
  }

  -- past a free slot that was filled
  Added-placed :
      {p q p' : HeapPage} {left i num : ℕ} {t : Tuple} {ts : List Tuple}
      → bit p.header i ≡ false
      → Places p i t q
      → Added q left (suc i) num ts p'
      → Added p (suc left) i (suc num) (t ∷ ts) p'
  unfolding occupied free_count
  Added-placed {p} {q} {p'} {left} {i} {num} {t} {ts} free v a = record {
    extends = Extends-trans (Places-Extends v free) a.extends;
    before = λ j h. a.before j (omega arith) ∙ v.there j (omega arith);
    bits_before = λ j h. a.bits_before j (omega arith) ∙ v.bit_there j (omega arith);
    held_perm =
        rw (a.before i (omega arith), v.here, slot_free p i free)
          (Perm.cons t (
            rw (← occupied-cong (slot p) (slot q) left (suc i) (λ j h. v.there j (omega arith)))
              a.held_perm));
    free =
        rw (a.bits_before i (omega arith), v.bit_here, free)
          (omega (
            arith,
            a.free,
            free_count-cong p.header q.header left (suc i) (λ j h. v.bit_there j (omega arith)),
          ));
    each = a.each;
  }

  Each-placed :
      {p q : HeapPage} {i : ℕ} {t : Tuple}
      → Places p i t q
      → P i (record { tuple = t; rid = rid_at p.pid i })
      → Each P p
      → Each P q
  Each-placed {p} {q} {i} {t} v new each j r h = elim (Bool-cases (i == j)) [
    | inl same ↦
        at_new (some_eq (sym v.here ∙ ap (slot q) ((==_iff i j).0 same) ∙ h)) ((==_iff i j).0 same)
    | inr other ↦ each j r (sym (v.there j (ground arith)) ∙ h)
  ]
    where
      some_eq : {a b : Record} → some a ≡ some b → a ≡ b
      some_eq e = cc

      at_new : record { tuple = t; rid = rid_at p.pid i } ≡ r → i ≡ j → P j r
      at_new e k = subst₂ P k e new

  -- The loop finds a free slot for each tuple.
  add_loop-Added :
      (left i num : ℕ) (ts : List Tuple) (p : HeapPage)
      → ((j : ℕ) → j < i + left → j / 8 < length p.header)
      → i + left ≤ length p.records
      → AreBytes p.header
      → num ≤ free_count p.header left i
      → num ≤ length ts
      → Given P p.pid ts
      → Each P p
      → (p' : HeapPage) × (add_loop left i num ts p ≡ (p', ok tt)) × Added p left i num ts p'
  unfolding add_loop free_count
  add_loop-Added zero i zero ts p bound enough bytes room many given each =
      (p, refl, Added-done p 0 i ts bytes each)
  add_loop-Added zero i (suc num) ts p bound enough bytes room many given each =
      absurd (omega arith)
  add_loop-Added (suc left) i zero ts p bound enough bytes room many given each =
      (p, refl, Added-done p (suc left) i ts bytes each)
  add_loop-Added (suc left) i (suc num) [] p bound enough bytes room many given each =
      absurd (omega arith)
  add_loop-Added (suc left) i (suc num) (t ∷ ts) p bound enough bytes room many given each =
      elim (Bool-cases (bit p.header i)) [
        | inl taken ↦
            let (r, found) = slot-of_bit p i (omega arith) taken in
            let (p', run, a) =
              add_loop-Added left (suc i) (suc num) (t ∷ ts) p (λ j h. bound j (omega arith))
                (omega arith) bytes (omega (arith, rw taken at room)) many given each in
            (
              p',
              add_loop-taken left i num (t ∷ ts) p (present ∙ ap ok taken) ∙ run,
              Added-taken taken found a,
            )
        | inr free ↦
            let (q, placed, v) = place-Places p i t (bound i (omega arith)) bytes (omega arith) in
            let same_pid : p.pid ≡ q.pid = sym (ap (λ (x : HeapPage). x.pid) v.frame) in
            let same_bits =
              free_count-cong p.header q.header left (suc i) (λ j h. v.bit_there j (omega arith)) in
            let (p', run, a) =
              add_loop-Added left (suc i) num ts q (λ j h. rw v.same_header (bound j (omega arith)))
                (omega (arith, v.same_records)) v.bytes (omega (arith, rw free at room, same_bits))
                (omega arith) (subst (λ x. Given P x ts) same_pid given.1)
                (Each-placed v (given.0 i) each) in
            (
              p',
              add_loop-free left i num t ts p q (present ∙ ap ok free) placed ∙ run,
              Added-placed free v a,
            )
      ]
    where
      present : tuple_present p.header (pos i) ≡ ok (bit p.header i)
      present = tuple_present-bit p.header i (bound i (omega arith))

-- `AddTuples` on a well-formed page with enough free slots, given tuples that fit the schema: it
-- succeeds; the page stays well formed; the records that were there keep their slots; the page then
-- holds, as a multiset, the first `num` tuples besides those it held; and `num` slots fewer are free.
pub add_tuples_lem :
    (max num : ℕ) (ts : List Tuple) (p : HeapPage)
    → IsValid max p
    → num ≤ p.free_space
    → num ≤ length ts
    → AllFit max p.tuple_desc.items ts
    → (p' : HeapPage) × (add_tuples ts num p ≡ (p', ok tt))
      × IsValid max p'
      × ((j : ℕ) (r : Record) → slot p j ≡ some r → slot p' j ≡ some r)
      × Perm (held p' p'.num_slots 0) (take num ts ++ held p p.num_slots 0)
      × (p'.free_space + num ≡ p.free_space)
add_tuples_lem max num ts p v room many fit =
    let (q, run, a) =
      add_loop-Added Stored p.num_slots 0 num ts p (λ j h. slot_bound v.shaped j (omega arith))
        (omega (arith, v.shaped.records_length)) v.shaped.bytes (omega (arith, v.free)) many
        (given ts fit) v.stored in
    (
      record p { header = q.header; records = q.records; free_space = p.free_space - num },
      add_tuples-add_loop num ts p q room run
          ∙ ap (λ (x : HeapPage). (record x { free_space = x.free_space - num }, ok tt))
              a.extends.frame,
      record {
        shaped = record {
          slots = v.shaped.slots;
          header_length = a.extends.same_header ∙ v.shaped.header_length;
          bytes = a.extends.bytes;
          records_length = a.extends.same_records ∙ v.shaped.records_length;
        };
        free = omega (arith, a.free, v.free);
        stored = a.each;
      },
      a.extends.kept,
      a.held_perm,
      omega arith,
    )
  where
    Stored : ℕ → Record → Type 0
    Stored j r = Fits max p.tuple_desc.items r.tuple × (r.rid ≡ rid_at p.pid j)

    given : (ts : List Tuple) → AllFit max p.tuple_desc.items ts → Given Stored p.pid ts
    given [] h = tt
    given (t ∷ ts) h = ((λ j. (h.0, refl)), given ts h.1)

-- A page with too few free slots refuses the tuples and stays as it is.
pub add_tuples_full :
    (num : ℕ) (ts : List Tuple) (p : HeapPage)
    → p.free_space < num
    → add_tuples ts num p ≡ (p, err failed_precondition)
unfolding add_tuples
add_tuples_full num ts p h = ground arith
