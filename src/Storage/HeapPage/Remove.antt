-- ===== src/Storage/HeapPage/Remove.antt =====
-- Removing a record from a page: `RemoveRecord` of komfydb/storage/heap_page.cc.
use komfy_db.Base.{
  ℕ, zero, suc, ◌+◌, ◌≤◌, ◌<◌, ◌≡◌, refl, sym, ap, ◌∙◌, ◌≢◌, inl, inr, Bool, true, false, List, [],
  ◌∷◌, if◌then◌else◌, none, some, arith, length, not, ◌||◌, get_elem?, get_elem?-of_lt, ◌==◌,
  ==_iff, ==_refl, lt→ltb, Bool-cases,
}
use komfy_db.Base.Int.{pos, negsuc}
use komfy_db.Base.Status.{Code, ok, err, out_of_range, invalid_argument}
use komfy_db.Storage.Header.{tuple_present, mark_free}
use komfy_db.Storage.Header.Bits.{bit, Updates, tuple_present-bit, mark_free-Updates}
use komfy_db.Storage.Ids.{PageId, RecordId, Record, page_eq}
use komfy_db.Storage.HeapPage.{HeapPage, remove_record}
use komfy_db.Storage.HeapPage.Slots.{
  slot, free_count, rid_at, IsShaped, IsValid, slot_bound, free_count-cong,
}

free_count-freed :
    (header header' : List ℕ) (left k i : ℕ)
    → k ≤ i
    → i < k + left
    → bit header i ≡ true
    → Updates header i false header'
    → free_count header' left k ≡ free_count header left k + 1
unfolding free_count
free_count-freed header header' zero k i h h' was u = absurd (omega arith)
free_count-freed header header' (suc left) k i h h' was u = elim (Bool-cases (k == i)) [
  | inl same ↦
      rw ((==_iff k i).0 same, u.slot, was)
        (omega
          (arith, free_count-cong header header' left (suc i) (λ j q. u.others j (omega arith))))
  | inr other ↦ rw (u.others k (ground arith)) (
      omega
        (arith, free_count-freed header header' left (suc k) i (ground arith) (omega arith) was u))
]

bit-of_slot : (p : HeapPage) (i : ℕ) (r : Record) → slot p i ≡ some r → bit p.header i ≡ true
bit-of_slot p i r h = ground arith

get_elem?-lt : {A : Type 0} (xs : List A) (i : ℕ) (a : A) → get_elem? xs i ≡ some a → i < length xs
get_elem?-lt [] i a h = absurd (ground arith)
get_elem?-lt (x ∷ xs) zero a h = omega arith
get_elem?-lt (x ∷ xs) (suc i) a h = omega (arith, get_elem?-lt xs i a h)

record_in-of_slot :
    (p : HeapPage) (i : ℕ) (r : Record) → slot p i ≡ some r → get_elem? p.records i ≡ some r
record_in-of_slot p i r h = ground arith

pub slot-lt : (p : HeapPage) (i : ℕ) (r : Record) → IsShaped p → slot p i ≡ some r → i < p.num_slots
slot-lt p i r v h =
    omega (arith, v.records_length, get_elem?-lt p.records i r (record_in-of_slot p i r h))

remove_record-ok :
    (p : HeapPage) (i : ℕ) (header : List ℕ)
    → i < p.num_slots
    → tuple_present p.header (pos i) ≡ ok true
    → mark_free p.header (pos i) ≡ ok header
    → remove_record p (rid_at p.pid i)
      ≡ ok (record p { header = header; free_space = p.free_space + 1 })
unfolding remove_record
remove_record-ok p i header h present freed =
    ground (arith, ==_refl p.pid.table_id, ==_refl p.pid.page_no)

-- Removing a record that the page holds: it succeeds, the page stays well formed, the record's slot
-- becomes empty, every other slot keeps its record, and one slot more is free.
pub remove_record_lem :
    (max : ℕ) (p : HeapPage) (i : ℕ) (r : Record)
    → IsValid max p
    → slot p i ≡ some r
    → (p' : HeapPage) × (remove_record p r.rid ≡ ok p')
      × IsValid max p'
      × (slot p' i ≡ none)
      × ((j : ℕ) → i ≢ j → slot p' j ≡ slot p j)
      × (p'.free_space ≡ p.free_space + 1)
remove_record_lem max p i r v h =
    let lt = slot-lt p i r v.shaped h in
    let bound = slot_bound v.shaped i lt in
    let was = bit-of_slot p i r h in
    let (header, freed, u) = mark_free-Updates p.header i bound v.shaped.bytes in
    (
      record p { header = header; free_space = p.free_space + 1 },
      ap (remove_record p) (v.stored i r h).1
          ∙ remove_record-ok p i header lt (tuple_present-bit p.header i bound ∙ ap ok was) freed,
      record {
        shaped = record {
          slots = v.shaped.slots;
          header_length = u.same_length ∙ v.shaped.header_length;
          bytes = u.bytes;
          records_length = v.shaped.records_length;
        };
        free = omega (
          arith,
          v.free,
          free_count-freed p.header header p.num_slots 0 i (omega arith) (omega arith) was u,
        );
        stored = λ j x e. elim (Bool-cases (i == j)) [
          | inl same ↦ absurd (gone header i j x u.slot ((==_iff i j).0 same) e)
          | inr other ↦ v.stored j x (sym (rw (u.others j (ground arith)) refl) ∙ e)
        ];
      },
      rw u.slot refl,
      λ j ne. rw (u.others j ne) refl,
      refl,
    )
  where
    gone :
        (header : List ℕ) (i j : ℕ) (x : Record)
        → bit header i ≡ false
        → i ≡ j
        → (if bit header j then get_elem? p.records j else none) ≡ some x
        → ⊥
    gone header i j x b e h = ground arith

bit-of_empty :
    (p : HeapPage) (i : ℕ) → i < length p.records → slot p i ≡ none → bit p.header i ≡ false
bit-of_empty p i h e = let (r, found) = get_elem?-of_lt p.records i h in ground arith

or-true : (b : Bool) → (b || true) ≡ true
or-true true = refl
or-true false = refl

-- The records that a page refuses to remove, each with its error.
pub data Refusal (p : HeapPage) : RecordId → Code → Type 0 where
  before :
      (pid : PageId) (i : ℕ) → Refusal p (record { pid = pid; tuple_no = negsuc i }) out_of_range
  behind : (pid : PageId) (i : ℕ) → p.num_slots ≤ i → Refusal p (rid_at pid i) out_of_range
  foreign :
      (pid : PageId) (i : ℕ)
      → i < p.num_slots
      → page_eq pid p.pid ≡ false
      → Refusal p (rid_at pid i) invalid_argument
  empty :
      (pid : PageId) (i : ℕ)
      → i < p.num_slots
      → slot p i ≡ none
      → Refusal p (rid_at pid i) invalid_argument

-- On a page of the right shape each of these is refused with its error: a tuple number outside the
-- page as out of range, a record of another page or an empty slot as an invalid argument.
pub remove_record_refused :
    (p : HeapPage) {rid : RecordId} {c : Code}
    → IsShaped p
    → Refusal p rid c
    → remove_record p rid ≡ err c
unfolding remove_record
remove_record_refused p v (Refusal.before pid i) = refl
remove_record_refused p v (Refusal.behind pid i h) = ground arith
remove_record_refused p v (Refusal.foreign pid i h other) =
    rw (lt→ltb i p.num_slots h, remove_record)
      (rw (tuple_present-bit p.header i (slot_bound v i h), other) refl)
remove_record_refused p v (Refusal.empty pid i h e) =
    rw (lt→ltb i p.num_slots h, remove_record)
      (rw
        (
          tuple_present-bit p.header i (slot_bound v i h),
          bit-of_empty p i (omega (arith, v.records_length)) e,
          or-true (not (page_eq pid p.pid)),
        )
        refl)
