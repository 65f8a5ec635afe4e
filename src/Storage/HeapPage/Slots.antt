-- ===== src/Storage/HeapPage/Slots.antt =====
-- A page as a function from slot numbers to records (komfydb/storage/heap_page.cc).
use komfy_db.Base.{
  ℕ, zero, suc, ◌+◌, ◌/◌, ◌≤◌, ◌<◌, ◌≡◌, refl, ap, ◌∙◌, List, [], ◌∷◌, if◌then◌else◌, Option, none,
  some, arith, Bytes, length, get_elem?,
}
use komfy_db.Base.Int.{pos}
use komfy_db.Base.Status.{ok}
use komfy_db.Common.Tuple.{Tuple}
use komfy_db.Common.TupleDesc.{TdItem}
use komfy_db.Storage.Codec.RoundTrip.{IsStorable}
use komfy_db.Storage.Header.Bits.{bit, AreBytes, tuple_present-bit}
use komfy_db.Storage.Ids.{PageId, RecordId, Record}
use komfy_db.Storage.HeapPage.{HeapPage, slots_of, header_len_of, records_from, get_records}

-- The record that a slot holds.
abbrev pub slot_in : Bytes → List Record → ℕ → Option Record
slot_in header records i = if bit header i then get_elem? records i else none

-- The same, where the record stands at another index.
abbrev pub slot_in_part : Bytes → ℕ → List Record → ℕ → Option Record
slot_in_part header k records j = if bit header k then get_elem? records j else none

abbrev pub slot : HeapPage → ℕ → Option Record
slot p i = slot_in p.header p.records i

abbrev pub cons? {ℓ} : {A : Type ℓ} → Option A → List A → List A
cons? none xs = xs
cons? (some x) xs = x ∷ xs

-- The records in `left` slots from slot `i`.
unfoldable pub occupied : (ℕ → Option Record) → (left i : ℕ) → List Record
occupied s zero i = []
occupied s (suc left) i = cons? (s i) (occupied s left (suc i))

-- The number of free slots among them.
unfoldable pub free_count : Bytes → (left i : ℕ) → ℕ
free_count header zero i = 0
free_count header (suc left) i = (if bit header i then 0 else 1) + free_count header left (suc i)

abbrev pub rid_at : PageId → ℕ → RecordId
rid_at pid i = record { pid = pid; tuple_no = pos i }

-- A tuple with a storable value in each column.
abbrev pub Fits : ℕ → List TdItem → Tuple → Type 0
Fits max [] [] = Unit
Fits max [] (f ∷ t) = ⊥
Fits max (item ∷ items) [] = ⊥
Fits max (item ∷ items) (none ∷ t) = ⊥
Fits max (item ∷ items) (some f ∷ t) = IsStorable max item.field_type f × Fits max items t

-- The arrays of a page have the sizes that the schema gives.
pub record IsShaped (p : HeapPage) : Type 0 where
  pub slots : p.num_slots ≡ slots_of p.tuple_desc
  pub header_length : length p.header ≡ header_len_of p.tuple_desc
  pub bytes : AreBytes p.header
  pub records_length : length p.records ≡ p.num_slots

-- Each record fits the schema and knows its place.
abbrev pub IsStored : ℕ → HeapPage → Type 0
IsStored max p =
    (j : ℕ) (r : Record)
    → slot p j ≡ some r
    → Fits max p.tuple_desc.items r.tuple × (r.rid ≡ rid_at p.pid j)

-- A well-formed page, with strings of at most `max` bytes.
pub record IsValid (max : ℕ) (p : HeapPage) : Type 0 where
  pub shaped : IsShaped p
  pub free : p.free_space ≡ free_count p.header p.num_slots 0
  pub stored : IsStored max p

-- Every slot has a bit.
pub slot_bound : {p : HeapPage} → IsShaped p → (i : ℕ) → i < p.num_slots → i / 8 < length p.header
unfolding header_len_of
slot_bound v i h = omega (arith, v.slots, v.header_length)

pub occupied-cong :
    (s s' : ℕ → Option Record) (left i : ℕ)
    → ((j : ℕ) → i ≤ j → s' j ≡ s j)
    → occupied s' left i ≡ occupied s left i
unfolding occupied
occupied-cong s s' zero i h = refl
occupied-cong s s' (suc left) i h =
    rw (h i (omega arith), occupied-cong s s' left (suc i) (λ j k. h j (omega arith)))

pub free_count-cong :
    (header header' : Bytes) (left i : ℕ)
    → ((j : ℕ) → i ≤ j → bit header' j ≡ bit header j)
    → free_count header' left i ≡ free_count header left i
unfolding free_count
free_count-cong header header' zero i h = refl
free_count-cong header header' (suc left) i h =
    rw (h i (omega arith), free_count-cong header header' left (suc i) (λ j k. h j (omega arith)))

records_from-occupied :
    (header : Bytes) (i : ℕ) (records : List Record) (s : ℕ → Option Record)
    → ((j : ℕ) → j < i + length records → j / 8 < length header)
    → ((j k : ℕ) → k ≡ i + j → s k ≡ slot_in_part header k records j)
    → records_from header i records ≡ ok (occupied s (length records) i)
unfolding records_from occupied
records_from-occupied header i [] s h e = refl
records_from-occupied header i (r ∷ rs) s h e =
    rw
      (
        tuple_present-bit header i (h i (omega arith)),
        records_from-occupied header (suc i) rs s (λ j k. h j (omega arith))
            (λ j k q. e (suc j) k (omega arith)),
        e 0 i (omega arith),
      )
      (ground arith)

-- `GetRecords` returns the records of the occupied slots, in the order of the slots, and no other.
pub get_records-occupied :
    (p : HeapPage) → IsShaped p → get_records p ≡ ok (occupied (slot p) p.num_slots 0)
unfolding get_records
get_records-occupied p v =
    records_from-occupied p.header 0 p.records (slot p)
      (λ j h. slot_bound v j (omega (arith, v.records_length)))
      (λ j k q. ap (slot_in_part p.header k p.records) (omega arith))
    ∙ ap (λ n. ok (occupied (slot p) n 0)) v.records_length
