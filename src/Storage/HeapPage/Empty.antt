-- ===== src/Storage/HeapPage/Empty.antt =====
-- A page of zeros, as `HeapFile::CreatePage` makes it (komfydb/storage/heap_page.cc).
use komfy_db.Base.{
  ℕ, zero, suc, ◌+◌, ◌*◌, ◌≤◌, ◌≡◌, refl, sym, ◌∙◌, ap, false, List, [], ◌∷◌, none, some, arith,
  Bytes, length, take, replicate, length-replicate, ltb,
}
use komfy_db.Base.Status.{ok}
use komfy_db.Common.Tuple
use komfy_db.Common.TupleDesc.{TupleDesc, get_size}
use komfy_db.Storage.Header.Bits.{bit-replicate, AreBytes-replicate, tuple_present-bit}
use komfy_db.Storage.Ids.{PageId, Record}
use komfy_db.Storage.HeapPage.{
  HeapPage, page_size, no_tid, slots_of, header_len_of, parse_slot, parse_slots, create,
}
use komfy_db.Storage.HeapPage.RoundTrip.{slots_fit}
use komfy_db.Storage.HeapPage.Slots.{slot, free_count, rid_at, IsValid}

-- the records of `left` free slots from slot `i`
abbrev blank_records : PageId → TupleDesc → (left i : ℕ) → List Record
blank_records pid td zero i = []
blank_records pid td (suc left) i =
    record { tuple = Tuple.make (length td.items); rid = rid_at pid i }
    ∷ blank_records pid td left (suc i)

-- the page that has nothing in it
abbrev pub empty_page : PageId → TupleDesc → HeapPage
empty_page pid td = record {
  header = replicate (header_len_of td) 0;
  records = blank_records pid td (slots_of td) 0;
  old_data = [];
  last_transaction = no_tid;
  tuple_desc = td;
  pid = pid;
  num_slots = slots_of td;
  free_space = slots_of td;
  is_dirty = false;
}

parse_slots-zeros :
    (pid : PageId) (td : TupleDesc) (all : Bytes) (h left i idx : ℕ)
    → i + left ≤ 8 * h
    → parse_slots pid td (replicate h 0) all left i idx ≡ ok (blank_records pid td left i, left)
unfolding parse_slots parse_slot
parse_slots-zeros pid td all h zero i idx fits = refl
parse_slots-zeros pid td all h (suc left) i idx fits =
    rw
      (
        tuple_present-bit (replicate h 0) i (omega (arith, length-replicate {A = ℕ} h 0)),
        bit-replicate h i,
        parse_slots-zeros pid td all h left (suc i) (idx + get_size td) (omega arith),
      )
      (ap (λ n. ok (blank_records pid td (suc left) i, n)) (omega arith))

take-replicate : (m n : ℕ) → m ≤ n → take m (replicate {A = ℕ} n 0) ≡ replicate m 0
take-replicate zero n h = refl
take-replicate (suc m) zero h = absurd (omega arith)
take-replicate (suc m) (suc n) h = ap (◌∷◌ 0) (take-replicate m n (omega arith))

length-blank_records :
    (pid : PageId) (td : TupleDesc) (left i : ℕ) → length (blank_records pid td left i) ≡ left
length-blank_records pid td zero i = refl
length-blank_records pid td (suc left) i = ap suc (length-blank_records pid td left (suc i))

free_count-zeros : (h left i : ℕ) → free_count (replicate h 0) left i ≡ left
unfolding free_count
free_count-zeros h zero i = refl
free_count-zeros h (suc left) i =
    rw (bit-replicate h i, free_count-zeros h left (suc i)) (omega arith)

slot-empty_page : (pid : PageId) (td : TupleDesc) (j : ℕ) → slot (empty_page pid td) j ≡ none
slot-empty_page pid td j = rw (bit-replicate (header_len_of td) j) refl

pub empty_page-IsValid : (max : ℕ) (pid : PageId) (td : TupleDesc) → IsValid max (empty_page pid td)
empty_page-IsValid max pid td = record {
  shaped = record {
    slots = refl;
    header_length = length-replicate (header_len_of td) 0;
    bytes = AreBytes-replicate (header_len_of td);
    records_length = length-blank_records pid td (slots_of td) 0;
  };
  free = sym (free_count-zeros (header_len_of td) (slots_of td) 0);
  stored = λ j r e. absurd (none_some (sym (slot-empty_page pid td j) ∙ e));
}
  where
    none_some : {r : Record} → none ≡ some r → ⊥
    none_some e = cc

bits_fit : (td : TupleDesc) → 0 + slots_of td ≤ 8 * header_len_of td
unfolding header_len_of
bits_fit td = omega arith

create-replicate :
    (n : ℕ) (pid : PageId) (td : TupleDesc)
    → header_len_of td ≤ n
    → create pid td (replicate n 0) ≡ ok (empty_page pid td)
unfolding create
create-replicate n pid td h =
    rw
      (
        take-replicate (header_len_of td) n h,
        parse_slots-zeros pid td (replicate n 0) (header_len_of td) (slots_of td) 0
            (header_len_of td) (bits_fit td),
        enough (length-replicate {A = ℕ} n 0),
      )
      refl
  where
    enough :
        length (replicate {A = ℕ} n 0) ≡ n
        → ltb (length (replicate {A = ℕ} n 0)) (header_len_of td) ≡ false
    enough e = ground arith

-- `Create` on a page of zeros, for any schema: it succeeds, the page is well formed, every slot is
-- empty and counted as free.
pub create-zeros :
    (max : ℕ) (pid : PageId) (td : TupleDesc)
    → (p : HeapPage) × (create pid td (replicate page_size 0) ≡ ok p)
      × IsValid max p
      × ((j : ℕ) → slot p j ≡ none)
      × (p.free_space ≡ slots_of td)
create-zeros max pid td = (
  empty_page pid td,
  create-replicate page_size pid td (omega (arith, slots_fit td)),
  empty_page-IsValid max pid td,
  slot-empty_page pid td,
  refl,
)
