-- ===== src/Storage/HeapPage.antt =====
-- Heap pages: komfydb/storage/heap_page.h and heap_page.cc. The locks of the before image and the
-- messages of errors are left out.
pub mod Slots
pub mod Empty
pub mod Remove
pub mod Dumps
pub mod Reread
pub mod RoundTrip
pub mod Filling
pub mod Add
use komfy_db.Base.{
  ℕ, zero, suc, ◌+◌, ◌-◌, ◌*◌, ◌/◌, ◌^◌, Bool, true, false, not, ◌||◌, List, [], ◌∷◌, ◌++◌, map,
  if◌then◌else◌, ltb, leb, ◌==◌, Bytes, length, drop, take, set, replicate, Option, none, some,
}
use komfy_db.Base.Int.{ℤ, pos, negsuc}
use komfy_db.Base.Status.{
  StatusOr, Status, ok, err, fault, no_fuel, ◌>>=◌, ◌>>◌, or_fault, or_err, value, invalid_argument,
  out_of_range, failed_precondition,
}
use komfy_db.Common.Field.{Field}
use komfy_db.Common.Tuple
use komfy_db.Common.Tuple.{Tuple}
use komfy_db.Common.TupleDesc.{TdItem, TupleDesc, get_size}
use komfy_db.Storage.Header.{tuple_present, mark_occupied, mark_free}
use komfy_db.Storage.Ids.{PageId, RecordId, Record, page_eq}
use komfy_db.Storage.Codec.{parse_field, dump_field}

-- `CONFIG_PAGE_SIZE`
abbrev pub page_size : ℕ
page_size = 2 ^ 12

abbrev pub no_tid : ℕ
no_tid = 0

pub record HeapPage : Type 0 where
  pub header : Bytes
  pub records : List Record
  pub old_data : Bytes
  pub last_transaction : ℕ
  pub tuple_desc : TupleDesc
  pub pid : PageId
  pub num_slots : ℕ
  pub free_space : ℕ
  pub is_dirty : Bool

-- `n_slots` and `header_len` of `Create`.
unfoldable pub slots_of : TupleDesc → ℕ
slots_of td = page_size * 8 / (get_size td * 8 + 1)

unfoldable pub header_len_of : TupleDesc → ℕ
unfolding slots_of
header_len_of td = (slots_of td + 7) / 8

-- The inner loop of `Create`: the fields of a record, and the index after them.
unfoldable pub parse_record : List TdItem → Bytes → ℕ → StatusOr (Tuple × ℕ)
parse_record [] all idx = ok ([], idx)
parse_record (item ∷ rest) all idx = do
  (f, idx') ← parse_field item.field_type all idx
  (fs, idx'') ← parse_record rest all idx'
  ok (some f ∷ fs, idx'')

-- One round of the outer loop: the tuple, the index after it, and the free slots counted.
unfoldable pub parse_slot : TupleDesc → Bytes → Bool → ℕ → StatusOr (Tuple × ℕ × ℕ)
unfolding parse_record
parse_slot td all false idx = ok (Tuple.make (length td.items), idx + get_size td, 1)
parse_slot td all true idx = do (t, idx') ← parse_record td.items all idx; ok (t, idx', 0)

-- The outer loop, over `left` slots from slot `i`: the records and the number of free slots.
unfoldable pub parse_slots :
    PageId → TupleDesc → Bytes → Bytes → (left i idx : ℕ) → StatusOr (List Record × ℕ)
unfolding parse_slot
parse_slots pid td header all zero i idx = ok ([], 0)
parse_slots pid td header all (suc left) i idx = do
  present ← value (tuple_present header (pos i))
  (t, idx', free) ← parse_slot td all present idx
  (rest, free') ← parse_slots pid td header all left (suc i) idx'
  ok (record { tuple = t; rid = record { pid = pid; tuple_no = pos i } } ∷ rest, free + free')

-- `HeapPage::Create`. Data shorter than the header would be read out of bounds.
unfoldable pub create : PageId → TupleDesc → Bytes → StatusOr HeapPage
unfolding header_len_of slots_of parse_slots
create pid td all =
    let n_slots = slots_of td in
    let header_len = header_len_of td in
    let header = take header_len all in
    do
      (if ltb (length all) header_len then fault else ok tt)
      (records, free) ← parse_slots pid td header all n_slots 0 header_len
      ok (record {
        header = header;
        records = records;
        old_data = [];
        last_transaction = no_tid;
        tuple_desc = td;
        pid = pid;
        num_slots = n_slots;
        free_space = free;
        is_dirty = false;
      })

-- `SetDirty`: the argument `dirty` is not looked at.
unfoldable pub set_dirty : HeapPage → Bool → ℕ → HeapPage
set_dirty p dirty tid = record p { last_transaction = tid; is_dirty = true }

-- The inner loop of `GetPageData`: the fields of a record, in the order of the schema.
unfoldable pub dump_record : List TdItem → Tuple → StatusOr Bytes
dump_record [] t = ok []
dump_record (item ∷ rest) [] = err invalid_argument
dump_record (item ∷ rest) (none ∷ t) = err invalid_argument
dump_record (item ∷ rest) (some f ∷ t) = do
  b ← dump_field item.field_type f
  bs ← dump_record rest t
  ok (b ++ bs)

-- `records[i]`, when `records` starts at slot `i`
abbrev pub record_here : List Record → StatusOr Record
record_here [] = fault
record_here (r ∷ rs) = ok r

abbrev pub later_records : List Record → List Record
later_records [] = []
later_records (r ∷ rs) = rs

unfoldable pub dump_slot : TupleDesc → Bool → List Record → StatusOr Bytes
unfolding dump_record
dump_slot td false rs = ok (replicate (get_size td) 0)
dump_slot td true rs = do r ← record_here rs; dump_record td.items r.tuple

-- The outer loop, over `left` slots from slot `i`; the records are those from slot `i`.
unfoldable pub dump_slots : TupleDesc → Bytes → (left i : ℕ) → List Record → StatusOr Bytes
unfolding dump_slot
dump_slots td header zero i rs = ok []
dump_slots td header (suc left) i rs = do
  present ← tuple_present header (pos i)
  b ← dump_slot td present rs
  bs ← dump_slots td header left (suc i) (later_records rs)
  ok (b ++ bs)

-- `GetPageData`. More bytes than a page would make the padding a huge count, and `insert` throw.
unfoldable pub get_page_data : HeapPage → StatusOr Bytes
unfolding dump_slots
get_page_data p = do
  bs ← dump_slots p.tuple_desc p.header p.num_slots 0 p.records
  let all = p.header ++ bs
  if leb (length all) page_size then ok (all ++ replicate (page_size - length all) 0) else fault

-- `SetBeforeImage` and `GetBeforeImage`
unfoldable pub set_before_image : HeapPage → HeapPage × Status
unfolding get_page_data
set_before_image p = elim (get_page_data p) [
  | ok all ↦ (record p { old_data = all }, ok tt)
  | err c ↦ (p, err c)
  | fault ↦ (p, fault)
  | no_fuel ↦ (p, no_fuel)
]

unfoldable pub get_before_image : HeapPage → StatusOr HeapPage
unfolding create
get_before_image p = create p.pid p.tuple_desc p.old_data

-- The loop of `GetRecords` from slot `i`.
unfoldable pub records_from : Bytes → ℕ → List Record → StatusOr (List Record)
records_from header i [] = ok []
records_from header i (r ∷ rs) = do
  present ← value (tuple_present header (pos i))
  rest ← records_from header (suc i) rs
  ok (if present then r ∷ rest else rest)

unfoldable pub get_records : HeapPage → StatusOr (List Record)
unfolding records_from
get_records p = records_from p.header 0 p.records

-- `records[i] = Record(*tuples[j], RecordId(pid, i))` and the mark before it.
unfoldable pub place : HeapPage → ℕ → Tuple → HeapPage × Status
place p i t = elim (mark_occupied p.header (pos i)) [
  | ok header ↦ (
    record p {
      header = header;
      records =
          set p.records i (record { tuple = t; rid = record { pid = p.pid; tuple_no = pos i } });
    },
    ok tt,
  )
  | err c ↦ (p, err c)
  | fault ↦ (p, fault)
  | no_fuel ↦ (p, no_fuel)
]

-- The loop of `AddTuples` over `left` slots from slot `i`, with `num` tuples still to be added, the
-- first of `ts` next.
unfoldable pub add_loop : (left i num : ℕ) → List Tuple → HeapPage → HeapPage × Status
unfolding place
add_loop zero i num ts p = (p, ok tt)
add_loop (suc left) i zero ts p = (p, ok tt)
add_loop (suc left) i (suc num) ts p = elim (tuple_present p.header (pos i)) [
  | ok true ↦ add_loop left (suc i) (suc num) ts p
  | ok false ↦ elim ts [
    | [] ↦ (p, fault)
    | t ∷ rest ↦
        let (p', s) = place p i t in
        let more = add_loop left (suc i) num rest p' in elim s [ ok _ ↦ more | other ↦ (p', other) ]
  ]
  | err c ↦ (p, err c)
  | fault ↦ (p, fault)
  | no_fuel ↦ (p, no_fuel)
]

-- `AddTuples`: `ts` are the tuples from the pointer on.
unfoldable pub add_tuples : List Tuple → ℕ → HeapPage → HeapPage × Status
unfolding add_loop
add_tuples ts num p =
    if ltb p.free_space num
    then (p, err failed_precondition)
    else let (p', s) = add_loop p.num_slots 0 num ts p in
      elim s [
        | ok _ ↦ (record p' { free_space = p'.free_space - num }, ok tt)
        | other ↦ (p', other)
      ]

-- `RemoveRecord` at a tuple number in range.
unfoldable pub remove_at : HeapPage → PageId → ℕ → StatusOr HeapPage
remove_at p pid i = do
  occupied ← tuple_present p.header (pos i)
  (if not (page_eq pid p.pid) || not occupied then err invalid_argument else ok tt)
  header ← mark_free p.header (pos i)
  ok (record p { header = header; free_space = p.free_space + 1 })

-- `RemoveRecord`: after an error the page is as it was.
unfoldable pub remove_record : HeapPage → RecordId → StatusOr HeapPage
unfolding remove_at
remove_record p rid = elim rid.tuple_no [
  | negsuc n ↦ err out_of_range
  | pos i ↦ if ltb i p.num_slots then remove_at p rid.pid i else err out_of_range
]

-- `GetFreeSpace`
abbrev pub get_free_space : HeapPage → ℕ
get_free_space p = p.free_space
