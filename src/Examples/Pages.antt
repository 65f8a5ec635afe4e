-- ===== src/Examples/Pages.antt =====
-- Examples for heap pages and heap files.
use mathlib.Core.List.{Perm}
use mathlib.Core.Path.{subst}
use komfy_db.Base.{
  ℕ, ◌+◌, ◌<◌, ◌≡◌, refl, sym, ap, ◌≢◌, inl, true, [], ◌∷◌, ◌++◌, some, none, arith, Bytes, take,
  replicate, codes, length,
}
use komfy_db.Base.Status.{ok, err, invalid_argument}
use komfy_db.Common.Field.{get_len}
use komfy_db.Common.TupleDesc.{get_size}
use komfy_db.Storage.Codec.{parse_field, dump_field}
use komfy_db.Storage.Codec.RoundTrip.{HasNoNul}
use komfy_db.Storage.Header.{tuple_present, mark_occupied, mark_free}
use komfy_db.Storage.Ids.{Record}
use komfy_db.Storage.HeapFile.{HeapFile, page_pos, read_page, write_page}
use komfy_db.Storage.HeapFile.RoundTrip.{read_page-write_page}
use komfy_db.Storage.HeapPage.{
  HeapPage, page_size, add_tuples, remove_record, create, get_page_data, get_records, slots_of,
  header_len_of,
}
use komfy_db.Storage.HeapPage.Add.{add_tuples_lem}
use komfy_db.Storage.HeapPage.Filling.{AllFit, held}
use komfy_db.Storage.HeapPage.Empty.{empty_page, empty_page-IsValid}
use komfy_db.Storage.HeapPage.Remove.{remove_record_lem, Refusal, remove_record_refused}
use komfy_db.Storage.HeapPage.RoundTrip.{create-get_page_data}
use komfy_db.Storage.HeapPage.Slots.{slot, occupied, rid_at, IsValid, get_records-occupied}
use komfy_db.Examples.{people, first_page, ann, bob, ann_record, bob_record}

page_program : Unit {0}
unfolding add_tuples remove_record create get_size tuple_present get_len get_page_data get_records
    slots_of header_len_of dump_field parse_field mark_occupied mark_free
page_program = tt

abbrev blank : HeapPage
blank = empty_page first_page people

-- the page after an insertion
abbrev two : HeapPage
two = (add_tuples (ann ∷ bob ∷ []) 2 blank).0

ann_name : HasNoNul (codes "Ann")
ann_name = ((λ e. omega arith), ((λ e. omega arith), ((λ e. omega arith), tt)))

bob_name : HasNoNul (codes "Bob")
bob_name = ((λ e. omega arith), ((λ e. omega arith), ((λ e. omega arith), tt)))

both_fit : AllFit 16 people.items (ann ∷ bob ∷ [])
both_fit = ((refl, ((omega arith, ann_name), tt)), ((refl, ((omega arith, bob_name), tt)), tt))

thirty : blank.free_space ≡ 30
unfolding page_program
thirty = refl

two-IsValid : IsValid 16 two
two-IsValid =
    let (p', run, v, _, _, _) =
      add_tuples_lem 16 2 (ann ∷ bob ∷ []) blank (empty_page-IsValid 16 first_page people)
        (omega (arith, thirty)) (omega arith) both_fit in
    subst (IsValid 16) (sym (ap (λ r. r.0) run)) v

test_free : two.free_space ≡ 28
unfolding page_program
test_free = refl

test_records : get_records two ≡ ok (ann_record ∷ bob_record ∷ [])
unfolding page_program
test_records = refl

create-get_page_data_example :
    (image : Bytes) × (p' : HeapPage) × (get_page_data two ≡ ok image)
    × (length image ≡ page_size)
    × (create two.pid two.tuple_desc image ≡ ok p')
    × (p'.header ≡ two.header)
    × ((j : ℕ) → slot p' j ≡ slot two j)
    × (get_records p' ≡ get_records two)
    × (p'.free_space ≡ two.free_space)
create-get_page_data_example =
    create-get_page_data 16 two two-IsValid (omega arith) (inl (omega arith))

add_tuples_lem_example :
    (p' : HeapPage) × (add_tuples (ann ∷ bob ∷ []) 2 blank ≡ (p', ok tt))
    × IsValid 16 p'
    × ((j : ℕ) (r : Record) → slot blank j ≡ some r → slot p' j ≡ some r)
    × Perm (held p' p'.num_slots 0) (take 2 (ann ∷ bob ∷ []) ++ held blank blank.num_slots 0)
    × (p'.free_space + 2 ≡ blank.free_space)
add_tuples_lem_example =
    add_tuples_lem 16 2 (ann ∷ bob ∷ []) blank (empty_page-IsValid 16 first_page people)
      (omega (arith, thirty)) (omega arith) both_fit

bob_slot : slot two 1 ≡ some bob_record
unfolding page_program
bob_slot = refl

remove_record_lem_example :
    (p' : HeapPage) × (remove_record two bob_record.rid ≡ ok p')
    × IsValid 16 p'
    × (slot p' 1 ≡ none)
    × ((j : ℕ) → 1 ≢ j → slot p' j ≡ slot two j)
    × (p'.free_space ≡ two.free_space + 1)
remove_record_lem_example = remove_record_lem 16 two 1 bob_record two-IsValid bob_slot

third_empty : Refusal two (rid_at first_page 2) invalid_argument
unfolding page_program
third_empty = Refusal.empty first_page 2 (omega arith) refl

remove_record_refused_example : remove_record two (rid_at first_page 2) ≡ err invalid_argument
remove_record_refused_example = remove_record_refused two two-IsValid.shaped third_empty

get_records-occupied_example : get_records two ≡ ok (occupied (slot two) two.num_slots 0)
get_records-occupied_example = get_records-occupied two two-IsValid.shaped

abbrev people_file : HeapFile
people_file = record {
  file = record { contents = replicate 8192 0; writable = true; good = true };
  tuple_desc = people;
  file_length = 8192;
  table_id = 7;
}

two_table : two.pid.table_id ≡ 7
unfolding page_program
two_table = refl

two_inside : page_pos two.pid < 8192
unfolding page_program
two_inside = omega arith

two_schema : two.tuple_desc ≡ people
unfolding page_program
two_schema = refl

read_page-write_page_example :
    (p' : HeapPage) × ((write_page people_file two).1 ≡ ok tt)
    × ((read_page (write_page people_file two).0 two.pid).1 ≡ ok p')
    × ((j : ℕ) → slot p' j ≡ slot two j)
    × (get_records p' ≡ get_records two)
read_page-write_page_example =
    read_page-write_page 16 people_file two refl refl two_table two_inside two_schema two-IsValid
      (omega arith) (inl (omega arith))

abbrev ann_dump : Bytes
ann_dump = 0 ∷ 0 ∷ 0 ∷ 3 ∷ codes "Ann" ++ replicate 125 0

abbrev ann_bytes : Bytes
ann_bytes = 9 ∷ 9 ∷ ann_dump
