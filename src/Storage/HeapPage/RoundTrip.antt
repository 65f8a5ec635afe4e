-- ===== src/Storage/HeapPage/RoundTrip.antt =====
-- Writing a page out and reading it back: `GetPageData` and `Create` of
-- komfydb/storage/heap_page.cc.
use mathlib.Core.List.{append_assoc, append-nil}
use mathlib.Core.Path.{subst}
use komfy_db.Base.{
  drop-append, take-append, ℕ, ◌+◌, ◌-◌, ◌*◌, ◌/◌, ◌≤◌, ◌<◌, ◌≡◌, refl, sym, ap, ◌∙◌, ◌⊎◌, inl, inr,
  false, [], ◌++◌, arith, Bytes, length, length-append, length-replicate, drop, take, replicate,
  le→ltb_false,
}
use native.Mathlib.Nat.{div-mul-le_self}
use komfy_db.Base.Status.{ok}
use komfy_db.Common.TupleDesc.{TupleDesc, get_size}
use komfy_db.Storage.Codec.RoundTrip.{Room, HasNul, HasNul-replicate}
use komfy_db.Storage.HeapPage.{
  HeapPage, page_size, slots_of, header_len_of, no_tid, parse_slots, create, dump_slots,
  get_page_data, get_records,
}
use komfy_db.Storage.HeapPage.Slots.{
  slot, slot_in_part, occupied, occupied-cong, free_count, IsShaped, IsValid, slot_bound,
  get_records-occupied,
}
use komfy_db.Storage.HeapPage.Dumps.{reread, reread_all, ReadsSlots, dump_slots-ok}
use komfy_db.Storage.HeapPage.Reread.{length-reread_all, slot-reread}

-- the header and the slots leave no more than a page
pub slots_fit : (td : TupleDesc) → header_len_of td + slots_of td * get_size td ≤ page_size
unfolding header_len_of slots_of
slots_fit td = fit_of (slots_of td) (get_size td) (div-mul-le_self 32768 (get_size td * 8 + 1))
  where
    fit_of : (n z : ℕ) → n * (z * 8 + 1) ≤ 32768 → (n + 7) / 8 + n * z ≤ 4096
    fit_of n z h = omega arith

-- Some byte of the page follows the last slot.
abbrev pub HasSlack : TupleDesc → Type 0
HasSlack td = header_len_of td + slots_of td * get_size td < page_size

-- the bytes of a page whose slots dump to `bs`
abbrev image_of : HeapPage → Bytes → Bytes
image_of p bs = (p.header ++ bs) ++ replicate (page_size - length (p.header ++ bs)) 0

get_page_data-image :
    (p : HeapPage) (bs : Bytes)
    → dump_slots p.tuple_desc p.header p.num_slots 0 p.records ≡ ok bs
    → length (p.header ++ bs) ≤ page_size
    → get_page_data p ≡ ok (image_of p bs)
unfolding get_page_data
get_page_data-image p bs e h = rw (e, get_page_data) (ground arith)

length-image_of :
    (p : HeapPage) (bs : Bytes)
    → length (p.header ++ bs) ≤ page_size
    → length (image_of p bs) ≡ page_size
length-image_of p bs h = omega (
  arith,
  length-append (p.header ++ bs) (replicate (page_size - length (p.header ++ bs)) 0),
  length-replicate {0} {A = ℕ} (page_size - length (p.header ++ bs)) 0,
)

-- the page that `Create` makes of those bytes
abbrev pub reread_page : HeapPage → HeapPage
reread_page p = record p {
  records = reread_all (length p.tuple_desc.items) p.pid (slot p) p.num_slots 0;
  old_data = [];
  last_transaction = no_tid;
  num_slots = slots_of p.tuple_desc;
  free_space = free_count p.header p.num_slots 0;
  is_dirty = false;
}

create-of_parts :
    (p : HeapPage) (image : Bytes)
    → header_len_of p.tuple_desc ≤ length image
    → take (header_len_of p.tuple_desc) image ≡ p.header
    → parse_slots p.pid p.tuple_desc p.header image
        (slots_of p.tuple_desc)
        0
        (header_len_of p.tuple_desc)
      ≡ ok (
        reread_all (length p.tuple_desc.items) p.pid (slot p) p.num_slots 0,
        free_count p.header p.num_slots 0,
      )
    → create p.pid p.tuple_desc image ≡ ok (reread_page p)
unfolding create
create-of_parts p image h e parsed =
    rw (le→ltb_false (length image) (header_len_of p.tuple_desc) h, e, parsed, create) refl

image_fits :
    (p : HeapPage) (bs : Bytes)
    → IsShaped p
    → length bs ≡ p.num_slots * get_size p.tuple_desc
    → length (p.header ++ bs) ≤ page_size
image_fits p bs v len = omega (
  arith,
  length-append p.header bs,
  len ∙ ap (λ n. n * get_size p.tuple_desc) v.slots,
  v.header_length,
  slots_fit p.tuple_desc,
)

reread_page-IsShaped : (p : HeapPage) → IsShaped p → IsShaped (reread_page p)
reread_page-IsShaped p v = record {
  slots = refl;
  header_length = v.header_length;
  bytes = v.bytes;
  records_length =
      length-reread_all (length p.tuple_desc.items) p.pid (slot p) p.num_slots 0 ∙ v.slots;
}

-- the padding leaves a NUL behind the last string
Room-padding :
    (max : ℕ) (p : HeapPage) (bs : Bytes)
    → IsShaped p
    → (max < 128) ⊎ HasSlack p.tuple_desc
    → length bs ≡ p.num_slots * get_size p.tuple_desc
    → Room max (replicate (page_size - length (p.header ++ bs)) 0)
Room-padding max p bs v (inl h) len = inl h
Room-padding max p bs v (inr slack) len = inr (
    subst HasNul (append-nil _) (
      HasNul-replicate (page_size - length (p.header ++ bs)) [] (
        omega (
          arith,
          length-append p.header bs,
          len ∙ ap (λ n. n * get_size p.tuple_desc) v.slots,
          v.header_length,
        ))))

create-image_of :
    (max : ℕ) (p : HeapPage) (bs : Bytes)
    → IsValid max p
    → (max < 128) ⊎ HasSlack p.tuple_desc
    → length bs ≡ p.num_slots * get_size p.tuple_desc
    → ReadsSlots max p.pid p.tuple_desc p.header (slot p) p.num_slots 0 bs
    → create p.pid p.tuple_desc (image_of p bs) ≡ ok (reread_page p)
create-image_of max p bs v room len reads =
    create-of_parts p (image_of p bs)
      (omega (
        arith,
        length-append (p.header ++ bs) pad,
        length-append p.header bs,
        v.shaped.header_length,
      ))
      (ap (λ n. take n (image_of p bs)) (sym v.shaped.header_length)
        ∙ ap (take (length p.header)) split
        ∙ take-append p.header (bs ++ pad))
      (ap
          (λ n.
            parse_slots p.pid p.tuple_desc p.header (image_of p bs) n 0
              (header_len_of p.tuple_desc))
          (sym v.shaped.slots)
        ∙ reads (image_of p bs) pad (header_len_of p.tuple_desc)
            (Room-padding max p bs v.shaped room len)
            (ap (drop (header_len_of p.tuple_desc)) split
              ∙ drop-append p.header (bs ++ pad) (header_len_of p.tuple_desc)
                  (sym v.shaped.header_length)))
  where
    pad : Bytes
    pad = replicate (page_size - length (p.header ++ bs)) 0

    split : image_of p bs ≡ p.header ++ (bs ++ pad)
    split = append_assoc p.header bs pad

-- what is read back
pub create-reread_page :
    (max : ℕ) (p : HeapPage)
    → IsValid max p
    → max ≤ 128
    → (max < 128) ⊎ HasSlack p.tuple_desc
    → (image : Bytes) × (get_page_data p ≡ ok image)
      × (length image ≡ page_size)
      × (create p.pid p.tuple_desc image ≡ ok (reread_page p))
create-reread_page max p v small room =
    let (bs, dumped, len, reads) =
      dump_slots-ok max p.pid p.tuple_desc p.header (slot p) p.num_slots 0 p.records
        (λ j h. slot_bound v.shaped j (omega arith)) (omega (arith, v.shaped.records_length))
        (λ j k e. ap (slot_in_part p.header k p.records) (omega arith))
        (λ j r e. (v.stored j r e).0) small in
    (
      image_of p bs,
      get_page_data-image p bs dumped (image_fits p bs v.shaped len),
      length-image_of p bs (image_fits p bs v.shaped len),
      create-image_of max p bs v room len reads,
    )

pub reread_page-get_records :
    (max : ℕ) (p : HeapPage) → IsValid max p → get_records (reread_page p) ≡ get_records p
reread_page-get_records max p v =
    get_records-occupied (reread_page p) (reread_page-IsShaped p v.shaped)
    ∙ ap ok (
        occupied-cong (slot p) (slot (reread_page p)) (slots_of p.tuple_desc) 0
          (λ j h. slot-reread max p (length p.tuple_desc.items) j v)
        ∙ ap (λ n. occupied (slot p) n 0) (sym v.shaped.slots))
    ∙ sym (get_records-occupied p v.shaped)

pub reread_page-IsValid : (max : ℕ) (p : HeapPage) → IsValid max p → IsValid max (reread_page p)
reread_page-IsValid max p v = record {
  shaped = reread_page-IsShaped p v.shaped;
  free = ap (λ n. free_count p.header n 0) v.shaped.slots;
  stored = λ j r e. v.stored j r (sym (slot-reread max p (length p.tuple_desc.items) j v) ∙ e);
}

-- Writing a well-formed page out gives exactly a page of bytes, and reading these back gives a page
-- with the same bitmap, the same record in each slot, the same records and as much free space: for
-- strings of fewer than 128 bytes, and for those of 128 where some byte follows the last slot.
pub create-get_page_data :
    (max : ℕ) (p : HeapPage)
    → IsValid max p
    → max ≤ 128
    → (max < 128) ⊎ HasSlack p.tuple_desc
    → (image : Bytes) × (p' : HeapPage) × (get_page_data p ≡ ok image)
      × (length image ≡ page_size)
      × (create p.pid p.tuple_desc image ≡ ok p')
      × (p'.header ≡ p.header)
      × ((j : ℕ) → slot p' j ≡ slot p j)
      × (get_records p' ≡ get_records p)
      × (p'.free_space ≡ p.free_space)
create-get_page_data max p v small room =
    let (image, dumped, len, reread) = create-reread_page max p v small room in
    (
      image,
      reread_page p,
      dumped,
      len,
      reread,
      refl,
      λ j. slot-reread max p (length p.tuple_desc.items) j v,
      reread_page-get_records max p v,
      sym v.free,
    )
