-- ===== src/Storage/HeapPage/Dumps.antt =====
-- What `GetPageData` writes for the slots of a page is what `Create` reads for them:
-- komfydb/storage/heap_page.cc.
use mathlib.Core.List.{append_assoc}
use komfy_db.Base.{
  drop-append, drop-drop, ℕ, zero, suc, ◌+◌, ◌*◌, ◌/◌, ◌≤◌, ◌<◌, ◌≡◌, refl, sym, ap, ◌∙◌, inl, inr,
  List, [], ◌∷◌, ◌++◌, if◌then◌else◌, Option, none, some, arith, Bytes, length, length-append,
  length-replicate, drop, replicate, Bool-cases,
}
use komfy_db.Base.Int.{pos}
use komfy_db.Base.Status.{ok}
use komfy_db.Common.Field.{get_len}
use komfy_db.Common.Tuple
use komfy_db.Common.Tuple.{Tuple}
use komfy_db.Common.TupleDesc.{TdItem, TupleDesc, get_size, items_size}
use komfy_db.Storage.Codec.RoundTrip.{Room, HasNul-append, dump_field-ok, parse_field-dump_field}
use komfy_db.Storage.Header.{tuple_present}
use komfy_db.Storage.Header.Bits.{bit, tuple_present-bit}
use komfy_db.Storage.Ids.{PageId, Record}
use komfy_db.Storage.HeapPage.{
  parse_record, parse_slot, parse_slots, dump_record, dump_slot, dump_slots,
}
use komfy_db.Storage.HeapPage.Slots.{slot_in_part, free_count, rid_at, Fits}

Room-append : (max : ℕ) (s r : Bytes) → Room max r → Room max (s ++ r)
Room-append max s r (inl h) = inl h
Room-append max s r (inr h) = inr (HasNul-append s r h)

-- the index moves past what was read
past_read :
    (all b r : Bytes) (idx n : ℕ) → drop idx all ≡ b ++ r → length b ≡ n → drop (idx + n) all ≡ r
past_read all b r idx n at h = drop-drop idx n all ∙ ap (drop n) at ∙ drop-append b r n (sym h)

-- what reading back the bytes of a tuple means
abbrev ReadsRecord : ℕ → List TdItem → Tuple → Bytes → Type 0
ReadsRecord max items t b =
    (all rest : Bytes) (idx : ℕ)
    → Room max rest
    → drop idx all ≡ b ++ rest
    → parse_record items all idx ≡ ok (t, idx + items_size items)

dump_record-ok :
    (max : ℕ) (items : List TdItem) (t : Tuple)
    → Fits max items t
    → max ≤ 128
    → (b : Bytes) × (dump_record items t ≡ ok b)
      × (length b ≡ items_size items)
      × ReadsRecord max items t b
unfolding dump_record parse_record items_size
dump_record-ok max [] [] fits small =
    ([], refl, refl, λ all rest idx room at. ap (λ n. ok ([], n)) (omega arith))
dump_record-ok max [] (f ∷ t) fits small = absurd fits
dump_record-ok max (item ∷ items) [] fits small = absurd fits
dump_record-ok max (item ∷ items) (none ∷ t) fits small = absurd fits
dump_record-ok max (item ∷ items) (some f ∷ t) fits small =
    let (b, dumped, len) = dump_field-ok max item.field_type f fits.0 small in
    let (bs, dumped', len', reads) = dump_record-ok max items t fits.1 small in
    (
      b ++ bs,
      rw (dumped, dumped') refl,
      omega (arith, length-append b bs, len, len'),
      λ all rest idx room at.
          let at' : drop idx all ≡ b ++ (bs ++ rest) = at ∙ append_assoc b bs rest in
          rw
            (
              parse_field-dump_field max item.field_type f all b (bs ++ rest) idx fits.0 small
                  (Room-append max bs rest room) dumped at',
              reads all rest (idx + get_len item.field_type) room
                  (past_read all b (bs ++ rest) idx (get_len item.field_type) at' len),
            )
            (ap (λ n. ok (some f ∷ t, n)) (omega arith)),
    )

-- the record that `Create` makes for a slot that held `r`
abbrev pub reread_tuple : ℕ → Option Record → Tuple
reread_tuple n none = Tuple.make n
reread_tuple n (some r) = r.tuple

abbrev pub reread : ℕ → PageId → ℕ → Option Record → Record
reread n pid i o = record { tuple = reread_tuple n o; rid = rid_at pid i }

-- the records that `Create` makes for `left` slots from slot `i`
unfoldable pub reread_all : ℕ → PageId → (ℕ → Option Record) → (left i : ℕ) → List Record
reread_all n pid s zero i = []
reread_all n pid s (suc left) i = reread n pid i (s i) ∷ reread_all n pid s left (suc i)

module _ (max : ℕ) (pid : PageId) (td : TupleDesc) (header : Bytes) (s : ℕ → Option Record) where
  abbrev pub ReadsSlots : ℕ → ℕ → Bytes → Type 0
  ReadsSlots left i bs =
      (all rest : Bytes) (idx : ℕ)
      → Room max rest
      → drop idx all ≡ bs ++ rest
      → parse_slots pid td header all left i idx
        ≡ ok (reread_all (length td.items) pid s left i, free_count header left i)

  abbrev ReadsSlot : ℕ → Bytes → Type 0
  ReadsSlot i b =
      (all rest : Bytes) (idx : ℕ)
      → Room max rest
      → drop idx all ≡ b ++ rest
      → parse_slot td all (bit header i) idx
        ≡ ok (
          (reread (length td.items) pid i (s i)).tuple,
          idx + get_size td,
          if bit header i then 0 else 1,
        )

  dump_slot-ok :
      (i : ℕ) (rs : List Record)
      → slot_in_part header i rs 0 ≡ s i
      → 0 < length rs
      → ((r : Record) → s i ≡ some r → Fits max td.items r.tuple)
      → max ≤ 128
      → (b : Bytes) × (dump_slot td (bit header i) rs ≡ ok b)
        × (length b ≡ get_size td)
        × ReadsSlot i b
  unfolding dump_slot parse_slot get_size
  dump_slot-ok i [] e many fits small = absurd (omega arith)
  dump_slot-ok i (r ∷ rs) e many fits small = elim (Bool-cases (bit header i)) [
    | inl taken ↦
        let here : s i ≡ some r = sym e ∙ rw taken refl in
        let (b, dumped, len, reads) = dump_record-ok max td.items r.tuple (fits r here) small in
        (
          b,
          rw taken dumped,
          len,
          λ all rest idx room at. rw (taken, reads all rest idx room at, here) refl,
        )
    | inr empty ↦
        let here : s i ≡ none = sym e ∙ rw empty refl in
        (
          replicate (items_size td.items) 0,
          rw empty refl,
          length-replicate (items_size td.items) 0,
          λ all rest idx room at. rw (empty, here) refl,
        )
  ]

  pub dump_slots-ok :
      (left i : ℕ) (rs : List Record)
      → ((j : ℕ) → j < i + left → j / 8 < length header)
      → left ≤ length rs
      → ((j k : ℕ) → k ≡ i + j → slot_in_part header k rs j ≡ s k)
      → ((j : ℕ) (r : Record) → s j ≡ some r → Fits max td.items r.tuple)
      → max ≤ 128
      → (bs : Bytes) × (dump_slots td header left i rs ≡ ok bs)
        × (length bs ≡ left * get_size td)
        × ReadsSlots left i bs
  unfolding dump_slots parse_slots reread_all free_count
  dump_slots-ok zero i rs bound many e fits small =
      ([], refl, omega arith, λ all rest idx room at. refl)
  dump_slots-ok (suc left) i [] bound many e fits small = absurd (omega arith)
  dump_slots-ok (suc left) i (r ∷ rs) bound many e fits small =
      let (b, dumped, len, reads) =
        dump_slot-ok i (r ∷ rs) (e 0 i (omega arith)) (omega arith) (fits i) small in
      let (bs, dumped', len', reads') =
        dump_slots-ok left (suc i) rs (λ j h. bound j (omega arith)) (omega arith)
          (λ j k q. e (suc j) k (omega arith)) fits small in
      (
        b ++ bs,
        rw (present, dumped, dumped') refl,
        length-append b bs ∙ grind (arith, len, len'),
        λ all rest idx room at.
            let at' : drop idx all ≡ b ++ (bs ++ rest) = at ∙ append_assoc b bs rest in
            rw
              (
                present,
                reads all (bs ++ rest) idx (Room-append max bs rest room) at',
                reads' all rest (idx + get_size td) room
                    (past_read all b (bs ++ rest) idx (get_size td) at' len),
              )
              refl,
      )
    where
      present : tuple_present header (pos i) ≡ ok (bit header i)
      present = tuple_present-bit header i (bound i (omega arith))
