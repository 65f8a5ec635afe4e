-- ===== src/Storage/HeapFile/RoundTrip.antt =====
-- Writing and reading the pages of a file (komfydb/storage/heap_file.cc).
use native.Mathlib.Nat.{sub_self}
use mathlib.Core.List.{append-nil}
use komfy_db.Base.{
  drop-append, take-append, ℕ, ◌+◌, ◌-◌, ◌≤◌, ◌<◌, ◌≡◌, sym, ◌∙◌, ap, ◌⊎◌, true, ◌++◌, Bytes,
  length, length-append, length-replicate, length-take, take, drop, replicate, arith,
}
use komfy_db.Base.Status.{ok, ◌>>◌}
use komfy_db.Storage.HeapPage.{HeapPage, page_size, get_page_data, get_records, create}
use komfy_db.Storage.HeapPage.Slots.{IsValid, slot}
use komfy_db.Storage.HeapPage.RoundTrip.{HasSlack, create-get_page_data}
use komfy_db.Storage.Ids.{PageId}
use komfy_db.Storage.HeapFile.{
  Stream, HeapFile, read_at, write_at, page_pos, check_page, read_checked, read_page, write_checked,
  write_page,
}

-- what stands before the write position has that length
pub length-start :
    (c : Bytes) (pos : ℕ) → pos ≡ length (take pos (c ++ replicate (pos - length c) 0))
length-start c pos = omega (
  arith,
  length-take pos (c ++ replicate (pos - length c) 0),
  length-append c (replicate (pos - length c) 0),
  length-replicate {A = ℕ} (pos - length c) 0,
)

-- the bytes behind a prefix of `pos` bytes
pub take-behind :
    (pos : ℕ) (start bytes tail : Bytes)
    → pos ≡ length start
    → take (length bytes) (drop pos (start ++ (bytes ++ tail))) ≡ bytes
take-behind pos start bytes tail h =
    rw (drop-append start (bytes ++ tail) pos h, take-append bytes tail)

-- the stream after a write that works
abbrev pub written_stream : Stream → ℕ → Bytes → Stream
written_stream f pos bytes = record f {
  contents =
      take pos (f.contents ++ replicate (pos - length f.contents) 0)
      ++ (bytes ++ drop (pos + length bytes) f.contents);
}

pub write_at-written_stream :
    (f : Stream) (pos : ℕ) (bytes : Bytes)
    → f.good ≡ true
    → f.writable ≡ true
    → write_at f pos bytes ≡ written_stream f pos bytes
unfolding write_at
write_at-written_stream f pos bytes g w = rw (g, w)

-- a read of bytes that are all there
read_at-here :
    (f : Stream) (pos : ℕ) (bytes : Bytes)
    → f.good ≡ true
    → take (length bytes) (drop pos f.contents) ≡ bytes
    → (read_at f pos (length bytes)).1 ≡ bytes
unfolding read_at
read_at-here f pos bytes g h = rw (g, h, sub_self (length bytes), append-nil bytes)

-- what is written at a position is read from there
read_at-write_at :
    (f : Stream) (pos : ℕ) (bytes : Bytes)
    → f.good ≡ true
    → f.writable ≡ true
    → (read_at (write_at f pos bytes) pos (length bytes)).1 ≡ bytes
read_at-write_at f pos bytes g w =
    ap (λ h. (read_at h pos (length bytes)).1) (write_at-written_stream f pos bytes g w)
    ∙ read_at-here (written_stream f pos bytes) pos bytes g (
        take-behind pos (take pos (f.contents ++ replicate (pos - length f.contents) 0)) bytes
          (drop (pos + length bytes) f.contents) (length-start f.contents pos))

pub check_page-ok :
    (f : HeapFile) (id : PageId)
    → id.table_id ≡ f.table_id
    → page_pos id < f.file_length
    → check_page f id ≡ ok tt
unfolding check_page
check_page-ok f id same inside = ground arith

read_page-ok :
    (f : HeapFile) (id : PageId)
    → check_page f id ≡ ok tt
    → (read_page f id).1 ≡ create id f.tuple_desc (read_at f.file (page_pos id) page_size).1
unfolding read_page
read_page-ok f id checked = ap (λ s. (read_checked f id s).1) checked

pub write_page-ok :
    (f : HeapFile) (p : HeapPage) (image : Bytes)
    → check_page f p.pid ≡ ok tt
    → get_page_data p ≡ ok image
    → write_page f p ≡ (record f { file = write_at f.file (page_pos p.pid) image }, ok tt)
unfolding write_page
write_page-ok f p image checked dumped =
    ap (λ s. write_checked f p.pid (s >> get_page_data p)) checked
    ∙ ap (write_checked f p.pid) dumped

-- Writing a well-formed page of the file, and then reading the page with its id, gives a page with
-- the same records in the same slots, as `create-get_page_data` says; the read succeeds.
pub read_page-write_page :
    (max : ℕ) (f : HeapFile) (p : HeapPage)
    → f.file.good ≡ true
    → f.file.writable ≡ true
    → p.pid.table_id ≡ f.table_id
    → page_pos p.pid < f.file_length
    → p.tuple_desc ≡ f.tuple_desc
    → IsValid max p
    → max ≤ 128
    → (max < 128) ⊎ HasSlack p.tuple_desc
    → (p' : HeapPage) × ((write_page f p).1 ≡ ok tt)
      × ((read_page (write_page f p).0 p.pid).1 ≡ ok p')
      × ((j : ℕ) → slot p' j ≡ slot p j)
      × (get_records p' ≡ get_records p)
read_page-write_page max f p good writable same inside desc v small room =
    let (image, p', dumped, len, reread, _, slots, records, _) =
      create-get_page_data max p v small room in
    let pos = page_pos p.pid in
    let wrote = write_page-ok f p image (check_page-ok f p.pid same inside) dumped in
    let f' : HeapFile = record f { file = write_at f.file pos image } in
    let back : (read_at (write_at f.file pos image) pos page_size).1 ≡ image =
      ap (λ n. (read_at (write_at f.file pos image) pos n).1) (sym len)
      ∙ read_at-write_at f.file pos image good writable in
    (
      p',
      ap (λ r. r.1) wrote,
      ap (λ r. (read_page r.0 p.pid).1) wrote
          ∙ read_page-ok f' p.pid (check_page-ok f' p.pid same inside)
          ∙ (λ i. create p.pid (sym desc i) (back i))
          ∙ reread,
      slots,
      records,
    )
