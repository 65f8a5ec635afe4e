-- ===== src/Storage/HeapFile/Disk.antt =====
-- What stands in a file for a page, and how reading and writing pages act on it
-- (komfydb/storage/heap_file.cc).
use native.Mathlib.Nat.{sub_self}
use mathlib.Core.List.{append-nil}
use komfy_db.Base.{
  ℕ, ◌+◌, ◌-◌, ◌*◌, ◌≤◌, ◌<◌, ◌≡◌, ◌≢◌, refl, sym, ◌∙◌, ap, ◌⊎◌, inl, inr, true, ◌++◌, Bytes,
  length, length-append, length-replicate, length-take, length-drop, take, drop, replicate, arith,
  slice, slice-written, slice-written_behind,
}
use komfy_db.Base.Status.{StatusOr, ok}
use komfy_db.Storage.HeapPage.{HeapPage, page_size, create}
use komfy_db.Storage.HeapPage.Slots.{IsValid}
use komfy_db.Storage.HeapPage.RoundTrip.{HasSlack, reread_page, create-reread_page}
use komfy_db.Storage.Ids.{PageId}
use komfy_db.Storage.HeapFile.{
  Stream, HeapFile, read_at, page_pos, read_page, read_checked, write_page,
}
use komfy_db.Storage.HeapFile.RoundTrip.{
  written_stream, write_at-written_stream, take-behind, length-start, check_page-ok, write_page-ok,
}

-- The page that the bytes in the file make, and whether they are all there.
abbrev pub disk_page : HeapFile → PageId → StatusOr HeapPage
disk_page f pid = create pid f.tuple_desc (slice (page_pos pid) page_size f.file.contents)

abbrev pub Covers : HeapFile → PageId → Type 0
Covers f pid = page_pos pid + page_size ≤ length f.file.contents

read_at-slice :
    (f : Stream) (pos n : ℕ)
    → f.good ≡ true
    → pos + n ≤ length f.contents
    → read_at f pos n ≡ (f, slice pos n f.contents)
unfolding read_at
read_at-slice f pos n g h =
    let full : length (slice pos n f.contents) ≡ n =
      omega (arith, length-take n (drop pos f.contents), length-drop pos f.contents) in
    rw (g, full, sub_self n, append-nil (slice pos n f.contents)) (ground arith)

-- Reading a page whose bytes are in the file gives what they make, and leaves the file.
pub read_page-disk_page :
    (f : HeapFile) (pid : PageId)
    → f.file.good ≡ true
    → pid.table_id ≡ f.table_id
    → page_pos pid < f.file_length
    → Covers f pid
    → read_page f pid ≡ (f, disk_page f pid)
unfolding read_page
read_page-disk_page f pid good same inside covers =
    ap (read_checked f pid) (check_page-ok f pid same inside)
    ∙ ap (λ r. (record f { file = r.0 }, create pid f.tuple_desc r.1))
        (read_at-slice f.file (page_pos pid) page_size good covers)

-- A page in another place
abbrev page_at : HeapFile → ℕ → PageId
page_at f n = record { table_id = f.table_id; page_no = n }

-- What a write of page `p` makes of a file.
pub record IsWritten (p : HeapPage) (f f' : HeapFile) : Type 0 where
  pub desc : f'.tuple_desc ≡ f.tuple_desc
  pub len : f'.file_length ≡ f.file_length
  pub own : f'.table_id ≡ f.table_id
  pub good : f'.file.good ≡ true
  pub writable : f'.file.writable ≡ true
  pub there : disk_page f' p.pid ≡ ok (reread_page p)
  pub covers : Covers f' p.pid
  pub others :
      (pid : PageId)
      → pid.page_no ≢ p.pid.page_no
      → Covers f pid
      → (disk_page f' pid ≡ disk_page f pid) × Covers f' pid

length-written :
    (c : Bytes) (pos : ℕ) (bytes : Bytes)
    → length
        (take pos (c ++ replicate (pos - length c) 0) ++ (bytes ++ drop (pos + length bytes) c))
      ≡ pos + length bytes + (length c - (pos + length bytes))
length-written c pos bytes = omega (
  arith,
  length-append (take pos (c ++ replicate (pos - length c) 0))
      (bytes ++ drop (pos + length bytes) c),
  length-append bytes (drop (pos + length bytes) c),
  length-drop (pos + length bytes) c,
  length-take pos (c ++ replicate (pos - length c) 0),
  length-append c (replicate (pos - length c) 0),
  length-replicate {A = ℕ} (pos - length c) 0,
)

written_others :
    (c bytes : Bytes) (i k : ℕ)
    → length bytes ≡ page_size
    → i ≢ k
    → page_size * i + page_size ≤ length c
    → slice (page_size * i) page_size (
        take (page_size * k) (c ++ replicate (page_size * k - length c) 0)
        ++ (bytes ++ drop (page_size * k + length bytes) c))
      ≡ slice (page_size * i) page_size c
written_others c bytes i k h ne inside = elim (apart i k ne) [
  | inl less ↦
      slice-written (page_size * i) page_size (page_size * k) c
        (replicate (page_size * k - length c) 0) bytes inside (omega arith)
  | inr more ↦
      slice-written_behind (page_size * i) page_size (page_size * k) c
        (replicate (page_size * k - length c) 0) bytes
        (omega (
          arith,
          length-append c (replicate (page_size * k - length c) 0),
          length-replicate {A = ℕ} (page_size * k - length c) 0,
        ))
        (omega arith)
]
  where
    apart : (i k : ℕ) → i ≢ k → (i < k) ⊎ (k < i)
    apart i k ne = omega arith

-- Writing a well-formed page of a file that is good and writable.
pub write_page-IsWritten :
    (max : ℕ) (f : HeapFile) (p : HeapPage)
    → f.file.good ≡ true
    → f.file.writable ≡ true
    → p.pid.table_id ≡ f.table_id
    → page_pos p.pid < f.file_length
    → p.tuple_desc ≡ f.tuple_desc
    → IsValid max p
    → max ≤ 128
    → (max < 128) ⊎ HasSlack p.tuple_desc
    → (f' : HeapFile) × (write_page f p ≡ (f', ok tt)) × IsWritten p f f'
write_page-IsWritten max f p good writable same inside desc v small room =
    let (image, dumped, len, reread) = create-reread_page max p v small room in
    let run = write_page-ok f p image (check_page-ok f p.pid same inside) dumped in
    let f' : HeapFile = record f { file = written_stream f.file (page_pos p.pid) image } in
    let c = f.file.contents in
    let pos = page_pos p.pid in
    let back : slice pos page_size (written_stream f.file pos image).contents ≡ image =
      ap (λ n. slice pos n (written_stream f.file pos image).contents) (sym len)
      ∙ take-behind pos (take pos (c ++ replicate (pos - length c) 0)) image
          (drop (pos + length image) c) (length-start c pos) in
    (
      f',
      run
          ∙ ap (λ s. (record f { file = s }, ok tt))
              (write_at-written_stream f.file pos image good writable),
      record {
        desc = refl;
        len = refl;
        own = refl;
        good = good;
        writable = writable;
        there = (λ i. create p.pid (sym desc i) (back i)) ∙ reread;
        covers = omega (arith, length-written f.file.contents (page_pos p.pid) image);
        others = λ pid ne inside. (
          ap (create pid f.tuple_desc)
              (written_others c image pid.page_no p.pid.page_no len ne inside),
          omega (arith, length-written c pos image),
        );
      },
    )
