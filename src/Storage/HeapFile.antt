-- ===== src/Storage/HeapFile.antt =====
-- Heap files: komfydb/storage/heap_file.cc. The `std::fstream` is its contents and its state flag.
pub mod RoundTrip
pub mod Disk
use komfy_db.Base.{
  ℕ, suc, ◌+◌, ◌-◌, ◌*◌, ◌/◌, ◌%◌, ◌^◌, Bool, true, false, not, ◌&&◌, ◌++◌, if◌then◌else◌, ltb, leb,
  ◌==◌, Bytes, length, take, drop, replicate,
}
use komfy_db.Base.Status.{
  StatusOr, Status, ok, err, fault, no_fuel, invalid_argument, out_of_range, ◌>>=◌, ◌>>◌,
}
use komfy_db.Common.TupleDesc.{TupleDesc}
use komfy_db.Storage.HeapPage
use komfy_db.Storage.HeapPage.{HeapPage, page_size, get_page_data}
use komfy_db.Storage.Ids.{PageId}

pub record Stream : Type 0 where
  pub contents : Bytes
  pub writable : Bool
  pub good : Bool

-- `seekg` and `read` of `n` bytes into a buffer of zeros; a short read fails the stream.
unfoldable pub read_at : Stream → (pos n : ℕ) → Stream × Bytes
read_at f pos n =
    let got = take n (drop pos f.contents) in
    if not f.good
    then (f, replicate n 0)
    else (record f { good = leb n (length got) }, got ++ replicate (n - length got) 0)

-- `seekp` and `write`; a hole is filled with zeros.
unfoldable pub write_at : Stream → ℕ → Bytes → Stream
write_at f pos bytes =
    let start = take pos (f.contents ++ replicate (pos - length f.contents) 0) in
    if f.good && f.writable
    then record f { contents = start ++ (bytes ++ drop (pos + length bytes) f.contents) }
    else record f { good = false }

pub record HeapFile : Type 0 where
  pub file : Stream
  pub tuple_desc : TupleDesc
  pub file_length : ℕ
  pub table_id : ℕ

-- `HeapFile::Create` on a file that could be opened, with the table counter: the length goes through
-- a `uint32_t`.
unfoldable pub create : Stream → TupleDesc → ℕ → StatusOr (HeapFile × ℕ)
create f td table_cnt =
    let len = length f.contents % 2 ^ 32 in
    if not f.good
    then err invalid_argument
    else if len % page_size == 0
    then ok (
      record { file = f; tuple_desc = td; file_length = len; table_id = (table_cnt + 1) % 2 ^ 32 },
      (table_cnt + 1) % 2 ^ 32,
    )
    else err invalid_argument

abbrev pub page_pos : PageId → ℕ
page_pos id = page_size * id.page_no

-- The checks of `ReadPage` and `WritePage`.
unfoldable pub check_page : HeapFile → PageId → Status
check_page f id =
    if not (id.table_id == f.table_id)
    then err invalid_argument
    else if leb f.file_length (page_pos id)
    then err out_of_range
    else ok tt

-- The rest of `ReadPage` behind its checks.
abbrev pub read_checked : HeapFile → PageId → Status → HeapFile × StatusOr HeapPage
read_checked f id (ok _) =
    let (stream, bytes) = read_at f.file (page_pos id) page_size in
    (record f { file = stream }, HeapPage.create id f.tuple_desc bytes)
read_checked f id (err c) = (f, err c)
read_checked f id fault = (f, fault)
read_checked f id no_fuel = (f, no_fuel)

unfoldable pub read_page : HeapFile → PageId → HeapFile × StatusOr HeapPage
read_page f id = read_checked f id (check_page f id)

-- The rest of `WritePage` behind its checks and the page's bytes.
abbrev pub write_checked : HeapFile → PageId → StatusOr Bytes → HeapFile × Status
write_checked f id (ok bytes) = (record f { file = write_at f.file (page_pos id) bytes }, ok tt)
write_checked f id (err c) = (f, err c)
write_checked f id fault = (f, fault)
write_checked f id no_fuel = (f, no_fuel)

unfoldable pub write_page : HeapFile → HeapPage → HeapFile × Status
write_page f p = write_checked f p.pid (check_page f p.pid >> get_page_data p)

abbrev pub page_count : HeapFile → ℕ
page_count f = f.file_length / page_size

-- `CreatePage`: an empty page behind the last one; nothing is written.
unfoldable pub create_page : HeapFile → HeapFile × StatusOr HeapPage
create_page f =
    let f' : HeapFile = record f { file_length = f.file_length + page_size } in
    let pid : PageId = record { table_id = f.table_id; page_no = page_count f' - 1 } in
    (f', HeapPage.create pid f.tuple_desc (replicate page_size 0))
