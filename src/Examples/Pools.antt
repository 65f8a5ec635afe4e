-- ===== src/Examples/Pools.antt =====
-- Examples for the catalog and the buffer pool.
use komfy_db.Base.{◌≡◌, refl, ◌≢◌, [], codes, replicate, Bytes, true}
use komfy_db.Base.Maps.{lookup}
use komfy_db.Base.Status.{ok}
use komfy_db.Common.TupleDesc.{get_size}
use komfy_db.Storage.BufferPool.{BufferPool, get_page, on_file}
use komfy_db.Storage.BufferPool.Repeat.{get_page_again}
use komfy_db.Storage.Catalog.{Catalog, add_table, get_database_file}
use komfy_db.Storage.Header.{tuple_present}
use komfy_db.Storage.HeapFile.{HeapFile, read_page, check_page, read_at}
use komfy_db.Storage.HeapPage.{create}
use komfy_db.Storage.HeapPage.Empty.{empty_page}
use komfy_db.Examples.{people, first_page}

abbrev pub people_file : HeapFile
people_file = record {
  file = record { contents = replicate 4096 0; writable = true; good = true };
  tuple_desc = people;
  file_length = 4096;
  table_id = 7;
}

abbrev pub no_tables : Catalog
no_tables = record { db_files = []; table_names = []; primary_keys = []; table_name_to_id = [] }

abbrev pub people_name : Bytes
people_name = codes "people"

abbrev pub tables : Catalog
tables = add_table people_file people_name (codes "id") no_tables

other_name : people_name ≢ codes "pets"
other_name e = cc

abbrev pub pool : BufferPool
pool = record { pages_cnt = 1; catalog = tables; page_pool = []; lru = [] }

abbrev pub pool_after : BufferPool
pool_after = (get_page first_page pool).0

pub first_got : get_page first_page pool ≡ (pool_after, ok (empty_page first_page people))
unfolding get_page get_size tuple_present lookup get_database_file add_table on_file read_page
    check_page create read_at
first_got = refl

get_page_again_example :
    get_page first_page pool_after ≡ (pool_after, ok (empty_page first_page people))
get_page_again_example =
    get_page_again first_page pool pool_after (empty_page first_page people) first_got
