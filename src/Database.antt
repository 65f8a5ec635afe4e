-- ===== src/Database.antt =====
-- The database: komfydb/database.cc. `table_cnt` is the counter of `HeapFile`; the catalog is that of
-- the buffer pool, which shares it. Opening the file of a table is `files`, by the name of the table:
-- the stream that is got, where a file that was missing is made.
pub mod Tables
pub mod Repl
use komfy_db.Base.{ℕ, Bool, true, false, List, [], ◌∷◌, Option, none, some, if◌then◌else◌, Bytes}
use komfy_db.Base.State.{State, ◌>>=◌, ◌>>◌, return, lift}
use komfy_db.Base.Status.{StatusOr, ok, err, fault, no_fuel, invalid_argument}
use komfy_db.Common.TupleDesc.{TupleDesc}
use komfy_db.Parser.Statement.{Query, Iterator, Interface, parse_query}
use komfy_db.Storage.BufferPool.{BufferPool}
use komfy_db.Storage.Catalog.{Catalog, add_table, get_table_id}
use komfy_db.Storage.HeapFile
use komfy_db.Storage.HeapFile.{HeapFile, Stream}

pub record Database : Type 0 where
  pub buffer_pool : BufferPool
  pub table_cnt : ℕ

abbrev pub catalog_of : Database → Catalog
catalog_of d = d.buffer_pool.catalog

-- `ok()`
abbrev pub is_ok : {A : Type 0} → StatusOr A → Bool
is_ok (ok a) = true
is_ok _ = false

-- `Create`: the counter starts the process at 0.
abbrev pub empty_database : (pages_cnt : ℕ) → Database
empty_database pages_cnt = record {
  buffer_pool = record {
    pages_cnt = pages_cnt;
    catalog = record { db_files = []; table_names = []; primary_keys = []; table_name_to_id = [] };
    page_pool = [];
    lru = [];
  };
  table_cnt = 0;
}

-- `CreateTable` behind the opening of the file.
abbrev pub created :
    (table_name primary_key : Bytes)
    → Database
    → StatusOr (HeapFile × ℕ)
    → Database × StatusOr (Unit {0})
created table_name primary_key d (ok (file, cnt)) =
    let c = add_table file table_name primary_key d.buffer_pool.catalog in
    (record d { buffer_pool = record d.buffer_pool { catalog = c }; table_cnt = cnt }, ok tt)
created table_name primary_key d (err c) = (d, err invalid_argument)
created table_name primary_key d fault = (d, fault)
created table_name primary_key d no_fuel = (d, no_fuel)

module _ (files : Bytes → Stream) where
  -- `CreateTable`
  unfoldable pub create_table :
      (table_name : Bytes) → TupleDesc → (primary_key : Bytes) → State Database (Unit {0})
  create_table table_name tuple_desc primary_key d =
      if is_ok (get_table_id d.buffer_pool.catalog table_name)
      then (d, err invalid_argument)
      else created table_name primary_key d
          (HeapFile.create (files table_name) tuple_desc d.table_cnt)

  module _ (uses : Interface) where
    open uses use {I}

    -- A query of a schema.
    abbrev pub load_query : Query (Iterator I) → State Database (Unit {0})
    load_query (Query.create_table table_name tuple_desc primary_key) =
        create_table table_name tuple_desc primary_key
    load_query query = lift (err invalid_argument)

    -- The loop of `LoadSchema` over the lines of the file.
    unfoldable pub load_lines : List Bytes → State Database (Unit {0})
    load_lines [] = return tt
    load_lines (command ∷ commands) =
        (λ d. (d, parse_query uses (catalog_of d) command)) >>= load_query >> load_lines commands

    -- `LoadSchema`; `none` is a file that does not open.
    unfoldable pub load_schema : Option (List Bytes) → State Database (Unit {0})
    unfolding load_lines
    load_schema none = lift (err invalid_argument)
    load_schema (some commands) = load_lines commands
