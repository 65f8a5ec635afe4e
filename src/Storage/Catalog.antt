-- ===== src/Storage/Catalog.antt =====
-- The catalog of tables: komfydb/storage/catalog.h and catalog.cc. The hash maps are association
-- lists; the files are part of the catalog, which owns them.
pub mod Reads
use komfy_db.Base.{ℕ, Bool, List, map, Bytes, bytes_eq, ◌==◌}
use komfy_db.Base.Maps.{lookup, insert}
use komfy_db.Base.Status.{StatusOr, or_err, invalid_argument, ok, ◌>>=◌}
use komfy_db.Common.TupleDesc.{TupleDesc}
use komfy_db.Storage.HeapFile.{HeapFile}

pub record Catalog : Type 0 where
  pub db_files : List (ℕ × HeapFile)
  pub table_names : List (ℕ × Bytes)
  pub primary_keys : List (ℕ × Bytes)
  pub table_name_to_id : List (Bytes × ℕ)

-- `AddTable`
unfoldable pub add_table : HeapFile → (name primary_key : Bytes) → Catalog → Catalog
unfolding insert
add_table file name primary_key c = record {
  db_files = insert ◌==◌ file.table_id file c.db_files;
  table_names = insert ◌==◌ file.table_id name c.table_names;
  primary_keys = insert ◌==◌ file.table_id primary_key c.primary_keys;
  table_name_to_id = insert bytes_eq name file.table_id c.table_name_to_id;
}

-- `StatusOrMapElement`
abbrev pub map_element : {K V : Type 0} → (K → K → Bool) → List (K × V) → K → StatusOr V
map_element same m k = or_err (lookup same k m) invalid_argument

unfoldable pub get_table_id : Catalog → Bytes → StatusOr ℕ
get_table_id c name = map_element bytes_eq c.table_name_to_id name

unfoldable pub get_table_name : Catalog → ℕ → StatusOr Bytes
get_table_name c table_id = map_element ◌==◌ c.table_names table_id

-- `GetDatabaseFile` by number, and by name.
unfoldable pub get_database_file : Catalog → ℕ → StatusOr HeapFile
get_database_file c table_id = map_element ◌==◌ c.db_files table_id

unfoldable pub get_database_file_named : Catalog → Bytes → StatusOr HeapFile
unfolding get_database_file
get_database_file_named c name = do
  table_id ← map_element bytes_eq c.table_name_to_id name
  get_database_file c table_id

unfoldable pub get_tuple_desc : Catalog → ℕ → StatusOr TupleDesc
unfolding get_database_file
get_tuple_desc c table_id = do file ← get_database_file c table_id; ok file.tuple_desc

unfoldable pub get_primary_key : Catalog → ℕ → StatusOr Bytes
get_primary_key c table_id = map_element ◌==◌ c.primary_keys table_id

abbrev pub get_table_ids : Catalog → List ℕ
get_table_ids c = map (λ e. e.0) c.db_files

abbrev pub get_table_names : Catalog → List Bytes
get_table_names c = map (λ e. e.1) c.table_names
