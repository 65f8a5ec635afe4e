-- ===== src/Storage/Catalog/Reads.antt =====
-- What the catalog answers after a table was added (komfydb/storage/catalog.cc).
use komfy_db.Base.{
  ℕ, ◌≡◌, refl, ◌≢◌, ◌∙◌, Bool, true, List, some, Bytes, bytes_eq, bytes_eq_iff, ◌==◌, ==_iff,
  arith, ◌↔◌,
}
use komfy_db.Base.Maps.{lookup, insert, lookup-insert}
use komfy_db.Base.Status.{ok}
use komfy_db.Storage.Catalog.{
  Catalog, add_table, get_table_id, get_table_name, get_database_file, get_database_file_named,
  get_tuple_desc, get_primary_key,
}
use komfy_db.Storage.HeapFile.{HeapFile}

module _ {K V : Type 0} (same : K → K → Bool) (laws : (a b : K) → (same a b ≡ true) ↔ (a ≡ b)) where
  lookup-insert_self :
      (k : K) (v : V) (m : List (K × V)) → lookup same k (insert same k v m) ≡ some v
  lookup-insert_self k v m = lookup-insert same laws k k v m ∙ rw ((laws k k).1 refl) refl

  lookup-insert_ne :
      (k j : K) (v : V) (m : List (K × V))
      → k ≢ j
      → lookup same j (insert same k v m) ≡ lookup same j m
  lookup-insert_ne k j v m ne = lookup-insert same laws k j v m ∙ ground (arith, laws k j)

-- The table just added is found by its number and by its name, with its file, schema, name and
-- primary key, whatever was in the catalog before.
pub add_table_lem :
    (c : Catalog) (file : HeapFile) (name primary_key : Bytes)
    → (get_table_id (add_table file name primary_key c) name ≡ ok file.table_id)
      × (get_database_file (add_table file name primary_key c) file.table_id ≡ ok file)
      × (get_database_file_named (add_table file name primary_key c) name ≡ ok file)
      × (get_tuple_desc (add_table file name primary_key c) file.table_id ≡ ok file.tuple_desc)
      × (get_table_name (add_table file name primary_key c) file.table_id ≡ ok name)
      × (get_primary_key (add_table file name primary_key c) file.table_id ≡ ok primary_key)
unfolding add_table get_table_id get_database_file get_database_file_named get_tuple_desc
    get_table_name get_primary_key
add_table_lem c file name primary_key =
    let id = file.table_id in
    let by_name = lookup-insert_self bytes_eq bytes_eq_iff name id c.table_name_to_id in
    let by_id = lookup-insert_self ◌==◌ ==_iff id file c.db_files in
    (
      rw by_name refl,
      rw by_id refl,
      rw (by_name, by_id) refl,
      rw by_id refl,
      rw (lookup-insert_self ◌==◌ ==_iff id name c.table_names) refl,
      rw (lookup-insert_self ◌==◌ ==_iff id primary_key c.primary_keys) refl,
    )

-- A table with another number and another name is answered for as before.
pub add_table_others :
    (c : Catalog) (file : HeapFile) (name primary_key other : Bytes) (id : ℕ)
    → file.table_id ≢ id
    → name ≢ other
    → (get_table_id (add_table file name primary_key c) other ≡ get_table_id c other)
      × (get_database_file (add_table file name primary_key c) id ≡ get_database_file c id)
      × (get_tuple_desc (add_table file name primary_key c) id ≡ get_tuple_desc c id)
      × (get_table_name (add_table file name primary_key c) id ≡ get_table_name c id)
      × (get_primary_key (add_table file name primary_key c) id ≡ get_primary_key c id)
unfolding add_table get_table_id get_database_file get_tuple_desc get_table_name get_primary_key
add_table_others c file name primary_key other id ne ne' =
    let by_id = lookup-insert_ne ◌==◌ ==_iff file.table_id id file c.db_files ne in
    (
      rw (lookup-insert_ne bytes_eq bytes_eq_iff name other file.table_id c.table_name_to_id ne')
          refl,
      rw by_id refl,
      rw by_id refl,
      rw (lookup-insert_ne ◌==◌ ==_iff file.table_id id name c.table_names ne) refl,
      rw (lookup-insert_ne ◌==◌ ==_iff file.table_id id primary_key c.primary_keys ne) refl,
    )
