-- ===== src/Examples.antt =====
-- Concrete data on which the theorems are applied.
pub mod Pages
pub mod Fields
pub mod Queries
pub mod Pools
pub mod Scans
pub mod Plans
pub mod Parsing
pub mod Sessions
pub mod Planning
use komfy_db.Base.{◌∷◌, [], Bytes, codes, some, List, none}
use komfy_db.Base.Int.{pos, negsuc}
use komfy_db.Common.Field.{Field, int_field, string_field, int, string}
use komfy_db.Common.Tuple.{Tuple}
use komfy_db.Common.TupleDesc.{TdItem, TupleDesc}
use komfy_db.Storage.Ids.{PageId, Record}
use komfy_db.Storage.HeapPage.Slots.{rid_at}

-- the schema of a table of people
abbrev pub people : TupleDesc
people = record {
  items =
      record { field_type = int; field_name = codes "id" }
      ∷ record { field_type = string; field_name = codes "name" }
      ∷ [];
}

abbrev pub first_page : PageId
first_page = record { table_id = 7; page_no = 0 }

abbrev pub ann : Tuple
ann = some (int_field (pos 1)) ∷ some (string_field (codes "Ann")) ∷ []

abbrev pub bob : Tuple
bob = some (int_field (negsuc 4)) ∷ some (string_field (codes "Bob")) ∷ []

abbrev pub ann_record : Record
ann_record = record { tuple = ann; rid = rid_at first_page 0 }

abbrev pub bob_record : Record
bob_record = record { tuple = bob; rid = rid_at first_page 1 }

abbrev pub both : List Record
both = ann_record ∷ bob_record ∷ []
