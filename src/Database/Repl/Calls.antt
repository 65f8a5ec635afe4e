-- ===== src/Database/Repl/Calls.antt =====
-- Calls that come back, and calls that do not; making a table comes back: komfydb/database.cc.
use komfy_db.Base.{
  ◌⊎◌, true, false, if◌then◌else◌, Bytes, Bool, inl, inr, ◌%◌, ◌^◌, ◌==◌, not, length, ℕ,
}
use komfy_db.Base.Status.{StatusOr, Status, ok, err, fault, no_fuel, Code, invalid_argument}
use komfy_db.Common.TupleDesc.{TupleDesc}
use komfy_db.Database.{Database, catalog_of, is_ok, created, create_table}
use komfy_db.Storage.Catalog.{get_table_id}
use komfy_db.Storage.HeapFile
use komfy_db.Storage.HeapFile.{HeapFile, Stream}

-- A call comes back, with a value or an error.
pub data Returns {A : Type 0} : StatusOr A → Type 0 where
  with_value : (a : A) → Returns (ok a)
  with_error : (c : Code) → Returns (err c)

-- The call of the parser or of the executor that a line needs, on a database, does not come back.
pub data Crashed {A : Type 0} : StatusOr A → Type 0 where
  by_fault : Crashed fault
  cut_off : Crashed no_fuel

pub either_way : {A : Type 0} (r : StatusOr A) → Returns r ⊎ Crashed r
either_way (ok a) = inl (with_value a)
either_way (err c) = inl (with_error c)
either_way fault = inr by_fault
either_way no_fuel = inr cut_off

if-Returns :
    {A : Type 0} (b : Bool) (x y : StatusOr A)
    → Returns x
    → Returns y
    → Returns (if b then x else y)
if-Returns true x y h k = h
if-Returns false x y h k = k

either-Returns :
    (b : Bool) (x y : Database × Status)
    → Returns x.1
    → Returns y.1
    → Returns ((if◌then◌else◌ {A = Database × Status} b x y).1)
either-Returns true x y h k = h
either-Returns false x y h k = k

create-Returns :
    (f : Stream) (td : TupleDesc) (table_cnt : ℕ) → Returns (HeapFile.create f td table_cnt)
unfolding HeapFile.create
create-Returns f td table_cnt =
    if-Returns (not f.good) _ _ (with_error _)
      (if-Returns (length f.contents % 2 ^ 32 % 4096 == 0) _ _ (with_value _) (with_error _))

created-Returns :
    (name key : Bytes) (d : Database) (r : StatusOr (HeapFile × ℕ))
    → Returns r
    → Returns (created name key d r).1
created-Returns name key d r (with_value a) = with_value tt
created-Returns name key d r (with_error c) = with_error _

pub create_table-Returns :
    (files : Bytes → Stream) (name : Bytes) (td : TupleDesc) (key : Bytes) (d : Database)
    → Returns (create_table files name td key d).1
unfolding create_table
create_table-Returns files name td key d =
    either-Returns (is_ok (get_table_id (catalog_of d) name)) (d, err invalid_argument)
      (created name key d (HeapFile.create (files name) td d.table_cnt)) (with_error _)
      (created-Returns name key d (HeapFile.create (files name) td d.table_cnt)
        (create-Returns (files name) td d.table_cnt))
