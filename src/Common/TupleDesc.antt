-- ===== src/Common/TupleDesc.antt =====
-- Table schemas: komfydb/common/td_item.cc and tuple_desc.cc.
pub mod Lookup
use komfy_db.Base.{
  ℕ, suc, ◌+◌, Bool, true, false, ◌&&◌, List, [], ◌∷◌, ◌++◌, map, if◌then◌else◌, ◌==◌, Bytes, codes,
  bytes_eq, length, at?,
}
use komfy_db.Base.Int.{ℤ}
use komfy_db.Base.Status.{StatusOr, ok, err, fault, ◌>>=◌, or_err, invalid_argument}
use komfy_db.Common.Field.{FieldType, get_len, type_eq, type_to_str}

pub record TdItem : Type 0 where
  pub field_type : FieldType
  pub field_name : Bytes

-- `TDItem::operator==`
unfoldable pub item_eq : TdItem → TdItem → Bool
item_eq a b = type_eq a.field_type b.field_type && bytes_eq a.field_name b.field_name

-- `TDItem::operator std::string`
unfoldable pub item_to_str : TdItem → Bytes
item_to_str i = i.field_name ++ (codes "(" ++ (type_to_str i.field_type ++ codes ")"))

pub record TupleDesc : Type 0 where
  pub items : List TdItem

-- The constructor from types and names; it reads `fields[i]` for each type.
unfoldable pub make_items : List FieldType → List Bytes → StatusOr (List TdItem)
make_items [] names = ok []
make_items (t ∷ ts) [] = fault
make_items (t ∷ ts) (n ∷ ns) = do
  rest ← make_items ts ns
  ok (record { field_type = t; field_name = n } ∷ rest)

unfoldable pub make : List FieldType → List Bytes → StatusOr TupleDesc
make types fields = do items ← make_items types fields; ok (record { items = items })

-- The constructor from types alone.
unfoldable pub of_types : List FieldType → TupleDesc
of_types types = record { items = map (λ t. record { field_type = t; field_name = [] }) types }

-- `JoinVectors`, and the constructor that joins two schemas.
abbrev pub join_vectors {ℓ} : {A : Type ℓ} → List A → List A → List A
join_vectors v1 v2 = v1 ++ v2

unfoldable pub join : TupleDesc → TupleDesc → TupleDesc
join td1 td2 = record { items = join_vectors td1.items td2.items }

unfoldable pub get_item : TupleDesc → ℤ → StatusOr TdItem
get_item td idx = or_err (at? td.items idx) invalid_argument

-- `TupleDesc::Length`
abbrev pub td_length : TupleDesc → ℕ
td_length td = length td.items

unfoldable pub get_field_name : TupleDesc → ℤ → StatusOr Bytes
get_field_name td i = do item ← or_err (at? td.items i) invalid_argument; ok item.field_name

unfoldable pub get_field_type : TupleDesc → ℤ → StatusOr FieldType
get_field_type td i = do item ← or_err (at? td.items i) invalid_argument; ok item.field_type

-- The loop of `IndexForFieldName`, from index `i`.
unfoldable pub index_from : ℕ → Bytes → List TdItem → StatusOr ℕ
index_from i name [] = err invalid_argument
index_from i name (item ∷ rest) =
    if bytes_eq item.field_name name then ok i else index_from (suc i) name rest

unfoldable pub index_for_field_name : TupleDesc → Bytes → StatusOr ℕ
unfolding index_from
index_for_field_name td name = index_from 0 name td.items

-- `GetSize`: the bytes of a tuple on a page.
unfoldable pub items_size : List TdItem → ℕ
items_size [] = 0
items_size (item ∷ rest) = get_len item.field_type + items_size rest

unfoldable pub get_size : TupleDesc → ℕ
unfolding items_size get_len
get_size td = items_size td.items

unfoldable pub items_eq : List TdItem → List TdItem → Bool
items_eq [] [] = true
items_eq (a ∷ as') (b ∷ bs) = item_eq b a && items_eq as' bs
items_eq [] (b ∷ bs) = false
items_eq (a ∷ as') [] = false

-- `TupleDesc::operator==`
unfoldable pub desc_eq : TupleDesc → TupleDesc → Bool
unfolding items_eq item_eq
desc_eq a b = if length b.items == length a.items then items_eq a.items b.items else false
