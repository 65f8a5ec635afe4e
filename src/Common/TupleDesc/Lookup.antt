-- ===== src/Common/TupleDesc/Lookup.antt =====
-- Looking a column up by its name, and the layout of joined schemas
-- (komfydb/common/tuple_desc.cc).
use komfy_db.Base.{
  ℕ, zero, suc, ◌+◌, ◌<◌, ◌≡◌, refl, ◌≢◌, ◌⊎◌, inl, inr, false, List, [], ◌∷◌, ◌++◌, ap, arith,
  Bytes, bytes_eq, bytes_eq_iff, get_elem?, Bool-cases,
}
use native.Mathlib.Nat.{add-zero}
use komfy_db.Base.Int.{pos}
use komfy_db.Base.Status.{StatusOr, ok, err, ◌>>=◌, or_err, invalid_argument}
use komfy_db.Common.TupleDesc.{
  TdItem, TupleDesc, get_field_name, index_from, index_for_field_name, items_size, get_size, join,
}

-- the name at an index, counted from `i`
abbrev name_at : List TdItem → ℕ → StatusOr Bytes
name_at items k = do item ← or_err (get_elem? items k) invalid_argument; ok item.field_name

-- what the loop from index `i` finds
abbrev Finds : ℕ → Bytes → List TdItem → StatusOr ℕ → Type 0
Finds i name items r =
    ((k : ℕ) × (r ≡ ok (i + k))
      × (name_at items k ≡ ok name)
      × ((j : ℕ) → j < k → name_at items j ≢ ok name))
    ⊎ ((r ≡ err invalid_argument) × ((j : ℕ) → name_at items j ≢ ok name))

index_from-Finds :
    (i : ℕ) (name : Bytes) (items : List TdItem) → Finds i name items (index_from i name items)
unfolding index_from
index_from-Finds i name [] = inr (refl, λ j e. cc)
index_from-Finds i name (item ∷ rest) = elim (Bool-cases (bytes_eq item.field_name name)) [
  | inl same ↦ inl (
    0,
    rw (same, add-zero),
    ap ok ((bytes_eq_iff item.field_name name).0 same),
    λ j h. absurd (omega arith),
  )
  | inr other ↦ rw other (later (index_from-Finds (suc i) name rest) (differs other))
]
  where
    differs : bytes_eq item.field_name name ≡ false → item.field_name ≢ name
    differs other e = ground (arith, bytes_eq_iff item.field_name name)

    later :
        {r : StatusOr ℕ}
        → Finds (suc i) name rest r
        → item.field_name ≢ name
        → Finds i name (item ∷ rest) r
    later (inl (k, found, named, least)) n =
        inl (suc k, ground arith, named, λ j h e. skip j h e n least)
      where
        skip :
            (j : ℕ)
            → j < suc k
            → name_at (item ∷ rest) j ≡ ok name
            → item.field_name ≢ name
            → ((j : ℕ) → j < k → name_at rest j ≢ ok name)
            → ⊥
        skip zero h e n least = absurd (ground arith)
        skip (suc j) h e n least = least j (omega arith) e
    later (inr (missing, none_named)) n = inr (missing, λ j e. skip j e n none_named)
      where
        skip :
            (j : ℕ)
            → name_at (item ∷ rest) j ≡ ok name
            → item.field_name ≢ name
            → ((j : ℕ) → name_at rest j ≢ ok name)
            → ⊥
        skip zero e n none_named = absurd (ground arith)
        skip (suc j) e n none_named = none_named j e

-- A lookup by name returns the least index that carries the name, and fails exactly when no
-- column does.
pub index_for_field_name_lem :
    (td : TupleDesc) (name : Bytes)
    → ((k : ℕ) × (index_for_field_name td name ≡ ok k)
        × (get_field_name td (pos k) ≡ ok name)
        × ((j : ℕ) → j < k → get_field_name td (pos j) ≢ ok name))
      ⊎ ((index_for_field_name td name ≡ err invalid_argument)
          × ((j : ℕ) → get_field_name td (pos j) ≢ ok name))
unfolding index_for_field_name get_field_name
index_for_field_name_lem td name = elim (index_from-Finds 0 name td.items) [
  | inl (k, found, named, least) ↦ inl (k, ground arith, named, least)
  | inr missing ↦ inr missing
]

items_size-append : (xs ys : List TdItem) → items_size (xs ++ ys) ≡ items_size xs + items_size ys
unfolding items_size
items_size-append [] ys = omega arith
items_size-append (x ∷ xs) ys = omega (arith, items_size-append xs ys)

pub get_size-join : (a b : TupleDesc) → get_size (join a b) ≡ get_size a + get_size b
unfolding get_size join
get_size-join a b = items_size-append a.items b.items
