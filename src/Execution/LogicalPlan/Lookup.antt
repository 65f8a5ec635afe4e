-- ===== src/Execution/LogicalPlan/Lookup.antt =====
-- Columns that are named without a table (komfydb/execution/logical_plan/logical_plan.cc,
-- `GetColumnRef`).
use mathlib.Core.Path.{subst}
use komfy_db.Base.{
  ℕ, ◌≡◌, refl, ap, sym, ◌∙◌, ◌⊎◌, inl, inr, true, false, List, [], ◌∷◌, ◌++◌, Bytes, All,
  if◌then◌else◌,
}
use komfy_db.Base.Status.{
  StatusOr, Code, ok, err, fault, no_fuel, invalid_argument, >>=-eq-ok, ok-injective,
}
use komfy_db.Common.TupleDesc.{TupleDesc, index_for_field_name}
use komfy_db.Storage.Catalog.{Catalog, get_tuple_desc}
use komfy_db.Execution.LogicalPlan.{
  ColumnRef, LogicalPlan, is_empty, found_in, find_table, get_column_ref,
}

module _ (c : Catalog) (column : Bytes) where
  -- The table of an alias has the column, or lacks it.
  abbrev pub Has : Bytes × ℕ → Type 0
  Has entry =
      (td : TupleDesc) × (k : ℕ) × (get_tuple_desc c entry.1 ≡ ok td)
      × (index_for_field_name td column ≡ ok k)

  abbrev pub Lacks : Bytes × ℕ → Type 0
  Lacks entry =
      (td : TupleDesc) × (e : Code) × (get_tuple_desc c entry.1 ≡ ok td)
      × (index_for_field_name td column ≡ err e)

  -- Of all aliases just this one has it.
  pub record IsOwner (entries : List (Bytes × ℕ)) (alias : Bytes) : Type 0 where
    pub id : ℕ
    pub before : List (Bytes × ℕ)
    pub behind : List (Bytes × ℕ)
    pub split : entries ≡ before ++ (alias, id) ∷ behind
    pub has : Has (alias, id)
    pub lack_before : All Lacks before
    pub lack_behind : All Lacks behind

  found_in-cases :
      (r : StatusOr ℕ) (table alias : Bytes) {t : Bytes}
      → found_in r table alias ≡ ok t
      → ((k : ℕ) × (r ≡ ok k) × (is_empty table ≡ true) × (t ≡ alias))
        ⊎ ((e : Code) × (r ≡ err e) × (t ≡ table))
  found_in-cases (ok k) [] alias h = inl (k, refl, refl, sym (ok-injective h))
  found_in-cases (ok k) (b ∷ bs) alias h = cc
  found_in-cases (err e) table alias h = inr (e, refl, sym (ok-injective h))
  found_in-cases fault table alias h = cc
  found_in-cases no_fuel table alias h = cc

  -- a round of the loop
  find_table-step :
      (alias : Bytes) (id : ℕ) (rest : List (Bytes × ℕ)) (table : Bytes) {r : Bytes}
      → find_table c column ((alias, id) ∷ rest) table ≡ ok r
      → ((is_empty table ≡ true) × Has (alias, id) × (find_table c column rest alias ≡ ok r))
        ⊎ (Lacks (alias, id) × (find_table c column rest table ≡ ok r))
  unfolding find_table
  find_table-step alias id rest table h =
      let (td, e1, h1) = >>=-eq-ok (get_tuple_desc c id) _ h in
      let (t, e2, h2) = >>=-eq-ok (found_in (index_for_field_name td column) table alias) _ h1 in
      elim (found_in-cases (index_for_field_name td column) table alias e2) [
        | inl (k, i, none_yet, same) ↦
            inl (none_yet, (td, k, e1, i), ap (find_table c column rest) (sym same) ∙ h2)
        | inr (e, i, same) ↦ inr ((td, e, e1, i), ap (find_table c column rest) (sym same) ∙ h2)
      ]

  -- with a table found, no other may have the column
  find_table-found :
      (entries : List (Bytes × ℕ)) (table : Bytes) {r : Bytes}
      → is_empty table ≡ false
      → find_table c column entries table ≡ ok r
      → All Lacks entries × (r ≡ table)
  unfolding find_table
  find_table-found [] table some_table h = (tt, sym (ok-injective h))
  find_table-found ((alias, id) ∷ rest) table some_table h =
      elim (find_table-step alias id rest table h) [
        | inl (none_yet, has, next) ↦ let clash : true ≡ false = sym none_yet ∙ some_table in cc
        | inr (lacks, next) ↦
            let (all, same) = find_table-found rest table some_table next in ((lacks, all), same)
      ]

  find_table-IsOwner :
      (entries : List (Bytes × ℕ)) {r : Bytes}
      → All (λ entry. is_empty entry.0 ≡ false) entries
      → find_table c column entries [] ≡ ok r
      → ((r ≡ []) × All Lacks entries) ⊎ IsOwner entries r
  unfolding find_table
  find_table-IsOwner [] named h = inl (sym (ok-injective h), tt)
  find_table-IsOwner ((alias, id) ∷ rest) named h = elim (find_table-step alias id rest [] h) [
    | inl (none_yet, has, next) ↦
        let (all, same) = find_table-found rest alias named.0 next in
        inr (
          subst (IsOwner ((alias, id) ∷ rest)) (sym same) (record {
            id = id;
            before = [];
            behind = rest;
            split = refl;
            has = has;
            lack_before = tt;
            lack_behind = all;
          }))
    | inr (lacks, next) ↦ elim (find_table-IsOwner rest named.1 next) [
      | inl (same, all) ↦ inl (same, (lacks, all))
      | inr o ↦ inr (record {
        id = o.id;
        before = (alias, id) ∷ o.before;
        behind = o.behind;
        split = ap (λ es. (alias, id) ∷ es) o.split;
        has = o.has;
        lack_before = (lacks, o.lack_before);
        lack_behind = o.lack_behind;
      })
    ]
  ]

-- the end of `GetColumnRef`
named_ref :
    (t column : Bytes) {ref : ColumnRef}
    → (if is_empty t then err invalid_argument else ok (record { table = t; column = column }))
      ≡ ok ref
    → (is_empty t ≡ false) × (ref ≡ record { table = t; column = column })
named_ref [] column h = cc
named_ref (b ∷ bs) column h = (refl, sym (ok-injective h))

-- `GetColumnRef` without a table, where no alias is empty: where it succeeds the column is the given
-- one and its table is the only alias whose table has such a column, whatever the order in which
-- the aliases are looked through.
pub get_column_ref_unique :
    {Sub : Type 0} (p : LogicalPlan Sub) (column : Bytes) (ref : ColumnRef)
    → All (λ entry. is_empty entry.0 ≡ false) p.alias_to_id
    → get_column_ref p [] column ≡ ok ref
    → (ref.column ≡ column) × IsOwner p.catalog column p.alias_to_id ref.table
unfolding get_column_ref
get_column_ref_unique p column ref named h =
    let (t, e, h') = >>=-eq-ok (find_table p.catalog column p.alias_to_id []) _ h in
    let (some_table, same) = named_ref t column h' in
    elim (find_table-IsOwner p.catalog column p.alias_to_id named e) [
      | inl (nothing, all) ↦ let clash : true ≡ false = sym (ap is_empty nothing) ∙ some_table in cc
      | inr o ↦ (
        ap (λ (r : ColumnRef). r.column) same,
        subst (IsOwner p.catalog column p.alias_to_id) (sym (ap (λ (r : ColumnRef). r.table) same))
            o,
      )
    ]
