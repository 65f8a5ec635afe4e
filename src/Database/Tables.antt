-- ===== src/Database/Tables.antt =====
-- A table, once there, is never replaced: komfydb/database.cc.
use mathlib.Core.Path.{subst}
use mathlib.Core.Bool.{true≢false}
use komfy_db.Base.{
  some, same_or_other, ℕ, suc, ◌+◌, ◌<◌, ◌≤◌, ◌^◌, ◌≡◌, ◌≢◌, inl, inr, refl, sym, ap, ◌∙◌, false,
  List, [], ◌∷◌, Bytes, length, arith, Bool-cases,
}
use komfy_db.Base.State.{after}
use komfy_db.Base.Status.{StatusOr, ok, err, fault, no_fuel, ok-injective}
use komfy_db.Common.TupleDesc.{TupleDesc}
use komfy_db.Database.{
  Database, catalog_of, is_ok, created, create_table, load_query, load_lines, load_schema,
}
use komfy_db.Parser.Statement.{Query, Iterator, Interface, parse_query}
use komfy_db.Storage.Catalog.{get_table_id, get_tuple_desc}
use komfy_db.Storage.Catalog.Reads.{add_table_lem, add_table_others}
use komfy_db.Storage.HeapFile
use komfy_db.Storage.HeapFile.{HeapFile, Stream}

-- The number of every table was given out by the counter.
pub record IsSettled (d : Database) : Type 0 where
  pub counted :
      (name : Bytes) (id : ℕ) → get_table_id (catalog_of d) name ≡ ok id → id ≤ d.table_cnt

-- The tables of `d` have their numbers and schemas in `d'`.
pub record KeepsTables (d d' : Database) : Type 0 where
  pub kept :
      (name : Bytes) (id : ℕ) (td : TupleDesc)
      → get_table_id (catalog_of d) name ≡ ok id
      → get_tuple_desc (catalog_of d) id ≡ ok td
      → (get_table_id (catalog_of d') name ≡ ok id) × (get_tuple_desc (catalog_of d') id ≡ ok td)

-- The table is there with its schema.
abbrev pub HasTable : Database → Bytes → TupleDesc → Type 0
HasTable d name td =
    (id : ℕ) × (get_table_id (catalog_of d) name ≡ ok id)
    × (get_tuple_desc (catalog_of d) id ≡ ok td)

KeepsTables-refl : (d : Database) → KeepsTables d d
KeepsTables-refl d = record { kept = λ name id td h k. (h, k) }

KeepsTables-trans : {a b c : Database} → KeepsTables a b → KeepsTables b c → KeepsTables a c
KeepsTables-trans p q = record {
  kept = λ name id td h k. let (h', k') = p.kept name id td h k in q.kept name id td h' k';
}

create-id :
    (stream : Stream) (td : TupleDesc) (table_cnt : ℕ) (file : HeapFile) (cnt : ℕ)
    → HeapFile.create stream td table_cnt ≡ ok (file, cnt)
    → table_cnt + 1 < 2 ^ 32
    → (file.table_id ≡ suc table_cnt) × (file.tuple_desc ≡ td) × (cnt ≡ suc table_cnt)
unfolding HeapFile.create
create-id stream td table_cnt file cnt h small = ground arith

-- What a call makes of a database: its tables stay, the counter moves by at most one.
pub record Grows (d d' : Database) (n : ℕ) : Type 0 where
  pub settled : IsSettled d'
  pub tables : KeepsTables d d'
  pub counter : d'.table_cnt ≤ d.table_cnt + n

Grows-refl : (d : Database) (n : ℕ) → IsSettled d → Grows d d n
Grows-refl d n s = record { settled = s; tables = KeepsTables-refl d; counter = omega arith }

module _ (name key : Bytes) (d : Database) (file : HeapFile) (cnt : ℕ) where
  abbrev added : Database
  added = (created name key d (ok (file, cnt))).0

  added-Grows :
      is_ok (get_table_id (catalog_of d) name) ≡ false
      → file.table_id ≡ suc d.table_cnt
      → cnt ≡ suc d.table_cnt
      → IsSettled d
      → Grows d added 1
  added-Grows absent new next s = record {
    settled = record {
      counted = λ other id h. elim (same_or_other name other) [
        | inl e ↦ counted_new other id e h
        | inr ne ↦ counted_old other id ne h
      ];
    };
    tables = record {
      kept = λ other id td h k.
          let fresh : file.table_id ≢ id = λ e. absurd (omega (arith, s.counted other id h)) in
          let ne : name ≢ other = λ e. not_there other id e h in
          let same = add_table_others (catalog_of d) file name key other id fresh ne in
          (same.0 ∙ h, same.2 ∙ k);
    };
    counter = omega arith;
  }
    where
      not_there :
          (other : Bytes) (id : ℕ) → name ≡ other → get_table_id (catalog_of d) other ≡ ok id → ⊥
      not_there other id e h =
          true≢false (sym (ap is_ok (ap (get_table_id (catalog_of d)) e ∙ h)) ∙ absent)

      counted_new :
          (other : Bytes) (id : ℕ)
          → name ≡ other
          → get_table_id (catalog_of added) other ≡ ok id
          → id ≤ cnt
      counted_new other id e h =
          let found = (add_table_lem (catalog_of d) file name key).0 in
          let same = ok-injective (sym found ∙ ap (get_table_id (catalog_of added)) e ∙ h) in
          omega arith

      counted_old :
          (other : Bytes) (id : ℕ)
          → name ≢ other
          → get_table_id (catalog_of added) other ≡ ok id
          → id ≤ cnt
      counted_old other id ne h =
          let same =
            (add_table_others (catalog_of d) file name key other (suc file.table_id)
              (λ e. absurd (omega arith)) ne).0 in
          omega (arith, s.counted other id (sym same ∙ h))

  added-HasTable : HasTable added name file.tuple_desc
  added-HasTable =
      let found = add_table_lem (catalog_of d) file name key in (file.table_id, found.0, found.3)

module _ (files : Bytes → Stream) where
  -- `create_table` on a database whose counter has numbered its tables, and can go on: each table keeps its
  -- number and schema, the counter moves by at most one and stays ahead, and if the call returns ok the
  -- new table is there with its schema.
  pub create_table-Grows :
      (name : Bytes) (td : TupleDesc) (key : Bytes) (d : Database)
      → IsSettled d
      → d.table_cnt + 1 < 2 ^ 32
      → Grows d (create_table files name td key d).0 1
        × ((create_table files name td key d).1 ≡ ok tt
            → HasTable (create_table files name td key d).0 name td)
  unfolding create_table
  create_table-Grows name td key d s small =
      elim (Bool-cases (is_ok (get_table_id (catalog_of d) name))) [
        | inl there ↦ rw there (Grows-refl d 1 s, λ e. cc)
        | inr absent ↦ rw absent (opened (HeapFile.create (files name) td d.table_cnt) refl absent)
      ]
    where
      opened :
          (r : StatusOr (HeapFile × ℕ))
          → HeapFile.create (files name) td d.table_cnt ≡ r
          → is_ok (get_table_id (catalog_of d) name) ≡ false
          → Grows d (created name key d r).0 1
            × ((created name key d r).1 ≡ ok tt → HasTable (created name key d r).0 name td)
      opened (ok (file, cnt)) e absent =
          let (id, same, next) = create-id (files name) td d.table_cnt file cnt e small in
          (
            added-Grows name key d file cnt absent id next s,
            λ _.
                subst (HasTable (added name key d file cnt) name) same
                  (added-HasTable name key d file cnt),
          )
      opened (err c) e absent = (Grows-refl d 1 s, λ e. cc)
      opened fault e absent = (Grows-refl d 1 s, λ e. cc)
      opened no_fuel e absent = (Grows-refl d 1 s, λ e. cc)

  module _ (uses : Interface) where
    load_query-Grows :
        (query : Query (Iterator (uses.I))) (d : Database)
        → IsSettled d
        → d.table_cnt + 1 < 2 ^ 32
        → Grows d (load_query files uses query d).0 1
    load_query-Grows (Query.create_table name td key) d s small =
        (create_table-Grows name td key d s small).0
    load_query-Grows (Query.iterator it) d s small = Grows-refl d 1 s
    load_query-Grows Query.show_tables d s small = Grows-refl d 1 s
    load_query-Grows (Query.show_columns name) d s small = Grows-refl d 1 s

    Grows-trans : {a b c : Database} {n : ℕ} → Grows a b 1 → Grows b c n → Grows a c (suc n)
    Grows-trans p q = record {
      settled = q.settled;
      tables = KeepsTables-trans p.tables q.tables;
      counter = omega (arith, p.counter, q.counter);
    }

    -- the lines behind one that was read
    Continues : List Bytes → Type 0
    Continues commands =
        (d : Database)
        → IsSettled d
        → d.table_cnt + length commands < 2 ^ 32
        → Grows d (load_lines files uses commands d).0 (length commands)

    after-Grows :
        (commands : List Bytes) (d d' : Database) (r : StatusOr (Unit {0}))
        → Continues commands
        → d.table_cnt + suc (length commands) < 2 ^ 32
        → Grows d d' 1
        → Grows d (after (λ u. load_lines files uses commands) d' r).0 (suc (length commands))
    unfolding Continues
    after-Grows commands d d' (ok u) next small g =
        Grows-trans g (next d' g.settled (omega (arith, g.counter)))
    after-Grows commands d d' (err c) next small g =
        Grows-trans g (Grows-refl d' (length commands) g.settled)
    after-Grows commands d d' fault next small g =
        Grows-trans g (Grows-refl d' (length commands) g.settled)
    after-Grows commands d d' no_fuel next small g =
        Grows-trans g (Grows-refl d' (length commands) g.settled)

    parsed-Grows :
        (r : StatusOr (Query (Iterator (uses.I)))) (d : Database)
        → IsSettled d
        → d.table_cnt + 1 < 2 ^ 32
        → Grows d (after (load_query files uses) d r).0 1
    parsed-Grows (ok q) d s small = load_query-Grows q d s small
    parsed-Grows (err c) d s small = Grows-refl d 1 s
    parsed-Grows fault d s small = Grows-refl d 1 s
    parsed-Grows no_fuel d s small = Grows-refl d 1 s

    load_lines-Grows : (commands : List Bytes) → Continues commands
    unfolding load_lines Continues
    load_lines-Grows [] d s small = Grows-refl d 0 s
    load_lines-Grows (command ∷ commands) d s small =
        let q = after (load_query files uses) d (parse_query uses (catalog_of d) command) in
        after-Grows commands d q.0 q.1 (load_lines-Grows commands) small
          (parsed-Grows (parse_query uses (catalog_of d) command) d s (omega arith))

    -- Loading a schema of any lines, also up to a line that fails: each table that was there keeps its number
    -- and schema, and the counter stays ahead of all tables and moves by at most the number of lines.
    pub load_schema-Grows :
        (commands : List Bytes) (d : Database)
        → IsSettled d
        → d.table_cnt + length commands < 2 ^ 32
        → Grows d (load_schema files uses (some commands) d).0 (length commands)
    unfolding load_schema Continues
    load_schema-Grows commands d s small = load_lines-Grows commands d s small
