-- ===== src/Execution/LogicalPlan/Resolved.antt =====
-- The columns that a logical plan names are columns of its tables
-- (komfydb/execution/logical_plan/logical_plan.cc).
use komfy_db.Base.{
  ℕ, ◌≡◌, refl, ap, sym, ◌∙◌, ◌⊎◌, inl, inr, true, false, List, [], ◌∷◌, ◌++◌, Option, none, some,
  if◌then◌else◌, Bytes, bytes_eq, bytes_eq_iff, All, All-append, All-imp, Bool-cases, Option-cases,
}
use komfy_db.Base.Maps.{lookup, insert, lookup-insert}
use komfy_db.Base.Status.{StatusOr, ok, err, fault, no_fuel, invalid_argument, ◌>>◌, >>=-eq-ok}
use komfy_db.Storage.Catalog.{Catalog}
use komfy_db.Execution.LogicalPlan.{
  ColumnRef, LogicalPlan, ScanNode, AggregateNode, JoinNode, join_columns, join_subplan, FilterNode,
  two_columns, column_constant, is_valid, is_star, check_in, check_ref,
}
use komfy_db.Execution.LogicalPlan.Build.{passed, scan_found}

-- The reference is the star, or a column of the table that the alias stands for.
abbrev pub Resolves : Catalog → List (Bytes × ℕ) → ColumnRef → Type 0
Resolves c m ref = check_ref c m ref ≡ ok tt

abbrev pub JoinResolves : {Sub : Type 0} → Catalog → List (Bytes × ℕ) → JoinNode Sub → Type 0
JoinResolves c m (join_columns lref op rref) = Resolves c m lref × Resolves c m rref
JoinResolves c m (join_subplan lref op subplan) = Resolves c m lref

abbrev pub FilterResolves : Catalog → List (Bytes × ℕ) → FilterNode → Type 0
FilterResolves c m (two_columns lcol op rcol) = Resolves c m lcol × Resolves c m rcol
FilterResolves c m (column_constant lcol op constant) = Resolves c m lcol

-- Every column that the plan names is one of its tables, every scan has its alias, and not both
-- selects and aggregates are there.
pub record IsResolved {Sub : Type 0} (p : LogicalPlan Sub) : Type 0 where
  pub scans : All (λ (s : ScanNode). lookup bytes_eq s.alias p.alias_to_id ≡ some s.id) p.scans
  pub joins : All (JoinResolves p.catalog p.alias_to_id) p.joins
  pub filters : All (FilterResolves p.catalog p.alias_to_id) p.filters
  pub selects : All (Resolves p.catalog p.alias_to_id) p.selects
  pub aggregates : All (λ (a : AggregateNode). Resolves p.catalog p.alias_to_id a.col) p.aggregates
  pub groups : All (Resolves p.catalog p.alias_to_id) p.groupby_cols
  pub order : is_valid p.order_by_column ≡ true → Resolves p.catalog p.alias_to_id p.order_by_column
  pub exclusive : (p.selects ≡ []) ⊎ (p.aggregates ≡ [])

-- a new alias leaves what the others stand for
pub insert_other :
    (alias table : Bytes) (id old : ℕ) (m : List (Bytes × ℕ))
    → lookup bytes_eq alias m ≡ none
    → lookup bytes_eq table m ≡ some old
    → lookup bytes_eq table (insert bytes_eq alias id m) ≡ lookup bytes_eq table m
insert_other alias table id old m absent there = elim (Bool-cases (bytes_eq alias table)) [
  | inl e ↦
      let same = (bytes_eq_iff alias table).0 e in
      let clash : ◌≡◌ {A = Option ℕ} none (some old) =
        sym absent ∙ ap (λ t. lookup bytes_eq t m) same ∙ there in
      cc
  | inr e ↦
      lookup-insert bytes_eq bytes_eq_iff alias table id m
      ∙ ap (λ b. if b then some id else lookup bytes_eq table m) e
]

check_ref-insert :
    (c : Catalog) (alias : Bytes) (id : ℕ) (m : List (Bytes × ℕ)) (ref : ColumnRef)
    → lookup bytes_eq alias m ≡ none
    → Resolves c m ref
    → Resolves c (insert bytes_eq alias id m) ref
unfolding check_ref
check_ref-insert c alias id m ref absent h = elim (Bool-cases (is_star ref)) [
  | inl star ↦
      ap
        (λ b.
          if b
          then ok tt
          else check_in c ref.column (lookup bytes_eq ref.table (insert bytes_eq alias id m)))
        star
  | inr column ↦ elim (Option-cases (lookup bytes_eq ref.table m)) [
    | inl missing ↦
        let clash : ◌≡◌ {A = StatusOr (Unit {0})} (err invalid_argument) (ok tt) =
          sym (at_column column (lookup bytes_eq ref.table m) ∙ ap (check_in c ref.column) missing)
          ∙ h in
        cc
    | inr (old, there) ↦
        at_column column (lookup bytes_eq ref.table (insert bytes_eq alias id m))
        ∙ ap (check_in c ref.column) (insert_other alias ref.table id old m absent there)
        ∙ sym (at_column column (lookup bytes_eq ref.table m))
        ∙ h
  ]
]
  where
    at_column :
        is_star ref ≡ false
        → (found : Option ℕ)
        → (if is_star ref then ok tt else check_in c ref.column found) ≡ check_in c ref.column found
    at_column e found = ap (λ b. if b then ok tt else check_in c ref.column found) e

-- what was added to a list
pub All-snoc :
    {A : Type 0} (P : A → Type 0) (xs : List A) (x : A) → All P xs → P x → All P (xs ++ x ∷ [])
All-snoc P xs x h k = All-append P xs (x ∷ []) h (k, tt)

pub both_passed : (a b : StatusOr (Unit {0})) → (a >> b) ≡ ok tt → (a ≡ ok tt) × (b ≡ ok tt)
both_passed a b h = let (u, e, k) = >>=-eq-ok a (λ _. b) h in (e, k)

module _ {Sub : Type 0} where
  -- the calls that fail change nothing, the others know that their checks passed
  pub passed-IsResolved :
      (r : StatusOr (Unit {0})) (p : LogicalPlan Sub) (done : LogicalPlan Sub × StatusOr (Unit {0}))
      → IsResolved p
      → (r ≡ ok tt → IsResolved done.0)
      → IsResolved (passed r p done).0
  passed-IsResolved (ok tt) p done h next = next refl
  passed-IsResolved (err c) p done h next = h
  passed-IsResolved fault p done h next = h
  passed-IsResolved no_fuel p done h next = h

  pub scan_found-IsResolved :
      (table_id : ℕ) (alias : Bytes) (p : LogicalPlan Sub) (found : Option ℕ)
      → lookup bytes_eq alias p.alias_to_id ≡ found
      → IsResolved p
      → IsResolved (scan_found table_id alias p found).0
  scan_found-IsResolved table_id alias p (some id) e h = h
  scan_found-IsResolved table_id alias p none e h = record {
    scans =
        All-snoc _ p.scans _
          (All-imp (λ (s : ScanNode). lookup bytes_eq s.alias p.alias_to_id ≡ some s.id) _ p.scans
            (λ s k. insert_other alias s.alias table_id s.id p.alias_to_id e k ∙ k) h.scans)
          (lookup-insert bytes_eq bytes_eq_iff alias alias table_id p.alias_to_id
            ∙ ap (λ b. if b then some table_id else lookup bytes_eq alias p.alias_to_id)
                ((bytes_eq_iff alias alias).1 refl));
    joins = All-imp (JoinResolves p.catalog p.alias_to_id) _ p.joins join_still h.joins;
    filters = All-imp (FilterResolves p.catalog p.alias_to_id) _ p.filters filter_still h.filters;
    selects = All-imp (Resolves p.catalog p.alias_to_id) _ p.selects still h.selects;
    aggregates =
        All-imp (λ (a : AggregateNode). Resolves p.catalog p.alias_to_id a.col) _ p.aggregates
          (λ a. still a.col) h.aggregates;
    groups = All-imp (Resolves p.catalog p.alias_to_id) _ p.groupby_cols still h.groups;
    order = λ v. still p.order_by_column (h.order v);
    exclusive = h.exclusive;
  }
    where
      still :
          (ref : ColumnRef)
          → Resolves p.catalog p.alias_to_id ref
          → Resolves p.catalog (insert bytes_eq alias table_id p.alias_to_id) ref
      still ref k = check_ref-insert p.catalog alias table_id p.alias_to_id ref e k

      join_still :
          (j : JoinNode Sub)
          → JoinResolves p.catalog p.alias_to_id j
          → JoinResolves p.catalog (insert bytes_eq alias table_id p.alias_to_id) j
      join_still (join_columns lref op rref) k = (still lref k.0, still rref k.1)
      join_still (join_subplan lref op subplan) k = still lref k

      filter_still :
          (f : FilterNode)
          → FilterResolves p.catalog p.alias_to_id f
          → FilterResolves p.catalog (insert bytes_eq alias table_id p.alias_to_id) f
      filter_still (two_columns lcol op rcol) k = (still lcol k.0, still rcol k.1)
      filter_still (column_constant lcol op constant) k = still lcol k
