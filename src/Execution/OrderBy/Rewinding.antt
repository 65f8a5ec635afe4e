-- ===== src/Execution/OrderBy/Rewinding.antt =====
-- Rewinding a sort (komfydb/execution/order_by.cc).
use mathlib.Core.Path.{subst}
use komfy_db.Base.{
  zero, suc, get_elem?, set, ◌<◌, length-append, length-map, ℕ, ◌≤◌, ◌≡◌, refl, ◌∙◌, ap, ◌⊎◌, inl,
  inr, Bool, false, List, [], ◌∷◌, ◌++◌, map, Option, none, some, length, arith, ltb, at?,
}
use komfy_db.Base.Int.{ℤ}
use komfy_db.Base.Status.{
  StatusOr, ok, err, fault, out_of_range, value, or_err, invalid_argument, ◌>>=◌,
}
use komfy_db.Common.Field.{Field}
use komfy_db.Common.Tuple.{get_field, not_set}
use komfy_db.Storage.Ids.{Record}
use komfy_db.Execution.Iterator.{OpIterator, Operator, Iter, iterator, fresh, next, rewind_iter}
use komfy_db.Execution.Iterator.Streams.{Streams}
use komfy_db.Execution.Modify.Once.{collect-Streams}
use komfy_db.Execution.OrderBy.{
  Order, OrderBy, collect, key, all_keys, sort_records, prepare, then_prepare, moved, fetch,
  order_by,
}

Keyed : StatusOr Field → Type 0
Keyed m = ((f : Field) × (m ≡ ok f)) ⊎ (m ≡ fault)

key-cases : (i : ℤ) (r : Record) → Keyed (key i (some r))
unfolding key get_field Keyed
key-cases i r = of_field (at? r.tuple i)
  where
    of_field : (f : Option (Option Field)) → Keyed (value (or_err f invalid_argument >>= not_set))
    of_field none = inr refl
    of_field (some none) = inr refl
    of_field (some (some f)) = inl (f, refl)

-- A list with a null record.
abbrev pub HasNull : List (Option Record) → Type 0
HasNull [] = ⊥
HasNull (none ∷ rs) = Unit
HasNull (some r ∷ rs) = HasNull rs

HasNull-set :
    (rs : List (Option Record)) (i : ℕ) (r : Option Record)
    → get_elem? rs i ≡ some r
    → HasNull (set rs i none)
HasNull-set [] i r h = absurd cc
HasNull-set (r' ∷ rs) zero r h = tt
HasNull-set (none ∷ rs) (suc i) r h = tt
HasNull-set (some r' ∷ rs) (suc i) r h = HasNull-set rs i r h

HasNull-append : (xs ys : List (Option Record)) → HasNull xs → HasNull (xs ++ ys)
HasNull-append [] ys m = absurd m
HasNull-append (none ∷ xs) ys m = tt
HasNull-append (some r ∷ xs) ys m = HasNull-append xs ys m

HasNull-length : (xs : List (Option Record)) → HasNull xs → 1 ≤ length xs
HasNull-length [] m = absurd m
HasNull-length (x ∷ xs) m = omega arith

all_keys-HasNull : (i : ℤ) (rs : List (Option Record)) → HasNull rs → all_keys i rs ≡ fault
unfolding all_keys Keyed
all_keys-HasNull i [] m = absurd m
all_keys-HasNull i (none ∷ rs) m = refl
all_keys-HasNull i (some r ∷ rs) m = elim (key-cases i r) [
  | inl (f, e) ↦ rw (e, all_keys-HasNull i rs m) refl
  | inr e ↦ rw e refl
]

rewind_iter-fault :
    {S : Type 0} (op : Operator S) (it : Iter S) {s : S}
    → op.rewind_own it.own ≡ (s, fault)
    → (rewind_iter op it).1 ≡ fault
unfolding rewind_iter
rewind_iter-fault op it h = rw (h, rewind_iter) refl

module _
    (std_sort : ((Record × Field) → (Record × Field) → Bool)
      → List (Record × Field)
      → List (Record × Field)) where
  sort_records-HasNull :
      (o : Order) (i : ℤ) (rs : List (Option Record))
      → 2 ≤ length rs
      → HasNull rs
      → sort_records std_sort o i rs ≡ fault
  unfolding sort_records
  sort_records-HasNull o i rs two m = rw (many, all_keys-HasNull i rs m) refl
    where
      many : ltb (length rs) 2 ≡ false
      many = ground arith

  prepare-HasNull :
      {C : Type 0} (child : OpIterator C) (o : Order) (i : ℤ) (fuel : ℕ) (s : OrderBy C) (e : C)
      (rs : List Record)
      → collect child fuel s.child ≡ (e, rs, err out_of_range)
      → 2 ≤ length (s.child_records ++ map some rs)
      → HasNull (s.child_records ++ map some rs)
      → prepare std_sort child o i fuel s
        ≡ (record s { child = e; child_records = s.child_records ++ map some rs }, fault)
  unfolding prepare
  prepare-HasNull child o i fuel s e rs all two m =
      rw (all, sort_records-HasNull o i (s.child_records ++ map some rs) two m) refl

  prepared_again :
      {C : Type 0} (child : OpIterator C) (o : Order) (i : ℤ) (fuel : ℕ) (s : OrderBy C) (c e : C)
      (rs : List Record)
      → child.rewind s.child ≡ (c, ok tt)
      → collect child fuel c ≡ (e, rs, err out_of_range)
      → 2 ≤ length (s.child_records ++ map some rs)
      → HasNull (s.child_records ++ map some rs)
      → (order_by std_sort child o i fuel).rewind_own s
        ≡ (record s { child = e; child_records = s.child_records ++ map some rs }, fault)
  prepared_again child o i fuel s c e rs back all two m =
      ap (then_prepare std_sort child o i fuel s) back
      ∙ prepare-HasNull child o i fuel (record s { child = c }) e rs all two m

  -- What `FetchNext` leaves where it gives a record: the same child, and a null record.
  module _ {C : Type 0} (child : OpIterator C) (o : Order) (i : ℤ) (fuel : ℕ) where
    moved-HasNull :
        (s s' : OrderBy C) (r : Record) (found : Option (Option Record))
        → get_elem? s.child_records s.it ≡ found
        → moved std_sort child o i fuel s found ≡ (s', ok r)
        → (s'.child ≡ s.child) × HasNull s'.child_records
    moved-HasNull s s' r none at h = absurd cc
    moved-HasNull s s' r (some none) at h = absurd cc
    moved-HasNull s s' r (some (some r')) at h =
        subst (λ (t : OrderBy C). (t.child ≡ s.child) × HasNull t.child_records)
          (ap (λ (x : OrderBy C × StatusOr Record). x.0) h)
          (refl, HasNull-set s.child_records s.it (some r') at)

    fetch-HasNull :
        (s s' : OrderBy C) (r : Record)
        → fetch std_sort child o i fuel s ≡ (s', ok r)
        → (s'.child ≡ s.child) × HasNull s'.child_records
    unfolding fetch
    fetch-HasNull s s' r h = moved-HasNull s s' r (get_elem? s.child_records s.it) refl h

    -- A sort of which `Next` gave a record cannot be rewound: where its child can be, and then gives at
    -- least one record, `Rewind` dereferences a null record, since `FetchNext` moved a record out of
    -- `child_records` and `Rewind` does not clear them.
    pub order_by-rewind_faults :
        (s : OrderBy C) (it : Iter (OrderBy C)) (r : Record) (c e : C) (rs : List Record)
        → (iterator (order_by std_sort child o i fuel)).next (fresh s) ≡ (it, ok r)
        → child.rewind s.child ≡ (c, ok tt)
        → Streams child c rs e
        → 1 ≤ length rs
        → length rs < fuel
        → ((iterator (order_by std_sort child o i fuel)).rewind it).1 ≡ fault
    unfolding next
    order_by-rewind_faults s it r c e rs given back streams some_left enough =
        let own : fetch std_sort child o i fuel s ≡ (it.own, ok r) =
          ap (λ (x : Iter (OrderBy C) × StatusOr Record). (x.0.own, x.1)) given in
        let (same, null) = fetch-HasNull s it.own r own in
        let long : 2 ≤ length (it.own.child_records ++ map some rs) = omega (
          arith,
          length-append it.own.child_records (map some rs),
          length-map rs some,
          HasNull-length it.own.child_records null,
        ) in
        let again =
          prepared_again child o i fuel it.own c e rs (ap child.rewind same ∙ back)
            (collect-Streams child fuel streams enough) long
            (HasNull-append it.own.child_records (map some rs) null) in
        rewind_iter-fault (order_by std_sort child o i fuel) it again
