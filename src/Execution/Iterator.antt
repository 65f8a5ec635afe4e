-- ===== src/Execution/Iterator.antt =====
-- The iterator protocol of komfydb/execution/op_iterator.h and op_iterator.cc: `Next` and `HasNext`
-- over the virtual `FetchNext`, with the record that was fetched ahead.
pub mod Streams
use komfy_db.Base.{Bool, true, false, Option, none, some, if◌then◌else◌}
use komfy_db.Base.State.{State}
use komfy_db.Base.Status.{StatusOr, Status, ok, err, fault, no_fuel}
use komfy_db.Storage.Ids.{Record}

-- What a parent calls on a child of class state `C`.
pub record OpIterator (C : Type 0) : Type 0 where
  pub open_it : State C (Unit {0})
  pub rewind : State C (Unit {0})
  pub has_next : State C (Unit {0})
  pub next : State C Record

-- What a class defines: `Open` and `Rewind`, whether `Rewind` resets `next_record`, and `FetchNext`,
-- which stores the record that it returns here in `next_record`.
pub record Operator (S : Type 0) : Type 0 where
  pub open_own : State S (Unit {0})
  pub rewind_own : State S (Unit {0})
  pub resets : Bool
  pub fetch_next : State S Record

-- An object: the members of its class, and `next_record`.
pub record Iter (S : Type 0) : Type 0 where
  pub own : S
  pub next_record : Option Record

-- A fresh object.
abbrev pub fresh : {S : Type 0} → S → Iter S
fresh s = record { own = s; next_record = none }

module _ {S : Type 0} (op : Operator S) where
  unfoldable pub open_iter : State (Iter S) (Unit {0})
  open_iter it = let (s, r) = op.open_own it.own in (record it { own = s }, r)

  unfoldable pub rewind_iter : State (Iter S) (Unit {0})
  rewind_iter it =
      let (s, r) = op.rewind_own it.own in
      elim r [
        | ok _ ↦
            (record { own = s; next_record = if op.resets then none else it.next_record }, ok tt)
        | other ↦ (record it { own = s }, other)
      ]

  -- `OpIterator::HasNext`
  unfoldable pub has_next : State (Iter S) (Unit {0})
  has_next it = elim it.next_record [
    | some r ↦ (it, ok tt)
    | none ↦
        let (s, r) = op.fetch_next it.own in
        elim r [
          | ok x ↦ (record { own = s; next_record = some x }, ok tt)
          | err c ↦ (fresh s, err c)
          | fault ↦ (fresh s, fault)
          | no_fuel ↦ (fresh s, no_fuel)
        ]
  ]

  -- `OpIterator::Next`: the record moves out.
  unfoldable pub next : State (Iter S) Record
  next it = elim it.next_record [
    | some r ↦ (fresh it.own, ok r)
    | none ↦ let (s, r) = op.fetch_next it.own in (fresh s, r)
  ]

  abbrev pub iterator : OpIterator (Iter S)
  iterator = record { open_it = open_iter; rewind = rewind_iter; has_next = has_next; next = next }
