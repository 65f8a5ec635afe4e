-- ===== src/Execution/Join.antt =====
-- Nested loop joins: komfydb/execution/join.cc.
pub mod Streaming
use komfy_db.Base.{ℕ, zero, suc, Bool, true, false, Option, none, some, if◌then◌else◌}
use komfy_db.Base.Int.{negsuc}
use komfy_db.Base.State.{State}
use komfy_db.Base.Status.{
  StatusOr, Status, Code, ok, err, fault, no_fuel, out_of_range, invalid_argument,
  failed_precondition, unimplemented, value,
}
use komfy_db.Common.Tuple
use komfy_db.Storage.Ids.{PageId, RecordId, Record}
use komfy_db.Execution.Iterator.{OpIterator, Operator}
use komfy_db.Execution.Predicate.{JoinPredicate, matches}

pub record Join (L R : Type 0) : Type 0 where
  pub l_child : L
  pub r_child : R
  pub l_child_next : Option Record

-- `joined_record_id`
abbrev pub joined_record_id : RecordId
joined_record_id = record { pid = record { table_id = 0; page_no = 0 }; tuple_no = negsuc 0 }

abbrev pub joined : Record → Record → Record
joined l r = record { tuple = (Tuple.join l.tuple r.tuple).0; rid = joined_record_id }

module _ {L R : Type 0} (lo : OpIterator L) (ro : OpIterator R) (p : JoinPredicate) where
  -- The inner loop: the next record of the right child that matches `l`, or the status that ended
  -- the loop. It takes at most `fuel` records.
  unfoldable pub inner : ℕ → Record → R → R × StatusOr Record
  inner zero l r = (r, no_fuel)
  inner (suc fuel) l r = elim (ro.has_next r).1 [
    | err c ↦ ((ro.has_next r).0, err c)
    | fault ↦ ((ro.has_next r).0, fault)
    | no_fuel ↦ ((ro.has_next r).0, no_fuel)
    | ok _ ↦
        let (r', m) = ro.next (ro.has_next r).0 in
        elim (value m) [
          | ok potential_match ↦
              let rest = inner fuel l r' in
              elim (matches p l.tuple potential_match.tuple) [
                | ok b ↦ if b then (r', ok (joined l potential_match)) else rest
                | err c ↦ (r', fault)
                | fault ↦ (r', fault)
                | no_fuel ↦ (r', no_fuel)
              ]
          | err c ↦ (r', fault)
          | fault ↦ (r', fault)
          | no_fuel ↦ (r', no_fuel)
        ]
  ]

  -- The next record of the left child, if none is held.
  unfoldable pub load_left : Join L R → Join L R × StatusOr Record
  load_left s = elim s.l_child_next [
    | some l ↦ (s, ok l)
    | none ↦ elim (lo.has_next s.l_child).1 [
      | err c ↦ (record s { l_child = (lo.has_next s.l_child).0 }, err c)
      | fault ↦ (record s { l_child = (lo.has_next s.l_child).0 }, fault)
      | no_fuel ↦ (record s { l_child = (lo.has_next s.l_child).0 }, no_fuel)
      | ok _ ↦
          let (l, m) = lo.next (lo.has_next s.l_child).0 in
          elim (value m) [
            | ok x ↦ (record s { l_child = l; l_child_next = some x }, ok x)
            | other ↦ (record s { l_child = l }, other)
          ]
    ]
  ]

  -- `RETURN_IF_NOT_OOR`, then the right child starts again.
  unfoldable pub restart_right : Join L R → Code → Join L R × Status
  restart_right s out_of_range =
      let (r, m) = ro.rewind s.r_child in (record s { r_child = r; l_child_next = none }, m)
  restart_right s other = (s, err other)

  -- `FetchNext`: the outer loop, `fuel` rounds at most, each inner loop with `inner_fuel`.
  unfoldable pub fetch : (fuel inner_fuel : ℕ) → State (Join L R) Record
  unfolding inner load_left restart_right
  fetch zero k s = (s, no_fuel)
  fetch (suc fuel) k s =
      let (s1, left) = load_left s in
      elim left [
        | err c ↦ (s1, err c)
        | fault ↦ (s1, fault)
        | no_fuel ↦ (s1, no_fuel)
        | ok l ↦
            let (r, m) = inner k l s1.r_child in
            let s2 = record s1 { r_child = r } in
            elim m [
              | ok x ↦ (s2, ok x)
              | fault ↦ (s2, fault)
              | no_fuel ↦ (s2, no_fuel)
              | err c ↦
                  let (s3, status) = restart_right s2 c in
                  let rest = fetch fuel k s3 in
                  elim status [
                    | ok _ ↦ rest
                    | err d ↦ (s3, err d)
                    | fault ↦ (s3, fault)
                    | no_fuel ↦ (s3, no_fuel)
                  ]
            ]
      ]

  -- `Open` and `Rewind`: the left child's, then the right child's.
  abbrev both : State L (Unit {0}) → State R (Unit {0}) → Bool → State (Join L R) (Unit {0})
  both on_left on_right clears s =
      let (l, m) = on_left s.l_child in
      let (r, m') = on_right s.r_child in
      let after = if clears then none else s.l_child_next in
      elim m [
        | ok _ ↦ elim m' [
          | ok _ ↦ (record { l_child = l; r_child = r; l_child_next = after }, ok tt)
          | other ↦ (record s { l_child = l; r_child = r }, other)
        ]
        | other ↦ (record s { l_child = l }, other)
      ]

  abbrev pub join : (fuel inner_fuel : ℕ) → Operator (Join L R)
  join fuel k = record {
    open_own = both lo.open_it ro.open_it false;
    rewind_own = both lo.rewind ro.rewind true;
    resets = true;
    fetch_next = fetch fuel k;
  }
