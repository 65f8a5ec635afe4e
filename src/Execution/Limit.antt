-- ===== src/Execution/Limit.antt =====
-- Limits: komfydb/execution/limit.cc.
use komfy_db.Base.{ℕ, zero, suc, ◌+◌, ◌<◌, ◌≡◌, ◌∙◌, ap, false, List, if◌then◌else◌, take, arith}
use komfy_db.Base.Int.{ℤ, pos, eqb_ℤ}
use komfy_db.Base.State.{State}
use komfy_db.Base.Status.{StatusOr, ok, err, fault, no_fuel, out_of_range}
use komfy_db.Storage.Ids.{Record}
use komfy_db.Execution.Iterator.{OpIterator, Operator, Iter, iterator, fresh}
use komfy_db.Execution.Iterator.Streams.{Streams, Fetches, Fetches-Streams}

pub record Limit (C : Type 0) : Type 0 where
  pub child : C
  pub fetched : ℕ

module _ {C : Type 0} (child : OpIterator C) (limit : ℤ) where
  -- what `Open` and `Rewind` do after the child's
  abbrev restart : Limit C → C × StatusOr (Unit {0}) → Limit C × StatusOr (Unit {0})
  restart s (c, ok _) = (record { child = c; fetched = 0 }, ok tt)
  restart s (c, err e) = (record s { child = c }, err e)
  restart s (c, fault) = (record s { child = c }, fault)
  restart s (c, no_fuel) = (record s { child = c }, no_fuel)

  -- `FetchNext`: the count grows before the child is asked, also where the child fails.
  unfoldable pub fetch : State (Limit C) Record
  fetch s =
      if eqb_ℤ (pos s.fetched) limit
      then (s, err out_of_range)
      else let (c, r) = child.next s.child in (record { child = c; fetched = suc s.fetched }, r)

  abbrev pub limit_op : Operator (Limit C)
  limit_op = record {
    open_own = λ s. restart s (child.open_it s.child);
    rewind_own = λ s. restart s (child.rewind s.child);
    resets = false;
    fetch_next = fetch;
  }

module _ {C : Type 0} (child : OpIterator C) where
  fetch-limit :
      (n k : ℕ) (c : C)
      → k ≡ n
      → fetch child (pos n) (record { child = c; fetched = k })
        ≡ (record { child = c; fetched = k }, err out_of_range)
  unfolding fetch
  fetch-limit n k c h = ground arith

  fetch-below :
      (n k : ℕ) (c : C)
      → k < n
      → fetch child (pos n) (record { child = c; fetched = k })
        ≡ (record { child = (child.next c).0; fetched = suc k }, (child.next c).1)
  unfolding fetch
  fetch-below n k c h = ground arith

  pair :
      (k : ℕ) {c c' : C} {r : StatusOr Record}
      → child.next c ≡ (c', r)
      → ◌≡◌ {A = Limit C × StatusOr Record}
          (record { child = (child.next c).0; fetched = suc k }, (child.next c).1)
          (record { child = c'; fetched = suc k }, r)
  pair k h = ap (λ (x : C × StatusOr Record). (record { child = x.0; fetched = suc k }, x.1)) h

  -- `left` records are still to come
  limit-Fetches :
      (left n k : ℕ) {c e : C} {rs : List Record}
      → left + k ≡ n
      → Streams child c rs e
      → (e' : Limit C) × Fetches
          (limit_op child (pos n))
          (record { child = c; fetched = k })
          (take left rs)
          e'
  limit-Fetches zero n k {c} {e} {rs} h s =
      (record { child = c; fetched = k }, Fetches.done (fetch-limit n k c (omega arith)))
  limit-Fetches (suc left) n k {c} {e} h (Streams.done _ g) = (
    record { child = e; fetched = suc k },
    Fetches.done (fetch-below n k c (omega arith) ∙ pair k g),
  )
  limit-Fetches (suc left) n k {c} {e} h (Streams.more {c' = c'} {r = r} _ _ g s) =
      let (e', f) = limit-Fetches left n (suc k) (omega arith) s in
      (e', Fetches.more (fetch-below n k c (omega arith) ∙ pair k g) f)

  -- Over a child that streams `rs`, a limit of `n` opened afresh streams the first `n` records of
  -- `rs`.
  pub limit-Streams :
      (n : ℕ) {c e : C} {rs : List Record}
      → Streams child c rs e
      → (e' : Iter (Limit C)) × Streams
          (iterator (limit_op child (pos n)))
          (fresh (record { child = c; fetched = 0 }))
          (take n rs)
          e'
  limit-Streams n s =
      let (e', f) = limit-Fetches n n 0 (omega arith) s in (fresh e', Fetches-Streams f)
