-- ===== src/Execution/Filter/Streaming.antt =====
-- The records that a filter gives (komfydb/execution/filter.cc).
use komfy_db.Base.{ℕ, zero, suc, ◌<◌, ◌≡◌, ◌∙◌, true, false, List, [], ◌∷◌, length, arith}
use komfy_db.Base.Status.{ok, err, out_of_range}
use komfy_db.Storage.Ids.{Record}
use komfy_db.Execution.Iterator.{OpIterator, iterator, fresh}
use komfy_db.Execution.Iterator.Streams.{Streams, Fetches, Fetches-Streams}
use komfy_db.Execution.Predicate.{Predicate, evaluate}
use komfy_db.Execution.Filter.{fetch, filter, Selects}

module _ {C : Type 0} (child : OpIterator C) (p : Predicate) where
  fetch-drop :
      (n : ℕ) (c c' : C) (r : Record)
      → child.next c ≡ (c', ok r)
      → evaluate p r.tuple ≡ ok false
      → fetch child p (suc n) c ≡ fetch child p n c'
  unfolding fetch
  fetch-drop n c c' r h e = ground arith

  fetch-keep :
      (n : ℕ) (c c' : C) (r : Record)
      → child.next c ≡ (c', ok r)
      → evaluate p r.tuple ≡ ok true
      → fetch child p (suc n) c ≡ (c', ok r)
  unfolding fetch
  fetch-keep n c c' r h e = ground arith

  fetch-end :
      (n : ℕ) (c e : C)
      → child.next c ≡ (e, err out_of_range)
      → fetch child p (suc n) c ≡ (e, err out_of_range)
  unfolding fetch
  fetch-end n c e h = ground arith

  -- The same as `Fetches`, where the first call has other fuel than the later ones.
  data Begins (m n : ℕ) : C → List Record → C → Type 0 where
    last : {c e : C} → fetch child p m c ≡ (e, err out_of_range) → Begins m n c [] e
    first :
        {c c' e : C} {r : Record} {rs : List Record}
        → fetch child p m c ≡ (c', ok r)
        → Fetches (filter child p n) c' rs e
        → Begins m n c (r ∷ rs) e

  Begins-Fetches :
      {n : ℕ} {c e : C} {rs : List Record} → Begins n n c rs e → Fetches (filter child p n) c rs e
  Begins-Fetches (last h) = Fetches.done h
  Begins-Fetches (first h f) = Fetches.more h f

  Begins-drop :
      {m n : ℕ} {c c' e : C} {rs : List Record}
      → fetch child p (suc m) c ≡ fetch child p m c'
      → Begins m n c' rs e
      → Begins (suc m) n c rs e
  Begins-drop h (last f) = last (h ∙ f)
  Begins-drop h (first f fs) = first (h ∙ f) fs

  filter-Begins :
      (m n : ℕ) {c e : C} {rs out : List Record}
      → Streams child c rs e
      → Selects p rs out
      → length rs < m
      → length rs < n
      → Begins m n c out e
  filter-Begins zero n s sel hm hn = absurd (omega arith)
  filter-Begins (suc m) n {c} {e} (Streams.done _ h) Selects.none_left hm hn =
      last (fetch-end m c e h)
  filter-Begins (suc m) n {c} {e} (Streams.more {c' = c'} {r = r} h k g s) (Selects.keep yes_ sel)
        hm hn =
      first (fetch-keep m c c' r g yes_)
        (Begins-Fetches (filter-Begins n n s sel (omega arith) (omega arith)))
  filter-Begins (suc m) n {c} {e} (Streams.more {c' = c'} {r = r} h k g s) (Selects.drop no_ sel) hm
        hn =
      Begins-drop (fetch-drop m c c' r g no_) (filter-Begins m n s sel (omega arith) (omega arith))

  -- Over a child that streams `rs`, on whose records the predicate is evaluated without fault, and
  -- with fuel for more than all of them, a filter streams the records that satisfy the predicate, in
  -- order, and is out of range after the last.
  pub filter-Streams :
      (fuel : ℕ) {c e : C} {rs out : List Record}
      → Streams child c rs e
      → Selects p rs out
      → length rs < fuel
      → Streams (iterator (filter child p fuel)) (fresh c) out (fresh e)
  filter-Streams fuel s sel h = Fetches-Streams (Begins-Fetches (filter-Begins fuel fuel s sel h h))
