-- ===== src/Execution/Join/Streaming.antt =====
-- The records that a join gives (komfydb/execution/join.cc).
use mathlib.Core.Path.{subst}
use komfy_db.Base.{
  ℕ, zero, suc, ◌-◌, ◌<◌, ◌≡◌, sym, ◌∙◌, true, false, List, [], ◌∷◌, ◌++◌, none, some, length,
  arith,
}
use komfy_db.Base.Status.{ok, err, out_of_range}
use komfy_db.Storage.Ids.{Record}
use komfy_db.Execution.Iterator.{OpIterator, iterator, fresh, Iter}
use komfy_db.Execution.Iterator.Streams.{Streams, Fetches, Fetches-Streams}
use komfy_db.Execution.Predicate.{JoinPredicate, matches}
use komfy_db.Execution.Join.{Join, joined, inner, fetch, join}

-- The pairs of `l` with the records of the right side that match it.
pub data Pairs (p : JoinPredicate) (l : Record) : List Record → List Record → Type 0 where
  none_left : Pairs p l [] []
  pair :
      {r : Record} {rs out : List Record}
      → matches p l.tuple r.tuple ≡ ok true
      → Pairs p l rs out
      → Pairs p l (r ∷ rs) (joined l r ∷ out)
  skip :
      {r : Record} {rs out : List Record}
      → matches p l.tuple r.tuple ≡ ok false
      → Pairs p l rs out
      → Pairs p l (r ∷ rs) out

-- The pairs of all left records with the right side, left record by left record.
pub data Products (p : JoinPredicate) (rs : List Record) : List Record → List Record → Type 0 where
  none_left : Products p rs [] []
  next :
      {l : Record} {ls out out' : List Record}
      → Pairs p l rs out
      → Products p rs ls out'
      → Products p rs (l ∷ ls) (out ++ out')

-- A child that streams `rs` from each state of `P`, and after the last record can be rewound into a
-- state of `P`.
pub record Replays {R : Type 0} (o : OpIterator R) (rs : List Record) (P : R → Type 0)
    : Type 0 where
  pub plays :
      (r : R) → P r → (e : R) × Streams o r rs e × ((r' : R) × (o.rewind e ≡ (r', ok tt)) × P r')

module _ {L R : Type 0} (lo : OpIterator L) (ro : OpIterator R) (p : JoinPredicate) where
  inner-pair :
      (n : ℕ) (l x : Record) (r d r' : R)
      → ro.has_next r ≡ (d, ok tt)
      → ro.next d ≡ (r', ok x)
      → matches p l.tuple x.tuple ≡ ok true
      → inner lo ro p (suc n) l r ≡ (r', ok (joined l x))
  unfolding inner
  inner-pair n l x r d r' h g m = ground arith

  inner-skip :
      (n : ℕ) (l x : Record) (r d r' : R)
      → ro.has_next r ≡ (d, ok tt)
      → ro.next d ≡ (r', ok x)
      → matches p l.tuple x.tuple ≡ ok false
      → inner lo ro p (suc n) l r ≡ inner lo ro p n l r'
  unfolding inner
  inner-skip n l x r d r' h g m = ground arith

  inner-end :
      (n : ℕ) (l : Record) (r e : R)
      → ro.has_next r ≡ (e, err out_of_range)
      → inner lo ro p (suc n) l r ≡ (e, err out_of_range)
  unfolding inner
  inner-end n l r e h = ground arith

  -- What the inner loop does with the left record `l`: it comes to the next pair, or to the end.
  data Advances (m k : ℕ) (l : Record) (e : R) : R → List Record → Type 0 where
    ends : {r : R} → inner lo ro p m l r ≡ (e, err out_of_range) → Advances m k l e r []
    finds :
        {r r' : R} {x : Record} {rs out : List Record}
        → inner lo ro p m l r ≡ (r', ok x)
        → Streams ro r' rs e
        → Pairs p l rs out
        → length rs < k
        → Advances m k l e r (x ∷ out)

  Advances-skip :
      {m k : ℕ} {l : Record} {e r r' : R} {out : List Record}
      → inner lo ro p (suc m) l r ≡ inner lo ro p m l r'
      → Advances m k l e r' out
      → Advances (suc m) k l e r out
  Advances-skip h (ends g) = ends (h ∙ g)
  Advances-skip h (finds g s q b) = finds (h ∙ g) s q b

  inner-Advances :
      (m k : ℕ) {l : Record} {e r : R} {rs out : List Record}
      → Streams ro r rs e
      → Pairs p l rs out
      → length rs < m
      → length rs < k
      → Advances m k l e r out
  inner-Advances zero k s q hm hk = absurd (omega arith)
  inner-Advances (suc m) k {l} {e} {r} (Streams.done h _) Pairs.none_left hm hk =
      ends (inner-end m l r e h)
  inner-Advances (suc m) k {l} {e} {r} (Streams.more {d = d} {c' = r'} {r = x} h g _ s)
        (Pairs.pair hit q) hm hk =
      finds (inner-pair m l x r d r' h g hit) s q (omega arith)
  inner-Advances (suc m) k {l} {e} {r} (Streams.more {d = d} {c' = r'} {r = x} h g _ s)
        (Pairs.skip miss q) hm hk =
      Advances-skip (inner-skip m l x r d r' h g miss)
        (inner-Advances m k s q (omega arith) (omega arith))

  module _ (k : ℕ) where
    abbrev holding : L → R → Record → Join L R
    holding lc r l = record { l_child = lc; r_child = r; l_child_next = some l }

    abbrev between : L → R → Join L R
    between lc r = record { l_child = lc; r_child = r; l_child_next = none }

    fetch-find :
        (f : ℕ) (lc : L) (r r' : R) (l x : Record)
        → inner lo ro p k l r ≡ (r', ok x)
        → fetch lo ro p (suc f) k (holding lc r l) ≡ (holding lc r' l, ok x)
    unfolding fetch
    fetch-find f lc r r' l x h = ground arith

    fetch-wrap :
        (f : ℕ) (lc : L) (r e r' : R) (l : Record)
        → inner lo ro p k l r ≡ (e, err out_of_range)
        → ro.rewind e ≡ (r', ok tt)
        → fetch lo ro p (suc f) k (holding lc r l) ≡ fetch lo ro p f k (between lc r')
    unfolding fetch
    fetch-wrap f lc r e r' l h g = ground arith

    fetch-load :
        (f : ℕ) (lc d lc' : L) (r : R) (l : Record)
        → lo.has_next lc ≡ (d, ok tt)
        → lo.next d ≡ (lc', ok l)
        → fetch lo ro p (suc f) k (between lc r) ≡ fetch lo ro p (suc f) k (holding lc' r l)
    unfolding fetch
    fetch-load f lc d lc' r l h g = ground arith

    fetch-out :
        (f : ℕ) (lc e : L) (r : R)
        → lo.has_next lc ≡ (e, err out_of_range)
        → fetch lo ro p (suc f) k (between lc r) ≡ (between e r, err out_of_range)
    unfolding fetch
    fetch-out f lc e r h = ground arith

    -- as `Fetches`, where the first call has the fuel `f` and the later ones `n`
    data Begins (f n : ℕ) (s : Join L R) : List Record → Type 0 where
      last : {e : Join L R} → fetch lo ro p f k s ≡ (e, err out_of_range) → Begins f n s []
      first :
          {s' e : Join L R} {x : Record} {out : List Record}
          → fetch lo ro p f k s ≡ (s', ok x)
          → Fetches (join lo ro p n k) s' out e
          → Begins f n s (x ∷ out)

    Begins-from :
        {f f' n : ℕ} {s s' : Join L R} {out : List Record}
        → fetch lo ro p f k s ≡ fetch lo ro p f' k s'
        → Begins f' n s' out
        → Begins f n s out
    Begins-from h (last g) = last (h ∙ g)
    Begins-from h (first g fs) = first (h ∙ g) fs

    Begins-Fetches :
        {n : ℕ} {s : Join L R} {out : List Record}
        → Begins n n s out
        → (e : Join L R) × Fetches (join lo ro p n k) s out e
    Begins-Fetches (last {e} h) = (e, Fetches.done h)
    Begins-Fetches (first {e = e} h fs) = (e, Fetches.more h fs)

    -- with a left record at hand, given what follows it
    hold-Begins :
        (out : List Record) (f n : ℕ) {lc : L} {l : Record} {r e r' : R} {out' : List Record}
        → Advances k k l e r out
        → ro.rewind e ≡ (r', ok tt)
        → Begins f n (between lc r') out'
        → (n' : ℕ) → n ≡ suc n'
        → Begins n' n (between lc r') out'
        → Begins (suc f) n (holding lc r l) (out ++ out')
    hold-Begins [] f n {lc} {l} {r} {e} {r'} (ends h) back rest n' en rest' =
        Begins-from (fetch-wrap f lc r e r' l h back) rest
    hold-Begins (x ∷ out) f n {lc} {l} {r} {e} {r'} {out'} (finds {r' = r1} h s q b) back rest n' en
          rest' =
        let again = hold-Begins out n' n (inner-Advances k k s q b b) back rest' n' en rest' in
        let (e', fs) =
          Begins-Fetches (subst (λ m. Begins m n (holding lc r1 l) (out ++ out')) (sym en) again) in
        first (fetch-find f lc r r1 l x h) fs

    module _ (P : R → Type 0) (rs : List Record) (replays : Replays ro rs P)
        (few : length rs < k) where
      between-Begins :
          (f n : ℕ) {lc le : L} {ls out : List Record} (r : R)
          → Streams lo lc ls le
          → Products p rs ls out
          → P r
          → length ls < f
          → length ls < n
          → Begins f n (between lc r) out
      between-Begins zero n r s q at hf hn = absurd (omega arith)
      between-Begins (suc f) n {lc} {le} r (Streams.done h _) Products.none_left at hf hn =
          last (fetch-out f lc le r h)
      between-Begins (suc f) n {lc} {le} r (Streams.more {d = d} {c' = lc'} {r = l} h g _ s)
            (Products.next {out = out} q qs) at hf hn =
          let (e, plays, (r', back, at')) = replays.plays r at in
          Begins-from (fetch-load f lc d lc' r l h g) (
            hold-Begins out f n (inner-Advances k k plays q few few) back
              (between-Begins f n r' s qs at' (omega arith) (omega arith)) (n - 1) (omega arith)
              (between-Begins (n - 1) n r' s qs at' (omega arith) (omega arith)))

      -- Over a left child that streams `ls`, and a right child that streams `rs` each time that it is
      -- rewound, a join with fuel for both streams the joined pairs that match, left record by left
      -- record, and in the order of the right side within each.
      pub join-Streams :
          (fuel : ℕ) {lc le : L} {ls out : List Record} (r : R)
          → Streams lo lc ls le
          → Products p rs ls out
          → P r
          → length ls < fuel
          → (e : Iter (Join L R)) × Streams
              (iterator (join lo ro p fuel k))
              (fresh (between lc r))
              out
              e
      join-Streams fuel r s q at h =
          let (e, fs) = Begins-Fetches (between-Begins fuel fuel r s q at h h) in
          (fresh e, Fetches-Streams fs)
