-- ===== src/Execution/LogicalPlan/Equiv/Merge.antt =====
-- A join of two tables puts their trees together, and the joins of a plan end
-- (komfydb/execution/logical_plan/logical_plan.cc).
use mathlib.Core.Path.{subst}
use komfy_db.Base.{
  same_or_other, ℕ, suc, ◌<◌, ◌≡◌, ◌≢◌, refl, sym, ap, ◌∙◌, inl, inr, some, if◌then◌else◌, Bytes,
  bytes_eq, bytes_eq_iff,
}
use komfy_db.Base.Maps.{lookup, insert}
use komfy_db.Base.Status.{ok}
use komfy_db.Execution.LogicalPlan.Equiv.{Equiv, join_tables, Leads, at_root, up}
use komfy_db.Execution.LogicalPlan.Equiv.Compression.{
  lookup-written, lookup-other, root_of, bytes_differ, read_twice, get_equiv-Leads,
}

-- The root of a tree with the root `s` after the tree of `b` has come under `a`.
abbrev pub merged : Bytes → Bytes → Bytes → Bytes
merged a b s = if bytes_eq s b then a else s

pub merged_in : (a b s : Bytes) → s ≡ b → a ≡ merged a b s
merged_in a b s p = rw ((bytes_eq_iff s b).1 p) refl

pub merged_out : (a b s : Bytes) → s ≢ b → s ≡ merged a b s
merged_out a b s h = rw (bytes_differ s b h) refl

module _ (e : Equiv) (a b : Bytes) (ra : lookup bytes_eq a e ≡ some a)
    (rb : lookup bytes_eq b e ≡ some b) where
  under : {n : ℕ} → Leads (insert bytes_eq b a e) (suc n) b a
  under {n = n} = elim (same_or_other b a) [
    | inl p ↦
        subst (λ z. Leads (insert bytes_eq b a e) (suc n) z a) (sym p)
          (at_root
            (ap (λ z. lookup bytes_eq z (insert bytes_eq b a e)) (sym p) ∙ lookup-written b a e))
    | inr h ↦ up (lookup-written b a e) (λ p. h (sym p)) (at_root (lookup-other b a a e h ∙ ra))
  ]

  merged-Leads :
      {n : ℕ} {y s : Bytes} → Leads e n y s → Leads (insert bytes_eq b a e) (suc n) y (merged a b s)
  merged-Leads {n = n} {y = y} (at_root h) = elim (same_or_other y b) [
    | inl p ↦
        subst (Leads (insert bytes_eq b a e) (suc n) y) (merged_in a b y p)
          (subst (λ z. Leads (insert bytes_eq b a e) (suc n) z a) (sym p) under)
    | inr other ↦
        subst (Leads (insert bytes_eq b a e) (suc n) y) (merged_out a b y other)
          (at_root (lookup-other b y a e (λ p. other (sym p)) ∙ h))
  ]
  merged-Leads {y = y} (up {v = v} h nv m) =
      up
        (lookup-other b y a e
            (λ p. nv (read_twice h (ap (λ z. lookup bytes_eq z e) (sym p) ∙ rb) ∙ p))
          ∙ h)
        nv (merged-Leads m)

-- Where two names lead to roots, with fuel above the number of their steps, `join_tables` gives the two roots;
-- after it each name that led to a root leads to the same one, or to the first table's if it was the
-- second table's, in at most one step more.
pub join_tables_lem :
    (fuel : ℕ) (e : Equiv) (l r a b : Bytes) (n m : ℕ)
    → Leads e n l a
    → Leads e m r b
    → n < fuel
    → m < fuel
    → (e' : Equiv) × (join_tables fuel l r e ≡ (e', ok (a, b)))
      × ((k : ℕ) (y s : Bytes) → Leads e k y s → Leads e' (suc k) y (merged a b s))
unfolding join_tables
join_tables_lem fuel e l r a b n m la rb h h' =
    let (e1, same1, keeps1) = get_equiv-Leads n fuel e l a la h in
    let (e2, same2, keeps2) = get_equiv-Leads m fuel e1 r b (keeps1 m r b rb) h' in
    (
      insert bytes_eq b a e2,
      rw (same1, same2) refl,
      λ k y s g.
          merged-Leads e2 a b (root_of (keeps2 n l a (keeps1 n l a la)))
            (root_of (keeps2 m r b (keeps1 m r b rb))) (keeps2 k y s (keeps1 k y s g)),
    )
