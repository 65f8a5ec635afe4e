-- ===== src/Execution/LogicalPlan/Equiv/Compression.antt =====
-- `GetEquiv` ends and keeps every root (komfydb/execution/logical_plan/logical_plan.cc).
use mathlib.Core.Path.{subst}
use komfy_db.Base.{
  same_or_other, ℕ, zero, suc, ◌≡◌, ◌≢◌, refl, sym, ap, ◌∙◌, inl, inr, ◌<◌, false, List, Option,
  some, Bytes, bytes_eq, bytes_eq_iff, arith,
}
use komfy_db.Base.Maps.{lookup, insert, lookup-insert}
use komfy_db.Base.Status.{ok}
use komfy_db.Execution.LogicalPlan.Equiv.{Equiv, index, index_found, get_equiv, Leads, at_root, up}

-- Reads of a map of names after a write.
pub lookup-written :
    {V : Type 0} (x : Bytes) (r : V) (equiv : List (Bytes × V))
    → lookup bytes_eq x (insert bytes_eq x r equiv) ≡ some r
lookup-written x r equiv =
    grind (arith, lookup-insert bytes_eq bytes_eq_iff x x r equiv, bytes_eq_iff x x)

pub lookup-other :
    {V : Type 0} (x y : Bytes) (r : V) (equiv : List (Bytes × V))
    → x ≢ y
    → lookup bytes_eq y (insert bytes_eq x r equiv) ≡ lookup bytes_eq y equiv
lookup-other x y r equiv h =
    grind (arith, lookup-insert bytes_eq bytes_eq_iff x y r equiv, bytes_eq_iff x y)

-- A root leads to itself only.
pub root_of : {e : Equiv} {n : ℕ} {x r : Bytes} → Leads e n x r → lookup bytes_eq r e ≡ some r
root_of (at_root h) = h
root_of (up h ne l) = root_of l

pub Leads-unique :
    {e : Equiv} {n m : ℕ} {x y r s : Bytes} → Leads e n x r → Leads e m y s → x ≡ y → r ≡ s
Leads-unique (at_root h) (at_root k) p = p
Leads-unique (at_root h) (up k ne l) p = absurd (ne cc)
Leads-unique (up h ne l) (at_root k) p = absurd (ne cc)
Leads-unique (up h ne l) (up k ne' l') p = Leads-unique l l' cc

-- A step to a root, and the steps after compression of the path from `x` to its root.
one_step :
    {e : Equiv} {n : ℕ} {y r s : Bytes}
    → r ≡ s
    → lookup bytes_eq y e ≡ some r
    → r ≢ y
    → lookup bytes_eq r e ≡ some r
    → Leads e (suc n) y s
one_step {e = e} {n = n} {y = y} p h ne k = subst (Leads e (suc n) y) p (up h ne (at_root k))

module _ (e : Equiv) (x r : Bytes) (ne : x ≢ r) {k : ℕ} (l : Leads e k x r) where
  pub compressed-Leads : {n : ℕ} {y s : Bytes} → Leads e n y s → Leads (insert bytes_eq x r e) n y s
  compressed-Leads {y = y} (at_root h) =
      at_root
        (lookup-other x y r e (λ p. ne (p ∙ Leads-unique (at_root {n = zero} h) l (sym p))) ∙ h)
  compressed-Leads {y = y} {s = s} (up {v = v} h nv m) = elim (same_or_other x y) [
    | inl p ↦
        one_step (Leads-unique l (up h nv m) p)
          (ap (λ z. lookup bytes_eq z (insert bytes_eq x r e)) (sym p) ∙ lookup-written x r e)
          (λ q. ne (p ∙ sym q)) (lookup-other x r r e ne ∙ root_of l)
    | inr other ↦ up (lookup-other x y r e other ∙ h) nv (compressed-Leads m)
  ]

pub index_read :
    (e : Equiv) (x : Bytes) {v : Bytes} → lookup bytes_eq x e ≡ some v → index x e ≡ (e, v)
index_read e x k = ap (index_found x e) k

pub read_twice : {A : Type 0} {o : Option A} {v w : A} → o ≡ some v → o ≡ some w → v ≡ w
read_twice p q = cc

pub bytes_differ : (x y : Bytes) → x ≢ y → bytes_eq x y ≡ false
bytes_differ x y h = grind (arith, bytes_eq_iff x y)

-- `GetEquiv` of a name that leads to a root gives the root, with fuel above the number of steps, and each
-- name leads to the same root as before, in no more steps.
pub get_equiv-Leads :
    (n fuel : ℕ) (e : Equiv) (x r : Bytes)
    → Leads e n x r
    → n < fuel
    → (e' : Equiv) × (get_equiv fuel x e ≡ (e', ok r))
      × ((m : ℕ) (y s : Bytes) → Leads e m y s → Leads e' m y s)
unfolding get_equiv
get_equiv-Leads n zero e x r l h = absurd (omega arith)
get_equiv-Leads n (suc fuel) e x r (at_root k) h =
    (e, rw (index_read e x k, (bytes_eq_iff x x).1 refl) refl, λ m y s a. a)
get_equiv-Leads n (suc fuel) e x r (up {n = n'} {v = v} k ne l) h =
    let (e', same, keeps) = get_equiv-Leads n' fuel e v r l (omega arith) in
    (
      insert bytes_eq x r e',
      rw (index_read e x k, bytes_differ v x ne, same) refl,
      λ m y s a.
          compressed-Leads e' x r
            (λ p. ne (read_twice k (ap (λ z. lookup bytes_eq z e) p ∙ root_of l) ∙ sym p))
            (keeps n x r (up k ne l)) (keeps m y s a),
    )
