-- ===== src/Execution/Executor/Outcome.antt =====
-- What a printed query writes, and what becomes of an error of its iterator:
-- komfydb/execution/executor.cc and `ITERATE_RECORDS` of komfydb/execution/op_iterator.h.
use mathlib.Core.List.{append_assoc, append-nil}
use komfy_db.Base.{
  ℕ, zero, suc, ◌<◌, ◌≡◌, refl, ap, sym, ◌∙◌, List, [], ◌∷◌, ◌++◌, Bytes, codes, length, arith,
}
use komfy_db.Base.State.{◌>>◌}
use komfy_db.Base.Status.{StatusOr, Code, ok, err, ◌>>=◌, >>=-eq-ok, ok-injective}
use komfy_db.Common.TupleDesc.{TupleDesc}
use komfy_db.Storage.Ids.{Record}
use komfy_db.Execution.Executor.{print_all, printed, emit, python_execute}
use komfy_db.Execution.Executor.Text.{python_record}
use komfy_db.Execution.Iterator.{OpIterator}

-- From a state `Next` gives the records of the list, and then an error, whatever its code.
pub data Stops {C : Type 0} (o : OpIterator C) : C → List Record → C → Type 0 where
  stop : {c e : C} (code : Code) → o.next c ≡ (e, err code) → Stops o c [] e
  more :
      {c c' e : C} {r : Record} {rs : List Record}
      → o.next c ≡ (c', ok r)
      → Stops o c' rs e
      → Stops o c (r ∷ rs) e

-- The texts of the records, one after the other.
unfoldable pub each : (Record → StatusOr Bytes) → List Record → StatusOr Bytes
each body [] = ok []
each body (r ∷ rs) = do text ← body r; rest ← each body rs; ok (text ++ rest)

module _ {C : Type 0} (o : OpIterator C) where
  print_all-Stops :
      (body : Record → StatusOr Bytes) (fuel : ℕ) {c e : C} {rs : List Record} (out : Bytes)
      {text : Bytes}
      → Stops o c rs e
      → each body rs ≡ ok text
      → length rs < fuel
      → print_all o body fuel (c, out) ≡ ((e, out ++ text), ok tt)
  unfolding print_all each
  print_all-Stops body zero out s h k = absurd (omega arith)
  print_all-Stops body (suc fuel) out {text = text} (Stops.stop {c} {e} code n) h k =
      ap (printed o body (print_all o body fuel) out) n
      ∙ ap (λ t. ((e, t), ok tt)) (sym (append-nil out) ∙ ap (λ t. out ++ t) (ok-injective h))
  print_all-Stops body (suc fuel) out (Stops.more {c} {c'} {e} {r} {rs} n s) h k =
      let (text, p, h') = >>=-eq-ok (body r) _ h in
      let (rest, q, h'') = >>=-eq-ok (each body rs) _ h' in
      ap (printed o body (print_all o body fuel) out) n
      ∙ ap (λ m. (emit o m >> print_all o body fuel) (c', out)) p
      ∙ print_all-Stops body fuel (out ++ text) s q (omega arith)
      ∙ ap (λ t. ((e, t), ok tt))
          (append_assoc out text rest ∙ ap (λ t. out ++ t) (ok-injective h''))

  -- `PythonExecute`, where the iterator opens and then gives records, which print, until some error:
  -- it returns ok, whatever the error is, and has written the records' texts between brackets.
  pub python_execute_lem :
      (td : TupleDesc) (fuel : ℕ) {s c e : C} {rs : List Record} {text : Bytes}
      → o.open_it s ≡ (c, ok tt)
      → Stops o c rs e
      → each (python_record (length td.items)) rs ≡ ok text
      → length rs < fuel
      → python_execute o fuel td (s, []) ≡ ((e, b'[' ∷ (text ++ codes "]\n")), ok tt)
  unfolding python_execute
  python_execute_lem td fuel h s t k =
      rw (h, print_all-Stops (python_record (length td.items)) fuel (codes "[") s t k) refl
