-- ===== src/Execution/Executor/Wrapping.antt =====
-- Words that are cut into parts: `WrapWord` of komfydb/execution/executor.cc.
use native.Mathlib.Nat.{suc-mul, zero-mul, mul_comm, div-mul-le_self, lt-mul-div-succ}
use mathlib.Core.List.{append_assoc, append-nil}
use komfy_db.Base.{
  drop-drop, ℕ, zero, suc, ◌+◌, ◌-◌, ◌*◌, ◌/◌, ◌≤◌, ◌<◌, ◌≡◌, refl, sym, ◌∙◌, ap, true, List, [],
  ◌∷◌, ◌++◌, Bytes, length, leb, take, drop, length-take, length-drop, take-append-drop, All,
  All-append, flatten, arith,
}
use komfy_db.Base.Int.{pos}
use komfy_db.Base.Status.{ok}
use komfy_db.Execution.Executor.Lines.{full_parts, wrap_parts, wrap_word}

flatten-append : (xs ys : List Bytes) → flatten (xs ++ ys) ≡ flatten xs ++ flatten ys
flatten-append [] ys = refl
flatten-append (x ∷ xs) ys =
    rw (flatten-append xs ys) (sym (append_assoc x (flatten xs) (flatten ys)))

flatten-full_parts :
    (rounds i w : ℕ) (word : Bytes)
    → flatten (full_parts rounds i w word) ++ drop ((rounds + i) * w) word ≡ drop (i * w) word
unfolding full_parts
flatten-full_parts zero i w word = ap (λ n. drop (n * w) word) (omega arith)
flatten-full_parts (suc rounds) i w word =
    append_assoc (take w (drop (i * w) word)) (flatten (full_parts rounds (suc i) w word)) _
    ∙ ap (λ r. take w (drop (i * w) word) ++ r)
        (ap (λ n. flatten (full_parts rounds (suc i) w word) ++ drop (n * w) word) (omega arith)
          ∙ flatten-full_parts rounds (suc i) w word
          ∙ ap (λ n. drop n word) (omega (arith, suc-mul i w))
          ∙ drop-drop (i * w) w word)
    ∙ take-append-drop w (drop (i * w) word)

All-full_parts :
    (rounds i w : ℕ) (word : Bytes) → All (λ p. length p ≤ w) (full_parts rounds i w word)
unfolding full_parts
All-full_parts zero i w word = tt
All-full_parts (suc rounds) i w word =
    (omega (arith, length-take w (drop (i * w) word)), All-full_parts rounds (suc i) w word)

wrap_parts_lem :
    (rounds w : ℕ) (word : Bytes)
    → rounds * w ≤ length word
    → length word ≤ rounds * w + w
    → (parts : List Bytes) × (wrap_parts (suc rounds) w word ≡ ok parts)
      × (flatten parts ≡ word)
      × All (λ p. length p ≤ w) parts
unfolding wrap_parts
wrap_parts_lem rounds w word h k = (
  full_parts rounds 0 w word ++ drop (rounds * w) word ∷ [],
  rw inside refl,
  whole,
  All-append (λ p. length p ≤ w) (full_parts rounds 0 w word) _ (All-full_parts rounds 0 w word)
      (omega (arith, length-drop (rounds * w) word), tt),
)
  where
    inside : leb (rounds * w) (length word) ≡ true
    inside = ground arith

    whole : flatten (full_parts rounds 0 w word ++ drop (rounds * w) word ∷ []) ≡ word
    whole =
        flatten-append (full_parts rounds 0 w word) (drop (rounds * w) word ∷ [])
        ∙ ap (λ r. flatten (full_parts rounds 0 w word) ++ r)
            (append-nil (drop (rounds * w) word)
              ∙ ap (λ n. drop (n * w) word) {y = rounds + 0} (omega arith))
        ∙ flatten-full_parts rounds 0 w word
        ∙ ap (λ n. drop n word) {y = 0} (omega (arith, zero-mul w))

-- a quotient that rounds up, without its last unit
quotient_up :
    (n w k : ℕ)
    → 0 < n
    → k * w ≤ n + (w - 1)
    → n + (w - 1) < w * (k + 1)
    → (1 ≤ k) × ((k - 1) * w ≤ n) × (n ≤ (k - 1) * w + w)
quotient_up n w zero h p q = (grind arith, grind arith, grind arith)
quotient_up n w (suc k) h p q =
    let whole : suc k * w ≡ k * w + w = suc-mul k w in
    let next : w * (suc k + 1) ≡ k * w + w + w =
      mul_comm w (suc k + 1)
      ∙ ap (λ j. j * w) {y = suc (suc k)} (omega arith)
      ∙ suc-mul (suc k) w
      ∙ ap (λ j. j + w) whole in
    let less : (suc k - 1) * w ≡ k * w = ap (λ j. j * w) {y = k} (omega arith) in
    (omega arith, omega arith, omega arith)

parts_count :
    (n l : ℕ)
    → 0 < n
    → let k = (n + l) / suc l in (1 ≤ k) × ((k - 1) * suc l ≤ n) × (n ≤ (k - 1) * suc l + suc l)
parts_count n l h =
    quotient_up n (suc l) ((n + l) / suc l) h (omega (arith, div-mul-le_self (n + l) (suc l)))
      (omega (arith, lt-mul-div-succ (n + l) {b = suc l} (omega arith)))

-- A word that is not empty, wrapped to a positive width: it succeeds, the parts put together are the
-- word, and none is longer than the width.
pub wrap_word_lem :
    (word : Bytes) (w : ℕ)
    → 0 < length word
    → 0 < w
    → (parts : List Bytes) × (wrap_word word (pos w) ≡ ok parts)
      × (flatten parts ≡ word)
      × All (λ p. length p ≤ w) parts
unfolding wrap_word
wrap_word_lem word zero h k = absurd (omega arith)
wrap_word_lem word (suc l) h k =
    let count = (length word + l) / suc l in
    let (some_part, least, most) = parts_count (length word) l h in
    let (parts, e, joined, small) = wrap_parts_lem (count - 1) (suc l) word least most in
    (
      parts,
      ap (λ c. wrap_parts c (suc l) word) {y = suc (count - 1)} (omega arith) ∙ e,
      joined,
      small,
    )
