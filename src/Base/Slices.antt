-- ===== src/Base/Slices.antt =====
-- The part of a list between two positions, and what does not change it.
use Prim.Native.Nat.{ℕ, zero, suc, ◌+◌, ◌-◌, ◌≤◌}
use mathlib.Core.Path.{◌≡◌, refl, ap, sym, ◌∙◌}
use mathlib.Core.List.{List, [], ◌∷◌, ◌++◌}
use native.Mathlib.Omega.{arith}
use native.Mathlib.Nat.{zero-add, add-zero, suc-add}
use komfy_db.Base.Lists.{length, take, drop, length-take, length-append}

pub drop-append {ℓ} : {A : Type ℓ} (xs ys : List A) (n : ℕ) → n ≡ length xs → drop n (xs ++ ys) ≡ ys
drop-append [] ys zero h = refl
drop-append [] ys (suc n) h = absurd (omega arith)
drop-append (x ∷ xs) ys zero h = absurd (omega arith)
drop-append (x ∷ xs) ys (suc n) h = drop-append xs ys n (omega arith)

pub take-append {ℓ} : {A : Type ℓ} (xs ys : List A) → take (length xs) (xs ++ ys) ≡ xs
take-append [] ys = refl
take-append (x ∷ xs) ys = ap (◌∷◌ x) (take-append xs ys)

pub drop-drop {ℓ} : {A : Type ℓ} (m n : ℕ) (xs : List A) → drop (m + n) xs ≡ drop n (drop m xs)
drop-drop zero n xs = rw zero-add
drop-drop (suc m) zero [] = rw add-zero
drop-drop (suc m) (suc n) [] = rw suc-add
drop-drop (suc m) n (x ∷ xs) = rw (suc-add, drop-drop m n xs)

module _ {ℓ} {A : Type ℓ} where
  abbrev pub slice : (at n : ℕ) → List A → List A
  slice at n xs = take n (drop at xs)

  pub slice-append_left :
      (at n : ℕ) (xs ys : List A) → at + n ≤ length xs → slice at n (xs ++ ys) ≡ slice at n xs
  slice-append_left zero zero xs ys h = refl
  slice-append_left zero (suc n) [] ys h = absurd (omega arith)
  slice-append_left zero (suc n) (x ∷ xs) ys h =
      ap (◌∷◌ x) (slice-append_left zero n xs ys (omega arith))
  slice-append_left (suc at) zero [] ys h = refl
  slice-append_left (suc at) (suc n) [] ys h = absurd (omega arith)
  slice-append_left (suc at) n (x ∷ xs) ys h = slice-append_left at n xs ys (omega arith)

  pub slice-append_right :
      (at n : ℕ) (xs ys : List A)
      → length xs ≤ at
      → slice at n (xs ++ ys) ≡ slice (at - length xs) n ys
  slice-append_right at n [] ys h = ap (λ a. slice a n ys) (omega arith)
  slice-append_right zero n (x ∷ xs) ys h = absurd (omega arith)
  slice-append_right (suc at) n (x ∷ xs) ys h =
      slice-append_right at n xs ys (omega arith)
      ∙ ap (λ a. slice a n ys) {x = at - length xs} (omega arith)

  pub slice-take : (at n m : ℕ) (xs : List A) → at + n ≤ m → slice at n (take m xs) ≡ slice at n xs
  slice-take at zero m xs h = refl
  slice-take zero (suc n) zero xs h = absurd (omega arith)
  slice-take (suc at) (suc n) zero xs h = absurd (omega arith)
  slice-take zero (suc n) (suc m) [] h = refl
  slice-take (suc at) (suc n) (suc m) [] h = refl
  slice-take zero (suc n) (suc m) (x ∷ xs) h = ap (◌∷◌ x) (slice-take zero n m xs (omega arith))
  slice-take (suc at) (suc n) (suc m) (x ∷ xs) h = slice-take at (suc n) m xs (omega arith)

  pub slice-drop : (at n m : ℕ) (xs : List A) → slice at n (drop m xs) ≡ slice (m + at) n xs
  slice-drop at n m xs = ap (take n) (sym (drop-drop m at xs))

  -- A write of `bytes` at a position leaves what stands before it and behind it.
  pub slice-written :
      (at n pos : ℕ) (xs zeros bytes : List A)
      → at + n ≤ length xs
      → (at + n ≤ pos)
      → slice at n (take pos (xs ++ zeros) ++ (bytes ++ drop (pos + length bytes) xs))
        ≡ slice at n xs
  slice-written at n pos xs zeros bytes h k =
      slice-append_left at n (take pos (xs ++ zeros)) _
        (omega (arith, length-take pos (xs ++ zeros), length-append xs zeros))
      ∙ slice-take at n pos (xs ++ zeros) k
      ∙ slice-append_left at n xs zeros h

  pub slice-written_behind :
      (at n pos : ℕ) (xs zeros bytes : List A)
      → pos ≤ length (xs ++ zeros)
      → pos + length bytes ≤ at
      → slice at n (take pos (xs ++ zeros) ++ (bytes ++ drop (pos + length bytes) xs))
        ≡ slice at n xs
  slice-written_behind at n pos xs zeros bytes h k =
      slice-append_right at n (take pos (xs ++ zeros)) _
        (omega (arith, length-take pos (xs ++ zeros)))
      ∙ slice-append_right (at - length (take pos (xs ++ zeros))) n bytes _
          (omega (arith, length-take pos (xs ++ zeros)))
      ∙ slice-drop _ n (pos + length bytes) xs
      ∙ ap (λ a. slice a n xs) (omega (arith, length-take pos (xs ++ zeros)))
