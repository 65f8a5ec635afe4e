-- ===== src/Base/Maps.antt =====
-- Hash maps as association lists: a key is at most once in a list that `insert` built.
use mathlib.Core.Path.{◌≡◌, refl}
use mathlib.Core.Logic.{◌↔◌}
use mathlib.Core.Bool.{Bool, true}
use mathlib.Core.List.{List, [], ◌∷◌}
use mathlib.Core.Option.{Option, none, some}
use native.Mathlib.Omega.{arith}
use komfy_db.Base.Tests.{if◌then◌else◌}

module _ {K V : Type 0} (same : K → K → Bool) where
  unfoldable pub lookup : K → List (K × V) → Option V
  lookup k [] = none
  lookup k ((j, v) ∷ m) = if same j k then some v else lookup k m

  -- `m[k] = v`
  unfoldable pub insert : K → V → List (K × V) → List (K × V)
  insert k v [] = (k, v) ∷ []
  insert k v ((j, w) ∷ m) = if same j k then (j, v) ∷ m else (j, w) ∷ insert k v m

  unfoldable pub erase : K → List (K × V) → List (K × V)
  erase k [] = []
  erase k ((j, w) ∷ m) = if same j k then m else (j, w) ∷ erase k m

  -- A read after a write.
  pub lookup-insert :
      (laws : (a b : K) → (same a b ≡ true) ↔ (a ≡ b))
      → (k j : K) (v : V) (m : List (K × V))
      → lookup j (insert k v m) ≡ (if same k j then some v else lookup j m)
  unfolding lookup insert
  lookup-insert laws k j v [] = refl
  lookup-insert laws k j v ((i, w) ∷ m) =
      ground (arith, laws k j, laws i k, laws i j, lookup-insert laws k j v m)
