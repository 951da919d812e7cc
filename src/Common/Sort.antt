-- ===== src/Common/Sort.antt =====
-- sort.SliceStable, as an insertion sort from the right: equal elements keep their order.
pub mod Laws
pub mod Keep
use tccelta.Common.Tests.{if◌then◌else◌}
use mathlib.Core.Bool.{Bool}
use mathlib.Core.List.{List, [], ◌∷◌}

module _ {ℓ} {A : Type ℓ} (less : A → A → Bool) where
  unfoldable pub insert_by : A → List A → List A
  insert_by x [] = x ∷ []
  insert_by x (y ∷ ys) = let rest = insert_by x ys in if less y x then y ∷ rest else x ∷ y ∷ ys

  unfoldable pub sort_by : List A → List A
  sort_by [] = []
  sort_by (x ∷ xs) = insert_by x (sort_by xs)

-- A filter by a Boolean test.
unfoldable pub keep {ℓ} : {A : Type ℓ} → (A → Bool) → List A → List A
keep f [] = []
keep f (x ∷ xs) = let rest = keep f xs in if f x then x ∷ rest else rest
