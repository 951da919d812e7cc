-- ===== src/Common/Sort/Keep.antt =====
-- Filters of appended and of filtered lists.
use tccelta.Common.Lists.{All}
use tccelta.Common.Tests.{Bool-cases}
use tccelta.Common.Sort.{keep}
use mathlib.Core.Bool.{Bool, true, false, ◌&&◌}
use mathlib.Core.Logic.{inl, inr}
use mathlib.Core.Path.{◌≡◌, refl, ap}
use mathlib.Core.List.{List, [], ◌∷◌, ◌++◌}

module _ {ℓ} {A : Type ℓ} where
  pub keep-append : (f : A → Bool) (xs ys : List A) → keep f (xs ++ ys) ≡ keep f xs ++ keep f ys
  unfolding keep
  keep-append f [] ys = refl
  keep-append f (x ∷ xs) ys = elim (Bool-cases (f x)) [
    | inl e ↦ rw e (ap (λ t. x ∷ t) (keep-append f xs ys))
    | inr e ↦ rw e (keep-append f xs ys)
  ]

  pub keep-keep : (f g : A → Bool) (xs : List A) → keep f (keep g xs) ≡ keep (λ x. g x && f x) xs
  unfolding keep
  keep-keep f g [] = refl
  keep-keep f g (x ∷ xs) = elim (Bool-cases (g x)) [
    | inr e ↦ rw e (keep-keep f g xs)
    | inl e ↦ elim (Bool-cases (f x)) [
      | inl h ↦ rw e (rw h (ap (λ t. x ∷ t) (keep-keep f g xs)))
      | inr h ↦ rw e (rw h (keep-keep f g xs))
    ]
  ]

  -- Two tests that agree on a list, one that holds of it and one that fails.
  pub keep_agree : (f g : A → Bool) (xs : List A) → All (λ x. f x ≡ g x) xs → keep f xs ≡ keep g xs
  unfolding keep
  keep_agree f g [] h = refl
  keep_agree f g (x ∷ xs) h = elim (Bool-cases (g x)) [
    | inl e ↦ rw h.0 (rw e (ap (λ t. x ∷ t) (keep_agree f g xs h.1)))
    | inr e ↦ rw h.0 (rw e (keep_agree f g xs h.1))
  ]

  pub keep_whole : (f : A → Bool) (xs : List A) → All (λ x. f x ≡ true) xs → keep f xs ≡ xs
  unfolding keep
  keep_whole f [] h = refl
  keep_whole f (x ∷ xs) h = rw h.0 (ap (λ t. x ∷ t) (keep_whole f xs h.1))

  pub keep_nothing : (f : A → Bool) (xs : List A) → All (λ x. f x ≡ false) xs → keep f xs ≡ []
  unfolding keep
  keep_nothing f [] h = refl
  keep_nothing f (x ∷ xs) h = rw h.0 (keep_nothing f xs h.1)

  pub keep-true : (f : A → Bool) (xs : List A) → All (λ x. f x ≡ true) (keep f xs)
  unfolding keep
  keep-true f [] = tt
  keep-true f (x ∷ xs) = elim (Bool-cases (f x)) [
    | inl e ↦ rw e (e, keep-true f xs)
    | inr e ↦ rw e (keep-true f xs)
  ]
