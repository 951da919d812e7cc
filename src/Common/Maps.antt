-- ===== src/Common/Maps.antt =====
-- Go's maps as association lists over a type of keys with a decidable equality.
use tccelta.Common.Tests.{◌==◌, ==_iff, if◌then◌else◌, Bool-cases}
use tccelta.Common.Lists.{length}
use tccelta.Common.Bytes.{Bytes}
use tccelta.Common.Text.{bytes_eq, bytes_eq_iff}
use Prim.Native.Nat.{ℕ, ◌+◌, ◌≤◌}
use mathlib.Core.Path.{◌≡◌, refl, ap}
use mathlib.Core.Logic.{◌≢◌, ◌↔◌, ◌⊎◌, inl, inr}
use mathlib.Core.Bool.{◌&&◌, Bool, true, false}
use mathlib.Core.Option.{Option, none, some}
use mathlib.Core.List.{List, [], ◌∷◌}
use native.Mathlib.Omega.{arith}

pub record Key (K : Type 0) : Type 0 where
  pub same : K → K → Bool
  pub same_iff : (a b : K) → (same a b ≡ true) ↔ (a ≡ b)

instance abbrev pub number_key : Key ℕ
number_key = record { same = ◌==◌; same_iff = ==_iff }

instance abbrev pub bytes_key : Key Bytes
bytes_key = record { same = bytes_eq; same_iff = bytes_eq_iff }

abbrev pub same_key : {K : Type 0} ⦃e : Key K⦄ → K → K → Bool
same_key ⦃e⦄ = e.same

pub same_key_refl : {K : Type 0} ⦃e : Key K⦄ (k : K) → same_key k k ≡ true
same_key_refl ⦃e⦄ k = (e.same_iff k k).1 refl

pub same_key-ne : {K : Type 0} ⦃e : Key K⦄ (k l : K) → k ≢ l → same_key k l ≡ false
same_key-ne ⦃e⦄ k l n = elim (Bool-cases (e.same k l)) [
  | inl h ↦ elim (n ((e.same_iff k l).0 h)) [ ]
  | inr h ↦ h
]

pub same_key→eq : {K : Type 0} ⦃e : Key K⦄ (k l : K) → same_key k l ≡ true → k ≡ l
same_key→eq ⦃e⦄ k l h = (e.same_iff k l).0 h

module _ {ℓ} {K : Type 0} ⦃e : Key K⦄ {A : Type ℓ} where
  unfoldable pub lookup : List (K × A) → K → Option A
  lookup [] k = none
  lookup ((l, a) ∷ m) k = let rest = lookup m k in if same_key l k then some a else rest

  unfoldable pub put : List (K × A) → K → A → List (K × A)
  put [] k a = (k, a) ∷ []
  put ((l, b) ∷ m) k a = let rest = put m k a in if same_key l k then (k, a) ∷ m else (l, b) ∷ rest

  pub lookup-put : (m : List (K × A)) (k : K) (a : A) → lookup (put m k a) k ≡ some a
  unfolding lookup put
  lookup-put [] k a = grind (arith, same_key_refl k)
  lookup-put ((l, b) ∷ m) k a = ground (arith, same_key_refl k, lookup-put m k a)

  pub lookup-put_other :
      (m : List (K × A)) {k l : K} (a : A) → k ≢ l → lookup (put m k a) l ≡ lookup m l
  unfolding lookup put
  lookup-put_other [] {k} {l} a n = ground (arith, same_key-ne k l n)
  lookup-put_other ((j, b) ∷ m) {k} {l} a n = elim (Bool-cases (same_key j k)) [
    | inl h ↦ ground (arith, same_key→eq j k h, same_key-ne k l n, h, lookup-put_other m a n)
    | inr h ↦ ground (arith, h, lookup-put_other m a n)
  ]

  pub length-put : (m : List (K × A)) (k : K) (a : A) → length (put m k a) ≤ length m + 1
  unfolding put
  length-put [] k a = omega arith
  length-put ((l, b) ∷ m) k a = ground (arith, length-put m k a)

-- delete
module _ {ℓ} {K : Type 0} ⦃e : Key K⦄ {A : Type ℓ} where
  unfoldable pub remove : List (K × A) → K → List (K × A)
  remove [] k = []
  remove ((l, a) ∷ m) k = let rest = remove m k in if same_key l k then rest else (l, a) ∷ rest

  pub length-remove : (m : List (K × A)) (k : K) → length (remove m k) ≤ length m
  unfolding remove
  length-remove [] k = omega arith
  length-remove ((l, a) ∷ m) k = ground (arith, length-remove m k)

  pub lookup-remove : (m : List (K × A)) (k : K) → lookup (remove m k) k ≡ none
  unfolding lookup remove
  lookup-remove [] k = refl
  lookup-remove ((l, a) ∷ m) k = ground (arith, lookup-remove m k)

  pub lookup-remove_other :
      (m : List (K × A)) {k l : K} → k ≢ l → lookup (remove m k) l ≡ lookup m l
  unfolding lookup remove
  lookup-remove_other [] n = refl
  lookup-remove_other ((j, b) ∷ m) {k} {l} n = elim (Bool-cases (same_key j k)) [
    | inl h ↦ ground (arith, same_key→eq j k h, same_key-ne k l n, h, lookup-remove_other m n)
    | inr h ↦ ground (arith, h, lookup-remove_other m n)
  ]

pub and_left : (a b : Bool) → (a && b) ≡ true → a ≡ true
and_left true b h = refl
and_left false b h = h

pub and_right : (a b : Bool) → (a && b) ≡ true → b ≡ true
and_right true b h = h
and_right false b h = cc

instance abbrev pub pair_key : {K L : Type 0} ⦃d : Key K⦄ ⦃e : Key L⦄ → Key (K × L)
pair_key ⦃d⦄ ⦃e⦄ = record {
  same = λ a b. d.same a.0 b.0 && e.same a.1 b.1;
  same_iff = λ a b. (
    λ h i. ((d.same_iff a.0 b.0).0 (and_left _ _ h) i, (e.same_iff a.1 b.1).0 (and_right _ _ h) i),
    λ q. rw ((d.same_iff a.0 b.0).1 (ap (λ x. x.0) q)) ((e.same_iff a.1 b.1).1 (ap (λ x. x.1) q)),
  );
}

-- What a map holds after `put` was put or was there.
module _ {ℓ} {K : Type 0} ⦃e : Key K⦄ {A : Type ℓ} where
  pub lookup-put_cases :
      (m : List (K × A)) (k l : K) (a x : A)
      → lookup (put m k a) l ≡ some x
      → ((k ≡ l) × (a ≡ x)) ⊎ ((k ≢ l) × (lookup m l ≡ some x))
  lookup-put_cases m k l a x h = elim (Bool-cases (same_key k l)) [
    | inl s ↦
        let p : k ≡ l = same_key→eq k l s in
        let q : some a ≡ some x = cc (h, p, lookup-put m k a) in inl (p, ground (arith, q))
    | inr s ↦
        let n : k ≢ l = λ p. cc (s, p, same_key_refl l) in inr (n, cc (h, lookup-put_other m a n))
  ]
