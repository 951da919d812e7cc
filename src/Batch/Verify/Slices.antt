-- ===== src/Batch/Verify/Slices.antt =====
-- The slices in which the blocks are verified do not matter.
use tccelta.Common.{
  ℕ, zero, suc, ◌≤◌, ◌≡◌, refl, sym, ap, ◌∙◌, Bool, List, [], ◌∷◌, ◌++◌, map, map-append, ok, err,
  ◌⊎◌, ◌+◌, subst, inl, inr, Result-cases, length, take, drop, length-drop, take-append-drop, arith,
}
use tccelta.Common.Bytes.{Bytes}
use tccelta.Ingestion.{BlockIn}
use tccelta.Protocol.{block_type}
use tccelta.Protocol.Identity.{tag_input}
use tccelta.Memory.{Fault}
use tccelta.Registry.{Dongle}
use tccelta.Batch.Verify.{Verifier, each, inputs_of, tags_of, copy_into, verify_slices}

module _ (f : Bytes → Bytes → Bool) (d : Dongle) where
  -- The verdict on one block.
  abbrev pub judged : BlockIn → Bool
  judged x = f (tag_input block_type d.dev_id x.b.payload) x.b.tag

  each-judged : (xs : List BlockIn) → each f (inputs_of d xs) (tags_of xs) ≡ map judged xs
  unfolding each inputs_of tags_of
  each-judged [] = refl
  each-judged (x ∷ xs) = ap (λ t. judged x ∷ t) (each-judged xs)

  copy_whole : (xs : List BlockIn) → copy_into (length xs) (map judged xs) ≡ map judged xs
  unfolding copy_into
  copy_whole [] = refl
  copy_whole (x ∷ xs) = ap (λ t. judged x ∷ t) (copy_whole xs)

  -- What is asked of a verifier: on inputs and tags of one number it fails, or it answers for each pair as
  -- `f` does.
  abbrev pub Judges : Verifier → Type 0
  Judges verify =
      (ins tags : List Bytes) (out : List Bool)
      → length ins ≡ length tags
      → verify ins tags ≡ ok out
      → out ≡ each f ins tags

  -- The verifier fails on one of the slices of the blocks.
  abbrev pub FailsOn : Verifier → ℕ → List BlockIn → Fault → Type 0
  FailsOn verify size xs e =
      (k : ℕ) × (verify (inputs_of d (take size (drop k xs))) (tags_of (take size (drop k xs)))
        ≡ err e)

  drop-drop : (n k : ℕ) (xs : List BlockIn) → drop k (drop n xs) ≡ drop (n + k) xs
  drop-drop zero k xs = let e : k ≡ 0 + k = omega arith in ap (λ m. drop m xs) e
  drop-drop (suc n) zero [] =
      let e : suc (n + 0) ≡ suc n + 0 = omega arith in ap (λ m. drop {A = BlockIn} m []) e
  drop-drop (suc n) (suc k) [] =
      let e : suc (n + suc k) ≡ suc n + suc k = omega arith in ap (λ m. drop {A = BlockIn} m []) e
  drop-drop (suc n) k (x ∷ xs) =
      let e : suc (n + k) ≡ suc n + k = omega arith in
      drop-drop n k xs ∙ ap (λ m. drop m (x ∷ xs)) e

  same_number : (xs : List BlockIn) → length (inputs_of d xs) ≡ length (tags_of xs)
  unfolding inputs_of tags_of
  same_number [] = refl
  same_number (x ∷ xs) = ap suc (same_number xs)

  pub verify_slices-judged :
      (verify : Verifier) (size fuel : ℕ) (xs : List BlockIn)
      → Judges verify
      → 1 ≤ size
      → length xs ≤ fuel
      → (verify_slices verify d size fuel xs ≡ ok (map judged xs))
        ⊎ ((e : Fault) × (verify_slices verify d size fuel xs ≡ err e) × FailsOn verify size xs e)
  unfolding verify_slices
  verify_slices-judged verify size fuel [] judges s h = inl refl
  verify_slices-judged verify size zero (x ∷ xs) judges s h = ground (arith, h)
  verify_slices-judged verify size (suc fuel) (x ∷ xs) judges s h =
      let now = take size (x ∷ xs) in
      let later = drop size (x ∷ xs) in
      elim (Result-cases (verify (inputs_of d now) (tags_of now))) [
        | inr (e, k) ↦ inr (e, rw (k, verify_slices) refl, (0, k))
        | inl (out, k) ↦
            let first : verify (inputs_of d now) (tags_of now) ≡ ok (map judged now) =
              k ∙ ap ok (judges _ _ out (same_number now) k ∙ each-judged now) in
            elim (verify_slices-judged verify size fuel later judges s
              (let n = length-drop size (x ∷ xs) in omega (arith, n, h))) [
                | inr (e, rest, on) ↦ inr (
                  e,
                  rw (first, verify_slices) (rw rest refl),
                  (
                    size + on.0,
                    subst (λ l. verify (inputs_of d (take size l)) (tags_of (take size l)) ≡ err e)
                        (drop-drop size on.0 (x ∷ xs)) on.1,
                  ),
                )
                | inl rest ↦
                    let whole : copy_into (length now) (map judged now) ++ map judged later
                        ≡ map judged (x ∷ xs) =
                      ap (λ t. t ++ map judged later) (copy_whole now)
                      ∙ sym (map-append judged now later)
                      ∙ ap (map judged) (take-append-drop size (x ∷ xs)) in
                    inl (rw (first, verify_slices) (rw rest (ap ok whole)))
              ]
      ]
