-- ===== src/Batch/Verify/Signed.antt =====
-- A block that passes as valid has a seq that was signed in the batch.
use tccelta.Common.{
  ℕ, ◌≤◌, ◌≡◌, ◌⊎◌, subst, refl, ap, ◌∙◌, Bool, true, false, not, ◌&&◌, ◌||◌, List, [], ◌∷◌, map,
  some, Option-cases, Result, ok, err, Result-cases, Bool-cases, inl, inr, ltb, ◌==◌, length, All,
  All-imp, arith, if◌then◌else◌,
}
use tccelta.Common.Bytes.{Bytes}
use tccelta.Common.Maps.{number_key, lookup, put, lookup-put_cases}
use tccelta.Ingestion.{BlockIn, seq_of}
use tccelta.Protocol.Block.{decode_block}
use tccelta.Protocol.{block_type}
use tccelta.Protocol.Identity.{Profile}
use tccelta.Protocol.Tlv.{Tlv}
use tccelta.Memory.{Fault, or_else}
use tccelta.Registry
use tccelta.Registry.{Dongle}
use tccelta.Batch.{Params, Ports}
use tccelta.Batch.Verify.{
  decode_blocks, member, to_verify, mark_verified, verifier, slice_size, presign, verdicts,
  with_verdicts, Verified, verify_selected, verify,
}
use tccelta.Batch.Verify.Slices.{judged, Judges, verify_slices-judged}

-- Has the batch a block with this seq that is judged well?
unfoldable pub is_signed : (BlockIn → Bool) → ℕ → List BlockIn → Bool
is_signed g s [] = false
is_signed g s (x ∷ xs) = (seq_of x == s && g x) || is_signed g s xs

-- No block counts as valid.
abbrev pub Unjudged : List BlockIn → Type 0
Unjudged xs = All (λ x. x.valid ≡ false) xs

abbrev blocks_in : Result Fault (List BlockIn) → List BlockIn
blocks_in (ok xs) = xs
blocks_in (err e) = []

abbrev verified_in : Result Fault Verified → List BlockIn
verified_in (ok v) = v.blocks
verified_in (err e) = []

pub decode_blocks-Unjudged :
    (p : Profile) (ts : List Tlv) (xs : List BlockIn) → decode_blocks p ts ≡ ok xs → Unjudged xs
unfolding decode_blocks
decode_blocks-Unjudged p [] xs h = subst Unjudged (ap blocks_in h) tt
decode_blocks-Unjudged p (t ∷ ts) xs h = elim (Bool-cases (t.t == block_type)) [
  | inr e ↦ ground (arith, (rw (e, decode_blocks) at h))
  | inl e ↦ elim (Result-cases (decode_block t.v p)) [
    | inr (z, f) ↦ ground (arith, (rw (e, f, decode_blocks) at h))
    | inl (b, f) ↦ elim (Result-cases (decode_blocks p ts)) [
      | inr (z, k) ↦ ground (arith, (rw (e, f, k, decode_blocks) at h))
      | inl (rest, k) ↦
          subst Unjudged (ap blocks_in (rw (e, f, k, decode_blocks) at h))
            (refl, decode_blocks-Unjudged p ts rest k)
    ]
  ]
]

mark_verified-Unjudged :
    (snap : ℕ) (xs : List BlockIn) → Unjudged xs → Unjudged (mark_verified snap xs)
unfolding mark_verified
mark_verified-Unjudged snap [] h = tt
mark_verified-Unjudged snap (x ∷ xs) (e, h) = (e, mark_verified-Unjudged snap xs h)

-- Who counts as valid afterwards has a verdict.
with_verdicts-All :
    (m : List (ℕ × Bool)) (xs : List BlockIn)
    → Unjudged xs
    → All (λ x. x.valid ≡ true → lookup m (seq_of x) ≡ some true) (with_verdicts m xs)
unfolding with_verdicts
with_verdicts-All m [] h = tt
with_verdicts-All m (x ∷ xs) (e, h) = (valid_only, with_verdicts-All m xs h)
  where
    valid_only :
        (if x.verified then or_else (lookup m (seq_of x)) false else x.valid) ≡ true
        → lookup m (seq_of x) ≡ some true
    valid_only v = elim (Bool-cases x.verified) [
      | inr f ↦ ground (arith, e, f, v)
      | inl f ↦ elim (Option-cases (lookup m (seq_of x))) [
        | inl n ↦ ground (arith, (rw (f, n) at v))
        | inr (w, n) ↦ n ∙ ap some (rw (f, n) at v)
      ]
    ]

module _ (g : BlockIn → Bool) (s : ℕ) where
  verdicts-signed :
      (xs : List BlockIn) (m : List (ℕ × Bool))
      → lookup (verdicts xs (map g xs) m) s ≡ some true
      → (lookup m s ≡ some true) ⊎ (is_signed g s xs ≡ true)
  unfolding verdicts is_signed
  verdicts-signed [] m h = inl h
  verdicts-signed (x ∷ xs) m h = elim (verdicts-signed xs (put m (seq_of x) (g x)) h) [
    | inr e ↦ inr (ground (arith, e))
    | inl e ↦ elim (lookup-put_cases m (seq_of x) s (g x) true e) [
      | inl (same, v) ↦ inr (ground (arith, same, v))
      | inr (n, f) ↦ inl f
    ]
  ]

  to_verify-signed :
      (snap : ℕ) (seen : List ℕ) (xs : List BlockIn)
      → is_signed g s (to_verify snap seen xs) ≡ true
      → is_signed g s xs ≡ true
  unfolding to_verify is_signed
  to_verify-signed snap seen [] h = h
  to_verify-signed snap seen (x ∷ xs) h =
      elim (Bool-cases (ltb snap (seq_of x) && not (member (seq_of x) seen))) [
        | inl e ↦
            ground (arith, (rw (e, to_verify) at h), to_verify-signed snap (seq_of x ∷ seen) xs)
        | inr e ↦ ground (arith, to_verify-signed snap seen xs (rw (e, to_verify) at h))
      ]

module _ (q : Params) (p : Ports) (d : Dongle) (f : Bytes → Bytes → Bool)
    (judges : Judges f d (verifier p d)) where
  selected-signed :
      (snap : Registry.State) (marked xs : List BlockIn) (v : Verified)
      → Unjudged marked
      → verify_selected q p d snap marked xs ≡ ok v
      → All (λ x. x.valid ≡ true → is_signed (judged f d) (seq_of x) xs ≡ true) v.blocks
  unfolding verify_selected lookup
  selected-signed snap marked [] v u h =
      subst (λ t. All (λ x. x.valid ≡ true → is_signed (judged f d) (seq_of x) [] ≡ true) t)
        (ap verified_in h)
        (All-imp (with_verdicts [] marked) (λ y k w. let n = k w in cc n)
          (with_verdicts-All [] marked u))
  selected-signed snap marked (x ∷ xs) v u h =
      let g = judged f d in
      let m = verdicts (x ∷ xs) (map g (x ∷ xs)) [] in
      let size : 1 ≤ slice_size q = ground arith in
      let all =
        verify_slices-judged f d (verifier p d) (slice_size q) (length (x ∷ xs)) (x ∷ xs) judges
          size (omega arith) in
      elim all [
        | inr (z, failed, on) ↦ ground (arith, (rw (failed, verify_selected) at h))
        | inl all ↦ elim (Result-cases (presign p d snap marked)) [
          | inr (z, e) ↦ ground (arith, (rw (all, e, verify_selected) at h))
          | inl (pre, e) ↦
              subst (λ t. All (λ y. y.valid ≡ true → is_signed g (seq_of y) (x ∷ xs) ≡ true) t)
                (ap verified_in (rw (all, e, verify_selected) at h))
                (All-imp (with_verdicts m marked)
                  (λ y k w. elim (verdicts-signed g (seq_of y) (x ∷ xs) [] (k w)) [
                    | inl n ↦ cc n
                    | inr z ↦ z
                  ])
                  (with_verdicts-All m marked u))
        ]
      ]

  -- Of the blocks of a batch that pass as valid, each has a seq that the batch has signed.
  pub verify-signed :
      (snap : Registry.State) (blocks : List BlockIn) (v : Verified)
      → Unjudged blocks
      → verify q p d snap blocks ≡ ok v
      → All (λ x. x.valid ≡ true → is_signed (judged f d) (seq_of x) blocks ≡ true) v.blocks
  unfolding verify
  verify-signed snap blocks v u h =
      let snapped = snap.contiguous_seq in
      All-imp v.blocks (λ y k w. to_verify-signed (judged f d) (seq_of y) snapped [] blocks (k w))
        (selected-signed snap (mark_verified snapped blocks) (to_verify snapped [] blocks) v
          (mark_verified-Unjudged snapped blocks u) h)
