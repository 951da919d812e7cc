-- ===== src/Protocol/Tlv/Batch.antt =====
-- ReadBatch: the loop ends, and it accepts exactly the encodings of one to `max` envelopes.
use mathlib.Core.List.{append_assoc, append-nil}
use tccelta.Common.{
  ℕ, zero, suc, ◌+◌, ◌≤◌, ◌<◌, ◌≡◌, ◌≢◌, inl, inr, refl, List, [], ◌∷◌, ◌++◌, Result, ok, err, ltb,
  leb, if◌then◌else◌, length, drop, arith, length-append, All, length-drop, take-append-drop,
  drop-append_length, Result-cases,
}
use tccelta.Common.Bytes.{Bytes, IsByte}
use tccelta.Protocol.{Error, batch_too_large, stuck}
use tccelta.Protocol.Tlv.{Tlv, read_tlv, append_tlv, read_batch_loop, read_batch}
use tccelta.Protocol.Tlv.RoundTrip.{
  IsEnvelope, encode, length-encode, read_tlv-append_tlv, read_tlv_sound,
}

unfoldable pub encode_all : List Tlv → Bytes
encode_all [] = []
encode_all (x ∷ xs) = encode x ++ encode_all xs

read_tlv_advances :
    (b : Bytes) → (read_tlv b ≢ err stuck) × ((x : Tlv) (n : ℕ) → read_tlv b ≡ ok (x, n) → 3 ≤ n)
unfolding read_tlv
read_tlv_advances b = ((λ e. ground arith), λ x n e. ground arith)

read_batch_loop-ne-stuck :
    (fuel : ℕ) (b : Bytes) (max : ℕ) (out : List Tlv)
    → length b ≤ fuel
    → read_batch_loop fuel b max out ≢ err stuck
unfolding read_batch_loop
read_batch_loop-ne-stuck fuel [] max out h = λ e. cc
read_batch_loop-ne-stuck zero (b ∷ bs) max out h = absurd (omega arith)
read_batch_loop-ne-stuck (suc fuel) (b ∷ bs) max out h = elim (Result-cases (read_tlv (b ∷ bs))) [
  | inl ((x, n), e) ↦
      let step = (read_tlv_advances (b ∷ bs)).1 x n e in
      let rest =
        read_batch_loop-ne-stuck fuel (drop n (b ∷ bs)) max (out ++ x ∷ [])
          (omega (arith, length-drop n (b ∷ bs))) in
      rw e (ground arith)
  | inr (x, e) ↦ let no_stuck = (read_tlv_advances (b ∷ bs)).0 in rw e (λ p. no_stuck (cc))
]

-- ReadBatch ends on every body: its loop never runs out of fuel.
pub read_batch-ne-stuck : (body : Bytes) (max : ℕ) → read_batch body max ≢ err stuck
unfolding read_batch
read_batch-ne-stuck body max =
    let loop = read_batch_loop-ne-stuck (length body) body max [] (omega arith) in ground arith

drop-encode : (x : Tlv) (rest : Bytes) → drop (3 + length x.v) (encode x ++ rest) ≡ rest
unfolding encode append_tlv
drop-encode x rest =
    let e : 3 + length x.v ≡ suc (suc (suc (length x.v))) = omega arith in
    rw e (drop-append_length x.v rest)

-- One round of the loop at an envelope.
loop_step :
    (fuel : ℕ) (x : Tlv) (rest : Bytes) (max : ℕ) (out : List Tlv)
    → IsEnvelope x
    → read_batch_loop (suc fuel) (encode x ++ rest) max out ≡ (
        if leb max (length out)
        then err batch_too_large
        else read_batch_loop fuel rest max (out ++ x ∷ []))
unfolding read_batch_loop encode append_tlv
loop_step fuel x rest max out h = ground (arith, read_tlv-append_tlv x rest h, drop-encode x rest)

-- What the loop returns on the encodings of `xs`.
abbrev outcome : ℕ → List Tlv → List Tlv → Result Error (List Tlv)
outcome max out [] = ok out
outcome max out (x ∷ xs) =
    if ltb max (length out + length (x ∷ xs)) then err batch_too_large else ok (out ++ x ∷ xs)

loop-encode_all :
    (fuel : ℕ) (xs : List Tlv) (max : ℕ) (out : List Tlv)
    → All IsEnvelope xs
    → length (encode_all xs) ≤ fuel
    → read_batch_loop fuel (encode_all xs) max out ≡ outcome max out xs
unfolding encode_all read_batch_loop
loop-encode_all fuel [] max out h n = refl
loop-encode_all zero (x ∷ xs) max out h n =
    absurd (omega (arith, length-encode x, length-append (encode x) (encode_all xs)))
loop-encode_all (suc fuel) (x ∷ []) max out h n = ground (arith, loop_step fuel x [] max out h.0)
loop-encode_all (suc fuel) (x ∷ y ∷ ys) max out h n = ground (
  arith,
  loop_step fuel x (encode_all (y ∷ ys)) max out h.0,
  loop-encode_all fuel (y ∷ ys) max (out ++ x ∷ []) h.1
      (omega (arith, length-encode x, length-append (encode x) (encode_all (y ∷ ys)))),
  length-append out (x ∷ []),
  append_assoc out (x ∷ []) (y ∷ ys),
)

-- A body that holds the encodings of one envelope or more is read as these envelopes if they are
-- at most `max`, and refused as too large if they are more.
pub read_batch-encode_all :
    (x : Tlv) (xs : List Tlv) (max : ℕ)
    → All IsEnvelope (x ∷ xs)
    → read_batch (encode_all (x ∷ xs)) max
      ≡ (if ltb max (length (x ∷ xs)) then err batch_too_large else ok (x ∷ xs))
unfolding read_batch encode_all
read_batch-encode_all x xs max h = ground (
  arith,
  loop-encode_all (length (encode_all (x ∷ xs))) (x ∷ xs) max [] h (omega arith),
  length-encode x,
  length-append (encode x) (encode_all xs),
)

-- What the loop accepts adds envelopes to `out`, and their encodings are the bytes that it read.
abbrev Accepts : Bytes → ℕ → List Tlv → List Tlv → Type 0
Accepts b max out ys =
    (xs : List Tlv) × (ys ≡ out ++ xs) × (encode_all xs ≡ b) × All IsEnvelope xs × (length ys ≤ max)

All-drop : (n : ℕ) (b : Bytes) → All IsByte b → All IsByte (drop n b)
All-drop zero b h = h
All-drop (suc n) [] h = h
All-drop (suc n) (x ∷ b) h = All-drop n b h.1

loop_sound :
    (fuel : ℕ) (b : Bytes) (max : ℕ) (out ys : List Tlv)
    → All IsByte b
    → length out ≤ max
    → read_batch_loop fuel b max out ≡ ok ys
    → Accepts b max out ys
unfolding read_batch_loop encode_all
loop_sound fuel [] max out ys h n e = ([], ground (arith, append-nil out), refl, tt, ground arith)
loop_sound zero (b ∷ bs) max out ys h n e = cc
loop_sound (suc fuel) (b ∷ bs) max out ys h n e = elim (Result-cases (read_tlv (b ∷ bs))) [
  | inl ((x, k), r) ↦
      let (fits, room, len, code) = read_tlv_sound (b ∷ bs) x k h r in
      let (small, next) = after_round x k r e in
      let (xs, join, rest, all, few) =
        loop_sound fuel (drop k (b ∷ bs)) max (out ++ x ∷ []) ys (All-drop k (b ∷ bs) h)
          (omega (arith, length-append out (x ∷ []))) next in
      (
        x ∷ xs,
        ground (arith, append_assoc out (x ∷ []) xs),
        ground (arith, take-append-drop k (b ∷ bs)),
        (fits, all),
        few,
      )
  | inr (x, r) ↦ absurd (ground arith)
]
  where
    after_round :
        (x : Tlv) (k : ℕ)
        → read_tlv (b ∷ bs) ≡ ok (x, k)
        → read_batch_loop (suc fuel) (b ∷ bs) max out ≡ ok ys
        → (length out < max) × (read_batch_loop fuel (drop k (b ∷ bs)) max (out ++ x ∷ []) ≡ ok ys)
    after_round x k r e = ground arith

encode_all_nonempty : (xs : List Tlv) (b : ℕ) (bs : Bytes) → encode_all xs ≡ b ∷ bs → 0 < length xs
unfolding encode_all
encode_all_nonempty [] b bs h = cc
encode_all_nonempty (x ∷ xs) b bs h = omega arith

-- Whatever ReadBatch accepts is the concatenation of the encodings of one to `max` envelopes.
pub read_batch_sound :
    (body : Bytes) (max : ℕ) (xs : List Tlv)
    → All IsByte body
    → read_batch body max ≡ ok xs
    → (encode_all xs ≡ body) × (0 < length xs) × (length xs ≤ max) × All IsEnvelope xs
unfolding read_batch encode_all
read_batch_sound [] max xs h e = cc
read_batch_sound (b ∷ bs) max xs h e =
    let (ys, join, code, all, few) =
      loop_sound (length (b ∷ bs)) (b ∷ bs) max [] xs h (omega arith) (ground arith) in
    let same : xs ≡ ys = join in
    (cc (code, same), rw same (encode_all_nonempty ys b bs code), few, rw same all)
