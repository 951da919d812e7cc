-- ===== src/Timeline/Nearest.antt =====
-- What Unwrap chooses.
use tccelta.Common.{
  ap, sym, subst, ◌∙◌, refl, ◌⊎◌, inl, inr, Bool-cases, ltb, if◌then◌else◌, ℕ, ◌+◌, ◌*◌, ◌-◌, ◌%◌,
  ◌^◌, ◌≤◌, ◌<◌, ◌≡◌, arith,
}
use tccelta.Common.Int.{ltb_ℤ, ℤ, pos, negsuc, abs, ◌+ℤ◌, ◌-ℤ◌}
use tccelta.Common.Words.{int64, int64_pos, int64_negsuc}
use tccelta.Timeline
use tccelta.Timeline.{unwrap, abs64}

abbrev pub distance : ℕ → ℕ → ℕ
distance a b = (a - b) + (b - a)

-- The integer that lies `a` above the reference `ref` or `z` below it.
at_distance : (ref c : ℕ) → abs (pos c -ℤ pos ref) ≡ pos (distance c ref)
unfolding abs ◌-ℤ◌
at_distance ref c = ground arith

near : ℕ → ℕ → ℕ → ℕ
near ref c best = if ltb (distance c ref) (distance best ref) then c else best

-- `nearer` on integers that do not wrap.
nearer : ℤ → ℤ → ℤ → ℤ
nearer ref c best = if ltb_ℤ (abs (c -ℤ ref)) (abs (best -ℤ ref)) then c else best

nearer_pos : (ref c best : ℕ) → nearer (pos ref) (pos c) (pos best) ≡ pos (near ref c best)
unfolding nearer near
nearer_pos ref c best = ground (arith, at_distance ref c, at_distance ref best)

near_best :
    (ref c best : ℕ)
    → (distance (near ref c best) ref ≤ distance c ref)
      × (distance (near ref c best) ref ≤ distance best ref)
      × ((near ref c best ≡ c) ⊎ (near ref c best ≡ best))
unfolding near
near_best ref c best = ground arith

-- The three candidates around a reference from 2^32 on.
candidate : ℕ → ℕ → ℕ
candidate t ref =
    let base = ref - ref % 2 ^ 32 in
    near ref (base + 2 ^ 32 + t) (near ref (base + t) (near ref (base - 2 ^ 32 + t) (base + t)))

sum_pos : (a b : ℕ) → pos a +ℤ pos b ≡ pos (a + b)
unfolding ◌+ℤ◌
sum_pos a b = ground arith

sum_below : (b t : ℕ) → 2 ^ 32 ≤ b → pos b -ℤ pos (2 ^ 32) +ℤ pos t ≡ pos (b - 2 ^ 32 + t)
unfolding ◌-ℤ◌ ◌+ℤ◌
sum_below b t h = ground arith

-- The last test of Unwrap.
abbrev settle : ℕ → ℤ → ℤ
settle t best = if ltb_ℤ best (pos 0) then pos t else best

abbrev last_candidate : ℕ → ℕ → ℤ
last_candidate t ref =
    let base = pos (ref - ref % 2 ^ 32) in
    let same = base +ℤ pos t in
    nearer (pos ref) (base +ℤ pos (2 ^ 32) +ℤ pos t)
      (nearer (pos ref) same (nearer (pos ref) (base -ℤ pos (2 ^ 32) +ℤ pos t) same))

-- The part of an integer that a word of 64 bits holds.
abbrev Fits : ℤ → Type 0
Fits (pos n) = n < 2 ^ 63
Fits (negsuc n) = n < 2 ^ 63

int64-Fits : (z : ℤ) → Fits z → int64 z ≡ z
int64-Fits (pos n) h = int64_pos n h
int64-Fits (negsuc n) h = int64_negsuc n h

-- Integers within 2^62 of zero, whose differences fit.
abbrev IsSmall : ℤ → Type 0
IsSmall (pos n) = n < 2 ^ 62
IsSmall (negsuc n) = n < 2 ^ 62

difference-Fits : (ref : ℕ) (z : ℤ) → ref < 2 ^ 62 → IsSmall z → Fits (z -ℤ pos ref)
unfolding ◌-ℤ◌
difference-Fits ref (pos n) h k = ground (arith, h, k)
difference-Fits ref (negsuc n) h k = ground (arith, h, k)

abs-Fits : (ref : ℕ) (z : ℤ) → ref < 2 ^ 62 → IsSmall z → Fits (abs (z -ℤ pos ref))
unfolding ◌-ℤ◌ abs
abs-Fits ref (pos n) h k = ground (arith, h, k)
abs-Fits ref (negsuc n) h k = ground (arith, h, k)

measured :
    (ref : ℕ) (z : ℤ) → ref < 2 ^ 62 → IsSmall z → abs64 (int64 (z -ℤ pos ref)) ≡ abs (z -ℤ pos ref)
unfolding abs64
measured ref z h k =
    ap (λ x. int64 (abs x)) (int64-Fits _ (difference-Fits ref z h k))
    ∙ int64-Fits _ (abs-Fits ref z h k)

nearer_fits :
    (ref : ℕ) (c best : ℤ)
    → ref < 2 ^ 62
    → IsSmall c
    → IsSmall best
    → (Timeline.nearer (pos ref) c best ≡ nearer (pos ref) c best)
      × IsSmall (nearer (pos ref) c best)
unfolding Timeline.nearer nearer
nearer_fits ref c best h k l = (
  rw (measured ref c h k) (rw (measured ref best h l) refl),
  elim (Bool-cases (ltb_ℤ (abs (c -ℤ pos ref)) (abs (best -ℤ pos ref)))) [
    | inl e ↦ rw e k
    | inr e ↦ rw e l
  ],
)

below-IsSmall : (b t : ℕ) → b < 2 ^ 61 → t < 2 ^ 32 → IsSmall (pos b -ℤ pos (2 ^ 32) +ℤ pos t)
unfolding ◌-ℤ◌ ◌+ℤ◌
below-IsSmall b t h k = ground (arith, h, k)

under_small : (b : ℕ) → b < 2 ^ 61 → Fits (pos b -ℤ pos (2 ^ 32))
unfolding ◌-ℤ◌
under_small b h = ground (arith, h)

small-Fits : (z : ℤ) → IsSmall z → Fits z
small-Fits (pos n) h = ground (arith, h)
small-Fits (negsuc n) h = ground (arith, h)

sum-IsSmall : (a t : ℕ) → a + t < 2 ^ 62 → IsSmall (pos a +ℤ pos t)
unfolding ◌+ℤ◌
sum-IsSmall a t h = ground (arith, h)

-- Up to the bound of the reference nothing wraps.
settled_unwrap :
    (t ref : ℕ) → t < 2 ^ 32 → ref < 2 ^ 61 → unwrap t (pos ref) ≡ settle t (last_candidate t ref)
unfolding unwrap
settled_unwrap t ref k h =
    let b = ref - ref % 2 ^ 32 in
    let small : ref < 2 ^ 62 = omega arith in
    let s1 = below-IsSmall b t (omega arith) k in
    let e0 = int64-Fits _ (under_small b (omega arith)) in
    let e1 = int64-Fits _ (small-Fits _ s1) in
    let s2 = sum-IsSmall b t (omega arith) in
    let e2 = int64-Fits _ (small-Fits _ s2) in
    let s3 = sum-IsSmall b (2 ^ 32) (omega arith) in
    let e3 = int64-Fits _ (small-Fits _ s3) in
    let s4 : IsSmall (pos b +ℤ pos (2 ^ 32) +ℤ pos t) =
      subst (λ z. IsSmall (z +ℤ pos t)) (sym (sum_pos b (2 ^ 32)))
        (sum-IsSmall (b + 2 ^ 32) t (omega arith)) in
    let e4 = int64-Fits _ (small-Fits _ s4) in
    let n1 = nearer_fits ref _ _ small s1 s2 in
    let n2 = nearer_fits ref _ _ small s2 n1.1 in
    let n3 = nearer_fits ref _ _ small s4 n2.1 in
    rw (e0, e1, e2, e3, e4) (rw (n1.0) (rw (n2.0) (rw (n3.0) refl)))

last_candidate_high : (t ref : ℕ) → 2 ^ 32 ≤ ref → last_candidate t ref ≡ pos (candidate t ref)
unfolding candidate
last_candidate_high t ref h =
    let b = ref - ref % 2 ^ 32 in
    let above : pos b +ℤ pos (2 ^ 32) +ℤ pos t ≡ pos (b + 2 ^ 32 + t) =
      rw (sum_pos b (2 ^ 32)) (sum_pos (b + 2 ^ 32) t) in
    rw (above, sum_pos b t, sum_below b t (omega arith))
      (rw (nearer_pos ref (b - 2 ^ 32 + t) (b + t)) (
        rw (nearer_pos ref (b + t) (near ref (b - 2 ^ 32 + t) (b + t)))
          (nearer_pos ref (b + 2 ^ 32 + t) _)))

settle_pos : (t n : ℕ) → settle t (pos n) ≡ pos n
settle_pos t n = ground arith

unwrap_high :
    (t ref : ℕ)
    → t < 2 ^ 32
    → ref < 2 ^ 61
    → 2 ^ 32 ≤ ref
    → unwrap t (pos ref) ≡ pos (candidate t ref)
unwrap_high t ref k l h =
    settled_unwrap t ref k l ∙ rw (last_candidate_high t ref h) (settle_pos t _)

candidate_nearest :
    (t ref k : ℕ)
    → t < 2 ^ 32
    → 2 ^ 32 ≤ ref
    → (candidate t ref % 2 ^ 32 ≡ t)
      × (distance (candidate t ref) ref ≤ distance (t + k * 2 ^ 32) ref)
unfolding candidate
candidate_nearest t ref k h g =
    let b = ref - ref % 2 ^ 32 in
    let inner = near ref (b - 2 ^ 32 + t) (b + t) in
    let first = near_best ref (b - 2 ^ 32 + t) (b + t) in
    let second = near_best ref (b + t) inner in
    let third = near_best ref (b + 2 ^ 32 + t) (near ref (b + t) inner) in
    (ground (arith, first.2, second.2, third.2), ground (arith, first, second, third))

-- A reference below 2^32.
below_zero : (t : ℕ) → t < 2 ^ 32 → pos 0 -ℤ pos (2 ^ 32) +ℤ pos t ≡ negsuc (2 ^ 32 - t - 1)
unfolding ◌-ℤ◌ ◌+ℤ◌
below_zero t h = ground arith

at_negative : (ref m : ℕ) → abs (negsuc m -ℤ pos ref) ≡ pos (ref + m + 1)
unfolding abs ◌-ℤ◌
at_negative ref m = ground arith

nearer_negative :
    (ref m best : ℕ)
    → nearer (pos ref) (negsuc m) (pos best)
      ≡ (if ltb (ref + m + 1) (distance best ref) then negsuc m else pos best)
unfolding nearer
nearer_negative ref m best = ground (arith, at_negative ref m, at_distance ref best)

negative_stays :
    (ref m c : ℕ) → ref + m + 1 ≤ distance c ref → nearer (pos ref) (pos c) (negsuc m) ≡ negsuc m
unfolding nearer
negative_stays ref m c h = ground (arith, at_negative ref m, at_distance ref c)

same_near : (ref n : ℕ) → near ref n n ≡ n
unfolding near
same_near ref n = ground arith

settle_negative : (t m : ℕ) → settle t (negsuc m) ≡ pos t
settle_negative t m = ground arith

near_keeps : (ref c best : ℕ) → distance best ref ≤ distance c ref → near ref c best ≡ best
unfolding near
near_keeps ref c best h = ground arith

low_chain :
    (t ref m : ℕ)
    → t + m + 1 ≡ 2 ^ 32
    → settle t (
        nearer
          (pos ref)
          (pos (2 ^ 32 + t))
          (nearer (pos ref) (pos t) (nearer (pos ref) (negsuc m) (pos t))))
      ≡ pos (near ref (2 ^ 32 + t) t)
low_chain t ref m h = elim (Bool-cases (ltb (ref + m + 1) (distance t ref))) [
  | inl far ↦
      let n1 : nearer (pos ref) (negsuc m) (pos t) ≡ negsuc m =
        nearer_negative ref m t ∙ rw far refl in
      let n2 = negative_stays ref m t (ground arith) in
      let n3 = negative_stays ref m (2 ^ 32 + t) (ground arith) in
      let kept = near_keeps ref (2 ^ 32 + t) t (ground arith) in
      cc (n1, n2, n3, kept, settle_negative t m)
  | inr close ↦
      let n1 : nearer (pos ref) (negsuc m) (pos t) ≡ pos t =
        nearer_negative ref m t ∙ rw close refl in
      let n2 = nearer_pos ref t t in
      let n3 = nearer_pos ref (2 ^ 32 + t) t in
      cc (n1, n2, n3, same_near ref t, settle_pos t (near ref (2 ^ 32 + t) t))
]

last_candidate_low :
    (t ref : ℕ)
    → t < 2 ^ 32
    → ref < 2 ^ 32
    → settle t (last_candidate t ref) ≡ pos (near ref (2 ^ 32 + t) t)
last_candidate_low t ref h g =
    let base : ref - ref % 2 ^ 32 ≡ 0 = omega arith in
    let above : pos 0 +ℤ pos (2 ^ 32) +ℤ pos t ≡ pos (2 ^ 32 + t) =
      rw (sum_pos 0 (2 ^ 32)) (sum_pos (2 ^ 32) t) in
    let same : pos 0 +ℤ pos t ≡ pos t = rw (sum_pos 0 t) (ap pos (omega arith)) in
    rw base (rw (above, same, below_zero t h) (low_chain t ref (2 ^ 32 - t - 1) (omega arith)))

unwrap_low :
    (t ref : ℕ) → t < 2 ^ 32 → ref < 2 ^ 32 → unwrap t (pos ref) ≡ pos (near ref (2 ^ 32 + t) t)
unwrap_low t ref h g = settled_unwrap t ref h (omega arith) ∙ last_candidate_low t ref h g

-- With a counter `t` below 2^32 and a reference from 0 to below 2^61, near which no int64 wraps, Unwrap
-- gives a number with the low 32 bits `t`, and no other number with these bits is nearer to the reference.
pub unwrap_nearest :
    (t ref k : ℕ)
    → t < 2 ^ 32
    → ref < 2 ^ 61
    → (u : ℕ) × (unwrap t (pos ref) ≡ pos u)
      × (u % 2 ^ 32 ≡ t)
      × (distance u ref ≤ distance (t + k * 2 ^ 32) ref)
unwrap_nearest t ref k h bound = elim (Bool-cases (ltb ref (2 ^ 32))) [
  | inl low ↦
      (let b = near_best ref (2 ^ 32 + t) t in
        (_, unwrap_low t ref h (ground arith), ground (arith, b.2), ground (arith, b)))
  | inr high ↦
      let found = candidate_nearest t ref k h (ground arith) in
      (_, unwrap_high t ref h bound (ground arith), found.0, found.1)
]
