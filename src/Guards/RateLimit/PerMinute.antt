-- ===== src/Guards/RateLimit/PerMinute.antt =====
-- How many calls of a key the local window lets through.
use tccelta.Common.{
  ℕ, ◌+◌, ◌-◌, ◌*◌, ◌/◌, ◌≤◌, ◌<◌, ◌≡◌, ◌≢◌, inl, inr, true, false, ◌&&◌, List, [], ◌∷◌, leb,
  if◌then◌else◌, length, arith, All, Bool-cases, min,
}
use tccelta.Common.Bytes.{Bytes}
use tccelta.Common.Maps.{
  bytes_key, same_key, same_key_refl, same_key→eq, lookup, put, lookup-put, lookup-put_other,
  length-put,
}
use tccelta.Guards.RateLimit.{
  second, minute_remainder, Window, window_key, max_keys, window_of, allow_local,
}

pub record Call : Type 0 where
  pub now : ℕ
  pub scope : Bytes
  pub key : Bytes
  pub limit : ℕ

abbrev pub key_of : Call → Bytes
key_of c = window_key c.scope c.key

-- The calls of `k`, and those of them that are let through.
pub asked : Bytes → List Call → ℕ
asked k [] = 0
asked k (c ∷ cs) = let rest = asked k cs in if same_key (key_of c) k then rest + 1 else rest

pub granted : Bytes → List (Bytes × Window) → List Call → ℕ
granted k m [] = 0
granted k m (c ∷ cs) =
    let step = allow_local m c.now c.scope c.key c.limit in
    let rest = granted k step.1 cs in if same_key (key_of c) k && step.0.0 then rest + 1 else rest

-- A call of minute `t`, with the limit `limit` if it is one of `k`.
pub record Within (k : Bytes) (t limit : ℕ) (c : Call) : Type 0 where
  pub in_minute : c.now / second / 60 ≡ t
  pub limited : key_of c ≡ k → c.limit ≡ limit

window_of-put :
    (m : List (Bytes × Window)) (k : Bytes) (t n : ℕ)
    → window_of (put m k (record { minute = t; n = n })) k t ≡ record { minute = t; n = n }
unfolding window_of
window_of-put m k t n = ground (arith, lookup-put m k (record { minute = t; n = n }))

window_of-put_other :
    (m : List (Bytes × Window)) (j k : Bytes) (t : ℕ) (w : Window)
    → j ≢ k
    → window_of (put m j w) k t ≡ window_of m k t
unfolding window_of
window_of-put_other m j k t w n = ground (arith, lookup-put_other m w n)

-- A call when the map is not too large.
allow_local_step :
    (m : List (Bytes × Window)) (now : ℕ) (scope key : Bytes) (limit : ℕ)
    → length m ≤ max_keys
    → let n = (window_of m (window_key scope key) (now / second / 60)).n + 1 in
      ((allow_local m now scope key limit).0.0 ≡ leb n limit)
      × ((allow_local m now scope key limit).1
          ≡ put m (window_key scope key) (record { minute = now / second / 60; n = n }))
unfolding allow_local
allow_local_step m now scope key limit h = (ground arith, ground arith)

abbrev after_call : List (Bytes × Window) → Call → List (Bytes × Window)
after_call m c = (allow_local m c.now c.scope c.key c.limit).1

after_own :
    (k : Bytes) (t limit : ℕ) (m : List (Bytes × Window)) (c : Call)
    → Within k t limit c
    → length m ≤ max_keys
    → key_of c ≡ k
    → ((allow_local m c.now c.scope c.key c.limit).0.0 ≡ leb ((window_of m k t).n + 1) limit)
      × ((window_of (after_call m c) k t).n ≡ (window_of m k t).n + 1)
after_own k t limit m c w h e =
    let (verdict, stored) = allow_local_step m c.now c.scope c.key c.limit h in
    let put_k = window_of-put m k t ((window_of m k t).n + 1) in
    (cc (verdict, e, w.in_minute, w.limited e), cc (stored, e, w.in_minute, put_k))

after_other :
    (k : Bytes) (t : ℕ) (m : List (Bytes × Window)) (c : Call)
    → length m ≤ max_keys
    → key_of c ≢ k
    → window_of (after_call m c) k t ≡ window_of m k t
after_other k t m c h n =
    let (_, stored) = allow_local_step m c.now c.scope c.key c.limit h in
    rw stored (window_of-put_other m (key_of c) k t _ n)

length-after_call :
    (m : List (Bytes × Window)) (c : Call)
    → length m ≤ max_keys
    → length (after_call m c) ≤ length m + 1
length-after_call m c h =
    let (_, stored) = allow_local_step m c.now c.scope c.key c.limit h in
    rw stored (length-put m (key_of c) _)

-- Calls in one minute, with the same limit for `k`, that together with the keys already stored do not
-- exceed the limit of keys by more than one: of those of `k` exactly as many are let through as the limit leaves, whatever the calls of
-- the other keys between them.
pub window_exact :
    (k : Bytes) (t limit : ℕ) (m : List (Bytes × Window)) (cs : List Call)
    → All (Within k t limit) cs
    → length m + length cs ≤ max_keys + 1
    → granted k m cs ≡ min (asked k cs) (limit - (window_of m k t).n)
unfolding granted asked
window_exact k t limit m [] a h = omega arith
window_exact k t limit m (c ∷ cs) (w, ws) h =
    let grown = length-after_call m c (omega arith) in
    let rest = window_exact k t limit (after_call m c) cs ws (omega (arith, grown)) in
    elim (Bool-cases (same_key (key_of c) k)) [
      | inl e ↦
          let own = after_own k t limit m c w (omega arith) (same_key→eq (key_of c) k e) in
          rw (e, own.0) (ground (arith, own.1, rest))
      | inr e ↦
          let other = after_other k t m c (omega arith) (λ q. cc (e, q, same_key_refl k)) in
          rw e (ground (arith, other, rest))
    ]

-- The time to wait ends in a later minute and is at least a second and at most a minute.
pub minute_remainder_bounds :
    (now : ℕ)
    → (now / second / 60 < (now + minute_remainder now) / second / 60)
      × (second ≤ minute_remainder now)
      × (minute_remainder now ≤ 60 * second)
unfolding minute_remainder
minute_remainder_bounds now = (ground arith, ground arith, ground arith)

-- A key without a call in this minute.
fresh_call :
    (m : List (Bytes × Window)) (now : ℕ) (scope key : Bytes) (limit : ℕ)
    → 1 ≤ limit
    → (window_of m (window_key scope key) (now / second / 60)).n ≡ 0
    → (allow_local m now scope key limit).0 ≡ (true, 0)
unfolding allow_local window_of lookup
fresh_call m now scope key limit h z = ground arith

window_of-put_past :
    (m : List (Bytes × Window)) (k : Bytes) (t past n : ℕ)
    → past < t
    → (window_of (put m k (record { minute = past; n = n })) k t).n ≡ 0
unfolding window_of
window_of-put_past m k t past n h = ground (arith, lookup-put m k (record { minute = past; n = n }))

retry_of :
    (m : List (Bytes × Window)) (now : ℕ) (scope key : Bytes) (limit retry : ℕ)
    → (allow_local m now scope key limit).0 ≡ (false, retry)
    → retry ≡ minute_remainder now
unfolding allow_local
retry_of m now scope key limit retry r = ground arith

-- Who is refused and comes back after the time it was told is let through, if the limit is at least
-- one.
pub wait_then_allowed :
    (m : List (Bytes × Window)) (now : ℕ) (scope key : Bytes) (limit retry : ℕ)
    → 1 ≤ limit
    → (allow_local m now scope key limit).0 ≡ (false, retry)
    → (allow_local (allow_local m now scope key limit).1 (now + retry) scope key limit).0
      ≡ (true, 0)
unfolding allow_local
wait_then_allowed m now scope key limit retry h r =
    let later = minute_remainder_bounds now in
    let told = retry_of m now scope key limit retry r in
    fresh_call _ (now + retry) scope key limit h (
      window_of-put_past _ (window_key scope key) _ (now / second / 60) _
        (omega (arith, later.0, told)))
