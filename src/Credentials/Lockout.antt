-- ===== src/Credentials/Lockout.antt =====
-- A failure that blocks a pair blocks it until the end of the block.
use tccelta.Common.{
  ℕ, ◌+◌, ◌≤◌, ◌<◌, ◌≡◌, ◌≢◌, sym, subst, refl, drop, ap, ◌∙◌, Bool, true, List, [], ◌∷◌, ◌++◌,
  some, Option-cases, ltb, leb, length, get_or, max, lt→ltb, Bool-cases, inl, inr, arith,
}
use tccelta.Common.Bytes.{Bytes}
use tccelta.Common.Maps.{
  bytes_key, lookup, put, remove, same_key, same_key_refl, same_key→eq, lookup-put,
  lookup-put_other, lookup-remove_other,
}
use tccelta.Credentials.{Powers, Policy, block}
use tccelta.Credentials.Counters.{
  Policies, max_local_keys, pair_prefix, ip_prefix, Entry, Counters, is_live, live, remaining,
  check_loop, check, keys, reset, keep, evict, make_room, counted, counted_in, first_failure, bump,
  fail,
}

-- The key is held, and blocked until `end`.
pub record Held (m : Counters) (k : Bytes) (end : ℕ) : Type 0 where
  pub e : Entry
  pub found : lookup m k ≡ some e
  pub until : e.until ≡ end
  pub expire : end ≤ e.expire

keep-found :
    (f : Entry → Bool) (m : Counters) (k : Bytes) (e : Entry)
    → lookup m k ≡ some e
    → f e ≡ true
    → lookup (keep f m) k ≡ some e
unfolding keep lookup
keep-found f [] k e h t = h
keep-found f ((l, x) ∷ m) k e h t = elim (Bool-cases (same_key l k)) [
  | inl s ↦
      let q : x ≡ e = ground (arith, (rw (s, lookup) at h)) in
      let u : f x ≡ true = rw q t in rw u (rw (s, lookup) (ap some q))
  | inr s ↦
      let rest = keep-found f m k e (rw (s, lookup) at h) t in
      elim (Bool-cases (f x)) [ inl u ↦ rw u (rw (s, lookup) rest) | inr u ↦ rw u rest ]
]

-- A write that keeps what a key holds keeps its block.
Held-same :
    (m m' : Counters) (k : Bytes) (end : ℕ)
    → ((e : Entry) → e.until ≡ end → end ≤ e.expire → lookup m k ≡ some e → lookup m' k ≡ some e)
    → Held m k end
    → Held m' k end
Held-same m m' k end same h = record {
  e = h.e;
  found = same h.e h.until h.expire h.found;
  until = h.until;
  expire = h.expire;
}

module _ (now end : ℕ) (k : Bytes) (open_block : now < end) where
  evict-Held : (m : Counters) → Held m k end → Held (evict m now) k end
  unfolding evict
  evict-Held m = Held-same m (evict m now) k end λ e u x h.
      let live_now : ltb now e.expire ≡ true = lt→ltb now e.expire (omega arith) in
      let still : ltb now e.until ≡ true = lt→ltb now e.until (omega arith) in
      let known = keep-found (λ z. ltb now z.expire) m k e h live_now in
      elim (Bool-cases (ltb (length (keep (λ z. ltb now z.expire) m)) max_local_keys)) [
        | inl g ↦ rw g known
        | inr g ↦ rw g (keep-found (λ z. ltb now z.until) _ k e known still)
      ]

  make_room-Held : (m : Counters) → Held m k end → Held (make_room m now) k end
  unfolding make_room
  make_room-Held m h = elim (Bool-cases (leb max_local_keys (length m))) [
    | inl g ↦ rw g (evict-Held m h)
    | inr g ↦ rw g h
  ]

  live-Held : (m : Counters) (l : Bytes) → k ≢ l → Held m k end → Held (live m l now).1 k end
  unfolding live
  live-Held m l n h = elim (Option-cases (is_live now (lookup m l))) [
    | inl g ↦
        rw (g, live)
          (Held-same m (remove m l) k end (λ e u x q. lookup-remove_other m (λ r. n (sym r)) ∙ q) h)
    | inr (e, g) ↦ rw (g, live) h
  ]

  module _ (f : Powers) (p : Policy) where
    counted_in-Held :
        (m : Counters) (l : Bytes) (x : Entry)
        → k ≢ l
        → Held m k end
        → Held (counted_in f p now m l x).1 k end
    unfolding counted_in
    counted_in-Held m l x n =
        Held-same m (put m l (counted f p now x)) k end
          λ e u q r. lookup-put_other m (counted f p now x) (λ w. n (sym w)) ∙ r

    first_failure-Held :
        (m : Counters) (l : Bytes) → k ≢ l → Held m k end → Held (first_failure f p now m l).1 k end
    unfolding first_failure
    first_failure-Held m l n h =
        let room = make_room-Held m h in
        elim (Bool-cases (leb max_local_keys (length (make_room m now)))) [
          | inl g ↦ rw g room
          | inr g ↦ rw g (counted_in-Held (make_room m now) l _ n room)
        ]

    -- A failure of another key leaves a block alone that has not ended.
    other-Held : (m : Counters) (l : Bytes) → k ≢ l → Held m k end → Held (bump f p now m l).1 k end
    unfolding bump
    other-Held m l n h =
        let kept = live-Held m l n h in
        elim (Option-cases (live m l now).0) [
          | inl g ↦ rw (g, bump) (first_failure-Held (live m l now).1 l n kept)
          | inr (x, g) ↦ rw (g, bump) (counted_in-Held (live m l now).1 l x n kept)
        ]

module _ (f : Powers) (p : Policy) (now : ℕ) where
  new-Held :
      (m : Counters) (k : Bytes) (x : Entry)
      → 0 < block f p (x.n + 1)
      → Held (counted_in f p now m k x).1 k (now + block f p (x.n + 1))
  unfolding counted_in counted
  new-Held m k x h = record {
    e = counted f p now x;
    found = lookup-put m k (counted f p now x);
    until = ground (arith, h);
    expire = ground (arith, h);
  }

  -- A failure that blocks is remembered until the end of its block.
  bump-Held :
      (m : Counters) (k : Bytes)
      → 0 < (bump f p now m k).0.1
      → Held (bump f p now m k).1 k (now + (bump f p now m k).0.1)
  unfolding bump first_failure counted_in block
  bump-Held m k h = elim (Option-cases (live m k now).0) [
    | inr (x, g) ↦ rw (g, bump) (new-Held (live m k now).1 k x (rw (g, bump, counted_in) at h))
    | inl g ↦
        let room = make_room (live m k now).1 now in
        let h1 = rw (g, bump, first_failure) at h in
        elim (Bool-cases (leb max_local_keys (length room))) [
          | inl full ↦ ground (arith, (rw full at h1))
          | inr fits ↦
              rw (g, bump, first_failure)
                (rw fits (new-Held room k _ (rw (fits, counted_in) at h1)))
        ]
  ]

check_loop-le :
    (now : ℕ) (ks : List Bytes) (longest : ℕ) (m : Counters)
    → longest ≤ (check_loop now ks longest m).0
unfolding check_loop
check_loop-le now [] longest m = omega arith
check_loop-le now (k ∷ ks) longest m =
    let (found, after) = live m k now in
    let rest = check_loop-le now ks (max longest (remaining now found)) after in omega (arith, rest)

-- A block that has not ended is found.
live_block :
    (m : Counters) (k : Bytes) (end later : ℕ)
    → Held m k end
    → end ≤ later + remaining later (live m k later).0
unfolding live
live_block m k end later h = elim (Bool-cases (ltb later h.e.expire)) [
  | inl g ↦ rw (h.found, live) (rw g (let u = h.until in omega (arith, u)))
  | inr g ↦ let x = h.expire in ground (arith, g, x)
]

-- The held key is live, so that a search for it changes nothing.
same_live :
    (now end : ℕ) (k : Bytes) (m : Counters) → now < end → Held m k end → (live m k now).1 ≡ m
unfolding live
same_live now end k m open_block h =
    let still : ltb now h.e.expire ≡ true =
      lt→ltb now h.e.expire (let x = h.expire in omega (arith, x, open_block)) in
    rw (h.found, live) (rw still refl)

module _ (now end : ℕ) (k : Bytes) (open_block : now < end) where
  -- A search for whatever key leaves the block.
  any_live-Held : (m : Counters) (l : Bytes) → Held m k end → Held (live m l now).1 k end
  any_live-Held m l h = elim (Bool-cases (same_key k l)) [
    | inl s ↦
        let q : k ≡ l = same_key→eq k l s in
        subst (λ j. Held (live m j now).1 k end) q
          (subst (λ t. Held t k end) (sym (same_live now end k m open_block h)) h)
    | inr s ↦ live-Held now end k open_block m l (λ q. cc (s, q, same_key_refl k)) h
  ]

  check_loop-Held :
      (ks : List Bytes) (longest : ℕ) (m : Counters)
      → Held m k end
      → Held (check_loop now ks longest m).1 k end
  unfolding check_loop
  check_loop-Held [] longest m h = h
  check_loop-Held (l ∷ ks) longest m h = check_loop-Held ks _ (live m l now).1 (any_live-Held m l h)

pair_not_ip : (pair ip : Bytes) → pair_prefix ++ pair ≢ ip_prefix ++ ip
pair_not_ip pair ip e = let q : 112 ≡ 105 = ap (λ t. get_or t 12 0) e in omega (arith, q)

pairs_apart : (c d : ℕ) (p q : Bytes) → pair_prefix ++ c ∷ p ≡ pair_prefix ++ d ∷ q → c ∷ p ≡ d ∷ q
pairs_apart c d p q e = ap (drop 14) e

module _ (f : Powers) (pol : Policies) (end : ℕ) (pair : Bytes) where
  -- An operation on the counters before `end`: any Check, and Fail and Reset of other pairs.
  pub data Step (m : Counters) : Counters → Type 0 where
    checked : (now : ℕ) (p ip : Bytes) → now < end → Step m (check m now p ip).1
    failed : (now : ℕ) (p ip : Bytes) → now < end → p ≢ pair → Step m (fail f pol m now p ip).1
    forgotten : (p : Bytes) → p ≢ pair → Step m (reset m p)

  pub data Steps (m : Counters) : Counters → Type 0 where
    stay : Steps m m
    more : {n last : Counters} → Steps m n → Step n last → Steps m last

module _ (f : Powers) (pol : Policies) (end : ℕ) (c : ℕ) (pair : Bytes) where
  abbrev own_key : Bytes
  own_key = pair_prefix ++ c ∷ pair

  fail-Held :
      (m : Counters) (now : ℕ) (p ip : Bytes)
      → now < end
      → p ≢ c ∷ pair
      → Held m own_key end
      → Held (fail f pol m now p ip).1 own_key end
  unfolding fail
  fail-Held m now [] ip b n h =
      other-Held now end own_key b f pol.ip m (ip_prefix ++ ip) (pair_not_ip (c ∷ pair) ip) h
  fail-Held m now (d ∷ p) ip b n h =
      other-Held now end own_key b f pol.ip _ (ip_prefix ++ ip) (pair_not_ip (c ∷ pair) ip) (
        other-Held now end own_key b f pol.pair m (pair_prefix ++ d ∷ p)
          (λ e. n (sym (pairs_apart c d pair p e))) h)

  reset-Held :
      (m : Counters) (p : Bytes) → p ≢ c ∷ pair → Held m own_key end → Held (reset m p) own_key end
  unfolding reset
  reset-Held m p n =
      Held-same m (remove m (pair_prefix ++ p)) own_key end
        λ e u x q. lookup-remove_other m (λ r. n (ap (drop 14) r)) ∙ q

  Step-Held :
      {m n : Counters} → Step f pol end (c ∷ pair) m n → Held m own_key end → Held n own_key end
  unfolding check
  Step-Held {m} (checked now p ip b) h = check_loop-Held now end own_key b (keys p ip) 0 m h
  Step-Held {m} (failed now p ip b n) h = fail-Held m now p ip b n h
  Step-Held {m} (forgotten p n) h = reset-Held m p n h

  Steps-Held :
      {m n : Counters} → Steps f pol end (c ∷ pair) m n → Held m own_key end → Held n own_key end
  Steps-Held stay h = h
  Steps-Held (more s t) h = Step-Held t (Steps-Held s h)

  check-Held :
      (m : Counters) (later : ℕ) (ip : Bytes)
      → Held m own_key end
      → end ≤ later + (check m later (c ∷ pair) ip).0
  unfolding check check_loop
  check-Held m later ip h =
      let found = live_block m own_key end later h in
      let most =
        check_loop-le later ((ip_prefix ++ ip) ∷ [])
          (max 0 (remaining later (live m own_key later).0)) (live m own_key later).1 in
      omega (arith, found, most)

-- When a failure of a pair blocks it in the counters of one replica, then, after any Checks and any
-- failures and resets of other pairs before the end of the block, Check at whatever instant answers for
-- this pair, from whatever address, at least the time that is left of the block.
pub check-fail :
    (f : Powers) (pol : Policies) (m after : Counters) (now later c : ℕ) (pair ip ip' : Bytes)
    → 0 < (fail f pol m now (c ∷ pair) ip).0.pair_block
    → Steps f pol
        (now + (fail f pol m now (c ∷ pair) ip).0.pair_block)
        (c ∷ pair)
        (fail f pol m now (c ∷ pair) ip).1
        after
    → now + (fail f pol m now (c ∷ pair) ip).0.pair_block
      ≤ later + (check after later (c ∷ pair) ip').0
unfolding fail
check-fail f pol m after now later c pair ip ip' h s =
    let k = pair_prefix ++ c ∷ pair in
    let end = now + (bump f pol.pair now m k).0.1 in
    let kept =
      other-Held now end k (omega (arith, h)) f pol.ip (bump f pol.pair now m k).1 (ip_prefix ++ ip)
        (pair_not_ip (c ∷ pair) ip) (bump-Held f pol.pair now m k h) in
    check-Held f pol end c pair after later ip' (Steps-Held f pol end c pair s kept)
