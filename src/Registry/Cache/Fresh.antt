-- ===== src/Registry/Cache/Fresh.antt =====
-- How old an answer of the cache can be.
use tccelta.Common.{
  subst, ℕ, ◌+◌, ◌≤◌, ◌<◌, ◌≡◌, ◌⊎◌, refl, List, [], none, some, Option-cases, Result, ok, ltb, leb,
  ltb→lt, length, Bool-cases, Result-cases, inl, inr, arith,
}
use tccelta.Common.Bytes.{Bytes}
use tccelta.Common.Maps.{bytes_key, lookup, put, lookup-put_cases, length-put}
use tccelta.Registry.{Dongle, Error}
use tccelta.Registry.Cache.{Input, Dongles, current, remember, find}

-- `base` is what the repository answers at an instant.
module _ (base : ℕ → Bytes → Result Error Dongle) where
  -- The dongle is what the repository answered at an instant whose lifetime ends at `until`.
  pub record Answered (ttl until : ℕ) (dev : Bytes) (d : Dongle) : Type 0 where
    pub at : ℕ
    pub ends : until ≡ at + ttl
    pub said : base at dev ≡ ok d

  -- Every entry is such an answer, and there are at most `max`.
  pub record IsFresh (c : Dongles) : Type 0 where
    pub bounded : length c.m ≤ c.max
    pub entries :
        (dev : Bytes) (e : Input) → lookup c.m dev ≡ some e → Answered c.ttl e.until dev e.d

  put-IsFresh :
      (c : Dongles) (m : List (Bytes × Input)) (now : ℕ) (dev : Bytes) (d : Dongle)
      → length m < c.max
      → ((k : Bytes) (e : Input) → lookup m k ≡ some e → Answered c.ttl e.until k e.d)
      → base now dev ≡ ok d
      → IsFresh (record c { m = put m dev (record { d = d; until = now + c.ttl }) })
  put-IsFresh c m now dev d room held h =
      let new : Input = record { d = d; until = now + c.ttl } in
      record {
        bounded = let k = length-put m dev new in omega (arith, k, room);
        entries = λ k e q. elim (lookup-put_cases m dev k new e q) [
          | inl (same, is) ↦
              let a : Answered c.ttl new.until dev new.d = record {
                at = now;
                ends = refl;
                said = h;
              } in
              subst (λ x. Answered c.ttl x.until k x.d) is
                (subst (λ x. Answered c.ttl new.until x new.d) same a)
          | inr (n, r) ↦ held k e r
        ];
      }

  remember-IsFresh :
      (c : Dongles) (now : ℕ) (dev : Bytes) (d : Dongle)
      → 0 < c.max
      → IsFresh c
      → base now dev ≡ ok d
      → IsFresh (remember c now dev d)
  unfolding remember lookup
  remember-IsFresh c now dev d room f h = elim (Bool-cases (leb c.max (length c.m))) [
    | inl g ↦
        let held : (k : Bytes) (e : Input) → lookup [] k ≡ some e → Answered c.ttl e.until k e.d =
          λ k e q. cc q in
        rw (g, remember) (put-IsFresh c [] now dev d room held h)
    | inr g ↦
        rw (g, remember)
          (put-IsFresh c c.m now dev d (let b = f.bounded in ground (arith, g)) f.entries h)
  ]

  -- What an answer of FindByDevID comes from.
  abbrev pub Recent : Dongles → ℕ → Bytes → Result Error Dongle → Type 0
  Recent c now dev r =
      (r ≡ base now dev)
      ⊎ ((d : Dongle) × (until : ℕ) × (r ≡ ok d) × (now < until) × Answered c.ttl until dev d)

  missed :
      (c : Dongles) (now : ℕ) (dev : Bytes)
      → 0 < c.max
      → IsFresh c
      → current now (lookup c.m dev) ≡ none
      → let (r, after) = find c now dev (base now dev) in Recent c now dev r × IsFresh after
  unfolding find
  missed c now dev room f g = elim (Result-cases (base now dev)) [
    | inl (d, h) ↦ rw (g, find) (rw h (inl refl, remember-IsFresh c now dev d room f h))
    | inr (z, h) ↦ rw (g, find) (rw h (inl refl, f))
  ]

  -- FindByDevID on a cache with room for an entry, whose entries are answers of the repository: what it
  -- returns, the repository answers at this instant, or it has answered with a dongle whose lifetime in
  -- the cache has not ended. The entries stay such answers, at most `max` of them.
  pub find-IsFresh :
      (c : Dongles) (now : ℕ) (dev : Bytes)
      → 0 < c.max
      → IsFresh c
      → let (r, after) = find c now dev (base now dev) in Recent c now dev r × IsFresh after
  unfolding find
  find-IsFresh c now dev room f = elim (Option-cases (lookup c.m dev)) [
    | inl e ↦ missed c now dev room f (rw e refl)
    | inr (x, e) ↦ elim (Bool-cases (ltb now x.until)) [
      | inr t ↦ missed c now dev room f (rw e (rw t refl))
      | inl t ↦
          let g : current now (lookup c.m dev) ≡ some x.d = rw e (rw t refl) in
          rw (g, find) (inr (x.d, x.until, refl, ltb→lt now x.until t, f.entries dev x e), f)
    ]
  ]
