-- ===== src/Guards/RateLimit/OverRedis.antt =====
-- What the limiter with the fallback does when Redis fails.
use tccelta.Common.{
  refl, arith, ℕ, ◌+◌, ◌*◌, ◌≤◌, ◌<◌, ◌≡◌, ◌⊎◌, refl, true, false, arith, Option, none, some,
}
use tccelta.Common.Bytes.{Bytes}
use tccelta.Guards.RateLimit.{
  second, allow_local, allow_redis, Fallback, Clocks, ask_redis, allow_fallback,
}

-- When Redis fails, the limiter answers what the local one answers.
pub redis_down :
    (l : Fallback) (t : Clocks) (scope key : Bytes) (limit : ℕ)
    → (allow_fallback l (some none) t scope key limit).0
      ≡ (allow_local l.local t.local_now scope key limit).0
unfolding allow_fallback allow_local ask_redis allow_redis
redis_down l t scope key limit = ground arith

-- A call that the local limiter lets through is refused only if the limiter has Redis and is not in a
-- pause, and the counter that Redis returned exceeds the limit.
pub fallback_refuses :
    (l : Fallback) (redis : Option (Option ℕ)) (t : Clocks) (scope key : Bytes) (limit : ℕ)
    → (allow_local l.local t.local_now scope key limit).0.0 ≡ true
    → (allow_fallback l redis t scope key limit).0.0 ≡ false
    → (n : ℕ) × (redis ≡ some (some n))
      × (limit < n)
      × ((l.failures < 5) ⊎ (l.opened_at ≤ t.asked_at))
unfolding allow_fallback ask_redis allow_redis
fallback_refuses l none t scope key limit h r = ground arith
fallback_refuses l (some none) t scope key limit h r = ground arith
fallback_refuses l (some (some n)) t scope key limit h r = (n, refl, ground arith, ground arith)

-- A failure of Redis lets the call through and is counted; from the fifth in a row on, Redis is not
-- asked for the ten seconds behind it: whatever it would answer, the call that the local limiter lets through passes and the count stands.
pub pause_after_failures :
    (l : Fallback) (outcome : Option ℕ) (t u : Clocks) (scope key : Bytes) (limit : ℕ)
    → 4 ≤ l.failures
    → u.asked_at < t.failed_at + 10 * second
    → let failed = (ask_redis l none limit t).1 in
      (allow_local failed.local u.local_now scope key limit).0.0 ≡ true
      → ((allow_fallback failed (some outcome) u scope key limit).0 ≡ (true, 0))
        × ((allow_fallback failed (some outcome) u scope key limit).1.failures ≡ l.failures + 1)
unfolding allow_fallback ask_redis allow_redis
pause_after_failures l outcome t u scope key limit h before passed = (ground arith, ground arith)
