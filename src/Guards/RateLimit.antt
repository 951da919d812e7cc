-- ===== src/Guards/RateLimit.antt =====
-- backend/internal/http/ratelimit/ratelimit.go: the local window of one minute, the global one over
-- Redis and the limiter with the fallback. Redis is outside: the counter that its script returns, or
-- its failure, is an argument. A call is one step; what the clocks say is an argument.
pub mod PerMinute
pub mod OverRedis
use tccelta.Common.{
  Option, ℕ, ◌+◌, ◌-◌, ◌*◌, ◌/◌, ◌%◌, Bool, true, false, not, ◌&&◌, List, [], ◌∷◌, ◌++◌, ltb, leb,
  ◌==◌, if◌then◌else◌, length, Option, none, some,
}
use tccelta.Common.Bytes.{Bytes}
use tccelta.Common.Maps.{bytes_key, lookup, put}

abbrev pub second : ℕ
second = 1000000000

-- minuteRemainder
unfoldable pub minute_remainder : ℕ → ℕ
minute_remainder now =
    let r = (60 - now / second % 60) * second - now % second in if ltb r second then second else r

pub record Window : Type 0 where
  pub minute : ℕ
  pub n : ℕ

-- scope + ":" + key
unfoldable pub window_key : Bytes → Bytes → Bytes
window_key scope key = scope ++ 58 ∷ key

abbrev pub max_keys : ℕ
max_keys = 100000

-- The window of the key in this minute, before the call counts.
unfoldable pub window_of : List (Bytes × Window) → Bytes → ℕ → Window
window_of m k this_minute = elim (lookup m k) [
  | none ↦ record { minute = this_minute; n = 0 }
  | some j ↦ if j.minute == this_minute then j else record { minute = this_minute; n = 0 }
]

-- LocalLimiter.Allow: the verdict, the time to wait and the map behind it.
unfoldable pub allow_local :
    List (Bytes × Window) → ℕ → Bytes → Bytes → ℕ → (Bool × ℕ) × List (Bytes × Window)
allow_local m now scope key limit =
    let this_minute = now / second / 60 in
    let k = window_key scope key in
    let kept = if ltb max_keys (length m) then [] else m in
    let j : Window = window_of kept k this_minute in
    let counted : Window = record { minute = this_minute; n = j.n + 1 } in
    (if ltb limit counted.n then (false, minute_remainder now) else (true, 0), put kept k counted)

-- RedisLimiter.AllowErr: the verdict for the counter that the script returned; none is its failure.
unfoldable pub allow_redis : Option ℕ → ℕ → ℕ → (Bool × ℕ) × Bool
allow_redis none limit now = ((true, 0), true)
allow_redis (some n) limit now =
    (if ltb limit n then (false, minute_remainder now) else (true, 0), false)

-- The failures of Redis in a row and the end of the pause.
pub record Fallback : Type 0 where
  pub local : List (Bytes × Window)
  pub failures : ℕ
  pub opened_at : ℕ

-- What the clocks say during one call: the local limiter's, the one of the pause before Redis is
-- asked, the one of the Redis limiter, and the one read after a failure.
pub record Clocks : Type 0 where
  pub local_now : ℕ
  pub asked_at : ℕ
  pub redis_now : ℕ
  pub failed_at : ℕ

-- LimiterWithFallback.Allow from the call of Redis on: the verdict and the state.
unfoldable pub ask_redis : Fallback → Option ℕ → ℕ → Clocks → (Bool × ℕ) × Fallback
ask_redis l outcome limit t =
    let (verdict, failed) = allow_redis outcome limit t.redis_now in
    let counted : Fallback = record l { failures = l.failures + 1 } in
    if not failed
    then (verdict, record l { failures = 0 })
    else if leb 5 counted.failures
    then ((true, 0), record counted { opened_at = t.failed_at + 10 * second })
    else ((true, 0), counted)

-- LimiterWithFallback.Allow. `redis` is none when the limiter has no Redis.
unfoldable pub allow_fallback :
    Fallback → Option (Option ℕ) → Clocks → Bytes → Bytes → ℕ → (Bool × ℕ) × Fallback
allow_fallback l redis t scope key limit =
    let (verdict, m) = allow_local l.local t.local_now scope key limit in
    let counted : Fallback = record l { local = m } in
    if not verdict.0 then (verdict, counted) else elim redis [
      | none ↦ ((true, 0), counted)
      | some outcome ↦
          if leb 5 counted.failures && ltb t.asked_at counted.opened_at
          then ((true, 0), counted)
          else ask_redis counted outcome limit t
    ]
