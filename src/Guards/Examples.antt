-- ===== src/Guards/Examples.antt =====
-- Runs of the guards, and the laws at concrete calls.
use tccelta.Common.{
  ℕ, ◌+◌, ◌-◌, ◌*◌, ◌≤◌, ◌<◌, ◌≡◌, ◌⊎◌, refl, true, false, List, [], ◌∷◌, arith, All, none, some,
  min,
}
use tccelta.Common.Bytes.{Bytes}
use tccelta.Common.Maps.{lookup, bytes_key, put}
use tccelta.Common.Text.{bytes_eq}
use tccelta.Guards.Breaker
use tccelta.Guards.Breaker.Laws.{let_through, one_probe}
use tccelta.Guards.RateLimit.{
  second, minute_remainder, Window, window_key, window_of, allow_local, Fallback, Clocks,
  allow_redis, ask_redis, allow_fallback,
}
use tccelta.Guards.RateLimit.PerMinute.{
  Call, Within, asked, granted, window_exact, wait_then_allowed,
}
use tccelta.Guards.RateLimit.OverRedis.{fallback_refuses}

abbrev tripped : Breaker.State
tripped = record { failures = 5; limit = 5; wait = 10; open_until = 30; probe = false }

let_through_run : let_through tripped (29 ∷ 30 ∷ 31 ∷ []) ≡ 1
unfolding let_through Breaker.allow
let_through_run = refl

one_probe_example : let_through tripped (29 ∷ 30 ∷ 31 ∷ []) ≤ 1
one_probe_example = one_probe tripped (29 ∷ 30 ∷ 31 ∷ []) (omega arith)

abbrev no_windows : List (Bytes × Window)
no_windows = []

abbrev asker : Bytes
asker = window_key (105 ∷ []) (49 ∷ [])

abbrev calls : List Call
calls =
    record { now = 60 * second; scope = 105 ∷ []; key = 49 ∷ []; limit = 1 }
    ∷ record { now = 61 * second; scope = 105 ∷ []; key = 50 ∷ []; limit = 4 }
    ∷ record { now = 62 * second; scope = 105 ∷ []; key = 49 ∷ []; limit = 1 }
    ∷ []

calls-Within : All (Within asker 1 1) calls
unfolding window_key
calls-Within = (
  record { in_minute = refl; limited = λ _. refl },
  (
    record { in_minute = refl; limited = λ e. ground arith },
    (record { in_minute = refl; limited = λ _. refl }, tt),
  ),
)

window_exact_example :
    granted asker no_windows calls ≡ min (asked asker calls) (1 - (window_of no_windows asker 1).n)
window_exact_example = window_exact asker 1 1 no_windows calls calls-Within (omega arith)

abbrev one_used : List (Bytes × Window)
one_used = (105 ∷ 58 ∷ 49 ∷ [], record { minute = 1; n = 1 }) ∷ []

refused : (allow_local one_used (90 * second) (105 ∷ []) (49 ∷ []) 1).0 ≡ (false, 30 * second)
unfolding allow_local window_of window_key minute_remainder lookup put bytes_eq
refused = refl

wait_then_allowed_example :
    (allow_local
      (allow_local one_used (90 * second) (105 ∷ []) (49 ∷ []) 1).1
      (90 * second + 30 * second)
      (105 ∷ [])
      (49 ∷ [])
      1).0
    ≡ (true, 0)
wait_then_allowed_example =
    wait_then_allowed one_used (90 * second) (105 ∷ []) (49 ∷ []) 1 (30 * second) (omega arith)
      refused

abbrev at_four : Fallback
at_four = record { local = []; failures = 4; opened_at = 0 }

abbrev clocks : Clocks
clocks = record {
  local_now = 60 * second;
  asked_at = 60 * second;
  redis_now = 60 * second;
  failed_at = 61 * second;
}

passes : (allow_local at_four.local clocks.local_now (105 ∷ []) (49 ∷ []) 3).0.0 ≡ true
unfolding allow_local window_of lookup
passes = refl

over_global : (allow_fallback at_four (some (some 4)) clocks (105 ∷ []) (49 ∷ []) 3).0.0 ≡ false
unfolding allow_fallback allow_local window_of ask_redis allow_redis lookup
over_global = refl

fallback_refuses_example :
    (n : ℕ) × (some (some 4) ≡ some (some n))
    × (3 < n)
    × ((at_four.failures < 5) ⊎ (at_four.opened_at ≤ clocks.asked_at))
fallback_refuses_example =
    fallback_refuses at_four (some (some 4)) clocks (105 ∷ []) (49 ∷ []) 3 passes over_global

passes_again :
    (allow_local
      (ask_redis at_four none 3 clocks).1.local
      clocks.local_now
      (105 ∷ [])
      (49 ∷ [])
      3).0.0
    ≡ true
unfolding ask_redis allow_redis allow_local window_of lookup
passes_again = refl
