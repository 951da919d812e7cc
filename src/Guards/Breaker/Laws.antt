-- ===== src/Guards/Breaker/Laws.antt =====
-- What the breaker promises over a sequence of calls.
use tccelta.Common.{
  ℕ, ◌+◌, ◌≤◌, ◌<◌, ◌≡◌, refl, true, false, List, [], ◌∷◌, ◌++◌, if◌then◌else◌, length, arith,
}
use tccelta.Guards.Breaker.{State, new_breaker, allow, success, failure, is_open}

-- The failures reported at the given instants, first to last.
pub fail_at : State → List ℕ → State
fail_at d [] = d
fail_at d (t ∷ ts) = fail_at (failure d t) ts

-- The calls that Allow lets through among those at the given instants, nothing being reported back.
unfoldable pub let_through : State → List ℕ → ℕ
let_through d [] = 0
let_through d (t ∷ ts) =
    let step = allow d t in let rest = let_through step.1 ts in if step.0 then rest + 1 else rest

fail_at-failures :
    (d : State) (ts : List ℕ)
    → ((fail_at d ts).failures ≡ d.failures + length ts)
      × ((fail_at d ts).limit ≡ d.limit)
      × ((fail_at d ts).wait ≡ d.wait)
unfolding fail_at failure
fail_at-failures d [] = (omega arith, refl, refl)
fail_at-failures d (t ∷ ts) = ground (arith, fail_at-failures (failure d t) ts)

fail_at-append : (d : State) (ts us : List ℕ) → fail_at d (ts ++ us) ≡ fail_at (fail_at d ts) us
unfolding fail_at
fail_at-append d [] us = refl
fail_at-append d (t ∷ ts) us = fail_at-append (failure d t) ts us

-- From the state of New, when the failures reported in a row reach the limit, Allow refuses
-- every call until `wait` has passed since the last of them, and Open says so.
pub breaker_opens :
    (limit wait : ℕ) (ts : List ℕ) (last now : ℕ)
    → limit ≤ length ts + 1
    → now < last + wait
    → let d = fail_at (new_breaker limit wait) (ts ++ last ∷ []) in
      (allow d now ≡ (false, d)) × (is_open d now ≡ true)
unfolding allow is_open failure fail_at new_breaker
breaker_opens limit wait ts last now h n =
    rw (fail_at-append (new_breaker limit wait) ts (last ∷ [])) (
      let f = fail_at-failures (new_breaker limit wait) ts in
      (ground (arith, f), ground (arith, f)))

blocked : (d : State) (ts : List ℕ) → d.limit ≤ d.failures → d.probe ≡ true → let_through d ts ≡ 0
unfolding let_through allow
blocked d [] h p = refl
blocked d (t ∷ ts) h p = ground (arith, blocked d ts h p)

-- While the failures stand at the limit, any number of calls at any instants gets at most one
-- through before an outcome is reported: the probe of the half-open state.
pub one_probe : (d : State) (ts : List ℕ) → d.limit ≤ d.failures → let_through d ts ≤ 1
unfolding let_through allow
one_probe d [] h = omega arith
one_probe d (t ∷ ts) h =
    ground (arith, one_probe d ts h, blocked (record d { probe = true }) ts h refl)

-- With a limit of at least one, a reported success closes the breaker: it lets every later call through, whatever came
-- before.
pub success_closes :
    (d : State) (ts : List ℕ) → 1 ≤ d.limit → let_through (success d) ts ≡ length ts
unfolding let_through allow success
success_closes d [] h = refl
success_closes d (t ∷ ts) h = ground (arith, success_closes d ts h)
