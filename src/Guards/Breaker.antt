-- ===== src/Guards/Breaker.antt =====
-- backend/internal/platform/breaker/breaker.go: closed, open, half-open with one probe. Every
-- method runs under the mutex, so a run is a sequence of calls; the clock is an argument.
pub mod Laws
use tccelta.Common.{
  ℕ, zero, suc, ◌+◌, ◌-◌, ◌*◌, ◌/◌, ◌%◌, ◌^◌, ◌≤◌, ◌<◌, ◌≡◌, ◌≢◌, ◌⊎◌, inl, inr, refl, ap, subst,
  sym, ◌∙◌, Bool, true, false, not, ◌&&◌, ◌||◌, List, [], ◌∷◌, ◌++◌, Result, ok, err, ltb, leb,
  ◌==◌, if◌then◌else◌, length, drop, take, get_or, arith, length-append, take-append_length, All,
  ltb→lt, lt→ltb, ◌>>=◌, ◌>>◌, fail_if, length-drop, length-take, take-append-drop,
  drop-append_length, drop-append_more, get_or-append_more, Result-cases, All-append, Bool-cases,
  Option, none, some, map, min, max,
}
use tccelta.Common.Bytes.{
  Bytes, byte, at, slice, uint16, uint32, append_uint16, append_uint32, IsByte, IsU16, IsU32,
  uint16-bytes, uint32-bytes,
}

pub record State : Type 0 where
  pub failures : ℕ
  pub limit : ℕ
  pub wait : ℕ
  pub open_until : ℕ
  pub probe : Bool

-- New
pub new_breaker : ℕ → ℕ → State
new_breaker limit wait = record {
  failures = 0;
  limit = limit;
  wait = wait;
  open_until = 0;
  probe = false;
}

-- Allow: the verdict and the state behind it.
unfoldable pub allow : State → ℕ → Bool × State
allow d now =
    if ltb d.failures d.limit
    then (true, d)
    else if ltb now d.open_until
    then (false, d)
    else if d.probe
    then (false, d)
    else (true, record d { probe = true })

-- Success
pub success : State → State
success d = record d { failures = 0; probe = false }

-- Failure
pub failure : State → ℕ → State
failure d now =
    let e : State = record d { failures = d.failures + 1; probe = false } in
    if leb e.limit e.failures then record e { open_until = now + e.wait } else e

-- Open
pub is_open : State → ℕ → Bool
is_open d now = leb d.limit d.failures && ltb now d.open_until
