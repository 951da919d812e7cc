-- ===== src/Memory/Expiry.antt =====
-- backend/internal/adapter/memory/worker.go: challenges.Expire.
use tccelta.Common.{
  ℕ, ◌+◌, ◌≡◌, Bool, true, false, ◌&&◌, List, [], ◌∷◌, some, ltb, if◌then◌else◌, arith, Bool-cases,
  inl, inr,
}
use tccelta.Common.Maps.{same_key, pair_key, number_key, lookup}
use tccelta.Memory.{Challenge, Database, Outcome, unset, expired, is_unanswered}

abbrev pub is_unset : Outcome → Bool
is_unset unset = true
is_unset _ = false

-- A challenge without answer and without result that expired before `now`.
unfoldable pub is_due : Challenge → ℕ → Bool
is_due d now =
    is_unanswered d.stored.answered_at && is_unset d.result && ltb d.stored.expires_at now

-- What Expire makes of a row.
unfoldable pub close : ℕ → Challenge → Challenge
close now d = if is_due d now then record d { result = expired } else d

-- The loop of Expire: the number of rows that it changes, and the rows.
unfoldable pub expire_loop : ℕ → List ((ℕ × ℕ) × Challenge) → ℕ × List ((ℕ × ℕ) × Challenge)
expire_loop now [] = (0, [])
expire_loop now ((k, d) ∷ m) =
    let (n, rest) = expire_loop now m in
    (if is_due d now then n + 1 else n, (k, close now d) ∷ rest)

-- Expire
unfoldable pub expire : Database → ℕ → ℕ × Database
expire b now = let (n, rows) = expire_loop now b.challenges in (n, record b { challenges = rows })

-- The row under a key is the one that was there, closed.
pub lookup-expire_loop :
    (now : ℕ) (m : List ((ℕ × ℕ) × Challenge)) (k : ℕ × ℕ) (d : Challenge)
    → lookup m k ≡ some d
    → lookup (expire_loop now m).1 k ≡ some (close now d)
unfolding lookup expire_loop
lookup-expire_loop now [] k d h = cc
lookup-expire_loop now ((l, a) ∷ m) k d h = elim (Bool-cases (same_key l k)) [
  | inl e ↦ ground (arith, e, h)
  | inr e ↦ ground (arith, e, h, lookup-expire_loop now m k d)
]

pub lookup-expire_loop_back :
    (now : ℕ) (m : List ((ℕ × ℕ) × Challenge)) (k : ℕ × ℕ) (x : Challenge)
    → lookup (expire_loop now m).1 k ≡ some x
    → (d : Challenge) × (lookup m k ≡ some d) × (close now d ≡ x)
unfolding lookup expire_loop
lookup-expire_loop_back now [] k x h = cc
lookup-expire_loop_back now ((l, a) ∷ m) k x h = elim (Bool-cases (same_key l k)) [
  | inl e ↦ (a, ground (arith, e), ground (arith, e, h))
  | inr e ↦
      let (d, there, same) = lookup-expire_loop_back now m k x (rw e at h) in
      (d, ground (arith, e, there), same)
]

pub close-is_unanswered :
    (now : ℕ) (d : Challenge)
    → is_unanswered (close now d).stored.answered_at ≡ is_unanswered d.stored.answered_at
unfolding close
close-is_unanswered now d = ground arith
