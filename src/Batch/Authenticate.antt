-- ===== src/Batch/Authenticate.antt =====
-- backend/internal/usecase/session/authenticate.go: Authenticate, the session of a token. What the
-- validator of tokens says is an argument.
use tccelta.Common.{◌≡◌, refl, Bool, Result, ok, err, Result-cases, inl, inr, arith}
use tccelta.Exchange.{registry_fault}
use tccelta.Memory.{Fault, registry, Database, find_by_dev_id}
use tccelta.Registry
use tccelta.Registry.{Dongle, verify_access}
use tccelta.Batch.{Params, Session}
use tccelta.Batch.Receive.{sender}

pub record Authenticated : Type 0 where
  pub session : Session
  pub dongle : Dongle

-- ErrInvalidToken, ErrTokenExpired, or an error of the repository or of the rule of access.
pub data Denied : Type 0 where
  invalid_token token_expired : Denied
  denied : Fault → Denied

-- A token of an unknown dongle is an invalid one.
abbrev pub denied_as : Fault → Denied
denied_as (registry Registry.unknown) = invalid_token
denied_as e = denied e

-- Run
unfoldable pub authenticate : Bool → Database → Result Denied Session → Result Denied Authenticated
authenticate allow_none b validated = elim validated [
  | err e ↦ err e
  | ok s ↦ elim (find_by_dev_id b s.dev) [
    | err e ↦ err (denied_as e)
    | ok d ↦ elim (registry_fault (verify_access d allow_none)) [
      | err e ↦ err (denied e)
      | ok _ ↦ ok (record { session = s; dongle = d })
    ]
  ]
]

-- The session and the dongle of an authenticated request are those of the token, and ReceiveBatch, under
-- the same rule of access and on the same database, takes this dongle for the sender of its batch.
pub sender-authenticate :
    (q : Params) (b : Database) (s : Session) (a : Authenticated)
    → authenticate q.allow_none_profile b (ok s) ≡ ok a
    → (a.session ≡ s) × (sender q b a.session ≡ ok a.dongle)
unfolding authenticate sender
sender-authenticate q b s a h = elim (Result-cases (find_by_dev_id b s.dev)) [
  | inr (z, e) ↦ ground (arith, (rw (e, authenticate) at h))
  | inl (d, e) ↦ elim (Result-cases (registry_fault (verify_access d q.allow_none_profile))) [
    | inr (z, f) ↦ ground (arith, (rw (e, f, authenticate) at h))
    | inl (u, f) ↦
        let is : record { session = s; dongle = d } ≡ a =
          ground (arith, (rw (e, f, authenticate) at h)) in
        rw (← is) (refl, rw (e, sender) (rw f refl))
  ]
]
