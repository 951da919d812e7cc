-- ===== src/Credentials/Token.antt =====
-- backend/internal/usecase/clienttoken/clienttoken.go: IssueToken over any store of the blocks. What the
-- KMS and the issuer of tokens answer is an argument. Logs, metrics and contexts are left out.
use tccelta.Common.{ℕ, Bool, true, false, ◌&&◌, [], ◌∷◌, ◌++◌, Result, ok, err, ltb, if◌then◌else◌}
use tccelta.Common.Bytes.{Bytes}
use tccelta.Credentials.{Fault, invalid_client, blocked, valid_id, valid_secret, Powers}
use tccelta.Credentials.Counters.{Policies, Counters, Outcome}
use tccelta.Credentials.Counters

-- Credentials, as the transport has read them.
pub record Given : Type 0 where
  pub present : Bool
  pub client_id : Bytes
  pub secret : Bytes
  pub ip : Bytes

pub record Token : Type 0 where
  pub access_token : Bytes
  pub expires_in : ℕ

-- port.AuthBlocker on a state.
pub record Blocker (S : Type 0) : Type 0 where
  pub check : S → Bytes → Bytes → ℕ × S
  pub fail : S → Bytes → Bytes → Outcome × S
  pub reset : S → Bytes → S

-- Local at an instant.
abbrev pub local : Powers → Policies → ℕ → Blocker Counters
local f pol now = record {
  check = λ m pair ip. Counters.check m now pair ip;
  fail = λ m pair ip. Counters.fail f pol m now pair ip;
  reset = Counters.reset;
}

pub record Ports : Type 0 where
  pub verify_client : Bytes → Bytes → Result Fault Bool
  pub issue : Bytes → Result Fault Bytes
  pub validity : ℕ

unfoldable pub is_valid : Given → Bool
is_valid c = c.present && valid_id c.client_id && valid_secret c.secret

-- The pair of a client_id and an address, none for malformed credentials.
unfoldable pub pair_of : Given → Bytes
pair_of c = if is_valid c then c.client_id ++ b'|' ∷ c.ip else []

module _ {S : Type 0} (t : Blocker S) (p : Ports) where
  -- Run for a secret that is right.
  unfoldable pub grant : S → Given → Result Fault Token × S
  grant s c = (
    elim (p.issue c.client_id) [
      | err e ↦ err e
      | ok text ↦ ok (record { access_token = text; expires_in = p.validity })
    ],
    t.reset s (pair_of c),
  )

  -- Run for well-formed credentials that are not blocked.
  unfoldable pub verify : S → Given → Result Fault Token × S
  verify s c = elim (p.verify_client c.client_id c.secret) [
    | err e ↦ (err e, s)
    | ok true ↦ grant s c
    | ok false ↦ (err invalid_client, (t.fail s (pair_of c) c.ip).1)
  ]

  -- Run behind the check.
  unfoldable pub admit : ℕ → S → Given → Result Fault Token × S
  admit wait s c = if ltb 0 wait then (err (blocked wait), s) else elim (is_valid c) [
    | true ↦ verify s c
    | false ↦ (err invalid_client, (t.fail s [] c.ip).1)
  ]

  -- Run
  unfoldable pub issue_token : S → Given → Result Fault Token × S
  issue_token s c = let (wait, after) = t.check s (pair_of c) c.ip in admit wait after c
