-- ===== src/Exchange.antt =====
-- backend/internal/usecase/handshake/issue_challenge.go: IssueChallenge over the repositories of
-- Memory. The KMS, the random bytes and the clock are outside: what they answer is an argument.
-- Logs, metrics and contexts are left out.
pub mod Sent
pub mod Respond
mod Examples
use tccelta.Common.{ℕ, ◌+◌, ◌*◌, ◌/◌, ◌%◌, ◌^◌, max, Result, ok, err, ◌>>=◌, ◌>>◌, take, Bool}
use tccelta.Common.Bytes.{Bytes}
use tccelta.Protocol
use tccelta.Protocol.{challenge_type, auth_tag_size}
use tccelta.Protocol.Identity.{tag_input}
use tccelta.Protocol.Messages.Challenge
use tccelta.Handshake
use tccelta.Handshake.{truncate_micro}
use tccelta.Registry
use tccelta.Registry.{Dongle, verify_access}
use tccelta.Memory.{
  Fault, registry, handshake, protocol, Database, Issuance, Issued, find_by_dev_id, issue,
}

-- Params
pub record Params : Type 0 where
  pub challenge_validity : ℕ
  pub max_pending : ℕ
  pub allow_none_profile : Bool
  pub anchor_rtt_max : ℕ
  pub suggested_t_lat : ℕ

-- What the ports answer: HMACAuth for a key and an input, io.ReadFull on 16 random bytes, and the
-- clock.
pub record Ports : Type 0 where
  pub hmac : Bytes → Bytes → Result Fault Bytes
  pub nonce : Result Fault Bytes
  pub now : ℕ

pub record IssuedChallenge : Type 0 where
  pub tlv : Bytes
  pub expires_at : ℕ

abbrev pub registry_fault {ℓ} : {A : Type ℓ} → Result Registry.Error A → Result Fault A
registry_fault (ok a) = ok a
registry_fault (err e) = err (registry e)

abbrev pub protocol_fault {ℓ} : {A : Type ℓ} → Result Protocol.Error A → Result Fault A
protocol_fault (ok a) = ok a
protocol_fault (err e) = err (protocol e)

-- tag16
unfoldable pub tag16 : Bytes → Bytes
tag16 mac = take auth_tag_size mac

-- oldestPending: a third of the validity in whole seconds, one second at least.
pub oldest_pending : ℕ → ℕ
oldest_pending validity = 1000000000 * max 1 (validity / 1000000000 / 3)

-- What Run adds to an error of Issue: the time to wait.
pub retry_after : Params → Fault → ℕ
retry_after q (handshake Handshake.pending_challenges) = oldest_pending q.challenge_validity
retry_after q e = 0

-- Run up to the random bytes.
pub admit : Params → Ports → Database → Bytes → Result Fault (Dongle × Bytes)
admit q p b dev = do
  d ← find_by_dev_id b dev
  _ ← registry_fault (verify_access d q.allow_none_profile)
  ns ← p.nonce
  ok (d, ns)

pub issuance : Params → Ports → Dongle → Bytes → Issuance
issuance q p d ns = record {
  dongle_id = d.id;
  s1 = truncate_micro p.now;
  expires_at = truncate_micro p.now + q.challenge_validity;
  nonce = ns;
  max_pending = q.max_pending;
}

pub message : Issued → Bytes → Challenge.Challenge
message i ns = record {
  cs = i.cs % 2 ^ 32;
  ack_seq = i.contiguous_seq % 2 ^ 32;
  cconf = i.c_conf % 2 ^ 32;
  ns = ns;
  flags = 0;
  diag_min = 0;
}

-- Run from the message on: the signed envelope.
pub sign : Ports → Dongle → Issued → Bytes → Result Fault Bytes
sign p d i ns = do
  mac ← p.hmac d.auth_key (tag_input challenge_type d.dev_id (Challenge.payload (message i ns)))
  protocol_fault (Challenge.build (message i ns) (tag16 mac))

-- Run from Issue on.
pub issue_to :
    Params → Ports → Database → Dongle → Bytes → Result (Fault × ℕ) IssuedChallenge × Database
issue_to q p b d ns =
    let (issued, after) = issue b (issuance q p d ns) in
    elim issued [
      | err e ↦ (err (e, retry_after q e), after)
      | ok i ↦ (
        elim (sign p d i ns) [
          | err e ↦ err (e, 0)
          | ok tlv ↦ ok (record { tlv = tlv; expires_at = (issuance q p d ns).expires_at })
        ],
        after,
      )
    ]

-- Run: the challenge, or the error with the time to wait, and the database.
pub issue_challenge :
    Params → Ports → Database → Bytes → Result (Fault × ℕ) IssuedChallenge × Database
issue_challenge q p b dev = elim (admit q p b dev) [
  | err e ↦ (err (e, 0), b)
  | ok (d, ns) ↦ issue_to q p b d ns
]
