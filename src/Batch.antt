-- ===== src/Batch.antt =====
-- backend/internal/usecase/ingestion: the use cases of a batch. The KMS, the crypto packages, the float
-- arithmetic, the catalogue and the clock are outside: what they answer is an argument. Logs, metrics
-- and contexts are left out, and so is VerifyParallel, which bounds the parallel calls only.
pub mod Verify
pub mod Derive
pub mod Store
pub mod Receive
pub mod Confirm
pub mod Authenticate
use tccelta.Common.{
  ℕ, Bool, List, Option, none, some, not, ◌||◌, ◌==◌, if◌then◌else◌, length, Result, ok, err,
}
use tccelta.Common.Bytes.{Bytes}
use tccelta.Ingestion.{Reason, Action}
use tccelta.Memory.{Fault}
use tccelta.Pid.{Floats, Def}
use tccelta.Protocol.{ack_type}
use tccelta.Protocol.Messages.Ack.{Ack}
use tccelta.Protocol.Messages.Ack
use tccelta.Protocol.Signature.{Crypto}
use tccelta.Protocol.Tlv.{Tlv, read_tlv}

pub record Params : Type 0 where
  pub max_batch : ℕ
  pub verify_batch : ℕ
  pub allow_none_profile : Bool

-- What an authenticated token says (port.Session), without its expiry.
pub record Session : Type 0 where
  pub dev : Bytes
  pub cs : ℕ
  pub jti : Bytes

-- What the ports answer: VerifyBlocks, HMACAuth before and within the transaction, the catalogue and
-- the clock.
pub record Ports : Type 0 where
  pub verify_blocks : Bytes → List Bytes → List Bytes → Result Fault (List Bool)
  pub hmac_pre : Bytes → Bytes → Result Fault Bytes
  pub hmac_tx : Bytes → Bytes → Result Fault Bytes
  pub crypto : Crypto
  pub floats : Floats
  pub cat : ℕ → Option Def
  pub now : ℕ

pub record BatchResult : Type 0 where
  pub ack_tlv : Bytes
  pub ack_seq : ℕ  -- uint32
  pub interrupted : Bool
  pub reason : Reason
  pub action : Action
  pub no_progress : Bool
  pub accepted : ℕ
  pub duplicates : ℕ

-- ackDecoded
unfoldable pub ack_decoded : Bytes → Option Ack
ack_decoded tlv = elim (read_tlv tlv) [
  | err e ↦ none
  | ok (t, n) ↦
      if not (n == length tlv) || not (t.t == ack_type)
      then none
      else elim (Ack.decode t.v) [ err e ↦ none | ok (a, tag) ↦ some a ]
]
