-- ===== src/Ingestion/Rows.antt =====
-- domain/ingestion/types.go: the errors of a batch and the rows that it leaves. An instant counts
-- nanoseconds since Go's zero time.
use tccelta.Common.{ℕ, String}
use tccelta.Common.Bytes.{Bytes}
use tccelta.Common.Int.{ℤ}
use tccelta.Ingestion.{Mark, Reason}

pub data Error : Type 0 where
  malformed_batch batch_too_large no_confirmation invariant_violated : Error

pub record RawBlock : Type 0 where
  pub seq : ℕ
  pub boot_id : ℕ
  pub generation : ℕ
  pub t0_ms : ℤ
  pub mark : Mark
  pub payload : Bytes
  pub signature : Bytes

pub record Rejected : Type 0 where
  pub dongle_id : ℕ
  pub seq : ℕ
  pub boot_id : ℕ
  pub t0_ms : ℕ
  pub payload : Bytes
  pub signature : Bytes
  pub reason : Reason
  pub detail : String
  pub content_hash : Bytes
  pub token_jti : Bytes
  pub received_at : ℕ

-- The offset is the bit pattern of a float64.
pub record BootAggregate : Type 0 where
  pub generation : ℕ
  pub boot_id : ℕ
  pub from_seq : ℕ
  pub to_seq : ℕ
  pub t_start : ℤ
  pub t_end : ℤ
  pub max_offset : ℕ

pub record StateUpdate : Type 0 where
  pub dongle_id : ℕ
  pub contiguous_seq : ℕ
  pub max_seen : ℕ
  pub last_ack : Bytes
  pub boot_generation : ℕ
  pub last_boot_id : ℕ

pub record StoredBlock : Type 0 where
  pub seq : ℕ
  pub generation : ℕ
  pub boot_id : ℕ
  pub t0_ms : ℤ
  pub payload : Bytes
  pub received_at : ℕ
