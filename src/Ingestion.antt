-- ===== src/Ingestion.antt =====
-- backend/internal/domain/ingestion: the pure rules of a batch of blocks. The types of apply.go.
pub mod Generation
pub mod Apply
pub mod Rows
mod Examples
use tccelta.Common.{ℕ, Bool, List, [], Option, none, some, String}
use tccelta.Protocol.{Error}
use tccelta.Protocol.Block.{Block}
use tccelta.Protocol.Records.{Content}

-- Reason; `reason_none` is the empty string.
pub data Reason : Type 0 where
  reason_none invalid_tag jump invalid_marker unknown_pid malformed_record : Reason

-- Action, what the app's buffer shall do.
pub data Action : Type 0 where
  action_none reread wait : Action

-- ActionOf
unfoldable pub action_of : Reason → Action
action_of reason_none = action_none
action_of unknown_pid = wait
action_of malformed_record = wait
action_of _ = reread

-- The field Marker of an accepted block; `plain` is the empty string.
pub data Mark : Type 0 where
  plain boot loss : Mark

-- The causes of a gap (occurrence.Cause...).
pub data Cause : Type 0 where
  cause_overflow cause_boot cause_loss : Cause

pub record BlockIn : Type 0 where
  pub b : Block
  pub valid : Bool
  pub verified : Bool

-- (BlockIn).Seq
abbrev pub seq_of : BlockIn → ℕ
seq_of x = x.b.hdr.seq

pub record StateIn : Type 0 where
  pub contiguous_seq : ℕ  -- uint32
  pub g : ℕ  -- uint16
  pub u : ℕ  -- uint16

pub record Accepted : Type 0 where
  pub b : Block
  pub content : Content
  pub generation : ℕ  -- uint16
  pub mark : Mark

pub record GapOut : Type 0 where
  pub from : ℕ
  pub to : ℕ
  pub block_seq : ℕ
  pub cause : Cause

pub record Rejection : Type 0 where
  pub b : Block
  pub reason : Reason
  pub detail : String
  pub pid : ℕ

pub record ApplyResult : Type 0 where
  pub accepted : List Accepted
  pub gaps : List GapOut
  pub rejected : List Rejection
  pub reason : Reason
  pub new_ack : ℕ  -- uint32
  pub max_seen : ℕ  -- uint32
  pub g : ℕ  -- uint16
  pub u : ℕ  -- uint16
  pub duplicates : ℕ
  pub generation_advanced : Bool

-- err.Error() of the protocol's errors.
pub error_text : Error → String
error_text Error.tlv_short = "protocolo: TLV curto"
error_text Error.tlv_length = "protocolo: comprimento do TLV inconsistente"
error_text Error.unexpected_type = "protocolo: tipo inesperado"
error_text Error.empty_batch = "protocolo: lote vazio"
error_text Error.batch_too_large = "protocolo: lote com TLVs demais"
error_text Error.invalid_size = "protocolo: tamanho inválido"
error_text Error.malformed_record = "protocolo: registro malformado"
error_text Error.marker_with_others = "protocolo: marcador junto com outros registros"
error_text Error.reserved_flags = "protocolo: flags reservadas"
error_text Error.invalid_dev_id = "protocolo: DevId inválido"
error_text Error.unknown_profile = "perfil desconhecido"
error_text Error.stuck = ""
