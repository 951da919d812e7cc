-- ===== src/Batch/Receive.antt =====
-- receive_batch.go: the transaction of ReceiveBatch and its Run, over the repositories of Memory.
pub mod Stored
pub mod Ends
pub mod Progress
pub mod Confirmed
pub mod Authentic
mod Examples
use tccelta.Common.{
  ℕ, ◌+◌, ◌%◌, ◌^◌, Bool, true, false, not, ◌&&◌, ◌||◌, List, [], ◌∷◌, ◌++◌, Option, none, some,
  Result, ok, err, ltb, ◌==◌, if◌then◌else◌, length, take,
}
use tccelta.Common.Bytes.{Bytes}
use tccelta.Common.Text.{bytes_eq}
use tccelta.Exchange.{registry_fault}
use tccelta.Ingestion.{
  Reason, unknown_pid, invalid_tag, action_of, BlockIn, seq_of, Rejection, GapOut, Accepted,
  ApplyResult,
}
use tccelta.Ingestion
use tccelta.Ingestion.Apply.{apply}
use tccelta.Ingestion.Rows
use tccelta.Ingestion.Rows.{StateUpdate}
use tccelta.Memory
use tccelta.Memory.{
  Fault, ingestion, Database, AlertKind, invariant_violated, boot_generation_advanced, of_dongle,
  find_by_dev_id, read_state, last_t_ms, RefBoot, insert_gap, insert_alert, notify_pending,
  in_transaction,
}
use tccelta.Memory.Action.{Action, pure, reads, outcome, ◌>>=◌, ◌>>◌, writes, writes_if}
use tccelta.Memory.Blocks.{
  read_snapshot, read_last_ack, update_ingestion, update_boots, insert_raw_blocks,
  register_rejected, copy_readings, copy_positions,
}
use tccelta.Protocol.{ack_type, auth_tag_size}
use tccelta.Protocol.Identity.{tag_input}
use tccelta.Protocol.Messages.Ack.{Ack}
use tccelta.Protocol.Messages.Ack
use tccelta.Registry
use tccelta.Registry.{Dongle, verify_access}
use tccelta.Batch.{Params, Session, Ports, BatchResult, ack_decoded}
use tccelta.Batch.Verify.{read_body, verify, Verified, ack_eq, holds_ack}
use tccelta.Batch.Derive.{boot_ids, rows_of, aggregates}
use tccelta.Batch.Store.{reject_all, store_accepted, is_invalid_tag}

-- The last seq of the batch, which is not empty.
abbrev pub last_seq : List BlockIn → ℕ
last_seq [] = 0
last_seq (x ∷ []) = seq_of x
last_seq (x ∷ y ∷ xs) = last_seq (y ∷ xs)

module _ (p : Ports) (d : Dongle) (session : Session) where
  -- HMACAuth within the transaction.
  unfoldable pub sign_now : Ack → Result Fault Bytes
  sign_now ack = elim (p.hmac_tx d.auth_key (tag_input ack_type d.dev_id (Ack.payload ack))) [
    | err e ↦ err e
    | ok mac ↦ ok (Ack.build ack (take auth_tag_size mac))
  ]

  unfoldable pub sign_ack : Option (Ack × Bytes) → Ack → Result Fault Bytes
  sign_ack none ack = sign_now ack
  sign_ack (some (prov, tag)) ack = if ack_eq prov ack then ok (Ack.build ack tag) else sign_now ack

  -- The ACK that is sent: the stored one, the one signed before, or one signed now.
  unfoldable pub signed_ack : Option (Ack × Bytes) → Bytes → Ack → Result Fault Bytes
  signed_ack pre current ack =
      if holds_ack (ack_decoded current) ack then ok current else sign_ack pre ack

  -- Whether the state of the dongle has to be written.
  unfoldable pub is_changed : Registry.State → ApplyResult → Bytes → Bytes → Bool
  is_changed est r ack_tlv current =
      not (r.new_ack == est.contiguous_seq)
      || ltb est.max_seen_seq r.max_seen
      || not (r.g == est.boot_generation)
      || not (bytes_eq ack_tlv current)

  unfoldable pub state_update : ApplyResult → Bytes → StateUpdate
  state_update r ack_tlv = record {
    dongle_id = d.id;
    contiguous_seq = r.new_ack;
    max_seen = r.max_seen;
    last_ack = ack_tlv;
    boot_generation = r.g;
    last_boot_id = r.u;
  }

  unfoldable pub result_of : Registry.State → ApplyResult → List BlockIn → Bytes → BatchResult
  result_of est r blocks ack_tlv = record {
    ack_tlv = ack_tlv;
    ack_seq = r.new_ack;
    interrupted = ltb r.new_ack (last_seq blocks);
    reason = r.reason;
    action = action_of r.reason;
    no_progress = r.new_ack == est.contiguous_seq && is_invalid_tag r.reason;
    accepted = length r.accepted;
    duplicates = r.duplicates;
  }

  -- What Apply makes of the batch on the state that the transaction reads.
  unfoldable pub applied : List BlockIn → Registry.State → ApplyResult
  applied blocks est = apply p.cat blocks (record {
    contiguous_seq = est.contiguous_seq % 2 ^ 32;
    g = est.boot_generation % 2 ^ 16;
    u = est.last_boot_id % 2 ^ 16;
  })

  unfoldable pub ack_of : Registry.State → ApplyResult → Ack
  ack_of est r = record { ack_seq = r.new_ack; cconf = est.c_conf % 2 ^ 32; flags = 0 }

  -- The transaction behind the stored rows: the ACK and the state.
  unfoldable pub acknowledge : Verified → Registry.State → ApplyResult → Action BatchResult
  acknowledge v est r = do
    current ← reads λ b. ok (read_last_ack b d.id)
    ack_tlv ← outcome (signed_ack v.presigned current (ack_of est r))
    writes_if (is_changed est r ack_tlv current) (λ b. update_ingestion b (state_update r ack_tlv))
    pure (result_of est r v.blocks ack_tlv)

  -- The transaction behind Apply.
  unfoldable pub record_batch : Verified → Registry.State → ApplyResult → Action BatchResult
  record_batch v est r = do
    writes (reject_all p d session r.rejected)
    store_accepted p d session est r r.accepted
    acknowledge v est r

  -- Step 4: the body of the transaction.
  unfoldable pub transaction : Verified → Action BatchResult
  transaction v =
      reads (λ b. read_state b d.id) >>= λ est. record_batch v est (applied v.blocks est)

-- Run behind the access test, steps 1 to 3.
unfoldable pub prepare : Params → Ports → Database → Dongle → Bytes → Result Fault Verified
prepare q p b d body = elim (read_body q d.profile body) [
  | err e ↦ err e
  | ok blocks ↦ verify q p d (read_snapshot b d.id) blocks
]

-- Who sends the batch.
unfoldable pub sender : Params → Database → Session → Result Fault Dongle
sender q b session = elim (find_by_dev_id b session.dev) [
  | err e ↦ err e
  | ok d ↦ elim (registry_fault (verify_access d q.allow_none_profile)) [
    | err e ↦ err e
    | ok _ ↦ ok d
  ]
]

-- Run
unfoldable pub receive :
    Params → Ports → Database → Session → Bytes → Result Fault BatchResult × Database
receive q p b session body = elim (sender q b session) [
  | err e ↦ (err e, b)
  | ok d ↦ elim (prepare q p b d body) [
    | err e ↦ (err e, b)
    | ok v ↦ in_transaction (transaction p d session v) b
  ]
]
