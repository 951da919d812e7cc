-- ===== src/Batch/Confirm.antt =====
-- get_confirmation.go: GetConfirmation, the last ACK without the KMS.
use tccelta.Common.{Bool, length, Result, ok, err, ◌==◌, if◌then◌else◌}
use tccelta.Common.Bytes.{Bytes}
use tccelta.Exchange.{registry_fault}
use tccelta.Ingestion.Rows
use tccelta.Memory.{Fault, ingestion, Database, find_by_dev_id}
use tccelta.Memory.Blocks.{read_last_ack}
use tccelta.Registry.{verify_access}

-- Run
unfoldable pub get_confirmation : Bool → Database → Bytes → Result Fault Bytes
get_confirmation allow_none b dev = elim (find_by_dev_id b dev) [
  | err e ↦ err e
  | ok d ↦ elim (registry_fault (verify_access d allow_none)) [
    | err e ↦ err e
    | ok _ ↦
        if length (read_last_ack b d.id) == 0
        then err (ingestion Rows.no_confirmation)
        else ok (read_last_ack b d.id)
  ]
]
