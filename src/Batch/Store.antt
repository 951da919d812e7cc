-- ===== src/Batch/Store.antt =====
-- receive_batch.go: the rows of a batch in the repositories, `reject` and `store`.
use tccelta.Common.{
  ℕ, ◌+◌, Bool, true, false, List, [], ◌∷◌, ◌++◌, none, some, ok, err, ltb, ◌==◌, if◌then◌else◌,
  length,
}
use tccelta.Ingestion.{Reason, unknown_pid, invalid_tag, Rejection, GapOut, Accepted, ApplyResult}
use tccelta.Ingestion.Rows
use tccelta.Ingestion.Rows.{StateUpdate}
use tccelta.Memory
use tccelta.Memory.{
  Fault, ingestion, Database, AlertKind, invariant_violated, boot_generation_advanced, of_dongle,
  find_by_dev_id, read_state, last_t_ms, RefBoot, insert_gap, insert_alert, notify_pending,
  in_transaction,
}
use tccelta.Memory.Action.{Action, pure, reads, outcome, ◌>>=◌, ◌>>◌, writes}
use tccelta.Memory.Blocks.{
  update_boots, insert_raw_blocks, register_rejected, copy_readings, copy_positions,
}
use tccelta.Registry
use tccelta.Registry.{Dongle, verify_access}
use tccelta.Batch.{Session, Ports}
use tccelta.Batch.Derive.{boot_ids, rows_of, aggregates}
use tccelta.Batch.Derive

abbrev pub alert : Dongle → AlertKind → Memory.Alert
alert d kind = record { dongle_id = d.id; kind = kind; boot_generation = none; boot_id = none }

abbrev pub is_unknown_pid : Reason → Bool
is_unknown_pid unknown_pid = true
is_unknown_pid _ = false

abbrev pub is_invalid_tag : Reason → Bool
is_invalid_tag invalid_tag = true
is_invalid_tag _ = false

abbrev pub is_some_list {ℓ} : {A : Type ℓ} → List A → Bool
is_some_list [] = false
is_some_list (_ ∷ _) = true

module _ (p : Ports) (d : Dongle) (session : Session) where
  -- reject
  unfoldable pub rejected_row : Rejection → Rows.Rejected
  rejected_row rej = record {
    dongle_id = d.id;
    seq = rej.b.hdr.seq;
    boot_id = rej.b.hdr.boot_id;
    t0_ms = rej.b.hdr.t0_ms;
    payload = rej.b.payload;
    signature = rej.b.tag;
    reason = rej.reason;
    detail = rej.detail;
    content_hash = p.crypto.sha256 (rej.b.payload ++ rej.b.tag);
    token_jti = session.jti;
    received_at = p.now;
  }

  -- The loop over the refused blocks.
  unfoldable pub reject_all : List Rejection → Database → Database
  reject_all [] b = b
  reject_all (rej ∷ xs) b =
      let after = register_rejected (rejected_row rej) b in
      reject_all xs (
        if is_unknown_pid rej.reason
        then insert_alert after (alert d Memory.unknown_pid)
        else after)

  unfoldable pub gap_row : GapOut → Memory.Gap
  gap_row l = record {
    dongle_id = d.id;
    from = l.from;
    to = l.to;
    cause = l.cause;
    registered_at = p.now;
    cs = none;
    block_seq = some l.block_seq;
  }

  -- The loop over the gaps.
  unfoldable pub insert_gaps : List GapOut → Database → Database
  insert_gaps [] b = b
  insert_gaps (l ∷ ls) b = insert_gaps ls (insert_gap b (gap_row l))

  -- The references of the boots in the batch, in this generation and the next.
  unfoldable pub references : Registry.State → List ℕ → Database → List RefBoot
  references est [] b = []
  references est (i ∷ ids) b =
      last_t_ms b d.id (i ∷ ids) est.boot_generation (est.boot_generation + 1)

  -- A block that was there before breaks the invariant.
  unfoldable pub check_stored : ℕ → ℕ → Action (Unit {0})
  check_stored stored expected b = (
    if stored == expected then ok tt else err (ingestion Rows.invariant_violated),
    if stored == expected then b else insert_alert b (alert d invariant_violated),
  )

  -- store, behind the check of the stored blocks.
  unfoldable pub store_rest : Registry.State → ApplyResult → Derive.Rows → Database → Database
  store_rest est r m b0 =
      let b1 = if is_some_list m.readings then copy_readings m.readings b0 else b0 in
      let b2 = if is_some_list m.positions then copy_positions m.positions b1 else b1 in
      let b3 = insert_gaps r.gaps b2 in
      let b4 =
        if ltb est.boot_generation r.g
        then insert_alert b3 (alert d boot_generation_advanced)
        else b3 in
      if is_some_list m.agg
      then notify_pending (update_boots d.id (aggregates m.agg) b4) (of_dongle d.id)
      else b4

  -- store
  unfoldable pub store : Registry.State → ApplyResult → Action (Unit {0})
  store est r = do
    refs ← reads λ b. ok (references est (boot_ids [] r.accepted) b)
    m ← outcome (rows_of p refs r.accepted)
    stored ← λ b. let (n, after) = insert_raw_blocks d.id m.raw b in (ok n, after)
    check_stored stored (length m.raw)
    writes (store_rest est r m)

  unfoldable pub store_accepted : Registry.State → ApplyResult → List Accepted → Action (Unit {0})
  store_accepted est r [] = pure tt
  store_accepted est r (_ ∷ _) = store est r
