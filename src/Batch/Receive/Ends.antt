-- ===== src/Batch/Receive/Ends.antt =====
-- How the transaction of ReceiveBatch ends when it is committed.
use tccelta.Common.{
  ◌≡◌, refl, sym, ap, ◌∙◌, false, List, [], map, All, length, ok, Result-cases, Bool-cases, inl,
  inr, if◌then◌else◌, ◌==◌, ==_iff, arith,
}
use tccelta.Common.Bytes.{Bytes}
use tccelta.Registry.{Dongle}
use tccelta.Registry
use tccelta.Ingestion.{ApplyResult}
use tccelta.Ingestion.Rows.{RawBlock}
use tccelta.Memory.{insert_alert, invariant_violated, Database, read_state}
use tccelta.Memory.Action.{◌>>=◌, reads, bind_ended}
use tccelta.Memory.Blocks.{is_seen, insert_raw_blocks, insert_loop, read_last_ack, update_ingestion}
use tccelta.Batch.{Ports, Session, BatchResult}
use tccelta.Batch.Verify.{Verified}
use tccelta.Batch.Derive.{boot_ids, rows_of}
use tccelta.Batch.Derive.Stamped.{without_time, timeless_row, rows_of_rows}
use tccelta.Batch.Store.{
  alert, reject_all, gap_row, references, check_stored, store, store_accepted,
}
use tccelta.Batch.Receive.{
  signed_ack, ack_of, is_changed, state_update, result_of, applied, acknowledge, record_batch,
  transaction,
}
use tccelta.Batch.Receive.Stored.{
  view, with_gaps, with_blocks, view-store_rest, insert_loop-All, view_if,
}

module _ (p : Ports) (d : Dongle) (session : Session) where
  -- `store` from `b` to `c` has appended the rows of the accepted blocks, none of them stored before.
  pub record StoredRows (b c : Database) (r : ApplyResult) : Type 0 where
    pub rows : List RawBlock
    pub of_blocks : map without_time rows ≡ map timeless_row r.accepted
    pub fresh : All (λ x. is_seen b d.id x.seq ≡ false) rows
    pub written :
        view c ≡ with_gaps (map (gap_row p d session) r.gaps) (with_blocks d.id rows (view b))

  pub store-StoredRows :
      (est : Registry.State) (r : ApplyResult) (b c : Database)
      → store p d session est r b ≡ (ok tt, c)
      → StoredRows b c r
  unfolding store check_stored insert_raw_blocks insert_alert
  store-StoredRows est r b c h =
      let refs = references p d session est (boot_ids [] r.accepted) b in
      elim (Result-cases (rows_of p refs r.accepted)) [
        | inr (z, e) ↦ ground (arith, (rw (e, store, ◌>>=◌) at h))
        | inl (m, e) ↦
            let h1 = rw (e, store, ◌>>=◌) at h in
            elim (Bool-cases ((insert_loop d.id m.raw 0 b).0 == length m.raw)) [
              | inr f ↦ ground (arith, (rw (f, check_stored, ◌>>=◌) at h1))
              | inl f ↦
                  let h2 = rw (f, check_stored, ◌>>=◌) at h1 in
                  let g : (insert_loop d.id m.raw 0 b).0 ≡ length m.raw = (==_iff _ _).0 f in
                  let (v, fresh) = insert_loop-All d.id m.raw 0 b (omega (arith, g)) in
                  record {
                    rows = m.raw;
                    of_blocks = rows_of_rows p refs r.accepted m e;
                    fresh = fresh;
                    written =
                        ap view (sym (ap (λ t. t.1) h2))
                        ∙ view-store_rest p d session est r m _
                        ∙ ap (with_gaps (map (gap_row p d session) r.gaps)) (
                            view_if ((insert_loop d.id m.raw 0 b).0 == length m.raw)
                              (insert_alert (insert_loop d.id m.raw 0 b).1
                                (alert d invariant_violated))
                              (insert_loop d.id m.raw 0 b).1 refl
                            ∙ v);
                  }
            ]
      ]

  -- What the part behind the stored rows leaves.
  pub record Acknowledged (b c : Database) (v : Verified) (est : Registry.State) (r : ApplyResult)
      (out : BatchResult) : Type 0 where
    pub ack_tlv : Bytes
    pub signed :
        signed_ack p d session v.presigned (read_last_ack b d.id) (ack_of p d session est r)
        ≡ ok ack_tlv
    pub returns : out ≡ result_of p d session est r v.blocks ack_tlv
    pub written : c ≡ (
        if is_changed p d session est r ack_tlv (read_last_ack b d.id)
        then update_ingestion b (state_update p d session r ack_tlv)
        else b)

  pub acknowledge-Acknowledged :
      (v : Verified) (est : Registry.State) (r : ApplyResult) (b c : Database) (out : BatchResult)
      → acknowledge p d session v est r b ≡ (ok out, c)
      → Acknowledged b c v est r out
  unfolding acknowledge
  acknowledge-Acknowledged v est r b c out h =
      let current = read_last_ack b d.id in
      elim (Result-cases (signed_ack p d session v.presigned current (ack_of p d session est r))) [
        | inr (z, e) ↦ ground (arith, (rw (e, acknowledge, ◌>>=◌) at h))
        | inl (t, e) ↦
            let h1 = rw (e, acknowledge, ◌>>=◌) at h in
            record {
              ack_tlv = t;
              signed = e;
              returns = ground (arith, ap (λ z. z.0) h1);
              written = sym (ap (λ z. z.1) h1);
            }
      ]

  -- A transaction that was committed: Apply on the state that was read, its rows, and the ACK.
  pub record Committed (b c : Database) (v : Verified) (out : BatchResult) : Type 0 where
    pub est : Registry.State
    pub mid : Database
    pub read : read_state b d.id ≡ ok est
    pub stored :
        store_accepted p d session est
          (applied p d session v.blocks est)
          (applied p d session v.blocks est).accepted
          (reject_all p d session (applied p d session v.blocks est).rejected b)
        ≡ (ok tt, mid)
    pub acknowledged : Acknowledged mid c v est (applied p d session v.blocks est) out

  pub transaction-Committed :
      (v : Verified) (b c : Database) (out : BatchResult)
      → transaction p d session v b ≡ (ok out, c)
      → Committed b c v out
  unfolding transaction record_batch
  transaction-Committed v b c out h =
      let (est, e, h1) =
        bind_ended (reads (λ b'. read_state b' d.id))
          (λ est. record_batch p d session v est (applied p d session v.blocks est)) h in
      let r = applied p d session v.blocks est in
      let b1 = reject_all p d session r.rejected b in
      let (u, f, h2) =
        bind_ended (store_accepted p d session est r r.accepted)
          (λ _. acknowledge p d session v est r) {b = b1} h1 in
      record {
        est = est;
        mid = (store_accepted p d session est r r.accepted b1).1;
        read = ap (λ z. z.0) e;
        stored = f;
        acknowledged = acknowledge-Acknowledged v est r _ c out h2;
      }
