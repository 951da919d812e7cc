-- ===== src/Batch/Receive/Progress.antt =====
-- What ReceiveBatch leaves behind: all of the batch, or nothing.
use tccelta.Common.{
  ℕ, ◌≡◌, refl, sym, ap, ◌∙◌, subst, true, false, List, [], ◌∷◌, ◌++◌, map, All, append_nil,
  Option-cases, Result, ok, err, Result-cases, Bool-cases, inl, inr, arith,
}
use tccelta.Common.Bytes.{Bytes}
use tccelta.Common.Text.{bytes_eq, bytes_eq_iff}
use tccelta.Common.Maps.{number_key, pair_key, lookup, lookup-put}
use tccelta.Registry.{Dongle, zero_state}
use tccelta.Registry
use tccelta.Ingestion.{Accepted, ApplyResult}
use tccelta.Ingestion.Apply.Counted.{apply_idle}
use tccelta.Ingestion.Rows.{RawBlock}
use tccelta.Memory.{or_else, Fault, Database, read_state, state_of, in_transaction, restore-clone}
use tccelta.Memory.Blocks.{is_seen, read_last_ack, update_ingestion}
use tccelta.Batch.{Params, Ports, Session, BatchResult}
use tccelta.Batch.Verify.{Verified}
use tccelta.Batch.Derive.Stamped.{without_time, timeless_row}
use tccelta.Batch.Store.{rejected_row, reject_all, gap_row, store_accepted}
use tccelta.Batch.Receive.{
  is_changed, state_update, result_of, applied, transaction, sender, prepare, receive,
}
use tccelta.Batch.Receive.Stored.{
  View, view, with_rejected, with_gaps, with_blocks, view-reject_all,
}
use tccelta.Batch.Receive.Ends.{
  StoredRows, store-StoredRows, Acknowledged, Committed, transaction-Committed,
}

abbrev contiguous_in : Result Fault Registry.State → ℕ
contiguous_in (ok e) = e.contiguous_seq
contiguous_in (err _) = 0

read_state-same :
    (b : Database) (id : ℕ) (est : Registry.State)
    → read_state b id ≡ ok est
    → (state_of b id).contiguous_seq ≡ est.contiguous_seq
unfolding read_state state_of
read_state-same b id est h = elim (Option-cases (lookup b.states id)) [
  | inl e ↦ ground (arith, (rw (e, read_state) at h))
  | inr (s, e) ↦ rw (e, state_of) (ap contiguous_in (rw (e, read_state) at h))
]

abbrev with_states : List (ℕ × Registry.State) → View → View
with_states m v = record v { states = m }

module _ (p : Ports) (d : Dongle) (session : Session) where
  accepted-StoredRows :
      (est : Registry.State) (r : ApplyResult) (xs : List Accepted) (b c : Database)
      → r.accepted ≡ xs
      → (r.accepted ≡ [] → r.gaps ≡ [])
      → store_accepted p d session est r xs b ≡ (ok tt, c)
      → StoredRows p d session b c r
  unfolding store_accepted tccelta.Batch.Receive.Stored.seen_all
  accepted-StoredRows est r [] b c e idle h = record {
    rows = [];
    of_blocks = ap (λ t. map timeless_row t) (sym e);
    fresh = tt;
    written = ap view (sym (ap (λ z. z.1) h)) ∙ λ i. record (view b) {
      raw_blocks = sym (append_nil b.raw_blocks) i;
      gaps =
          (sym (append_nil b.gaps) ∙ ap (λ g. b.gaps ++ map (gap_row p d session) g) (sym (idle e)))
            i;
    };
  }
  accepted-StoredRows est r (x ∷ xs) b c e idle h = store-StoredRows p d session est r b c h

  -- The state behind the ACK.
  Acknowledged-state :
      (b c : Database) (v : Verified) (est : Registry.State) (r : ApplyResult) (out : BatchResult)
      → (state_of b d.id).contiguous_seq ≡ est.contiguous_seq
      → Acknowledged p d session b c v est r out
      → ((state_of c d.id).contiguous_seq ≡ r.new_ack) × ((state_of c d.id).last_ack ≡ out.ack_tlv)
  unfolding state_of is_changed update_ingestion state_update read_last_ack result_of
  Acknowledged-state b c v est r out same a =
      elim (Bool-cases (is_changed p d session est r a.ack_tlv (read_last_ack b d.id))) [
        | inl e ↦
            let u = state_update p d session r a.ack_tlv in
            let w : c ≡ update_ingestion b u = rw e at a.written in
            let q =
              ap (λ z. state_of z d.id) w
              ∙ ap (λ t. or_else t zero_state) (lookup-put b.states d.id _) in
            (
              ap (λ z. z.contiguous_seq) q,
              ap (λ z. z.last_ack) q ∙ sym (ap (λ z. z.ack_tlv) a.returns),
            )
        | inr e ↦
            let w : c ≡ b = rw e at a.written in
            let n : r.new_ack ≡ est.contiguous_seq = ground (arith, e) in
            let t : bytes_eq a.ack_tlv (read_last_ack b d.id) ≡ true = ground (arith, e) in
            (
              ap (λ z. (state_of z d.id).contiguous_seq) w ∙ same ∙ sym n,
              ap (λ z. (state_of z d.id).last_ack) w
                  ∙ sym ((bytes_eq_iff _ _).0 t)
                  ∙ sym (ap (λ z. z.ack_tlv) a.returns),
            )
      ]

  -- A batch that was recorded, from the database `b` to `c`, where `r` is what Apply made of it.
  pub record Recorded (b c : Database) (r : ApplyResult) (out : BatchResult) : Type 0 where
    pub rows : List RawBlock
    pub of_blocks : map without_time rows ≡ map timeless_row r.accepted
    pub fresh : All (λ x. is_seen b d.id x.seq ≡ false) rows
    pub raw_blocks : c.raw_blocks ≡ b.raw_blocks ++ rows
    pub rejected : c.rejected ≡ b.rejected ++ map (rejected_row p d session) r.rejected
    pub gaps : c.gaps ≡ b.gaps ++ map (gap_row p d session) r.gaps
    pub contiguous_seq : (state_of c d.id).contiguous_seq ≡ r.new_ack
    pub last_ack : (state_of c d.id).last_ack ≡ out.ack_tlv
    pub sent : out.ack_seq ≡ r.new_ack
    pub dongles : c.dongles ≡ b.dongles

  -- The state and the ACK are written apart from the other tables.
  Acknowledged-view :
      (b c : Database) (v : Verified) (est : Registry.State) (r : ApplyResult) (out : BatchResult)
      → Acknowledged p d session b c v est r out
      → view c ≡ with_states c.states (view b)
  unfolding update_ingestion
  Acknowledged-view b c v est r out a =
      elim (Bool-cases (is_changed p d session est r a.ack_tlv (read_last_ack b d.id))) [
        | inl e ↦
            let w : c ≡ update_ingestion b (state_update p d session r a.ack_tlv) =
              rw e at a.written in
            rw w refl
        | inr e ↦ let w : c ≡ b = rw e at a.written in rw w refl
      ]

  Committed-Recorded :
      (v : Verified) (b c : Database) (out : BatchResult) (m : Committed p d session b c v out)
      → Recorded b c (applied p d session v.blocks m.est) out
  unfolding applied result_of state_of is_seen
  Committed-Recorded v b c out m =
      let r = applied p d session v.blocks m.est in
      let b1 = reject_all p d session r.rejected b in
      let kept = view-reject_all p d session r.rejected b in
      let s =
        accepted-StoredRows m.est r r.accepted b1 m.mid refl (apply_idle p.cat v.blocks _)
          m.stored in
      let whole =
        Acknowledged-view m.mid c v m.est r out m.acknowledged
        ∙ ap (with_states c.states) (
            s.written
            ∙ ap (λ t. with_gaps (map (gap_row p d session) r.gaps) (with_blocks d.id s.rows t))
                kept) in
      let same =
        ap (λ t. (or_else (lookup t d.id) zero_state).contiguous_seq)
          (ap (λ t. t.states) s.written ∙ ap (λ t. t.states) kept)
        ∙ read_state-same b d.id m.est m.read in
      let ends = Acknowledged-state m.mid c v m.est r out same m.acknowledged in
      record {
        rows = s.rows;
        of_blocks = s.of_blocks;
        fresh =
            subst (λ t. All (λ x. or_else (lookup t (d.id, x.seq)) false ≡ false) s.rows)
              (ap (λ t. t.seen) kept) s.fresh;
        raw_blocks = ap (λ t. t.raw_blocks) whole;
        rejected = ap (λ t. t.rejected) whole;
        gaps = ap (λ t. t.gaps) whole;
        contiguous_seq = ends.0;
        last_ack = ends.1;
        sent = ap (λ z. z.ack_seq) m.acknowledged.returns;
        dongles = ap (λ t. t.dongles) whole;
      }

-- The transaction of an accepted batch was committed.
pub receive-Committed :
    (q : Params) (p : Ports) (b after : Database) (session : Session) (body : Bytes) (d : Dongle)
    (v : Verified) (out : BatchResult)
    → sender q b session ≡ ok d
    → prepare q p b d body ≡ ok v
    → receive q p b session body ≡ (ok out, after)
    → Committed p d session b after v out
unfolding receive in_transaction
receive-Committed q p b after session body d v out e f h =
    transaction-Committed p d session v b after out (ran (rw (e, f, receive) at h))
  where
    ran :
        in_transaction (transaction p d session v) b ≡ (ok out, after)
        → transaction p d session v b ≡ (ok out, after)
    ran h = elim (Result-cases (transaction p d session v b).0) [
      | inl (a, g) ↦
          let k = rw (g, in_transaction) at h in λ i. ((g ∙ ap (λ z. z.0) k) i, ap (λ z. z.1) k i)
      | inr (z, g) ↦ ground (arith, (rw (g, in_transaction) at h))
    ]

-- Of a dongle with access and a batch that passes the steps before the transaction, an accepted batch has
-- appended to the stored blocks one row for each block that Apply accepts on the state that was read, in
-- order and, its time aside, with its content; no row was stored before. The refused blocks and the gaps
-- are appended likewise, the ACK that is returned has the seq of Apply, and it is the one that the state
-- of the dongle holds with that seq.
pub receive-Recorded :
    (q : Params) (p : Ports) (b after : Database) (session : Session) (body : Bytes) (d : Dongle)
    (v : Verified) (out : BatchResult)
    → sender q b session ≡ ok d
    → prepare q p b d body ≡ ok v
    → receive q p b session body ≡ (ok out, after)
    → (est : Registry.State) × (read_state b d.id ≡ ok est)
      × Recorded p d session b after (applied p d session v.blocks est) out
receive-Recorded q p b after session body d v out e f h =
    let m = receive-Committed q p b after session body d v out e f h in
    (m.est, m.read, Committed-Recorded p d session v b after out m)

-- A batch that is refused, for whatever error and by whatever part, leaves the database as it was, so that
-- an alert that its transaction has inserted is gone as well.
pub receive_refused :
    (q : Params) (p : Ports) (b after : Database) (session : Session) (body : Bytes) (e : Fault)
    → receive q p b session body ≡ (err e, after)
    → after ≡ b
unfolding receive in_transaction
receive_refused q p b after session body e h = elim (Result-cases (sender q b session)) [
  | inr (z, f) ↦ sym (ap (λ t. t.1) (rw (f, receive) at h))
  | inl (d, f) ↦ elim (Result-cases (prepare q p b d body)) [
    | inr (z, g) ↦ sym (ap (λ t. t.1) (rw (f, g, receive) at h))
    | inl (v, g) ↦ elim (Result-cases (transaction p d session v b).0) [
      | inr (z, k) ↦
          sym (ap (λ t. t.1) (rw (k, in_transaction) at (rw (f, g, receive) at h)))
          ∙ restore-clone b (transaction p d session v b).1
      | inl (a, k) ↦ ground (arith, (rw (k, in_transaction) at (rw (f, g, receive) at h)))
    ]
  ]
]
