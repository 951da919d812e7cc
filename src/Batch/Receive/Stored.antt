-- ===== src/Batch/Receive/Stored.antt =====
-- What the parts of ReceiveBatch's transaction write, as equations on the tables it keeps.
use tccelta.Common.{
  append_assoc, append_nil, ℕ, ◌+◌, ◌≤◌, ◌≡◌, ◌≢◌, refl, sym, ap, ◌∙◌, subst, Bool, true, false,
  List, [], ◌∷◌, ◌++◌, some, map, All, length, if◌then◌else◌, Bool-cases, inl, inr, ltb, arith,
}
use tccelta.Common.Bytes.{Bytes}
use tccelta.Common.Maps.{
  number_key, pair_key, lookup, put, same_key, same_key→eq, same_key_refl, lookup-put_other,
  lookup-put,
}
use tccelta.Registry.{Dongle}
use tccelta.Registry
use tccelta.Ingestion.{GapOut, Rejection, ApplyResult}
use tccelta.Ingestion.Rows.{RawBlock, Rejected, BootAggregate}
use tccelta.Memory
use tccelta.Memory.{
  Database, Gap, boot_generation_advanced, insert_gap, insert_alert, notify_pending, or_else,
}
use tccelta.Memory.Blocks.{
  update_boots, is_seen, insert_loop, register_rejected, copy_readings, copy_positions,
}
use tccelta.Batch.{Ports, Session}
use tccelta.Batch.Derive
use tccelta.Batch.Derive.{aggregates}
use tccelta.Batch.Store.{
  is_unknown_pid, alert, is_some_list, rejected_row, reject_all, gap_row, insert_gaps, store_rest,
}

-- The tables that the theorems speak of.
pub record View : Type 0 where
  pub dongles : List (Bytes × Dongle)
  pub states : List (ℕ × Registry.State)
  pub seen : List ((ℕ × ℕ) × Bool)
  pub raw_blocks : List RawBlock
  pub rejected : List Rejected
  pub gaps : List Gap

abbrev pub view : Database → View
view b = record {
  dongles = b.dongles;
  states = b.states;
  seen = b.seen;
  raw_blocks = b.raw_blocks;
  rejected = b.rejected;
  gaps = b.gaps;
}

-- A write that leaves the view alone leaves it alone under a test.
pub view_if :
    (test : Bool) (b c : Database) → view c ≡ view b → view (if test then c else b) ≡ view b
view_if true b c h = h
view_if false b c h = refl

abbrev pub with_rejected : List Rejected → View → View
with_rejected xs v = record v { rejected = v.rejected ++ xs }

abbrev pub with_gaps : List Gap → View → View
with_gaps xs v = record v { gaps = v.gaps ++ xs }

view-update_boots :
    (id : ℕ) (xs : List BootAggregate) (b : Database) → view (update_boots id xs b) ≡ view b
unfolding update_boots
view-update_boots id [] b = refl
view-update_boots id (x ∷ xs) b = view-update_boots id xs _

module _ (p : Ports) (d : Dongle) (session : Session) where
  pub view-reject_all :
      (xs : List Rejection) (b : Database)
      → view (reject_all p d session xs b)
        ≡ with_rejected (map (rejected_row p d session) xs) (view b)
  unfolding reject_all register_rejected insert_alert
  view-reject_all [] b = λ i. record (view b) { rejected = sym (append_nil b.rejected) i }
  view-reject_all (x ∷ xs) b =
      let row = rejected_row p d session x in
      let rows = map (rejected_row p d session) xs in
      let c = register_rejected row b in
      view-reject_all xs _
      ∙ ap (with_rejected rows)
          (view_if (is_unknown_pid x.reason) c (insert_alert c (alert d Memory.unknown_pid)) refl)
      ∙ λ i. record (view b) { rejected = append_assoc b.rejected (row ∷ []) rows i }

  view-insert_gaps :
      (ls : List GapOut) (b : Database)
      → view (insert_gaps p d session ls b) ≡ with_gaps (map (gap_row p d session) ls) (view b)
  unfolding insert_gaps insert_gap
  view-insert_gaps [] b = λ i. record (view b) { gaps = sym (append_nil b.gaps) i }
  view-insert_gaps (l ∷ ls) b =
      let row = gap_row p d session l in
      view-insert_gaps ls _ ∙ λ i. record (view b) {
        gaps = append_assoc b.gaps (row ∷ []) (map (gap_row p d session) ls) i;
      }

  pub view-store_rest :
      (est : Registry.State) (r : ApplyResult) (m : Derive.Rows) (b : Database)
      → view (store_rest p d session est r m b)
        ≡ with_gaps (map (gap_row p d session) r.gaps) (view b)
  unfolding store_rest copy_readings copy_positions insert_alert notify_pending
  view-store_rest est r m b =
      let b1 : Database = if is_some_list m.readings then copy_readings m.readings b else b in
      let b2 : Database = if is_some_list m.positions then copy_positions m.positions b1 else b1 in
      let b3 = insert_gaps p d session r.gaps b2 in
      let b4 : Database =
        if ltb est.boot_generation r.g
        then insert_alert b3 (alert d boot_generation_advanced)
        else b3 in
      view_if (is_some_list m.agg) b4 _ (view-update_boots d.id (aggregates m.agg) b4)
      ∙ view_if (ltb est.boot_generation r.g) b3 _ refl
      ∙ view-insert_gaps r.gaps b2
      ∙ ap (with_gaps (map (gap_row p d session) r.gaps)) (
          view_if (is_some_list m.positions) b1 _ refl ∙ view_if (is_some_list m.readings) b _ refl)

-- The keys of stored blocks, with those of `bs`.
unfoldable pub seen_all : ℕ → List RawBlock → List ((ℕ × ℕ) × Bool) → List ((ℕ × ℕ) × Bool)
seen_all id [] m = m
seen_all id (x ∷ bs) m = seen_all id bs (put m (id, x.seq) true)

abbrev pub with_blocks : ℕ → List RawBlock → View → View
with_blocks id bs v = record v { seen = seen_all id bs v.seen; raw_blocks = v.raw_blocks ++ bs }

abbrev with_block : ℕ → RawBlock → Database → Database
with_block id x b = record b {
  seen = put b.seen (id, x.seq) true;
  raw_blocks = b.raw_blocks ++ x ∷ [];
}

module _ (id : ℕ) (x : RawBlock) (bs : List RawBlock) (n : ℕ) (b : Database) where
  insert_new :
      is_seen b id x.seq ≡ false
      → insert_loop id (x ∷ bs) n b ≡ insert_loop id bs (n + 1) (with_block id x b)
  unfolding insert_loop
  insert_new e = rw (e, insert_loop) refl

  insert_old : is_seen b id x.seq ≡ true → insert_loop id (x ∷ bs) n b ≡ insert_loop id bs n b
  unfolding insert_loop
  insert_old e = rw (e, insert_loop) refl

insert_loop_le :
    (id : ℕ) (bs : List RawBlock) (n : ℕ) (b : Database) → (insert_loop id bs n b).0 ≤ n + length bs
unfolding insert_loop
insert_loop_le id [] n b = omega arith
insert_loop_le id (x ∷ bs) n b = elim (Bool-cases (is_seen b id x.seq)) [
  | inl e ↦ rw (insert_old id x bs n b e) (let q = insert_loop_le id bs n b in omega arith)
  | inr e ↦
      rw (insert_new id x bs n b e)
        (let q = insert_loop_le id bs (n + 1) (with_block id x b) in omega arith)
]

fresh_before :
    (b : Database) (id : ℕ) (x y : RawBlock)
    → is_seen (with_block id x b) id y.seq ≡ false
    → is_seen b id y.seq ≡ false
unfolding is_seen
fresh_before b id x y h =
    let k : ℕ × ℕ = (id, x.seq) in
    let l : ℕ × ℕ = (id, y.seq) in
    elim (Bool-cases (same_key k l)) [
      | inl e ↦
          let q : lookup (put b.seen k true) l ≡ some true =
            subst (λ t. lookup (put b.seen k true) t ≡ some true) (same_key→eq k l e)
              (lookup-put b.seen k true) in
          let z : true ≡ false = ap (λ t. or_else t false) (sym q) ∙ h in cc z
      | inr e ↦
          let n : k ≢ l = λ r.
            let z : same_key k l ≡ true = subst (λ t. same_key k t ≡ true) r (same_key_refl k) in
            cc (e, z) in
          ap (λ t. or_else t false) (sym (lookup-put_other b.seen true n)) ∙ h
    ]

All-fresh_before :
    (b : Database) (id : ℕ) (x : RawBlock) (bs : List RawBlock)
    → All (λ y. is_seen (with_block id x b) id y.seq ≡ false) bs
    → All (λ y. is_seen b id y.seq ≡ false) bs
All-fresh_before b id x [] h = tt
All-fresh_before b id x (y ∷ bs) (h, hs) = (fresh_before b id x y h, All-fresh_before b id x bs hs)

-- When every block counts as new, they are appended as they are, and none of them was there before.
pub insert_loop-All :
    (id : ℕ) (bs : List RawBlock) (n : ℕ) (b : Database)
    → (insert_loop id bs n b).0 ≡ n + length bs
    → (view (insert_loop id bs n b).1 ≡ with_blocks id bs (view b))
      × All (λ x. is_seen b id x.seq ≡ false) bs
unfolding insert_loop seen_all
insert_loop-All id [] n b h =
    (λ i. record (view b) { raw_blocks = sym (append_nil b.raw_blocks) i }, tt)
insert_loop-All id (x ∷ bs) n b h = elim (Bool-cases (is_seen b id x.seq)) [
  | inl e ↦
      let q = insert_loop_le id bs n b in
      let k : (insert_loop id bs n b).0 ≡ n + length (x ∷ bs) =
        ap (λ t. t.0) (sym (insert_old id x bs n b e)) ∙ h in
      ground (arith, q, k)
  | inr e ↦
      let f = insert_new id x bs n b e in
      let k : (insert_loop id bs (n + 1) (with_block id x b)).0 ≡ n + 1 + length bs =
        ap (λ t. t.0) (sym f) ∙ (h ∙ omega arith) in
      let (v, fresh) = insert_loop-All id bs (n + 1) (with_block id x b) k in
      (
        ap (λ t. view t.1) f ∙ v ∙ λ i. record (with_blocks id (x ∷ bs) (view b)) {
          raw_blocks = append_assoc b.raw_blocks (x ∷ []) bs i;
        },
        (e, All-fresh_before b id x bs fresh),
      )
]
