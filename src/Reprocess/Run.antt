-- ===== src/Reprocess/Run.antt =====
-- Run, whole: what it leaves, twice, in a rehearsal, and that it ends.
use tccelta.Common.{
  ok-injective, ℕ, zero, suc, ◌+◌, ◌-◌, true, false, List, [], ◌∷◌, ◌++◌, All, All-imp, All-append,
  Result, ok, err, ◌≡◌, refl, sym, ap, ◌∙◌, subst, inl, inr, Bool-cases, arith, ◌==◌, append_nil,
}
use tccelta.Common.Int.{ℤ, pos, negsuc}
use tccelta.Common.Sort.{keep}
use tccelta.Common.Sort.Keep.{keep_whole, keep-true, keep-append, keep_nothing}
use tccelta.Common.Sort.Laws.{keep-All}
use tccelta.Ingestion.Rows.{StoredBlock}
use tccelta.Memory.{insert_alert}
use tccelta.Memory.Tables.{Tables}
use tccelta.Reprocess.{
  Summary, Failure, Ports, windows, decode_all, run, report, Options, or_default, no_summary,
}
use tccelta.Reprocess.Decoded.{IsHonest, decode_all-seq}
use tccelta.Reprocess.Rebuilt.{IsKept, IsRebuilt, same_blocks, same_rest, windows-IsRebuilt}
use tccelta.Reprocess.Rounds.{rest_of}
use tccelta.Reprocess.Store.{blocks_of, in_range}
use tccelta.Reprocess.Window.{Ascending, has_seq, outside, Covered}

or_default_pos : (z : ℤ) (d : ℕ) → (m : ℕ) × (or_default z (suc d) ≡ suc m)
unfolding or_default
or_default_pos (pos zero) d = (d, refl)
or_default_pos (pos (suc n)) d = (n, refl)
or_default_pos (negsuc n) d = (d, refl)

-- The alert behind the loop leaves the rows.
report-IsRebuilt :
    (o : Options) (p : Ports) (id to start : ℕ) (t : Tables) (s : Summary) (c : Tables)
    (x : Result Failure Summary × Tables)
    → ((s' : Summary) (d : Tables) → x ≡ (ok s', d) → IsRebuilt p id to start t d)
    → report o x ≡ (ok s, c)
    → IsRebuilt p id to start t c
unfolding report insert_alert
report-IsRebuilt o p id to start t s c (err e, d) k h = ground arith
report-IsRebuilt o p id to start t s c (ok s', d) k h =
    let b = k s' d refl in
    elim (Bool-cases o.apply) [
      | inr e ↦ subst (IsRebuilt p id to start t) (ap (λ z. z.1) (rw e at h)) b
      | inl e ↦ subst (IsRebuilt p id to start t) (ap (λ z. z.1) (rw e at h)) record {
        made = b.made;
        placed = b.placed;
        decoded = b.decoded;
        readings = b.readings;
        positions = b.positions;
        blocks = b.blocks;
      }
    ]

-- The range of a run.
abbrev pub first_of : Options → ℕ
first_of o = or_default o.from_seq 1

abbrev pub end_of : Options → ℕ
end_of o = or_default o.to_seq 4294967295

module _ (p : Ports) (o : Options) where
  -- With Apply, over stored blocks that ascend and carry the seq of their row, where each reading and
  -- position of the range comes from one of them: when Run ends well, whatever the size of its windows,
  -- the readings and positions of the range are exactly those that the blocks of the range decode to,
  -- all other ones are as before, and the blocks stay.
  pub run-IsRebuilt :
      (t c : Tables) (s : Summary)
      → o.apply ≡ true
      → IsKept o.dongle_id (end_of o) (first_of o) t
      → run p o t ≡ (ok s, c)
      → IsRebuilt p o.dongle_id (end_of o) (first_of o) t c
  unfolding run
  run-IsRebuilt t c s a k h =
      let (m, e) = or_default_pos o.batch 199 in
      let f = suc (end_of o + 1 - first_of o) in
      report-IsRebuilt o p o.dongle_id (end_of o) (first_of o) t s c _
        (λ s' d q. windows-IsRebuilt p o.dongle_id (end_of o) m f (first_of o) no_summary s' t d k (
          (λ i. windows p (sym a i) o.dongle_id (end_of o) (sym e i) f (first_of o) no_summary t)
          ∙ q))
        h

has_seq_range :
    (from to : ℕ) (xs : List StoredBlock) (n : ℕ)
    → has_seq (keep (λ x. in_range from to x.seq) xs) n ≡ true
    → in_range from to n ≡ true
unfolding has_seq keep
has_seq_range from to [] n h = cc
has_seq_range from to (x ∷ xs) n h = elim (Bool-cases (in_range from to x.seq)) [
  | inr e ↦ has_seq_range from to xs n (rw e at h)
  | inl e ↦ elim (Bool-cases (x.seq == n)) [
    | inl k ↦ ground (arith, e, k)
    | inr k ↦ has_seq_range from to xs n (ground (arith, rw e at h, k))
  ]
]

-- Rows of one kind that were made again.
module _ {A : Type 0} (seq : A → ℕ) (from to : ℕ) (rows made later : List A)
    (again : later ≡ keep (λ r. outside from to (seq r)) rows ++ made) where
  rows-Covered :
      (blocks : List StoredBlock)
      → All (λ r. has_seq blocks (seq r) ≡ true) made
      → Covered seq blocks from to later
  rows-Covered blocks h = subst (Covered seq blocks from to) (sym again) (
      All-append _ _ made
        (All-imp _
          (λ (r : A) (k : outside from to (seq r) ≡ true) (q : in_range from to (seq r) ≡ true).
            absurd (apart (seq r) k q))
          (keep-true (λ r. outside from to (seq r)) rows))
        (All-imp made (λ r k q. k) h))
    where
      apart : (n : ℕ) → outside from to n ≡ true → in_range from to n ≡ true → ⊥
      apart n k q = ground arith

  rows_fixed :
      (last : List A)
      → All (λ r. in_range from to (seq r) ≡ true) made
      → last ≡ keep (λ r. outside from to (seq r)) later ++ made
      → last ≡ later
  rows_fixed last h e =
      let f = λ (r : A). outside from to (seq r) in
      e
      ∙ (λ i. keep f (again i) ++ made)
      ∙ ap (λ l. l ++ made)
          (keep-append f (keep f rows) made
            ∙ (λ i.
                keep_whole f (keep f rows) (keep-true f rows) i
                ++ keep_nothing f made (All-imp made inside h) i)
            ∙ append_nil (keep f rows))
      ∙ sym again
    where
      inside : (r : A) → in_range from to (seq r) ≡ true → outside from to (seq r) ≡ false
      inside r k = ground arith

module _ (p : Ports) (id from to : ℕ) (t c : Tables) (b : IsRebuilt p id to from t c)
    (k : IsKept id to from t) where
  made_seqs :
      All (λ r. has_seq (rest_of id to from t) r.block_seq ≡ true) b.made
      × All (λ r. has_seq (rest_of id to from t) r.block_seq ≡ true) b.placed
  unfolding rest_of
  made_seqs =
      decode_all-seq p _ b.made b.placed (keep-All IsHonest _ (blocks_of t id) k.honest) b.decoded

  -- What is rebuilt is fit for another run.
  rebuilt-IsKept : IsKept id to from c
  rebuilt-IsKept =
      let same = same_blocks p id to 0 t c b.blocks in
      let rest = same_rest p id to 0 from t c b.blocks in
      record {
        ascending = subst Ascending same k.ascending;
        honest = subst (All IsHonest) same k.honest;
        readings =
            subst (λ l. Covered (λ r. r.block_seq) l from to c.core.readings) rest
              (rows-Covered (λ r. r.block_seq) from to t.core.readings b.made c.core.readings
                b.readings _ made_seqs.0);
        positions =
            subst (λ l. Covered (λ r. r.block_seq) l from to c.core.positions) rest
              (rows-Covered (λ r. r.block_seq) from to t.core.positions b.placed c.core.positions
                b.positions _ made_seqs.1);
      }

  in_rest : (n : ℕ) → has_seq (rest_of id to from t) n ≡ true → in_range from to n ≡ true
  unfolding rest_of
  in_rest n h = has_seq_range from to (blocks_of t id) n h

  rebuilt_again :
      (last : Tables)
      → IsRebuilt p id to from c last
      → (last.core.readings ≡ c.core.readings) × (last.core.positions ≡ c.core.positions)
  rebuilt_again last d =
      let rest = same_rest p id to 0 from t c b.blocks in
      let same = ok-injective _ _ (sym d.decoded ∙ (λ i. decode_all p (sym rest i)) ∙ b.decoded) in
      (
        rows_fixed (λ r. r.block_seq) from to t.core.readings b.made c.core.readings b.readings
            last.core.readings (All-imp b.made (λ r. in_rest r.block_seq) made_seqs.0)
            (subst
              (λ l.
                last.core.readings ≡ keep (λ r. outside from to r.block_seq) c.core.readings ++ l)
              (ap (λ z. z.0) same) d.readings),
        rows_fixed (λ r. r.block_seq) from to t.core.positions b.placed c.core.positions b.positions
            last.core.positions (All-imp b.placed (λ r. in_rest r.block_seq) made_seqs.1)
            (subst
              (λ l.
                last.core.positions ≡ keep (λ r. outside from to r.block_seq) c.core.positions ++ l)
              (ap (λ z. z.1) same) d.positions),
      )

-- Under the same conditions a second run, which ends well too, leaves the readings and positions as
-- the first one has made them.
pub run_again :
    (p : Ports) (o : Options) (t c last : Tables) (s s' : Summary)
    → o.apply ≡ true
    → IsKept o.dongle_id (end_of o) (first_of o) t
    → run p o t ≡ (ok s, c)
    → run p o c ≡ (ok s', last)
    → (last.core.readings ≡ c.core.readings) × (last.core.positions ≡ c.core.positions)
run_again p o t c last s s' a k h g =
    let b = run-IsRebuilt p o t c s a k h in
    let again = rebuilt-IsKept p o.dongle_id (first_of o) (end_of o) t c b k in
    rebuilt_again p o.dongle_id (first_of o) (end_of o) t c b k last
      (run-IsRebuilt p o c last s' a again g)
