-- ===== src/Reprocess/Rebuilt.antt =====
-- What a reprocessing with Apply leaves.
use tccelta.Common.{
  ℕ, zero, suc, ◌+◌, ◌≤◌, true, ◌&&◌, List, [], ◌∷◌, ◌++◌, All, All-imp, Result, ok, ◌≡◌, refl, sym,
  ap, ◌∙◌, subst, ◌⊎◌, inl, inr, arith, drop, take-append-drop, append_assoc, append_nil,
}
use tccelta.Common.Sort.{keep}
use tccelta.Common.Sort.Keep.{keep_whole, keep-keep, keep_agree, keep-true}
use tccelta.Common.Sort.Laws.{keep-All}
use tccelta.Ingestion.Rows.{StoredBlock}
use tccelta.Memory.{or_else}
use tccelta.Memory.Tables.{Tables}
use tccelta.Pid.{Reading, Position}
use tccelta.Reprocess.{
  Summary, Failure, Ports, Round, stop, go, round, windows, decode_all, last_seq_of,
}
use tccelta.Reprocess.Decoded.{IsHonest, decode_all-seq, decode_all-append}
use tccelta.Reprocess.Rounds.{Went, rest_of, round_ends, round_goes}
use tccelta.Common.Maps.{number_key, lookup}
use tccelta.Reprocess.Store.{blocks_of, in_range}
use tccelta.Reprocess.Window.{
  Ascending, has_seq, outside, keep-Ascending, first-le-last, keep_rest, Covered, window_rows,
  window-Covered,
}

module _ (id to : ℕ) where
  -- The stored blocks ascend and are honest; each row of the range comes from one of them.
  pub record IsKept (start : ℕ) (t : Tables) : Type 0 where
    pub ascending : Ascending (blocks_of t id)
    pub honest : All IsHonest (blocks_of t id)
    pub readings : Covered (λ r. r.block_seq) (rest_of id to start t) start to t.core.readings
    pub positions : Covered (λ r. r.block_seq) (rest_of id to start t) start to t.core.positions

module _ (p : Ports) (id to : ℕ) where
  -- In the range the rows are those that the stored blocks decode to; all others are as before.
  pub record IsRebuilt (start : ℕ) (t c : Tables) : Type 0 where
    pub made : List Reading
    pub placed : List Position
    pub decoded : decode_all p (rest_of id to start t) ≡ ok (made, placed)
    pub readings :
        c.core.readings ≡ keep (λ r. outside start to r.block_seq) t.core.readings ++ made
    pub positions :
        c.core.positions ≡ keep (λ r. outside start to r.block_seq) t.core.positions ++ placed
    pub blocks : c.data_blocks ≡ t.data_blocks

module _ (p : Ports) (id to m : ℕ) where
  untouched :
      {A : Type 0} (seq : A → ℕ) (start : ℕ) (rows : List A)
      → Covered seq [] start to rows
      → rows ≡ keep (λ r. outside start to (seq r)) rows ++ []
  unfolding has_seq
  untouched seq start rows h =
      sym (append_nil _ ∙ keep_whole _ rows (All-imp rows (λ r k. ground (arith, k)) h))

  ended-IsRebuilt :
      (start : ℕ) (t : Tables)
      → IsKept id to start t
      → rest_of id to start t ≡ []
      → IsRebuilt p id to start t t
  unfolding decode_all
  ended-IsRebuilt start t k e = record {
    made = [];
    placed = [];
    decoded = rw e refl;
    readings =
        untouched (λ r. r.block_seq) start t.core.readings
          (subst (λ l. Covered (λ r. r.block_seq) l start to t.core.readings) e k.readings);
    positions =
        untouched (λ r. r.block_seq) start t.core.positions
          (subst (λ l. Covered (λ r. r.block_seq) l start to t.core.positions) e k.positions);
    blocks = refl;
  }

  -- A window, the blocks behind it, and where they lie.
  record IsSplit (start : ℕ) (t : Tables) (x : StoredBlock) (xs rest : List StoredBlock)
      : Type 0 where
    whole : rest_of id to start t ≡ x ∷ xs ++ rest
    order : Ascending (x ∷ xs ++ rest)
    low : start ≤ x.seq
    high : last_seq_of x xs ≤ to
    honest : All IsHonest (x ∷ xs)
    left : rest_of id to (last_seq_of x xs + 1) t ≡ rest

  All-left : {A : Type 0} (P : A → Type 0) (xs ys : List A) → All P (xs ++ ys) → All P xs
  All-left P [] ys h = tt
  All-left P (x ∷ xs) ys h = (h.0, All-left P xs ys h.1)

  All-right : {A : Type 0} (P : A → Type 0) (xs ys : List A) → All P (xs ++ ys) → All P ys
  All-right P [] ys h = h
  All-right P (x ∷ xs) ys h = All-right P xs ys h.1

  last_le :
      (x : StoredBlock) (xs : List StoredBlock)
      → All (λ y. y.seq ≤ to) (x ∷ xs)
      → last_seq_of x xs ≤ to
  unfolding last_seq_of
  last_le x [] h = h.0
  last_le x (y ∷ ys) h = last_le y ys h.1

  in_range_later :
      (from b : ℕ) (xs : List StoredBlock)
      → from ≤ b
      → All (λ y. (in_range from to y.seq && in_range b to y.seq) ≡ in_range b to y.seq) xs
  in_range_later from b [] h = tt
  in_range_later from b (x ∷ xs) h = (ground arith, in_range_later from b xs h)

  -- The blocks from a later seq on, and those of other tables.
  later_rest :
      (start b : ℕ) (t : Tables)
      → start ≤ b
      → rest_of id to b t ≡ keep (λ y. in_range b to y.seq) (rest_of id to start t)
  unfolding rest_of
  later_rest start b t h =
      sym (keep_agree _ _ (blocks_of t id) (in_range_later start b (blocks_of t id) h))
      ∙ sym (keep-keep _ _ (blocks_of t id))

  pub same_blocks : (t c : Tables) → c.data_blocks ≡ t.data_blocks → blocks_of t id ≡ blocks_of c id
  unfolding blocks_of
  same_blocks t c e i = or_else (lookup (sym e i) id) []

  pub same_rest :
      (from : ℕ) (t c : Tables)
      → c.data_blocks ≡ t.data_blocks
      → rest_of id to from t ≡ rest_of id to from c
  unfolding rest_of
  same_rest from t c e = ap (keep (λ y. in_range from to y.seq)) (same_blocks t c e)

  Went-IsSplit :
      (start next : ℕ) (t c : Tables) (w : Went p id to m start next t c)
      → IsKept id to start t
      → IsSplit start t w.x w.xs (drop (suc m) (rest_of id to start t))
  Went-IsSplit start next t c w k =
      let all = rest_of id to start t in
      let rest = drop (suc m) all in
      let whole : all ≡ w.x ∷ w.xs ++ rest =
        sym (take-append-drop (suc m) all) ∙ ap (λ l. l ++ rest) w.listed in
      let order : Ascending (w.x ∷ w.xs ++ rest) =
        subst Ascending whole (unfold rest_of in keep-Ascending _ (blocks_of t id) k.ascending) in
      let inside : All (λ y. in_range start to y.seq ≡ true) (w.x ∷ w.xs ++ rest) =
        subst (All (λ y. in_range start to y.seq ≡ true)) whole
          (unfold rest_of in keep-true _ (blocks_of t id)) in
      let below : All (λ y. y.seq ≤ to) (w.x ∷ w.xs ++ rest) =
        All-imp (w.x ∷ w.xs ++ rest)
          (λ (y : StoredBlock) (h : in_range start to y.seq ≡ true). ground arith) inside in
      let low : start ≤ w.x.seq = let i = inside.0 in ground arith in
      let grows = first-le-last rest w.x w.xs order in
      let b = last_seq_of w.x w.xs + 1 in
      record {
        whole = whole;
        order = order;
        low = low;
        high = last_le w.x w.xs (All-left _ (w.x ∷ w.xs) rest below);
        honest = All-left IsHonest (w.x ∷ w.xs) rest (
            subst (All IsHonest) whole
              (unfold rest_of in keep-All IsHonest _ (blocks_of t id) k.honest));
        left =
            later_rest start b t (omega arith)
            ∙ ap (keep (λ y. in_range b to y.seq)) whole
            ∙ keep_rest rest to w.x w.xs order (All-right _ (w.x ∷ w.xs) rest below);
      }

  -- Rows of one kind, across a window.
  module _ {A : Type 0} (seq : A → ℕ) (start : ℕ) (t : Tables) (x : StoredBlock)
      (xs rest : List StoredBlock) (s : IsSplit start t x xs rest) (rows made later : List A)
      (covered : Covered seq (rest_of id to start t) start to rows)
      (seqs : All (λ r. has_seq (x ∷ xs) (seq r) ≡ true) made)
      (rewritten : later ≡ keep (λ r. outside x.seq (last_seq_of x xs) (seq r)) rows ++ made) where
    moved-Covered :
        (left : List StoredBlock) → rest ≡ left → Covered seq left (last_seq_of x xs + 1) to later
    moved-Covered left e =
        subst (λ l. Covered seq l (last_seq_of x xs + 1) to later) e
          (subst (Covered seq rest (last_seq_of x xs + 1) to) (sym rewritten) (
            window-Covered seq start to x xs rest s.order s.low s.high rows made
              (subst (λ l. Covered seq l start to rows) s.whole covered) seqs))

    moved_rows :
        (more last : List A)
        → last ≡ keep (λ r. outside (last_seq_of x xs + 1) to (seq r)) later ++ more
        → last ≡ keep (λ r. outside start to (seq r)) rows ++ (made ++ more)
    moved_rows more last h =
        h
        ∙ (λ i. keep (λ r. outside (last_seq_of x xs + 1) to (seq r)) (rewritten i) ++ more)
        ∙ ap (λ l. l ++ more)
            (window_rows seq start to x xs rest s.order s.low s.high rows made
              (subst (λ l. Covered seq l start to rows) s.whole covered) seqs)
        ∙ append_assoc _ made more

  -- After the window the reprocessing stands as if it started behind it.
  step-IsKept :
      (start next : ℕ) (t c : Tables) (w : Went p id to m start next t c) (rest : List StoredBlock)
      → IsSplit start t w.x w.xs rest
      → IsKept id to start t
      → IsKept id to (last_seq_of w.x w.xs + 1) c
  step-IsKept start next t c w rest s k =
      let r = w.rewritten in
      let same = same_blocks t c r.blocks in
      let left = sym s.left ∙ same_rest (last_seq_of w.x w.xs + 1) t c r.blocks in
      let seqs = decode_all-seq p (w.x ∷ w.xs) w.ls w.ps s.honest w.decoded in
      record {
        ascending = subst Ascending same k.ascending;
        honest = subst (All IsHonest) same k.honest;
        readings =
            moved-Covered (λ q. q.block_seq) start t w.x w.xs rest s t.core.readings w.ls
              c.core.readings k.readings seqs.0 r.readings _ left;
        positions =
            moved-Covered (λ q. q.block_seq) start t w.x w.xs rest s t.core.positions w.ps
              c.core.positions k.positions seqs.1 r.positions _ left;
      }

  step-IsRebuilt :
      (start next : ℕ) (t c last : Tables) (w : Went p id to m start next t c)
      (rest : List StoredBlock)
      → IsSplit start t w.x w.xs rest
      → IsKept id to start t
      → IsRebuilt p id to (last_seq_of w.x w.xs + 1) c last
      → IsRebuilt p id to start t last
  step-IsRebuilt start next t c last w rest s k b =
      let r = w.rewritten in
      let from = last_seq_of w.x w.xs + 1 in
      let same = sym (same_rest from t c r.blocks) ∙ s.left in
      let seqs = decode_all-seq p (w.x ∷ w.xs) w.ls w.ps s.honest w.decoded in
      record {
        made = w.ls ++ b.made;
        placed = w.ps ++ b.placed;
        decoded =
            subst (λ l. decode_all p l ≡ ok (w.ls ++ b.made, w.ps ++ b.placed)) (sym s.whole)
              (decode_all-append p (w.x ∷ w.xs) rest w.ls b.made w.ps b.placed w.decoded
                (subst (λ l. decode_all p l ≡ ok (b.made, b.placed)) same b.decoded));
        readings =
            moved_rows (λ q. q.block_seq) start t w.x w.xs rest s t.core.readings w.ls
              c.core.readings k.readings seqs.0 r.readings b.made last.core.readings b.readings;
        positions =
            moved_rows (λ q. q.block_seq) start t w.x w.xs rest s t.core.positions w.ps
              c.core.positions k.positions seqs.1 r.positions b.placed last.core.positions
              b.positions;
        blocks = b.blocks ∙ r.blocks;
      }

  Round-cases :
      (r : Round)
      → ((x : Result Failure Summary) × (c : Tables) × (r ≡ stop x c))
        ⊎ ((n : ℕ) × (s : Summary) × (c : Tables) × (r ≡ go n s c))
  Round-cases (stop x c) = inl (x, c, refl)
  Round-cases (go n s c) = inr (n, s, c, refl)

  pub windows-IsRebuilt :
      (f start : ℕ) (s s' : Summary) (t c : Tables)
      → IsKept id to start t
      → windows p true id to (suc m) f start s t ≡ (ok s', c)
      → IsRebuilt p id to start t c
  unfolding windows
  windows-IsRebuilt zero start s s' t c k h = ground arith
  windows-IsRebuilt (suc f) start s s' t c k h =
      elim (Round-cases (round p true id to (suc m) start s t)) [
        | inl (x, d, e) ↦
            let g = rw (e, windows) at h in
            let (same, none) =
              round_ends p id to m start s t s' c (e ∙ (λ i. stop (g i).0 (g i).1)) in
            subst (IsRebuilt p id to start t) same (ended-IsRebuilt start t k none)
        | inr (n, s1, d, e) ↦
            let w = round_goes p id to m start s t n s1 d e in
            let split = Went-IsSplit start n t d w k in
            let rest = drop (suc m) (rest_of id to start t) in
            step-IsRebuilt start n t d c w rest split k (
              windows-IsRebuilt f (last_seq_of w.x w.xs + 1) s1 s' d c
                (step-IsKept start n t d w rest split k)
                (subst (λ z. windows p true id to (suc m) f z s1 d ≡ (ok s', c)) w.goes_to
                  (rw (e, windows) at h)))
      ]
