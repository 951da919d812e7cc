-- ===== src/Reprocess/Rounds.antt =====
-- What one round of the reprocessing does with Apply.
use tccelta.Common.{
  ℕ, zero, suc, ◌+◌, ◌<◌, true, false, List, [], ◌∷◌, ◌++◌, All, Result, ok, Result-cases, ◌≡◌, ◌≢◌,
  refl, sym, ap, ◌∙◌, subst, ◌⊎◌, inl, inr, Bool-cases, arith, ltb, take,
}
use tccelta.Common.Sort.{keep}
use tccelta.Common.Sort.Keep.{keep_nothing}
use tccelta.Ingestion.Rows.{StoredBlock}
use tccelta.Memory.Blocks.{copy_readings, copy_positions}
use tccelta.Memory.Tables.{Tables, notify}
use tccelta.Pid.{Reading, Position}
use tccelta.Reprocess.{
  Summary, Failure, Ports, transact, stop, go, settle, round, decode_all, last_seq_of,
}
use tccelta.Reprocess.Store.{
  blocks_of, in_range, list_data, delete_readings, delete_positions, rewrite,
}
use tccelta.Reprocess.Window.{outside}

-- The tables behind the transaction of a window from `a` to `b`.
pub record Rewritten (a b : ℕ) (ls : List Reading) (ps : List Position) (t c : Tables)
    : Type 0 where
  pub readings : c.core.readings ≡ keep (λ r. outside a b r.block_seq) t.core.readings ++ ls
  pub positions : c.core.positions ≡ keep (λ r. outside a b r.block_seq) t.core.positions ++ ps
  pub blocks : c.data_blocks ≡ t.data_blocks

rewrite-Rewritten :
    (id a b : ℕ) (ls : List Reading) (ps : List Position) (t : Tables)
    → Rewritten a b ls ps t (rewrite id a b ls ps t).1
unfolding rewrite delete_readings delete_positions copy_readings copy_positions notify
rewrite-Rewritten id a b ls ps t = record { readings = refl; positions = refl; blocks = refl }

transact-Rewritten :
    (p : Ports) (n k id a b : ℕ) (ls : List Reading) (ps : List Position) (t c : Tables)
    (removed : ℕ)
    → transact p n k id a b ls ps t ≡ (ok removed, c)
    → Rewritten a b ls ps t c
unfolding transact
transact-Rewritten p zero k id a b ls ps t c removed h = ground arith
transact-Rewritten p (suc n) k id a b ls ps t c removed h = elim (Bool-cases (p.is_busy a k)) [
  | inl e ↦ transact-Rewritten p n (k + 1) id a b ls ps t c removed (rw (e, transact) at h)
  | inr e ↦
      subst (Rewritten a b ls ps t) (ap (λ z. z.1) (rw (e, transact) at h))
        (rewrite-Rewritten id a b ls ps t)
]

-- The blocks from a seq on.
unfoldable pub rest_of : ℕ → ℕ → ℕ → Tables → List StoredBlock
rest_of id to start t = keep (λ x. in_range start to x.seq) (blocks_of t id)

module _ (p : Ports) (id to m : ℕ) where
  -- A round that goes on.
  pub record Went (start next : ℕ) (t c : Tables) : Type 0 where
    pub x : StoredBlock
    pub xs : List StoredBlock
    pub ls : List Reading
    pub ps : List Position
    pub listed : take (suc m) (rest_of id to start t) ≡ x ∷ xs
    pub decoded : decode_all p (x ∷ xs) ≡ ok (ls, ps)
    pub goes_to : next ≡ last_seq_of x xs + 1
    pub rewritten : Rewritten x.seq (last_seq_of x xs) ls ps t c

  none_left : (start : ℕ) (t : Tables) → to < start → rest_of id to start t ≡ []
  unfolding rest_of
  none_left start t h = keep_nothing _ (blocks_of t id) (beyond (blocks_of t id))
    where
      beyond : (xs : List StoredBlock) → All (λ x. in_range start to x.seq ≡ false) xs
      beyond [] = tt
      beyond (x ∷ xs) = (ground arith, beyond xs)

  listed_lem :
      (start : ℕ) (t : Tables)
      → list_data t id start to (suc m) ≡ take (suc m) (rest_of id to start t)
  unfolding list_data rest_of
  listed_lem start t = refl

  take_none : (xs : List StoredBlock) → take (suc m) xs ≡ [] → xs ≡ []
  take_none [] h = refl
  take_none (x ∷ xs) h = cc

  List-cases :
      (xs : List StoredBlock)
      → (xs ≡ []) ⊎ ((y : StoredBlock) × (ys : List StoredBlock) × (xs ≡ y ∷ ys))
  List-cases [] = inl refl
  List-cases (y ∷ ys) = inr (y, ys, refl)

  settled-Went :
      (start next : ℕ) (s s' : Summary) (t c : Tables) (x : StoredBlock) (xs : List StoredBlock)
      (ls : List Reading) (ps : List Position)
      → take (suc m) (rest_of id to start t) ≡ x ∷ xs
      → decode_all p (x ∷ xs) ≡ ok (ls, ps)
      → settle p true id to (suc m) x xs ls ps s t ≡ go next s' c
      → Went start next t c
  unfolding settle
  settled-Went start next s s' t c x xs ls ps a d h =
      elim (Result-cases (transact p 5 0 id x.seq (last_seq_of x xs) ls ps t).0) [
        | inr (e, k) ↦ ground arith
        | inl (removed, k) ↦
            let after = (transact p 5 0 id x.seq (last_seq_of x xs) ls ps t).1 in
            let g = rw (k, settle) at h in
            record {
              x = x;
              xs = xs;
              ls = ls;
              ps = ps;
              listed = a;
              decoded = d;
              goes_to = ground (arith, g);
              rewritten = subst (Rewritten x.seq (last_seq_of x xs) ls ps t) (tables_of g) (
                  transact-Rewritten p 5 0 id x.seq (last_seq_of x xs) ls ps t after removed
                    (λ i. (k i, after)));
            }
      ]
    where
      tables_of : {n n' : ℕ} {r r' : Summary} {u v : Tables} → go n r u ≡ go n' r' v → u ≡ v
      tables_of {u} h i = elim (h i) [ go n r w ↦ w | stop r w ↦ u ]

  settle-ne-stop :
      (x : StoredBlock) (xs : List StoredBlock) (ls : List Reading) (ps : List Position)
      (s s' : Summary) (t c : Tables)
      → settle p true id to (suc m) x xs ls ps s t ≢ stop (ok s') c
  unfolding settle
  settle-ne-stop x xs ls ps s s' t c h = ground arith

  module _ (start : ℕ) (s : Summary) (t : Tables) where
    -- A round that ends the loop well has found no block.
    pub round_ends :
        (s' : Summary) (c : Tables)
        → round p true id to (suc m) start s t ≡ stop (ok s') c
        → (t ≡ c) × (rest_of id to start t ≡ [])
    unfolding round
    round_ends s' c h = elim (Bool-cases (ltb to start)) [
      | inl e ↦ (tables_of (rw (e, round) at h), none_left start t (ground arith))
      | inr e ↦ elim (List-cases (list_data t id start to (suc m))) [
        | inl k ↦
            let g = rw (k, round) at (rw (e, round) at h) in
            (tables_of g, take_none (rest_of id to start t) (sym (listed_lem start t) ∙ k))
        | inr (x, xs, k) ↦ elim (Result-cases (decode_all p (x ∷ xs))) [
          | inr (y, d) ↦ ground (arith, rw (d, round) at (rw (k, round) at (rw (e, round) at h)))
          | inl ((ls, ps), d) ↦ absurd (
              settle-ne-stop x xs ls ps s s' t c
                (rw (d, round) at (rw (k, round) at (rw (e, round) at h))))
        ]
      ]
    ]
      where
        tables_of : {r r' : Result Failure Summary} {u v : Tables} → stop r u ≡ stop r' v → u ≡ v
        tables_of {u} h i = elim (h i) [ go n r w ↦ u | stop r w ↦ w ]

    -- One that goes on has made a window again.
    pub round_goes :
        (next : ℕ) (s' : Summary) (c : Tables)
        → round p true id to (suc m) start s t ≡ go next s' c
        → Went start next t c
    unfolding round
    round_goes next s' c h = elim (Bool-cases (ltb to start)) [
      | inl e ↦ ground (arith, rw (e, round) at h)
      | inr e ↦ elim (List-cases (list_data t id start to (suc m))) [
        | inl k ↦ ground (arith, rw (k, round) at (rw (e, round) at h))
        | inr (x, xs, k) ↦ elim (Result-cases (decode_all p (x ∷ xs))) [
          | inr (y, d) ↦ ground (arith, rw (d, round) at (rw (k, round) at (rw (e, round) at h)))
          | inl ((ls, ps), d) ↦
              settled-Went start next s s' t c x xs ls ps (sym (listed_lem start t) ∙ k) d
                (rw (d, round) at (rw (k, round) at (rw (e, round) at h)))
        ]
      ]
    ]
