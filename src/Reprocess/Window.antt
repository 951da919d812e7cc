-- ===== src/Reprocess/Window.antt =====
-- A window of ascending blocks, what lies behind it, and the rows that it replaces.
use tccelta.Common.{
  ℕ, ◌+◌, ◌≤◌, ◌<◌, Bool, true, false, ◌&&◌, ◌||◌, List, [], ◌∷◌, ◌++◌, All, All-imp, All-append,
  ◌≡◌, ◌∙◌, inl, inr, Bool-cases, ◌==◌, ltb, arith,
}
use tccelta.Common.Sort.{keep}
use tccelta.Common.Sort.Keep.{keep-append, keep-keep, keep_agree, keep_whole}
use tccelta.Common.Sort.Laws.{keep-All}
use tccelta.Ingestion.Rows.{StoredBlock}
use tccelta.Reprocess.{last_seq_of}
use tccelta.Reprocess.Store.{in_range}

unfoldable pub Ascending : List StoredBlock → Type 0
Ascending [] = Unit
Ascending (x ∷ xs) = All (λ y. x.seq < y.seq) xs × Ascending xs

-- A block with the seq stands in the list.
unfoldable pub has_seq : List StoredBlock → ℕ → Bool
has_seq [] n = false
has_seq (x ∷ xs) n = x.seq == n || has_seq xs n

abbrev pub outside : ℕ → ℕ → ℕ → Bool
outside a b n = ltb n a || ltb b n

pub keep-Ascending :
    (f : StoredBlock → Bool) (xs : List StoredBlock) → Ascending xs → Ascending (keep f xs)
unfolding keep Ascending
keep-Ascending f [] h = tt
keep-Ascending f (x ∷ xs) h = elim (Bool-cases (f x)) [
  | inl e ↦ rw e (keep-All (λ y. x.seq < y.seq) f xs h.0, keep-Ascending f xs h.1)
  | inr e ↦ rw e (keep-Ascending f xs h.1)
]

has_seq_above :
    (n m : ℕ) (xs : List StoredBlock) → All (λ y. m < y.seq) xs → has_seq xs n ≡ true → m < n
unfolding has_seq
has_seq_above n m [] h k = cc
has_seq_above n m (x ∷ xs) h k = elim (Bool-cases (x.seq == n)) [
  | inl e ↦ ground arith
  | inr e ↦ has_seq_above n m xs h.1 (ground arith)
]

-- A window `x ∷ xs` before the blocks `rest`.
module _ (rest : List StoredBlock) where
  pub first_le :
      (x : StoredBlock) (xs : List StoredBlock) (n : ℕ)
      → Ascending (x ∷ xs ++ rest)
      → has_seq (x ∷ xs ++ rest) n ≡ true
      → x.seq ≤ n
  unfolding Ascending has_seq
  first_le x xs n h k = elim (Bool-cases (x.seq == n)) [
    | inl e ↦ ground arith
    | inr e ↦ let m = has_seq_above n x.seq (xs ++ rest) h.0 (ground arith) in omega arith
  ]

  middle_head :
      (m : ℕ) (ys : List StoredBlock) (y : StoredBlock)
      → All (λ z. m < z.seq) (y ∷ ys ++ rest)
      → m < y.seq
  middle_head m ys y h = h.0

  pub first-le-last :
      (x : StoredBlock) (xs : List StoredBlock)
      → Ascending (x ∷ xs ++ rest)
      → x.seq ≤ last_seq_of x xs
  unfolding Ascending last_seq_of
  first-le-last x [] h = omega arith
  first-le-last x (y ∷ ys) h = omega (arith, first-le-last y ys h.1, middle_head x.seq ys y h.0)

  pub in_window :
      (x : StoredBlock) (xs : List StoredBlock) (n : ℕ)
      → Ascending (x ∷ xs ++ rest)
      → has_seq (x ∷ xs) n ≡ true
      → n ≤ last_seq_of x xs
  unfolding Ascending last_seq_of has_seq
  in_window x [] n h k = ground arith
  in_window x (y ∷ ys) n h k = elim (Bool-cases (x.seq == n)) [
    | inl e ↦
        let a = first-le-last y ys h.1 in let b = middle_head x.seq ys y h.0 in ground (arith, a, b)
    | inr e ↦ in_window y ys n h.1 (ground arith)
  ]

  pub behind_window :
      (x : StoredBlock) (xs : List StoredBlock) (n : ℕ)
      → Ascending (x ∷ xs ++ rest)
      → has_seq (x ∷ xs ++ rest) n ≡ true
      → last_seq_of x xs < n
      → has_seq rest n ≡ true
  unfolding Ascending last_seq_of has_seq
  behind_window x [] n h k m = ground arith
  behind_window x (y ∷ ys) n h k m =
      let a = first-le-last y ys h.1 in
      let b = middle_head x.seq ys y h.0 in behind_window y ys n h.1 (ground (arith, a, b)) m

  -- The blocks behind the window are those from the seq after its last one on.
  pub keep_rest :
      (to : ℕ) (x : StoredBlock) (xs : List StoredBlock)
      → Ascending (x ∷ xs ++ rest)
      → All (λ y. y.seq ≤ to) rest
      → keep (λ y. in_range (last_seq_of x xs + 1) to y.seq) (x ∷ xs ++ rest) ≡ rest
  unfolding keep Ascending last_seq_of
  keep_rest to x [] h t =
      let skipped : in_range (x.seq + 1) to x.seq ≡ false = ground arith in
      rw skipped (keep_whole _ rest (above x.seq rest h.0 t))
    where
      above :
          (m : ℕ) (ys : List StoredBlock)
          → All (λ y. m < y.seq) ys
          → All (λ y. y.seq ≤ to) ys
          → All (λ y. in_range (m + 1) to y.seq ≡ true) ys
      above m [] h t = tt
      above m (y ∷ ys) h t = (ground (arith, h.0, t.0), above m ys h.1 t.1)
  keep_rest to x (y ∷ ys) h t =
      let a = first-le-last y ys h.1 in
      let b = middle_head x.seq ys y h.0 in
      let skipped : in_range (last_seq_of y ys + 1) to x.seq ≡ false = ground (arith, a, b) in
      rw skipped (keep_rest to y ys h.1 t)

-- Rows with a seq: readings and positions.
module _ {A : Type 0} (seq : A → ℕ) where
  -- A row in the range comes from one of the blocks.
  abbrev pub Covered : List StoredBlock → ℕ → ℕ → List A → Type 0
  Covered blocks from to rows =
      All (λ r. in_range from to (seq r) ≡ true → has_seq blocks (seq r) ≡ true) rows

  -- A window is replaced by the rows `made` of its blocks, and then what lies behind it.
  module _ (from to : ℕ) (x : StoredBlock) (xs rest : List StoredBlock)
      (h : Ascending (x ∷ xs ++ rest)) (low : from ≤ x.seq) (high : last_seq_of x xs ≤ to) where
    pub window_rows :
        (rows made : List A)
        → Covered (x ∷ xs ++ rest) from to rows
        → All (λ r. has_seq (x ∷ xs) (seq r) ≡ true) made
        → keep
            (λ r. outside (last_seq_of x xs + 1) to (seq r))
            (keep (λ r. outside x.seq (last_seq_of x xs) (seq r)) rows ++ made)
          ≡ keep (λ r. outside from to (seq r)) rows ++ made
    window_rows rows made c m =
        let b = last_seq_of x xs in
        let gone = λ (r : A). outside x.seq b (seq r) in
        let later = λ (r : A). outside (b + 1) to (seq r) in
        keep-append later (keep gone rows) made ∙ (λ i.
          (keep-keep later gone rows ∙ keep_agree _ _ rows (All-imp rows agree c)) i
          ++ keep_whole later made (All-imp made kept m) i)
      where
        agree :
            (r : A)
            → (in_range from to (seq r) ≡ true → has_seq (x ∷ xs ++ rest) (seq r) ≡ true)
            → (outside x.seq (last_seq_of x xs) (seq r)
                && outside (last_seq_of x xs + 1) to (seq r))
              ≡ outside from to (seq r)
        agree r k =
            let order = first-le-last rest x xs h in
            elim (Bool-cases (in_range from to (seq r))) [
              | inl e ↦ let a = first_le rest x xs (seq r) h (k e) in ground (arith, a, order)
              | inr e ↦ ground (arith, order)
            ]

        kept :
            (r : A)
            → has_seq (x ∷ xs) (seq r) ≡ true
            → outside (last_seq_of x xs + 1) to (seq r) ≡ true
        kept r k = let a = in_window rest x xs (seq r) h k in ground (arith, a)

    pub window-Covered :
        (rows made : List A)
        → Covered (x ∷ xs ++ rest) from to rows
        → All (λ r. has_seq (x ∷ xs) (seq r) ≡ true) made
        → Covered rest
            (last_seq_of x xs + 1)
            to
            (keep (λ r. outside x.seq (last_seq_of x xs) (seq r)) rows ++ made)
    window-Covered rows made c m =
        All-append _ _ made (keep-All _ _ rows (All-imp rows moved c)) (All-imp made none_left m)
      where
        moved :
            (r : A)
            → (in_range from to (seq r) ≡ true → has_seq (x ∷ xs ++ rest) (seq r) ≡ true)
            → in_range (last_seq_of x xs + 1) to (seq r) ≡ true
            → has_seq rest (seq r) ≡ true
        moved r k e =
            let order = first-le-last rest x xs h in
            behind_window rest x xs (seq r) h (k (ground (arith, order))) (ground arith)

        none_left :
            (r : A)
            → has_seq (x ∷ xs) (seq r) ≡ true
            → in_range (last_seq_of x xs + 1) to (seq r) ≡ true
            → has_seq rest (seq r) ≡ true
        none_left r k e = let a = in_window rest x xs (seq r) h k in ground (arith, a)
