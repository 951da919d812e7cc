-- ===== src/Ingestion/Apply/Counted.antt =====
-- Every gap that Apply registers comes with a marker that it accepts.
use tccelta.Common.{
  ℕ, ◌+◌, ◌≤◌, ◌≡◌, ◌⊎◌, refl, Bool-cases, inl, inr, List, [], ◌∷◌, ◌++◌, Option, none, some,
  Result, ok, err, ltb, ◌==◌, length, length-append, arith,
}
use tccelta.Protocol.{Error}
use tccelta.Protocol.Block.{Block}
use tccelta.Protocol.Records.{Content, MarkerRecord, reg_boot, read_records}
use tccelta.Ingestion.{
  BlockIn, seq_of, StateIn, ApplyResult, cause_boot, cause_loss, boot, loss, plain,
}
use tccelta.Ingestion.Apply.{
  inc32, assign, go, boot_round, loss_round, first_unknown, data_round, content_round, read_round,
  round, apply_loop, initial, apply,
}
use tccelta.Ingestion.Generation.{assign_generation}
use tccelta.Ingestion.Apply.Steps.{accepted_as, gap_as}
use tccelta.Ingestion.Apply.Coverage.{Round-cases, loop_go, loop_stop, stop-Keeps}

-- No more gaps than accepted blocks.
abbrev pub Counted : ApplyResult → Type 0
Counted r = length r.gaps ≤ length r.accepted

list_cases : {A : Type 0} (xs : List A) → (xs ≡ []) ⊎ ((x : A) × (ys : List A) × (xs ≡ x ∷ ys))
list_cases [] = inl refl
list_cases (x ∷ xs) = inr (x, xs, refl)

length-snoc : {A : Type 0} (xs : List A) (x : A) → length (xs ++ x ∷ []) ≡ length xs + 1
length-snoc xs x = length-append xs (x ∷ [])

module _ (exp : ℕ) (b : Block) (c : Content) (m : MarkerRecord) (r r' : ApplyResult) (exp' : ℕ)
    (counted : Counted r) where
  boot-Counted : boot_round exp b c m r ≡ go exp' r' → Counted r'
  unfolding boot_round assign
  boot-Counted h =
      let gen = (assign_generation r.g r.u b.hdr.boot_id).0 in
      ground (
        arith,
        length-snoc r.gaps (gap_as exp m.to_seq b cause_boot),
        length-snoc r.accepted (accepted_as b c gen boot),
      )

  loss-Counted : loss_round exp b c m r ≡ go exp' r' → Counted r'
  unfolding loss_round
  loss-Counted h = ground (
    arith,
    length-snoc r.gaps (gap_as m.from_seq m.to_seq b cause_loss),
    length-snoc r.accepted (accepted_as b c r.g loss),
  )

data-Counted :
    (unknown : Option ℕ) (b : Block) (c : Content) (r r' : ApplyResult) (exp' : ℕ)
    → Counted r
    → data_round unknown b c r ≡ go exp' r'
    → Counted r'
unfolding data_round assign
data-Counted (some p) b c r r' exp' counted h = cc
data-Counted none b c r r' exp' counted h =
    let gen = (assign_generation r.g r.u b.hdr.boot_id).0 in
    ground (arith, length-snoc r.accepted (accepted_as b c gen plain))

module _ {D : Type 0} (cat : ℕ → Option D) where
  content-Counted :
      (exp : ℕ) (b : Block) (c : Content) (marker : Option MarkerRecord) (r r' : ApplyResult)
      (exp' : ℕ)
      → Counted r
      → content_round cat exp b c marker r ≡ go exp' r'
      → Counted r'
  unfolding content_round
  content-Counted exp b c (some m) r r' exp' counted h = elim (Bool-cases (m.kind == reg_boot)) [
    | inl e ↦ boot-Counted exp b c m r r' exp' counted (rw e at h)
    | inr e ↦ loss-Counted exp b c m r r' exp' counted (rw e at h)
  ]
  content-Counted exp b c none r r' exp' counted h =
      let h' : data_round (first_unknown cat c.pids) b c r ≡ go exp' r' = ground arith in
      data-Counted (first_unknown cat c.pids) b c r r' exp' counted h'

  read-Counted :
      (exp : ℕ) (b : Block) (res : Result Error Content) (r r' : ApplyResult) (exp' : ℕ)
      → Counted r
      → read_round cat exp b res r ≡ go exp' r'
      → Counted r'
  unfolding read_round
  read-Counted exp b (err e) r r' exp' counted h = cc
  read-Counted exp b (ok c) r r' exp' counted h =
      content-Counted exp b c c.marker r r' exp' counted h

  round-Counted :
      (exp : ℕ) (x : BlockIn) (r r' : ApplyResult) (exp' : ℕ)
      → Counted r
      → round cat exp x r ≡ go exp' r'
      → Counted r'
  unfolding round
  round-Counted exp x r r' exp' counted h = elim (Bool-cases (ltb (seq_of x) exp)) [
    | inl e ↦ ground arith
    | inr e ↦
        let h' : read_round cat exp x.b (read_records x.b.payload) r ≡ go exp' r' = ground arith in
        read-Counted exp x.b (read_records x.b.payload) r r' exp' counted h'
  ]

  loop-Counted :
      (exp : ℕ) (xs : List BlockIn) (r : ApplyResult)
      → Counted r
      → Counted (apply_loop cat exp xs r).0
  loop-Counted exp [] r counted = unfold apply_loop in counted
  loop-Counted exp (x ∷ xs) r counted = elim (Round-cases (round cat exp x r)) [
    | inl (e, r', q) ↦
        rw (loop_go cat exp x xs r e r' q)
          (loop-Counted e xs r' (round-Counted exp x r r' e counted q))
    | inr (r', q) ↦
        let k = stop-Keeps cat exp x xs r r' q in
        rw (loop_stop cat exp x xs r r' q, k.accepted, k.gaps) counted
  ]

  -- A result that accepts nothing registers no gap.
  pub apply_idle :
      (blocks : List BlockIn) (e : StateIn)
      → (apply cat blocks e).accepted ≡ []
      → (apply cat blocks e).gaps ≡ []
  unfolding apply initial
  apply_idle blocks e h =
      let start = inc32 e.contiguous_seq in
      let counted = loop-Counted start blocks (initial cat blocks e) (omega arith) in
      no_more (apply_loop cat start blocks (initial cat blocks e)).0 h counted
    where
      no_more : (r : ApplyResult) → r.accepted ≡ [] → Counted r → r.gaps ≡ []
      no_more r h counted = elim (list_cases r.gaps) [
        | inl e ↦ e
        | inr (x, xs, e) ↦ ground (arith, h, e)
      ]
