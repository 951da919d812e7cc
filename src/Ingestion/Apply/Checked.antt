-- ===== src/Ingestion/Apply/Checked.antt =====
-- Apply accepts only blocks whose tag is valid.
use tccelta.Common.{
  ℕ, ◌≡◌, ◌⊎◌, refl, true, Bool-cases, inl, inr, List, [], ◌∷◌, ◌++◌, Option, none, some, Result,
  ok, err, ltb, ◌==◌, All, All-append, arith,
}
use tccelta.Protocol.{Error}
use tccelta.Protocol.Block.{Block}
use tccelta.Protocol.Records.{Content, MarkerRecord, reg_boot, read_records}
use tccelta.Ingestion.{BlockIn, seq_of, StateIn, ApplyResult, Accepted, boot, loss, plain}
use tccelta.Ingestion.Generation.{assign_generation}
use tccelta.Ingestion.Apply.{
  inc32, assign, go, boot_round, loss_round, first_unknown, data_round, content_round, read_round,
  round, apply_loop, initial, apply,
}
use tccelta.Ingestion.Apply.Steps.{accepted_as}
use tccelta.Ingestion.Apply.Coverage.{Round-cases, loop_go, loop_stop, stop-Keeps}

-- The block is accepted.
abbrev Adds : Block → ApplyResult → ApplyResult → Type 0
Adds b r r' = (a : Accepted) × (a.b ≡ b) × (r'.accepted ≡ r.accepted ++ a ∷ [])

module _ (exp : ℕ) (b : Block) (c : Content) (m : MarkerRecord) (r r' : ApplyResult)
    (exp' : ℕ) where
  boot-Adds : boot_round exp b c m r ≡ go exp' r' → Adds b r r'
  unfolding boot_round assign
  boot-Adds h =
      (accepted_as b c (assign_generation r.g r.u b.hdr.boot_id).0 boot, refl, ground arith)

  loss-Adds : loss_round exp b c m r ≡ go exp' r' → Adds b r r'
  unfolding loss_round
  loss-Adds h = (accepted_as b c r.g loss, refl, ground arith)

data-Adds :
    (unknown : Option ℕ) (b : Block) (c : Content) (r r' : ApplyResult) (exp' : ℕ)
    → data_round unknown b c r ≡ go exp' r'
    → Adds b r r'
unfolding data_round assign
data-Adds (some p) b c r r' exp' h = cc
data-Adds none b c r r' exp' h =
    (accepted_as b c (assign_generation r.g r.u b.hdr.boot_id).0 plain, refl, ground arith)

module _ {D : Type 0} (cat : ℕ → Option D) where
  content-Adds :
      (exp : ℕ) (b : Block) (c : Content) (marker : Option MarkerRecord) (r r' : ApplyResult)
      (exp' : ℕ)
      → content_round cat exp b c marker r ≡ go exp' r'
      → Adds b r r'
  unfolding content_round
  content-Adds exp b c (some m) r r' exp' h = elim (Bool-cases (m.kind == reg_boot)) [
    | inl e ↦ boot-Adds exp b c m r r' exp' (rw e at h)
    | inr e ↦ loss-Adds exp b c m r r' exp' (rw e at h)
  ]
  content-Adds exp b c none r r' exp' h =
      let h' : data_round (first_unknown cat c.pids) b c r ≡ go exp' r' = ground arith in
      data-Adds (first_unknown cat c.pids) b c r r' exp' h'

  read-Adds :
      (exp : ℕ) (b : Block) (res : Result Error Content) (r r' : ApplyResult) (exp' : ℕ)
      → read_round cat exp b res r ≡ go exp' r'
      → Adds b r r'
  unfolding read_round
  read-Adds exp b (err e) r r' exp' h = cc
  read-Adds exp b (ok c) r r' exp' h = content-Adds exp b c c.marker r r' exp' h

  round-Adds :
      (exp : ℕ) (x : BlockIn) (r r' : ApplyResult) (exp' : ℕ)
      → round cat exp x r ≡ go exp' r'
      → (r'.accepted ≡ r.accepted) ⊎ ((x.valid ≡ true) × Adds x.b r r')
  unfolding round
  round-Adds exp x r r' exp' h = elim (Bool-cases (ltb (seq_of x) exp)) [
    | inl e ↦ inl (ground arith)
    | inr e ↦ elim (Bool-cases x.valid) [
      | inr f ↦ ground arith
      | inl f ↦
          let h' : read_round cat exp x.b (read_records x.b.payload) r ≡ go exp' r' =
            ground arith in
          inr (f, read-Adds exp x.b (read_records x.b.payload) r r' exp' h')
    ]
  ]

  module _ (P : ℕ → Type 0) where
    abbrev IsIn : ApplyResult → Type 0
    IsIn r = All (λ a. P a.b.hdr.seq) r.accepted

    round-IsIn :
        (exp : ℕ) (x : BlockIn) (r r' : ApplyResult) (exp' : ℕ)
        → (x.valid ≡ true → P (seq_of x))
        → IsIn r
        → round cat exp x r ≡ go exp' r'
        → IsIn r'
    round-IsIn exp x r r' exp' given held h = elim (round-Adds exp x r r' exp' h) [
      | inl e ↦ rw e held
      | inr (v, (a, same, e)) ↦
          let new : P a.b.hdr.seq = rw same (given v) in
          rw e (All-append _ r.accepted (a ∷ []) held (new, tt))
    ]

    loop-IsIn :
        (exp : ℕ) (xs : List BlockIn) (r : ApplyResult)
        → All (λ x. x.valid ≡ true → P (seq_of x)) xs
        → IsIn r
        → IsIn (apply_loop cat exp xs r).0
    loop-IsIn exp [] r given held = unfold apply_loop in held
    loop-IsIn exp (x ∷ xs) r (g, given) held = elim (Round-cases (round cat exp x r)) [
      | inl (e, r', q) ↦
          rw (loop_go cat exp x xs r e r' q)
            (loop-IsIn e xs r' given (round-IsIn exp x r r' e g held q))
      | inr (r', q) ↦
          let k = stop-Keeps cat exp x xs r r' q in
          rw (loop_stop cat exp x xs r r' q, k.accepted) held
    ]

    -- What holds of the seqs of the blocks with a valid tag holds of all that are accepted.
    pub apply-All :
        (blocks : List BlockIn) (e : StateIn)
        → All (λ x. x.valid ≡ true → P (seq_of x)) blocks
        → All (λ a. P a.b.hdr.seq) (apply cat blocks e).accepted
    unfolding apply initial
    apply-All blocks e given =
        loop-IsIn (inc32 e.contiguous_seq) blocks (initial cat blocks e) given tt
