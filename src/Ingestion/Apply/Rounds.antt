-- ===== src/Ingestion/Apply/Rounds.antt =====
-- The whole round of the loop of Apply, by the cases of the code.
use tccelta.Common.{
  ℕ, ◌+◌, ◌^◌, ◌≤◌, ◌<◌, ◌≡◌, inl, inr, refl, not, ◌||◌, Option, none, some, Result, ok, err, ltb,
  ◌==◌, arith, Bool-cases,
}
use tccelta.Protocol.{Error}
use tccelta.Protocol.Block.{Block}
use tccelta.Protocol.Records.{Content, MarkerRecord, reg_boot, read_records}
use tccelta.Ingestion.{BlockIn, seq_of, ApplyResult}
use tccelta.Ingestion.Apply.{
  dec32, Round, go, stop, boot_round, loss_round, first_unknown, data_round, content_round,
  read_round, round,
}
use tccelta.Ingestion.Apply.Steps.{Advances, Keeps, boot-Advances, loss-Advances, data-Advances}

-- The block and the end of its marker stay below the last uint32, so `seq + 1` does not wrap.
pub record NoWrap (x : BlockIn) : Type 0 where
  pub seq_fits : seq_of x + 1 < 2 ^ 32
  pub to_fits :
      (c : Content) (m : MarkerRecord)
      → read_records x.b.payload ≡ ok c
      → c.marker ≡ some m
      → m.to_seq + 1 < 2 ^ 32

pub Advances-refl : (exp : ℕ) (r r' : ApplyResult) → Keeps r r' → Advances exp exp r r'
Advances-refl exp r r' k = record {
  forward = omega arith;
  fits = λ h. h;
  fills = λ s. ground arith;
  rises = λ lo rise. rw k.accepted rise;
}

module _ (exp : ℕ) (b : Block) (c : Content) (m : MarkerRecord) (r r' : ApplyResult) (exp' : ℕ)
    (seq_fits : b.hdr.seq + 1 < 2 ^ 32) (to_fits : m.to_seq + 1 < 2 ^ 32) where
  boot_passes : boot_round exp b c m r ≡ go exp' r' → b.hdr.seq < exp'
  unfolding boot_round
  boot_passes h = ground arith

  loss_passes : loss_round exp b c m r ≡ go exp' r' → b.hdr.seq < exp'
  unfolding loss_round
  loss_passes h = ground arith

data_passes :
    (unknown : Option ℕ) (b : Block) (c : Content) (r r' : ApplyResult) (exp' : ℕ)
    → b.hdr.seq + 1 < 2 ^ 32
    → data_round unknown b c r ≡ go exp' r'
    → b.hdr.seq < exp'
unfolding data_round
data_passes (some p) b c r r' exp' f h = cc
data_passes none b c r r' exp' f h = ground arith

-- A round that goes on advances, and its block lies below the new `exp`.
abbrev pub Goes : ℕ → ℕ → ℕ → ApplyResult → ApplyResult → Type 0
Goes seq exp exp' r r' = Advances exp exp' r r' × (seq < exp')

module _ {D : Type 0} (cat : ℕ → Option D) where
  content-Goes :
      (exp : ℕ) (b : Block) (c : Content) (marker : Option MarkerRecord) (r r' : ApplyResult)
      (exp' : ℕ)
      → exp ≤ b.hdr.seq
      → b.hdr.seq + 1 < 2 ^ 32
      → ((m : MarkerRecord) → marker ≡ some m → m.to_seq + 1 < 2 ^ 32)
      → content_round cat exp b c marker r ≡ go exp' r'
      → Goes b.hdr.seq exp exp' r r'
  unfolding content_round
  content-Goes exp b c (some m) r r' exp' low f t h = elim (Bool-cases (m.kind == reg_boot)) [
    | inl e ↦
        let h' : boot_round exp b c m r ≡ go exp' r' = rw e at h in
        (
          boot-Advances exp b c m r r' exp' low f (t m refl) h',
          boot_passes exp b c m r r' exp' f (t m refl) h',
        )
    | inr e ↦
        let h' : loss_round exp b c m r ≡ go exp' r' = rw e at h in
        (
          loss-Advances exp b c m r r' exp' low f (t m refl) h',
          loss_passes exp b c m r r' exp' f (t m refl) h',
        )
  ]
  content-Goes exp b c none r r' exp' low f t h =
      let same : b.hdr.seq ≡ exp = ground arith in
      let h' : data_round (first_unknown cat c.pids) b c r ≡ go exp' r' = ground arith in
      (
        data-Advances (first_unknown cat c.pids) exp b c r r' exp' same (omega arith) h',
        data_passes (first_unknown cat c.pids) b c r r' exp' f h',
      )

  read-Goes :
      (exp : ℕ) (b : Block) (res : Result Error Content) (r r' : ApplyResult) (exp' : ℕ)
      → exp ≤ b.hdr.seq
      → b.hdr.seq + 1 < 2 ^ 32
      → ((c : Content) (m : MarkerRecord) → res ≡ ok c → c.marker ≡ some m → m.to_seq + 1 < 2 ^ 32)
      → read_round cat exp b res r ≡ go exp' r'
      → Goes b.hdr.seq exp exp' r r'
  unfolding read_round
  read-Goes exp b (err e) r r' exp' low f t h = cc
  read-Goes exp b (ok c) r r' exp' low f t h =
      content-Goes exp b c c.marker r r' exp' low f (λ m. t c m refl) h

  pub round-Goes :
      (exp : ℕ) (x : BlockIn) (r r' : ApplyResult) (exp' : ℕ)
      → NoWrap x
      → round cat exp x r ≡ go exp' r'
      → Goes (seq_of x) exp exp' r r'
  unfolding round
  round-Goes exp x r r' exp' n h = elim (Bool-cases (ltb (seq_of x) exp)) [
    | inl e ↦
        let same : exp ≡ exp' = ground arith in
        let k : Keeps r r' = ground arith in
        (subst_exp same (Advances-refl exp r r' k), ground arith)
    | inr e ↦
        let h' : read_round cat exp x.b (read_records x.b.payload) r ≡ go exp' r' = ground arith in
        read-Goes exp x.b (read_records x.b.payload) r r' exp' (ground arith) n.seq_fits n.to_fits
          h'
  ]
    where
      subst_exp : exp ≡ exp' → Advances exp exp r r' → Advances exp exp' r r'
      subst_exp e a = rw (← e) a

-- Two rounds at one block from two results: both go on, or both end the loop and keep what each
-- had accepted.
abbrev pub Alike : ApplyResult → ApplyResult → Round → Round → Type 0
Alike r s (go e r') (go f s') = Unit
Alike r s (stop r') (stop s') = Keeps r r' × Keeps s s'
Alike r s (go e r') (stop s') = ⊥
Alike r s (stop r') (go f s') = ⊥

kept :
    (r r' : ApplyResult)
    → r'.accepted ≡ r.accepted
    → r'.gaps ≡ r.gaps
    → r'.g ≡ r.g
    → r'.u ≡ r.u
    → Keeps r r'
kept r r' a g h u = record { accepted = a; gaps = g; g = h; u = u }

module _ (exp : ℕ) (b : Block) (c : Content) (m : MarkerRecord) (r s : ApplyResult) where
  boot-Alike : Alike r s (boot_round exp b c m r) (boot_round exp b c m s)
  unfolding boot_round
  boot-Alike =
      elim (Bool-cases
        (not (m.to_seq == dec32 b.hdr.seq) || ltb exp m.from_seq || ltb b.hdr.seq exp)) [
          | inl e ↦ rw e (kept r _ refl refl refl refl, kept s _ refl refl refl refl)
          | inr e ↦ rw e tt
        ]

  loss-Alike : Alike r s (loss_round exp b c m r) (loss_round exp b c m s)
  unfolding loss_round
  loss-Alike =
      elim (Bool-cases
        (not (m.from_seq == exp) || ltb b.hdr.seq m.from_seq || ltb m.to_seq b.hdr.seq)) [
          | inl e ↦ rw e (kept r _ refl refl refl refl, kept s _ refl refl refl refl)
          | inr e ↦ rw e tt
        ]

data-Alike :
    (unknown : Option ℕ) (b : Block) (c : Content) (r s : ApplyResult)
    → Alike r s (data_round unknown b c r) (data_round unknown b c s)
unfolding data_round
data-Alike (some p) b c r s = (kept r _ refl refl refl refl, kept s _ refl refl refl refl)
data-Alike none b c r s = tt

module _ {D : Type 0} (cat : ℕ → Option D) where
  content-Alike :
      (exp : ℕ) (b : Block) (c : Content) (marker : Option MarkerRecord) (r s : ApplyResult)
      → Alike r s (content_round cat exp b c marker r) (content_round cat exp b c marker s)
  unfolding content_round
  content-Alike exp b c (some m) r s = elim (Bool-cases (m.kind == reg_boot)) [
    | inl e ↦ rw e (boot-Alike exp b c m r s)
    | inr e ↦ rw e (loss-Alike exp b c m r s)
  ]
  content-Alike exp b c none r s = elim (Bool-cases (b.hdr.seq == exp)) [
    | inl e ↦ rw e (data-Alike (first_unknown cat c.pids) b c r s)
    | inr e ↦ rw e (kept r _ refl refl refl refl, kept s _ refl refl refl refl)
  ]

  read-Alike :
      (exp : ℕ) (b : Block) (res : Result Error Content) (r s : ApplyResult)
      → Alike r s (read_round cat exp b res r) (read_round cat exp b res s)
  unfolding read_round
  read-Alike exp b (err e) r s = (kept r _ refl refl refl refl, kept s _ refl refl refl refl)
  read-Alike exp b (ok c) r s = content-Alike exp b c c.marker r s

  pub round-Alike :
      (exp : ℕ) (x : BlockIn) (r s : ApplyResult)
      → Alike r s (round cat exp x r) (round cat exp x s)
  unfolding round
  round-Alike exp x r s = elim (Bool-cases (ltb (seq_of x) exp)) [
    | inl e ↦ rw e tt
    | inr e ↦ elim (Bool-cases x.valid) [
      | inl v ↦ rw (e, v) (read-Alike exp x.b (read_records x.b.payload) r s)
      | inr v ↦ rw (e, v) (kept r _ refl refl refl refl, kept s _ refl refl refl refl)
    ]
  ]
