-- ===== src/Ingestion/Apply/Steps.antt =====
-- One round of the loop of Apply: what it accepts, and what it leaves when it ends the loop.
use tccelta.Common.{
  ℕ, ◌+◌, ◌^◌, ◌≤◌, ◌<◌, ◌≡◌, Bool, false, ◌&&◌, ◌||◌, List, [], ◌∷◌, ◌++◌, Option, none, some, ltb,
  leb, ◌==◌, arith,
}
use tccelta.Protocol.Block.{Block}
use tccelta.Protocol.Records.{Content, MarkerRecord}
use tccelta.Ingestion.Generation.{assign_generation}
use tccelta.Ingestion.{
  Mark, plain, boot, loss, Cause, cause_boot, cause_loss, Accepted, GapOut, ApplyResult,
}
use tccelta.Ingestion.Apply.{go, assign, boot_round, loss_round, data_round}

-- Is `s` the seq of an accepted block?
unfoldable pub has_seq : ℕ → List Accepted → Bool
has_seq s [] = false
has_seq s (a ∷ as') = (a.b.hdr.seq == s) || has_seq s as'

-- Does `s` lie in a gap?
unfoldable pub in_gap : ℕ → List GapOut → Bool
in_gap s [] = false
in_gap s (x ∷ xs) = (leb x.from s && leb s x.to) || in_gap s xs

has_seq-snoc :
    (s : ℕ) (xs : List Accepted) (a : Accepted)
    → has_seq s (xs ++ a ∷ []) ≡ (has_seq s xs || (a.b.hdr.seq == s))
unfolding has_seq
has_seq-snoc s [] a = ground arith
has_seq-snoc s (x ∷ xs) a = ground (arith, has_seq-snoc s xs a)

in_gap-snoc :
    (s : ℕ) (xs : List GapOut) (x : GapOut)
    → in_gap s (xs ++ x ∷ []) ≡ (in_gap s xs || (leb x.from s && leb s x.to))
unfolding in_gap
in_gap-snoc s [] x = ground arith
in_gap-snoc s (y ∷ xs) x = ground (arith, in_gap-snoc s xs x)

-- The seqs that a result accounts for: received, or recorded as lost.
abbrev pub covers : ApplyResult → ℕ → Bool
covers r s = has_seq s r.accepted || in_gap s r.gaps

-- The accepted seqs rise from above `lo` and stay below `hi`.
abbrev pub Rises : ℕ → List Accepted → ℕ → Type 0
Rises lo [] hi = lo < hi
Rises lo (a ∷ xs) hi = (lo < a.b.hdr.seq) × Rises a.b.hdr.seq xs hi

pub Rises-snoc :
    (lo : ℕ) (xs : List Accepted) (a : Accepted) (hi hi' : ℕ)
    → Rises lo xs hi
    → hi ≤ a.b.hdr.seq
    → a.b.hdr.seq < hi'
    → Rises lo (xs ++ a ∷ []) hi'
Rises-snoc lo [] a hi hi' h e f = (omega arith, f)
Rises-snoc lo (x ∷ xs) a hi hi' h e f = (h.0, Rises-snoc x.b.hdr.seq xs a hi hi' h.1 e f)

-- A round that goes on from `exp` to `exp'` covers exactly the seqs between them, and keeps the
-- accepted seqs in rising order.
pub record Advances (exp exp' : ℕ) (r r' : ApplyResult) : Type 0 where
  pub forward : exp ≤ exp'
  pub fits : exp < 2 ^ 32 → exp' < 2 ^ 32
  pub fills : (s : ℕ) → covers r' s ≡ (covers r s || (leb exp s && ltb s exp'))
  pub rises : (lo : ℕ) → Rises lo r.accepted exp → Rises lo r'.accepted exp'

-- What a round leaves alone when it ends the loop.
pub record Keeps (r r' : ApplyResult) : Type 0 where
  pub accepted : r'.accepted ≡ r.accepted
  pub gaps : r'.gaps ≡ r.gaps
  pub g : r'.g ≡ r.g
  pub u : r'.u ≡ r.u

abbrev pub accepted_as : Block → Content → ℕ → Mark → Accepted
accepted_as b c generation mark = record {
  b = b;
  content = c;
  generation = generation;
  mark = mark;
}

abbrev pub gap_as : ℕ → ℕ → Block → Cause → GapOut
gap_as from to b cause = record { from = from; to = to; block_seq = b.hdr.seq; cause = cause }

-- A block accepted at the end keeps the order.
Rises-at :
    (exp exp' : ℕ) (a : Accepted) (r r' : ApplyResult)
    → r'.accepted ≡ r.accepted ++ a ∷ []
    → exp ≤ a.b.hdr.seq
    → a.b.hdr.seq < exp'
    → (lo : ℕ) → Rises lo r.accepted exp
    → Rises lo r'.accepted exp'
Rises-at exp exp' a r r' e low high lo rise =
    rw e (Rises-snoc lo r.accepted a exp exp' rise low high)

module _ (exp : ℕ) (b : Block) (c : Content) (m : MarkerRecord) (r r' : ApplyResult) (exp' : ℕ)
    (low : exp ≤ b.hdr.seq) (seq_fits : b.hdr.seq + 1 < 2 ^ 32)
    (to_fits : m.to_seq + 1 < 2 ^ 32) where
  -- The generation that the block gets.
  abbrev pub boot_generation : ℕ
  boot_generation = (assign_generation r.g r.u b.hdr.boot_id).0

  pub boot-Advances : boot_round exp b c m r ≡ go exp' r' → Advances exp exp' r r'
  unfolding boot_round assign
  boot-Advances h = record {
    forward = ground arith;
    fits = λ _. ground arith;
    fills = λ s. ground (
      arith,
      has_seq-snoc s r.accepted (accepted_as b c boot_generation boot),
      in_gap-snoc s r.gaps (gap_as exp m.to_seq b cause_boot),
    );
    rises =
        Rises-at exp exp' (accepted_as b c boot_generation boot) r r' (ground arith) low
          (ground arith);
  }

  pub loss-Advances : loss_round exp b c m r ≡ go exp' r' → Advances exp exp' r r'
  unfolding loss_round
  loss-Advances h = record {
    forward = ground arith;
    fits = λ _. ground arith;
    fills = λ s. ground (
      arith,
      has_seq-snoc s r.accepted (accepted_as b c r.g loss),
      in_gap-snoc s r.gaps (gap_as m.from_seq m.to_seq b cause_loss),
    );
    rises = Rises-at exp exp' (accepted_as b c r.g loss) r r' (ground arith) low (ground arith);
  }

pub data-Advances :
    (unknown : Option ℕ) (exp : ℕ) (b : Block) (c : Content) (r r' : ApplyResult) (exp' : ℕ)
    → b.hdr.seq ≡ exp
    → exp + 1 < 2 ^ 32
    → data_round unknown b c r ≡ go exp' r'
    → Advances exp exp' r r'
unfolding data_round assign
data-Advances (some p) exp b c r r' exp' e f h = cc
data-Advances none exp b c r r' exp' e f h =
    let gen = (assign_generation r.g r.u b.hdr.boot_id).0 in
    record {
      forward = ground arith;
      fits = λ _. ground arith;
      fills = λ s. ground (arith, has_seq-snoc s r.accepted (accepted_as b c gen plain));
      rises =
          Rises-at exp exp' (accepted_as b c gen plain) r r' (ground arith) (omega arith)
            (ground arith);
    }
