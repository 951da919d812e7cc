-- ===== src/Ingestion/Apply.antt =====
-- domain/ingestion/apply.go: Apply, strict Go-Back-N with the markers BOOT and LOSS. uint32 and
-- uint16 arithmetic wraps.
pub mod Steps
pub mod Rounds
pub mod Coverage
pub mod Resend
pub mod Counted
pub mod Checked
use tccelta.Common.{
  ℕ, suc, ◌+◌, ◌-◌, ◌%◌, ◌^◌, Bool, true, false, not, ◌&&◌, ◌||◌, List, [], ◌∷◌, ◌++◌, Option, none,
  some, Result, ok, err, ltb, leb, ◌==◌, if◌then◌else◌, String,
}
use tccelta.Protocol.{Error}
use tccelta.Protocol.Block.{Block}
use tccelta.Protocol.Records.{Content, MarkerRecord, PidRecord, reg_boot, read_records}
use tccelta.Ingestion.{
  Reason, reason_none, invalid_tag, jump, invalid_marker, unknown_pid, malformed_record, Mark,
  plain, boot, loss, cause_boot, cause_loss, BlockIn, seq_of, StateIn, Accepted, GapOut, Rejection,
  ApplyResult, error_text,
}
use tccelta.Ingestion.Generation.{assign_generation}

-- x + 1 and x - 1 on uint32
abbrev pub inc32 : ℕ → ℕ
inc32 x = (x + 1) % 2 ^ 32

abbrev pub dec32 : ℕ → ℕ
dec32 x = (x + (2 ^ 32 - 1)) % 2 ^ 32

abbrev pub reject : Block → Reason → String → ℕ → ApplyResult → ApplyResult
reject b reason detail pid r = record r {
  rejected = r.rejected ++ record { b = b; reason = reason; detail = detail; pid = pid } ∷ [];
}

-- A `break`: the block is refused and the loop ends for this reason.
abbrev pub refuse : Block → Reason → String → ℕ → ApplyResult → ApplyResult
refuse b reason detail pid r = record (reject b reason detail pid r) { reason = reason }

abbrev pub add_gap : GapOut → ApplyResult → ApplyResult
add_gap x r = record r { gaps = r.gaps ++ x ∷ [] }

abbrev pub accept : Accepted → ApplyResult → ApplyResult
accept a r = record r { accepted = r.accepted ++ a ∷ [] }

-- (*ApplyResult).assign, with the caller's `r.U = ...`
unfoldable pub assign : ℕ → ApplyResult → ApplyResult
unfolding assign_generation
assign boot_id r =
    let (gen, u', advanced) = assign_generation r.g r.u boot_id in
    record r { g = gen; u = u'; generation_advanced = r.generation_advanced || advanced }

-- A round of the loop goes on with a new `exp`, or leaves the loop.
pub data Round : Type 0 where
  go : ℕ → ApplyResult → Round
  stop : ApplyResult → Round

-- `case BOOT`
unfoldable pub boot_round : ℕ → Block → Content → MarkerRecord → ApplyResult → Round
boot_round exp b c m r =
    let seq = b.hdr.seq in
    if not (m.to_seq == dec32 seq) || ltb exp m.from_seq || ltb seq exp
    then stop (refuse b invalid_marker "BOOT fora da regra" 0 r)
    else let gap : GapOut = record {
      from = exp;
      to = m.to_seq;
      block_seq = seq;
      cause = cause_boot;
    } in
      let r' = assign b.hdr.boot_id (if leb exp m.to_seq then add_gap gap r else r) in
      go (inc32 seq) (accept (record { b = b; content = c; generation = r'.g; mark = boot }) r')

-- `case LOSS`
unfoldable pub loss_round : ℕ → Block → Content → MarkerRecord → ApplyResult → Round
loss_round exp b c m r =
    let seq = b.hdr.seq in
    if not (m.from_seq == exp) || ltb seq m.from_seq || ltb m.to_seq seq
    then stop (refuse b invalid_marker "LOSS fora da regra" 0 r)
    else let gap : GapOut = record {
      from = m.from_seq;
      to = m.to_seq;
      block_seq = seq;
      cause = cause_loss;
    } in
      go (inc32 m.to_seq)
        (accept (record { b = b; content = c; generation = r.g; mark = loss }) (add_gap gap r))

-- `default`, behind the test of the catalogue
unfoldable pub data_round : Option ℕ → Block → Content → ApplyResult → Round
data_round (some pid) b c r = stop (refuse b unknown_pid "" pid r)
data_round none b c r =
    let r' = assign b.hdr.boot_id r in
    go (inc32 b.hdr.seq)
      (accept (record { b = b; content = c; generation = r'.g; mark = plain }) r')

-- A catalogue answers with the definition of a PID; Apply only asks whether there is one.
module _ {D : Type 0} (cat : ℕ → Option D) where
  -- The first PID of a block that the catalogue lacks.
  unfoldable pub first_unknown : List PidRecord → Option ℕ
  first_unknown [] = none
  first_unknown (p ∷ ps) = elim (cat p.pid) [ none ↦ some p.pid | some d ↦ first_unknown ps ]

  -- The `switch` on the content.
  unfoldable pub content_round : ℕ → Block → Content → Option MarkerRecord → ApplyResult → Round
  content_round exp b c (some m) r =
      if m.kind == reg_boot then boot_round exp b c m r else loss_round exp b c m r
  content_round exp b c none r =
      if not (b.hdr.seq == exp)
      then stop (record r { reason = jump })
      else data_round (first_unknown c.pids) b c r

  unfoldable pub read_round : ℕ → Block → Result Error Content → ApplyResult → Round
  read_round exp b (err e) r = stop (refuse b malformed_record (error_text e) 0 r)
  read_round exp b (ok c) r = content_round exp b c c.marker r

  -- One round of the loop.
  unfoldable pub round : ℕ → BlockIn → ApplyResult → Round
  round exp x r =
      if ltb (seq_of x) exp
      then go exp (record r { duplicates = suc r.duplicates })
      else if not x.valid
      then stop (record r { reason = invalid_tag })
      else read_round exp x.b (read_records x.b.payload) r

  -- The loop: the result and the last `exp`.
  unfoldable pub apply_loop : ℕ → List BlockIn → ApplyResult → ApplyResult × ℕ
  apply_loop exp [] r = (r, exp)
  apply_loop exp (x ∷ xs) r = elim (round exp x r) [
    | go exp' r' ↦ apply_loop exp' xs r'
    | stop r' ↦ (r', exp)
  ]

  -- The highest seq whose tag was verified and found valid.
  unfoldable pub max_seen_of : List BlockIn → ℕ → ℕ
  max_seen_of [] m = m
  max_seen_of (x ∷ xs) m =
      max_seen_of xs (if x.verified && x.valid && ltb m (seq_of x) then seq_of x else m)

  -- The blocks with a bad tag at `exp` or beyond.
  unfoldable pub bad_tags : ℕ → List BlockIn → List Rejection → List Rejection
  bad_tags exp [] out = out
  bad_tags exp (x ∷ xs) out = bad_tags exp xs (
      if x.verified && not x.valid && leb exp (seq_of x)
      then out ++ record { b = x.b; reason = invalid_tag; detail = ""; pid = 0 } ∷ []
      else out)

  unfoldable pub initial : List BlockIn → StateIn → ApplyResult
  initial blocks e = record {
    accepted = [];
    gaps = [];
    rejected = bad_tags (inc32 e.contiguous_seq) blocks [];
    reason = reason_none;
    new_ack = 0;
    max_seen = max_seen_of blocks 0;
    g = e.g;
    u = e.u;
    duplicates = 0;
    generation_advanced = false;
  }

  -- Apply
  unfoldable pub apply : List BlockIn → StateIn → ApplyResult
  apply blocks e =
      let (r, exp) = apply_loop (inc32 e.contiguous_seq) blocks (initial blocks e) in
      record r { new_ack = dec32 exp }
