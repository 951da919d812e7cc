-- ===== src/Handshake.antt =====
-- backend/internal/domain/handshake: the pure rules of the challenge and the response.
pub mod Rules
mod Examples
use tccelta.Common.{
  ℕ, suc, ◌+◌, ◌-◌, ◌*◌, ◌/◌, ◌%◌, ◌^◌, ◌≤◌, ◌<◌, ◌≡◌, ◌≢◌, ◌⊎◌, inl, inr, Bool, true, false, not,
  ◌&&◌, ◌||◌, Option, none, some, Result, ok, err, ltb, leb, ◌==◌, if◌then◌else◌, arith,
}
use tccelta.Common.Bytes.{IsU16, IsU32}
use tccelta.Common.Int.{ℤ, pos, negsuc, pos_part, neg_part, ◌-ℤ◌, ◌≤ℤ◌, ltb_ℤ, -ℤ_parts}
use tccelta.Ingestion.Generation.{assign_generation}

pub data Error : Type 0 where
  pending_challenges invalid_challenge stale_cs invalid_tag inconsistent_response : Error

-- A closed range of seqs.
pub record Range : Type 0 where
  pub start : ℕ  -- uint32
  pub end : ℕ  -- uint32

pub record State : Type 0 where
  pub contiguous_seq : ℕ  -- uint32
  pub head_seq : ℕ  -- uint32
  pub c_conf : ℕ  -- uint32
  pub boot_generation : ℕ  -- uint16
  pub last_boot_id : ℕ  -- uint16

-- ApplyTail: the tests are made on uint64, the new values on uint32.
unfoldable pub apply_tail : State → ℕ → ℕ → Result Error (ℕ × Option Range)
apply_tail e tail head =
    if ltb (head + 1) tail || ltb head e.head_seq
    then err inconsistent_response
    else let ack = e.contiguous_seq in
      let last = (tail + (2 ^ 32 - 1)) % 2 ^ 32 in
      if ltb (ack + 1) tail
      then ok (last, some (record { start = (ack + 1) % 2 ^ 32; end = last }))
      else ok (ack, none)

-- A duration and an instant count nanoseconds. EvaluateAnchor: is the anchor good, and has the
-- clock of the server gone back?
unfoldable pub evaluate_anchor : ℤ → ℤ → ℤ → Bool × Bool
evaluate_anchor s1 s2 max =
    let rtt = s2 -ℤ s1 in if ltb_ℤ rtt (pos 0) then (false, true) else (not (ltb_ℤ max rtt), false)

-- HandshakeGeneration
unfoldable pub handshake_generation : State → ℕ → ℕ
handshake_generation e boot_id =
    if boot_id == 0 || leb e.last_boot_id boot_id
    then e.boot_generation
    else (e.boot_generation + 1) % 2 ^ 16

-- TruncateMicro and MicroCeiling, on the nanoseconds since Go's zero time.
unfoldable pub truncate_micro : ℕ → ℕ
truncate_micro t = t - t % 1000

unfoldable pub micro_ceiling : ℕ → ℕ
micro_ceiling t = let r = truncate_micro t in if ltb r t then r + 1000 else r
