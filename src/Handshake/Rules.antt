-- ===== src/Handshake/Rules.antt =====
-- What the rules of domain/handshake/rules.go decide.
use tccelta.Common.{ℕ, ◌+◌, ◌%◌, ◌≤◌, ◌<◌, ◌≡◌, ◌⊎◌, true, Option, none, some, ok, err, arith}
use tccelta.Common.Bytes.{IsU32}
use tccelta.Common.Int.{ℤ, ◌-ℤ◌, ◌≤ℤ◌, -ℤ_parts}
use tccelta.Ingestion.Generation.{assign_generation}
use tccelta.Handshake.{
  inconsistent_response, Range, State, apply_tail, evaluate_anchor, handshake_generation,
  truncate_micro, micro_ceiling,
}

-- How an accepted tail fixes the ACK and the loss.
pub record TailRule (e : State) (tail ack : ℕ) (loss : Option Range) : Type 0 where
  pub keeps : e.contiguous_seq ≤ ack
  pub reaches : tail ≤ ack + 1
  pub no_loss : loss ≡ none → ack ≡ e.contiguous_seq
  pub lost :
      (l : Range)
      → loss ≡ some l
      → (l.start ≡ e.contiguous_seq + 1) × (l.end ≡ ack) × (l.start ≤ l.end) × (ack + 1 ≡ tail)

-- When a response with a tail of 32 bits is accepted, the new ACK is not below the confirmed seq and
-- at least tail - 1. Without a loss it is the confirmed seq; a loss runs from the seq behind the
-- confirmed one to the new ACK, which then is tail - 1.
pub apply_tail_rule :
    (e : State) (tail head ack : ℕ) (loss : Option Range)
    → IsU32 tail
    → IsU32 e.contiguous_seq
    → apply_tail e tail head ≡ ok (ack, loss)
    → TailRule e tail ack loss
unfolding apply_tail
apply_tail_rule e tail head ack loss ht hc h = record {
  keeps = ground arith;
  reaches = ground arith;
  no_loss = λ n. ground arith;
  lost = λ l s. ground arith;
}

-- A response is refused as inconsistent exactly if its tail lies beyond head + 1 or its head lies
-- below the stored one.
pub apply_tail_refuses :
    (e : State) (tail head : ℕ)
    → ((apply_tail e tail head ≡ err inconsistent_response)
        → ((head + 1 < tail) ⊎ (head < e.head_seq)))
      × ((head + 1 < tail) ⊎ (head < e.head_seq)
          → apply_tail e tail head ≡ err inconsistent_response)
unfolding apply_tail
apply_tail_refuses e tail head = (λ h. ground arith, λ h. ground arith)

-- The handshake infers the generation that the ingestion will assign to a block of this boot.
pub handshake_generation-assign_generation :
    (e : State) (boot_id : ℕ)
    → handshake_generation e boot_id
      ≡ (assign_generation e.boot_generation e.last_boot_id boot_id).0
unfolding handshake_generation assign_generation
handshake_generation-assign_generation e boot_id = ground arith

-- The two roundings give the multiples of a microsecond next to `t` on either side.
pub micro_bounds :
    (t : ℕ)
    → (truncate_micro t ≤ t)
      × (t < truncate_micro t + 1000)
      × (truncate_micro t % 1000 ≡ 0)
      × (t ≤ micro_ceiling t)
      × (micro_ceiling t < t + 1000)
      × (micro_ceiling t % 1000 ≡ 0)
unfolding truncate_micro micro_ceiling
micro_bounds t = ground arith

-- An anchor is good exactly if 0 ≤ s2 - s1 ≤ max, and the alert says exactly that s2 < s1.
pub evaluate_anchor_iff :
    (s1 s2 max : ℤ)
    → (((evaluate_anchor s1 s2 max).0 ≡ true) → (s1 ≤ℤ s2) × (s2 -ℤ s1 ≤ℤ max))
      × ((s1 ≤ℤ s2) → (s2 -ℤ s1 ≤ℤ max) → (evaluate_anchor s1 s2 max).0 ≡ true)
      × (((evaluate_anchor s1 s2 max).1 ≡ true) → ¬ (s1 ≤ℤ s2))
      × (¬ (s1 ≤ℤ s2) → (evaluate_anchor s1 s2 max).1 ≡ true)
unfolding evaluate_anchor
evaluate_anchor_iff s1 s2 max =
    let parts = -ℤ_parts s2 s1 in
    (λ h. ground arith, λ p q. ground arith, λ h. ground arith, λ h. ground arith)
