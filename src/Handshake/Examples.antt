-- ===== src/Handshake/Examples.antt =====
-- The rules of the handshake at concrete states.
use tccelta.Common.{◌≡◌, refl, Option, some, ok, arith}
use tccelta.Handshake.{State, Range, apply_tail}
use tccelta.Handshake.Rules.{TailRule, apply_tail_rule}

abbrev state : State
state = record {
  contiguous_seq = 40;
  head_seq = 80;
  c_conf = 6;
  boot_generation = 2;
  last_boot_id = 9;
}

-- The blocks 41 to 59 are lost.
abbrev lost : Option Range
lost = some (record { start = 41; end = 59 })

tail_overflow : apply_tail state 60 90 ≡ ok (59, lost)
unfolding apply_tail
tail_overflow = refl

apply_tail_rule_example : TailRule state 60 59 lost
apply_tail_rule_example =
    apply_tail_rule state 60 90 59 lost (omega arith) (omega arith) tail_overflow
