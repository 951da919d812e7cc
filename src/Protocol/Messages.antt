-- ===== src/Protocol/Messages.antt =====
-- protocol/messages.go: the messages 0x01 Challenge, 0x02 Response and 0x04 Ack.
pub mod Challenge
pub mod Response
pub mod Ack
use tccelta.Common.{ℕ, ◌*◌, ◌/◌, ◌%◌}

-- flags&1 and flags&^1
abbrev pub low_flag : ℕ → ℕ
low_flag flags = flags % 2

abbrev pub high_flags : ℕ → ℕ
high_flags flags = flags / 2 * 2
