-- ===== src/Protocol.antt =====
-- backend/internal/domain/protocol: the binary messages 0x01 to 0x04, the records of a block and
-- the input of the HMAC. This file has what the parts share: sizes, types and errors (tlv.go).
pub mod Identity
pub mod Tlv
pub mod Block
pub mod Records
pub mod Builder
pub mod Messages
pub mod Signature
mod Examples
use tccelta.Common.{ℕ, ◌+◌}

-- The errors that tlv.go exports. `stuck` is no Go value: a loop of the model ran out of fuel.
pub data Error : Type 0 where
  tlv_short tlv_length unexpected_type empty_batch batch_too_large invalid_size : Error
  malformed_record marker_with_others reserved_flags invalid_dev_id unknown_profile stuck : Error

-- The T byte of an envelope.
abbrev pub challenge_type : ℕ
challenge_type = 0x01

abbrev pub response_type : ℕ
response_type = 0x02

abbrev pub block_type : ℕ
block_type = 0x03

abbrev pub ack_type : ℕ
ack_type = 0x04

-- The fixed sizes.
abbrev pub auth_tag_size : ℕ
auth_tag_size = 16

abbrev pub block_header_size : ℕ
block_header_size = 12

abbrev pub min_data_size : ℕ
min_data_size = 17

abbrev pub max_data_size : ℕ
max_data_size = 1024

abbrev pub marker_size : ℕ
marker_size = 11

abbrev pub marker_block_size : ℕ
marker_block_size = block_header_size + marker_size

abbrev pub l_challenge : ℕ
l_challenge = 45

abbrev pub l_challenge_diag : ℕ
l_challenge_diag = 47

abbrev pub l_response : ℕ
l_response = 50

abbrev pub l_ack : ℕ
l_ack = 25
