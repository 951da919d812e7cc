-- ===== src/Protocol/Messages/Ack.antt =====
-- protocol/messages.go: the message 0x04, from the server to the dongle.
use tccelta.Common.{
  ℕ, ◌<◌, ◌≡◌, not, [], ◌∷◌, ◌++◌, Result, ok, err, ◌==◌, if◌then◌else◌, length, drop, arith,
}
use tccelta.Common.Bytes.{Bytes, at, slice, uint32, append_uint32, IsU32, uint32-bytes}
use tccelta.Protocol.{Error, invalid_size, reserved_flags, ack_type, l_ack}
use tccelta.Protocol.Tlv.{append_tlv}
use tccelta.Protocol.Messages.{high_flags}

pub record Ack : Type 0 where
  pub ack_seq : ℕ  -- uint32
  pub cconf : ℕ  -- uint32
  pub flags : ℕ  -- uint8

-- FlagAckAnchorFailed
abbrev pub flag_ack_anchor_failed : ℕ
flag_ack_anchor_failed = 1

-- Payload
unfoldable pub payload : Ack → Bytes
payload a = append_uint32 (append_uint32 [] a.ack_seq) a.cconf ++ a.flags ∷ []

-- Build
unfoldable pub build : Ack → Bytes → Bytes
build a tag = append_tlv [] ack_type (payload a ++ tag)

-- The fields that DecodeAck reads.
abbrev pub fields_of : Bytes → Ack
fields_of v = record {
  ack_seq = uint32 (slice v 0 4);
  cconf = uint32 (slice v 4 8);
  flags = at v 8;
}

-- DecodeAck
unfoldable pub decode : Bytes → Result Error (Ack × Bytes)
decode v =
    if not (length v == l_ack)
    then err invalid_size
    else let a = fields_of v in
      if not (high_flags a.flags == 0) then err reserved_flags else ok (a, drop 9 v)

pub record IsAck (a : Ack) : Type 0 where
  pub ack_seq : IsU32 a.ack_seq
  pub cconf : IsU32 a.cconf
  pub flags : a.flags < 2

-- A message and its tag of 16 bytes are read back.
pub decode_ack-payload :
    (a : Ack) (tag : Bytes) → IsAck a → length tag ≡ 16 → decode (payload a ++ tag) ≡ ok (a, tag)
unfolding decode payload
decode_ack-payload a tag h n =
    let e = uint32-bytes a.ack_seq h.ack_seq in let f = uint32-bytes a.cconf h.cconf in ground arith
