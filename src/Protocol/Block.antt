-- ===== src/Protocol/Block.antt =====
-- protocol/block.go: the header of a block (message 0x03) and DecodeBlock.
use tccelta.Common.{
  ℕ, ◌+◌, not, ◌||◌, Result, ok, err, ltb, ◌==◌, if◌then◌else◌, length, take, drop,
}
use tccelta.Common.Bytes.{Bytes, slice, uint16, uint32}
use tccelta.Protocol.{Error, invalid_size, block_header_size, min_data_size, max_data_size}
use tccelta.Protocol.Identity.{Profile}

pub record BlockHeader : Type 0 where
  pub seq : ℕ  -- uint32
  pub boot_id : ℕ  -- uint16
  pub t0_ms : ℕ  -- uint32
  pub size : ℕ  -- uint16

pub record Block : Type 0 where
  pub hdr : BlockHeader
  pub payload : Bytes  -- Data
  pub tag : Bytes

-- The literal of DecodeBlock that reads the 12 bytes.
abbrev pub header_of : Bytes → BlockHeader
header_of v = record {
  seq = uint32 (slice v 0 4);
  boot_id = uint16 (slice v 4 6);
  t0_ms = uint32 (slice v 6 10);
  size = uint16 (slice v 10 12);
}

-- DecodeBlock
unfoldable pub decode_block : Bytes → Profile → Result Error Block
decode_block v p =
    if ltb (length v) block_header_size
    then err invalid_size
    else let hdr = header_of v in
      let t = hdr.size in
      if ltb t min_data_size || ltb max_data_size t || not (length v == t + p.block_tag_size)
      then err invalid_size
      else ok (record { hdr = hdr; payload = take t v; tag = drop t v })
