-- ===== src/Protocol/Builder.antt =====
-- protocol/block.go: BlockBuilder, BuildMarker and BuildBlockTLV.
pub mod RoundTrip
pub mod Blocks
use tccelta.Common.{
  ℕ, ◌+◌, ◌-◌, ◌/◌, ◌%◌, ◌^◌, Bool, true, false, List, [], ◌∷◌, ◌++◌, ltb, if◌then◌else◌, length,
  set,
}
use tccelta.Common.Bytes.{Bytes, byte, append_uint16, append_uint32}
use tccelta.Common.Int.{ℤ}
use tccelta.Common.Words.{uint32_of}
use tccelta.Protocol.{max_data_size, block_type}
use tccelta.Protocol.Tlv.{append_tlv}
use tccelta.Protocol.Records.{reg_gps}

pub record BlockBuilder : Type 0 where
  pub buf : Bytes

-- NewBlockBuilder: the size, in the last two bytes, is still 0.
pub new_block_builder : ℕ → ℕ → ℕ → BlockBuilder
new_block_builder seq boot_id t0_ms = record {
  buf = append_uint32 (append_uint16 (append_uint32 [] seq) boot_id) t0_ms ++ 0 ∷ 0 ∷ [];
}

-- (*BlockBuilder).PID
pub add_pid : BlockBuilder → ℕ → ℕ → ℕ → ℕ → BlockBuilder × Bool
add_pid m pid dt a b =
    if ltb max_data_size (length m.buf + 5)
    then (m, false)
    else (record m { buf = m.buf ++ pid ∷ byte dt ∷ byte (dt / 2 ^ 8) ∷ a ∷ b ∷ [] }, true)

-- (*BlockBuilder).GPS
pub add_gps : BlockBuilder → ℕ → ℤ → ℤ → ℤ → BlockBuilder × Bool
add_gps m dt lat lon alt =
    if ltb max_data_size (length m.buf + 15)
    then (m, false)
    else let head = m.buf ++ reg_gps ∷ byte dt ∷ byte (dt / 2 ^ 8) ∷ [] in
      let buf' =
        append_uint32 (append_uint32 (append_uint32 head (uint32_of lat)) (uint32_of lon))
          (uint32_of alt) in
      (record m { buf = buf' }, true)

-- binary.LittleEndian.PutUint16(b[at:], x)
abbrev pub put_uint16 : Bytes → ℕ → ℕ → Bytes
put_uint16 b i x = set (set b i (byte x)) (i + 1) (byte (x / 2 ^ 8))

-- (*BlockBuilder).Data: `uint16(len(m.buf))` in the bytes 10 and 11.
pub data_of : BlockBuilder → Bytes
data_of m = put_uint16 m.buf 10 (length m.buf % 2 ^ 16)

-- BuildMarker
pub build_marker : ℕ → ℕ → ℕ → ℕ → ℕ → ℕ → Bytes
build_marker seq boot_id t0 kind from to =
    let m = new_block_builder seq boot_id t0 in
    let head = m.buf ++ byte kind ∷ 0 ∷ 0 ∷ [] in
    data_of (record { buf = append_uint32 (append_uint32 head from) to })

-- BuildBlockTLV
pub build_block_tlv : Bytes → Bytes → Bytes
build_block_tlv payload tag = append_tlv [] block_type (payload ++ tag)
