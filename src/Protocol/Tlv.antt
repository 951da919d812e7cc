-- ===== src/Protocol/Tlv.antt =====
-- protocol/tlv.go: the envelope T | L (two bytes, little-endian) | V, and the batch of envelopes.
pub mod RoundTrip
pub mod Batch
use tccelta.Common.{
  ℕ, zero, suc, ◌+◌, ◌/◌, ◌^◌, Bool, List, [], ◌∷◌, ◌++◌, Result, ok, err, ◌>>=◌, ltb, leb, ◌==◌,
  if◌then◌else◌, length, drop,
}
use tccelta.Common.Bytes.{Bytes, byte, at, slice, uint16}
use tccelta.Protocol.{Error, tlv_short, tlv_length, empty_batch, batch_too_large, stuck}

pub record Tlv : Type 0 where
  pub t : ℕ
  pub v : Bytes

-- ReadTLV: the envelope and the number of bytes read.
unfoldable pub read_tlv : Bytes → Result Error (Tlv × ℕ)
read_tlv b =
    if ltb (length b) 3
    then err tlv_short
    else let l = uint16 (slice b 1 3) in
      if ltb (length b) (3 + l)
      then err tlv_length
      else ok (record { t = at b 0; v = slice b 3 (3 + l) }, 3 + l)

-- The loop of ReadBatch; `out` is what has been read.
unfoldable pub read_batch_loop : ℕ → Bytes → ℕ → List Tlv → Result Error (List Tlv)
read_batch_loop fuel [] max out = ok out
read_batch_loop zero (b ∷ bs) max out = err stuck
read_batch_loop (suc fuel) (b ∷ bs) max out = do
  (t, n) ← read_tlv (b ∷ bs)
  let rest = read_batch_loop fuel (drop n (b ∷ bs)) max (out ++ t ∷ [])
  if leb max (length out) then err batch_too_large else rest

-- ReadBatch. An envelope takes three bytes at least, so the length of the body is enough fuel.
unfoldable pub read_batch : Bytes → ℕ → Result Error (List Tlv)
read_batch body max =
    if length body == 0 then err empty_batch else read_batch_loop (length body) body max []

-- AppendTLV
unfoldable pub append_tlv : Bytes → ℕ → Bytes → Bytes
append_tlv dst t v = (dst ++ byte t ∷ byte (length v) ∷ byte (length v / 2 ^ 8) ∷ []) ++ v
