-- ===== src/Protocol/Tlv/RoundTrip.antt =====
-- ReadTLV reads what AppendTLV writes, whatever follows, and nothing else.
use tccelta.Common.{
  ℕ, suc, ◌+◌, ◌-◌, ◌*◌, ◌^◌, ◌≤◌, ◌<◌, ◌≡◌, [], ◌∷◌, ◌++◌, ok, length, take, arith, length-append,
  length-take, take-append_length, All,
}
use tccelta.Common.Bytes.{Bytes, IsByte, uint16-bytes}
use tccelta.Protocol.Tlv.{Tlv, read_tlv, append_tlv}

-- An envelope that the two bytes of L can describe.
pub record IsEnvelope (x : Tlv) : Type 0 where
  pub type_fits : x.t < 256
  pub length_fits : length x.v < 2 ^ 16

unfoldable pub encode : Tlv → Bytes
unfolding append_tlv
encode x = append_tlv [] x.t x.v

pub length-encode : (x : Tlv) → length (encode x) ≡ 3 + length x.v
unfolding encode
length-encode x = omega arith

-- What AppendTLV writes is read back, with the number of its bytes, before any rest.
pub read_tlv-append_tlv :
    (x : Tlv) (rest : Bytes)
    → IsEnvelope x
    → read_tlv (append_tlv [] x.t x.v ++ rest) ≡ ok (x, 3 + length x.v)
unfolding read_tlv append_tlv
read_tlv-append_tlv x rest h =
    ground (arith, uint16-bytes (length x.v), length-append x.v rest, take-append_length x.v rest)

take-three_more : (a c d l : ℕ) (r : Bytes) → take (3 + l) (a ∷ c ∷ d ∷ r) ≡ a ∷ c ∷ d ∷ take l r
take-three_more a c d l r = let e : 3 + l ≡ suc (suc (suc l)) = omega arith in rw e

take_header : (l : ℕ) (r : Bytes) → take (3 + l - 3) r ≡ take l r
take_header l r = let e : 3 + l - 3 ≡ l = omega arith in rw e

-- What ReadTLV returns stands in the buffer: the bytes that it counts are an envelope's encoding.
pub read_tlv_sound :
    (b : Bytes) (x : Tlv) (n : ℕ)
    → All IsByte b
    → read_tlv b ≡ ok (x, n)
    → IsEnvelope x × (n ≤ length b) × (n ≡ 3 + length x.v) × (encode x ≡ take n b)
unfolding read_tlv encode append_tlv
read_tlv_sound (a ∷ c ∷ d ∷ r) x n bytes h = ground (
  arith,
  take-three_more a c d (c + d * 2 ^ 8) r,
  take_header (c + d * 2 ^ 8) r,
  length-take (c + d * 2 ^ 8) r,
)
read_tlv_sound (a ∷ c ∷ []) x n bytes h = cc
read_tlv_sound (a ∷ []) x n bytes h = cc
read_tlv_sound [] x n bytes h = cc
