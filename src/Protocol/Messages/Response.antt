-- ===== src/Protocol/Messages/Response.antt =====
-- protocol/messages.go: the message 0x02, from the dongle to the server.
use tccelta.Common.{
  ℕ, ◌≡◌, subst, ◌∙◌, not, [], ◌++◌, Result, ok, err, ◌==◌, if◌then◌else◌, length, drop, take,
  arith,
}
use tccelta.Common.Bytes.{
  Bytes, slice, uint16, uint32, append_uint16, append_uint32, IsU16, IsU32, uint16-bytes,
  uint32-bytes, spread, spread_lem,
}
use tccelta.Protocol.{Error, invalid_size, response_type, l_response}
use tccelta.Protocol.Tlv.{append_tlv}

pub record Response : Type 0 where
  pub cs : ℕ  -- uint32
  pub tail_seq : ℕ  -- uint32
  pub head_seq : ℕ  -- uint32
  pub t_ms : ℕ  -- uint32
  pub ns : Bytes  -- [16]byte
  pub boot_id : ℕ  -- uint16

-- The fields that DecodeResponse reads.
abbrev pub fields_of : Bytes → Response
fields_of v = record {
  cs = uint32 (slice v 0 4);
  tail_seq = uint32 (slice v 20 24);
  head_seq = uint32 (slice v 24 28);
  t_ms = uint32 (slice v 30 34);
  ns = slice v 4 20;
  boot_id = uint16 (slice v 28 30);
}

-- DecodeResponse: the message, its payload and its tag.
unfoldable pub decode : Bytes → Result Error (Response × Bytes × Bytes)
decode v =
    if not (length v == l_response)
    then err invalid_size
    else ok (fields_of v, take 34 v, drop 34 v)

-- Payload
unfoldable pub payload : Response → Bytes
payload r =
    let head = append_uint32 [] r.cs ++ r.ns in
    append_uint32
      (append_uint16 (append_uint32 (append_uint32 head r.tail_seq) r.head_seq) r.boot_id) r.t_ms

-- Build
unfoldable pub build : Response → Bytes → Bytes
build r tag = append_tlv [] response_type (payload r ++ tag)

pub record IsResponse (r : Response) : Type 0 where
  pub cs : IsU32 r.cs
  pub tail_seq : IsU32 r.tail_seq
  pub head_seq : IsU32 r.head_seq
  pub t_ms : IsU32 r.t_ms
  pub ns : length r.ns ≡ 16
  pub boot_id : IsU16 r.boot_id

decode_sized : (v : Bytes) → length v ≡ 50 → decode v ≡ ok (fields_of v, take 34 v, drop 34 v)
unfolding decode
decode_sized v h = ground arith

abbrev RoundTrip : Response → Bytes → Type 0
RoundTrip r tag = decode (payload r ++ tag) ≡ ok (r, payload r, tag)

RoundTrip-spread :
    (r : Response) (tag : Bytes)
    → IsResponse r
    → length tag ≡ 16
    → RoundTrip (record r { ns = spread 16 r.ns }) tag
unfolding payload
RoundTrip-spread r tag h n = decode_sized _ (omega arith) ∙ λ i. ok (
  record r {
    cs = uint32-bytes r.cs h.cs i;
    tail_seq = uint32-bytes r.tail_seq h.tail_seq i;
    head_seq = uint32-bytes r.head_seq h.head_seq i;
    t_ms = uint32-bytes r.t_ms h.t_ms i;
    ns = spread 16 r.ns;
    boot_id = uint16-bytes r.boot_id h.boot_id i;
  },
  payload (record r { ns = spread 16 r.ns }),
  tag,
)

-- A message and its tag of 16 bytes are read back, and the payload is the part before the tag.
pub decode_response-payload :
    (r : Response) (tag : Bytes)
    → IsResponse r
    → length tag ≡ 16
    → decode (payload r ++ tag) ≡ ok (r, payload r, tag)
decode_response-payload r tag h n =
    subst (λ ns. RoundTrip (record r { ns = ns }) tag) (spread_lem 16 r.ns h.ns)
      (RoundTrip-spread r tag h n)
