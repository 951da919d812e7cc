-- ===== src/Protocol/Messages/Challenge.antt =====
-- protocol/messages.go: the message 0x01, from the server to the dongle.
use tccelta.Common.{
  ℕ, zero, suc, ◌<◌, ◌≡◌, refl, subst, sym, ◌∙◌, not, ◌&&◌, [], ◌∷◌, ◌++◌, Result, ok, err, ◌==◌,
  if◌then◌else◌, length, drop, arith,
}
use tccelta.Common.Bytes.{
  Bytes, at, slice, uint16, uint32, append_uint16, append_uint32, IsU16, IsU32, uint16-bytes,
  uint32-bytes, spread, spread_lem,
}
use tccelta.Protocol.{
  Error, invalid_size, reserved_flags, challenge_type, auth_tag_size, l_challenge, l_challenge_diag,
}
use tccelta.Protocol.Tlv.{append_tlv}
use tccelta.Protocol.Messages.{low_flag, high_flags}

pub record Challenge : Type 0 where
  pub cs : ℕ  -- uint32
  pub ack_seq : ℕ  -- uint32
  pub cconf : ℕ  -- uint32
  pub ns : Bytes  -- [16]byte
  pub flags : ℕ  -- uint8
  pub diag_min : ℕ  -- uint16

-- Payload
pub payload : Challenge → Bytes
payload d =
    let head = append_uint32 [] d.cs ++ d.ns in
    let p = append_uint32 (append_uint32 head d.ack_seq) d.cconf ++ d.flags ∷ [] in
    if not (low_flag d.flags == 0) then append_uint16 p d.diag_min else p

-- Build
unfoldable pub build : Challenge → Bytes → Result Error Bytes
build d tag =
    if not (high_flags d.flags == 0)
    then err reserved_flags
    else if not (length tag == auth_tag_size)
    then err invalid_size
    else ok (append_tlv [] challenge_type (payload d ++ tag))

-- The fields that DecodeChallenge reads before it tests the flags.
abbrev pub fields_of : Bytes → Challenge
fields_of v = record {
  cs = uint32 (slice v 0 4);
  ack_seq = uint32 (slice v 20 24);
  cconf = uint32 (slice v 24 28);
  ns = slice v 4 20;
  flags = at v 28;
  diag_min = 0;
}

-- DecodeChallenge: the fields up to the flags are read before the flags are tested.
pub decode : Bytes → Result Error (Challenge × Bytes)
decode v =
    if not (length v == l_challenge) && not (length v == l_challenge_diag)
    then err invalid_size
    else let d = fields_of v in
      if not (high_flags d.flags == 0)
      then err reserved_flags
      else if not (low_flag d.flags == 0)
      then (if not (length v == l_challenge_diag)
          then err invalid_size
          else ok (record d { diag_min = uint16 (slice v 29 31) }, drop 31 v))
      else if not (length v == l_challenge)
      then err invalid_size
      else ok (d, drop 29 v)

-- The fields fit their types; `diag_min` is 0 where the flag leaves it out.
pub record IsChallenge (d : Challenge) : Type 0 where
  pub cs : IsU32 d.cs
  pub ack_seq : IsU32 d.ack_seq
  pub cconf : IsU32 d.cconf
  pub ns : length d.ns ≡ 16
  pub flags : d.flags < 2
  pub diag_min : IsU16 d.diag_min
  pub no_diag : d.flags ≡ 0 → d.diag_min ≡ 0

decode_short : (v : Bytes) → length v ≡ 45 → at v 28 ≡ 0 → decode v ≡ ok (fields_of v, drop 29 v)
unfolding decode
decode_short v n h = ground arith

decode_long :
    (v : Bytes)
    → length v ≡ 47
    → at v 28 ≡ 1
    → decode v ≡ ok (record (fields_of v) { diag_min = uint16 (slice v 29 31) }, drop 31 v)
unfolding decode
decode_long v n h = ground arith

abbrev RoundTrip : Challenge → Bytes → Type 0
RoundTrip d tag = decode (payload d ++ tag) ≡ ok (d, tag)

-- A message without and one with the diagnosis field, the nonce written out.
module _ (cs ack_seq cconf : ℕ) (ns tag : Bytes) (hcs : IsU32 cs) (hack : IsU32 ack_seq)
    (hconf : IsU32 cconf) (n : length tag ≡ 16) where
  abbrev plain : Challenge
  plain = record {
    cs = cs;
    ack_seq = ack_seq;
    cconf = cconf;
    ns = spread 16 ns;
    flags = 0;
    diag_min = 0;
  }

  plain-RoundTrip : RoundTrip plain tag
  unfolding payload
  plain-RoundTrip = decode_short (payload plain ++ tag) (omega arith) refl ∙ λ i. ok (
    record plain {
      cs = uint32-bytes cs hcs i;
      ack_seq = uint32-bytes ack_seq hack i;
      cconf = uint32-bytes cconf hconf i;
    },
    tag,
  )

  diag-RoundTrip :
      (diag_min : ℕ)
      → IsU16 diag_min
      → RoundTrip (record plain { flags = 1; diag_min = diag_min }) tag
  unfolding payload
  diag-RoundTrip diag_min hd =
      decode_long (payload (record plain { flags = 1; diag_min = diag_min }) ++ tag) (omega arith)
        refl
      ∙ λ i. ok (
        record plain {
          cs = uint32-bytes cs hcs i;
          ack_seq = uint32-bytes ack_seq hack i;
          cconf = uint32-bytes cconf hconf i;
          flags = 1;
          diag_min = uint16-bytes diag_min hd i;
        },
        tag,
      )

-- A challenge and its tag of 16 bytes are read back, with or without the diagnosis field.
pub decode_challenge-payload :
    (d : Challenge) (tag : Bytes)
    → IsChallenge d
    → length tag ≡ 16
    → decode (payload d ++ tag) ≡ ok (d, tag)
decode_challenge-payload d tag h n = by_flag d.flags refl
  where
    by_flag : (f : ℕ) → d.flags ≡ f → RoundTrip d tag
    by_flag zero e =
        let same : record d { ns = d.ns; flags = 0; diag_min = 0 } ≡ d =
          λ i. record d { flags = sym e i; diag_min = sym (h.no_diag e) i } in
        subst (λ x. RoundTrip x tag)
          ((λ i. record d { ns = spread_lem 16 d.ns h.ns i; flags = 0; diag_min = 0 }) ∙ same)
          (plain-RoundTrip d.cs d.ack_seq d.cconf d.ns tag h.cs h.ack_seq h.cconf n)
    by_flag (suc zero) e =
        let same : record d { ns = d.ns; flags = 1; diag_min = d.diag_min } ≡ d =
          λ i. record d { flags = sym e i } in
        subst (λ x. RoundTrip x tag)
          ((λ i. record d { ns = spread_lem 16 d.ns h.ns i; flags = 1 }) ∙ same)
          (diag-RoundTrip d.cs d.ack_seq d.cconf d.ns tag h.cs h.ack_seq h.cconf n d.diag_min
            h.diag_min)
    by_flag (suc (suc f)) e = absurd (omega arith)
