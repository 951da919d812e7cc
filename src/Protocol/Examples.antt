-- ===== src/Protocol/Examples.antt =====
-- The theorems on the protocol at concrete messages.
use tccelta.Common.{
  ◌+◌, ◌≤◌, ◌<◌, ◌≡◌, inl, refl, true, List, [], ◌∷◌, ◌++◌, some, ok, err, length, All, arith,
}
use tccelta.Common.Bytes.{Bytes}
use tccelta.Common.Int.{pos, negsuc}
use tccelta.Protocol.{batch_too_large}
use tccelta.Protocol.Identity.{DevId, profile_hmac}
use tccelta.Protocol.Tlv.{Tlv, read_batch, append_tlv}
use tccelta.Protocol.Tlv.RoundTrip.{IsEnvelope, encode}
use tccelta.Protocol.Tlv.Batch.{encode_all, read_batch-encode_all, read_batch_sound}
use tccelta.Protocol.Block.{decode_block}
use tccelta.Protocol.Records.{
  PidRecord, GpsRecord, MarkerRecord, no_content, read_records, reg_boot,
}
use tccelta.Protocol.Records.Totals.{MarkerRule, read_records_totals}
use tccelta.Protocol.Records.Items.{Item, pid_item, gps_item, encode_item, encode_items, add_items}
use tccelta.Protocol.Builder.{build_marker}
use tccelta.Protocol.Builder.Blocks.{build, header, decode-build, read_records-build_marker}
use tccelta.Protocol.Messages.Challenge.{Challenge}
use tccelta.Protocol.Messages.Response.{Response}
use tccelta.Protocol.Messages.Ack.{Ack}

abbrev dev : DevId
dev = 0 ∷ 0x1f ∷ 0xa0 ∷ 3 ∷ 4 ∷ 5 ∷ 6 ∷ 255 ∷ []

abbrev some_tag : Bytes
some_tag = 1 ∷ 2 ∷ 3 ∷ 4 ∷ 5 ∷ 6 ∷ 7 ∷ 8 ∷ 9 ∷ 10 ∷ 11 ∷ 12 ∷ 13 ∷ 14 ∷ 15 ∷ 16 ∷ []

abbrev two_envelopes : List Tlv
two_envelopes = record { t = 3; v = 7 ∷ 8 ∷ [] } ∷ record { t = 4; v = [] } ∷ []

two_envelopes_fit : All IsEnvelope two_envelopes
two_envelopes_fit = omega arith

read_batch-encode_all_example : read_batch (encode_all two_envelopes) 1 ≡ err batch_too_large
read_batch-encode_all_example =
    read_batch-encode_all (record { t = 3; v = 7 ∷ 8 ∷ [] }) (record { t = 4; v = [] } ∷ []) 1
      two_envelopes_fit

read_batch_sound_example :
    (encode_all two_envelopes ≡ encode_all two_envelopes)
    × (0 < length two_envelopes)
    × (length two_envelopes ≤ 64)
    × All IsEnvelope two_envelopes
unfolding encode_all encode append_tlv
read_batch_sound_example =
    read_batch_sound (encode_all two_envelopes) 64 two_envelopes (omega arith) (
      read_batch-encode_all (record { t = 3; v = 7 ∷ 8 ∷ [] }) (record { t = 4; v = [] } ∷ []) 64
        two_envelopes_fit)

abbrev speed : PidRecord
speed = record { pid = 13; dt = 20; a = 255; b = 0 }

abbrev place : GpsRecord
place = record {
  dt = 65535;
  lat_e7 = negsuc 235505199;
  lon_e7 = negsuc 466333099;
  alt_mm = pos 760000;
}

abbrev records : List Item
records = pid_item speed ∷ gps_item place ∷ []

decode-build_example :
    let (area, fitted) = build 1 3 600000 records in
    (fitted ≡ true)
    × (decode_block (area ++ (some_tag ++ some_tag)) profile_hmac
        ≡ ok (record {
          hdr = header 1 3 600000 records;
          payload = area;
          tag = some_tag ++ some_tag;
        }))
    × (read_records area ≡ ok (add_items true records no_content))
unfolding encode_items encode_item
decode-build_example =
    decode-build 1 3 600000 (pid_item speed) (gps_item place ∷ []) (some_tag ++ some_tag)
      profile_hmac (omega arith) (omega arith) (omega arith) (omega arith) (omega arith) refl

abbrev boot_marker : MarkerRecord
boot_marker = record { kind = reg_boot; dt = 0; from_seq = 5; to_seq = 9 }

read_records_totals_example :
    (11 + 12 ≡ length (build_marker 10 4 0 reg_boot 5 9))
    × MarkerRule
        (length (build_marker 10 4 0 reg_boot 5 9))
        (record no_content { marker = some boot_marker })
read_records_totals_example =
    read_records_totals (build_marker 10 4 0 reg_boot 5 9)
      (record no_content { marker = some boot_marker })
      (read_records-build_marker 10 4 0 reg_boot 5 9 (inl refl) (omega arith) (omega arith))

abbrev challenge : Challenge
challenge = record { cs = 7; ack_seq = 41; cconf = 6; ns = some_tag; flags = 1; diag_min = 30 }

abbrev response : Response
response = record {
  cs = 7;
  tail_seq = 40;
  head_seq = 90;
  t_ms = 123456;
  ns = some_tag;
  boot_id = 4;
}

abbrev ack : Ack
ack = record { ack_seq = 41; cconf = 7; flags = 0 }
