-- ===== src/Protocol/Builder/RoundTrip.antt =====
-- The bytes that a BlockBuilder holds and closes.
use mathlib.Core.List.{append_assoc, append-nil}
use tccelta.Common.{
  ℕ, ◌+◌, ◌/◌, ◌%◌, ◌^◌, ◌≤◌, ◌<◌, ◌≡◌, Bool, true, false, List, [], ◌∷◌, ◌++◌, leb, if◌then◌else◌,
  length, arith, length-append,
}
use tccelta.Common.Bytes.{
  Bytes, byte, append_uint16, append_uint32, IsU16, IsU32, uint16-bytes, uint32-bytes,
}
use tccelta.Protocol.{max_data_size}
use tccelta.Protocol.Block.{BlockHeader, header_of}
use tccelta.Common.Words.{uint32_of}
use tccelta.Protocol.Records.{GpsRecord, reg_gps}
use tccelta.Protocol.Records.Items.{Item, pid_item, gps_item, encode_item, encode_items}
use tccelta.Protocol.Builder.{BlockBuilder, new_block_builder, add_pid, add_gps, data_of}

-- The call that adds a record.
pub add : BlockBuilder → Item → BlockBuilder × Bool
add m (pid_item p) = add_pid m p.pid p.dt p.a p.b
add m (gps_item g) = add_gps m g.dt g.lat_e7 g.lon_e7 g.alt_mm

gps_bytes :
    (buf : Bytes) (g : GpsRecord)
    → append_uint32
        (append_uint32
          (append_uint32
            (buf ++ reg_gps ∷ byte g.dt ∷ byte (g.dt / 2 ^ 8) ∷ [])
            (uint32_of g.lat_e7))
          (uint32_of g.lon_e7))
        (uint32_of g.alt_mm)
      ≡ buf ++ encode_item (gps_item g)
unfolding encode_item
gps_bytes buf g = simp append_assoc

-- A record is added, with its bytes at the end, exactly if the area stays within 1024 bytes; if
-- not, the builder stays as it was and the call says so.
pub add_iff_fits :
    (m : BlockBuilder) (x : Item)
    → add m x ≡ (
        if leb (length m.buf + length (encode_item x)) max_data_size
        then (record m { buf = m.buf ++ encode_item x }, true)
        else (m, false))
unfolding add add_pid add_gps encode_item
add_iff_fits m (pid_item p) = ground arith
add_iff_fits m (gps_item g) = let joined = gps_bytes m.buf g in ground arith

-- Adds records one by one; the flag says whether all of them fitted.
pub add_all : BlockBuilder → List Item → BlockBuilder × Bool
add_all m [] = (m, true)
add_all m (x ∷ xs) =
    let (m', fitted) = add m x in let rest = add_all m' xs in if fitted then rest else (m', false)

pub add_all_fit :
    (m : BlockBuilder) (xs : List Item)
    → length m.buf + length (encode_items xs) ≤ max_data_size
    → add_all m xs ≡ (record m { buf = m.buf ++ encode_items xs }, true)
unfolding add_all encode_items
add_all_fit m [] h = ground (arith, append-nil m.buf)
add_all_fit m (x ∷ xs) h = ground (
  arith,
  add_iff_fits m x,
  length-append (encode_item x) (encode_items xs),
  length-append m.buf (encode_item x),
  append_assoc m.buf (encode_item x) (encode_items xs),
  add_all_fit (record m { buf = m.buf ++ encode_item x }) xs,
)

-- The 12 bytes in front of the records.
unfoldable pub header_bytes : BlockHeader → Bytes
header_bytes h =
    append_uint16 (append_uint32 (append_uint16 (append_uint32 [] h.seq) h.boot_id) h.t0_ms) h.size

pub record IsHeader (h : BlockHeader) : Type 0 where
  pub seq : IsU32 h.seq
  pub boot_id : IsU16 h.boot_id
  pub t0_ms : IsU32 h.t0_ms
  pub size : IsU16 h.size

pub header_of-header_bytes :
    (h : BlockHeader) (rest : Bytes) → IsHeader h → header_of (header_bytes h ++ rest) ≡ h
unfolding header_bytes
header_of-header_bytes h rest fits = λ i. record {
  seq = uint32-bytes h.seq fits.seq i;
  boot_id = uint16-bytes h.boot_id fits.boot_id i;
  t0_ms = uint32-bytes h.t0_ms fits.t0_ms i;
  size = uint16-bytes h.size fits.size i;
}

-- Data writes the size of the area into the header and leaves the rest.
pub data_of_closes :
    (seq boot_id t0_ms : ℕ) (body : Bytes)
    → 12 + length body < 2 ^ 16
    → data_of (record { buf = (new_block_builder seq boot_id t0_ms).buf ++ body })
      ≡ header_bytes
          (record { seq = seq; boot_id = boot_id; t0_ms = t0_ms; size = 12 + length body })
        ++ body
unfolding data_of new_block_builder header_bytes
data_of_closes seq boot_id t0_ms body h =
    let buf : Bytes = (new_block_builder seq boot_id t0_ms).buf ++ body in
    let e : length buf % 2 ^ 16 ≡ 12 + length body = omega arith in rw e
