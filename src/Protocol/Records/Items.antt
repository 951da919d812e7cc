-- ===== src/Protocol/Records/Items.antt =====
-- ReadRecords on the records that a builder writes: it returns them in order, with the time span.
use tccelta.Common.{
  ℕ, zero, suc, ◌/◌, ◌^◌, ◌≤◌, ◌<◌, ◌≡◌, refl, ap, subst, ◌∙◌, Bool, true, false, List, [], ◌∷◌,
  ◌++◌, Result, ok, length, drop, arith, length-append, All, drop-append_length,
}
use tccelta.Common.Bytes.{Bytes, byte, append_uint32, IsByte, IsU16, uint16-bytes, uint32-bytes}
use tccelta.Common.Words.{int32, uint32_of, IsI32, uint32_of-lt, int32-uint32_of}
use tccelta.Protocol.{Error}
use tccelta.Protocol.Records.{
  Content, PidRecord, GpsRecord, reg_gps, reg_loss, read_loop, read_records, touch, no_content,
  pid_of, gps_of,
}
use tccelta.Protocol.Records.Loop.{loop_end, loop_gps, loop_pid, gps_round_long}

pub data Item : Type 0 where
  pid_item : PidRecord → Item
  gps_item : GpsRecord → Item

-- The bytes of a record on the wire.
unfoldable pub encode_item : Item → Bytes
encode_item (pid_item p) = p.pid ∷ byte p.dt ∷ byte (p.dt / 2 ^ 8) ∷ p.a ∷ p.b ∷ []
encode_item (gps_item g) =
    reg_gps
    ∷ byte g.dt
    ∷ byte (g.dt / 2 ^ 8)
    ∷ (append_uint32 (append_uint32 (append_uint32 [] (uint32_of g.lat_e7)) (uint32_of g.lon_e7))
        (uint32_of g.alt_mm))

unfoldable pub encode_items : List Item → Bytes
encode_items [] = []
encode_items (x ∷ xs) = encode_item x ++ encode_items xs

-- The fields fit their types, and a PID is none of the reserved record types.
abbrev pub IsItem : Item → Type 0
IsItem (pid_item p) = (p.pid < reg_loss) × IsU16 p.dt × IsByte p.a × IsByte p.b
IsItem (gps_item g) = IsU16 g.dt × IsI32 g.lat_e7 × IsI32 g.lon_e7 × IsI32 g.alt_mm

unfoldable pub add_item : Bool → Item → Content → Content
add_item first (pid_item p) c = touch first p.dt (record c { pids = c.pids ++ p ∷ [] })
add_item first (gps_item g) c = touch first g.dt (record c { gps = c.gps ++ g ∷ [] })

-- The content of a sequence of records.
unfoldable pub add_items : Bool → List Item → Content → Content
add_items first [] c = c
add_items first (x ∷ xs) c = add_items false xs (add_item first x c)

length-encode_item : (x : Item) → 5 ≤ length (encode_item x)
unfolding encode_item
length-encode_item (pid_item p) = omega arith
length-encode_item (gps_item g) = omega arith

abbrev wire_pid : PidRecord → Bytes → Bytes
wire_pid p rest = p.pid ∷ byte p.dt ∷ byte (p.dt / 2 ^ 8) ∷ p.a ∷ p.b ∷ rest

pid_of-wire : (p : PidRecord) (rest : Bytes) → IsU16 p.dt → pid_of (wire_pid p rest) ≡ p
pid_of-wire p rest h = ground (arith, uint16-bytes p.dt h)

gps_of-wire :
    (g : GpsRecord) (rest : Bytes)
    → IsItem (gps_item g)
    → gps_of (encode_item (gps_item g) ++ rest) ≡ g
unfolding encode_item
gps_of-wire g rest (dt, lat, lon, alt) =
    let elat = uint32-bytes (uint32_of g.lat_e7) (uint32_of-lt g.lat_e7) in
    let elon = uint32-bytes (uint32_of g.lon_e7) (uint32_of-lt g.lon_e7) in
    let ealt = uint32-bytes (uint32_of g.alt_mm) (uint32_of-lt g.alt_mm) in
    λ i. record {
      dt = uint16-bytes g.dt dt i;
      lat_e7 = (ap int32 elat ∙ int32-uint32_of g.lat_e7 lat) i;
      lon_e7 = (ap int32 elon ∙ int32-uint32_of g.lon_e7 lon) i;
      alt_mm = (ap int32 ealt ∙ int32-uint32_of g.alt_mm alt) i;
    }

module _ (fuel n : ℕ) (first : Bool) (c : Content) (rest : Bytes) where
  step_pid :
      (p : PidRecord)
      → IsItem (pid_item p)
      → read_loop (suc fuel) n (encode_item (pid_item p) ++ rest) first c
        ≡ read_loop fuel n rest false (add_item first (pid_item p) c)
  unfolding encode_item add_item
  step_pid p h =
      loop_pid fuel n p.pid (byte p.dt ∷ byte (p.dt / 2 ^ 8) ∷ p.a ∷ p.b ∷ rest) first c
        (λ e. omega arith) (λ e. omega arith) (λ e. omega arith)
      ∙ ground (arith, pid_of-wire p rest h.1)

  step_gps :
      (g : GpsRecord)
      → IsItem (gps_item g)
      → read_loop (suc fuel) n (encode_item (gps_item g) ++ rest) first c
        ≡ read_loop fuel n rest false (add_item first (gps_item g) c)
  unfolding encode_item add_item
  step_gps g h =
      let tail : Bytes = drop 1 (encode_item (gps_item g) ++ rest) in
      loop_gps fuel n reg_gps tail first c refl
      ∙ (gps_round_long fuel n reg_gps tail first c (omega arith)
          ∙ ap {B = Result Error Content}
              (λ (r : GpsRecord).
                read_loop fuel n rest false (touch first r.dt (record c { gps = c.gps ++ r ∷ [] })))
              (gps_of-wire g rest h))

  step_item :
      (x : Item)
      → IsItem x
      → read_loop (suc fuel) n (encode_item x ++ rest) first c
        ≡ read_loop fuel n rest false (add_item first x c)
  step_item (pid_item p) h = step_pid p h
  step_item (gps_item g) h = step_gps g h

pub length-encode_items : (x : Item) (xs : List Item) → 5 ≤ length (encode_items (x ∷ xs))
unfolding encode_items
length-encode_items x xs =
    omega (arith, length-encode_item x, length-append (encode_item x) (encode_items xs))

-- The loop reads a sequence of records, whatever it has read before.
loop-encode_items :
    (fuel n : ℕ) (xs : List Item) (first : Bool) (c : Content)
    → All IsItem xs
    → length (encode_items xs) ≤ fuel
    → read_loop fuel n (encode_items xs) first c ≡ ok (add_items first xs c)
unfolding encode_items add_items
loop-encode_items fuel n [] first c h e = loop_end fuel n first c
loop-encode_items zero n (x ∷ xs) first c h e =
    absurd (omega (arith, length-encode_item x, length-append (encode_item x) (encode_items xs)))
loop-encode_items (suc fuel) n (x ∷ xs) first c h e =
    step_item fuel n first c (encode_items xs) x h.0
    ∙ loop-encode_items fuel n xs false (add_item first x c) h.1
        (omega (arith, length-encode_item x, length-append (encode_item x) (encode_items xs)))

-- A data area of any header and one record or more gives these records in their order, and no
-- marker.
pub read_records-encode_items :
    (header : Bytes) (x : Item) (xs : List Item)
    → length header ≡ 12
    → All IsItem (x ∷ xs)
    → read_records (header ++ encode_items (x ∷ xs)) ≡ ok (add_items true (x ∷ xs) no_content)
unfolding read_records
read_records-encode_items header x xs n h =
    let body : Bytes = encode_items (x ∷ xs) in
    let len = length-append header body in
    let long = length-encode_items x xs in
    let skip : drop 12 (header ++ body) ≡ body =
      subst (λ k. drop k (header ++ body) ≡ body) n (drop-append_length header body) in
    let loop =
      loop-encode_items (length (header ++ body)) (length (header ++ body)) (x ∷ xs) true no_content
        h (omega arith) in
    ground arith
