-- ===== src/Protocol/Records.antt =====
-- protocol/block.go: the records of a block (PID, GPS, the markers BOOT and LOSS) and ReadRecords.
pub mod Loop
pub mod Totals
pub mod Items
use tccelta.Common.{
  ℕ, zero, suc, ◌+◌, ◌-◌, ◌^◌, Bool, true, false, not, ◌||◌, List, [], ◌∷◌, ◌++◌, Option, none,
  some, Result, ok, err, ltb, ◌==◌, if◌then◌else◌, length, drop,
}
use tccelta.Common.Bytes.{Bytes, at, slice, uint16, uint32}
use tccelta.Common.Int.{ℤ}
use tccelta.Common.Words.{int32}
use tccelta.Protocol.{
  Error, malformed_record, marker_with_others, stuck, block_header_size, min_data_size,
  marker_block_size,
}

-- The reserved record types.
abbrev pub reg_loss : ℕ
reg_loss = 0xfd

abbrev pub reg_boot : ℕ
reg_boot = 0xfe

abbrev pub reg_gps : ℕ
reg_gps = 0xff

pub record PidRecord : Type 0 where
  pub pid : ℕ  -- uint8
  pub dt : ℕ  -- uint16
  pub a : ℕ  -- uint8
  pub b : ℕ  -- uint8

pub record GpsRecord : Type 0 where
  pub dt : ℕ  -- uint16
  pub lat_e7 : ℤ  -- int32
  pub lon_e7 : ℤ  -- int32
  pub alt_mm : ℤ  -- int32

pub record MarkerRecord : Type 0 where
  pub kind : ℕ  -- Type
  pub dt : ℕ  -- uint16
  pub from_seq : ℕ  -- uint32
  pub to_seq : ℕ  -- uint32

pub record Content : Type 0 where
  pub marker : Option MarkerRecord
  pub pids : List PidRecord
  pub gps : List GpsRecord
  pub dt_max : ℕ  -- uint16
  pub dt_min : ℕ  -- uint16

abbrev pub no_content : Content
no_content = record { marker = none; pids = []; gps = []; dt_max = 0; dt_min = 0 }

-- The closure `touch`; its variable `first` is false afterwards.
unfoldable pub touch : Bool → ℕ → Content → Content
touch first dt c = record c {
  dt_max = if first || ltb c.dt_max dt then dt else c.dt_max;
  dt_min = if first || ltb dt c.dt_min then dt else c.dt_min;
}

abbrev pub marker_of : Bytes → MarkerRecord
marker_of r = record {
  kind = at r 0;
  dt = uint16 (slice r 1 3);
  from_seq = uint32 (slice r 3 7);
  to_seq = uint32 (slice r 7 11);
}

abbrev pub gps_of : Bytes → GpsRecord
gps_of r = record {
  dt = uint16 (slice r 1 3);
  lat_e7 = int32 (uint32 (slice r 3 7));
  lon_e7 = int32 (uint32 (slice r 7 11));
  alt_mm = int32 (uint32 (slice r 11 15));
}

abbrev pub pid_of : Bytes → PidRecord
pid_of r = record { pid = at r 0; dt = uint16 (slice r 1 3); a = at r 3; b = at r 4 }

-- `case RegBoot, RegLoss`; `n` is the length of the whole data area. A marker ends the loop.
unfoldable pub read_marker : ℕ → Bytes → Bool → Content → Result Error Content
read_marker n r first c =
    if ltb (length r) 11
    then err malformed_record
    else let m = marker_of r in
      if not (n == marker_block_size)
        || not (length r == 11)
        || ltb 0 (length c.pids)
        || ltb 0 (length c.gps)
      then err marker_with_others
      else ok (touch first m.dt (record c { marker = some m }))

abbrev pub add_gps : Bytes → Bool → Content → Content
add_gps r first c = let g = gps_of r in touch first g.dt (record c { gps = c.gps ++ g ∷ [] })

abbrev pub add_pid : Bytes → Bool → Content → Content
add_pid r first c = let p = pid_of r in touch first p.dt (record c { pids = c.pids ++ p ∷ [] })

-- The loop `for len(r) > 0`.
unfoldable pub read_loop : ℕ → ℕ → Bytes → Bool → Content → Result Error Content
read_loop fuel n [] first c = ok c
read_loop zero n (k ∷ rest) first c = err stuck
read_loop (suc fuel) n (k ∷ rest) first c =
    let r = k ∷ rest in
    let after_gps = read_loop fuel n (drop 15 r) false (add_gps r first c) in
    let after_pid = read_loop fuel n (drop 5 r) false (add_pid r first c) in
    if k == reg_boot || k == reg_loss
    then read_marker n r first c
    else if k == reg_gps
    then (if ltb (length r) 15 then err malformed_record else after_gps)
    else if ltb (length r) 5
    then err malformed_record
    else after_pid

-- ReadRecords. A record takes five bytes at least, so the length of the data is enough fuel.
unfoldable pub read_records : Bytes → Result Error Content
read_records payload =
    if ltb (length payload) min_data_size
    then err malformed_record
    else read_loop (length payload) (length payload) (drop block_header_size payload) true
        no_content
