-- ===== src/Pid.antt =====
-- backend/internal/domain/pid: the catalogue of PIDs and Decode, which turns the records of a block
-- into readings and positions. A float is its bit pattern (float64, and float32 in a reading), and the
-- arithmetic of IEEE 754 is an argument.
pub mod Decoded
use tccelta.Common.{
  ℕ, ◌+◌, ◌*◌, Bool, true, false, ◌&&◌, List, [], ◌∷◌, ◌++◌, Option, none, some, map, String,
  Result, ok, err, ltb, ◌==◌, if◌then◌else◌, length, replicate,
}
use tccelta.Common.Bytes.{Bytes, append_uint32, append_uint64}
use tccelta.Common.Int.{ℤ, pos, ◌+ℤ◌}
use tccelta.Common.Maps.{number_key, lookup, put}
use tccelta.Protocol.Block.{BlockHeader}
use tccelta.Protocol.Records.{PidRecord, GpsRecord, Content}

-- The operations on float64 that the source uses. `mul_add x y z` is `x*y + z`, which Go may fuse.
pub record Floats : Type 0 where
  pub of_int : ℤ → ℕ
  pub mul_add : ℕ → ℕ → ℕ → ℕ
  pub add : ℕ → ℕ → ℕ
  pub sub : ℕ → ℕ → ℕ
  pub div : ℕ → ℕ → ℕ
  pub le : ℕ → ℕ → Bool
  pub min : ℕ → ℕ → ℕ
  pub float32 : ℕ → ℕ

-- The bit patterns of 1e-9, 1e7 and 1000.
abbrev pub nano : ℕ
nano = 4472406533629990549

abbrev pub ten_million : ℕ
ten_million = 4711630319722168320

abbrev pub thousand : ℕ
thousand = 4652007308841189376

pub record Def : Type 0 where
  pub pid : ℕ  -- uint8
  pub name : String
  pub unit : String
  pub n_bytes : ℕ
  pub factor : ℕ
  pub value_offset : ℕ
  pub min : Option ℕ
  pub max : Option ℕ

-- Catalog: `none` before the first Set.
abbrev pub Catalog : Type 0
Catalog = Option (List (ℕ × Def))

abbrev pub new : Catalog
new = none

-- The loop of Set.
unfoldable pub define_all : List Def → List (ℕ × Def) → List (ℕ × Def)
define_all [] m = m
define_all (d ∷ ds) m = define_all ds (put m d.pid d)

-- Set; FromMap is Set on a new catalogue.
abbrev pub set : Catalog → List Def → Catalog
set c defs = some (define_all defs [])

-- Get
unfoldable pub get : Catalog → ℕ → Option Def
get none pid = none
get (some m) pid = lookup m pid

-- Loaded
pub is_loaded : Catalog → Bool
is_loaded none = false
is_loaded (some m) = ltb 0 (length m)

pub record PointZ : Type 0 where
  pub lon_degrees : ℕ
  pub lat_degrees : ℕ
  pub alt_m : ℕ

-- PointZ.EWKB
pub ewkb : PointZ → Bytes
ewkb p =
    let head = append_uint32 (append_uint32 (1 ∷ []) 0xa0000001) 4326 in
    append_uint64 (append_uint64 (append_uint64 head p.lon_degrees) p.lat_degrees) p.alt_m

pub record Reading : Type 0 where
  pub generation : ℕ
  pub boot_id : ℕ
  pub t_ms : ℤ
  pub pid : ℕ
  pub raw_value : ℕ
  pub value : Option ℕ
  pub block_seq : ℕ

pub record Position : Type 0 where
  pub generation : ℕ
  pub boot_id : ℕ
  pub t_ms : ℤ
  pub geom : PointZ
  pub block_seq : ℕ

-- ErrUnknown
pub data Error : Type 0 where
  pid_unknown : Error

-- A bound that is not given allows every value.
abbrev pub or_free : (ℕ → Bool) → Option ℕ → Bool
or_free f none = true
or_free f (some x) = f x

-- One byte, or two with the high byte first.
unfoldable pub raw_of : Def → PidRecord → ℕ
raw_of d p = if d.n_bytes == 2 then p.a * 256 + p.b else p.a

module _ (f : Floats) where
  -- The value within its bounds, with a tolerance.
  unfoldable pub value_of : Def → ℕ → Option ℕ
  value_of d raw =
      let v = f.mul_add (f.of_int (pos raw)) d.factor d.value_offset in
      if or_free (λ low. f.le (f.sub low nano) v) d.min
        && or_free (λ high. f.le v (f.add high nano)) d.max
      then some (f.float32 v)
      else none

  unfoldable pub reading_of : ℕ → BlockHeader → ℤ → Def → PidRecord → Reading
  reading_of generation hdr t0 d p = record {
    generation = generation;
    boot_id = hdr.boot_id;
    t_ms = t0 +ℤ pos p.dt;
    pid = p.pid;
    raw_value = raw_of d p;
    value = value_of d (raw_of d p);
    block_seq = hdr.seq;
  }

  unfoldable pub position_of : ℕ → BlockHeader → ℤ → GpsRecord → Position
  position_of generation hdr t0 g = record {
    generation = generation;
    boot_id = hdr.boot_id;
    t_ms = t0 +ℤ pos g.dt;
    geom = record {
      lon_degrees = f.div (f.of_int g.lon_e7) ten_million;
      lat_degrees = f.div (f.of_int g.lat_e7) ten_million;
      alt_m = f.div (f.of_int g.alt_mm) thousand;
    };
    block_seq = hdr.seq;
  }

  module _ (cat : ℕ → Option Def) (generation : ℕ) (hdr : BlockHeader) (t0 : ℤ) where
    -- The loop over the PIDs.
    unfoldable pub readings_of : List PidRecord → Result Error (List Reading)
    readings_of [] = ok []
    readings_of (p ∷ ps) =
        let rest = readings_of ps in
        elim (cat p.pid) [
          | none ↦ err pid_unknown
          | some d ↦ elim rest [
            | err e ↦ err e
            | ok ls ↦ ok (reading_of generation hdr t0 d p ∷ ls)
          ]
        ]

    -- Decode
    unfoldable pub decode : Content → Result Error (List Reading × List Position)
    decode c = elim (readings_of c.pids) [
      | err e ↦ err e
      | ok ls ↦ ok (ls, map (position_of generation hdr t0) c.gps)
    ]
