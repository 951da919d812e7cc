-- ===== src/Trip/Analysed.antt =====
-- backend/internal/domain/tripanalysis/input.go: the entry that the analysis of a trip takes, with
-- Trip.Entry of backend/internal/domain/trip/trip.go.
use tccelta.Common.{ℕ, Option, none, some, Result, ok, err, ◌||◌, leb, if◌then◌else◌}
use tccelta.Trip.{Kind, boot, interval, Trip}
use tccelta.Trip.Request.{is_given}

pub record Entry : Type 0 where
  pub kind : Kind
  pub dongle_id : ℕ
  pub boot_generation : Option ℕ
  pub boot_id : Option ℕ
  pub t0 : Option ℕ
  pub t1 : Option ℕ

-- What ErrInvalidEntry comes with. (A kind that is neither is no value here.)
pub data EntryError : Type 0 where
  no_boot_id no_bounds both_kinds empty_interval : EntryError

unfoldable pub validate_boot : Entry → Result EntryError (Unit {0})
validate_boot e = elim e.boot_id [
  | none ↦ err no_boot_id
  | some _ ↦ if is_given e.t0 || is_given e.t1 then err both_kinds else ok tt
]

unfoldable pub validate_bounds : Entry → ℕ → ℕ → Result EntryError (Unit {0})
validate_bounds e a b =
    if is_given e.boot_id || is_given e.boot_generation
    then err both_kinds
    else if leb b a
    then err empty_interval
    else ok tt

unfoldable pub validate_interval : Entry → Result EntryError (Unit {0})
validate_interval e = elim e.t0 [
  | none ↦ err no_bounds
  | some a ↦ elim e.t1 [ none ↦ err no_bounds | some b ↦ validate_bounds e a b ]
]

-- Entry.Validate
unfoldable pub validate : Entry → Result EntryError (Unit {0})
validate e = elim e.kind [ boot ↦ validate_boot e | interval ↦ validate_interval e ]

-- Trip.Entry
unfoldable pub entry : Trip → Entry
entry t = elim t.kind [
  | boot ↦ record {
    kind = boot;
    dongle_id = t.dongle_id;
    boot_generation = t.boot_generation;
    boot_id = t.boot_id;
    t0 = none;
    t1 = none;
  }
  | interval ↦ record {
    kind = interval;
    dongle_id = t.dongle_id;
    boot_generation = none;
    boot_id = none;
    t0 = t.interval_start;
    t1 = t.interval_end;
  }
]
