-- ===== src/Trip/Insert.antt =====
-- backend/internal/adapter/memory/trips.go: the rows that a draft collides with, and Insert.
use tccelta.Common.{
  ℕ, Bool, true, false, not, ◌&&◌, ◌||◌, [], ◌∷◌, ◌++◌, Option, none, some, Result, ok, err, ltb,
  ◌==◌, if◌then◌else◌,
}
use tccelta.Common.Text.{bytes_eq}
use tccelta.Trip
use tccelta.Trip.{
  Status, pending, ready, failed, Kind, boot, interval, Draft, Runes, normalize_name, Error,
  driver_repeated, trip_repeated,
}
use tccelta.Trip.Rows.{TripRow, Rows, is_ready, is_failed, trip_of}

abbrev pub same_kind : Kind → Kind → Bool
same_kind boot boot = true
same_kind interval interval = true
same_kind _ _ = false

-- Both are there and equal: the NULL of the database equals nothing.
abbrev pub both_eq : Option ℕ → Option ℕ → Bool
both_eq (some a) (some b) = a == b
both_eq _ _ = false

-- sameEntry
unfoldable pub same_entry : Trip.Trip → Draft → Bool
same_entry x d =
    not (is_failed x.status)
    && x.dongle_id == d.dongle_id
    && same_kind x.kind d.kind
    && (elim d.kind [
      | boot ↦ both_eq x.boot_generation d.boot_generation && both_eq x.boot_id d.boot_id
      | interval ↦
          both_eq x.interval_start d.interval_start && both_eq x.interval_end d.interval_end
    ])

-- The row that FindSame prefers: a ready one, else the earlier one.
abbrev pub is_better : Trip.Trip → Trip.Trip → Bool
is_better x best =
    if is_ready x.status
    then not (is_ready best.status) || ltb x.created_at best.created_at
    else not (is_ready best.status) && ltb x.created_at best.created_at

abbrev pub better : TripRow → Option TripRow → TripRow
better x none = x
better x (some best) = if is_better x.trip best.trip then x else best

unfoldable pub same_loop : Rows → Draft → Option TripRow → Option TripRow
same_loop [] d best = best
same_loop (x ∷ xs) d best =
    same_loop xs d (if same_entry x.trip d then some (better x best) else best)

-- FindSame
unfoldable pub find_same : Rows → Draft → Option Trip.Trip
find_same rows d = trip_of (same_loop rows d none)

unfoldable pub has_entry : Rows → Draft → Bool
has_entry [] d = false
has_entry (x ∷ xs) d = same_entry x.trip d || has_entry xs d

-- The driver has a trip of the category that did not fail.
unfoldable pub same_driver : Runes → Trip.Trip → Draft → Bool
same_driver u x d =
    not (is_failed x.status)
    && bytes_eq x.category d.category
    && bytes_eq (normalize_name u x.driver_name) d.driver_name_normalized

unfoldable pub has_driver : Runes → Rows → Draft → Bool
has_driver u [] d = false
has_driver u (x ∷ xs) d = same_driver u x.trip d || has_driver u xs d

-- The row that AddTrip makes of a draft, with a new id.
unfoldable pub new_trip : ℕ → ℕ → Draft → Trip.Trip
new_trip id now d = record {
  id = id;
  category = d.category;
  driver_name = d.driver_name;
  fuel = d.fuel;
  dongle_id = d.dongle_id;
  kind = d.kind;
  boot_generation = d.boot_generation;
  boot_id = d.boot_id;
  interval_start = d.interval_start;
  interval_end = d.interval_end;
  status = pending;
  target_seq = d.target_seq;
  first_seq = none;
  last_seq = none;
  calculated_through_seq = none;
  provisional = false;
  recalc_pending = false;
  created_at = now;
  calculated_at = none;
}

-- AddTrip
unfoldable pub add_trip : Trip.Trip → Rows → Rows
add_trip t rows = rows ++ record { trip = t; calc = none; saves = 0 } ∷ []

-- Insert; `id` is what uuid.New draws.
unfoldable pub insert : Runes → ℕ → ℕ → Draft → Rows → Result Error Trip.Trip × Rows
insert u id now d rows =
    if has_entry rows d
    then (err trip_repeated, rows)
    else if has_driver u rows d
    then (err driver_repeated, rows)
    else (ok (new_trip id now d), add_trip (new_trip id now d) rows)
