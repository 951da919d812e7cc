-- ===== src/Trip/Rows.antt =====
-- backend/internal/adapter/memory/trips.go: the table of the trips. Of the result of a calculation
-- only what these operations read is kept; the route of an item of the list is left out.
use tccelta.Common.{
  ℕ, ◌+◌, Bool, true, false, not, ◌&&◌, List, [], ◌∷◌, map, Option, none, some, Result, ok, err,
  ltb, leb, ◌==◌, if◌then◌else◌,
}
use tccelta.Common.Sort.{sort_by, keep}
use tccelta.Boots.{Boot, latest_generation}
use tccelta.Trip
use tccelta.Trip.{
  Status, pending, waiting_data, ready, failed, Kind, boot, interval, Draft, Runes, normalize_name,
  Error, driver_repeated, trip_repeated, not_found,
}

pub record BootRef : Type 0 where
  pub generation : ℕ
  pub boot_id : ℕ

-- A warning of the analysis: that a boot has no time, or another.
pub data Warning : Type 0 where
  boot_no_time : BootRef → Warning
  other : Warning

pub record Summary : Type 0 where
  pub started_at : Option ℕ
  pub ended_at : Option ℕ
  pub distance_km : Option ℕ
  pub duration_s : Option ℕ

pub record Calculation : Type 0 where
  pub summary : Summary
  pub warnings : List Warning
  pub first_seq : Option ℕ
  pub last_seq : Option ℕ
  pub calculated_through_seq : ℕ
  pub provisional : Bool
  pub calculated_at : ℕ

pub record TripRow : Type 0 where
  pub trip : Trip.Trip
  pub calc : Option Calculation
  pub saves : ℕ

abbrev pub is_ready : Status → Bool
is_ready ready = true
is_ready _ = false

abbrev pub is_failed : Status → Bool
is_failed failed = true
is_failed _ = false

abbrev pub is_waiting : Status → Bool
is_waiting pending = true
is_waiting waiting_data = true
is_waiting _ = false

abbrev pub Rows : Type 0
Rows = List TripRow

-- TripByID
unfoldable pub trip_by_id : Rows → ℕ → Option TripRow
trip_by_id [] id = none
trip_by_id (x ∷ xs) id = let rest = trip_by_id xs id in if x.trip.id == id then some x else rest

-- A write through the pointer that TripByID returns; nothing where it is nil.
unfoldable pub modify : Rows → ℕ → (TripRow → TripRow) → Rows
modify [] id f = []
modify (x ∷ xs) id f = let rest = modify xs id f in if x.trip.id == id then f x ∷ xs else x ∷ rest

abbrev pub with_status : TripRow → Status → TripRow
with_status x s = record x { trip = record x.trip { status = s } }

-- ListWaiting
unfoldable pub list_waiting : Rows → List Trip.Trip
list_waiting rows =
    sort_by (λ a b. ltb a.created_at b.created_at)
      (map (λ x. x.trip) (keep (λ x. is_waiting x.trip.status) rows))

abbrev pub waited : Status → Status
waited pending = waiting_data
waited s = s

-- MarkWaiting
unfoldable pub mark_waiting : ℕ → Rows → Rows
mark_waiting id rows = modify rows id (λ x. with_status x (waited x.trip.status))

-- ResolveGeneration
abbrev pub with_generation : ℕ → TripRow → TripRow
with_generation g x = record x { trip = record x.trip { boot_generation = some g } }

unfoldable pub resolve_generation : List Boot → ℕ → ℕ → ℕ → Rows → Option ℕ × Rows
resolve_generation boots id dongle_id boot_id rows = elim (trip_by_id rows id) [
  | none ↦ (none, rows)
  | some x ↦ elim x.trip.boot_generation [
    | some _ ↦ (none, rows)
    | none ↦ elim (latest_generation boots dongle_id boot_id) [
      | none ↦ (none, rows)
      | some g ↦ (some g, modify rows id (with_generation g))
    ]
  ]
]

-- Take
unfoldable pub take : ℕ → Rows → Option Trip.Trip
take id rows = elim (trip_by_id rows id) [
  | none ↦ none
  | some x ↦ if is_waiting x.trip.status then some x.trip else none
]

-- The row with the earlier created_at, the first one where they are equal.
abbrev pub earlier : TripRow → Option TripRow → TripRow
earlier x none = x
earlier x (some best) = if ltb x.trip.created_at best.trip.created_at then x else best

unfoldable pub recalc_loop : Rows → Option TripRow → Option TripRow
recalc_loop [] best = best
recalc_loop (x ∷ xs) best =
    recalc_loop xs
      (if is_ready x.trip.status && x.trip.recalc_pending then some (earlier x best) else best)

abbrev pub trip_of : Option TripRow → Option Trip.Trip
trip_of none = none
trip_of (some x) = some x.trip

-- TakeRecalc
unfoldable pub take_recalc : Rows → Option Trip.Trip
take_recalc rows = trip_of (recalc_loop rows none)

-- Save; the version of the calculation is a constant and left out.
abbrev pub saved : Calculation → TripRow → TripRow
saved c x = record x {
  trip = record x.trip {
    status = ready;
    calculated_at = some c.calculated_at;
    first_seq = c.first_seq;
    last_seq = c.last_seq;
    calculated_through_seq = some c.calculated_through_seq;
    provisional = c.provisional;
    recalc_pending = false;
  };
  calc = some c;
  saves = x.saves + 1;
}

unfoldable pub save : ℕ → Calculation → Rows → Rows
save id c rows = modify rows id (saved c)

-- Fail
abbrev pub with_failure : TripRow → TripRow
with_failure x = record x {
  trip = record x.trip {
    status = if is_ready x.trip.status then x.trip.status else failed;
    recalc_pending = false;
  };
}

unfoldable pub fail : ℕ → Rows → Rows
fail id rows = modify rows id with_failure

abbrev pub boots_of : List Warning → List BootRef
boots_of [] = []
boots_of (boot_no_time r ∷ ws) = r ∷ boots_of ws
boots_of (other ∷ ws) = boots_of ws

pub record Provisional : Type 0 where
  pub trip : Trip.Trip
  pub no_time_boots : List BootRef

abbrev pub provisional_of : TripRow → Provisional
provisional_of x = record {
  trip = x.trip;
  no_time_boots = elim x.calc [ none ↦ [] | some c ↦ boots_of c.warnings ];
}

-- ListProvisional
unfoldable pub list_provisional : Rows → List Provisional
list_provisional rows =
    sort_by (λ a b. ltb a.trip.created_at b.trip.created_at)
      (map provisional_of (
        keep (λ x. is_ready x.trip.status && x.trip.provisional && not x.trip.recalc_pending) rows))

abbrev pub to_recalc : TripRow → TripRow
to_recalc x =
    if is_ready x.trip.status
    then record x { trip = record x.trip { recalc_pending = true } }
    else x

-- MarkRecalc
unfoldable pub mark_recalc : List ℕ → Rows → Rows
mark_recalc [] rows = rows
mark_recalc (id ∷ ids) rows = mark_recalc ids (modify rows id to_recalc)

abbrev pub settled : TripRow → TripRow
settled x =
    if is_ready x.trip.status then record x { trip = record x.trip { provisional = false } } else x

-- ClearProvisional
unfoldable pub clear_provisional : ℕ → Rows → Rows
clear_provisional id rows = modify rows id settled

-- A range of seqs that touches the one of the trip.
unfoldable pub touches : Trip.Trip → ℕ → ℕ → Bool
touches t from to = elim t.first_seq [
  | none ↦ false
  | some a ↦ elim t.last_seq [ none ↦ false | some b ↦ leb a to && leb from b ]
]

-- MarkRecalcByRange
unfoldable pub mark_recalc_by_range : ℕ → ℕ → ℕ → Rows → Rows
mark_recalc_by_range id from to rows =
    map (λ x. if x.trip.dongle_id == id && touches x.trip from to then to_recalc x else x) rows

pub record Queue : Type 0 where
  pub waiting : ℕ
  pub recalc : ℕ

-- CountQueue
unfoldable pub count_queue : Rows → Queue
count_queue [] = record { waiting = 0; recalc = 0 }
count_queue (x ∷ xs) =
    let q = count_queue xs in
    record {
      waiting = if is_waiting x.trip.status then q.waiting + 1 else q.waiting;
      recalc = if x.trip.recalc_pending then q.recalc + 1 else q.recalc;
    }

-- Find
unfoldable pub find : Rows → ℕ → Result Error Trip.Trip
find rows id = elim (trip_by_id rows id) [ none ↦ err not_found | some x ↦ ok x.trip ]
