-- ===== src/Trip/Examples.antt =====
-- Runs of the trips, and their theorems at concrete requests.
use tccelta.Common.{ℕ, false, ◌&&◌, List, [], ◌∷◌, Option, none, some, ok, err, ltb, leb, ◌≡◌, refl}
use tccelta.Common.Bytes.{Bytes}
use tccelta.Common.Int.{pos}
use tccelta.Common.Maps.{lookup}
use tccelta.Common.Text.{codes, bytes_eq}
use tccelta.Boots.{latest_loop, latest_generation}
use tccelta.Memory.{Database, read_state}
use tccelta.Memory.Tables.{Tables, notify_trip}
use tccelta.Registry.{zero_state}
use tccelta.Trip
use tccelta.Trip.{Runes, Draft, pending, boot, interval, normalize_name, repeated}
use tccelta.Trip.Create.{
  with_boot, resolve, placed, place, create_resolved, create, judged, ended, create_loop,
  create_trip,
}
use tccelta.Trip.Create.Again.{quiet, create_trip_again}
use tccelta.Trip.Create.Created.{Ready, Created, create_trip-Created}
use tccelta.Trip.Insert.{
  same_entry, same_loop, find_same, has_entry, same_driver, has_driver, new_trip, add_trip, insert,
}
use tccelta.Trip.Calculate.{calculate}
use tccelta.Trip.Calculate.Taken.{Differ, ids_of}
use tccelta.Trip.Lifecycle.{
  inserted, waits, calculated, fails, Steps, stay, more, IsSound, steps-IsSound, steps-IsUnique,
}
use tccelta.Trip.Onward.{Onward, steps-Onward}
use tccelta.Trip.Listing.{ListQuery}
use tccelta.Trip.Request.{
  Input, any_rune, any_text, valid_fuel, check_name, check_category, is_foreign, required, optional,
  boot_entry, shared_fields, entry_of, new_draft,
}
use tccelta.Trip.Request.Accepted.{IsValid, new_draft-IsValid}
use tccelta.Trip.Rows.{Rows, TripRow, Calculation, trip_by_id, modify, mark_waiting, fail}
use tccelta.Trip.Unique.{IsUnique}
use tccelta.Memory

-- Texts in ASCII without capitals or spaces around them.
abbrev plain : Runes
plain = record {
  trim = λ t. t;
  lower = λ t. t;
  contains = bytes_eq;
  is_control = λ r. ltb r 32;
  is_letter = λ r. leb 97 r && leb r 122;
  is_digit = λ r. leb 48 r && leb r 57;
}

abbrev no_time : Bytes → Option ℕ
no_time t = none

abbrev request : Input
request = record {
  driver_name = codes "ana";
  category = codes "feira";
  fuel = codes "diesel";
  entry_type = codes "boot";
  dongle_id = some (pos 1);
  boot_id = some (pos 8);
  boot_generation = none;
  t0 = none;
  t1 = none;
}

abbrev draft : Draft
draft = record {
  category = codes "feira";
  driver_name = codes "ana";
  driver_name_normalized = codes "ana";
  fuel = codes "diesel";
  dongle_id = 1;
  kind = boot;
  boot_generation = none;
  boot_id = some 8;
  interval_start = none;
  interval_end = none;
  target_seq = 0;
}

accepts_request : new_draft no_time plain request ≡ ok draft
unfolding new_draft check_name check_category any_rune is_foreign valid_fuel any_text bytes_eq
    required entry_of boot_entry optional shared_fields normalize_name
accepts_request = refl

new_draft-IsValid_example : IsValid plain draft
new_draft-IsValid_example = new_draft-IsValid no_time plain request draft accepts_request

-- A dongle 1 that has sent a boot 8, and no trips.
abbrev start : Tables
start = record {
  core = record {
    dongles = [];
    states = (1, record zero_state { head_seq = 40 }) ∷ [];
    last_cs = [];
    challenges = [];
    t_ms_boot = [];
    seen = [];
    raw_blocks = [];
    rejected = [];
    readings = [];
    positions = [];
    gaps = [];
    alerts = [];
    anchors = [];
    notifications = [];
  };
  boots =
      record {
        key = record { dongle_id = 1; generation = 2; boot_id = 8 };
        first_seq = none;
        last_seq = none;
        first_t_ms = none;
        last_t_ms = none;
        max_offset_ms = none;
        a_ms = none;
        b = none;
        base_uncertainty_ms = none;
        time_source = none;
        pending = false;
        pending_since = 0;
        time_updated_at = 0;
        anchored = [];
      }
      ∷ [];
  groups = [];
  data_blocks = [];
  trips = [];
  trip_notifications = 0;
  trip_notified = [];
}

abbrev resolved : Draft
resolved = record draft { boot_generation = some 2; target_seq = 40 }

abbrev first : Trip.Trip
first = new_trip 7 100 resolved

abbrev after : Tables
after = notify_trip (record start { trips = add_trip first [] }) 7

creates_first :
    create_trip plain no_time request
      (quiet plain 7 100 start)
      (quiet plain 7 100 start)
      (quiet plain 7 100 start)
    ≡ (ok first, after)
unfolding create_trip create_loop ended judged create create_resolved place placed resolve with_boot
    read_state lookup latest_generation latest_loop find_same same_loop insert has_entry has_driver
    new_draft check_name check_category any_rune is_foreign valid_fuel any_text bytes_eq required
    entry_of boot_entry optional shared_fields normalize_name new_trip
creates_first = refl

none_yet : IsSound plain []
unfolding IsUnique
none_yet = record { unique = tt; generations = tt }

Ready-at : (id now : ℕ) → Ready plain (quiet plain id now start)
unfolding trip_by_id
Ready-at id now = record { sound = none_yet; fresh = refl }

create_trip-Created_example : Created plain first after
create_trip-Created_example =
    create_trip-Created plain no_time request (quiet plain 7 100 start) (quiet plain 7 100 start)
      (quiet plain 7 100 start) first after (Ready-at 7 100) (Ready-at 7 100) (Ready-at 7 100)
      creates_first

create_trip_again_example :
    create_trip plain no_time request
      (quiet plain 9 200 after)
      (quiet plain 9 200 after)
      (quiet plain 9 200 after)
    ≡ (err (Memory.trip (repeated first.id first.driver_name)), after)
create_trip_again_example =
    create_trip_again plain no_time request 7 100 start first after 9 200 (quiet plain 9 200 after)
      (quiet plain 9 200 after) creates_first

-- One trip is created, waits, is calculated, and a second one of another driver fails.
abbrev other : Draft
other = record resolved {
  driver_name = codes "bia";
  driver_name_normalized = codes "bia";
  boot_generation = some 3;
}

abbrev result : Calculation
result = record {
  summary = record {
    started_at = some 5;
    ended_at = some 9;
    distance_km = none;
    duration_s = none;
  };
  warnings = [];
  first_seq = some 3;
  last_seq = some 30;
  calculated_through_seq = 40;
  provisional = false;
  calculated_at = 300;
}

abbrev one : Rows
one = (insert plain 7 100 resolved []).1

abbrev two : Rows
two = (insert plain 9 150 other one).1

abbrev last : Rows
last = fail 9 (calculate (λ t. some result) 7 (mark_waiting 7 two))

to_one : Steps plain [] one
unfolding trip_by_id new_trip normalize_name
to_one = more stay (inserted 7 100 resolved refl (λ _. refl) refl)

from_one : Steps plain one last
unfolding insert has_entry has_driver same_entry same_driver bytes_eq trip_by_id add_trip new_trip
    mark_waiting modify normalize_name
from_one =
    let second : Steps plain one two = more stay (inserted 9 150 other refl (λ _. refl) refl) in
    more (more (more second (waits 7)) (calculated (λ t. some result) 7)) (fails 9)

one-IsSound : IsSound plain one
one-IsSound = steps-IsSound plain to_one none_yet

steps-IsUnique_example : IsUnique plain last
steps-IsUnique_example = steps-IsUnique plain from_one one-IsSound

abbrev first_row : TripRow
first_row = record { trip = first; calc = none; saves = 0 }

first_stands : trip_by_id one 7 ≡ some first_row
unfolding trip_by_id insert has_entry has_driver add_trip new_trip
first_stands = refl

one-Differ : Differ (ids_of one)
unfolding Differ insert has_entry has_driver add_trip new_trip
one-Differ = (tt, tt)

steps-Onward_example : (y : TripRow) × (trip_by_id last 7 ≡ some y) × Onward plain first_row y
steps-Onward_example = steps-Onward plain 7 first_row from_one one-Differ first_stands

-- A page of one trip each.
abbrev query : ListQuery
query = record { limit = 1; cursor = none; search = [] }
