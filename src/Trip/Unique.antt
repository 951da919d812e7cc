-- ===== src/Trip/Unique.antt =====
-- No two trips that did not fail have the same entry, or the same driver in a category.
use tccelta.Common.{
  ℕ, Bool, false, ◌||◌, [], ◌∷◌, ◌++◌, All, none, ◌≡◌, ◌≢◌, sym, inl, inr, Bool-cases, arith,
}
use tccelta.Trip
use tccelta.Trip.{Status, Draft, Runes, normalize_name, Error}
use tccelta.Trip.Insert.{same_entry, has_entry, same_driver, has_driver, new_trip, add_trip, insert}
use tccelta.Trip.Rows.{TripRow, Rows, is_failed, trip_by_id}

-- What a trip was made of.
unfoldable pub draft_of : Runes → Trip.Trip → Draft
draft_of u t = record {
  category = t.category;
  driver_name = t.driver_name;
  driver_name_normalized = normalize_name u t.driver_name;
  fuel = t.fuel;
  dongle_id = t.dongle_id;
  kind = t.kind;
  boot_generation = t.boot_generation;
  boot_id = t.boot_id;
  interval_start = t.interval_start;
  interval_end = t.interval_end;
  target_seq = t.target_seq;
}

-- Two trips with one entry, or of one driver in one category.
unfoldable pub collides : Runes → Trip.Trip → Draft → Bool
collides u x d = same_entry x d || same_driver u x d

abbrev pub Apart : Runes → TripRow → TripRow → Type 0
Apart u x y = is_failed y.trip.status ≡ false → collides u x.trip (draft_of u y.trip) ≡ false

-- Each row is apart from those behind it, and has another id.
unfoldable pub IsUnique : Runes → Rows → Type 0
IsUnique u [] = Unit
IsUnique u (x ∷ xs) = All (λ y. Apart u x y × (x.trip.id ≢ y.trip.id)) xs × IsUnique u xs

module _ (u : Runes) where
  no_collision :
      (rows : Rows) (d : Draft)
      → has_entry rows d ≡ false
      → has_driver u rows d ≡ false
      → All (λ x. collides u x.trip d ≡ false) rows
  unfolding has_entry has_driver collides
  no_collision [] d p q = tt
  no_collision (x ∷ xs) d p q = (ground arith, no_collision xs d (ground arith) (ground arith))

  draft_of-new_trip :
      (id now : ℕ) (d : Draft)
      → d.driver_name_normalized ≡ normalize_name u d.driver_name
      → draft_of u (new_trip id now d) ≡ d
  unfolding draft_of new_trip
  draft_of-new_trip id now d h i = record d { driver_name_normalized = sym h i }

  absent : (rows : Rows) (id : ℕ) → trip_by_id rows id ≡ none → All (λ x. x.trip.id ≢ id) rows
  unfolding trip_by_id
  absent [] id h = tt
  absent (x ∷ xs) id h = (ground arith, absent xs id (ground arith))

  appended :
      (rows : Rows) (y : TripRow)
      → All (λ x. collides u x.trip (draft_of u y.trip) ≡ false) rows
      → All (λ x. x.trip.id ≢ y.trip.id) rows
      → IsUnique u rows
      → IsUnique u (rows ++ y ∷ [])
  unfolding IsUnique
  appended [] y p q h = (tt, tt)
  appended (x ∷ xs) y p q h = (All_append_one xs y h.0 (λ _. p.0, q.0), appended xs y p.1 q.1 h.1)
    where
      All_append_one :
          (zs : Rows) (z : TripRow)
          → All (λ w. Apart u x w × (x.trip.id ≢ w.trip.id)) zs
          → Apart u x z × (x.trip.id ≢ z.trip.id)
          → All (λ w. Apart u x w × (x.trip.id ≢ w.trip.id)) (zs ++ z ∷ [])
      All_append_one [] z h k = (k, tt)
      All_append_one (w ∷ zs) z h k = (h.0, All_append_one zs z h.1 k)

  -- An Insert with an id that no trip has leaves the trips unique.
  pub insert-IsUnique :
      (id now : ℕ) (d : Draft) (rows : Rows)
      → d.driver_name_normalized ≡ normalize_name u d.driver_name
      → trip_by_id rows id ≡ none
      → IsUnique u rows
      → IsUnique u (insert u id now d rows).1
  unfolding insert add_trip
  insert-IsUnique id now d rows n new h = elim (Bool-cases (has_entry rows d)) [
    | inl p ↦ rw p h
    | inr p ↦ elim (Bool-cases (has_driver u rows d)) [
      | inl q ↦ rw p (rw q h)
      | inr q ↦ rw p (
          rw q (
            appended rows _ (rw (draft_of-new_trip id now d n) (no_collision rows d p q))
              (absent_new rows id now d new) h))
    ]
  ]
    where
      absent_new :
          (rows : Rows) (id now : ℕ) (d : Draft)
          → trip_by_id rows id ≡ none
          → All (λ x. x.trip.id ≢ (new_trip id now d).id) rows
      absent_new rows id now d h = unfold new_trip in absent rows id h
