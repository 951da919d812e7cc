-- ===== src/Trip/Create.antt =====
-- backend/internal/usecase/trip/create_trip.go: CreateTrip, with get_trip.go. The transactions of
-- others are an argument: an attempt comes with the tables as its first statements see them, as its
-- Insert sees them (a statement of a READ COMMITTED transaction sees what was committed before it) and
-- as the transaction behind it sees them. In memory the three are one.
pub mod Created
pub mod Again
pub mod Ends
use tccelta.Common.{
  ℕ, Bool, true, false, Option, none, some, Result, ok, err, List, [], ◌∷◌, ◌>>=◌, ◌>>◌, fail_if,
}
use tccelta.Common.Bytes.{Bytes}
use tccelta.Boots.{latest_generation}
use tccelta.Memory.{Fault, trip, read_state}
use tccelta.Memory.Tables.{Tables, notify_trip}
use tccelta.Trip
use tccelta.Trip.{
  Status, ready, Kind, boot, interval, Draft, Runes, Error, trip_repeated, repeated, boot_not_found,
}
use tccelta.Trip.Insert.{find_same, insert}
use tccelta.Trip.Request.{Input, new_draft}
use tccelta.Trip.Rows.{Rows, find}

-- The generation of a boot: the given one, else the latest. (NewDraft gives a boot its boot_id.)
unfoldable pub with_boot : Tables → Draft → Result Fault Draft
with_boot b d = elim d.kind [
  | interval ↦ ok d
  | boot ↦ elim d.boot_id [
    | none ↦ err (trip boot_not_found)
    | some id ↦ elim (latest_generation b.boots d.dongle_id id) [
      | none ↦ err (trip boot_not_found)
      | some g ↦ elim d.boot_generation [
        | none ↦ ok (record d { boot_generation = some g })
        | some _ ↦ ok d
      ]
    ]
  ]
]

-- The first statements of the transaction: the cut of the data and the generation of the boot.
unfoldable pub resolve : Tables → Draft → Result Fault Draft
resolve b draft = do
  st ← read_state b.core draft.dongle_id
  with_boot b (record draft { target_seq = st.head_seq })

-- One attempt; `id` and `now` are what uuid.New and the clock give.
pub record Attempt : Type 0 where
  pub id : ℕ
  pub now : ℕ
  pub before : Tables
  pub at_insert : Tables
  pub after : Tables

module _ (u : Runes) where
  -- Behind Insert: NotifyTrip, or its error.
  unfoldable pub placed : Tables → Result Error Trip.Trip × Rows → Result Fault Trip.Trip × Tables
  placed b (err e, rows) = (err (trip e), b)
  placed b (ok t, rows) = (ok t, notify_trip (record b { trips = rows }) t.id)

  unfoldable pub place : Attempt → Draft → Tables → Result Fault Trip.Trip × Tables
  place a d b = placed b (insert u a.id a.now d b.trips)

  unfoldable pub create_resolved : Attempt → Draft → Result Fault Trip.Trip × Tables
  create_resolved a d = elim (find_same a.before.trips d) [
    | some t ↦ (err (trip (repeated t.id t.driver_name)), a.before)
    | none ↦ place a d a.at_insert
  ]

  -- create: the trip or the error, and the draft as it was resolved.
  unfoldable pub create : Attempt → Draft → (Result Fault Trip.Trip × Draft) × Tables
  create a draft = elim (resolve a.before draft) [
    | err e ↦ ((err e, draft), a.before)
    | ok d ↦ let (r, c) = create_resolved a d in ((r, d), c)
  ]

  -- Whether the unique index has refused the Insert; the draft is kept for FindSame.
  abbrev pub is_race : Result Fault Trip.Trip → Bool
  is_race (err (trip trip_repeated)) = true
  is_race _ = false

  -- Behind a race: the trip that won, or nothing.
  unfoldable pub winner : Attempt → Draft → Option (Result Fault Trip.Trip × Tables)
  winner a d = elim (find_same a.after.trips d) [
    | some t ↦ some (err (trip (repeated t.id t.driver_name)), a.after)
    | none ↦ none
  ]

  -- How an attempt ends the loop, if it does.
  unfoldable pub judged :
      Attempt → (Result Fault Trip.Trip × Draft) × Tables → Option (Result Fault Trip.Trip × Tables)
  judged a ((r, d), c) = elim (is_race r) [ false ↦ some (r, c) | true ↦ winner a d ]

  unfoldable pub ended : Attempt → Draft → Option (Result Fault Trip.Trip × Tables)
  ended a draft = judged a (create a draft)

  -- The loop of Run over the attempts; `rest` are those that are left.
  unfoldable pub create_loop : Draft → Attempt → List Attempt → Result Fault Trip.Trip × Tables
  create_loop draft a [] = elim (ended a draft) [
    | some x ↦ x
    | none ↦ (err (trip trip_repeated), a.after)
  ]
  create_loop draft a (next ∷ rest) =
      let again = create_loop draft next rest in elim (ended a draft) [ some x ↦ x | none ↦ again ]

  -- CreateTrip.Run, with its three attempts.
  unfoldable pub create_trip :
      (Bytes → Option ℕ) → Input → Attempt → Attempt → Attempt → Result Fault Trip.Trip × Tables
  create_trip parse i a1 a2 a3 = elim (new_draft parse u i) [
    | err e ↦ (err (trip e), a1.before)
    | ok d ↦ create_loop d a1 (a2 ∷ a3 ∷ [])
  ]

-- GetTrip.Run
unfoldable pub get_trip : Tables → ℕ → Result Error Trip.Trip
get_trip b id = find b.trips id
