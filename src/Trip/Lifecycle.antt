-- ===== src/Trip/Lifecycle.antt =====
-- The life of the trips under any sequence of the operations of their table.
use tccelta.Common.{
  ℕ, true, false, ◌&&◌, ◌||◌, List, [], ◌∷◌, ◌++◌, All, All-append, Option, none, some, ◌≡◌, ◌≢◌,
  refl, sym, ◌∙◌, subst, inl, inr, Bool-cases, Option-cases, ◌==◌, arith, if◌then◌else◌, map,
}
use mathlib.Core.Option.{some-injective}
use tccelta.Boots.{Boot}
use tccelta.Trip.{boot, Draft, Runes, normalize_name}
use tccelta.Trip.Insert.{insert, new_trip, add_trip, has_entry, has_driver}
use tccelta.Trip.Moves.{
  Moves, Moves-refl, waited-Moves, saved-Moves, with_failure-Moves, to_recalc-Moves, settled-Moves,
  Apart-left, Apart-right, Moving, modify-All, modify-IsUnique,
}
use tccelta.Trip
use tccelta.Trip.Calculate.{process, calculate, recalc}
use tccelta.Trip.Calculate.Taken.{Differ, ids_of, take_lem, take_recalc_lem}
use tccelta.Trip.Request.{is_given}
use tccelta.Trip.Rows.{
  TripRow, Rows, Calculation, is_failed, trip_by_id, modify, mark_waiting, resolve_generation,
  saved, save, with_failure, fail, to_recalc, settled, mark_recalc, clear_provisional,
  mark_recalc_by_range, touches, take, take_recalc,
}
use tccelta.Trip.Unique.{draft_of, Apart, IsUnique, insert-IsUnique}

abbrev pub new_row : ℕ → ℕ → Draft → TripRow
new_row id now d = record { trip = new_trip id now d; calc = none; saves = 0 }

pub refused_insert :
    (u : Runes) (id now : ℕ) (d : Draft) (rows : Rows)
    → (has_entry rows d || has_driver u rows d) ≡ true
    → (insert u id now d rows).1 ≡ rows
unfolding insert
refused_insert u id now d rows h = ground arith

pub accepted_insert :
    (u : Runes) (id now : ℕ) (d : Draft) (rows : Rows)
    → (has_entry rows d || has_driver u rows d) ≡ false
    → (insert u id now d rows).1 ≡ rows ++ new_row id now d ∷ []
unfolding insert add_trip
accepted_insert u id now d rows h = ground arith

module _ (u : Runes) where
  -- An operation on the trips, as the use cases call it: CreateTrip inserts a trip under a fresh id, a boot
  -- with its generation; the generation of boots only is resolved; Save runs in the transaction that has
  -- taken its trip.
  pub data Step (rows : Rows) : Rows → Type 0 where
    inserted :
        (id now : ℕ) (d : Draft)
        → d.driver_name_normalized ≡ normalize_name u d.driver_name
        → (d.kind ≡ boot → is_given d.boot_generation ≡ true)
        → trip_by_id rows id ≡ none
        → Step rows (insert u id now d rows).1
    waits : (id : ℕ) → Step rows (mark_waiting id rows)
    resolved :
        (boots : List Boot) (id dongle_id boot_id : ℕ)
        → ((x : TripRow) → trip_by_id rows id ≡ some x → x.trip.kind ≡ boot)
        → Step rows (resolve_generation boots id dongle_id boot_id rows).1
    calculated :
        (compute : Trip.Trip → Option Calculation) (id : ℕ) → Step rows (calculate compute id rows)
    recalculated : (compute : Trip.Trip → Option Calculation) → Step rows (recalc compute rows)
    fails : (id : ℕ) → Step rows (fail id rows)
    marked : (ids : List ℕ) → Step rows (mark_recalc ids rows)
    cleared : (id : ℕ) → Step rows (clear_provisional id rows)
    ranged : (id from to : ℕ) → Step rows (mark_recalc_by_range id from to rows)

  pub data Steps (rows : Rows) : Rows → Type 0 where
    stay : Steps rows rows
    more : {later last : Rows} → Steps rows later → Step later last → Steps rows last

  -- A trip of a boot has the generation of the boot.
  abbrev HasGeneration : TripRow → Type 0
  HasGeneration x =
      (draft_of u x.trip).kind ≡ boot → is_given (draft_of u x.trip).boot_generation ≡ true

  pub record IsSound (rows : Rows) : Type 0 where
    pub unique : IsUnique u rows
    pub generations : All HasGeneration rows

  modify-IsSound :
      (rows : Rows) (id : ℕ) (f : TripRow → TripRow)
      → Moving u rows id f
      → IsSound rows
      → IsSound (modify rows id f)
  unfolding Moving
  modify-IsSound rows id f m s = record {
    unique = modify-IsUnique u rows id f m s.unique;
    generations =
        modify-All u HasGeneration rows id f
          (λ x h g.
            let n : Moves u x (f x) = m x h in
            subst (λ d. d.kind ≡ boot → is_given d.boot_generation ≡ true) n.same_draft g)
          s.generations;
  }

  marked-IsSound : (ids : List ℕ) (rows : Rows) → IsSound rows → IsSound (mark_recalc ids rows)
  unfolding mark_recalc Moving
  marked-IsSound [] rows s = s
  marked-IsSound (id ∷ ids) rows s =
      marked-IsSound ids _ (modify-IsSound rows id to_recalc (λ x h. to_recalc-Moves u x) s)

  unique-Differ : (rows : Rows) → IsUnique u rows → Differ (ids_of rows)
  unfolding IsUnique Differ
  unique-Differ [] h = tt
  unique-Differ (x ∷ xs) h = (other_ids x xs h.0, unique-Differ xs h.1)
    where
      other_ids :
          (x : TripRow) (ys : Rows)
          → All (λ y. Apart u x y × (x.trip.id ≢ y.trip.id)) ys
          → All (λ m. x.trip.id ≢ m) (ids_of ys)
      other_ids x [] a = tt
      other_ids x (y ∷ ys) a = (a.0.1, other_ids x ys a.1)

  saved-IsSound :
      (rows : Rows) (compute : Trip.Trip → Option Calculation) (taken : Option Trip.Trip)
      → ((t : Trip.Trip) (x : TripRow)
          → taken ≡ some t
          → trip_by_id rows t.id ≡ some x
          → is_failed x.trip.status ≡ false)
      → IsSound rows
      → IsSound (process compute taken rows)
  unfolding process save Moving
  saved-IsSound rows compute none k s = s
  saved-IsSound rows compute (some t) k s = elim (Option-cases (compute t)) [
    | inl e ↦ rw (e, process) s
    | inr (c, e) ↦
        rw (e, process)
          (modify-IsSound rows t.id (saved c) (λ x h. saved-Moves u c x (k t x refl h)) s)
  ]

  found :
      (rows : Rows) (id : ℕ) {x : TripRow} (P : TripRow → Type 0)
      → All P rows
      → trip_by_id rows id ≡ some x
      → P x
  unfolding trip_by_id
  found [] id P a h = cc
  found (y ∷ ys) id {x} P a h = elim (Bool-cases (y.trip.id == id)) [
    | inl e ↦ subst P (some-injective _ _ (rw e at h)) a.0
    | inr e ↦ found ys id P a.1 (rw e at h)
  ]

  resolved-IsSound :
      (boots : List Boot) (id dongle_id boot_id : ℕ) (rows : Rows)
      → ((x : TripRow) → trip_by_id rows id ≡ some x → x.trip.kind ≡ boot)
      → IsSound rows
      → IsSound (resolve_generation boots id dongle_id boot_id rows).1
  unfolding resolve_generation draft_of
  resolved-IsSound boots id dongle_id boot_id rows k s = elim (Option-cases (trip_by_id rows id)) [
    | inl e ↦ rw (e, resolve_generation) s
    | inr (x, e) ↦
        let g : is_given x.trip.boot_generation ≡ true =
          found rows id HasGeneration s.generations e (k x e) in
        elim (Option-cases x.trip.boot_generation) [
          | inl q ↦ ground (arith, g, q)
          | inr (v, q) ↦ rw (e, resolve_generation) (rw (q, resolve_generation) s)
        ]
  ]

  -- MarkRecalcByRange makes each trip ready for a recalculation, or leaves it.
  unfoldable pub ranged_one : ℕ → ℕ → ℕ → TripRow → TripRow
  ranged_one id from to x =
      if x.trip.dongle_id == id && touches x.trip from to then to_recalc x else x

  pub ranged_one-Moves : (id from to : ℕ) (x : TripRow) → Moves u x (ranged_one id from to x)
  unfolding ranged_one
  ranged_one-Moves id from to x =
      elim (Bool-cases (x.trip.dongle_id == id && touches x.trip from to)) [
        | inl e ↦ rw e (to_recalc-Moves u x)
        | inr e ↦ rw e (Moves-refl u x)
      ]

  module _ (f : TripRow → TripRow) (m : (x : TripRow) → Moves u x (f x)) where
    map-Apart :
        (x : TripRow) (rows : Rows)
        → All (λ y. Apart u x y × (x.trip.id ≢ y.trip.id)) rows
        → All (λ y. Apart u (f x) y × ((f x).trip.id ≢ y.trip.id)) (map f rows)
    map-Apart x [] h = tt
    map-Apart x (y ∷ ys) h = (
      (
        Apart-left u x (f x) (f y) (m x) (Apart-right u x y (f y) (m y) h.0.0),
        λ r. h.0.1 ((m x).same_id ∙ r ∙ sym (m y).same_id),
      ),
      map-Apart x ys h.1,
    )

    map-IsUnique : (rows : Rows) → IsUnique u rows → IsUnique u (map f rows)
    unfolding IsUnique
    map-IsUnique [] h = tt
    map-IsUnique (x ∷ xs) h = (map-Apart x xs h.0, map-IsUnique xs h.1)

    map-generations : (rows : Rows) → All HasGeneration rows → All HasGeneration (map f rows)
    map-generations [] h = tt
    map-generations (x ∷ xs) h = (
      subst (λ d. d.kind ≡ boot → is_given d.boot_generation ≡ true) (m x).same_draft h.0,
      map-generations xs h.1,
    )

  ranged-IsSound :
      (id from to : ℕ) (rows : Rows) → IsSound rows → IsSound (mark_recalc_by_range id from to rows)
  unfolding mark_recalc_by_range ranged_one
  ranged-IsSound id from to rows s =
      let f = ranged_one id from to in
      let m = ranged_one-Moves id from to in
      record {
        unique = map-IsUnique f m rows s.unique;
        generations = map-generations f m rows s.generations;
      }

  inserted-IsSound :
      (id now : ℕ) (d : Draft) (rows : Rows)
      → d.driver_name_normalized ≡ normalize_name u d.driver_name
      → (d.kind ≡ boot → is_given d.boot_generation ≡ true)
      → trip_by_id rows id ≡ none
      → IsSound rows
      → IsSound (insert u id now d rows).1
  inserted-IsSound id now d rows n g new s =
      let unique = insert-IsUnique u id now d rows n new s.unique in
      elim (Bool-cases (has_entry rows d || has_driver u rows d)) [
        | inl e ↦ subst IsSound (sym (refused_insert u id now d rows e)) s
        | inr e ↦ subst IsSound (sym (accepted_insert u id now d rows e)) record {
          unique = subst (IsUnique u) (accepted_insert u id now d rows e) unique;
          generations =
              All-append HasGeneration rows _ s.generations (new_generation id now d g, tt);
        }
      ]
    where
      new_generation :
          (id now : ℕ) (d : Draft)
          → (d.kind ≡ boot → is_given d.boot_generation ≡ true)
          → HasGeneration (new_row id now d)
      new_generation id now d g = unfold new_trip draft_of in g

  step-IsSound : {rows later : Rows} → Step rows later → IsSound rows → IsSound later
  unfolding mark_waiting fail clear_provisional Moving calculate recalc
  step-IsSound {rows} (inserted id now d n g new) s = inserted-IsSound id now d rows n g new s
  step-IsSound {rows} (waits id) s = modify-IsSound rows id _ (λ x h. waited-Moves u x) s
  step-IsSound {rows} (resolved boots id dongle_id boot_id k) s =
      resolved-IsSound boots id dongle_id boot_id rows k s
  step-IsSound {rows} (calculated compute id) s =
      saved-IsSound rows compute (take id rows) (take_lem id rows) s
  step-IsSound {rows} (recalculated compute) s =
      saved-IsSound rows compute (take_recalc rows)
        (λ t x. take_recalc_lem rows t x (unique-Differ rows s.unique)) s
  step-IsSound {rows} (fails id) s =
      modify-IsSound rows id with_failure (λ x h. with_failure-Moves u x) s
  step-IsSound {rows} (marked ids) s = marked-IsSound ids rows s
  step-IsSound {rows} (cleared id) s = modify-IsSound rows id settled (λ x h. settled-Moves u x) s
  step-IsSound {rows} (ranged id from to) s = ranged-IsSound id from to rows s

  pub steps-IsSound : {rows later : Rows} → Steps rows later → IsSound rows → IsSound later
  steps-IsSound stay s = s
  steps-IsSound (more r st) s = step-IsSound st (steps-IsSound r s)

  -- Of trips no two of which collide, and in which each boot has its generation, as CreateTrip makes them:
  -- under any sequence of the operations of the use cases no two trips that did not fail have the same entry
  -- or the same driver in a category.
  pub steps-IsUnique : {rows later : Rows} → Steps rows later → IsSound rows → IsUnique u later
  steps-IsUnique r s = (steps-IsSound r s).unique
