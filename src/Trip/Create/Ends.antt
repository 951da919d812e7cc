-- ===== src/Trip/Create/Ends.antt =====
-- How CreateTrip ends.
use mathlib.Core.Option.{some-injective}
use tccelta.Common.{
  ok-injective, ◌≢◌, ℕ, false, List, [], ◌∷◌, none, some, ok, Result-cases, ◌≡◌, refl, sym, ap, ◌∙◌,
  inl, inr, Bool-cases, Option-cases, arith,
}
use tccelta.Memory.Tables.{Tables, notify_trip}
use tccelta.Trip
use tccelta.Trip.{
  Status, Kind, boot, interval, Draft, Runes, Error, trip_repeated, repeated, normalize_name,
}
use tccelta.Trip.Create.{
  Attempt, resolve, place, placed, create_resolved, create, is_race, winner, judged, ended,
  create_loop,
}
use tccelta.Trip.Insert.{find_same, insert, new_trip, add_trip, has_entry, has_driver}
use tccelta.Trip.Rows.{Rows}

-- An element of a list, by its place.
pub data Mem {ℓ} {A : Type ℓ} (x : A) : List A → Type ℓ where
  mem_head : {xs : List A} → Mem x (x ∷ xs)
  mem_tail : {y : A} {xs : List A} → Mem x xs → Mem x (y ∷ xs)

module _ (u : Runes) where
  -- An attempt that made a trip of the draft `d`.
  pub record Made (a : Attempt) (draft : Draft) (t : Trip.Trip) (c : Tables) : Type 0 where
    pub d : Draft
    pub resolves : resolve a.before draft ≡ ok d
    pub alone : find_same a.before.trips d ≡ none
    pub no_entry : has_entry a.at_insert.trips d ≡ false
    pub no_driver : has_driver u a.at_insert.trips d ≡ false
    pub made : new_trip a.id a.now d ≡ t
    pub stored : notify_trip (record a.at_insert { trips = add_trip t a.at_insert.trips }) t.id ≡ c

  pub insert_made :
      (id now : ℕ) (d : Draft) (rows : Rows)
      → has_entry rows d ≡ false
      → has_driver u rows d ≡ false
      → insert u id now d rows ≡ (ok (new_trip id now d), add_trip (new_trip id now d) rows)
  unfolding insert
  insert_made id now d rows e f = rw e (rw f refl)

  place-Made :
      (a : Attempt) (d : Draft) (t : Trip.Trip) (b c : Tables)
      → place u a d b ≡ (ok t, c)
      → (has_entry b.trips d ≡ false)
        × (has_driver u b.trips d ≡ false)
        × (new_trip a.id a.now d ≡ t)
        × (notify_trip (record b { trips = add_trip t b.trips }) t.id ≡ c)
  unfolding place placed insert
  place-Made a d t b c h = elim (Bool-cases (has_entry b.trips d)) [
    | inl e ↦ ground arith
    | inr e ↦ elim (Bool-cases (has_driver u b.trips d)) [
      | inl f ↦ ground arith
      | inr f ↦
          let g = ap (placed u b) (sym (insert_made a.id a.now d b.trips e f)) ∙ h in
          let n : new_trip a.id a.now d ≡ t = ok-injective _ _ (λ i. (g i).0) in
          (
            e,
            f,
            n,
            (λ i. notify_trip (record b { trips = add_trip (sym n i) b.trips }) (sym n i).id)
                ∙ (λ i. (g i).1),
          )
    ]
  ]

  -- An attempt that ended well.
  create-Made :
      (a : Attempt) (draft : Draft) (t : Trip.Trip) (c : Tables)
      → (create u a draft).0.0 ≡ ok t
      → (create u a draft).1 ≡ c
      → Made a draft t c
  unfolding create create_resolved
  create-Made a draft t c h k = elim (Result-cases (resolve a.before draft)) [
    | inr (x, e) ↦ ground arith
    | inl (d, e) ↦ elim (Option-cases (find_same a.before.trips d)) [
      | inr (x, f) ↦ ground arith
      | inl f ↦
          let r : (place u a d a.at_insert).0 ≡ ok t =
            rw (f, create_resolved) at (rw (e, create) at h) in
          let s : (place u a d a.at_insert).1 ≡ c =
            rw (f, create_resolved) at (rw (e, create) at k) in
          let p = place-Made a d t a.at_insert c (λ i. (r i, s i)) in
          record {
            d = d;
            resolves = e;
            alone = f;
            no_entry = p.0;
            no_driver = p.1;
            made = p.2;
            stored = p.3;
          }
    ]
  ]

  -- An attempt that ended the loop well was one that made the trip.
  winner-ne-ok :
      (a : Attempt) (d : Draft) (t : Trip.Trip) (c : Tables) → winner u a d ≢ some (ok t, c)
  unfolding winner
  winner-ne-ok a d t c h = ground arith

  ended-Made :
      (a : Attempt) (draft : Draft) (t : Trip.Trip) (c : Tables)
      → ended u a draft ≡ some (ok t, c)
      → Made a draft t c
  unfolding ended judged
  ended-Made a draft t c h = elim (Bool-cases (is_race u (create u a draft).0.0)) [
    | inl e ↦ absurd (winner-ne-ok a _ t c (rw (e, judged) at h))
    | inr e ↦
        let g = some-injective _ _ (rw (e, judged) at h) in
        create-Made a draft t c (λ i. (g i).0) (λ i. (g i).1)
  ]

  pub create_loop-Made :
      (draft : Draft) (a : Attempt) (rest : List Attempt) (t : Trip.Trip) (c : Tables)
      → create_loop u draft a rest ≡ (ok t, c)
      → (b : Attempt) × Mem b (a ∷ rest) × Made b draft t c
  unfolding create_loop
  create_loop-Made draft a [] t c h = elim (Option-cases (ended u a draft)) [
    | inl e ↦ ground arith
    | inr (x, e) ↦ (a, mem_head, ended-Made a draft t c (e ∙ ap some (rw (e, create_loop) at h)))
  ]
  create_loop-Made draft a (next ∷ rest) t c h = elim (Option-cases (ended u a draft)) [
    | inl e ↦
        let (b, m, g) = create_loop-Made draft next rest t c (rw (e, create_loop) at h) in
        (b, mem_tail m, g)
    | inr (x, e) ↦ (a, mem_head, ended-Made a draft t c (e ∙ ap some (rw (e, create_loop) at h)))
  ]
