-- ===== src/Trip/Onward.antt =====
-- What becomes of one trip under any sequence of the operations of the use cases.
use tccelta.Common.{
  ℕ, true, ◌||◌, List, [], ◌∷◌, ◌++◌, All, Option, none, some, ◌≡◌, ◌≢◌, refl, sym, ap, ◌∙◌, subst,
  inl, inr, Bool-cases, Option-cases, ◌==◌, arith, map, false,
}
use mathlib.Core.Option.{some-injective}
use tccelta.Boots.{Boot, latest_generation}
use tccelta.Trip
use tccelta.Trip.{Draft, Runes, normalize_name, Status}
use tccelta.Trip.Calculate.{process, calculate, recalc}
use tccelta.Trip.Calculate.Taken.{Differ, ids_of, take_lem, take_recalc_lem}
use tccelta.Trip.Insert.{insert, new_trip, has_entry, has_driver}
use tccelta.Trip.Lifecycle.{
  Step, Steps, inserted, waits, resolved, calculated, recalculated, fails, marked, cleared, ranged,
  stay, more, new_row, refused_insert, accepted_insert, ranged_one, ranged_one-Moves,
}
use tccelta.Trip.Moves.{
  Moves, may_become, may_become_trans, Moves-refl, waited-Moves, saved-Moves, with_failure-Moves,
  to_recalc-Moves, settled-Moves,
}
use tccelta.Trip.Rows.{
  TripRow, Rows, Calculation, is_failed, trip_by_id, modify, mark_waiting, resolve_generation,
  with_generation, saved, save, with_failure, fail, to_recalc, settled, mark_recalc,
  clear_provisional, mark_recalc_by_range, take, take_recalc,
}
use tccelta.Trip.Unique.{draft_of}

module _ (u : Runes) where
  -- What a trip was made of, but for the generation of its boot.
  abbrev pub request_of : Trip.Trip → Draft
  request_of t = record (draft_of u t) { boot_generation = none }

  -- What was asked for stays, a generation too, and the status goes on.
  pub record Onward (x y : TripRow) : Type 0 where
    pub same_id : x.trip.id ≡ y.trip.id
    pub same_request : request_of x.trip ≡ request_of y.trip
    pub same_generation :
        (g : ℕ) → x.trip.boot_generation ≡ some g → y.trip.boot_generation ≡ some g
    pub same_instant : x.trip.created_at ≡ y.trip.created_at
    pub goes_on : may_become x.trip.status y.trip.status ≡ true

  Moves-Onward : (x y : TripRow) → Moves u x y → Onward x y
  unfolding draft_of
  Moves-Onward x y m = record {
    same_id = m.same_id;
    same_request = ap (λ (d : Draft). record d { boot_generation = none }) m.same_draft;
    same_generation = λ g h. sym (ap (λ (d : Draft). d.boot_generation) m.same_draft) ∙ h;
    same_instant = m.same_instant;
    goes_on = m.goes_on;
  }

  Onward-refl : (x : TripRow) → Onward x x
  Onward-refl x = Moves-Onward x x (Moves-refl u x)

  Onward-trans : (x y z : TripRow) → Onward x y → Onward y z → Onward x z
  Onward-trans x y z m n = record {
    same_id = m.same_id ∙ n.same_id;
    same_request = m.same_request ∙ n.same_request;
    same_generation = λ g h. n.same_generation g (m.same_generation g h);
    same_instant = m.same_instant ∙ n.same_instant;
    goes_on = may_become_trans _ _ _ m.goes_on n.goes_on;
  }

  with_generation-Onward :
      (g : ℕ) (x : TripRow) → x.trip.boot_generation ≡ none → Onward x (with_generation g x)
  unfolding draft_of
  with_generation-Onward g x e = record {
    same_id = refl;
    same_request = refl;
    same_generation = λ v h. ground (arith, e, h);
    same_instant = refl;
    goes_on = let m = Moves-refl u x in m.goes_on;
  }

  -- The ids still differ, and every trip is still there, further on at most.
  record Goes (rows later : Rows) : Type 0 where
    differ : Differ (ids_of later)
    progress :
        (id : ℕ) (x : TripRow)
        → trip_by_id rows id ≡ some x
        → (y : TripRow) × (trip_by_id later id ≡ some y) × Onward x y

  stay-Goes : (rows : Rows) → Differ (ids_of rows) → Goes rows rows
  stay-Goes rows d = record { differ = d; progress = λ id x h. (x, h, Onward-refl x) }

  Goes-trans : (a b c : Rows) → Goes a b → Goes b c → Goes a c
  Goes-trans a b c g h = record {
    differ = h.differ;
    progress = λ id x p.
        let (y, q, m) = g.progress id x p in
        let (z, r, n) = h.progress id y q in (z, r, Onward-trans x y z m n);
  }

  ids_of-modify :
      (rows : Rows) (id : ℕ) (f : TripRow → TripRow)
      → ((x : TripRow) → trip_by_id rows id ≡ some x → Onward x (f x))
      → ids_of (modify rows id f) ≡ ids_of rows
  unfolding modify trip_by_id
  ids_of-modify [] id f m = refl
  ids_of-modify (x ∷ xs) id f m = elim (Bool-cases (x.trip.id == id)) [
    | inl e ↦
        let n : Onward x (f x) = m x (rw e refl) in rw e (ap (λ i. i ∷ ids_of xs) (sym n.same_id))
    | inr e ↦ rw e (ap (λ l. x.trip.id ∷ l) (ids_of-modify xs id f (λ y q. m y (rw e q))))
  ]

  modify-Progress :
      (rows : Rows) (id : ℕ) (f : TripRow → TripRow)
      → ((x : TripRow) → trip_by_id rows id ≡ some x → Onward x (f x))
      → (j : ℕ) (x : TripRow) → trip_by_id rows j ≡ some x
      → (y : TripRow) × (trip_by_id (modify rows id f) j ≡ some y) × Onward x y
  unfolding modify trip_by_id
  modify-Progress [] id f m j x h = cc
  modify-Progress (z ∷ zs) id f m j x h = elim (Bool-cases (z.trip.id == id)) [
    | inl e ↦
        let n : Onward z (f z) = m z (rw e refl) in
        elim (Bool-cases (z.trip.id == j)) [
          | inl g ↦
              let q : z ≡ x = some-injective _ _ (rw g at h) in
              (f z, rw e (rw (sym n.same_id) (rw g refl)), subst (λ w. Onward w (f z)) q n)
          | inr g ↦ (x, rw e (rw (sym n.same_id) (rw g (rw g at h))), Onward-refl x)
        ]
    | inr e ↦ elim (Bool-cases (z.trip.id == j)) [
      | inl g ↦ (x, rw e (rw g (rw g at h)), Onward-refl x)
      | inr g ↦
          let rest = modify-Progress zs id f (λ y q. m y (rw e q)) j x (rw g at h) in
          (rest.0, rw e (rw g rest.1), rest.2)
    ]
  ]

  modify-Goes :
      (rows : Rows) (id : ℕ) (f : TripRow → TripRow)
      → ((x : TripRow) → trip_by_id rows id ≡ some x → Onward x (f x))
      → Differ (ids_of rows)
      → Goes rows (modify rows id f)
  modify-Goes rows id f m d = record {
    differ = subst Differ (sym (ids_of-modify rows id f m)) d;
    progress = modify-Progress rows id f m;
  }

  marked-Goes :
      (ids : List ℕ) (rows : Rows) → Differ (ids_of rows) → Goes rows (mark_recalc ids rows)
  unfolding mark_recalc
  marked-Goes [] rows d = stay-Goes rows d
  marked-Goes (id ∷ ids) rows d =
      let g =
        modify-Goes rows id to_recalc (λ x h. Moves-Onward x (to_recalc x) (to_recalc-Moves u x))
          d in
      Goes-trans _ _ _ g (marked-Goes ids _ g.differ)

  resolved-Goes :
      (boots : List Boot) (id dongle_id boot_id : ℕ) (rows : Rows)
      → Differ (ids_of rows)
      → Goes rows (resolve_generation boots id dongle_id boot_id rows).1
  unfolding resolve_generation
  resolved-Goes boots id dongle_id boot_id rows d = elim (Option-cases (trip_by_id rows id)) [
    | inl e ↦ rw (e, resolve_generation) (stay-Goes rows d)
    | inr (x, e) ↦ elim (Option-cases x.trip.boot_generation) [
      | inr (g, q) ↦ rw (e, q, resolve_generation) (stay-Goes rows d)
      | inl q ↦ elim (Option-cases (latest_generation boots dongle_id boot_id)) [
        | inl h ↦ rw (e, q, h, resolve_generation) (stay-Goes rows d)
        | inr (g, h) ↦
            let lacks : (y : TripRow)
                → trip_by_id rows id ≡ some y
                → y.trip.boot_generation ≡ none =
              λ y k.
                ap (λ (z : TripRow). z.trip.boot_generation) (some-injective y x (sym k ∙ e)) ∙ q in
            rw (e, q, h, resolve_generation)
              (modify-Goes rows id (with_generation g)
                (λ y k. with_generation-Onward g y (lacks y k)) d)
      ]
    ]
  ]

  saved-Goes :
      (rows : Rows) (compute : Trip.Trip → Option Calculation) (taken : Option Trip.Trip)
      → ((t : Trip.Trip) (x : TripRow)
          → taken ≡ some t
          → trip_by_id rows t.id ≡ some x
          → is_failed x.trip.status ≡ false)
      → Differ (ids_of rows)
      → Goes rows (process compute taken rows)
  unfolding process save
  saved-Goes rows compute none k d = stay-Goes rows d
  saved-Goes rows compute (some t) k d = elim (Option-cases (compute t)) [
    | inl e ↦ rw (e, process) (stay-Goes rows d)
    | inr (c, e) ↦
        rw (e, process)
          (modify-Goes rows t.id (saved c)
            (λ x h. Moves-Onward x (saved c x) (saved-Moves u c x (k t x refl h))) d)
  ]

  module _ (f : TripRow → TripRow) (m : (x : TripRow) → Moves u x (f x)) where
    ids_of-map : (rows : Rows) → ids_of (map f rows) ≡ ids_of rows
    ids_of-map [] = refl
    ids_of-map (x ∷ xs) = λ i. sym (m x).same_id i ∷ ids_of-map xs i

    map-Progress :
        (rows : Rows) (id : ℕ) (x : TripRow)
        → trip_by_id rows id ≡ some x
        → (y : TripRow) × (trip_by_id (map f rows) id ≡ some y) × Onward x y
    unfolding trip_by_id
    map-Progress [] id x h = cc
    map-Progress (y ∷ ys) id x h = elim (Bool-cases (y.trip.id == id)) [
      | inl e ↦
          let q : y ≡ x = some-injective _ _ (rw e at h) in
          (
            f y,
            rw (sym (m y).same_id) (rw e refl),
            subst (λ w. Onward w (f y)) q (Moves-Onward y (f y) (m y)),
          )
      | inr e ↦
          let rest = map-Progress ys id x (rw e at h) in
          (rest.0, rw (sym (m y).same_id) (rw e rest.1), rest.2)
    ]

  ranged-Goes :
      (id from to : ℕ) (rows : Rows)
      → Differ (ids_of rows)
      → Goes rows (mark_recalc_by_range id from to rows)
  unfolding mark_recalc_by_range ranged_one
  ranged-Goes id from to rows d =
      let f = ranged_one u id from to in
      let m = ranged_one-Moves u id from to in
      record {
        differ = subst Differ (sym (ids_of-map f m rows)) d;
        progress = map-Progress f m rows;
      }

  appended-Progress :
      (rows : Rows) (y : TripRow) (id : ℕ) (x : TripRow)
      → trip_by_id rows id ≡ some x
      → (z : TripRow) × (trip_by_id (rows ++ y ∷ []) id ≡ some z) × Onward x z
  unfolding trip_by_id
  appended-Progress [] y id x h = cc
  appended-Progress (z ∷ zs) y id x h = elim (Bool-cases (z.trip.id == id)) [
    | inl e ↦ (x, rw e (rw e at h), Onward-refl x)
    | inr e ↦ let rest = appended-Progress zs y id x (rw e at h) in (rest.0, rw e rest.1, rest.2)
  ]

  appended-Differ :
      (rows : Rows) (y : TripRow)
      → trip_by_id rows y.trip.id ≡ none
      → Differ (ids_of rows)
      → Differ (ids_of (rows ++ y ∷ []))
  unfolding trip_by_id Differ
  appended-Differ [] y h d = (tt, tt)
  appended-Differ (x ∷ xs) y h d = elim (Bool-cases (x.trip.id == y.trip.id)) [
    | inl e ↦ ground (arith, rw e at h)
    | inr e ↦ (others x.trip.id xs d.0 (ground (arith, e)), appended-Differ xs y (rw e at h) d.1)
  ]
    where
      others :
          (n : ℕ) (zs : Rows)
          → All (λ i. n ≢ i) (ids_of zs)
          → n ≢ y.trip.id
          → All (λ i. n ≢ i) (ids_of (zs ++ y ∷ []))
      others n [] a q = (q, tt)
      others n (z ∷ zs) a q = (a.0, others n zs a.1 q)

  inserted-Goes :
      (id now : ℕ) (d : Draft) (rows : Rows)
      → trip_by_id rows id ≡ none
      → Differ (ids_of rows)
      → Goes rows (insert u id now d rows).1
  unfolding new_trip
  inserted-Goes id now d rows new k = elim (Bool-cases (has_entry rows d || has_driver u rows d)) [
    | inl e ↦ subst (Goes rows) (sym (refused_insert u id now d rows e)) (stay-Goes rows k)
    | inr e ↦ subst (Goes rows) (sym (accepted_insert u id now d rows e)) record {
      differ = appended-Differ rows (new_row id now d) new k;
      progress = appended-Progress rows (new_row id now d);
    }
  ]

  step-Goes : {rows later : Rows} → Step u rows later → Differ (ids_of rows) → Goes rows later
  unfolding mark_waiting fail clear_provisional calculate recalc
  step-Goes {rows} (inserted id now d n g new) k = inserted-Goes id now d rows new k
  step-Goes {rows} (waits id) k =
      modify-Goes rows id _ (λ x h. Moves-Onward x _ (waited-Moves u x)) k
  step-Goes {rows} (resolved boots id dongle_id boot_id b) k =
      resolved-Goes boots id dongle_id boot_id rows k
  step-Goes {rows} (calculated compute id) k =
      saved-Goes rows compute (take id rows) (take_lem id rows) k
  step-Goes {rows} (recalculated compute) k =
      saved-Goes rows compute (take_recalc rows) (λ t x. take_recalc_lem rows t x k) k
  step-Goes {rows} (fails id) k =
      modify-Goes rows id with_failure (λ x h. Moves-Onward x _ (with_failure-Moves u x)) k
  step-Goes {rows} (marked ids) k = marked-Goes ids rows k
  step-Goes {rows} (cleared id) k =
      modify-Goes rows id settled (λ x h. Moves-Onward x _ (settled-Moves u x)) k
  step-Goes {rows} (ranged id from to) k = ranged-Goes id from to rows k

  steps-Goes : {rows later : Rows} → Steps u rows later → Differ (ids_of rows) → Goes rows later
  steps-Goes {rows} stay k = stay-Goes rows k
  steps-Goes (more r st) k = let g = steps-Goes r k in Goes-trans _ _ _ g (step-Goes st g.differ)

  -- Of trips with different ids, under any sequence of the operations of the use cases: a trip stays, with
  -- its entry, driver, category, fuel and instant, and with its generation once it has one; and its status
  -- goes from pending to waiting, ready or failed and never back; ready and failed are final.
  pub steps-Onward :
      {rows later : Rows} (id : ℕ) (x : TripRow)
      → Steps u rows later
      → Differ (ids_of rows)
      → trip_by_id rows id ≡ some x
      → (y : TripRow) × (trip_by_id later id ≡ some y) × Onward x y
  steps-Onward id x r k h = (steps-Goes r k).progress id x h
