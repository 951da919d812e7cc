-- ===== src/Trip/Calculate/Taken.antt =====
-- What is taken to be calculated has not failed.
use tccelta.Common.{
  ℕ, true, false, ◌&&◌, List, [], ◌∷◌, Option, none, some, Option-cases, ◌≡◌, refl, sym, ap, ◌∙◌,
  ◌≢◌, All, map, subst, ◌⊎◌, inl, inr, Bool-cases, ◌==◌, arith, ltb,
}
use mathlib.Core.Option.{some-injective}
use tccelta.Trip
use tccelta.Trip.{Status, pending, waiting_data, ready, failed}
use tccelta.Trip.Rows.{
  TripRow, Rows, is_ready, is_failed, is_waiting, trip_by_id, take, take_recalc, recalc_loop,
  earlier,
}

waiting_lives : (s : Status) → is_waiting s ≡ true → is_failed s ≡ false
waiting_lives pending h = refl
waiting_lives waiting_data h = refl
waiting_lives ready h = refl
waiting_lives failed h = cc

ready_lives : (s : Status) → is_ready s ≡ true → is_failed s ≡ false
ready_lives pending h = refl
ready_lives waiting_data h = refl
ready_lives ready h = refl
ready_lives failed h = cc

trip_by_id-id : (rows : Rows) (id : ℕ) (x : TripRow) → trip_by_id rows id ≡ some x → x.trip.id ≡ id
unfolding trip_by_id
trip_by_id-id [] id x h = cc
trip_by_id-id (y ∷ ys) id x h = elim (Bool-cases (y.trip.id == id)) [
  | inl e ↦
      let q : y ≡ x = some-injective _ _ (rw e at h) in
      subst (λ z. z.trip.id ≡ id) q (ground (arith, e))
  | inr e ↦ trip_by_id-id ys id x (rw e at h)
]

-- The trip that Take gives stands under its id and waits.
pub take_lem :
    (id : ℕ) (rows : Rows) (t : Trip.Trip) (x : TripRow)
    → take id rows ≡ some t
    → trip_by_id rows t.id ≡ some x
    → is_failed x.trip.status ≡ false
unfolding take
take_lem id rows t x h k = elim (Option-cases (trip_by_id rows id)) [
  | inl e ↦ ground (arith, rw (e, take) at h)
  | inr (y, e) ↦ elim (Bool-cases (is_waiting y.trip.status)) [
    | inr w ↦ ground (arith, rw w at (rw (e, take) at h))
    | inl w ↦
        let q : y.trip ≡ t = some-injective _ _ (rw w at (rw (e, take) at h)) in
        let i : t.id ≡ id = ap (λ z. z.id) (sym q) ∙ trip_by_id-id rows id y e in
        let same : y ≡ x = some-injective _ _ (sym e ∙ ap (trip_by_id rows) (sym i) ∙ k) in
        subst (λ z. is_failed z.trip.status ≡ false) same (waiting_lives _ w)
  ]
]

==_refl : (n : ℕ) → (n == n) ≡ true
==_refl n = ground arith

==_no : (n m : ℕ) → n ≢ m → (n == m) ≡ false
==_no n m h = ground (arith, h)

-- The rows have different ids.
unfoldable pub Differ : List ℕ → Type 0
Differ [] = Unit
Differ (n ∷ ns) = All (λ m. n ≢ m) ns × Differ ns

abbrev pub ids_of : Rows → List ℕ
ids_of rows = map (λ x. x.trip.id) rows

found_id :
    (P : ℕ → Type 0) (rows : Rows) (id : ℕ) (x : TripRow)
    → All P (ids_of rows)
    → trip_by_id rows id ≡ some x
    → P x.trip.id
unfolding trip_by_id
found_id P [] id x a h = cc
found_id P (y ∷ ys) id x a h = elim (Bool-cases (y.trip.id == id)) [
  | inl e ↦ subst (λ z. P z.trip.id) (some-injective _ _ (rw e at h)) a.0
  | inr e ↦ found_id P ys id x a.1 (rw e at h)
]

abbrev Queued : Rows → TripRow → Type 0
Queued rows y = (trip_by_id rows y.trip.id ≡ some y) × (is_ready y.trip.status ≡ true)

head_Queued : (x : TripRow) (xs : Rows) → is_ready x.trip.status ≡ true → Queued (x ∷ xs) x
unfolding trip_by_id
head_Queued x xs h = (rw (==_refl x.trip.id) refl, h)

tail_Queued :
    (x y : TripRow) (xs : Rows)
    → All (λ m. x.trip.id ≢ m) (ids_of xs)
    → Queued xs y
    → Queued (x ∷ xs) y
unfolding trip_by_id
tail_Queued x y xs a h =
    let n = found_id (λ m. x.trip.id ≢ m) xs y.trip.id y a h.0 in
    (rw (==_no x.trip.id y.trip.id n) h.0, h.1)

earlier_cases :
    (x : TripRow) (best : Option TripRow) → (earlier x best ≡ x) ⊎ (best ≡ some (earlier x best))
earlier_cases x none = inl refl
earlier_cases x (some b) = elim (Bool-cases (ltb x.trip.created_at b.trip.created_at)) [
  | inl e ↦ inl (rw e refl)
  | inr e ↦ inr (rw e refl)
]

recalc_loop-Queued :
    (rows : Rows) (best : Option TripRow) (y : TripRow)
    → Differ (ids_of rows)
    → recalc_loop rows best ≡ some y
    → (best ≡ some y) ⊎ Queued rows y
unfolding recalc_loop Differ
recalc_loop-Queued [] best y a h = inl h
recalc_loop-Queued (x ∷ xs) best y a h =
    elim (Bool-cases (is_ready x.trip.status && x.trip.recalc_pending)) [
      | inr e ↦ elim (recalc_loop-Queued xs best y a.1 (rw e at h)) [
        | inl k ↦ inl k
        | inr k ↦ inr (tail_Queued x y xs a.0 k)
      ]
      | inl e ↦ elim (recalc_loop-Queued xs (some (earlier x best)) y a.1 (rw e at h)) [
        | inr k ↦ inr (tail_Queued x y xs a.0 k)
        | inl k ↦
            let q : earlier x best ≡ y = some-injective _ _ k in
            elim (earlier_cases x best) [
              | inr b ↦ inl (b ∙ ap some q)
              | inl b ↦
                  inr (subst (Queued (x ∷ xs)) (sym b ∙ q) (head_Queued x xs (ground (arith, e))))
            ]
      ]
    ]

-- The trip that TakeRecalc gives stands under its id and is ready.
pub take_recalc_lem :
    (rows : Rows) (t : Trip.Trip) (x : TripRow)
    → Differ (ids_of rows)
    → take_recalc rows ≡ some t
    → trip_by_id rows t.id ≡ some x
    → is_failed x.trip.status ≡ false
unfolding take_recalc
take_recalc_lem rows t x a h k = elim (Option-cases (recalc_loop rows none)) [
  | inl e ↦ ground (arith, rw (e, take_recalc) at h)
  | inr (y, e) ↦ elim (recalc_loop-Queued rows none y a e) [
    | inl n ↦ ground (arith, n)
    | inr q ↦
        let i : y.trip ≡ t = some-injective _ _ (rw (e, take_recalc) at h) in
        let same : y ≡ x = some-injective _ _ (sym q.0 ∙ ap (λ z. trip_by_id rows z.id) i ∙ k) in
        subst (λ z. is_failed z.trip.status ≡ false) same (ready_lives _ q.1)
  ]
]
