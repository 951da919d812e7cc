-- ===== src/Trip/Moves.antt =====
-- What the operations of the table of the trips make of one trip, and why a write to one leaves the trips
-- unique.
use tccelta.Common.{
  ℕ, Bool, true, false, not, ◌&&◌, ◌||◌, [], ◌∷◌, All, All-imp, some, ◌≡◌, refl, sym, ◌∙◌, subst,
  inl, inr, Bool-cases, ◌==◌, arith, if◌then◌else◌,
}
use tccelta.Common.Text.{bytes_eq}
use tccelta.Trip
use tccelta.Trip.{
  Status, pending, waiting_data, ready, failed, Kind, boot, interval, Draft, Runes, normalize_name,
}
use tccelta.Trip.Insert.{same_entry, same_kind, both_eq, same_driver}
use tccelta.Trip.Rows.{
  TripRow, Rows, Calculation, is_failed, is_ready, trip_by_id, modify, waited, saved, with_failure,
  to_recalc, settled, with_status,
}
use tccelta.Trip.Unique.{draft_of, collides, Apart, IsUnique}

-- The statuses that a status may turn into.
abbrev pub may_become : Status → Status → Bool
may_become pending s = true
may_become waiting_data pending = false
may_become waiting_data s = true
may_become ready s = is_ready s
may_become failed s = is_failed s

pub may_become_trans :
    (a b c : Status) → may_become a b ≡ true → may_become b c ≡ true → may_become a c ≡ true
may_become_trans pending b c h k = refl
may_become_trans a pending c h k = ground arith
may_become_trans a waiting_data c h k = ground arith
may_become_trans a ready c h k = ground arith
may_become_trans a failed c h k = ground arith

waited_goes_on : (s : Status) → may_become s (waited s) ≡ true
waited_goes_on pending = refl
waited_goes_on waiting_data = refl
waited_goes_on ready = refl
waited_goes_on failed = refl

ready_goes_on : (s : Status) → is_failed s ≡ false → may_become s ready ≡ true
ready_goes_on failed h = cc
ready_goes_on s h = refl

failure_goes_on : (s : Status) → may_become s (if is_ready s then s else failed) ≡ true
failure_goes_on pending = refl
failure_goes_on waiting_data = refl
failure_goes_on ready = refl
failure_goes_on failed = refl

module _ (u : Runes) where
  -- What an operation makes of a trip: what was asked for stays, and the status goes on.
  pub record Moves (x y : TripRow) : Type 0 where
    pub same_id : x.trip.id ≡ y.trip.id
    pub same_draft : draft_of u x.trip ≡ draft_of u y.trip
    pub same_instant : x.trip.created_at ≡ y.trip.created_at
    pub goes_on : may_become x.trip.status y.trip.status ≡ true

  pub Moves-refl : (x : TripRow) → Moves x x
  Moves-refl x = record {
    same_id = refl;
    same_draft = refl;
    same_instant = refl;
    goes_on = elim x.trip.status as (λ s. may_become s s ≡ true) [
      | pending ↦ refl
      | waiting_data ↦ refl
      | ready ↦ refl
      | failed ↦ refl
    ];
  }

  pub Moves-trans : (x y z : TripRow) → Moves x y → Moves y z → Moves x z
  Moves-trans x y z m n = record {
    same_id = m.same_id ∙ n.same_id;
    same_draft = m.same_draft ∙ n.same_draft;
    same_instant = m.same_instant ∙ n.same_instant;
    goes_on = may_become_trans _ _ _ m.goes_on n.goes_on;
  }

  -- A failed trip stays failed.
  pub alive : (a b : Status) → may_become a b ≡ true → is_failed b ≡ false → is_failed a ≡ false
  alive pending b h k = refl
  alive waiting_data b h k = refl
  alive ready b h k = refl
  alive failed b h k = cc

  pub waited-Moves : (x : TripRow) → Moves x (with_status x (waited x.trip.status))
  unfolding draft_of
  waited-Moves x = record {
    same_id = refl;
    same_draft = refl;
    same_instant = refl;
    goes_on = waited_goes_on x.trip.status;
  }

  pub saved-Moves :
      (c : Calculation) (x : TripRow) → is_failed x.trip.status ≡ false → Moves x (saved c x)
  unfolding draft_of
  saved-Moves c x h = record {
    same_id = refl;
    same_draft = refl;
    same_instant = refl;
    goes_on = ready_goes_on x.trip.status h;
  }

  pub with_failure-Moves : (x : TripRow) → Moves x (with_failure x)
  unfolding draft_of
  with_failure-Moves x = record {
    same_id = refl;
    same_draft = refl;
    same_instant = refl;
    goes_on = failure_goes_on x.trip.status;
  }

  pub to_recalc-Moves : (x : TripRow) → Moves x (to_recalc x)
  unfolding draft_of
  to_recalc-Moves x = elim (Bool-cases (is_ready x.trip.status)) [
    | inl h ↦ rw h (
        let m = Moves-refl x in
        record { same_id = refl; same_draft = refl; same_instant = refl; goes_on = m.goes_on })
    | inr h ↦ rw h (Moves-refl x)
  ]

  pub settled-Moves : (x : TripRow) → Moves x (settled x)
  unfolding draft_of
  settled-Moves x = elim (Bool-cases (is_ready x.trip.status)) [
    | inl h ↦ rw h (
        let m = Moves-refl x in
        record { same_id = refl; same_draft = refl; same_instant = refl; goes_on = m.goes_on })
    | inr h ↦ rw h (Moves-refl x)
  ]

  -- The collision of a trip that did not fail, read off its draft.
  clash : Draft → Draft → Bool
  clash e d =
      (e.dongle_id == d.dongle_id && same_kind e.kind d.kind && (elim d.kind [
        | boot ↦ both_eq e.boot_generation d.boot_generation && both_eq e.boot_id d.boot_id
        | interval ↦
            both_eq e.interval_start d.interval_start && both_eq e.interval_end d.interval_end
      ]))
      || (bytes_eq e.category d.category
          && bytes_eq e.driver_name_normalized d.driver_name_normalized)

  collides-clash :
      (x : Trip.Trip) (d : Draft)
      → collides u x d ≡ (not (is_failed x.status) && clash (draft_of u x) d)
  unfolding collides same_entry same_driver clash draft_of
  collides-clash x d = elim (Bool-cases (is_failed x.status)) [
    | inl h ↦ rw h refl
    | inr h ↦ rw h refl
  ]

  -- A trip that has moved collides with no more drafts than before.
  collides-Moves :
      (x y : TripRow) (d : Draft)
      → Moves x y
      → collides u x.trip d ≡ false
      → collides u y.trip d ≡ false
  collides-Moves x y d m h =
      let e = collides-clash x.trip d in
      let f = collides-clash y.trip d in
      let g : clash (draft_of u y.trip) d ≡ clash (draft_of u x.trip) d =
        λ i. clash (sym m.same_draft i) d in
      elim (Bool-cases (is_failed y.trip.status)) [
        | inl dead ↦ f ∙ rw dead refl
        | inr lives ↦ ground (arith, e, f, g, lives, alive _ _ m.goes_on lives)
      ]

  pub Apart-left : (x y z : TripRow) → Moves x y → Apart u x z → Apart u y z
  Apart-left x y z m h a = collides-Moves x y (draft_of u z.trip) m (h a)

  pub Apart-right : (x y z : TripRow) → Moves y z → Apart u x y → Apart u x z
  Apart-right x y z m h a =
      subst (λ d. collides u x.trip d ≡ false) m.same_draft (h (alive _ _ m.goes_on a))

  -- A write to the trip with an id, where it moves.
  unfoldable pub Moving : Rows → ℕ → (TripRow → TripRow) → Type 0
  Moving rows id f = (x : TripRow) → trip_by_id rows id ≡ some x → Moves x (f x)

  pub modify-All :
      (P : TripRow → Type 0) (rows : Rows) (id : ℕ) (f : TripRow → TripRow)
      → ((x : TripRow) → trip_by_id rows id ≡ some x → P x → P (f x))
      → All P rows
      → All P (modify rows id f)
  unfolding modify trip_by_id
  modify-All P [] id f m h = tt
  modify-All P (x ∷ xs) id f m h = elim (Bool-cases (x.trip.id == id)) [
    | inl e ↦ rw e (m x (rw e refl) h.0, h.1)
    | inr e ↦ rw e (h.0, modify-All P xs id f (λ y q. m y (rw e q)) h.1)
  ]

  pub modify-IsUnique :
      (rows : Rows) (id : ℕ) (f : TripRow → TripRow)
      → Moving rows id f
      → IsUnique u rows
      → IsUnique u (modify rows id f)
  unfolding modify trip_by_id IsUnique Moving
  modify-IsUnique [] id f m h = tt
  modify-IsUnique (x ∷ xs) id f m h = elim (Bool-cases (x.trip.id == id)) [
    | inl e ↦
        let n : Moves x (f x) = m x (rw e refl) in
        rw e (All-imp xs (λ y q. (Apart-left x (f x) y n q.0, λ r. q.1 (n.same_id ∙ r))) h.0, h.1)
    | inr e ↦ rw e (
      modify-All _ xs id f
          (λ y q r.
            let n : Moves y (f y) = m y (rw e q) in
            (Apart-right x y (f y) n r.0, λ s. r.1 (s ∙ sym n.same_id)))
          h.0,
      modify-IsUnique xs id f (λ y q. m y (rw e q)) h.1,
    )
  ]
