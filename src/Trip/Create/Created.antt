-- ===== src/Trip/Create/Created.antt =====
-- What CreateTrip has done when it has created a trip.
use tccelta.Common.{
  ok-injective, ◌⊎◌, ℕ, true, List, [], ◌∷◌, ◌++◌, Option, none, some, ok, Result-cases, ◌≡◌, refl,
  ap, subst, inl, inr, Bool-cases, Option-cases, arith, ◌==◌, ◌>>=◌,
}
use tccelta.Common.Bytes.{Bytes}
use tccelta.Boots.{latest_generation}
use tccelta.Memory.{read_state}
use tccelta.Memory.Tables.{Tables, notify_trip}
use tccelta.Trip
use tccelta.Trip.{Kind, boot, interval, Draft, Runes, repeated, normalize_name}
use tccelta.Trip.Analysed.{entry, validate, validate_boot, validate_interval, validate_bounds}
use tccelta.Trip.Create.{Attempt, resolve, with_boot, create_trip}
use tccelta.Trip.Create.Ends.{Mem, mem_head, mem_tail, Made, create_loop-Made, insert_made}
use tccelta.Trip.Insert.{new_trip, add_trip}
use tccelta.Trip.Lifecycle.{IsSound, Step, inserted, stay, more, steps-IsSound}
use tccelta.Trip.Request.{Input, new_draft, is_given}
use tccelta.Trip.Request.Accepted.{HasEntry, IsValid, new_draft-IsValid}
use tccelta.Trip.Rows.{Rows, TripRow, trip_by_id}

-- A draft whose boot, if it is of one, has its generation.
pub record IsResolved (u : Runes) (d : Draft) : Type 0 where
  pub normalized : d.driver_name_normalized ≡ normalize_name u d.driver_name
  pub has_entry : HasEntry d
  pub generation : d.kind ≡ boot → is_given d.boot_generation ≡ true

-- The kind of a draft, kept in an equation.
pub Kind-cases : (k : Kind) → (k ≡ boot) ⊎ (k ≡ interval)
Kind-cases boot = inl refl
Kind-cases interval = inr refl

module _ (u : Runes) (b : Tables) where
  with_boot-IsResolved :
      (d e : Draft)
      → d.driver_name_normalized ≡ normalize_name u d.driver_name
      → HasEntry d
      → with_boot b d ≡ ok e
      → IsResolved u e
  unfolding with_boot
  with_boot-IsResolved d e n h r = elim (Kind-cases d.kind) [
    | inr k ↦
        let s = ok-injective _ _ (rw (k, with_boot) at r) in
        subst (IsResolved u) s record { normalized = n; has_entry = h; generation = λ q. cc }
    | inl k ↦
        let x = h.of_boot k in
        let r1 = rw (x.given, with_boot) at (rw (k, with_boot) at r) in
        elim (Option-cases (latest_generation b.boots d.dongle_id x.id)) [
          | inl f ↦ ground arith
          | inr (g, f) ↦
              let r2 = rw (f, with_boot) at r1 in
              elim (Option-cases d.boot_generation) [
                | inl o ↦
                    let s = ok-injective _ _ (rw (o, with_boot) at r2) in
                    subst (IsResolved u) s record {
                      normalized = n;
                      has_entry = record {
                        of_boot = λ _. record {
                          id = x.id;
                          given = x.given;
                          id_bounds = x.id_bounds;
                          no_start = x.no_start;
                          no_end = x.no_end;
                        };
                        of_interval = λ q. cc;
                      };
                      generation = λ _. refl;
                    }
                | inr (o, e) ↦
                    let s = ok-injective _ _ (rw (e, with_boot) at r2) in
                    subst (IsResolved u) s
                      record { normalized = n; has_entry = h; generation = λ _. rw e refl }
              ]
        ]
  ]

  with_cut : (d : Draft) (n : ℕ) → HasEntry d → HasEntry (record d { target_seq = n })
  with_cut d n h = record {
    of_boot = λ k.
        let x = h.of_boot k in
        record {
          id = x.id;
          given = x.given;
          id_bounds = x.id_bounds;
          no_start = x.no_start;
          no_end = x.no_end;
        };
    of_interval = λ k.
        let x = h.of_interval k in
        record {
          start = x.start;
          end = x.end;
          starts = x.starts;
          ends = x.ends;
          order = x.order;
          span = x.span;
          no_id = x.no_id;
          no_generation = x.no_generation;
        };
  }

  pub resolve-IsResolved :
      (draft d : Draft) → IsValid u draft → resolve b draft ≡ ok d → IsResolved u d
  unfolding resolve
  resolve-IsResolved draft d v h = elim (Result-cases (read_state b.core draft.dongle_id)) [
    | inr (x, e) ↦ ground arith
    | inl (st, e) ↦
        with_boot-IsResolved (record draft { target_seq = st.head_seq }) d v.normalized
          (with_cut draft st.head_seq v.entry) (rw (e, ◌>>=◌) at h)
  ]

-- What holds of the tables that an Insert sees: the trips are sound, and none has the new id.
pub record Ready (u : Runes) (a : Attempt) : Type 0 where
  pub sound : IsSound u a.at_insert.trips
  pub fresh : trip_by_id a.at_insert.trips a.id ≡ none

abbrev pub row_of : Trip.Trip → TripRow
row_of t = record { trip = t; calc = none; saves = 0 }

module _ (u : Runes) where
  pub entry-valid :
      (id now : ℕ) (d : Draft) → HasEntry d → validate (entry (new_trip id now d)) ≡ ok tt
  unfolding validate entry new_trip validate_boot validate_interval validate_bounds
  entry-valid id now d h = elim (Kind-cases d.kind) [
    | inl k ↦ let x = h.of_boot k in rw k (rw x.given refl)
    | inr k ↦ let x = h.of_interval k in rw k (rw x.starts (rw x.ends (ground (arith, x.order))))
  ]

  last_row :
      (rows : Rows) (t : Trip.Trip)
      → trip_by_id rows t.id ≡ none
      → trip_by_id (add_trip t rows) t.id ≡ some (row_of t)
  unfolding trip_by_id add_trip
  last_row [] t h = ground arith
  last_row (x ∷ xs) t h = elim (Bool-cases (x.trip.id == t.id)) [
    | inl e ↦ ground arith
    | inr e ↦ rw e (last_row xs t (rw e at h))
  ]

  -- What a trip is that CreateTrip has created, in the tables that it leaves.
  pub record Created (t : Trip.Trip) (c : Tables) : Type 0 where
    pub sound : IsSound u c.trips
    pub stored : trip_by_id c.trips t.id ≡ some (row_of t)
    pub waits : t.status ≡ Trip.pending
    pub analysable : validate (entry t) ≡ ok tt
    pub announced : (before : List ℕ) × (before ++ t.id ∷ [] ≡ c.trip_notified)

  Made-Created :
      (a : Attempt) (draft : Draft) (t : Trip.Trip) (c : Tables)
      → IsValid u draft
      → Ready u a
      → Made u a draft t c
      → Created t c
  unfolding notify_trip new_trip
  Made-Created a draft t c v r m =
      let d = m.d in
      let x = resolve-IsResolved u a.before draft d v m.resolves in
      let rows = a.at_insert.trips in
      let n = new_trip a.id a.now d in
      let step : Step u rows (add_trip n rows) =
        subst (Step u rows) (ap (λ z. z.1) (insert_made u a.id a.now d rows m.no_entry m.no_driver))
          (inserted a.id a.now d x.normalized x.generation r.fresh) in
      let left : Trip.Trip → Tables =
        λ s. notify_trip (record a.at_insert { trips = add_trip s rows }) s.id in
      let done : Created n (left n) = record {
        sound = steps-IsSound u (more stay step) r.sound;
        stored = last_row rows n r.fresh;
        waits = refl;
        analysable = entry-valid a.id a.now d x.has_entry;
        announced = (a.at_insert.trip_notified, refl);
      } in
      subst (Created t) m.stored (subst (λ s. Created s (left s)) m.made done)

  module _ (parse : Bytes → Option ℕ) (i : Input) (a1 a2 a3 : Attempt) (t : Trip.Trip)
      (c : Tables) where
    one_of :
        (b : Attempt) → Ready u a1 → Ready u a2 → Ready u a3 → Mem b (a1 ∷ a2 ∷ a3 ∷ []) → Ready u b
    one_of b r1 r2 r3 mem_head = r1
    one_of b r1 r2 r3 (mem_tail mem_head) = r2
    one_of b r1 r2 r3 (mem_tail (mem_tail mem_head)) = r3
    one_of b r1 r2 r3 (mem_tail (mem_tail (mem_tail m))) = elim m [ ]

    -- Whatever other transactions commit between its own, as long as the trips that its Inserts see are
    -- sound and have other ids: when CreateTrip creates a trip, the trips are sound (no two that did not
    -- fail have the same entry or driver), the trip stands among them as pending and without a result,
    -- its id is announced last, and the analysis accepts its entry.
    pub create_trip-Created :
        Ready u a1
        → Ready u a2
        → Ready u a3
        → create_trip u parse i a1 a2 a3 ≡ (ok t, c)
        → Created t c
    unfolding create_trip
    create_trip-Created r1 r2 r3 h = elim (Result-cases (new_draft parse u i)) [
      | inr (x, e) ↦ ground arith
      | inl (draft, e) ↦
          let (b, m, g) =
            create_loop-Made u draft a1 (a2 ∷ a3 ∷ []) t c (rw (e, create_trip) at h) in
          Made-Created b draft t c (new_draft-IsValid parse u i draft e) (one_of b r1 r2 r3 m) g
    ]
