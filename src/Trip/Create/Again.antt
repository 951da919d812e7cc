-- ===== src/Trip/Create/Again.antt =====
-- The same request twice, with no other transaction at work.
use tccelta.Common.{
  ℕ, true, false, List, [], ◌∷◌, Option, none, some, Result, ok, err, ◌≢◌, Result-cases, ◌≡◌, refl,
  sym, ap, ◌∙◌, subst, inl, inr, Bool-cases, arith,
}
use tccelta.Common.Bytes.{Bytes}
use tccelta.Memory.{Fault, trip}
use tccelta.Memory.Tables.{Tables, notify_trip}
use tccelta.Trip
use tccelta.Trip.{Kind, boot, interval, Draft, Runes, repeated}
use tccelta.Trip.Create.{
  Attempt, resolve, with_boot, create_resolved, create, judged, ended, create_loop, create_trip,
}
use tccelta.Trip.Create.Created.{Kind-cases, IsResolved, resolve-IsResolved, row_of}
use tccelta.Trip.Create.Ends.{Mem, mem_head, mem_tail, Made, create_loop-Made}
use tccelta.Trip.Insert.{find_same, new_trip, add_trip, has_entry, same_entry, same_loop}
use tccelta.Trip.Request.{Input, new_draft, is_given}
use tccelta.Trip.Request.Accepted.{new_draft-IsValid}
use tccelta.Trip.Rows.{Rows}

module _ (u : Runes) where
  -- A new trip has the entry of its draft.
  same_entry-new_trip :
      (id now : ℕ) (d : Draft) → IsResolved u d → same_entry (new_trip id now d) d ≡ true
  unfolding same_entry new_trip
  same_entry-new_trip id now d r = elim (Kind-cases d.kind) [
    | inl k ↦
        let x = r.has_entry.of_boot k in
        let (g, e) = given d.boot_generation (r.generation k) in
        rw k (rw x.given (rw e (ground arith)))
    | inr k ↦ let x = r.has_entry.of_interval k in rw k (rw x.starts (rw x.ends (ground arith)))
  ]
    where
      given : (o : Option ℕ) → is_given o ≡ true → (n : ℕ) × (o ≡ some n)
      given none h = cc
      given (some n) h = (n, refl)

  only_last :
      (rows : Rows) (d : Draft) (t : Trip.Trip)
      → has_entry rows d ≡ false
      → same_entry t d ≡ true
      → same_loop (add_trip t rows) d none ≡ some (row_of t)
  unfolding has_entry same_loop add_trip
  only_last [] d t h k = rw (k, same_loop) refl
  only_last (x ∷ xs) d t h k = elim (Bool-cases (same_entry x.trip d)) [
    | inl e ↦ ground arith
    | inr e ↦ rw (e, same_loop) (only_last xs d t (rw e at h) k)
  ]

  find_same-add_trip :
      (rows : Rows) (d : Draft) (t : Trip.Trip)
      → has_entry rows d ≡ false
      → same_entry t d ≡ true
      → find_same (add_trip t rows) d ≡ some t
  unfolding find_same
  find_same-add_trip rows d t h k = rw (only_last rows d t h k) refl

  -- An attempt on tables that hold the trip of the draft.
  create_repeated :
      (a : Attempt) (draft d : Draft) (t : Trip.Trip)
      → resolve a.before draft ≡ ok d
      → find_same a.before.trips d ≡ some t
      → create u a draft ≡ ((err (trip (repeated t.id t.driver_name)), d), a.before)
  unfolding create create_resolved
  create_repeated a draft d t h k = rw (h, create) (rw (k, create_resolved) refl)

  ended_repeated :
      (a : Attempt) (draft d : Draft) (t : Trip.Trip)
      → resolve a.before draft ≡ ok d
      → find_same a.before.trips d ≡ some t
      → ended u a draft ≡ some (err (trip (repeated t.id t.driver_name)), a.before)
  unfolding ended judged
  ended_repeated a draft d t h k = ap (judged u a) (create_repeated a draft d t h k)

  ended_loop :
      (a next : Attempt) (rest : List Attempt) (draft : Draft) (x : Result Fault Trip.Trip × Tables)
      → ended u a draft ≡ some x
      → create_loop u draft a (next ∷ rest) ≡ x
  unfolding create_loop
  ended_loop a next rest draft x h = rw (h, create_loop) refl

  accepted_trip :
      (parse : Bytes → Option ℕ) (i : Input) (a1 a2 a3 : Attempt) (draft : Draft)
      → new_draft parse u i ≡ ok draft
      → create_trip u parse i a1 a2 a3 ≡ create_loop u draft a1 (a2 ∷ a3 ∷ [])
  unfolding create_trip
  accepted_trip parse i a1 a2 a3 draft h = rw (h, create_trip) refl

  refused_trip :
      (parse : Bytes → Option ℕ) (i : Input) (a1 a2 a3 : Attempt) {e : Trip.Error} {t : Trip.Trip}
      {c : Tables}
      → new_draft parse u i ≡ err e
      → create_trip u parse i a1 a2 a3 ≢ (ok t, c)
  unfolding create_trip
  refused_trip parse i a1 a2 a3 h k = ground arith

  -- The resolution of a draft reads neither the trips nor the notifications.
  resolve_elsewhere :
      (b : Tables) (rows : Rows) (id : ℕ) (draft : Draft)
      → resolve (notify_trip (record b { trips = rows }) id) draft ≡ resolve b draft
  unfolding resolve with_boot notify_trip
  resolve_elsewhere b rows id draft = refl

  -- An attempt whose transactions see the same tables.
  abbrev pub quiet : ℕ → ℕ → Tables → Attempt
  quiet id now b = record { id = id; now = now; before = b; at_insert = b; after = b }

  module _ (parse : Bytes → Option ℕ) (i : Input) (id now : ℕ) (b : Tables) where
    -- With no other transaction at work: when CreateTrip has created a trip, the same request is
    -- refused as repeated, with the id and the driver of this trip, and changes nothing, whatever
    -- the ids and instants of its attempts.
    pub create_trip_again :
        (t : Trip.Trip) (c : Tables) (id2 now2 : ℕ) (a2 a3 : Attempt)
        → create_trip u parse i (quiet id now b) (quiet id now b) (quiet id now b) ≡ (ok t, c)
        → create_trip u parse i (quiet id2 now2 c) a2 a3
          ≡ (err (trip (repeated t.id t.driver_name)), c)
    create_trip_again t c id2 now2 a2 a3 h = elim (Result-cases (new_draft parse u i)) [
      | inr (x, e) ↦ absurd (refused_trip parse i _ _ _ e h)
      | inl (draft, e) ↦
          let q = quiet id now b in
          let (a, m, g) =
            create_loop-Made u draft q (q ∷ q ∷ []) t c
              (sym (accepted_trip parse i q q q draft e) ∙ h) in
          let made : Made u q draft t c = subst (λ z. Made u z draft t c) (all_same a m) g in
          let d = made.d in
          let r =
            resolve-IsResolved u b draft d (new_draft-IsValid parse u i draft e) made.resolves in
          let same : same_entry t d ≡ true =
            subst (λ z. same_entry z d ≡ true) made.made (same_entry-new_trip id now d r) in
          let left = notify_trip (record b { trips = add_trip t b.trips }) t.id in
          let f : resolve c draft ≡ ok d =
            subst (λ z. resolve z draft ≡ ok d) made.stored
              (resolve_elsewhere b (add_trip t b.trips) t.id draft ∙ made.resolves) in
          let s : find_same c.trips d ≡ some t =
            subst (λ z. find_same z.trips d ≡ some t) made.stored
              (unfold notify_trip in find_same-add_trip b.trips d t made.no_entry same) in
          accepted_trip parse i (quiet id2 now2 c) a2 a3 draft e
          ∙ ended_loop (quiet id2 now2 c) a2 (a3 ∷ []) draft _
              (ended_repeated (quiet id2 now2 c) draft d t f s)
    ]
      where
        all_same : (a : Attempt) → let q = quiet id now b in Mem a (q ∷ q ∷ q ∷ []) → a ≡ q
        all_same a mem_head = refl
        all_same a (mem_tail mem_head) = refl
        all_same a (mem_tail (mem_tail mem_head)) = refl
        all_same a (mem_tail (mem_tail (mem_tail m))) = elim m [ ]
