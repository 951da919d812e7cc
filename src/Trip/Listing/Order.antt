-- ===== src/Trip/Listing/Order.antt =====
-- The sorted rows of the listing, and what lies behind a cursor.
use tccelta.Common.{
  Bool, true, false, not, List, [], ◌∷◌, ◌++◌, All, Option, some, ◌≡◌, ◌≢◌, refl, ap, inl, inr,
  Bool-cases, arith,
}
use tccelta.Common.Sort.{insert_by, sort_by, keep}
use tccelta.Common.Sort.Laws.{insert_by-All, sort_by-All, keep-All}
use tccelta.Trip.Rows.{TripRow}
use tccelta.Trip.Listing.{ListCursor, comes_before, is_shown}

-- Each row comes before those behind it.
unfoldable pub Descending : List TripRow → Type 0
Descending [] = Unit
Descending (x ∷ xs) = All (λ y. comes_before x y ≡ true) xs × Descending xs

unfoldable pub Distinct : List TripRow → Type 0
Distinct [] = Unit
Distinct (x ∷ xs) = All (λ y. x.trip.id ≢ y.trip.id) xs × Distinct xs

pub keep-Distinct : (f : TripRow → Bool) (xs : List TripRow) → Distinct xs → Distinct (keep f xs)
unfolding keep Distinct
keep-Distinct f [] h = tt
keep-Distinct f (x ∷ xs) h = elim (Bool-cases (f x)) [
  | inl e ↦ rw e (keep-All (λ y. x.trip.id ≢ y.trip.id) f xs h.0, keep-Distinct f xs h.1)
  | inr e ↦ rw e (keep-Distinct f xs h.1)
]

comes_before_trans :
    (a b c : TripRow) → comes_before a b ≡ true → comes_before b c ≡ true → comes_before a c ≡ true
unfolding comes_before
comes_before_trans a b c h k = ground arith

comes_before_total :
    (a b : TripRow) → a.trip.id ≢ b.trip.id → comes_before b a ≡ false → comes_before a b ≡ true
unfolding comes_before
comes_before_total a b n h = ground arith

before-All :
    (a b : TripRow) (xs : List TripRow)
    → comes_before a b ≡ true
    → All (λ y. comes_before b y ≡ true) xs
    → All (λ y. comes_before a y ≡ true) xs
before-All a b [] h k = tt
before-All a b (x ∷ xs) h k = (comes_before_trans a b x h k.0, before-All a b xs h k.1)

insert_by-Descending :
    (x : TripRow) (xs : List TripRow)
    → All (λ y. x.trip.id ≢ y.trip.id) xs
    → Descending xs
    → Descending (insert_by comes_before x xs)
unfolding insert_by Descending
insert_by-Descending x [] n h = (tt, tt)
insert_by-Descending x (y ∷ ys) n h = elim (Bool-cases (comes_before y x)) [
  | inl e ↦ rw e (
    insert_by-All (λ z. comes_before y z ≡ true) comes_before x ys e h.0,
    insert_by-Descending x ys n.1 h.1,
  )
  | inr e ↦ let b = comes_before_total x y n.0 e in rw e ((b, before-All x y ys b h.0), h)
]

-- Rows with different ids are sorted strictly.
pub sort_by-Descending : (xs : List TripRow) → Distinct xs → Descending (sort_by comes_before xs)
unfolding sort_by Distinct Descending
sort_by-Descending [] h = tt
sort_by-Descending (x ∷ xs) h =
    insert_by-Descending x (sort_by comes_before xs)
      (sort_by-All (λ y. x.trip.id ≢ y.trip.id) comes_before xs h.0) (sort_by-Descending xs h.1)

abbrev pub behind : Option ListCursor → TripRow → Bool
behind c x = not (is_shown c x)

abbrev pub row_cursor : TripRow → ListCursor
row_cursor x = record { created_at = x.trip.created_at; id = x.trip.id }

shown_before : (x y : TripRow) → comes_before y x ≡ true → behind (some (row_cursor x)) y ≡ false
unfolding comes_before is_shown
shown_before x y h = ground arith

shown_self : (x : TripRow) → behind (some (row_cursor x)) x ≡ false
unfolding is_shown
shown_self x = ground arith

not_shown : (x y : TripRow) → comes_before x y ≡ true → behind (some (row_cursor x)) y ≡ true
unfolding comes_before is_shown
not_shown x y h = ground arith

keep_entire :
    (x : TripRow) (xs : List TripRow)
    → All (λ y. comes_before x y ≡ true) xs
    → keep (behind (some (row_cursor x))) xs ≡ xs
unfolding keep
keep_entire x [] h = refl
keep_entire x (y ∷ ys) h = rw (not_shown x y h.0) (ap (λ t. y ∷ t) (keep_entire x ys h.1))

-- Of sorted rows, those behind the cursor of one are those that follow it.
pub keep-behind :
    (pre : List TripRow) (x : TripRow) (post : List TripRow)
    → Descending (pre ++ x ∷ post)
    → keep (behind (some (row_cursor x))) (pre ++ x ∷ post) ≡ post
unfolding keep Descending
keep-behind [] x post h = rw (shown_self x) (keep_entire x post h.0)
keep-behind (y ∷ pre) x post h =
    rw (shown_before x y (at_middle pre post h.0)) (keep-behind pre x post h.1)
  where
    at_middle :
        (pre post : List TripRow)
        → All (λ z. comes_before y z ≡ true) (pre ++ x ∷ post)
        → comes_before y x ≡ true
    at_middle [] post a = a.0
    at_middle (z ∷ pre) post a = at_middle pre post a.1
