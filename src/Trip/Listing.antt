-- ===== src/Trip/Listing.antt =====
-- backend/internal/domain/trip/list.go: the query of a listing, its cursor and its pages, with List of
-- backend/internal/adapter/memory/trips.go. Base64, the text of an instant and that of a uuid are arguments.
pub mod Order
pub mod Pages
pub mod Cursor
use tccelta.Common.{
  ℕ, zero, suc, ◌+◌, ◌-◌, Bool, true, false, not, ◌&&◌, ◌||◌, List, [], ◌∷◌, ◌++◌, map, Option,
  none, some, Result, ok, err, ◌>>=◌, ◌>>◌, fail_if, ltb, leb, ◌==◌, if◌then◌else◌, length, take,
}
use tccelta.Common.Bytes.{Bytes}
use tccelta.Common.Int.{ℤ, pos, negsuc}
use tccelta.Common.Sort.{sort_by, keep}
use tccelta.Trip
use tccelta.Trip.{Kind, boot, interval, Error, invalid, Runes, normalize_name}
use tccelta.Trip.Request.{any_rune}
use tccelta.Trip.Rows.{TripRow, Rows, Calculation, Summary, is_ready}

abbrev pub default_list_limit : ℕ
default_list_limit = 24

abbrev pub max_list_limit : ℕ
max_list_limit = 50

abbrev pub max_search_runes : ℕ
max_search_runes = 60

pub record ListCursor : Type 0 where
  pub created_at : ℕ
  pub id : ℕ

-- What Encode and ParseListCursor take of base64, time and uuid.
pub record Texts : Type 0 where
  pub to_base64 : Bytes → Bytes
  pub of_base64 : Bytes → Option Bytes
  pub format : ℕ → Bytes  -- UTC, RFC 3339 with nanoseconds
  pub parse_time : Bytes → Option ℕ
  pub uuid_text : ℕ → Bytes
  pub parse_uuid : Bytes → Option ℕ

-- strings.Cut at the byte '|'.
unfoldable pub cut : Bytes → Option (Bytes × Bytes)
cut [] = none
cut (c ∷ cs) =
    let rest = cut cs in
    if c == 124 then some ([], cs) else elim rest [ none ↦ none | some (a, b) ↦ some (c ∷ a, b) ]

unfoldable pub or_invalid {ℓ} : {A : Type ℓ} → Option A → Result Error A
or_invalid none = err (invalid Trip.cursor)
or_invalid (some a) = ok a

module _ (x : Texts) where
  -- ListCursor.Encode
  unfoldable pub encode : ListCursor → Bytes
  encode c = x.to_base64 (x.format c.created_at ++ 124 ∷ x.uuid_text c.id)

  -- ParseListCursor
  unfoldable pub parse_list_cursor : Bytes → Result Error ListCursor
  parse_list_cursor s = do
    raw ← or_invalid (x.of_base64 s)
    parts ← or_invalid (cut raw)
    fail_if (not (length parts.1 == 36)) (invalid Trip.cursor)
    t ← or_invalid (x.parse_time parts.0)
    id ← or_invalid (x.parse_uuid parts.1)
    ok (record { created_at = t; id = id })

pub record ListQuery : Type 0 where
  pub limit : ℕ
  pub cursor : Option ListCursor
  pub search : Bytes

unfoldable pub limit_of : Option ℤ → Result Error ℕ
limit_of none = ok default_list_limit
limit_of (some (negsuc n)) = err (invalid Trip.limit)
limit_of (some (pos n)) = if ltb n 1 || ltb max_list_limit n then err (invalid Trip.limit) else ok n

unfoldable pub cursor_of : Texts → Bytes → Result Error (Option ListCursor)
cursor_of x [] = ok none
cursor_of x (b ∷ bs) = do c ← parse_list_cursor x (b ∷ bs); ok (some c)

-- NewListQuery
unfoldable pub new_list_query : Texts → Runes → Option ℤ → Bytes → Bytes → Result Error ListQuery
new_list_query x u limit cursor search = do
  n ← limit_of limit
  c ← cursor_of x cursor
  fail_if (ltb max_search_runes (length (u.trim search))) (invalid Trip.search)
  fail_if (any_rune u.is_control (u.trim search)) (invalid Trip.search)
  ok (record { limit = n; cursor = c; search = normalize_name u (u.trim search) })

pub record ListItem : Type 0 where
  pub trip : Trip.Trip
  pub started_at : Option ℕ
  pub ended_at : Option ℕ
  pub distance_km : Option ℕ
  pub duration_s : Option ℕ

-- ListItem.Period
unfoldable pub period : ListItem → Option ℕ × Option ℕ
period i =
    let entry : Option ℕ × Option ℕ = elim i.trip.kind [
      | interval ↦ (i.trip.interval_start, i.trip.interval_end)
      | boot ↦ (none, none)
    ] in
    elim i.started_at [
      | none ↦ entry
      | some s ↦ elim i.ended_at [ none ↦ entry | some e ↦ (some s, some e) ]
    ]

pub record Page : Type 0 where
  pub items : List ListItem
  pub total : ℕ
  pub next : Option ListCursor

abbrev pub cursor_at : ListItem → ListCursor
cursor_at i = record { created_at = i.trip.created_at; id = i.trip.id }

-- The cursor of the last one, if there is any.
unfoldable pub last_cursor : List ListItem → Option ListCursor
last_cursor [] = none
last_cursor (i ∷ []) = some (cursor_at i)
last_cursor (i ∷ j ∷ is) = last_cursor (j ∷ is)

-- PageOf
unfoldable pub page_of : List ListItem → ℕ → ℕ → Page
page_of items total limit =
    if ltb limit (length items)
    then record { items = take limit items; total = total; next = last_cursor (take limit items) }
    else record { items = items; total = total; next = none }

-- The order of the listing: the newer first, then the greater id.
unfoldable pub comes_before : TripRow → TripRow → Bool
comes_before a b =
    ltb b.trip.created_at a.trip.created_at
    || (a.trip.created_at == b.trip.created_at && ltb b.trip.id a.trip.id)

-- A row that the pages up to the cursor have shown.
unfoldable pub is_shown : Option ListCursor → TripRow → Bool
is_shown none x = false
is_shown (some c) x =
    ltb c.created_at x.trip.created_at || (x.trip.created_at == c.created_at && leb c.id x.trip.id)

unfoldable pub item_of : TripRow → ListItem
item_of x =
    let plain : ListItem = record {
      trip = x.trip;
      started_at = none;
      ended_at = none;
      distance_km = none;
      duration_s = none;
    } in
    if is_ready x.trip.status
    then elim x.calc [
      | none ↦ plain
      | some c ↦ record {
        trip = x.trip;
        started_at = c.summary.started_at;
        ended_at = c.summary.ended_at;
        distance_km = c.summary.distance_km;
        duration_s = c.summary.duration_s;
      }
    ]
    else plain

-- The loop of List, which stops when `room` items are there.
unfoldable pub collect : Option ListCursor → ℕ → List TripRow → List ListItem
collect c zero xs = []
collect c (suc room) [] = []
collect c (suc room) (x ∷ xs) = elim (is_shown c x) [
  | true ↦ collect c (suc room) xs
  | false ↦ item_of x ∷ collect c room xs
]

abbrev pub is_empty : Bytes → Bool
is_empty [] = true
is_empty _ = false

unfoldable pub is_match : Runes → Bytes → TripRow → Bool
is_match u search x = is_empty search || u.contains (normalize_name u x.trip.driver_name) search

-- List
unfoldable pub list : Runes → Rows → ListQuery → Page
list u rows q =
    let found = keep (is_match u q.search) rows in
    page_of (collect q.cursor (q.limit + 1) (sort_by comes_before found)) (length found) q.limit
