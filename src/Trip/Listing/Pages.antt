-- ===== src/Trip/Listing/Pages.antt =====
-- Who follows the cursors of the pages sees every trip of the search once.
use tccelta.Common.{ℕ, zero, suc, List, [], ◌++◌, Option, none, some}
use tccelta.Common.Sort.{sort_by, keep}
use tccelta.Trip.{Runes}
use tccelta.Trip.Rows.{TripRow, Rows}
use tccelta.Trip.Listing.{ListCursor, ListQuery, ListItem, comes_before, is_match, list}

module _ (u : Runes) (rows : Rows) (q : ListQuery) where
  found : List TripRow
  found = keep (is_match u q.search) rows

  sorted : List TripRow
  sorted = sort_by comes_before found

  -- The items of the pages, each asked for by the cursor of the one before.
  unfoldable pub follow : ℕ → Option ListCursor → List ListItem
  follow zero c = []
  follow (suc f) c =
      let p = list u rows (record q { cursor = c }) in
      p.items ++ elim p.next [ none ↦ [] | some d ↦ follow f (some d) ]
