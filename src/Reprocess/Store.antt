-- ===== src/Reprocess/Store.antt =====
-- backend/internal/adapter/memory/worker.go: the operations of the reprocessing on the stored blocks,
-- the readings and the positions.
use tccelta.Common.{ℕ, ◌-◌, Bool, ◌&&◌, ◌||◌, List, [], ltb, leb, length, take}
use tccelta.Common.Maps.{number_key, lookup}
use tccelta.Common.Sort.{keep}
use tccelta.Ingestion.Rows.{StoredBlock}
use tccelta.Memory.{or_else}
use tccelta.Memory.Blocks.{copy_readings, copy_positions}
use tccelta.Memory.Tables.{Tables, notify}
use tccelta.Pid.{Reading, Position}
use tccelta.Trip.Rows.{mark_recalc_by_range}

unfoldable pub blocks_of : Tables → ℕ → List StoredBlock
blocks_of t id = or_else (lookup t.data_blocks id) []

abbrev pub in_range : ℕ → ℕ → ℕ → Bool
in_range from to n = leb from n && leb n to

-- ListData
unfoldable pub list_data : Tables → ℕ → ℕ → ℕ → ℕ → List StoredBlock
list_data t id from to limit = take limit (keep (λ x. in_range from to x.seq) (blocks_of t id))

-- CountReadings
unfoldable pub count_readings : ℕ → ℕ → List Reading → ℕ
count_readings from to ls = length (keep (λ l. in_range from to l.block_seq) ls)

-- DeleteReadings
unfoldable pub delete_readings : ℕ → ℕ → List Reading → ℕ × List Reading
delete_readings from to ls =
    let left = keep (λ l. ltb l.block_seq from || ltb to l.block_seq) ls in
    (length ls - length left, left)

-- DeletePositions
unfoldable pub delete_positions : ℕ → ℕ → List Position → ℕ × List Position
delete_positions from to ps =
    let left = keep (λ l. ltb l.block_seq from || ltb to l.block_seq) ps in
    (length ps - length left, left)

-- The transaction of a window; a copy of no rows is skipped and would change nothing.
unfoldable pub rewrite : ℕ → ℕ → ℕ → List Reading → List Position → Tables → ℕ × Tables
rewrite id a b ls ps t =
    let (removed, readings) = delete_readings a b t.core.readings in
    let (_, positions) = delete_positions a b t.core.positions in
    let cleared = record t.core { readings = readings; positions = positions } in
    (
      removed,
      notify (record t {
        core = copy_positions ps (copy_readings ls cleared);
        trips = mark_recalc_by_range id a b t.trips;
      }),
    )
