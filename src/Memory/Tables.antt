-- ===== src/Memory/Tables.antt =====
-- memory.go, worker.go and trips.go of backend/internal/adapter/memory: the tables of the workers and
-- of the trips, beside those of `Database`.
use tccelta.Common.{ℕ, List, [], ◌∷◌, ◌++◌, ◌+◌}
use tccelta.Boots.{Boot, BootKey, Group}
use tccelta.Ingestion.Rows.{StoredBlock}
use tccelta.Memory.{Database}
use tccelta.Trip.Rows.{Rows}

pub record Tables : Type 0 where
  pub core : Database
  pub boots : List Boot
  pub groups : List (BootKey × List Group)
  pub data_blocks : List (ℕ × List StoredBlock)
  pub trips : Rows
  pub trip_notifications : ℕ
  pub trip_notified : List ℕ

-- Notify
unfoldable pub notify : Tables → Tables
notify b = record b { trip_notifications = b.trip_notifications + 1 }

-- NotifyTrip
unfoldable pub notify_trip : Tables → ℕ → Tables
notify_trip b id = record b {
  trip_notifications = b.trip_notifications + 1;
  trip_notified = b.trip_notified ++ id ∷ [];
}
