-- ===== src/Boots.antt =====
-- The rows of the table boot (backend/internal/adapter/memory/worker.go) with the types of
-- backend/internal/domain/timeline/timeline.go that the queue of boots uses. A float is its bit pattern.
pub mod Queue
use tccelta.Common.{
  ℕ, Bool, true, List, [], ◌∷◌, Option, none, some, ◌&&◌, ltb, ◌==◌, if◌then◌else◌,
}
use tccelta.Common.Int.{ℤ}

-- What a conversion of the time of a boot rests on.
pub data Source : Type 0 where
  anchors neighbors : Source

pub record Anchor : Type 0 where
  pub t_ms : ℤ
  pub s1_ms : ℕ
  pub s2_ms : ℕ

-- Anchors near each other whose intervals meet.
pub record Group : Type 0 where
  pub lo : ℕ
  pub hi : ℕ
  pub t_center : ℕ
  pub first_t : ℤ
  pub last_t : ℤ
  pub n : ℕ

pub record BootKey : Type 0 where
  pub dongle_id : ℕ
  pub generation : ℕ
  pub boot_id : ℕ

-- PendingBoot and the columns that the calculation adds.
pub record Boot : Type 0 where
  pub key : BootKey
  pub first_seq : Option ℕ
  pub last_seq : Option ℕ
  pub first_t_ms : Option ℤ
  pub last_t_ms : Option ℤ
  pub max_offset_ms : Option ℕ
  pub a_ms : Option ℕ
  pub b : Option ℕ
  pub base_uncertainty_ms : Option ℤ
  pub time_source : Option Source
  pub pending : Bool
  pub pending_since : ℕ
  pub time_updated_at : ℕ
  pub anchored : List Anchor

unfoldable pub same_boot : BootKey → BootKey → Bool
same_boot k l = k.dongle_id == l.dongle_id && k.generation == l.generation && k.boot_id == l.boot_id

-- bootRow
unfoldable pub boot_row : List Boot → BootKey → Option Boot
boot_row [] k = none
boot_row (x ∷ xs) k = let rest = boot_row xs k in if same_boot x.key k then some x else rest

-- A greater generation than the one found so far, if there is one.
abbrev pub is_later : ℕ → Option ℕ → Bool
is_later g none = true
is_later g (some h) = ltb h g

-- The loop of LatestGeneration.
unfoldable pub latest_loop : List Boot → ℕ → ℕ → Option ℕ → Option ℕ
latest_loop [] id boot_id found = found
latest_loop (x ∷ xs) id boot_id found = latest_loop xs id boot_id (
    if x.key.dongle_id == id && x.key.boot_id == boot_id && is_later x.key.generation found
    then some x.key.generation
    else found)

-- LatestGeneration
unfoldable pub latest_generation : List Boot → ℕ → ℕ → Option ℕ
latest_generation rows id boot_id = latest_loop rows id boot_id none
