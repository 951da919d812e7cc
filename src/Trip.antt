-- ===== src/Trip.antt =====
-- backend/internal/domain/trip/trip.go and request.go: a trip, its draft and its errors. A text is
-- the list of its runes, an instant counts nanoseconds since Go's zero time, and a trip_id is the
-- number that its 16 bytes make, whose order is that of its text. The reason of a FieldError is left out.
mod Examples
pub mod Request
pub mod Rows
pub mod Insert
pub mod Create
pub mod Listing
pub mod Unique
pub mod Moves
pub mod Lifecycle
pub mod Onward
pub mod Analysed
pub mod Calculate
use tccelta.Common.{ℕ, Bool, Option}
use tccelta.Common.Bytes.{Bytes}

pub data Status : Type 0 where
  pending waiting_data ready failed : Status

-- EntryTypeBoot and EntryTypeInterval
pub data Kind : Type 0 where
  boot interval : Kind

-- The field that a FieldError names.
pub data Field : Type 0 where
  name category fuel dongle_id kind entry boot_id boot_generation t0 t1 limit cursor search : Field

-- The errors; a repeated trip comes with the id and the driver of the one that is there, or alone.
pub data Error : Type 0 where
  invalid : Field → Error
  driver_repeated trip_repeated boot_not_found not_found : Error
  repeated : ℕ → Bytes → Error
  not_ready : Status → Error

pub record Trip : Type 0 where
  pub id : ℕ
  pub category : Bytes
  pub driver_name : Bytes
  pub fuel : Bytes
  pub dongle_id : ℕ
  pub kind : Kind
  pub boot_generation : Option ℕ
  pub boot_id : Option ℕ
  pub interval_start : Option ℕ
  pub interval_end : Option ℕ
  pub status : Status
  pub target_seq : ℕ
  pub first_seq : Option ℕ
  pub last_seq : Option ℕ
  pub calculated_through_seq : Option ℕ
  pub provisional : Bool
  pub recalc_pending : Bool
  pub created_at : ℕ
  pub calculated_at : Option ℕ

-- Draft: the request, validated.
pub record Draft : Type 0 where
  pub category : Bytes
  pub driver_name : Bytes
  pub driver_name_normalized : Bytes
  pub fuel : Bytes
  pub dongle_id : ℕ
  pub kind : Kind
  pub boot_generation : Option ℕ
  pub boot_id : Option ℕ
  pub interval_start : Option ℕ
  pub interval_end : Option ℕ
  pub target_seq : ℕ

-- What the source takes of the packages strings and unicode.
pub record Runes : Type 0 where
  pub trim : Bytes → Bytes  -- strings.TrimSpace
  pub lower : Bytes → Bytes  -- strings.ToLower
  pub contains : Bytes → Bytes → Bool  -- strings.Contains
  pub is_control : ℕ → Bool
  pub is_letter : ℕ → Bool
  pub is_digit : ℕ → Bool

-- NormalizeName
unfoldable pub normalize_name : Runes → Bytes → Bytes
normalize_name u n = u.lower (u.trim n)
