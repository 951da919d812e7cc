-- ===== src/Registry.antt =====
-- backend/internal/domain/dongle/dongle.go: the registered dongles and the rule of access. Ids are
-- int32, seqs and challenge numbers int64; both count up from zero and are numbers here.
pub mod Access
pub mod Cache
mod Examples
use tccelta.Common.{ℕ, Bool, not, ◌&&◌, [], Result, ok, err, if◌then◌else◌}
use tccelta.Common.Bytes.{Bytes}
use tccelta.Common.Text.{codes, bytes_eq}
use tccelta.Protocol.Identity.{Profile}

pub data Error : Type 0 where
  unknown inactive profile_not_allowed : Error

pub record Dongle : Type 0 where
  pub id : ℕ
  pub dev_id : Bytes
  pub profile : Profile
  pub auth_key : Bytes
  pub rec_key : Bytes
  pub public_key : Bytes
  pub active : Bool

-- VerifyAccess
unfoldable pub verify_access : Dongle → Bool → Result Error (Unit {0})
verify_access d allow_none =
    if not d.active
    then err inactive
    else if bytes_eq d.profile.name (codes "none") && not allow_none
    then err profile_not_allowed
    else ok tt

-- The part of dongle_state that the handshake and the ingestion use. No ACK is an empty one.
pub record State : Type 0 where
  pub contiguous_seq : ℕ
  pub max_seen_seq : ℕ
  pub head_seq : ℕ
  pub c_conf : ℕ
  pub boot_generation : ℕ
  pub last_boot_id : ℕ
  pub last_ack : Bytes

abbrev pub zero_state : State
zero_state = record {
  contiguous_seq = 0;
  max_seen_seq = 0;
  head_seq = 0;
  c_conf = 0;
  boot_generation = 0;
  last_boot_id = 0;
  last_ack = [];
}
