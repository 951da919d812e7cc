-- ===== src/Credentials.antt =====
-- backend/internal/domain/clientauth/clientauth.go: the form of client credentials and the progression
-- of the block after wrong secrets. Durations count nanoseconds; a float64 is its bit pattern and the
-- operations on floats are an argument.
pub mod Counters
pub mod Store
pub mod Token
pub mod Lockout
pub mod Issued
mod Examples
use tccelta.Common.{
  ℕ, ◌-◌, Bool, true, false, ◌&&◌, ◌||◌, [], ◌∷◌, Result, ok, err, ltb, leb, ◌==◌, if◌then◌else◌,
  length,
}
use tccelta.Common.Bytes.{Bytes}

abbrev pub max_secret_len : ℕ
max_secret_len = 128

-- The classes [a-z0-9] and [a-z0-9-] of the pattern.
abbrev pub is_alnum : ℕ → Bool
is_alnum c = (leb b'a' c && leb c b'z') || (leb b'0' c && leb c b'9')

unfoldable pub all_id_bytes : Bytes → Bool
all_id_bytes [] = true
all_id_bytes (c ∷ s) = (is_alnum c || c == b'-') && all_id_bytes s

-- ValidID, the pattern ^[a-z0-9][a-z0-9-]{2,63}$
unfoldable pub valid_id : Bytes → Bool
valid_id [] = false
valid_id (c ∷ s) = is_alnum c && leb 2 (length s) && leb (length s) 63 && all_id_bytes s

-- ValidSecret
unfoldable pub valid_secret : Bytes → Bool
valid_secret s = leb 1 (length s) && leb (length s) max_secret_len

-- ErrInvalidClient, BlockedError, or an error of the KMS or of the issuer of tokens.
pub data Fault : Type 0 where
  invalid_client : Fault
  blocked : ℕ → Fault
  outside : Fault

pub record Policy : Type 0 where
  pub tolerance : ℕ
  pub initial : ℕ
  pub factor : ℕ  -- float64
  pub cap : ℕ
  pub forget : ℕ

-- float64(initial) * math.Pow(factor, e), its comparison with a duration, math.IsInf and math.IsNaN, the
-- conversion to a duration, and the comparison with 1.
pub record Powers : Type 0 where
  pub growth : ℕ → ℕ → ℕ → ℕ
  pub at_least : ℕ → ℕ → Bool
  pub is_inf : ℕ → Bool
  pub is_nan : ℕ → Bool
  pub duration : ℕ → ℕ
  pub below_one : ℕ → Bool

-- Policy.Block
unfoldable pub block : Powers → Policy → ℕ → ℕ
block f p n =
    let d = f.growth p.initial p.factor (n - p.tolerance - 1) in
    if leb n p.tolerance
    then 0
    else if f.at_least d p.cap || f.is_inf d || f.is_nan d
    then p.cap
    else f.duration d

-- The errors of Validate, in order.
pub data PolicyError : Type 0 where
  tolerance_low factor_low cap_low forget_low : PolicyError

-- Policy.Validate
unfoldable pub validate : Powers → Policy → Result PolicyError (Unit {0})
validate f p =
    if ltb p.tolerance 1
    then err tolerance_low
    else if f.below_one p.factor
    then err factor_low
    else if p.initial == 0 || ltb p.cap p.initial
    then err cap_low
    else if p.forget == 0
    then err forget_low
    else ok tt
