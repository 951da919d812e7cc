-- ===== src/Protocol/Identity.antt =====
-- protocol/tlv.go: the identifier of a dongle and its text, the input of the HMAC, the comparison
-- of tags and the profiles. A Go string is the list of its bytes.
pub mod Hex
pub mod Tags
use tccelta.Common.{
  ℕ, ◌+◌, ◌-◌, ◌*◌, ◌/◌, ◌%◌, ◌≡◌, Bool, true, false, not, ◌&&◌, ◌||◌, List, [], ◌∷◌, ◌++◌, Option,
  none, some, Result, ok, err, ltb, leb, ◌==◌, if◌then◌else◌, length,
}
use tccelta.Common.Bytes.{Bytes, byte}
use tccelta.Common.Text.{codes, bytes_eq}
use tccelta.Protocol.{Error, invalid_dev_id, unknown_profile}

-- [8]byte
abbrev pub DevId : Type 0
DevId = Bytes

-- One digit of encoding/hex, upper or lower case.
hex_value : ℕ → Option ℕ
hex_value c =
    if leb b'0' c && leb c b'9'
    then some (c - b'0')
    else if leb b'a' c && leb c b'f'
    then some (c - b'a' + 10)
    else if leb b'A' c && leb c b'F'
    then some (c - b'A' + 10)
    else none

hex_digit : ℕ → ℕ
hex_digit n = if ltb n 10 then b'0' + n else b'a' + (n - 10)

abbrev join_digits : Option ℕ → Option ℕ → Option Bytes → Option Bytes
join_digits (some hi) (some lo) (some rest) = some ((hi * 16 + lo) ∷ rest)
join_digits _ _ _ = none

-- hex.DecodeString: `none` for an odd length or a byte that is no digit.
hex_decode : Bytes → Option Bytes
hex_decode [] = some []
hex_decode (c ∷ []) = none
hex_decode (c ∷ d ∷ s) = join_digits (hex_value c) (hex_value d) (hex_decode s)

abbrev or_invalid : Option Bytes → Result Error DevId
or_invalid none = err invalid_dev_id
or_invalid (some b) = ok b

-- DevIDFromHex
pub dev_id_from_hex : Bytes → Result Error DevId
dev_id_from_hex s = if not (length s == 16) then err invalid_dev_id else or_invalid (hex_decode s)

-- DevID.Hex, by hex.EncodeToString
pub dev_id_hex : DevId → Bytes
dev_id_hex [] = []
dev_id_hex (b ∷ d) = hex_digit (b / 16) ∷ hex_digit (b % 16) ∷ dev_id_hex d

-- The prefix "MALCONG" of every HMAC input.
abbrev pub label : Bytes
label = codes "MALCONG"

-- TagInput
unfoldable pub tag_input : ℕ → DevId → Bytes → Bytes
tag_input t dev payload = label ++ (byte t ∷ (dev ++ payload))

-- subtle.ConstantTimeCompare
constant_time_compare : Bytes → Bytes → ℕ
constant_time_compare x y = if bytes_eq x y then 1 else 0

-- CompareTag
unfoldable pub compare_tag : Bytes → Bytes → Bool
unfolding constant_time_compare
compare_tag computed received =
    if not (length computed == length received)
    then false
    else constant_time_compare computed received == 1

pub record Profile : Type 0 where
  pub name : Bytes
  pub block_tag_size : ℕ

abbrev pub profile_hmac : Profile
profile_hmac = record { name = codes "hmac"; block_tag_size = 32 }

abbrev pub profile_asym : Profile
profile_asym = record { name = codes "asym"; block_tag_size = 64 }

abbrev pub profile_none : Profile
profile_none = record { name = codes "none"; block_tag_size = 0 }

-- strings.ToLower, on ASCII. (No other letter has an ASCII letter of the names below as its lower
-- case.)
to_lower : Bytes → Bytes
to_lower [] = []
to_lower (c ∷ s) = (if leb b'A' c && leb c b'Z' then c + 32 else c) ∷ to_lower s

-- ProfileByName
pub profile_by_name : Bytes → Result Error Profile
profile_by_name n =
    let lower = to_lower n in
    if bytes_eq lower (codes "hmac")
    then ok profile_hmac
    else if bytes_eq lower (codes "asym")
    then ok profile_asym
    else if bytes_eq lower (codes "none")
    then ok profile_none
    else err unknown_profile
