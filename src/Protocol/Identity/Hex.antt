-- ===== src/Protocol/Identity/Hex.antt =====
-- The text of a DevID (DevID.Hex and DevIDFromHex of protocol/tlv.go).
use mathlib.Core.Option.{some-injective}
use tccelta.Common.{
  ℕ, suc, subst, ◌*◌, ◌/◌, ◌%◌, ◌<◌, ◌≡◌, refl, [], ◌∷◌, Option, none, some, ok, length, All, arith,
}
use tccelta.Common.Bytes.{Bytes, IsByte}
use tccelta.Protocol.Identity.{
  DevId, hex_value, hex_digit, join_digits, hex_decode, or_invalid, dev_id_from_hex, dev_id_hex,
}

hex_value-hex_digit : (n : ℕ) → n < 16 → hex_value (hex_digit n) ≡ some n
unfolding hex_value hex_digit
hex_value-hex_digit n h = ground arith

hex_value-lt : (c : ℕ) {n : ℕ} → hex_value c ≡ some n → n < 16
unfolding hex_value
hex_value-lt c h = ground arith

length-dev_id_hex : (d : DevId) → length (dev_id_hex d) ≡ 2 * length d
unfolding dev_id_hex
length-dev_id_hex [] = refl
length-dev_id_hex (b ∷ d) = omega (arith, length-dev_id_hex d)

hex_decode-dev_id_hex : (d : DevId) → All IsByte d → hex_decode (dev_id_hex d) ≡ some d
unfolding hex_decode dev_id_hex
hex_decode-dev_id_hex [] h = refl
hex_decode-dev_id_hex (b ∷ d) h =
    ground (
      arith,
      hex_value-hex_digit (b / 16),
      hex_value-hex_digit (b % 16),
      hex_decode-dev_id_hex d h.1,
    )

-- The text of any identifier of 8 bytes is read back as that identifier.
pub dev_id_from_hex-dev_id_hex :
    (d : DevId) → length d ≡ 8 → All IsByte d → dev_id_from_hex (dev_id_hex d) ≡ ok d
unfolding dev_id_from_hex
dev_id_from_hex-dev_id_hex d n h = ground (arith, length-dev_id_hex d, hex_decode-dev_id_hex d h)

-- Two digits in range and a tail of bytes make a string of bytes, one for two digits.
join_digits_shape :
    (a b : Option ℕ) (r : Option Bytes) (n : ℕ) (d : Bytes)
    → ((x : ℕ) → a ≡ some x → x < 16)
    → ((x : ℕ) → b ≡ some x → x < 16)
    → ((l : Bytes) → r ≡ some l → (n ≡ 2 * length l) × All IsByte l)
    → join_digits a b r ≡ some d
    → (suc (suc n) ≡ 2 * length d) × All IsByte d
join_digits_shape (some x) (some y) (some l) n d ha hb hr h =
    let (len, small) = hr l refl in
    subst (λ d. (suc (suc n) ≡ 2 * length d) × All IsByte d) (some-injective _ _ h)
      (omega arith, (omega (arith, ha x refl, hb y refl), small))
join_digits_shape none b r n d ha hb hr h = cc
join_digits_shape (some x) none r n d ha hb hr h = cc
join_digits_shape (some x) (some y) none n d ha hb hr h = cc

hex_decode_shape :
    (s : Bytes) (d : Bytes) → hex_decode s ≡ some d → (length s ≡ 2 * length d) × All IsByte d
unfolding hex_decode
hex_decode_shape [] [] h = (refl, tt)
hex_decode_shape [] (x ∷ d) h = cc
hex_decode_shape (c ∷ []) d h = cc
hex_decode_shape (c ∷ e ∷ s) d h =
    join_digits_shape (hex_value c) (hex_value e) (hex_decode s) (length s) d (λ x. hex_value-lt c)
      (λ x. hex_value-lt e) (hex_decode_shape s) h

or_invalid-ok : (o : Option Bytes) (d : Bytes) → or_invalid o ≡ ok d → o ≡ some d
or_invalid-ok none d h = cc
or_invalid-ok (some b) d h = cc

-- Whatever text is accepted, it has 16 digits and the identifier has 8 bytes.
pub dev_id_from_hex_shape :
    (s : Bytes) (d : DevId)
    → dev_id_from_hex s ≡ ok d
    → (length s ≡ 16) × (length d ≡ 8) × All IsByte d
unfolding dev_id_from_hex
dev_id_from_hex_shape s d h =
    let sixteen : length s ≡ 16 = ground arith in
    let decoded : hex_decode s ≡ some d = ground (arith, or_invalid-ok (hex_decode s) d) in
    let (len, small) = hex_decode_shape s d decoded in (sixteen, omega arith, small)
