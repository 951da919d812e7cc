-- ===== src/Common/Bytes.antt =====
-- Byte slices as lists of numbers, and Go's encoding/binary in little-endian order: the reads
-- take the first bytes of a slice, the appends write `byte(x)`, `byte(x >> 8)`, ...
use Prim.Native.Nat.{zero, suc, ℕ, ◌+◌, ◌-◌, ◌*◌, ◌/◌, ◌%◌, ◌^◌, ◌<◌}
use mathlib.Core.Path.{◌≡◌, refl, ap}
use mathlib.Core.List.{List, [], ◌∷◌, ◌++◌}
use native.Mathlib.Omega.{arith}
use tccelta.Common.Lists.{length, take, drop, get_or}

abbrev pub Bytes : Type 0
Bytes = List ℕ

abbrev pub IsByte : ℕ → Type 0
IsByte b = b < 256

abbrev pub IsU16 : ℕ → Type 0
IsU16 x = x < 2 ^ 16

abbrev pub IsU32 : ℕ → Type 0
IsU32 x = x < 2 ^ 32

-- byte(x)
abbrev pub byte : ℕ → ℕ
byte x = x % 256

-- b[lo:hi]
abbrev pub slice : Bytes → ℕ → ℕ → Bytes
slice b lo hi = take (hi - lo) (drop lo b)

-- b[i], where the caller has tested the length
abbrev pub at : Bytes → ℕ → ℕ
at b i = get_or b i 0

abbrev pub uint16 : Bytes → ℕ
uint16 b = at b 0 + at b 1 * 2 ^ 8

abbrev pub uint32 : Bytes → ℕ
uint32 b = at b 0 + at b 1 * 2 ^ 8 + at b 2 * 2 ^ 16 + at b 3 * 2 ^ 24

abbrev pub append_uint16 : Bytes → ℕ → Bytes
append_uint16 b x = b ++ byte x ∷ byte (x / 2 ^ 8) ∷ []

abbrev pub append_uint32 : Bytes → ℕ → Bytes
append_uint32 b x = b ++ byte x ∷ byte (x / 2 ^ 8) ∷ byte (x / 2 ^ 16) ∷ byte (x / 2 ^ 24) ∷ []

abbrev pub append_uint64 : Bytes → ℕ → Bytes
append_uint64 b x = append_uint32 (append_uint32 b x) (x / 2 ^ 32)

pub uint16-bytes : (x : ℕ) → IsU16 x → byte x + byte (x / 2 ^ 8) * 2 ^ 8 ≡ x
uint16-bytes x h = omega arith

pub uint32-bytes :
    (x : ℕ)
    → IsU32 x
    → byte x + byte (x / 2 ^ 8) * 2 ^ 8 + byte (x / 2 ^ 16) * 2 ^ 16 + byte (x / 2 ^ 24) * 2 ^ 24
      ≡ x
uint32-bytes x h = omega arith

-- The first `n` bytes, one by one: a slice of a known length is written out by it.
abbrev pub spread : ℕ → Bytes → Bytes
spread zero b = []
spread (suc n) b = at b 0 ∷ spread n (drop 1 b)

pub spread_lem : (n : ℕ) (b : Bytes) → length b ≡ n → spread n b ≡ b
spread_lem zero [] h = refl
spread_lem zero (x ∷ b) h = absurd (omega arith)
spread_lem (suc n) [] h = absurd (omega arith)
spread_lem (suc n) (x ∷ b) h = ap (λ l. x ∷ l) (spread_lem n b (omega arith))
