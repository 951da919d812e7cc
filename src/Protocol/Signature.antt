-- ===== src/Protocol/Signature.antt =====
-- protocol/signature.go: the ECDSA tags of the blocks of the profile asym. SHA-256 and the curve P-256
-- of Go's crypto packages are arguments; a key is kept as its 65 bytes.
use tccelta.Common.{
  ℕ, ◌+◌, ◌*◌, Bool, false, not, ◌||◌, [], ◌∷◌, Option, none, some, ◌==◌, if◌then◌else◌, length,
  take, drop,
}
use tccelta.Common.Bytes.{Bytes, at}

-- sha256.Sum256, whether ParseUncompressedPublicKey accepts, and ecdsa.Verify.
pub record Crypto : Type 0 where
  pub sha256 : Bytes → Bytes
  pub on_curve : Bytes → Bool
  pub ecdsa_verify : Bytes → Bytes → ℕ → ℕ → Bool

abbrev pub public_key_size : ℕ
public_key_size = 65

abbrev pub signature_size : ℕ
signature_size = 64

-- big.Int's SetBytes
unfoldable pub set_bytes : Bytes → ℕ → ℕ
set_bytes [] n = n
set_bytes (x ∷ xs) n = set_bytes xs (n * 256 + x)

module _ (c : Crypto) where
  -- ParsePublicKey; `none` is its one error, ErrInvalidPublicKey.
  unfoldable pub parse_public_key : Bytes → Option Bytes
  parse_public_key raw =
      if not (length raw == public_key_size) || not (at raw 0 == 0x04)
      then none
      else if not (c.on_curve raw)
      then none
      else some raw

  -- VerifyBlockSignature
  unfoldable pub verify_block_signature : Option Bytes → Bytes → Bytes → Bool
  verify_block_signature none input tag = false
  verify_block_signature (some key) input tag =
      if not (length tag == signature_size)
      then false
      else c.ecdsa_verify key (c.sha256 input) (set_bytes (take 32 tag) 0)
          (set_bytes (drop 32 tag) 0)
