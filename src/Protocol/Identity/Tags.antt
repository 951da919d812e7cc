-- ===== src/Protocol/Identity/Tags.antt =====
-- TagInput and CompareTag of protocol/tlv.go.
use tccelta.Common.{ℕ, ◌<◌, ◌≡◌, refl, ap, ◌↔◌, true, [], ◌∷◌, ◌++◌, length, arith}
use tccelta.Common.Bytes.{Bytes}
use tccelta.Common.Text.{bytes_eq_iff}
use tccelta.Protocol.Identity.{DevId, tag_input, compare_tag}

append_injective : (a b x y : Bytes) → length a ≡ length b → a ++ x ≡ b ++ y → (a ≡ b) × (x ≡ y)
append_injective [] [] x y n h = (refl, h)
append_injective [] (b ∷ bs) x y n h = absurd (omega arith)
append_injective (a ∷ xs) [] x y n h = absurd (omega arith)
append_injective (a ∷ xs) (b ∷ bs) x y n h = grind (arith, append_injective xs bs x y)

-- Two HMAC inputs are equal only if the type, the dongle and the payload are.
pub tag_input_injective :
    (t t' : ℕ) (d d' : DevId) (p p' : Bytes)
    → t < 256
    → t' < 256
    → length d ≡ length d'
    → tag_input t d p ≡ tag_input t' d' p'
    → (t ≡ t') × (d ≡ d') × (p ≡ p')
unfolding tag_input
tag_input_injective t t' d d' p p' ht ht' n h = grind (arith, append_injective d d' p p' n)

-- A tag passes exactly if it is the computed one.
pub compare_tag_iff : (x y : Bytes) → (compare_tag x y ≡ true) ↔ (x ≡ y)
unfolding compare_tag
compare_tag_iff x y = ground (arith, bytes_eq_iff x y, ap {A = Bytes} length)
