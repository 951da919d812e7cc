-- ===== src/Trip/Listing/Cursor.antt =====
-- The cursor of a page, sent back.
use tccelta.Common.{
  [], ◌∷◌, ◌++◌, some, ok, ◌≡◌, refl, Bool-cases, inl, inr, false, ◌==◌, length, arith,
}
use tccelta.Common.Bytes.{Bytes}
use tccelta.Trip.Listing.{Texts, ListCursor, cut, or_invalid, encode, parse_list_cursor}
use tccelta.Trip.Request.{any_rune}

-- What base64, time and uuid promise at one cursor: each reads back what it has written, an instant is
-- written without the byte '|', and a uuid in 36 bytes.
pub record ReadsBack (x : Texts) (c : ListCursor) : Type 0 where
  pub base64 : (b : Bytes) → x.of_base64 (x.to_base64 b) ≡ some b
  pub time : x.parse_time (x.format c.created_at) ≡ some c.created_at
  pub no_bar : any_rune (λ r. r == 124) (x.format c.created_at) ≡ false
  pub uuid : x.parse_uuid (x.uuid_text c.id) ≡ some c.id
  pub uuid_size : length (x.uuid_text c.id) ≡ 36

cut-append : (a b : Bytes) → any_rune (λ r. r == 124) a ≡ false → cut (a ++ 124 ∷ b) ≡ some (a, b)
unfolding cut any_rune
cut-append [] b h = refl
cut-append (c ∷ a) b h = elim (Bool-cases (c == 124)) [
  | inl e ↦ ground arith
  | inr e ↦ rw e (rw (cut-append a b (ground arith)) refl)
]

-- Where base64, time and uuid read back what they write: ParseListCursor reads the cursor that Encode
-- has written.
pub parse_list_cursor-encode :
    (x : Texts) (c : ListCursor) → ReadsBack x c → parse_list_cursor x (encode x c) ≡ ok c
unfolding parse_list_cursor encode or_invalid
parse_list_cursor-encode x c l = rw (l.base64 (x.format c.created_at ++ 124 ∷ x.uuid_text c.id)) (
    rw (cut-append (x.format c.created_at) (x.uuid_text c.id) l.no_bar)
      (rw l.uuid_size (rw l.time (rw l.uuid refl))))
