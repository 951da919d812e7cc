-- ===== src/Protocol/Builder/Blocks.antt =====
-- A block that the builder closes is decoded to the same header, records and tag.
use mathlib.Core.List.{append_assoc}
use tccelta.Common.{
  ℕ, ◌+◌, ◌≤◌, ◌≡◌, ◌⊎◌, refl, ap, subst, ◌∙◌, Bool, true, List, ◌∷◌, ◌++◌, ok, length, drop, take,
  arith, length-append, take-append_length, All, drop-append_length, some,
}
use tccelta.Common.Bytes.{Bytes, byte, IsU16, IsU32, uint32-bytes}
use tccelta.Protocol.{max_data_size}
use tccelta.Protocol.Identity.{Profile}
use tccelta.Protocol.Block.{BlockHeader, header_of, decode_block}
use tccelta.Protocol.Records.{read_records, read_marker, touch, no_content, reg_boot, reg_loss}
use tccelta.Protocol.Records.Loop.{loop_marker}
use tccelta.Protocol.Records.Items.{
  Item, encode_items, IsItem, add_items, read_records-encode_items, length-encode_items,
}
use tccelta.Protocol.Builder.{new_block_builder, data_of, build_marker}
use tccelta.Protocol.Builder.RoundTrip.{
  add_all, add_all_fit, header_bytes, IsHeader, header_of-header_bytes, data_of_closes,
}

-- The builder's client: a new block, its records, and Data.
unfoldable pub build : ℕ → ℕ → ℕ → List Item → Bytes × Bool
build seq boot_id t0_ms xs =
    let (m, fitted) = add_all (new_block_builder seq boot_id t0_ms) xs in (data_of m, fitted)

length-header_bytes : (h : BlockHeader) → length (header_bytes h) ≡ 12
unfolding header_bytes
length-header_bytes h = refl

-- A closed area of 17 to 1024 bytes, with a tag of the profile's size, is decoded.
decode-header_bytes :
    (h : BlockHeader) (body tag : Bytes) (p : Profile)
    → IsHeader h
    → h.size ≡ 12 + length body
    → 5 ≤ length body
    → h.size ≤ max_data_size
    → length tag ≡ p.block_tag_size
    → decode_block ((header_bytes h ++ body) ++ tag) p
      ≡ ok (record { hdr = h; payload = header_bytes h ++ body; tag = tag })
unfolding decode_block
decode-header_bytes h body tag p fits size long short tag_size =
    let area : Bytes = header_bytes h ++ body in
    let len : length area ≡ h.size =
      omega (arith, length-append (header_bytes h) body, length-header_bytes h) in
    let total = length-append area tag in
    let hdr : header_of (area ++ tag) ≡ h =
      rw (append_assoc (header_bytes h) body tag) (header_of-header_bytes h (body ++ tag) fits) in
    let front : take h.size (area ++ tag) ≡ area =
      subst (λ k. take k (area ++ tag) ≡ area) len (take-append_length area tag) in
    let back : drop h.size (area ++ tag) ≡ tag =
      subst (λ k. drop k (area ++ tag) ≡ tag) len (drop-append_length area tag) in
    ground arith

abbrev pub header : ℕ → ℕ → ℕ → List Item → BlockHeader
header seq boot_id t0_ms xs = record {
  seq = seq;
  boot_id = boot_id;
  t0_ms = t0_ms;
  size = 12 + length (encode_items xs);
}

module _ (seq boot_id t0_ms : ℕ) (x : Item) (xs : List Item) (tag : Bytes) (p : Profile)
    (small : 12 + length (encode_items (x ∷ xs)) ≤ max_data_size) where
  build_closes :
      build seq boot_id t0_ms (x ∷ xs)
      ≡ (header_bytes (header seq boot_id t0_ms (x ∷ xs)) ++ encode_items (x ∷ xs), true)
  unfolding build new_block_builder
  build_closes =
      let fits = add_all_fit (new_block_builder seq boot_id t0_ms) (x ∷ xs) small in
      let closed = data_of_closes seq boot_id t0_ms (encode_items (x ∷ xs)) (omega arith) in
      let e : data_of (add_all (new_block_builder seq boot_id t0_ms) (x ∷ xs)).0
          ≡ header_bytes (header seq boot_id t0_ms (x ∷ xs)) ++ encode_items (x ∷ xs) =
        ap (λ r. data_of r.0) fits ∙ closed in
      λ i. (e i, (fits i).1)

  -- One record or more that fit in 1024 bytes make a block which is decoded to its header, its tag
  -- and these records in their order.
  pub decode-build :
      IsU32 seq
      → IsU16 boot_id
      → IsU32 t0_ms
      → All IsItem (x ∷ xs)
      → length tag ≡ p.block_tag_size
      → let (area, fitted) = build seq boot_id t0_ms (x ∷ xs) in
        (fitted ≡ true)
        × (decode_block (area ++ tag) p
            ≡ ok (record { hdr = header seq boot_id t0_ms (x ∷ xs); payload = area; tag = tag }))
        × (read_records area ≡ ok (add_items true (x ∷ xs) no_content))
  decode-build hs hb ht items tag_size =
      let h : BlockHeader = header seq boot_id t0_ms (x ∷ xs) in
      let body : Bytes = encode_items (x ∷ xs) in
      rw build_closes (
        refl,
        decode-header_bytes h body tag p
            (record { seq = hs; boot_id = hb; t0_ms = ht; size = omega arith }) refl
            (length-encode_items x xs) small tag_size,
        read_records-encode_items (header_bytes h) x xs (length-header_bytes h) items,
      )

-- A BOOT or LOSS block is read as its marker alone.
pub read_records-build_marker :
    (seq boot_id t0 kind from to : ℕ)
    → (kind ≡ reg_boot) ⊎ (kind ≡ reg_loss)
    → IsU32 from
    → IsU32 to
    → read_records (build_marker seq boot_id t0 kind from to)
      ≡ ok (record no_content {
        marker = some (record { kind = kind; dt = 0; from_seq = from; to_seq = to });
      })
unfolding read_records build_marker data_of new_block_builder read_marker touch
read_records-build_marker seq boot_id t0 kind from to h hf ht =
    let e : byte kind ≡ kind = omega arith in
    let ef = uint32-bytes from hf in
    let et = uint32-bytes to ht in
    rw e (
      loop_marker 22 23 kind _ true no_content h ∙ λ i. ok (record no_content {
        marker = some (record { kind = kind; dt = 0; from_seq = ef i; to_seq = et i });
      }))
