-- ===== src/Batch/Verify.antt =====
-- receive_batch.go, steps 1 to 3 of Run: the shape of the batch, and its verification before the
-- transaction. The calls that Go makes in parallel are made in turn; when several of them fail, Go
-- returns the error that comes first in time, and this model the first in order.
pub mod Slices
pub mod Signed
use tccelta.Common.{
  ℕ, zero, suc, ◌%◌, ◌^◌, Bool, true, false, not, ◌&&◌, ◌||◌, List, [], ◌∷◌, ◌++◌, Option, none,
  some, map, Result, ok, err, ltb, ◌==◌, if◌then◌else◌, length, take, drop, replicate,
}
use tccelta.Common.Bytes.{Bytes}
use tccelta.Common.Maps.{number_key, lookup, put}
use tccelta.Common.Text.{bytes_eq}
use tccelta.Ingestion.{BlockIn, seq_of}
use tccelta.Ingestion.Apply.{apply}
use tccelta.Ingestion.Rows
use tccelta.Memory.{Fault, ingestion, or_else}
use tccelta.Protocol
use tccelta.Protocol.{block_type, ack_type, auth_tag_size}
use tccelta.Protocol.Block.{decode_block}
use tccelta.Protocol.Identity.{Profile, profile_asym, profile_none, tag_input}
use tccelta.Protocol.Messages.Ack.{Ack}
use tccelta.Protocol.Messages.Ack
use tccelta.Protocol.Signature.{parse_public_key, verify_block_signature}
use tccelta.Protocol.Tlv.{Tlv, read_batch}
use tccelta.Registry
use tccelta.Registry.{Dongle}
use tccelta.Batch.{Params, Ports, ack_decoded}

-- The error of Run for an error of ReadBatch.
abbrev pub batch_fault : Protocol.Error → Fault
batch_fault Protocol.batch_too_large = ingestion Rows.batch_too_large
batch_fault e = ingestion Rows.malformed_batch

-- The loop of step 1: every envelope is a block of the profile.
unfoldable pub decode_blocks : Profile → List Tlv → Result Fault (List BlockIn)
decode_blocks p [] = ok []
decode_blocks p (t ∷ ts) =
    let rest = decode_blocks p ts in
    if not (t.t == block_type)
    then err (ingestion Rows.malformed_batch)
    else elim (decode_block t.v p) [
      | err e ↦ err (ingestion Rows.malformed_batch)
      | ok b ↦ elim rest [
        | err e ↦ err e
        | ok xs ↦ ok (record { b = b; valid = false; verified = false } ∷ xs)
      ]
    ]

-- Step 1
unfoldable pub read_body : Params → Profile → Bytes → Result Fault (List BlockIn)
read_body q p body = elim (read_batch body q.max_batch) [
  | err e ↦ err (batch_fault e)
  | ok ts ↦ decode_blocks p ts
]

abbrev pub member : ℕ → List ℕ → Bool
member n [] = false
member n (m ∷ ms) = n == m || member n ms

-- Step 2: the blocks above the ACK of the snapshot, the first of each seq.
unfoldable pub to_verify : ℕ → List ℕ → List BlockIn → List BlockIn
to_verify snap seen [] = []
to_verify snap seen (x ∷ xs) = elim (ltb snap (seq_of x) && not (member (seq_of x) seen)) [
  | true ↦ x ∷ to_verify snap (seq_of x ∷ seen) xs
  | false ↦ to_verify snap seen xs
]

-- Every block above the snapshot counts as verified; repetitions share the verdict of the first.
unfoldable pub mark_verified : ℕ → List BlockIn → List BlockIn
mark_verified snap [] = []
mark_verified snap (x ∷ xs) =
    record x { verified = if ltb snap (seq_of x) then true else x.verified } ∷ mark_verified snap xs

abbrev pub Verifier : Type 0
Verifier = List Bytes → List Bytes → Result Fault (List Bool)

-- The answers for inputs and tags, one by one.
unfoldable pub each : (Bytes → Bytes → Bool) → List Bytes → List Bytes → List Bool
each f [] tags = []
each f (x ∷ xs) [] = []
each f (x ∷ xs) (t ∷ ts) = f x t ∷ each f xs ts

abbrev pub is_empty : Bytes → Bool
is_empty [] = true
is_empty (_ ∷ _) = false

-- verifier. A public key that does not parse makes every block invalid.
unfoldable pub verifier : Ports → Dongle → Verifier
verifier p d inputs tags =
    if bytes_eq d.profile.name profile_asym.name
    then ok (
        each (verify_block_signature p.crypto (parse_public_key p.crypto d.public_key)) inputs tags)
    else if bytes_eq d.profile.name profile_none.name
    then ok (map is_empty tags)
    else p.verify_blocks d.rec_key inputs tags

unfoldable pub inputs_of : Dongle → List BlockIn → List Bytes
inputs_of d xs = map (λ x. tag_input block_type d.dev_id x.b.payload) xs

unfoldable pub tags_of : List BlockIn → List Bytes
tags_of xs = map (λ x. x.b.tag) xs

-- copy into `n` cells that are false.
unfoldable pub copy_into : ℕ → List Bool → List Bool
copy_into zero out = []
copy_into (suc n) [] = replicate (suc n) false
copy_into (suc n) (v ∷ out) = v ∷ copy_into n out

-- The loop over the slices of `size` blocks; `fuel` is the number of blocks.
unfoldable pub verify_slices : Verifier → Dongle → ℕ → ℕ → List BlockIn → Result Fault (List Bool)
verify_slices verify d size fuel [] = ok []
verify_slices verify d size zero (x ∷ xs) = ok []
verify_slices verify d size (suc fuel) (x ∷ xs) =
    let now = take size (x ∷ xs) in
    elim (verify (inputs_of d now) (tags_of now)) [
      | err e ↦ err e
      | ok out ↦ elim (verify_slices verify d size fuel (drop size (x ∷ xs))) [
        | err e ↦ err e
        | ok rest ↦ ok (copy_into (length now) out ++ rest)
      ]
    ]

abbrev pub slice_size : Params → ℕ
slice_size q = if q.verify_batch == 0 then 32 else q.verify_batch

-- a == b on Ack
unfoldable pub ack_eq : Ack → Ack → Bool
ack_eq a b = a.ack_seq == b.ack_seq && a.cconf == b.cconf && a.flags == b.flags

abbrev pub holds_ack : Option Ack → Ack → Bool
holds_ack none a = false
holds_ack (some b) a = ack_eq b a

abbrev pub assume_valid : BlockIn → BlockIn
assume_valid x = record x { valid = true }

-- The ACK that is likely: all tags valid, on the snapshot.
unfoldable pub likely_ack : Ports → Registry.State → List BlockIn → Ack
likely_ack p snap blocks = record {
  ack_seq =
      (apply p.cat (map assume_valid blocks)
        (record { contiguous_seq = snap.contiguous_seq % 2 ^ 32; g = 0; u = 0 })).new_ack;
  cconf = snap.c_conf % 2 ^ 32;
  flags = 0;
}

-- The signature of the likely ACK, unless it is the one that is stored.
unfoldable pub presign :
    Ports → Dongle → Registry.State → List BlockIn → Result Fault (Option (Ack × Bytes))
presign p d snap blocks =
    let prov = likely_ack p snap blocks in
    if holds_ack (ack_decoded snap.last_ack) prov
    then ok none
    else elim (p.hmac_pre d.auth_key (tag_input ack_type d.dev_id (Ack.payload prov))) [
      | err e ↦ err e
      | ok mac ↦ ok (some (prov, take auth_tag_size mac))
    ]

-- The map `valid`.
unfoldable pub verdicts : List BlockIn → List Bool → List (ℕ × Bool) → List (ℕ × Bool)
verdicts [] res m = m
verdicts (x ∷ xs) [] m = m
verdicts (x ∷ xs) (v ∷ res) m = verdicts xs res (put m (seq_of x) v)

-- The last loop of step 3.
unfoldable pub with_verdicts : List (ℕ × Bool) → List BlockIn → List BlockIn
with_verdicts m [] = []
with_verdicts m (x ∷ xs) =
    record x { valid = if x.verified then or_else (lookup m (seq_of x)) false else x.valid }
    ∷ with_verdicts m xs

-- What steps 2 and 3 pass on to the transaction.
pub record Verified : Type 0 where
  pub blocks : List BlockIn
  pub presigned : Option (Ack × Bytes)

-- Steps 2 and 3, for the blocks of the batch and those to verify.
unfoldable pub verify_selected :
    Params → Ports → Dongle → Registry.State → List BlockIn → List BlockIn → Result Fault Verified
verify_selected q p d snap marked [] =
    ok (record { blocks = with_verdicts [] marked; presigned = none })
verify_selected q p d snap marked (x ∷ xs) =
    elim (verify_slices (verifier p d) d (slice_size q) (length (x ∷ xs)) (x ∷ xs)) [
      | err e ↦ err e
      | ok res ↦ elim (presign p d snap marked) [
        | err e ↦ err e
        | ok pre ↦
            ok
              (record { blocks = with_verdicts (verdicts (x ∷ xs) res []) marked; presigned = pre })
      ]
    ]

unfoldable pub verify :
    Params → Ports → Dongle → Registry.State → List BlockIn → Result Fault Verified
verify q p d snap blocks =
    verify_selected q p d snap (mark_verified snap.contiguous_seq blocks)
      (to_verify snap.contiguous_seq [] blocks)
