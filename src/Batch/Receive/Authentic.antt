-- ===== src/Batch/Receive/Authentic.antt =====
-- No block is accepted whose seq the dongle has not signed in the batch.
use tccelta.Common.{
  ◌∙◌, sym, ap, ok-injective, Bool-cases, if◌then◌else◌, map, length, [], ◌∷◌, ◌≡◌, refl, true,
  List, ok, Result-cases, inl, inr, All, arith, Bool,
}
use tccelta.Common.Bytes.{Bytes}
use tccelta.Common.Text.{bytes_eq}
use tccelta.Ingestion.{BlockIn}
use tccelta.Ingestion.Apply.Checked.{apply-All}
use tccelta.Memory.{Database}
use tccelta.Memory.Blocks.{read_snapshot}
use tccelta.Protocol.Identity.{profile_asym, profile_none, Profile}
use tccelta.Protocol.Signature.{parse_public_key, verify_block_signature}
use tccelta.Protocol.Tlv.{read_batch}
use tccelta.Registry
use tccelta.Registry.{Dongle}
use tccelta.Batch.{Params, Session, Ports}
use tccelta.Batch.Verify.{read_body, Verified, each, verifier, is_empty}
use tccelta.Batch.Verify.Slices.{judged, Judges}
use tccelta.Batch.Verify.Signed.{Unjudged, decode_blocks-Unjudged, is_signed, verify-signed}
use tccelta.Batch.Receive.{applied, prepare}

read_body-Unjudged :
    (q : Params) (p : Profile) (body : Bytes) (xs : List BlockIn)
    → read_body q p body ≡ ok xs
    → Unjudged xs
unfolding read_body
read_body-Unjudged q p body xs h = elim (Result-cases (read_batch body q.max_batch)) [
  | inr (z, e) ↦ ground (arith, (rw (e, read_body) at h))
  | inl (ts, e) ↦ decode_blocks-Unjudged p ts xs (rw (e, read_body) at h)
]

-- Whatever the profile, where the verifier judges pair by pair or fails.
applied-judged :
    (q : Params) (p : Ports) (b : Database) (session : Session) (body : Bytes) (d : Dongle)
    (blocks : List BlockIn) (v : Verified) (est : Registry.State) (f : Bytes → Bytes → Bool)
    → Judges f d (verifier p d)
    → read_body q d.profile body ≡ ok blocks
    → prepare q p b d body ≡ ok v
    → All
        (λ a. is_signed (judged f d) a.b.hdr.seq blocks ≡ true)
        (applied p d session v.blocks est).accepted
unfolding prepare applied
applied-judged q p b session body d blocks v est f judges r h =
    let u = read_body-Unjudged q d.profile body blocks r in
    apply-All p.cat (λ s. is_signed (judged f d) s blocks ≡ true) v.blocks _
      (verify-signed q p d f judges (read_snapshot b d.id) blocks v u (rw (r, prepare) at h))

-- The rule of the tags of a dongle, by its profile: an ECDSA signature under its public key, no tag, or
-- what the KMS confirms.
unfoldable pub tag_rule : Ports → Dongle → (Bytes → Bytes → Bool) → Bytes → Bytes → Bool
tag_rule p d kms input tag =
    if bytes_eq d.profile.name profile_asym.name
    then verify_block_signature p.crypto (parse_public_key p.crypto d.public_key) input tag
    else if bytes_eq d.profile.name profile_none.name
    then is_empty tag
    else kms input tag

each-is_empty :
    (ins tags : List Bytes)
    → length ins ≡ length tags
    → map is_empty tags ≡ each (λ input tag. is_empty tag) ins tags
unfolding each
each-is_empty [] [] h = refl
each-is_empty [] (t ∷ tags) h = ground (arith, h)
each-is_empty (x ∷ ins) [] h = ground (arith, h)
each-is_empty (x ∷ ins) (t ∷ tags) h =
    ap (λ l. is_empty t ∷ l)
      (each-is_empty ins tags (let k : length ins ≡ length tags = omega (arith, h) in k))

each_agree :
    (f g : Bytes → Bytes → Bool) (ins tags : List Bytes)
    → ((x t : Bytes) → f x t ≡ g x t)
    → each f ins tags ≡ each g ins tags
unfolding each
each_agree f g [] tags h = refl
each_agree f g (x ∷ ins) [] h = refl
each_agree f g (x ∷ ins) (t ∷ tags) h = λ i. h x t i ∷ each_agree f g ins tags h i

verifier-Judges :
    (p : Ports) (d : Dongle) (kms : Bytes → Bytes → Bool)
    → Judges kms d (p.verify_blocks d.rec_key)
    → Judges (tag_rule p d kms) d (verifier p d)
unfolding verifier tag_rule
verifier-Judges p d kms judges ins tags out n h =
    elim (Bool-cases (bytes_eq d.profile.name profile_asym.name)) [
      | inl a ↦
          sym (ok-injective _ _ (rw (a, verifier) at h))
          ∙ each_agree _ _ ins tags (λ x t. rw a refl)
      | inr a ↦ elim (Bool-cases (bytes_eq d.profile.name profile_none.name)) [
        | inl b ↦
            sym (ok-injective _ _ (rw (b, verifier) at (rw (a, verifier) at h)))
            ∙ each-is_empty ins tags n
            ∙ each_agree _ _ ins tags (λ x t. rw a (rw b refl))
        | inr b ↦
            judges ins tags out n (rw (b, verifier) at (rw (a, verifier) at h))
            ∙ each_agree _ _ ins tags (λ x t. rw a (rw b refl))
      ]
    ]

-- Whatever the profile, where VerifyBlocks of the KMS, asked for as many tags as inputs, fails or answers for
-- each pair as `kms` does: of a batch that passes the steps before the transaction, Apply accepts on any
-- state only blocks whose seq belongs to a block of the batch with a tag that the rule of the profile
-- accepts: a valid ECDSA tag, an empty one, or one that `kms` confirms.
pub applied-is_signed :
    (q : Params) (p : Ports) (b : Database) (session : Session) (body : Bytes) (d : Dongle)
    (blocks : List BlockIn) (v : Verified) (est : Registry.State) (kms : Bytes → Bytes → Bool)
    → Judges kms d (p.verify_blocks d.rec_key)
    → read_body q d.profile body ≡ ok blocks
    → prepare q p b d body ≡ ok v
    → All
        (λ a. is_signed (judged (tag_rule p d kms) d) a.b.hdr.seq blocks ≡ true)
        (applied p d session v.blocks est).accepted
applied-is_signed q p b session body d blocks v est kms judges r h =
    applied-judged q p b session body d blocks v est (tag_rule p d kms)
      (verifier-Judges p d kms judges) r h

-- The verifier of a dongle with the profile asym judges by its public key.
asym-Judges :
    (p : Ports) (d : Dongle)
    → d.profile ≡ profile_asym
    → Judges
        (verify_block_signature p.crypto (parse_public_key p.crypto d.public_key))
        d
        (verifier p d)
unfolding verifier bytes_eq
asym-Judges p d e ins tags out n h = sym (ok-injective _ _ (rw (e, verifier) at h))

-- Of a dongle with the profile asym: of a batch that passes the steps before the transaction, Apply accepts
-- on any state only blocks whose seq belongs to a block of the batch with a valid ECDSA tag under the
-- public key of the dongle.
pub applied-verify_block_signature :
    (q : Params) (p : Ports) (b : Database) (session : Session) (body : Bytes) (d : Dongle)
    (blocks : List BlockIn) (v : Verified) (est : Registry.State)
    → d.profile ≡ profile_asym
    → read_body q d.profile body ≡ ok blocks
    → prepare q p b d body ≡ ok v
    → All
        (λ a.
          is_signed
            (judged (verify_block_signature p.crypto (parse_public_key p.crypto d.public_key)) d)
            a.b.hdr.seq
            blocks
          ≡ true)
        (applied p d session v.blocks est).accepted
applied-verify_block_signature q p b session body d blocks v est e r h =
    applied-judged q p b session body d blocks v est _ (asym-Judges p d e) r h
