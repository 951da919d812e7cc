-- ===== src/Batch/Receive/Examples.antt =====
-- A batch with one data block, received from one dongle.
use tccelta.Common.{
  sym, ◌∙◌, ok-injective, ap, All, ◌≡◌, ◌++◌, refl, Bool, List, [], ◌∷◌, true, false, none, some,
  ok, err, replicate,
}
use tccelta.Common.Bytes.{Bytes}
use tccelta.Common.Maps.{lookup, put}
use tccelta.Common.Text.{codes, bytes_eq}
use tccelta.Ingestion.{BlockIn, reason_none, action_none, action_of}
use tccelta.Ingestion.Rows
use tccelta.Protocol.{block_type}
use tccelta.Protocol.Block.{Block, decode_block}
use tccelta.Protocol.Identity.{profile_hmac, profile_asym}
use tccelta.Protocol.Signature.{Crypto, verify_block_signature, parse_public_key, set_bytes}
use tccelta.Protocol.Tlv.{append_tlv, read_tlv, read_batch, read_batch_loop}
use tccelta.Registry.{Dongle, verify_access, zero_state}
use tccelta.Memory.{
  notify_pending, last_t_ms, last_in_generations, Database, find_by_dev_id, read_state, ingestion,
  state_of, in_transaction,
}
use tccelta.Memory.Blocks.{
  read_snapshot, insert_raw_blocks, insert_loop, is_seen, copy_readings, copy_positions,
  update_boots, read_last_ack, update_ingestion,
}
use tccelta.Pid.{Floats, Def}
use tccelta.Batch.{Params, Session, Ports, BatchResult, ack_decoded}
use tccelta.Batch.Authenticate.{Authenticated, authenticate}
use tccelta.Batch.Confirm.{get_confirmation}
use tccelta.Batch.Verify.Slices.{judged, Judges}
use tccelta.Batch.Verify.Signed.{is_signed}
use tccelta.Batch.Receive.Authentic.{tag_rule, applied-is_signed, applied-verify_block_signature}
use tccelta.Batch.Verify.{
  each, Verified, read_body, decode_blocks, verify, verify_selected, mark_verified, to_verify,
  verify_slices, verifier, inputs_of, tags_of, copy_into, presign, likely_ack, verdicts,
  with_verdicts, ack_eq,
}
use tccelta.Ingestion.Apply.{
  apply, initial, apply_loop, round, read_round, content_round, data_round, first_unknown,
  boot_round, loss_round, assign, max_seen_of, bad_tags,
}
use tccelta.Ingestion.Generation.{assign_generation}
use tccelta.Protocol.Records.{read_records, read_loop, read_marker, touch}
use tccelta.Batch.Receive.{
  applied, sender, prepare, receive, transaction, record_batch, acknowledge, signed_ack, sign_ack,
  is_changed, state_update, result_of, ack_of,
}
use tccelta.Batch.Store.{
  reject_all, store_accepted, store, references, check_stored, store_rest, insert_gaps,
}
use tccelta.Batch.Derive.{
  boot_ids, rows_of, rows_loop, add_block, add_data, refs_of, raw_of, aggregate, rec_ms, aggregates,
  sort_keys,
}
use tccelta.Pid.{decode, readings_of, reading_of, position_of, value_of}
use tccelta.Timeline.{unwrap, nearer}
use tccelta.Protocol.Messages.Ack
use tccelta.Registry
use tccelta.Batch.Receive.Progress.{Recorded, receive-Recorded, receive_refused}
use tccelta.Batch.Receive.Confirmed.{get_confirmation-receive}

abbrev dev : Bytes
dev = 1 ∷ 2 ∷ 3 ∷ []

abbrev dongle : Dongle
dongle = record {
  id = 7;
  dev_id = dev;
  profile = profile_hmac;
  auth_key = codes "a";
  rec_key = codes "r";
  public_key = [];
  active = true;
}

abbrev database : Database
database = record {
  dongles = (dev, dongle) ∷ [];
  states = (7, zero_state) ∷ [];
  last_cs = [];
  challenges = [];
  t_ms_boot = [];
  seen = [];
  raw_blocks = [];
  rejected = [];
  readings = [];
  positions = [];
  gaps = [];
  alerts = [];
  anchors = [];
  notifications = [];
}

abbrev params : Params
params = record { max_batch = 4; verify_batch = 0; allow_none_profile = false }

abbrev session : Session
session = record { dev = dev; cs = 1; jti = [] }

abbrev floats : Floats
floats = record {
  of_int = λ z. 0;
  mul_add = λ x y z. x;
  add = λ x y. x;
  sub = λ x y. x;
  div = λ x y. x;
  le = λ x y. true;
  min = λ x y. x;
  float32 = λ x. x;
}

abbrev crypto : Crypto
crypto = record { sha256 = λ t. t; on_curve = λ key. true; ecdsa_verify = λ key hash r s. true }

abbrev speed : Def
speed = record {
  pid = 13;
  name = "speed";
  unit = "km/h";
  n_bytes = 1;
  factor = 0;
  value_offset = 0;
  min = none;
  max = none;
}

-- The KMS finds every block valid, one answer for each.
all_valid : List Bytes → List Bytes → List Bool
all_valid [] tags = []
all_valid (x ∷ xs) [] = []
all_valid (x ∷ xs) (t ∷ tags) = true ∷ all_valid xs tags

abbrev ports : Ports
ports = record {
  verify_blocks = λ key inputs tags. ok (all_valid inputs tags);
  hmac_pre = λ key input. ok (replicate 32 5);
  hmac_tx = λ key input. ok (replicate 32 5);
  crypto = crypto;
  floats = floats;
  cat = λ pid. some speed;
  now = 62135596800000000000;
}

-- The block 1 of the boot 2, with one record of the PID 13.
abbrev payload : Bytes
payload = 1 ∷ 0 ∷ 0 ∷ 0 ∷ 2 ∷ 0 ∷ 100 ∷ 0 ∷ 0 ∷ 0 ∷ 17 ∷ 0 ∷ 13 ∷ 5 ∷ 0 ∷ 60 ∷ 0 ∷ []

abbrev body : Bytes
body = append_tlv [] block_type (payload ++ replicate 32 9)

abbrev block : Block
block = record {
  hdr = record { seq = 1; boot_id = 2; t0_ms = 100; size = 17 };
  payload = payload;
  tag = replicate 32 9;
}

abbrev unjudged : BlockIn
unjudged = record { b = block; valid = false; verified = false }

abbrev ack : Bytes
ack = 4 ∷ 25 ∷ 0 ∷ 1 ∷ 0 ∷ 0 ∷ 0 ∷ 0 ∷ 0 ∷ 0 ∷ 0 ∷ 0 ∷ replicate 16 5

abbrev out : BatchResult
out = record {
  ack_tlv = ack;
  ack_seq = 1;
  interrupted = false;
  reason = reason_none;
  action = action_none;
  no_progress = false;
  accepted = 1;
  duplicates = 0;
}

abbrev verified : Verified
verified = record {
  blocks = record { b = block; valid = true; verified = true } ∷ [];
  presigned = some (record { ack_seq = 1; cconf = 0; flags = 0 }, replicate 16 5);
}

prepared : prepare params ports database dongle body ≡ ok verified
unfolding prepare read_body read_batch read_batch_loop read_tlv append_tlv decode_blocks
    decode_block verify verify_selected mark_verified to_verify verify_slices verifier bytes_eq
    inputs_of tags_of copy_into presign likely_ack ack_decoded apply initial apply_loop round
    read_round content_round data_round first_unknown boot_round loss_round assign max_seen_of
    bad_tags read_records read_loop read_marker touch verdicts with_verdicts lookup put
    read_snapshot state_of all_valid assign_generation ack_eq
prepared = refl

abbrev after : Database
after = (receive params ports database session body).1

answered : (receive params ports database session body).0 ≡ ok out
unfolding receive sender find_by_dev_id verify_access in_transaction transaction record_batch
    reject_all store_accepted store references boot_ids rows_of rows_loop add_block add_data refs_of
    raw_of unwrap nearer aggregate rec_ms decode readings_of reading_of position_of value_of
    insert_raw_blocks insert_loop is_seen check_stored store_rest copy_readings copy_positions
    insert_gaps aggregates sort_keys update_boots notify_pending acknowledge read_last_ack
    signed_ack sign_ack is_changed update_ingestion state_update result_of applied ack_of Ack.build
    Ack.payload read_state last_t_ms last_in_generations action_of prepare read_body read_batch
    read_batch_loop read_tlv append_tlv decode_blocks decode_block verify verify_selected
    mark_verified to_verify verify_slices verifier bytes_eq inputs_of tags_of copy_into presign
    likely_ack ack_decoded apply initial apply_loop round read_round content_round data_round
    first_unknown boot_round loss_round assign max_seen_of bad_tags read_records read_loop
    read_marker touch verdicts with_verdicts lookup put read_snapshot state_of all_valid
    assign_generation ack_eq
answered = refl

run : receive params ports database session body ≡ (ok out, after)
run i = (answered i, after)

given : sender params database session ≡ ok dongle
unfolding sender find_by_dev_id verify_access lookup bytes_eq
given = refl

receive-Recorded_example :
    (est : Registry.State) × (read_state database 7 ≡ ok est)
    × Recorded ports dongle session database after
        (applied ports dongle session verified.blocks est)
        out
receive-Recorded_example =
    receive-Recorded params ports database after session body dongle verified out given prepared run

get_confirmation-receive_example : get_confirmation false after dev ≡ ok ack
get_confirmation-receive_example =
    get_confirmation-receive params ports database after session body out run

-- An envelope that is cut short.
short :
    receive params ports database session (3 ∷ [])
    ≡ (err (ingestion Rows.malformed_batch), database)
unfolding receive sender find_by_dev_id verify_access prepare read_body read_batch read_batch_loop
    read_tlv lookup bytes_eq
short = refl

receive_refused_example : (receive params ports database session (3 ∷ [])).1 ≡ database
receive_refused_example =
    receive_refused params ports database (receive params ports database session (3 ∷ [])).1 session
      (3 ∷ []) (ingestion Rows.malformed_batch)
      (λ i. ((short i).0, (receive params ports database session (3 ∷ [])).1))

one_block : read_body params profile_hmac body ≡ ok (unjudged ∷ [])
unfolding read_body read_batch read_batch_loop read_tlv append_tlv decode_blocks decode_block
one_block = refl

abbrev yes : Bytes → Bytes → Bool
yes input tag = true

each_valid : (ins tags : List Bytes) → all_valid ins tags ≡ each yes ins tags
unfolding all_valid each
each_valid [] tags = refl
each_valid (x ∷ xs) [] = refl
each_valid (x ∷ xs) (t ∷ tags) = ap (λ r. true ∷ r) (each_valid xs tags)

kms-Judges : Judges yes dongle (ports.verify_blocks dongle.rec_key)
kms-Judges ins tags answers n h = sym (ok-injective _ _ h) ∙ each_valid ins tags

applied-is_signed_example :
    All
      (λ a.
        is_signed (judged (tag_rule ports dongle yes) dongle) a.b.hdr.seq (unjudged ∷ []) ≡ true)
      (applied ports dongle session verified.blocks zero_state).accepted
applied-is_signed_example =
    applied-is_signed params ports database session body dongle (unjudged ∷ []) verified zero_state
      yes kms-Judges one_block prepared

-- The same block with an ECDSA tag.
abbrev signer : Dongle
signer = record dongle { profile = profile_asym; public_key = 4 ∷ replicate 64 1 }

abbrev signed_body : Bytes
signed_body = append_tlv [] block_type (payload ++ replicate 64 9)

abbrev signed_block : Block
signed_block = record block { tag = replicate 64 9 }

abbrev signed : Verified
signed = record verified {
  blocks = record { b = signed_block; valid = true; verified = true } ∷ [];
}

abbrev signed_in : BlockIn
signed_in = record { b = signed_block; valid = false; verified = false }

signed_read : read_body params profile_asym signed_body ≡ ok (signed_in ∷ [])
unfolding read_body read_batch read_batch_loop read_tlv append_tlv decode_blocks decode_block
signed_read = refl

signed_prepared : prepare params ports database signer signed_body ≡ ok signed
unfolding prepare read_body read_batch read_batch_loop read_tlv append_tlv decode_blocks
    decode_block verify verify_selected mark_verified to_verify verify_slices verifier bytes_eq
    inputs_of tags_of copy_into presign likely_ack ack_decoded apply initial apply_loop round
    read_round content_round data_round first_unknown boot_round loss_round assign max_seen_of
    bad_tags read_records read_loop read_marker touch verdicts with_verdicts lookup put
    read_snapshot state_of all_valid assign_generation ack_eq verify_block_signature
    parse_public_key set_bytes each
signed_prepared = refl

applied-verify_block_signature_example :
    All
      (λ a.
        is_signed
          (judged
            (verify_block_signature crypto (parse_public_key crypto signer.public_key))
            signer)
          a.b.hdr.seq
          (signed_in ∷ [])
        ≡ true)
      (applied ports signer session signed.blocks zero_state).accepted
applied-verify_block_signature_example =
    applied-verify_block_signature params ports database session signed_body signer (signed_in ∷ [])
      signed zero_state refl signed_read signed_prepared

abbrev request : Authenticated
request = record { session = session; dongle = dongle }

authenticated : authenticate false database (ok session) ≡ ok request
unfolding authenticate find_by_dev_id verify_access lookup bytes_eq
authenticated = refl
