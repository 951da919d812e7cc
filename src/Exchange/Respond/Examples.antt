-- ===== src/Exchange/Respond/Examples.antt =====
-- A response of one dongle, its acceptance and a replay.
use tccelta.Common.{◌≡◌, refl, true, [], ◌∷◌, none, some, ok, err, replicate, arith}
use tccelta.Common.Bytes.{Bytes}
use tccelta.Common.Int.{pos, ◌-ℤ◌}
use tccelta.Common.Maps.{lookup, put}
use tccelta.Common.Text.{bytes_eq}
use tccelta.Protocol.Identity.{compare_tag}
use tccelta.Protocol.Tlv.{read_tlv, append_tlv}
use tccelta.Protocol.Messages.Response.{Response}
use tccelta.Protocol.Messages.Response
use tccelta.Protocol.Messages.Ack
use tccelta.Handshake
use tccelta.Handshake.{
  apply_tail, evaluate_anchor, handshake_generation, micro_ceiling, truncate_micro,
}
use tccelta.Timeline.{unwrap}
use tccelta.Registry.{verify_access, zero_state}
use tccelta.Memory.{
  handshake, Challenge, accepted, Database, find_by_dev_id, find_challenge, is_pending, read_state,
  consume, answer, fresh_challenge, finalize, in_transaction, update_handshake, notify_pending,
  of_boot, insert_anchor, last_t_ms, last_in_generations, state_of,
}
use tccelta.Exchange.{tag16, issuance}
use tccelta.Exchange.Examples.{dev, dongle, params, nonce, ports as sender, after as issued}
use tccelta.Memory.{last_cs_of}
use tccelta.Memory.Lifecycle.{IsNumbered, stay}
use tccelta.Exchange.Respond.Walk.{respond_once}
use tccelta.Exchange.Respond.Refused.{Untouched, respond_refused}
use tccelta.Exchange.Respond.Accepted.{Advanced, respond_accepted}
use tccelta.Exchange.Respond.{
  Token, Ports, HandshakeResult, Entry, read_response, read_entry, check_entry, authenticate,
  exchange, transaction, decide, anchor, conclude, respond, ack_message, finalization, record_loss,
  record_anchor, unwrapped, reference_of, handshake_state,
}

abbrev response : Response
response = record { cs = 1; tail_seq = 1; head_seq = 4; t_ms = 1500; ns = nonce; boot_id = 2 }

abbrev text : Bytes
text = Response.build response (replicate 16 5)

abbrev ports : Ports
ports = record {
  hmac_pre = λ key input. ok (replicate 32 5);
  hmac_tx = λ key input. ok (replicate 32 6);
  token = λ d cs. ok (record { text = 7 ∷ []; jti = 8 ∷ []; expires_at = 99 });
  validity = 3000000000;
}

abbrev entry : Entry
entry = record {
  d = dongle;
  r = response;
  payload = Response.payload response;
  tag = replicate 16 5;
  s2 = 8000;
}

entered : read_entry params issued dev 7500 text ≡ ok entry
unfolding read_entry find_by_dev_id lookup bytes_eq verify_access read_response read_tlv append_tlv
    Response.build Response.decode Response.payload micro_ceiling truncate_micro
entered = refl

abbrev token : Token
token = record { text = 7 ∷ []; jti = 8 ∷ []; expires_at = 99 }

abbrev ack_tlv : Bytes
ack_tlv = Ack.build (ack_message entry 0 true) (replicate 16 6)

abbrev accepted_result : HandshakeResult
accepted_result = record {
  ack_tlv = ack_tlv;
  token = 7 ∷ [];
  token_expires_at = 99;
  suggested_t_lat = 0;
  with_anchor = true;
  ack_seq = 0;
  validity_s = 3;
}

abbrev finished : Challenge
finished = record {
  stored = record (fresh_challenge (issuance params sender dongle nonce)).stored {
    answered_at = some 8000;
  };
  result = accepted;
  final = some (finalization entry token 0 none true (pos 1500) 0);
}

abbrev after : Database
after = record issued {
  states = (7, record zero_state { head_seq = 4; c_conf = 1; last_ack = ack_tlv }) ∷ [];
  challenges = ((7, 1), finished) ∷ [];
  anchors =
      record {
        dongle_id = 7;
        boot_generation = 0;
        boot_id = 2;
        t_ms = pos 1500;
        nonce = nonce;
        s1 = 5000;
        s2 = 8000;
      }
      ∷ [];
  notifications = of_boot 7 0 2 ∷ [];
}

accepted_run : respond params ports issued dev 7500 text ≡ (ok accepted_result, after)
unfolding respond read_entry find_by_dev_id lookup put bytes_eq verify_access read_response read_tlv
    append_tlv Response.build Response.decode Response.payload micro_ceiling truncate_micro
    check_entry find_challenge is_pending read_state authenticate exchange transaction decide anchor
    conclude compare_tag tag16 consume finalize in_transaction update_handshake notify_pending
    insert_anchor record_loss record_anchor unwrapped reference_of unwrap handshake_state apply_tail
    evaluate_anchor handshake_generation last_t_ms last_in_generations fresh_challenge issuance
    answer ◌-ℤ◌ state_of finalization
accepted_run = refl

respond_accepted_example : Advanced issued after entry accepted_result
unfolding state_of lookup
respond_accepted_example =
    respond_accepted params ports issued after dev 7500 text entry accepted_result entered
      (omega arith) (omega arith) accepted_run

entered_again : read_entry params after dev 7600 text ≡ ok entry
unfolding read_entry find_by_dev_id lookup bytes_eq verify_access read_response read_tlv append_tlv
    Response.build Response.decode Response.payload micro_ceiling truncate_micro
entered_again = refl

issued-IsNumbered : IsNumbered issued
unfolding IsNumbered lookup last_cs_of
issued-IsNumbered id cs d h = ground arith

respond_once_example :
    respond params ports after dev 7600 text ≡ (err (handshake Handshake.invalid_challenge), after)
respond_once_example =
    respond_once params ports ports issued after after dev dev 7500 7600 text text entry entry
      accepted_result issued-IsNumbered entered accepted_run stay entered_again refl refl

-- The KMS computes another tag.
abbrev forging : Ports
forging = record ports { hmac_pre = λ key input. ok (replicate 32 4) }

forged_run : (respond params forging issued dev 7500 text).0 ≡ err (handshake Handshake.invalid_tag)
unfolding respond read_entry find_by_dev_id lookup bytes_eq verify_access read_response read_tlv
    append_tlv Response.build Response.decode Response.payload micro_ceiling truncate_micro
    check_entry find_challenge is_pending read_state authenticate compare_tag tag16 fresh_challenge
    issuance
forged_run = refl

respond_refused_example : Untouched issued (respond params forging issued dev 7500 text).1
respond_refused_example =
    respond_refused params forging issued dev 7500 text (handshake Handshake.invalid_tag) forged_run
