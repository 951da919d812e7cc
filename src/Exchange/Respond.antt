-- ===== src/Exchange/Respond.antt =====
-- backend/internal/usecase/handshake/respond_challenge.go: RespondChallenge over the repositories of
-- Memory. The KMS and the issuer of tokens are outside: what they answer is an argument. Logs,
-- metrics and contexts are left out.
pub mod Parts
pub mod Ends
pub mod Refused
pub mod Accepted
pub mod Walk
mod Examples
use tccelta.Common.{
  ℕ, ◌/◌, ◌%◌, ◌^◌, Bool, true, false, not, ◌&&◌, ◌||◌, List, [], ◌∷◌, Option, none, some, Result,
  ok, err, leb, ◌==◌, if◌then◌else◌, length, fail_if,
}
use tccelta.Common
use tccelta.Common.Bytes.{Bytes}
use tccelta.Common.Int.{ℤ, pos, negsuc}
use tccelta.Registry
use tccelta.Registry.{Dongle, verify_access}
use tccelta.Protocol
use tccelta.Protocol.{response_type, ack_type}
use tccelta.Protocol.Identity.{compare_tag, tag_input}
use tccelta.Protocol.Tlv.{Tlv, read_tlv}
use tccelta.Protocol.Messages.Response.{Response}
use tccelta.Protocol.Messages.Response
use tccelta.Protocol.Messages.Ack.{Ack, flag_ack_anchor_failed}
use tccelta.Protocol.Messages.Ack
use tccelta.Ingestion.{cause_overflow}
use tccelta.Handshake
use tccelta.Handshake.{Range, apply_tail, evaluate_anchor, handshake_generation, micro_ceiling}
use tccelta.Timeline.{unwrap}
use tccelta.Memory.{
  Fault, handshake, protocol, Database, RefBoot, last_t_ms, Outcome, accepted, accepted_no_anchor,
  inconsistent, Finalization, find_by_dev_id, find_challenge, is_pending, read_state, Consumption,
  consume, finalize, mark_invalid_tag, update_handshake, insert_gap, insert_alert, insert_anchor,
  notify_pending, of_boot, server_clock_regressed, in_transaction,
}
use tccelta.Memory.Action.{Action, pure, reads, outcome, ◌>>=◌, ◌>>◌, writes, writes_if, raise_if}
use tccelta.Exchange.{Params, registry_fault, protocol_fault, tag16}

pub record Token : Type 0 where
  pub text : Bytes
  pub jti : Bytes
  pub expires_at : ℕ

-- What the ports answer: HMACAuth before and within the transaction, the token for a dongle and a
-- number, and the validity of tokens.
pub record Ports : Type 0 where
  pub hmac_pre : Bytes → Bytes → Result Fault Bytes
  pub hmac_tx : Bytes → Bytes → Result Fault Bytes
  pub token : Bytes → ℕ → Result Fault Token
  pub validity : ℕ

pub record HandshakeResult : Type 0 where
  pub ack_tlv : Bytes
  pub token : Bytes
  pub token_expires_at : ℕ
  pub suggested_t_lat : ℕ
  pub with_anchor : Bool
  pub ack_seq : ℕ  -- uint32
  pub validity_s : ℕ

-- stateOf
pub handshake_state : Registry.State → Handshake.State
handshake_state e = record {
  contiguous_seq = e.contiguous_seq % 2 ^ 32;
  head_seq = e.head_seq % 2 ^ 32;
  c_conf = e.c_conf % 2 ^ 32;
  boot_generation = e.boot_generation % 2 ^ 16;
  last_boot_id = e.last_boot_id % 2 ^ 16;
}

-- A response with its payload, its tag, its dongle and the instant of its arrival.
pub record Entry : Type 0 where
  pub d : Dongle
  pub r : Response
  pub payload : Bytes
  pub tag : Bytes
  pub s2 : ℕ

abbrev pub unexpected : Fault
unexpected = protocol Protocol.unexpected_type

-- The envelope alone in the text, and the response in it.
pub read_response : Bytes → Result Fault (Response × Bytes × Bytes)
read_response tlv = elim (read_tlv tlv) [
  | err e ↦ err unexpected
  | ok (t, n) ↦
      if not (n == length tlv) || not (t.t == response_type)
      then err unexpected
      else protocol_fault (Response.decode t.v)
]

-- Run, step 4: the tests without a lock.
pub check_entry : Database → Entry → Result Fault Entry
check_entry b x = elim (find_challenge b x.d.id x.r.cs) [
  | err e ↦ err e
  | ok ds ↦
      if not (compare_tag ds.nonce x.r.ns) || not (is_pending ds x.s2)
      then err (handshake Handshake.invalid_challenge)
      else elim (read_state b x.d.id) [
        | err e ↦ err e
        | ok est ↦ if leb x.r.cs est.c_conf then err (handshake Handshake.stale_cs) else ok x
      ]
]

-- Run, steps 1 to 3: who answers, and what.
pub read_entry : Params → Database → Bytes → ℕ → Bytes → Result Fault Entry
read_entry q b dev s2 tlv = elim (find_by_dev_id b dev) [
  | err e ↦ err e
  | ok d ↦ elim (registry_fault (verify_access d q.allow_none_profile)) [
    | err e ↦ err e
    | ok _ ↦ elim (read_response tlv) [
      | err e ↦ err e
      | ok (r, payload, tag) ↦
          ok (record { d = d; r = r; payload = payload; tag = tag; s2 = micro_ceiling s2 })
    ]
  ]
]

-- The reference among the rows of LastTMs: the last one of this boot, or -1.
pub reference_of : List RefBoot → ℕ → ℕ → ℤ → ℤ
reference_of [] gen boot_id ref = ref
reference_of (x ∷ xs) gen boot_id ref =
    reference_of xs gen boot_id
      (if x.generation == gen && x.boot_id == boot_id then x.last_t_ms else ref)

-- The gap of a loss.
pub record_loss : Entry → Option Range → Database → Database
record_loss x none b = b
record_loss x (some l) b = insert_gap b (record {
  dongle_id = x.d.id;
  from = l.start;
  to = l.end;
  cause = cause_overflow;
  registered_at = x.s2;
  cs = some x.r.cs;
  block_seq = none;
})

-- The alert that the clock of the server has gone back.
pub record_regression : Entry → ℕ → Database → Database
record_regression x gen b = insert_alert b (record {
  dongle_id = x.d.id;
  kind = server_clock_regressed;
  boot_generation = some gen;
  boot_id = some x.r.boot_id;
})

pub record_anchor : Entry → ℕ → ℕ → ℤ → Database → Database
record_anchor x s1 gen t_ms b = insert_anchor b (record {
  dongle_id = x.d.id;
  boot_generation = gen;
  boot_id = x.r.boot_id;
  t_ms = t_ms;
  nonce = x.r.ns;
  s1 = s1;
  s2 = x.s2;
})

-- The milliseconds of the dongle by the reference of its boot.
pub unwrapped : Entry → ℕ → List RefBoot → ℤ
unwrapped x gen refs = unwrap x.r.t_ms (reference_of refs gen x.r.boot_id (negsuc 0))

abbrev pub start_of : Option Range → Option ℕ
start_of none = none
start_of (some l) = some l.start

abbrev pub end_of : Option Range → Option ℕ
end_of none = none
end_of (some l) = some l.end

abbrev pub consumption : Entry → Consumption
consumption x = record { dongle_id = x.d.id; cs = x.r.cs; nonce = x.r.ns; s2 = x.s2 }

pub ack_message : Entry → ℕ → Bool → Ack
ack_message x ack with_anchor = record {
  ack_seq = ack;
  cconf = x.r.cs;
  flags = if with_anchor then 0 else flag_ack_anchor_failed;
}

pub finalization : Entry → Token → ℕ → Option Range → Bool → ℤ → ℕ → Finalization
finalization x emit ack loss with_anchor t_ms gen = record {
  dongle_id = x.d.id;
  cs = x.r.cs;
  result = if with_anchor then accepted else accepted_no_anchor;
  ack_seq = some ack;
  loss_start = start_of loss;
  loss_end = end_of loss;
  token_jti = some emit.jti;
  unwrapped_t_ms = some t_ms;
  boot_generation = some gen;
}

pub rejection : Entry → Finalization
rejection x = record {
  dongle_id = x.d.id;
  cs = x.r.cs;
  result = inconsistent;
  ack_seq = none;
  loss_start = none;
  loss_end = none;
  token_jti = none;
  unwrapped_t_ms = none;
  boot_generation = none;
}

module _ (q : Params) (p : Ports) (x : Entry) (emit : Token) where
  -- The transaction from the new ACK on: the signature, the state and the end of the challenge.
  pub conclude : ℕ → Option Range → Bool → ℤ → ℕ → Action HandshakeResult
  conclude ack loss with_anchor t_ms gen = do
    let am = ack_message x ack with_anchor
    mac ← outcome (p.hmac_tx x.d.auth_key (tag_input ack_type x.d.dev_id (Ack.payload am)))
    let ack_tlv = Ack.build am (tag16 mac)
    writes λ b. update_handshake b (record {
      dongle_id = x.d.id;
      contiguous_seq = ack;
      head_seq = x.r.head_seq;
      c_conf = x.r.cs;
      last_ack = ack_tlv;
    })
    writes λ b. finalize b (finalization x emit ack loss with_anchor t_ms gen)
    writes λ b. notify_pending b (of_boot x.d.id gen x.r.boot_id)
    pure (record {
      ack_tlv = ack_tlv;
      token = emit.text;
      token_expires_at = emit.expires_at;
      suggested_t_lat = q.suggested_t_lat;
      with_anchor = with_anchor;
      ack_seq = ack;
      validity_s = p.validity / 1000000000;
    })

  -- The transaction behind ApplyTail: the loss, the anchor and the time of the dongle.
  pub anchor : ℕ → Registry.State → ℕ → Option Range → Action HandshakeResult
  anchor s1 er ack loss = do
    writes (record_loss x loss)
    let rule = evaluate_anchor (pos s1) (pos x.s2) (pos q.anchor_rtt_max)
    let gen = handshake_generation (handshake_state er) x.r.boot_id
    writes_if rule.1 (record_regression x gen)
    refs ← reads λ b. ok (last_t_ms b x.d.id (x.r.boot_id ∷ []) gen gen)
    writes_if rule.0 (record_anchor x s1 gen (unwrapped x gen refs))
    conclude ack loss rule.0 (unwrapped x gen refs) gen

  -- The branch of an inconsistent response, which is committed.
  pub close_inconsistent : Action (Result Fault HandshakeResult)
  close_inconsistent = do
    writes λ b. finalize b (rejection x)
    pure (err (handshake Handshake.inconsistent_response))

  pub decide :
      ℕ
      → Registry.State
      → Result Handshake.Error (ℕ × Option Range)
      → Action (Result Fault HandshakeResult)
  decide s1 er (err e) = close_inconsistent
  decide s1 er (ok (ack, loss)) = anchor s1 er ack loss >>= λ res. pure (ok res)

  -- The body of the transaction. The inner result is what Run returns behind a commit.
  pub transaction : Action (Result Fault HandshakeResult)
  transaction = do
    s1 ← λ b. consume b (consumption x)
    er ← reads λ b. read_state b x.d.id
    raise_if (leb x.r.cs er.c_conf) (handshake Handshake.stale_cs)
    decide s1 er (apply_tail (handshake_state er) x.r.tail_seq x.r.head_seq)

-- What Run returns behind the transaction.
abbrev pub returned : Result Fault (Result Fault HandshakeResult) → Result Fault HandshakeResult
returned (ok r) = r
returned (err e) = err e

-- Run, steps 6 and 7.
pub exchange : Params → Ports → Database → Entry → Result Fault HandshakeResult × Database
exchange q p b x = elim (p.token x.d.dev_id x.r.cs) [
  | err e ↦ (err e, b)
  | ok emit ↦ let (r, after) = in_transaction (transaction q p x emit) b in (returned r, after)
]

-- Run, step 5: the tag.
pub authenticate : Params → Ports → Database → Entry → Result Fault HandshakeResult × Database
authenticate q p b x =
    elim (p.hmac_pre x.d.auth_key (tag_input response_type x.d.dev_id x.payload)) [
      | err e ↦ (err e, b)
      | ok mac ↦
          if not (compare_tag (tag16 mac) x.tag)
          then (err (handshake Handshake.invalid_tag), mark_invalid_tag b x.d.id x.r.cs x.r.ns)
          else exchange q p b x
    ]

-- Run: the response `tlv` of the dongle `dev`, which arrived at `s2`.
pub respond :
    Params → Ports → Database → Bytes → ℕ → Bytes → Result Fault HandshakeResult × Database
respond q p b dev s2 tlv = elim (read_entry q b dev s2 tlv) [
  | err e ↦ (err e, b)
  | ok x ↦ elim (check_entry b x) [ err e ↦ (err e, b) | ok _ ↦ authenticate q p b x ]
]
