-- ===== src/Exchange/Sent.antt =====
-- What a challenge that was sent stands for.
use tccelta.Common.{
  ℕ, ◌<◌, ◌+◌, ◌≡◌, sym, inl, inr, refl, ok, Result, err, Result-cases, ok-injective, ap, ◌%◌, ◌^◌,
  take, subst, ◌>>=◌, arith,
}
use tccelta.Common.Bytes.{Bytes}
use tccelta.Protocol
use tccelta.Protocol.{challenge_type}
use tccelta.Protocol.Identity.{tag_input}
use tccelta.Protocol.Messages.Challenge
use tccelta.Registry.{Dongle, verify_access}
use tccelta.Handshake.{truncate_micro}
use tccelta.Memory.{Database, Issued, find_by_dev_id, issue, consume, last_cs_of, state_of}
use tccelta.Memory.Replay.{Numbered, issue-Numbered, consume-issue}
use tccelta.Exchange.{
  Params, Ports, IssuedChallenge, admit, issuance, sign, issue_to, message, tag16, protocol_fault,
  issue_challenge,
}

-- The message that is due for a dongle: its next number, its ACK and the number it has confirmed.
abbrev pub due : Database → Dongle → Bytes → Challenge.Challenge
due b d ns = record {
  cs = (last_cs_of b d.id + 1) % 2 ^ 32;
  ack_seq = (state_of b d.id).contiguous_seq % 2 ^ 32;
  cconf = (state_of b d.id).c_conf % 2 ^ 32;
  ns = ns;
  flags = 0;
  diag_min = 0;
}

-- The envelope is the message with the first 16 bytes of what the KMS answers for it.
abbrev pub IsSigned : Ports → Dongle → Challenge.Challenge → Bytes → Type 0
IsSigned p d m tlv =
    (mac : Bytes) × (p.hmac d.auth_key (tag_input challenge_type d.dev_id (Challenge.payload m))
      ≡ ok mac)
    × (Challenge.build m (take 16 mac) ≡ ok tlv)

-- The dongle, the nonce and the number behind a challenge that was sent.
pub record Sent (q : Params) (p : Ports) (b after : Database) (dev : Bytes) (out : IssuedChallenge)
    (d : Dongle) (ns : Bytes) (i : Issued) : Type 0 where
  pub registered : find_by_dev_id b dev ≡ ok d
  pub allowed : verify_access d q.allow_none_profile ≡ ok tt
  pub random : p.nonce ≡ ok ns
  pub numbered : Numbered b after (issuance q p d ns) i
  pub announced : out.expires_at ≡ truncate_micro p.now + q.challenge_validity
  pub signed : IsSigned p d (due b d ns) out.tlv
  pub accepted :
      (s2 : ℕ)
      → s2 < out.expires_at
      → (consume after (record { dongle_id = d.id; cs = i.cs; nonce = ns; s2 = s2 })).0
        ≡ ok (truncate_micro p.now)

protocol_ok :
    {A : Type 0} {a : A} (r : Result Protocol.Error A) → protocol_fault r ≡ ok a → r ≡ ok a
protocol_ok (ok x) h = ap ok (ok-injective _ _ h)
protocol_ok (err e) h = ground arith

sign-IsSigned :
    (p : Ports) (d : Dongle) (i : Issued) (ns tlv : Bytes)
    → sign p d i ns ≡ ok tlv
    → IsSigned p d (message i ns) tlv
unfolding sign tag16
sign-IsSigned p d i ns tlv h =
    elim (Result-cases
      (p.hmac d.auth_key (tag_input challenge_type d.dev_id (Challenge.payload (message i ns))))) [
        | inr (e, k) ↦ ground (arith, rw (k, ◌>>=◌) at h)
        | inl (mac, k) ↦ (mac, k, protocol_ok _ (rw (k, ◌>>=◌) at h))
      ]

message-due :
    (q : Params) (p : Ports) (b after : Database) (d : Dongle) (ns : Bytes) (i : Issued)
    → Numbered b after (issuance q p d ns) i
    → message i ns ≡ due b d ns
unfolding message issuance
message-due q p b after d ns i n = rw n.next (rw n.confirmed (rw n.answered refl))

admit_sound :
    (q : Params) (p : Ports) (b : Database) (dev : Bytes) (d : Dongle) (ns : Bytes)
    → admit q p b dev ≡ ok (d, ns)
    → (find_by_dev_id b dev ≡ ok d)
      × (verify_access d q.allow_none_profile ≡ ok tt)
      × (p.nonce ≡ ok ns)
unfolding admit
admit_sound q p b dev d ns h = elim (Result-cases (find_by_dev_id b dev)) [
  | inr (e, f) ↦ ground arith
  | inl (x, f) ↦ elim (Result-cases (verify_access x q.allow_none_profile)) [
    | inr (e, v) ↦ ground arith
    | inl (u, v) ↦ elim (Result-cases p.nonce) [
      | inr (e, r) ↦ ground arith
      | inl (n, r) ↦ (ground arith, ground arith, ground arith)
    ]
  ]
]

issued_to :
    (q : Params) (p : Ports) (b after : Database) (d : Dongle) (ns : Bytes) (out : IssuedChallenge)
    → issue_to q p b d ns ≡ (ok out, after)
    → (i : Issued) × (issue b (issuance q p d ns) ≡ (ok i, after))
      × (sign p d i ns ≡ ok out.tlv)
      × (out.expires_at ≡ (issuance q p d ns).expires_at)
unfolding issue_to
issued_to q p b after d ns out h = elim (Result-cases (issue b (issuance q p d ns)).0) [
  | inr (e, g) ↦ ground arith
  | inl (i, g) ↦ elim (Result-cases (sign p d i ns)) [
    | inr (e, r) ↦ ground arith
    | inl (t, r) ↦ (i, ground arith, ground arith, ground arith)
  ]
]

-- When IssueChallenge sends an envelope, it is the signed message of a registered dongle that has
-- access, with the nonce drawn, the next number of the dongle, under which the challenge is stored, and the
-- ACK and the confirmed number of its state; and until the instant of expiry that it announces, the
-- validity behind the clock, Consume accepts an answer of the dongle to this number with this nonce and gives the
-- instant of sending.
pub issue_challenge_sound :
    (q : Params) (p : Ports) (b after : Database) (dev : Bytes) (out : IssuedChallenge)
    → issue_challenge q p b dev ≡ (ok out, after)
    → (d : Dongle) × (ns : Bytes) × (i : Issued) × Sent q p b after dev out d ns i
unfolding issue_challenge issuance
issue_challenge_sound q p b after dev out h = elim (Result-cases (admit q p b dev)) [
  | inr (e, f) ↦ ground arith
  | inl ((d, ns), f) ↦
      let entered = admit_sound q p b dev d ns f in
      let (i, given, r, x) = issued_to q p b after d ns out (ground arith) in
      (
        d,
        ns,
        i,
        record {
          registered = entered.0;
          allowed = entered.1;
          random = entered.2;
          numbered = issue-Numbered b after (issuance q p d ns) i given;
          announced = x;
          signed =
              subst (λ m. IsSigned p d m out.tlv)
                (message-due q p b after d ns i
                  (issue-Numbered b after (issuance q p d ns) i given))
                (sign-IsSigned p d i ns out.tlv r);
          accepted = λ s2 t.
              consume-issue b after (issuance q p d ns) i _ given refl refl refl (rw (sym x) t);
        },
      )
]
