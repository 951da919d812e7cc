-- ===== src/Exchange/Respond/Refused.antt =====
-- What RespondChallenge leaves alone when it refuses.
use tccelta.Common.{
  ℕ, ◌≡◌, refl, ap, ◌∙◌, not, List, Option-cases, Result-cases, Bool-cases, inl, inr, ok, err,
  arith,
}
use tccelta.Common.Bytes.{Bytes}
use tccelta.Handshake.{apply_tail}
use tccelta.Common.{◌||◌, subst}
use tccelta.Common.Maps.{number_key, pair_key, lookup}
use tccelta.Common.Text.{bytes_eq}
use tccelta.Memory.{
  mark_invalid_tag, is_pending, Fault, Database, Challenge, Consumption, consume, finalize,
  Finalization,
}
use tccelta.Memory.Action.{◌>>=◌}
use tccelta.Exchange.{Params}
use tccelta.Exchange.Respond.{
  Token, Ports, Entry, consumption, handshake_state, anchor, close_inconsistent, decide,
  transaction, respond,
}
use tccelta.Exchange.Respond.Ends.{transaction-Committed, respond_cases}

-- The tables other than the challenges.
pub record Untouched (b c : Database) : Type 0 where
  pub dongles : c.dongles ≡ b.dongles
  pub states : c.states ≡ b.states
  pub last_cs : c.last_cs ≡ b.last_cs
  pub t_ms_boot : c.t_ms_boot ≡ b.t_ms_boot
  pub seen : c.seen ≡ b.seen
  pub raw_blocks : c.raw_blocks ≡ b.raw_blocks
  pub rejected : c.rejected ≡ b.rejected
  pub readings : c.readings ≡ b.readings
  pub positions : c.positions ≡ b.positions
  pub gaps : c.gaps ≡ b.gaps
  pub alerts : c.alerts ≡ b.alerts
  pub anchors : c.anchors ≡ b.anchors
  pub notifications : c.notifications ≡ b.notifications

Untouched-put :
    (b : Database) (m : List ((ℕ × ℕ) × Challenge)) → Untouched b (record b { challenges = m })
Untouched-put b m = record {
  dongles = refl;
  states = refl;
  last_cs = refl;
  t_ms_boot = refl;
  seen = refl;
  raw_blocks = refl;
  rejected = refl;
  readings = refl;
  positions = refl;
  gaps = refl;
  alerts = refl;
  anchors = refl;
  notifications = refl;
}

Untouched-refl : (b : Database) → Untouched b b
Untouched-refl b = Untouched-put b b.challenges

Untouched-trans : {b c d : Database} → Untouched b c → Untouched c d → Untouched b d
Untouched-trans x y = record {
  dongles = y.dongles ∙ x.dongles;
  states = y.states ∙ x.states;
  last_cs = y.last_cs ∙ x.last_cs;
  t_ms_boot = y.t_ms_boot ∙ x.t_ms_boot;
  seen = y.seen ∙ x.seen;
  raw_blocks = y.raw_blocks ∙ x.raw_blocks;
  rejected = y.rejected ∙ x.rejected;
  readings = y.readings ∙ x.readings;
  positions = y.positions ∙ x.positions;
  gaps = y.gaps ∙ x.gaps;
  alerts = y.alerts ∙ x.alerts;
  anchors = y.anchors ∙ x.anchors;
  notifications = y.notifications ∙ x.notifications;
}

pub consume-Untouched : (b : Database) (c : Consumption) → Untouched b (consume b c).1
unfolding consume
consume-Untouched b c = elim (Option-cases (lookup b.challenges (c.dongle_id, c.cs))) [
  | inl e ↦ rw (e, consume) (Untouched-refl b)
  | inr (d, e) ↦
      elim (Bool-cases (not (bytes_eq d.stored.nonce c.nonce) || not (is_pending d.stored c.s2))) [
        | inl bad ↦ rw (e, bad, consume) (Untouched-refl b)
        | inr good ↦ rw (e, good, consume) (Untouched-put b _)
      ]
]

finalize-Untouched : (b : Database) (f : Finalization) → Untouched b (finalize b f)
unfolding finalize
finalize-Untouched b f = Untouched-put b _

mark_invalid_tag-Untouched :
    (b : Database) (id cs : ℕ) (nonce : Bytes) → Untouched b (mark_invalid_tag b id cs nonce)
unfolding mark_invalid_tag
mark_invalid_tag-Untouched b id cs nonce = elim (Option-cases (lookup b.challenges (id, cs))) [
  | inl e ↦ rw (e, mark_invalid_tag) (Untouched-refl b)
  | inr (d, e) ↦ elim (Bool-cases (bytes_eq d.stored.nonce nonce)) [
    | inl same ↦ rw (e, same, mark_invalid_tag) (Untouched-put b _)
    | inr differs ↦ rw (e, differs, mark_invalid_tag) (Untouched-refl b)
  ]
]

module _ (q : Params) (p : Ports) where
  refused_transaction :
      (x : Entry) (emit : Token) (b c : Database) (y : Fault)
      → transaction q p x emit b ≡ (ok (err y), c)
      → Untouched b c
  unfolding decide close_inconsistent
  refused_transaction x emit b c y h =
      let m = transaction-Committed q p x emit b c (err y) h in
      elim (Result-cases (apply_tail (handshake_state m.er) x.r.tail_seq x.r.head_seq)) [
        | inr (z, e) ↦
            let h1 = rw e at m.decided in
            let took = subst (λ t. Untouched b t.1) m.took (consume-Untouched b (consumption x)) in
            subst (Untouched b) (ap (λ t. t.1) h1)
              (Untouched-trans took (finalize-Untouched m.taken _))
        | inl ((ack, loss), e) ↦
            let h1 = rw e at m.decided in
            elim (Result-cases (anchor q p x emit m.s1 m.er ack loss m.taken).0) [
              | inr (z, f) ↦ ground arith
              | inl (res, f) ↦ (let h2 = rw (f, ◌>>=◌) at h1 in ground (arith, ap (λ t. t.0) h2))
            ]
      ]

  -- A response that is refused, for whatever reason, changes nothing but rows of challenges: the
  -- dongles, their states, the count of challenges, the times of the boots, the gaps, the alerts, the
  -- anchors and the notifications stay as they were.
  pub respond_refused :
      (b : Database) (dev : Bytes) (s2 : ℕ) (tlv : Bytes) (y : Fault)
      → (respond q p b dev s2 tlv).0 ≡ err y
      → Untouched b (respond q p b dev s2 tlv).1
  respond_refused b dev s2 tlv y h =
      respond_cases q p b dev s2 tlv (λ r c. r ≡ err y → Untouched b c) (λ z g. Untouched-refl b)
        (λ x e g. mark_invalid_tag-Untouched b x.d.id x.r.cs x.r.ns)
        (λ x emit r c e g k. refused_transaction x emit b c y (g ∙ (λ i. (ok (k i), c)))) h
