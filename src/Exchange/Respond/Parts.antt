-- ===== src/Exchange/Respond/Parts.antt =====
-- What a transaction of RespondChallenge that ended well has done, part by part.
use tccelta.Common.{
  if◌then◌else◌, ℕ, ◌≡◌, refl, sym, ap, ◌∙◌, Bool, true, false, [], ◌∷◌, Option, none, some,
  Result-cases, inl, inr, ok, arith,
}
use tccelta.Common.Bytes.{Bytes}
use tccelta.Common.Int.{ℤ, pos}
use tccelta.Registry
use tccelta.Registry.{Dongle}
use tccelta.Protocol.{ack_type}
use tccelta.Protocol.Identity.{tag_input}
use tccelta.Protocol.Messages.Ack
use tccelta.Handshake.{Range, evaluate_anchor, handshake_generation}
use tccelta.Memory.{
  Database, finalize, update_handshake, insert_gap, insert_alert, insert_anchor, last_t_ms,
  notify_pending, of_boot,
}
use tccelta.Exchange.{Params, tag16}
use tccelta.Exchange.Respond.{
  Token, Ports, HandshakeResult, Entry, handshake_state, record_loss, record_regression,
  record_anchor, unwrapped, ack_message, finalization, conclude, anchor,
}

-- Nothing that the handshake reads of a challenge or a state has changed.
pub record Quiet (b c : Database) : Type 0 where
  pub dongles : c.dongles ≡ b.dongles
  pub states : c.states ≡ b.states
  pub last_cs : c.last_cs ≡ b.last_cs
  pub challenges : c.challenges ≡ b.challenges

Quiet-refl : (b : Database) → Quiet b b
Quiet-refl b = record { dongles = refl; states = refl; last_cs = refl; challenges = refl }

Quiet-trans : {b c d : Database} → Quiet b c → Quiet c d → Quiet b d
Quiet-trans x y = record {
  dongles = y.dongles ∙ x.dongles;
  states = y.states ∙ x.states;
  last_cs = y.last_cs ∙ x.last_cs;
  challenges = y.challenges ∙ x.challenges;
}

if-Quiet : (test : Bool) (b c : Database) → Quiet b c → Quiet b (if test then c else b)
if-Quiet true b c h = h
if-Quiet false b c h = Quiet-refl b

module _ (q : Params) (p : Ports) (x : Entry) (emit : Token) where
  -- The end of a transaction that accepts, from the database `b`.
  pub record Concluded (b c : Database) (ack : ℕ) (out : HandshakeResult) : Type 0 where
    pub loss : Option Range
    pub with_anchor : Bool
    pub t_ms : ℤ
    pub gen : ℕ
    pub mac : Bytes
    pub signed :
        p.hmac_tx x.d.auth_key
          (tag_input ack_type x.d.dev_id (Ack.payload (ack_message x ack with_anchor)))
        ≡ ok mac
    pub written :
        c
        ≡ notify_pending
            (finalize
              (update_handshake b (record {
                dongle_id = x.d.id;
                contiguous_seq = ack;
                head_seq = x.r.head_seq;
                c_conf = x.r.cs;
                last_ack = out.ack_tlv;
              }))
              (finalization x emit ack loss with_anchor t_ms gen))
            (of_boot x.d.id gen x.r.boot_id)
    pub sent : out.ack_tlv ≡ Ack.build (ack_message x ack with_anchor) (tag16 mac)
    pub confirms : out.ack_seq ≡ ack

  conclude-Concluded :
      (b c : Database) (ack : ℕ) (loss : Option Range) (with_anchor : Bool) (t_ms : ℤ) (gen : ℕ)
      (out : HandshakeResult)
      → conclude q p x emit ack loss with_anchor t_ms gen b ≡ (ok out, c)
      → Concluded b c ack out
  unfolding conclude
  conclude-Concluded b c ack loss with_anchor t_ms gen out h =
      let am = ack_message x ack with_anchor in
      elim (Result-cases
        (p.hmac_tx x.d.auth_key (tag_input ack_type x.d.dev_id (Ack.payload am)))) [
          | inl (mac, e) ↦
              let is = rw (e, conclude) at h in
              let sent : out.ack_tlv ≡ Ack.build am (tag16 mac) =
                ground (arith, ap (λ z. z.0) is) in
              record {
                loss = loss;
                with_anchor = with_anchor;
                t_ms = t_ms;
                gen = gen;
                mac = mac;
                signed = e;
                written = rw sent (sym (ap (λ z. z.1) is));
                sent = sent;
                confirms = ground (arith, ap (λ z. z.0) is);
              }
          | inr (y, e) ↦ ground arith
        ]

  record_loss-Quiet : (loss : Option Range) (b : Database) → Quiet b (record_loss x loss b)
  unfolding record_loss insert_gap
  record_loss-Quiet none b = Quiet-refl b
  record_loss-Quiet (some l) b = record {
    dongles = refl;
    states = refl;
    last_cs = refl;
    challenges = refl;
  }

  record_regression-Quiet : (gen : ℕ) (b : Database) → Quiet b (record_regression x gen b)
  unfolding record_regression insert_alert
  record_regression-Quiet gen b = record {
    dongles = refl;
    states = refl;
    last_cs = refl;
    challenges = refl;
  }

  record_anchor-Quiet :
      (s1 gen : ℕ) (t_ms : ℤ) (b : Database) → Quiet b (record_anchor x s1 gen t_ms b)
  unfolding record_anchor insert_anchor
  record_anchor-Quiet s1 gen t_ms b = record {
    dongles = refl;
    states = refl;
    last_cs = refl;
    challenges = refl;
  }

  pub anchor-Quiet :
      (b c : Database) (s1 : ℕ) (er : Registry.State) (ack : ℕ) (loss : Option Range)
      (out : HandshakeResult)
      → anchor q p x emit s1 er ack loss b ≡ (ok out, c)
      → (mid : Database) × Quiet b mid × Concluded mid c ack out
  unfolding anchor
  anchor-Quiet b c s1 er ack loss out h =
      let rule = evaluate_anchor (pos s1) (pos x.s2) (pos q.anchor_rtt_max) in
      let gen = handshake_generation (handshake_state er) x.r.boot_id in
      let b1 = record_loss x loss b in
      let b2 : Database = if rule.1 then record_regression x gen b1 else b1 in
      let t_ms = unwrapped x gen (last_t_ms b2 x.d.id (x.r.boot_id ∷ []) gen gen) in
      let q1 = record_loss-Quiet loss b in
      let q2 = if-Quiet rule.1 b1 _ (record_regression-Quiet gen b1) in
      let b3 : Database = if rule.0 then record_anchor x s1 gen t_ms b2 else b2 in
      let q3 = if-Quiet rule.0 b2 _ (record_anchor-Quiet s1 gen t_ms b2) in
      (
        b3,
        Quiet-trans q1 (Quiet-trans q2 q3),
        conclude-Concluded b3 c ack loss rule.0 t_ms gen out h,
      )
