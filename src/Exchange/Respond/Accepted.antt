-- ===== src/Exchange/Respond/Accepted.antt =====
-- What an accepted response leaves behind.
use tccelta.Common.{
  max, ℕ, ◌≤◌, ◌<◌, ◌≡◌, refl, sym, ap, ◌∙◌, Option, Option-cases, inl, inr, ok, arith,
}
use tccelta.Common.Bytes.{Bytes}
use tccelta.Registry
use tccelta.Registry.{Dongle}
use tccelta.Handshake.{Range, apply_tail}
use tccelta.Common.{subst}
use tccelta.Common.Maps.{number_key, pair_key, lookup}
use tccelta.Memory.{Database, finalize, update_handshake, notify_pending, read_state, state_of}
use tccelta.Exchange.{Params}
use tccelta.Exchange.Respond.{
  Token, Ports, HandshakeResult, Entry, consumption, handshake_state, finalization, respond,
  read_entry,
}
use tccelta.Exchange.Respond.Parts.{Quiet, Concluded}
use tccelta.Exchange.Respond.Ends.{Accepting, transaction-Accepting, respond-transaction}
use tccelta.Exchange.Respond.Parts.{Quiet, Concluded}
use tccelta.Exchange.Respond.Refused.{consume-Untouched}
use tccelta.Memory.Lifecycle.{IsAnswered}
use tccelta.Memory.Replay.{consume-IsAnswered}
use tccelta.Common.Maps.{lookup-put}
use tccelta.Common.Bytes.{IsU32}
use tccelta.Handshake.Rules.{apply_tail_rule}

-- The stored row and what Read gives of it.
read_state_fields :
    (b : Database) (id : ℕ) (er : Registry.State)
    → read_state b id ≡ ok er
    → (er.c_conf ≡ (state_of b id).c_conf) × (er.contiguous_seq ≡ (state_of b id).contiguous_seq)
unfolding read_state state_of
read_state_fields b id er h = elim (Option-cases (lookup b.states id)) [
  | inl e ↦ ground arith
  | inr (r, e) ↦ ground arith
]

state_of-same : (b c : Database) (id : ℕ) → c.states ≡ b.states → state_of c id ≡ state_of b id
unfolding state_of
state_of-same b c id h = rw h refl

pub Quiet-IsAnswered :
    (b c : Database) (id cs : ℕ) → Quiet b c → IsAnswered b id cs → IsAnswered c id cs
unfolding IsAnswered
Quiet-IsAnswered b c id cs h (d, e, a) = (d, rw h.challenges e, a)

-- The new ACK does not lie below the confirmed seq.
tail_keeps :
    (er : Registry.State) (tail head ack : ℕ) (loss : Option Range)
    → IsU32 tail
    → IsU32 er.contiguous_seq
    → apply_tail (handshake_state er) tail head ≡ ok (ack, loss)
    → er.contiguous_seq ≤ ack
unfolding handshake_state
tail_keeps er tail head ack loss t u h =
    let rule = apply_tail_rule (handshake_state er) tail head ack loss t (omega arith) h in
    omega (arith, rule.keeps)

module _ (q : Params) (p : Ports) (x : Entry) (emit : Token) where
  Concluded-state :
      (b c : Database) (ack : ℕ) (out : HandshakeResult)
      → Concluded q p x emit b c ack out
      → state_of c x.d.id ≡ record (state_of b x.d.id) {
        contiguous_seq = ack;
        max_seen_seq = max (state_of b x.d.id).max_seen_seq ack;
        head_seq = x.r.head_seq;
        c_conf = x.r.cs;
        last_ack = out.ack_tlv;
      }
  unfolding state_of notify_pending finalize update_handshake
  Concluded-state b c ack out m = rw m.written (rw (lookup-put b.states x.d.id _) refl)

  Concluded-IsAnswered :
      (b c : Database) (ack : ℕ) (out : HandshakeResult)
      → Concluded q p x emit b c ack out
      → IsAnswered b x.d.id x.r.cs
      → IsAnswered c x.d.id x.r.cs
  unfolding IsAnswered notify_pending finalize update_handshake finalization
  Concluded-IsAnswered b c ack out m (d, e, a) =
      let key : ℕ × ℕ = (x.d.id, x.r.cs) in rw m.written (_, lookup-put b.challenges key _, rw e a)

  pub Accepting-IsAnswered :
      (b c : Database) (out : HandshakeResult)
      → Accepting q p x emit b c out
      → IsAnswered c x.d.id x.r.cs
  Accepting-IsAnswered b c out m =
      let taken = consume-IsAnswered b m.taken (consumption x) m.s1 m.took in
      Concluded-IsAnswered m.mid c m.ack out m.concluded
        (Quiet-IsAnswered m.taken m.mid x.d.id x.r.cs m.quiet taken)

-- The state of the dongle and the challenge behind a response that was accepted.
pub record Advanced (b after : Database) (x : Entry) (out : HandshakeResult) : Type 0 where
  pub rises : (state_of b x.d.id).c_conf < x.r.cs
  pub c_conf : (state_of after x.d.id).c_conf ≡ x.r.cs
  pub contiguous_seq : (state_of after x.d.id).contiguous_seq ≡ out.ack_seq
  pub head_seq : (state_of after x.d.id).head_seq ≡ x.r.head_seq
  pub last_ack : (state_of after x.d.id).last_ack ≡ out.ack_tlv
  pub never_back : (state_of b x.d.id).contiguous_seq ≤ out.ack_seq
  pub answered : IsAnswered after x.d.id x.r.cs

-- When a response is accepted, its number exceeds the one confirmed before and becomes the confirmed
-- one; the ACK that is returned is stored with its seq and the head of the dongle; the seq does not lie
-- below the one before (seqs and the tail being uint32); and the challenge is answered.
pub respond_accepted :
    (q : Params) (p : Ports) (b after : Database) (dev : Bytes) (s2 : ℕ) (tlv : Bytes) (x : Entry)
    (out : HandshakeResult)
    → read_entry q b dev s2 tlv ≡ ok x
    → IsU32 x.r.tail_seq
    → IsU32 (state_of b x.d.id).contiguous_seq
    → respond q p b dev s2 tlv ≡ (ok out, after)
    → Advanced b after x out
respond_accepted q p b after dev s2 tlv x out e t u h =
    let (emit, ended) = respond-transaction q p b after dev s2 tlv x out e h in
    let m = transaction-Accepting q p x emit b after out ended in
    let same =
      subst (λ t. t.1.states ≡ b.states) m.took (consume-Untouched b (consumption x)).states in
    let fields = read_state_fields m.taken x.d.id m.er m.read in
    let before = state_of-same b m.taken x.d.id same in
    let conf : m.er.c_conf ≡ (state_of b x.d.id).c_conf = fields.0 ∙ ap (λ s. s.c_conf) before in
    let seq : m.er.contiguous_seq ≡ (state_of b x.d.id).contiguous_seq =
      fields.1 ∙ ap (λ s. s.contiguous_seq) before in
    let row = Concluded-state q p x emit m.mid after m.ack out m.concluded in
    let back =
      tail_keeps m.er x.r.tail_seq x.r.head_seq m.ack m.loss t (omega (arith, seq)) m.tail in
    record {
      rises = omega (arith, conf, m.fresh);
      c_conf = ap (λ s. s.c_conf) row;
      contiguous_seq = ap (λ s. s.contiguous_seq) row ∙ sym m.concluded.confirms;
      head_seq = ap (λ s. s.head_seq) row;
      last_ack = ap (λ s. s.last_ack) row;
      never_back = omega (arith, back, seq, m.concluded.confirms);
      answered = Accepting-IsAnswered q p x emit b after out m;
    }
