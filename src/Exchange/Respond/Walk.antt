-- ===== src/Exchange/Respond/Walk.antt =====
-- RespondChallenge as a sequence of steps of the repositories, and what follows for replays.
use tccelta.Common.{
  ℕ, ◌≡◌, refl, ap, true, false, not, Result, Result-cases, inl, inr, ok, err, arith,
}
use tccelta.Common.Bytes.{Bytes}
use tccelta.Protocol.Identity.{compare_tag}
use tccelta.Handshake
use tccelta.Handshake.{Range, apply_tail, evaluate_anchor, handshake_generation}
use tccelta.Common.{◌||◌, subst}
use tccelta.Common.Maps.{number_key, pair_key}
use tccelta.Memory.{
  find_challenge, StoredChallenge, is_unanswered, is_pending, Fault, handshake, Database, finalize,
  Update, update_handshake, notify_pending,
}
use tccelta.Memory.Action.{◌>>=◌}
use tccelta.Exchange.{Params}
use tccelta.Exchange.Respond.{
  Token, Ports, HandshakeResult, Entry, rejection, consumption, handshake_state, finalization,
  anchor, close_inconsistent, decide, transaction, respond, read_entry, check_entry,
}
use tccelta.Exchange.Respond.Parts.{Concluded, anchor-Quiet}
use tccelta.Exchange.Respond.Ends.{transaction-Committed, respond_cases}
use tccelta.Exchange.Respond.Ends.{respond-transaction, transaction-Accepting}
use tccelta.Exchange.Respond.Parts.{Concluded, anchor-Quiet}
use tccelta.Exchange.Respond.Accepted.{Accepting-IsAnswered, Quiet-IsAnswered}
use tccelta.Memory.Lifecycle.{
  IsAnswered, IsNumbered, Steps, stay, more, one, Steps-trans, Steps-Keeps, consumed, finalized,
  marked, updated, elsewhere,
}
use tccelta.Memory.Replay.{consume-IsAnswered}

module _ (q : Params) (p : Ports) where
  Concluded-Steps :
      (x : Entry) (emit : Token) (b c : Database) (ack : ℕ) (out : HandshakeResult)
      → Concluded q p x emit b c ack out
      → IsAnswered b x.d.id x.r.cs
      → Steps b c
  unfolding IsAnswered update_handshake notify_pending finalize finalization
  Concluded-Steps x emit b c ack out m (d, e, a) =
      let row : Update = record {
        dongle_id = x.d.id;
        contiguous_seq = ack;
        head_seq = x.r.head_seq;
        c_conf = x.r.cs;
        last_ack = out.ack_tlv;
      } in
      let f = finalization x emit ack m.loss m.with_anchor m.t_ms m.gen in
      rw m.written (
        more (more (more stay (updated b row)) (finalized (update_handshake b row) f d e))
          (elsewhere _ _ refl refl))

  close-Steps :
      (x : Entry) (b : Database) → IsAnswered b x.d.id x.r.cs → Steps b (finalize b (rejection x))
  unfolding IsAnswered rejection
  close-Steps x b (d, e, a) = one (finalized b (rejection x) d e)

  transaction-Steps :
      (x : Entry) (emit : Token) (b c : Database) (r : Result Fault HandshakeResult)
      → transaction q p x emit b ≡ (ok r, c)
      → Steps b c
  unfolding decide close_inconsistent rejection
  transaction-Steps x emit b c r h =
      let m = transaction-Committed q p x emit b c r h in
      let took : Steps b m.taken =
        subst (λ t. Steps b t.1) m.took (one (consumed b (consumption x))) in
      let mark = consume-IsAnswered b m.taken (consumption x) m.s1 m.took in
      elim (Result-cases (apply_tail (handshake_state m.er) x.r.tail_seq x.r.head_seq)) [
        | inr (z, e) ↦
            let h1 = rw e at m.decided in
            subst (Steps b) (ap (λ t. t.1) h1) (Steps-trans took (close-Steps x m.taken mark))
        | inl ((ack, loss), e) ↦
            let h1 = rw e at m.decided in
            elim (Result-cases (anchor q p x emit m.s1 m.er ack loss m.taken).0) [
              | inr (z, f) ↦ ground arith
              | inl (res, f) ↦
                  let h2 = rw (f, ◌>>=◌) at h1 in
                  let ended : anchor q p x emit m.s1 m.er ack loss m.taken ≡ (ok res, c) =
                    λ i. (f i, ap (λ t. t.1) h2 i) in
                  let (mid, quiet, done) =
                    anchor-Quiet q p x emit m.taken c m.s1 m.er ack loss res ended in
                  Steps-trans took (
                    Steps-trans (one (elsewhere m.taken mid quiet.challenges quiet.last_cs)) (
                      Concluded-Steps x emit mid c ack res done
                        (Quiet-IsAnswered m.taken mid x.d.id x.r.cs quiet mark)))
            ]
      ]

  -- Every run of RespondChallenge, however it ends, is a sequence of steps of the repositories: it
  -- writes challenges only by Consume, by Finalize of a challenge that is there, and by MarkInvalidTag.
  pub respond-Steps :
      (b : Database) (dev : Bytes) (s2 : ℕ) (tlv : Bytes) → Steps b (respond q p b dev s2 tlv).1
  respond-Steps b dev s2 tlv =
      respond_cases q p b dev s2 tlv (λ r c. Steps b c) (λ y. stay)
        (λ x e. one (marked b x.d.id x.r.cs x.r.ns))
        (λ x emit r c e h. transaction-Steps x emit b c r h)

answered-is_pending :
    (d : StoredChallenge) (s2 : ℕ) → is_unanswered d.answered_at ≡ false → is_pending d s2 ≡ false
unfolding is_pending
answered-is_pending d s2 a = rw a refl

answered_entry :
    (b : Database) (y : Entry)
    → IsAnswered b y.d.id y.r.cs
    → check_entry b y ≡ err (handshake Handshake.invalid_challenge)
unfolding IsAnswered check_entry find_challenge
answered_entry b y (d, e, a) =
    let closed = answered-is_pending d.stored y.s2 a in
    let guard : (not (compare_tag d.stored.nonce y.r.ns) || not (is_pending d.stored y.s2)) ≡ true =
      ground (arith, closed) in
    rw (e, check_entry, find_challenge) (rw guard refl)

-- An accepted response is accepted once: in a database whose challenges all have numbers that were given
-- out, after any later steps of the repositories, a response of the same dongle with the same number is
-- refused as an invalid challenge and changes nothing, whatever else it says and whatever the ports answer.
pub respond_once :
    (q : Params) (p again : Ports) (b after later : Database) (dev dev' : Bytes) (s2 s2' : ℕ)
    (tlv tlv' : Bytes) (x y : Entry) (out : HandshakeResult)
    → IsNumbered b
    → read_entry q b dev s2 tlv ≡ ok x
    → respond q p b dev s2 tlv ≡ (ok out, after)
    → Steps after later
    → read_entry q later dev' s2' tlv' ≡ ok y
    → y.d.id ≡ x.d.id
    → y.r.cs ≡ x.r.cs
    → respond q again later dev' s2' tlv' ≡ (err (handshake Handshake.invalid_challenge), later)
unfolding respond
respond_once q p again b after later dev dev' s2 s2' tlv tlv' x y out n e h s e' i j =
    let (emit, ended) = respond-transaction q p b after dev s2 tlv x out e h in
    let kept = Steps-Keeps (subst (λ t. Steps b t.1) h (respond-Steps q p b dev s2 tlv)) n in
    let now =
      Accepting-IsAnswered q p x emit b after out
        (transaction-Accepting q p x emit b after out ended) in
    let still = (Steps-Keeps s kept.numbered).answered x.d.id x.r.cs now in
    rw (e', respond) (rw (answered_entry later y (rw (i, j) still)) refl)
