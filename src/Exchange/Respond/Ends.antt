-- ===== src/Exchange/Respond/Ends.antt =====
-- How a run of RespondChallenge ends, from its calls.
use tccelta.Common.{
  subst, ℕ, ◌<◌, ◌≡◌, sym, ap, ◌∙◌, not, Option, Result, Result-cases, Bool-cases, inl, inr, ok,
  err, leb, arith,
}
use tccelta.Common.Bytes.{Bytes}
use tccelta.Registry
use tccelta.Registry.{Dongle}
use tccelta.Protocol.{response_type}
use tccelta.Protocol.Identity.{tag_input, compare_tag}
use tccelta.Handshake
use tccelta.Handshake.{Range, apply_tail, evaluate_anchor, handshake_generation}
use tccelta.Memory.{
  Fault, handshake, Database, consume, mark_invalid_tag, read_state, in_transaction, restore-clone,
}
use tccelta.Memory.Action.{◌>>=◌}
use tccelta.Exchange.{Params, tag16}
use tccelta.Exchange.Respond.{
  Token, Ports, HandshakeResult, Entry, consumption, handshake_state, anchor, close_inconsistent,
  decide, transaction, exchange, authenticate, respond, read_entry, check_entry,
}
use tccelta.Exchange.Respond.Parts.{Quiet, Concluded, anchor-Quiet}

module _ (q : Params) (p : Ports) (x : Entry) (emit : Token) where
  -- A transaction that was committed.
  pub record Committed (b c : Database) (r : Result Fault HandshakeResult) : Type 0 where
    pub s1 : ℕ
    pub er : Registry.State
    pub taken : Database
    pub took : consume b (consumption x) ≡ (ok s1, taken)
    pub read : read_state taken x.d.id ≡ ok er
    pub fresh : er.c_conf < x.r.cs
    pub decided :
        decide q p x emit s1 er (apply_tail (handshake_state er) x.r.tail_seq x.r.head_seq) taken
        ≡ (ok r, c)

  pub transaction-Committed :
      (b c : Database) (r : Result Fault HandshakeResult)
      → transaction q p x emit b ≡ (ok r, c)
      → Committed b c r
  unfolding transaction
  transaction-Committed b c r h = elim (Result-cases (consume b (consumption x)).0) [
    | inr (y, e) ↦ ground arith
    | inl (s1, e) ↦
        let taken = (consume b (consumption x)).1 in
        let h1 = rw (e, transaction, ◌>>=◌) at h in
        elim (Result-cases (read_state taken x.d.id)) [
          | inr (y, f) ↦ ground arith
          | inl (er, f) ↦
              let h2 = rw (f, ◌>>=◌) at h1 in
              elim (Bool-cases (leb x.r.cs er.c_conf)) [
                | inl stale ↦ ground arith
                | inr fresh ↦ record {
                  s1 = s1;
                  er = er;
                  taken = taken;
                  took = λ i. (e i, taken);
                  read = f;
                  fresh = ground arith;
                  decided = rw (fresh, ◌>>=◌) at h2;
                }
              ]
        ]
  ]

  -- A transaction that accepts.
  pub record Accepting (b c : Database) (out : HandshakeResult) : Type 0 where
    pub s1 : ℕ
    pub er : Registry.State
    pub taken : Database
    pub mid : Database
    pub ack : ℕ
    pub loss : Option Range
    pub took : consume b (consumption x) ≡ (ok s1, taken)
    pub read : read_state taken x.d.id ≡ ok er
    pub fresh : er.c_conf < x.r.cs
    pub tail : apply_tail (handshake_state er) x.r.tail_seq x.r.head_seq ≡ ok (ack, loss)
    pub quiet : Quiet taken mid
    pub concluded : Concluded q p x emit mid c ack out

  pub transaction-Accepting :
      (b c : Database) (out : HandshakeResult)
      → transaction q p x emit b ≡ (ok (ok out), c)
      → Accepting b c out
  unfolding decide close_inconsistent
  transaction-Accepting b c out h =
      let m = transaction-Committed b c (ok out) h in
      elim (Result-cases (apply_tail (handshake_state m.er) x.r.tail_seq x.r.head_seq)) [
        | inr (y, e) ↦ ground arith
        | inl ((ack, loss), e) ↦
            let h1 = rw e at m.decided in
            elim (Result-cases (anchor q p x emit m.s1 m.er ack loss m.taken).0) [
              | inr (y, f) ↦ ground arith
              | inl (res, f) ↦
                  let h2 = rw (f, ◌>>=◌) at h1 in
                  let is : res ≡ out = ground (arith, ap (λ z. z.0) h2) in
                  let ended : anchor q p x emit m.s1 m.er ack loss m.taken ≡ (ok out, c) =
                    λ i. ((f ∙ ap ok is) i, ap (λ z. z.1) h2 i) in
                  let (mid, quiet, done) =
                    anchor-Quiet q p x emit m.taken c m.s1 m.er ack loss out ended in
                  record {
                    s1 = m.s1;
                    er = m.er;
                    taken = m.taken;
                    mid = mid;
                    ack = ack;
                    loss = loss;
                    took = m.took;
                    read = m.read;
                    fresh = m.fresh;
                    tail = e;
                    quiet = quiet;
                    concluded = done;
                  }
            ]
      ]

-- A run refuses and changes nothing, or marks a forged tag, or has committed a transaction.
module _ (q : Params) (p : Ports) (b : Database) (dev : Bytes) (s2 : ℕ) (tlv : Bytes)
    (P : Result Fault HandshakeResult → Database → Type 0) (refused : (y : Fault) → P (err y) b)
    (forged : (x : Entry)
      → read_entry q b dev s2 tlv ≡ ok x
      → P (err (handshake Handshake.invalid_tag)) (mark_invalid_tag b x.d.id x.r.cs x.r.ns))
    (committed : (x : Entry) (emit : Token) (r : Result Fault HandshakeResult) (c : Database)
      → read_entry q b dev s2 tlv ≡ ok x
      → transaction q p x emit b ≡ (ok r, c)
      → P r c) where
  exchange_cases :
      (x : Entry) → read_entry q b dev s2 tlv ≡ ok x → P (exchange q p b x).0 (exchange q p b x).1
  unfolding exchange in_transaction
  exchange_cases x e = elim (Result-cases (p.token x.d.dev_id x.r.cs)) [
    | inr (z, f) ↦ rw (f, exchange) (refused z)
    | inl (emit, f) ↦ elim (Result-cases (transaction q p x emit b).0) [
      | inr (z, g) ↦
          rw (f, exchange)
            (rw (g, in_transaction)
              (subst (P (err z)) (sym (restore-clone b (transaction q p x emit b).1)) (refused z)))
      | inl (r, g) ↦
          rw (f, exchange)
            (rw (g, in_transaction)
              (committed x emit r _ e (λ i. (g i, (transaction q p x emit b).1))))
    ]
  ]

  authenticate_cases :
      (x : Entry)
      → read_entry q b dev s2 tlv ≡ ok x
      → P (authenticate q p b x).0 (authenticate q p b x).1
  unfolding authenticate
  authenticate_cases x e =
      elim (Result-cases (p.hmac_pre x.d.auth_key (tag_input response_type x.d.dev_id x.payload))) [
        | inr (z, f) ↦ rw (f, authenticate) (refused z)
        | inl (mac, f) ↦ elim (Bool-cases (not (compare_tag (tag16 mac) x.tag))) [
          | inl bad ↦ rw (f, authenticate) (rw bad (forged x e))
          | inr good ↦ rw (f, authenticate) (rw good (exchange_cases x e))
        ]
      ]

  pub respond_cases : P (respond q p b dev s2 tlv).0 (respond q p b dev s2 tlv).1
  unfolding respond
  respond_cases = elim (Result-cases (read_entry q b dev s2 tlv)) [
    | inr (z, e) ↦ rw (e, respond) (refused z)
    | inl (x, e) ↦ elim (Result-cases (check_entry b x)) [
      | inr (z, f) ↦ rw (e, respond) (rw f (refused z))
      | inl (_, f) ↦ rw (e, respond) (rw f (authenticate_cases x e))
    ]
  ]

-- A run that accepts has committed an accepting transaction.
pub respond-transaction :
    (q : Params) (p : Ports) (b after : Database) (dev : Bytes) (s2 : ℕ) (tlv : Bytes) (x : Entry)
    (out : HandshakeResult)
    → read_entry q b dev s2 tlv ≡ ok x
    → respond q p b dev s2 tlv ≡ (ok out, after)
    → (emit : Token) × (transaction q p x emit b ≡ (ok (ok out), after))
respond-transaction q p b after dev s2 tlv x out e h =
    respond_cases q p b dev s2 tlv
      (λ r c.
        r ≡ ok out → c ≡ after → (emit : Token) × (transaction q p x emit b ≡ (ok (ok out), after)))
      (λ y g. ground arith) (λ y f g. ground arith)
      (λ y emit r c f g k l.
        let same : y ≡ x = ground (arith, sym f ∙ e) in
        (
          emit,
          subst (λ z. transaction q p z emit b ≡ (ok (ok out), after)) same
              (g ∙ (λ i. (ok (k i), l i))),
        ))
      (ap (λ t. t.0) h) (ap (λ t. t.1) h)
