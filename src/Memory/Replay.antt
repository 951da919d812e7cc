-- ===== src/Memory/Replay.antt =====
-- What the challenges of a dongle promise: no replay, rising numbers, few pending ones.
use tccelta.Common.{
  Option-cases, ℕ, ◌+◌, ◌≤◌, ◌<◌, ◌≡◌, ◌⊎◌, inl, inr, refl, ap, subst, sym, ◌∙◌, Bool, true, false,
  not, ◌||◌, List, [], ◌∷◌, Result, ok, err, leb, arith, Bool-cases, Option-cases, none, some,
}
use tccelta.Common.Text.{bytes_eq, bytes_eq_iff, bytes_eq_refl}
use tccelta.Common.Maps.{number_key, pair_key, lookup, put, lookup-put}
use tccelta.Memory.{
  Fault, Challenge, Database, last_cs_of, Issuance, issue, Consumption, consume, answer, is_pending,
  fresh_challenge, pending, or_else, state_of, handshake, Issued,
}
use tccelta.Memory.Lifecycle.{
  Steps, IsNumbered, IsAnswered, Keeps, Steps-Keeps, issued-Keeps, consumed-Keeps,
}
use tccelta.Handshake

-- What a successful Consume found.
pub record Found (b : Database) (c : Consumption) (s1 : ℕ) (d : Challenge) : Type 0 where
  pub there : lookup b.challenges (c.dongle_id, c.cs) ≡ some d
  pub same_nonce : d.stored.nonce ≡ c.nonce
  pub unanswered : d.stored.answered_at ≡ none
  pub in_time : c.s2 < d.stored.expires_at
  pub start : s1 ≡ d.stored.s1

abbrev refusal : Result Fault ℕ
refusal = err (handshake Handshake.invalid_challenge)

abbrev is_refused : Database → Consumption → Challenge → Bool
is_refused b c d = not (bytes_eq d.stored.nonce c.nonce) || not (is_pending d.stored c.s2)

consume_missing :
    (b : Database) (c : Consumption)
    → lookup b.challenges (c.dongle_id, c.cs) ≡ none
    → consume b c ≡ (refusal, b)
unfolding consume
consume_missing b c t = rw (t, consume) refl

consume_refused :
    (b : Database) (c : Consumption) (d : Challenge)
    → lookup b.challenges (c.dongle_id, c.cs) ≡ some d
    → is_refused b c d ≡ true
    → consume b c ≡ (refusal, b)
unfolding consume
consume_refused b c d t h = rw (t, consume) (rw h refl)

consume_accepted :
    (b : Database) (c : Consumption) (d : Challenge)
    → lookup b.challenges (c.dongle_id, c.cs) ≡ some d
    → is_refused b c d ≡ false
    → consume b c ≡ (
      ok d.stored.s1,
      record b { challenges = put b.challenges (c.dongle_id, c.cs) (answer d c.s2) },
    )
unfolding consume put
consume_accepted b c d t h = rw (t, consume) (rw h refl)

refusal_no_ok {ℓ} : {A : Type ℓ} (s1 : ℕ) → ok s1 ≡ refusal → A
refusal_no_ok s1 h = ground arith

pass :
    (b : Database) (c : Consumption) (d : Challenge)
    → is_refused b c d ≡ false
    → (d.stored.nonce ≡ c.nonce) × (d.stored.answered_at ≡ none) × (c.s2 < d.stored.expires_at)
unfolding is_pending
pass b c d h = (ground (arith, bytes_eq_iff d.stored.nonce c.nonce), ground arith, ground arith)

accepted_challenge :
    (b after : Database) (c : Consumption) (s1 : ℕ) (d : Challenge)
    → lookup b.challenges (c.dongle_id, c.cs) ≡ some d
    → consume b c ≡ (ok s1, after)
    → Found b c s1 d × (after.challenges ≡ put b.challenges (c.dongle_id, c.cs) (answer d c.s2))
accepted_challenge b after c s1 d t h = elim (Bool-cases (is_refused b c d)) [
  | inl bad ↦ refusal_no_ok s1 (ap (λ x. x.0) (sym h ∙ consume_refused b c d t bad))
  | inr good ↦
      let is : (ok s1, after) ≡ (
        ok d.stored.s1,
        record b { challenges = put b.challenges (c.dongle_id, c.cs) (answer d c.s2) },
      ) =
        sym h ∙ consume_accepted b c d t good in
      let passed = pass b c d good in
      (
        record {
          there = t;
          same_nonce = passed.0;
          unanswered = passed.1;
          in_time = passed.2;
          start = ground (arith, ap (λ x. x.0) is);
        },
        ap (λ x. x.1.challenges) is,
      )
]

-- When Consume accepts, the challenge was stored for this dongle and number with the same nonce, was not answered
-- yet and had not expired, and its instant S1 is returned.
pub consume_sound :
    (b after : Database) (c : Consumption) (s1 : ℕ)
    → consume b c ≡ (ok s1, after)
    → (d : Challenge) × Found b c s1 d
consume_sound b after c s1 h = elim (Option-cases (lookup b.challenges (c.dongle_id, c.cs))) [
  | inl none_there ↦ refusal_no_ok s1 (ap (λ x. x.0) (sym h ∙ consume_missing b c none_there))
  | inr (d, there) ↦ (d, (accepted_challenge b after c s1 d there h).0)
]

-- A challenge that is answered is refused.
pub answered_refused :
    (b : Database) (c : Consumption) → IsAnswered b c.dongle_id c.cs → consume b c ≡ (refusal, b)
unfolding IsAnswered is_pending
answered_refused b c (d, there, a) = consume_refused b c d there (ground (arith, a))

pub consume-IsAnswered :
    (b after : Database) (c : Consumption) (s1 : ℕ)
    → consume b c ≡ (ok s1, after)
    → IsAnswered after c.dongle_id c.cs
unfolding IsAnswered answer
consume-IsAnswered b after c s1 h =
    let (d, f) = consume_sound b after c s1 h in
    let stored = (accepted_challenge b after c s1 d f.there h).1 in
    (answer d c.s2, cc (stored, lookup-put b.challenges (c.dongle_id, c.cs) (answer d c.s2)), refl)

-- In a database whose challenges all have numbers that were given out, a challenge that Consume has
-- accepted is never accepted again: after any later operations, whatever
-- the nonce and the instant, Consume refuses it and changes nothing.
pub consume_once :
    (b after later : Database) (c again : Consumption) (s1 : ℕ)
    → IsNumbered b
    → consume b c ≡ (ok s1, after)
    → Steps after later
    → again.dongle_id ≡ c.dongle_id
    → again.cs ≡ c.cs
    → consume later again ≡ (err (handshake Handshake.invalid_challenge), later)
consume_once b after later c again s1 n h s p q =
    let kept = subst (λ x. Keeps b x.1) h (consumed-Keeps b c n) in
    let a =
      (Steps-Keeps s kept.numbered).answered c.dongle_id c.cs (consume-IsAnswered b after c s1 h) in
    answered_refused later again (rw (p, q) a)

issue_refused :
    (b : Database) (e : Issuance)
    → leb e.max_pending (pending b.challenges e.dongle_id e.s1) ≡ true
    → issue b e ≡ (err (handshake Handshake.pending_challenges), b)
unfolding issue
issue_refused b e h = rw h refl

issue_accepted :
    (b : Database) (e : Issuance)
    → leb e.max_pending (pending b.challenges e.dongle_id e.s1) ≡ false
    → let cs = last_cs_of b e.dongle_id + 1 in
      let est = state_of b e.dongle_id in
      issue b e ≡ (
        ok (record { cs = cs; contiguous_seq = est.contiguous_seq; c_conf = est.c_conf }),
        record b {
          last_cs = put b.last_cs e.dongle_id cs;
          challenges = put b.challenges (e.dongle_id, cs) (fresh_challenge e);
        },
      )
unfolding issue
issue_accepted b e h = rw h refl

-- What a successful Issue has done.
pub record Numbered (b after : Database) (e : Issuance) (i : Issued) : Type 0 where
  pub next : i.cs ≡ last_cs_of b e.dongle_id + 1
  pub last : last_cs_of after e.dongle_id ≡ i.cs
  pub fresh : lookup after.challenges (e.dongle_id, i.cs) ≡ some (fresh_challenge e)
  pub confirmed : i.contiguous_seq ≡ (state_of b e.dongle_id).contiguous_seq
  pub answered : i.c_conf ≡ (state_of b e.dongle_id).c_conf

pub issue-Numbered :
    (b after : Database) (e : Issuance) (i : Issued)
    → issue b e ≡ (ok i, after)
    → Numbered b after e i
unfolding last_cs_of
issue-Numbered b after e i h =
    elim (Bool-cases (leb e.max_pending (pending b.challenges e.dongle_id e.s1))) [
      | inl full ↦ ground (arith, ap (λ x. x.0) (sym h ∙ issue_refused b e full))
      | inr room ↦
          let is = sym h ∙ issue_accepted b e room in
          let number : i.cs ≡ or_else (lookup b.last_cs e.dongle_id) 0 + 1 =
            ground (arith, ap (λ x. x.0) is) in
          let counted = ap (λ x. x.1.last_cs) is in
          let stored = ap (λ x. x.1.challenges) is in
          record {
            next = number;
            last = rw counted (rw number (rw (lookup-put b.last_cs e.dongle_id _) refl));
            confirmed = ground (arith, ap (λ x. x.0) is);
            answered = ground (arith, ap (λ x. x.0) is);
            fresh = rw stored (rw number (lookup-put b.challenges _ (fresh_challenge e)));
          }
    ]

-- In a database whose challenges all have numbers that were given out, the numbers of the challenges
-- of a dongle rise: of two that Issue gives out, with any operations between, the
-- later is greater.
pub issue_rises :
    (b after later last : Database) (e f : Issuance) (i j : Issued)
    → IsNumbered b
    → issue b e ≡ (ok i, after)
    → Steps after later
    → issue later f ≡ (ok j, last)
    → f.dongle_id ≡ e.dongle_id
    → i.cs < j.cs
issue_rises b after later last e f i j n h s g p =
    let kept = subst (λ x. Keeps b x.1) h (issued-Keeps b e n) in
    let rises = (Steps-Keeps s kept.numbered).rises e.dongle_id in
    let first = issue-Numbered b after e i h in
    let second = issue-Numbered later last f j g in
    omega (arith, rises, first.last, subst (λ d. j.cs ≡ last_cs_of later d + 1) p second.next)

pending-put :
    (m : List ((ℕ × ℕ) × Challenge)) (k : ℕ × ℕ) (d : Challenge) (id now : ℕ)
    → pending (put m k d) id now ≤ pending m id now + 1
unfolding pending put
pending-put [] k d id now = ground arith
pending-put ((j, x) ∷ m) k d id now = ground (arith, pending-put m k d id now)

-- Issue refuses with pending challenges exactly if the dongle has the maximum of them already, and
-- then changes nothing; else there are at most the maximum behind it.
pub issue_bounded :
    (b : Database) (e : Issuance)
    → ((e.max_pending ≤ pending b.challenges e.dongle_id e.s1)
        × (issue b e ≡ (err (handshake Handshake.pending_challenges), b)))
      ⊎ ((i : Issued) × ((issue b e).0 ≡ ok i)
          × (pending (issue b e).1.challenges e.dongle_id e.s1 ≤ e.max_pending))
issue_bounded b e = elim (Bool-cases (leb e.max_pending (pending b.challenges e.dongle_id e.s1))) [
  | inl full ↦ inl (ground arith, issue_refused b e full)
  | inr room ↦
      let is = issue_accepted b e room in
      let grown =
        pending-put b.challenges (e.dongle_id, last_cs_of b e.dongle_id + 1) (fresh_challenge e)
          e.dongle_id e.s1 in
      inr (_, ap (λ x. x.0) is, rw is (ground (arith, grown)))
]

open_challenge :
    (e : Issuance) (c : Consumption)
    → c.nonce ≡ e.nonce
    → c.s2 < e.expires_at
    → (not (bytes_eq (fresh_challenge e).stored.nonce c.nonce)
        || not (is_pending (fresh_challenge e).stored c.s2))
      ≡ false
unfolding fresh_challenge is_pending
open_challenge e c r t = rw r (ground (arith, bytes_eq_refl e.nonce))

-- A challenge just issued is accepted with its nonce until it expires, and gives its own S1.
pub consume-issue :
    (b after : Database) (e : Issuance) (i : Issued) (c : Consumption)
    → issue b e ≡ (ok i, after)
    → c.dongle_id ≡ e.dongle_id
    → c.cs ≡ i.cs
    → c.nonce ≡ e.nonce
    → c.s2 < e.expires_at
    → (consume after c).0 ≡ ok e.s1
unfolding fresh_challenge
consume-issue b after e i c h p q r t =
    let issued = issue-Numbered b after e i h in
    let there : lookup after.challenges (c.dongle_id, c.cs) ≡ some (fresh_challenge e) =
      rw (p, q) issued.fresh in
    ap (λ x. x.0) (consume_accepted after c (fresh_challenge e) there (open_challenge e c r t))
