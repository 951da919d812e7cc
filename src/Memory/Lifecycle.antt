-- ===== src/Memory/Lifecycle.antt =====
-- The life of the challenges of a database under any sequence of operations.
use tccelta.Common.{
  Option-cases, ℕ, ◌+◌, ◌≤◌, ◌≡◌, ◌≢◌, inl, inr, refl, subst, sym, false, not, ◌||◌, List, leb,
  arith, Bool-cases, some, ◌∙◌,
}
use tccelta.Common.Bytes.{Bytes}
use tccelta.Common.Text.{bytes_eq}
use tccelta.Common.Maps.{
  same_key, same_key_refl, same_key→eq, number_key, pair_key, lookup, put, lookup-put,
  lookup-put_other, lookup-put_cases,
}
use tccelta.Memory.Expiry.{
  expire, close, lookup-expire_loop, lookup-expire_loop_back, close-is_unanswered,
}
use tccelta.Memory.{
  Finalization, Challenge, Database, last_cs_of, Issuance, issue, Consumption, consume, answer,
  is_pending, is_unanswered, finalize, mark_invalid_tag, Update, update_handshake, fresh_challenge,
  pending, or_else,
}

-- A step: an operation on the challenges or on the states, or any write that leaves the challenges and their
-- numbers. The use case finalizes a challenge that it has consumed.
pub data Step : Database → Database → Type 0 where
  issued : (b : Database) (e : Issuance) → Step b (issue b e).1
  consumed : (b : Database) (c : Consumption) → Step b (consume b c).1
  finalized :
      (b : Database) (f : Finalization) (d : Challenge)
      → lookup b.challenges (f.dongle_id, f.cs) ≡ some d
      → Step b (finalize b f)
  marked : (b : Database) (id cs : ℕ) (nonce : Bytes) → Step b (mark_invalid_tag b id cs nonce)
  updated : (b : Database) (a : Update) → Step b (update_handshake b a)
  expired : (b : Database) (now : ℕ) → Step b (expire b now).1
  -- A write to other tables than those of the challenges.
  elsewhere : (b c : Database) → c.challenges ≡ b.challenges → c.last_cs ≡ b.last_cs → Step b c

pub data Steps (b : Database) : Database → Type 0 where
  stay : Steps b b
  more : {c d : Database} → Steps b c → Step c d → Steps b d

-- Every challenge has a number that was given out.
unfoldable pub IsNumbered : Database → Type 0
IsNumbered b =
    (id cs : ℕ) (d : Challenge) → lookup b.challenges (id, cs) ≡ some d → cs ≤ last_cs_of b id

unfoldable pub IsAnswered : Database → ℕ → ℕ → Type 0
IsAnswered b id cs =
    (d : Challenge) × (lookup b.challenges (id, cs) ≡ some d)
    × (is_unanswered d.stored.answered_at ≡ false)

-- What a step keeps.
pub record Keeps (b c : Database) : Type 0 where
  pub rises : (id : ℕ) → last_cs_of b id ≤ last_cs_of c id
  pub numbered : IsNumbered c
  pub answered : (id cs : ℕ) → IsAnswered b id cs → IsAnswered c id cs

-- A challenge is put under its key: a new one, or one whose answer, if it has one, stays.
put-Keeps :
    (b c : Database) (k : ℕ × ℕ) (d : Challenge)
    → IsNumbered b
    → c.challenges ≡ put b.challenges k d
    → ((id : ℕ) → last_cs_of b id ≤ last_cs_of c id)
    → k.1 ≤ last_cs_of c k.0
    → (IsAnswered b k.0 k.1 → is_unanswered d.stored.answered_at ≡ false)
    → Keeps b c
unfolding IsNumbered IsAnswered
put-Keeps b c k d n p r below stays = record {
  rises = r;
  numbered = λ id cs x h. elim (lookup-put_cases b.challenges k (id, cs) d x (cc (h, p))) [
    | inl same ↦ subst (λ j. j.1 ≤ last_cs_of c j.0) same.0 below
    | inr other ↦ omega (arith, n id cs x other.1, r id)
  ];
  answered = λ id cs (x, h, a). elim (Bool-cases (same_key k (id, cs))) [
    | inl s ↦
        let q : k ≡ (id, cs) = same_key→eq k (id, cs) s in
        (
          d,
          cc (p, q, lookup-put b.challenges k d),
          stays (subst (λ j. IsAnswered b j.0 j.1) (sym q) (x, h, a)),
        )
    | inr s ↦
        let other : k ≢ (id, cs) = λ q. cc (s, q, same_key_refl k) in
        (x, cc (p, h, lookup-put_other b.challenges d other), a)
  ];
}

same-Keeps :
    (b c : Database)
    → IsNumbered b
    → c.challenges ≡ b.challenges
    → c.last_cs ≡ b.last_cs
    → Keeps b c
unfolding IsNumbered IsAnswered last_cs_of
same-Keeps b c n p q = record {
  rises = λ id. rw q (omega arith);
  numbered = λ id cs x h. rw q (n id cs x (cc (h, p)));
  answered = λ id cs (x, h, a). (x, cc (h, p), a);
}

last_cs-put :
    (m : List (ℕ × ℕ)) (k n id : ℕ)
    → or_else (lookup m k) 0 ≤ n
    → or_else (lookup m id) 0 ≤ or_else (lookup (put m k n) id) 0
last_cs-put m k n id h = elim (Bool-cases (same_key k id)) [
  | inl s ↦
      let q : k ≡ id = same_key→eq k id s in
      subst (λ j. or_else (lookup m j) 0 ≤ or_else (lookup (put m k n) j) 0) q
        (rw (lookup-put m k n) h)
  | inr s ↦
      let other : k ≢ id = λ q. cc (s, q, same_key_refl k) in
      rw (lookup-put_other m n other) (omega arith)
]

-- A new challenge has a number that no other has.
issued_new :
    (b : Database) (e : Issuance) (n : IsNumbered b)
    → let cs = last_cs_of b e.dongle_id + 1 in
      Keeps b (record b {
        last_cs = put b.last_cs e.dongle_id cs;
        challenges = put b.challenges (e.dongle_id, cs) (fresh_challenge e);
      })
unfolding last_cs_of IsNumbered IsAnswered
issued_new b e n =
    let cs = or_else (lookup b.last_cs e.dongle_id) 0 + 1 in
    put-Keeps b _ (e.dongle_id, cs) (fresh_challenge e) n refl
      (λ id. last_cs-put b.last_cs e.dongle_id cs id (omega arith))
      (rw (lookup-put b.last_cs e.dongle_id cs) (omega arith))
      (λ (x, h, a). ground (arith, n e.dongle_id cs x h))

pub issued-Keeps : (b : Database) (e : Issuance) → IsNumbered b → Keeps b (issue b e).1
unfolding issue
issued-Keeps b e n = elim (Bool-cases (leb e.max_pending (pending b.challenges e.dongle_id e.s1))) [
  | inl h ↦ rw h (same-Keeps b b n refl refl)
  | inr h ↦ rw h (issued_new b e n)
]

pub consumed-Keeps : (b : Database) (c : Consumption) → IsNumbered b → Keeps b (consume b c).1
unfolding consume IsNumbered last_cs_of answer
consumed-Keeps b c n = elim (Option-cases (lookup b.challenges (c.dongle_id, c.cs))) [
  | inl none_there ↦ rw (none_there, consume) (same-Keeps b b n refl refl)
  | inr (d, there) ↦
      elim (Bool-cases (not (bytes_eq d.stored.nonce c.nonce) || not (is_pending d.stored c.s2))) [
        | inl bad ↦ rw (there, bad, consume) (same-Keeps b b n refl refl)
        | inr good ↦
            rw (there, good, consume)
              (put-Keeps b _ (c.dongle_id, c.cs) (answer d c.s2) n refl (λ id. omega arith)
                (n c.dongle_id c.cs d there) (λ _. refl))
      ]
]

finalized-Keeps :
    (b : Database) (f : Finalization) (d : Challenge)
    → IsNumbered b
    → lookup b.challenges (f.dongle_id, f.cs) ≡ some d
    → Keeps b (finalize b f)
unfolding finalize IsNumbered last_cs_of IsAnswered
finalized-Keeps b f d n there = rw there (
    put-Keeps b _ (f.dongle_id, f.cs) _ n refl (λ id. omega arith) (n f.dongle_id f.cs d there)
      (λ (x, h, a). ground (arith, there, h, a)))

marked-Keeps :
    (b : Database) (id cs : ℕ) (nonce : Bytes)
    → IsNumbered b
    → Keeps b (mark_invalid_tag b id cs nonce)
unfolding mark_invalid_tag IsNumbered last_cs_of IsAnswered
marked-Keeps b id cs nonce n = elim (Option-cases (lookup b.challenges (id, cs))) [
  | inl none_there ↦ rw (none_there, mark_invalid_tag) (same-Keeps b b n refl refl)
  | inr (d, there) ↦ elim (Bool-cases (bytes_eq d.stored.nonce nonce)) [
    | inr differs ↦ rw (there, differs, mark_invalid_tag) (same-Keeps b b n refl refl)
    | inl same ↦
        rw (there, same, mark_invalid_tag)
          (put-Keeps b _ (id, cs) _ n refl (λ j. omega arith) (n id cs d there)
            (λ (x, h, a). ground (arith, there, h, a)))
  ]
]

updated-Keeps : (b : Database) (a : Update) → IsNumbered b → Keeps b (update_handshake b a)
unfolding update_handshake
updated-Keeps b a n = same-Keeps b _ n refl refl

expired-Keeps : (b : Database) (now : ℕ) → IsNumbered b → Keeps b (expire b now).1
unfolding expire IsNumbered IsAnswered last_cs_of
expired-Keeps b now n = record {
  rises = λ id. omega arith;
  numbered = λ id cs x h.
      let (d, there, _) = lookup-expire_loop_back now b.challenges (id, cs) x h in n id cs d there;
  answered = λ id cs (d, there, a). (
    close now d,
    lookup-expire_loop now b.challenges (id, cs) d there,
    close-is_unanswered now d ∙ a,
  );
}

Step-Keeps : {b c : Database} → Step b c → IsNumbered b → Keeps b c
Step-Keeps (issued b e) n = issued-Keeps b e n
Step-Keeps (consumed b c) n = consumed-Keeps b c n
Step-Keeps (finalized b f d there) n = finalized-Keeps b f d n there
Step-Keeps (marked b id cs nonce) n = marked-Keeps b id cs nonce n
Step-Keeps (updated b a) n = updated-Keeps b a n
Step-Keeps (expired b now) n = expired-Keeps b now n
Step-Keeps (elsewhere b c p q) n = same-Keeps b c n p q

pub Steps-Keeps : {b c : Database} → Steps b c → IsNumbered b → Keeps b c
Steps-Keeps {b} stay n = same-Keeps b b n refl refl
Steps-Keeps {b} (more s t) n =
    let before = Steps-Keeps s n in
    let last = Step-Keeps t before.numbered in
    record {
      rises = λ id. omega (arith, before.rises id, last.rises id);
      numbered = last.numbered;
      answered = λ id cs a. last.answered id cs (before.answered id cs a);
    }

pub one : {b c : Database} → Step b c → Steps b c
one s = more stay s

pub Steps-trans : {b c d : Database} → Steps b c → Steps c d → Steps b d
Steps-trans s stay = s
Steps-trans s (more t u) = more (Steps-trans s t) u
