-- ===== src/Ingestion/Apply/Coverage.antt =====
-- The loop of Apply as a whole: every seq up to the new ACK is accounted for, and none beyond.
use tccelta.Common.{
  ℕ, ◌+◌, ◌^◌, ◌≤◌, ◌<◌, ◌≡◌, ◌⊎◌, inl, inr, refl, ◌&&◌, List, [], ◌∷◌, Option, ltb, leb, arith,
  All,
}
use tccelta.Ingestion.{BlockIn, StateIn, ApplyResult}
use tccelta.Ingestion.Apply.{Round, go, stop, round, apply_loop, initial, apply, inc32, dec32}
use tccelta.Ingestion.Apply.Steps.{covers, has_seq, in_gap, Rises, Advances, Keeps}
use tccelta.Ingestion.Apply.Rounds.{NoWrap, Advances-refl, round-Goes, round-Alike, Alike}

pub Round-cases :
    (q : Round) → ((e : ℕ) × (r : ApplyResult) × (q ≡ go e r)) ⊎ ((r : ApplyResult) × (q ≡ stop r))
Round-cases (go e r) = inl (e, r, refl)
Round-cases (stop r) = inr (r, refl)

Advances-trans :
    (a b c : ℕ) (r s t : ApplyResult) → Advances a b r s → Advances b c s t → Advances a c r t
Advances-trans a b c r s t p q = record {
  forward = omega (arith, p.forward, q.forward);
  fits = λ h. q.fits (p.fits h);
  fills = λ k. ground (arith, p.forward, q.forward, p.fills k, q.fills k);
  rises = λ lo rise. q.rises lo (p.rises lo rise);
}

module _ {D : Type 0} (cat : ℕ → Option D) where
  module _ (exp : ℕ) (x : BlockIn) (xs : List BlockIn) (r : ApplyResult) where
    pub loop_go :
        (e : ℕ) (r' : ApplyResult)
        → round cat exp x r ≡ go e r'
        → apply_loop cat exp (x ∷ xs) r ≡ apply_loop cat e xs r'
    unfolding apply_loop
    loop_go e r' h = rw (h, apply_loop)

    pub loop_stop :
        (r' : ApplyResult) → round cat exp x r ≡ stop r' → apply_loop cat exp (x ∷ xs) r ≡ (r', exp)
    unfolding apply_loop
    loop_stop r' h = rw (h, apply_loop)

    pub stop-Keeps : (r' : ApplyResult) → round cat exp x r ≡ stop r' → Keeps r r'
    stop-Keeps r' h =
        let alike : Alike r r (stop r') (stop r') = rw h at (round-Alike cat exp x r r) in alike.0

  pub loop-Advances :
      (exp : ℕ) (xs : List BlockIn) (r : ApplyResult)
      → All NoWrap xs
      → let (r', exp') = apply_loop cat exp xs r in Advances exp exp' r r'
  loop-Advances exp [] r h =
      unfold apply_loop in
      Advances-refl exp r r (record { accepted = refl; gaps = refl; g = refl; u = refl })
  loop-Advances exp (x ∷ xs) r h = elim (Round-cases (round cat exp x r)) [
    | inl (e, r', q) ↦
        let (first, _) = round-Goes cat exp x r r' e h.0 q in
        rw (loop_go exp x xs r e r' q) (
          Advances-trans exp e (apply_loop cat e xs r').1 r r' (apply_loop cat e xs r').0 first
            (loop-Advances e xs r' h.1))
    | inr (r', q) ↦
        rw (loop_stop exp x xs r r' q) (Advances-refl exp r r' (stop-Keeps exp x xs r r' q))
  ]

  module _ (blocks : List BlockIn) (e : StateIn) (h : All NoWrap blocks)
      (fits : e.contiguous_seq + 1 < 2 ^ 32) where
    pub Advances-from_start :
        Advances
          (inc32 e.contiguous_seq)
          (apply_loop cat (inc32 e.contiguous_seq) blocks (initial cat blocks e)).1
          (initial cat blocks e)
          (apply_loop cat (inc32 e.contiguous_seq) blocks (initial cat blocks e)).0
    Advances-from_start = loop-Advances (inc32 e.contiguous_seq) blocks (initial cat blocks e) h

    -- With no uint32 at its end: a seq lies above the confirmed one and not above the new ACK
    -- exactly if it was accepted or lies in a gap that was registered. The ACK does not go back,
    -- and the accepted seqs rise from above the old ACK to the new one at most.
    pub apply-covers :
        let r = apply cat blocks e in
        ((s : ℕ) → covers r s ≡ (ltb e.contiguous_seq s && leb s r.new_ack))
        × (e.contiguous_seq ≤ r.new_ack)
        × Rises e.contiguous_seq r.accepted (r.new_ack + 1)
    unfolding apply initial has_seq in_gap
    apply-covers =
        let a = Advances-from_start in
        let below = a.fits (omega arith) in
        let ahead = a.forward in
        let last = (apply_loop cat (inc32 e.contiguous_seq) blocks (initial cat blocks e)).1 in
        let back : dec32 last + 1 ≡ last = omega arith in
        (
          λ s. ground (arith, a.fills s),
          omega arith,
          rw back (a.rises e.contiguous_seq (omega arith)),
        )
