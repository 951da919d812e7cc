-- ===== src/Ingestion/Apply/Resend.antt =====
-- A batch that is sent again after its ACK was stored changes nothing.
use tccelta.Common.{
  ℕ, suc, ◌+◌, ◌^◌, ◌<◌, ◌≡◌, inl, inr, refl, List, [], ◌∷◌, Option, arith, All, sym, ap, subst,
}
use tccelta.Ingestion.{BlockIn, seq_of, StateIn, ApplyResult}
use tccelta.Ingestion.Apply.{go, stop, round, apply_loop, initial, apply, inc32, dec32}
use tccelta.Ingestion.Apply.Steps.{Keeps}
use tccelta.Ingestion.Apply.Rounds.{NoWrap, round-Goes, round-Alike, Alike}
use tccelta.Ingestion.Apply.Coverage.{
  Round-cases, loop_go, loop_stop, loop-Advances, Advances-from_start,
}

-- The end of Apply.
abbrev close : ApplyResult × ℕ → ApplyResult
close (r, exp) = record r { new_ack = dec32 exp }

-- A later result that accepts nothing and leaves the state where `r` left it.
abbrev pub Unchanged : ApplyResult → ApplyResult → Type 0
Unchanged r again =
    (again.accepted ≡ [])
    × (again.gaps ≡ [])
    × (again.new_ack ≡ r.new_ack)
    × (again.g ≡ r.g)
    × (again.u ≡ r.u)

module _ {D : Type 0} (cat : ℕ → Option D) where
  duplicate_round :
      (exp : ℕ) (x : BlockIn) (s : ApplyResult)
      → seq_of x < exp
      → round cat exp x s ≡ go exp (record s { duplicates = suc s.duplicates })
  unfolding round
  duplicate_round exp x s h = ground arith

  -- Both rounds end the loop.
  stops_too :
      (exp : ℕ) (x : BlockIn) (r r' s : ApplyResult)
      → round cat exp x r ≡ stop r'
      → (s' : ApplyResult) × (round cat exp x s ≡ stop s') × Keeps s s'
  stops_too exp x r r' s h = elim (Round-cases (round cat exp x s)) [
    | inl (e, s', q) ↦
        let alike : Alike r s (stop r') (go e s') = rw (h, q) at (round-Alike cat exp x r s) in
        absurd alike
    | inr (s', q) ↦
        let alike : Alike r s (stop r') (stop s') = rw (h, q) at (round-Alike cat exp x r s) in
        (s', q, alike.1)
  ]

  -- A loop that ended at `last` stays there when it starts from `last` over the same blocks.
  loop_again :
      (exp : ℕ) (xs : List BlockIn) (r : ApplyResult) (last : ℕ) (s : ApplyResult)
      → All NoWrap xs
      → (apply_loop cat exp xs r).1 ≡ last
      → ((apply_loop cat last xs s).1 ≡ last) × Keeps s (apply_loop cat last xs s).0
  loop_again exp [] r last s h e =
      unfold apply_loop in (refl, record { accepted = refl; gaps = refl; g = refl; u = refl })
  loop_again exp (x ∷ xs) r last s h e = elim (Round-cases (round cat exp x r)) [
    | inl (exp', r', q) ↦
        let (_, passed) = round-Goes cat exp x r r' exp' h.0 q in
        let e' : (apply_loop cat exp' xs r').1 ≡ last =
          rw (loop_go cat exp x xs r exp' r' q) at e in
        let on = loop-Advances cat exp' xs r' h.1 in
        let s' : ApplyResult = record s { duplicates = suc s.duplicates } in
        let (there, keeps) = loop_again exp' xs r' last s' h.1 e' in
        let step =
          loop_go cat last x xs s last s' (duplicate_round last x s (omega (arith, on.forward))) in
        rw step
          (there, record { accepted = keeps.accepted; gaps = keeps.gaps; g = keeps.g; u = keeps.u })
    | inr (r', q) ↦
        let here : exp ≡ last = rw (loop_stop cat exp x xs r r' q) at e in
        let (s', q', keeps) = stops_too exp x r r' s q in
        rw (← here) (rw (loop_stop cat exp x xs s s' q') (refl, keeps))
  ]

  module _ (blocks : List BlockIn) (e : StateIn) (h : All NoWrap blocks)
      (fits : e.contiguous_seq + 1 < 2 ^ 32) where
    -- With no uint32 at its end: the same batch, applied to the state that its first application
    -- left, accepts nothing, registers no gap and gives the same ACK, generation and boot_id.
    pub apply_again :
        let r = apply cat blocks e in
        Unchanged r (apply cat blocks (record { contiguous_seq = r.new_ack; g = r.g; u = r.u }))
    unfolding apply initial
    apply_again =
        let a = Advances-from_start cat blocks e h fits in
        let below = a.fits (omega arith) in
        let ahead = a.forward in
        let first = apply_loop cat (inc32 e.contiguous_seq) blocks (initial cat blocks e) in
        let r = apply cat blocks e in
        let e' : StateIn = record { contiguous_seq = r.new_ack; g = r.g; u = r.u } in
        let back : inc32 (dec32 first.1) ≡ first.1 = omega arith in
        let (there, keeps) =
          loop_again (inc32 e.contiguous_seq) blocks (initial cat blocks e) first.1
            (initial cat blocks e') h refl in
        let settled : apply cat blocks e'
            ≡ close (apply_loop cat first.1 blocks (initial cat blocks e')) =
          ap (λ k. close (apply_loop cat k blocks (initial cat blocks e'))) back in
        subst (Unchanged r) (sym settled)
          (keeps.accepted, keeps.gaps, ap dec32 there, keeps.g, keeps.u)
