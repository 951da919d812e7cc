-- ===== src/Reprocess/Ends.antt =====
-- The loop of Run ends, and a rehearsal writes nothing.
use tccelta.Common.{
  ℕ, zero, suc, ◌+◌, ◌-◌, ◌%◌, ◌^◌, ◌≤◌, ◌<◌, Bool, true, false, List, [], ◌∷◌, All, Result, ok,
  err, Result-cases, err-injective, ◌≡◌, ◌≢◌, refl, sym, ap, ◌∙◌, subst, ◌⊎◌, inl, inr, Bool-cases,
  arith, ltb, take,
}
use tccelta.Common.Sort.Keep.{keep-true}
use tccelta.Ingestion.Rows.{StoredBlock}
use tccelta.Memory.Tables.{Tables}
use tccelta.Pid.{Reading, Position}
use tccelta.Pid
use tccelta.Protocol.Block.{decode_block}
use tccelta.Protocol.Records.{read_records}
use tccelta.Reprocess.{
  Summary, Failure, stuck, Ports, Round, stop, go, round, windows, decode_all, rows_of, last_seq_of,
  run, report, Options, or_default, no_summary, settle, transact, raw_profile,
}
use tccelta.Reprocess.Store.{blocks_of, in_range, list_data}

module _ (p : Ports) where
  rows_of-ne-stuck : (x : StoredBlock) → rows_of p x ≢ err stuck
  unfolding rows_of
  rows_of-ne-stuck x h = elim (Result-cases (decode_block x.payload raw_profile)) [
    | inr (e, k) ↦ ground (arith, rw (k, rows_of) at h)
    | inl (blk, k) ↦ elim (Result-cases (read_records blk.payload)) [
      | inr (e, m) ↦ ground (arith, rw (m, rows_of) at (rw (k, rows_of) at h))
      | inl (cont, m) ↦
          elim (Result-cases
            (Pid.decode p.floats p.cat (x.generation % 2 ^ 16) blk.hdr x.t0_ms cont)) [
              | inr (e, n) ↦
                  ground (arith, rw (n, rows_of) at (rw (m, rows_of) at (rw (k, rows_of) at h)))
              | inl (rows, n) ↦
                  ground (arith, rw (n, rows_of) at (rw (m, rows_of) at (rw (k, rows_of) at h)))
            ]
    ]
  ]

  decode_all-ne-stuck : (xs : List StoredBlock) → decode_all p xs ≢ err stuck
  unfolding decode_all
  decode_all-ne-stuck [] h = ground arith
  decode_all-ne-stuck (x ∷ xs) h = elim (Result-cases (rows_of p x)) [
    | inr (e, k) ↦ rows_of-ne-stuck x (k ∙ ground (arith, rw (k, decode_all) at h))
    | inl (rows, k) ↦ elim (Result-cases (decode_all p xs)) [
      | inr (e, m) ↦
          decode_all-ne-stuck xs
            (m ∙ ground (arith, rw (m, decode_all) at (rw (k, decode_all) at h)))
      | inl (more, m) ↦ ground (arith, rw (m, decode_all) at (rw (k, decode_all) at h))
    ]
  ]

  transact-ne-stuck :
      (n k id a b : ℕ) (ls : List Reading) (ps : List Position) (t : Tables)
      → (transact p n k id a b ls ps t).0 ≢ err stuck
  unfolding transact
  transact-ne-stuck zero k id a b ls ps t h = ground arith
  transact-ne-stuck (suc n) k id a b ls ps t h = elim (Bool-cases (p.is_busy a k)) [
    | inl e ↦ transact-ne-stuck n (k + 1) id a b ls ps t (rw (e, transact) at h)
    | inr e ↦ ground (arith, rw (e, transact) at h)
  ]

  module _ (apply : Bool) (id to batch : ℕ) where
    -- A round that stops is not stuck; one that goes on goes up, to the seq after the end at most.
    -- Neither writes in a rehearsal.
    abbrev IsSafe : ℕ → Tables → Round → Type 0
    IsSafe start t (stop r c) = (r ≢ err stuck) × (apply ≡ false → c ≡ t)
    IsSafe start t (go next s c) = (start < next) × (next ≤ to + 1) × (apply ≡ false → c ≡ t)

    settle-IsSafe :
        (start : ℕ) (x : StoredBlock) (xs : List StoredBlock) (ls : List Reading)
        (ps : List Position) (s : Summary) (t : Tables)
        → start ≤ last_seq_of x xs
        → last_seq_of x xs ≤ to
        → IsSafe start t (settle p apply id to batch x xs ls ps s t)
    unfolding settle
    settle-IsSafe start x xs ls ps s t low high = elim (Bool-cases apply) [
      | inr e ↦ rw (e, settle) (omega arith, omega arith, λ _. refl)
      | inl e ↦ elim (Result-cases (transact p 5 0 id x.seq (last_seq_of x xs) ls ps t).0) [
        | inr (f, k) ↦
            rw (e, settle)
              (rw (k, settle)
                (
                  (λ h.
                      transact-ne-stuck 5 0 id x.seq (last_seq_of x xs) ls ps t
                        (k ∙ ap err (err-injective _ _ h))),
                  λ q. cc,
                ))
        | inl (n, k) ↦ rw (e, settle) (rw (k, settle) (omega arith, omega arith, λ q. cc))
      ]
    ]

    last_inside :
        (start : ℕ) (x : StoredBlock) (xs : List StoredBlock)
        → All (λ y. in_range start to y.seq ≡ true) (x ∷ xs)
        → in_range start to (last_seq_of x xs) ≡ true
    unfolding last_seq_of
    last_inside start x [] h = h.0
    last_inside start x (y ∷ ys) h = last_inside start y ys h.1

    All-take : {A : Type 0} (P : A → Type 0) (n : ℕ) (xs : List A) → All P xs → All P (take n xs)
    All-take P zero xs h = tt
    All-take P (suc n) [] h = tt
    All-take P (suc n) (x ∷ xs) h = (h.0, All-take P n xs h.1)

    listed_inside :
        (start : ℕ) (t : Tables)
        → All (λ y. in_range start to y.seq ≡ true) (list_data t id start to batch)
    unfolding list_data
    listed_inside start t = All-take _ batch _ (keep-true _ (blocks_of t id))

    round-IsSafe :
        (start : ℕ) (s : Summary) (t : Tables)
        → IsSafe start t (round p apply id to batch start s t)
    unfolding round
    round-IsSafe start s t = elim (Bool-cases (ltb to start)) [
      | inl e ↦ rw (e, round) (λ h. cc, λ _. refl)
      | inr e ↦ rw (e, round) (over (list_data t id start to batch) (listed_inside start t))
    ]
      where
        over :
            (xs : List StoredBlock)
            → All (λ y. in_range start to y.seq ≡ true) xs
            → IsSafe start t (elim xs [
              | [] ↦ stop (ok s) t
              | x ∷ xs ↦ elim (decode_all p (x ∷ xs)) [
                | err e ↦ stop (err e) t
                | ok (ls, ps) ↦ settle p apply id to batch x xs ls ps s t
              ]
            ])
        over [] h = (λ h. cc, λ _. refl)
        over (x ∷ xs) h =
            let b = last_inside start x xs h in
            elim (Result-cases (decode_all p (x ∷ xs))) [
              | inr (e, k) ↦ rw k (
                (λ q. decode_all-ne-stuck (x ∷ xs) (k ∙ ap err (err-injective _ _ q))),
                λ _. refl,
              )
              | inl ((ls, ps), k) ↦
                  rw k (settle-IsSafe start x xs ls ps s t (ground (arith, b)) (ground (arith, b)))
            ]

    Round-cases :
        (r : Round)
        → ((x : Result Failure Summary) × (c : Tables) × (r ≡ stop x c))
          ⊎ ((n : ℕ) × (s : Summary) × (c : Tables) × (r ≡ go n s c))
    Round-cases (stop x c) = inl (x, c, refl)
    Round-cases (go n s c) = inr (n, s, c, refl)

    -- Behind the end the loop stops.
    round_over :
        (start : ℕ) (s : Summary) (t : Tables)
        → ltb to start ≡ true
        → round p apply id to batch start s t ≡ stop (ok s) t
    unfolding round
    round_over start s t e = rw (e, round) refl

    not_both :
        (x : Result Failure Summary) (c d : Tables) (n : ℕ) (s : Summary) → stop x c ≢ go n s d
    not_both x c d n s h = cc

    windows-ne-stuck :
        (f start : ℕ) (s : Summary) (t : Tables)
        → to + 1 < start + f
        → 0 < f
        → (windows p apply id to batch f start s t).0 ≢ err stuck
    unfolding windows
    windows-ne-stuck zero start s t h g q = ground (arith, g)
    windows-ne-stuck (suc f) start s t h g q =
        let safe = round-IsSafe start s t in
        elim (Round-cases (round p apply id to batch start s t)) [
          | inl (x, c, e) ↦ (subst (IsSafe start t) e safe).0 (rw (e, windows) at q)
          | inr (n, s', c, e) ↦
              let up : IsSafe start t (go n s' c) = subst (IsSafe start t) e safe in
              elim (Bool-cases (ltb to start)) [
                | inl over ↦ absurd (not_both _ t c n s' (sym (round_over start s t over) ∙ e))
                | inr within ↦
                    windows-ne-stuck f n s' c (room f n up.0 up.1 h within) (fuel f h within)
                      (rw (e, windows) at q)
              ]
        ]
      where
        room :
            (f n : ℕ)
            → start < n
            → n ≤ to + 1
            → to + 1 < start + suc f
            → ltb to start ≡ false
            → to + 1 < n + f
        room f n a b h w = ground (arith, a, h)

        fuel : (f : ℕ) → to + 1 < start + suc f → ltb to start ≡ false → 0 < f
        fuel f h w = ground (arith, h, w)

    windows_dry :
        (f start : ℕ) (s : Summary) (t : Tables)
        → apply ≡ false
        → (windows p apply id to batch f start s t).1 ≡ t
    unfolding windows
    windows_dry zero start s t a = refl
    windows_dry (suc f) start s t a =
        let safe = round-IsSafe start s t in
        elim (Round-cases (round p apply id to batch start s t)) [
          | inl (x, c, e) ↦ rw (e, windows) ((subst (IsSafe start t) e safe).1 a)
          | inr (n, s', c, e) ↦
              rw (e, windows) (windows_dry f n s' c a ∙ (subst (IsSafe start t) e safe).2 a)
        ]

report-ne-stuck :
    (o : Options) (x : Result Failure Summary × Tables)
    → x.0 ≢ err stuck
    → (report o x).0 ≢ err stuck
unfolding report
report-ne-stuck o (err e, t) h q = h q
report-ne-stuck o (ok s, t) h q = elim (Bool-cases o.apply) [
  | inl e ↦ ground (arith, rw e at q)
  | inr e ↦ ground (arith, rw e at q)
]

report_dry :
    (o : Options) (x : Result Failure Summary × Tables) → o.apply ≡ false → (report o x).1 ≡ x.1
unfolding report
report_dry o (err e, t) a = refl
report_dry o (ok s, t) a = rw a refl

-- Run ends: its fuel is never used up, whatever the options, the blocks and the refusals.
pub run-ne-stuck : (p : Ports) (o : Options) (t : Tables) → (run p o t).0 ≢ err stuck
unfolding run
run-ne-stuck p o t =
    let to = or_default o.to_seq 4294967295 in
    let start = or_default o.from_seq 1 in
    report-ne-stuck o _ (
      windows-ne-stuck p o.apply o.dongle_id to (or_default o.batch 200) (suc (to + 1 - start))
        start no_summary t (enough to start) (some_fuel (to + 1 - start)))
  where
    enough : (a b : ℕ) → a + 1 < b + suc (a + 1 - b)
    enough a b = omega arith

    some_fuel : (a : ℕ) → 0 < suc a
    some_fuel a = omega arith

-- Without Apply, Run leaves every table as it is, however it ends.
pub run_dry : (p : Ports) (o : Options) (t : Tables) → o.apply ≡ false → (run p o t).1 ≡ t
unfolding run
run_dry p o t a =
    report_dry o _ a
    ∙ windows_dry p o.apply o.dongle_id (or_default o.to_seq 4294967295) (or_default o.batch 200)
        (suc (or_default o.to_seq 4294967295 + 1 - or_default o.from_seq 1))
        (or_default o.from_seq 1) no_summary t a
