-- ===== src/Reprocess/Decoded.antt =====
-- The rows that a window of blocks is decoded to.
use tccelta.Common.{
  ok-injective, ℕ, ◌%◌, ◌^◌, true, List, [], ◌∷◌, ◌++◌, map, All, All-imp, All-append, Option,
  Option-cases, ok, Result-cases, ◌≡◌, refl, sym, ap, ◌∙◌, subst, inl, inr, arith, append_assoc,
}
use tccelta.Common.Int.{ℤ}
use tccelta.Ingestion.Rows.{StoredBlock}
use tccelta.Pid.{Floats, Def, Reading, Position, readings_of, reading_of, position_of, decode}
use tccelta.Protocol.Block.{Block, BlockHeader, decode_block}
use tccelta.Protocol.Records.{Content, PidRecord, GpsRecord, read_records}
use tccelta.Reprocess.{Ports, raw_profile, rows_of, decode_all}
use tccelta.Reprocess.Window.{has_seq}

-- The payload of a stored block has the seq of its row.
abbrev pub IsHonest : StoredBlock → Type 0
IsHonest x = (blk : Block) → decode_block x.payload raw_profile ≡ ok blk → blk.hdr.seq ≡ x.seq

module _ (f : Floats) (cat : ℕ → Option Def) (generation : ℕ) (hdr : BlockHeader) (t0 : ℤ) where
  readings-seq :
      (ps : List PidRecord) (ls : List Reading)
      → readings_of f cat generation hdr t0 ps ≡ ok ls
      → All (λ r. r.block_seq ≡ hdr.seq) ls
  unfolding readings_of reading_of
  readings-seq [] ls h = subst (All (λ r. r.block_seq ≡ hdr.seq)) (ok-injective _ _ h) tt
  readings-seq (p ∷ ps) ls h = elim (Option-cases (cat p.pid)) [
    | inl e ↦ ground arith
    | inr (d, e) ↦ elim (Result-cases (readings_of f cat generation hdr t0 ps)) [
      | inr (x, k) ↦ ground arith
      | inl (rest, k) ↦
          subst (All (λ r. r.block_seq ≡ hdr.seq))
            (ok-injective _ _ (rw (k, readings_of) at (rw (e, readings_of) at h)))
            (refl, readings-seq ps rest k)
    ]
  ]

  positions-seq :
      (gs : List GpsRecord)
      → All (λ r. r.block_seq ≡ hdr.seq) (map (position_of f generation hdr t0) gs)
  unfolding position_of
  positions-seq [] = tt
  positions-seq (g ∷ gs) = (refl, positions-seq gs)

  decode-seq :
      (c : Content) (ls : List Reading) (qs : List Position)
      → decode f cat generation hdr t0 c ≡ ok (ls, qs)
      → All (λ r. r.block_seq ≡ hdr.seq) ls × All (λ r. r.block_seq ≡ hdr.seq) qs
  unfolding decode
  decode-seq c ls qs h = elim (Result-cases (readings_of f cat generation hdr t0 c.pids)) [
    | inr (x, k) ↦ ground arith
    | inl (rs, k) ↦
        let e = ok-injective _ _ (rw (k, decode) at h) in
        (
          subst (All (λ r. r.block_seq ≡ hdr.seq)) (ap (λ z. z.0) e) (readings-seq c.pids rs k),
          subst (All (λ r. r.block_seq ≡ hdr.seq)) (ap (λ z. z.1) e) (positions-seq c.gps),
        )
  ]

module _ (p : Ports) where
  rows_of-seq :
      (x : StoredBlock) (ls : List Reading) (qs : List Position)
      → IsHonest x
      → rows_of p x ≡ ok (ls, qs)
      → All (λ r. r.block_seq ≡ x.seq) ls × All (λ r. r.block_seq ≡ x.seq) qs
  unfolding rows_of
  rows_of-seq x ls qs t h = elim (Result-cases (decode_block x.payload raw_profile)) [
    | inr (y, k) ↦ ground arith
    | inl (blk, k) ↦ elim (Result-cases (read_records blk.payload)) [
      | inr (y, m) ↦ ground arith
      | inl (cont, m) ↦
          elim (Result-cases (decode p.floats p.cat (x.generation % 2 ^ 16) blk.hdr x.t0_ms cont)) [
            | inr (y, n) ↦ ground arith
            | inl (rows, n) ↦
                let e =
                  ok-injective _ _
                    (rw (n, rows_of) at (rw (m, rows_of) at (rw (k, rows_of) at h))) in
                let d =
                  decode-seq p.floats p.cat (x.generation % 2 ^ 16) blk.hdr x.t0_ms cont ls qs
                    (n ∙ ap ok e) in
                (All-imp ls (λ r q. q ∙ t blk k) d.0, All-imp qs (λ r q. q ∙ t blk k) d.1)
          ]
    ]
  ]

  seq_here :
      (x : StoredBlock) (xs : List StoredBlock) (n : ℕ) → n ≡ x.seq → has_seq (x ∷ xs) n ≡ true
  unfolding has_seq
  seq_here x xs n h = ground arith

  seq_later :
      (x : StoredBlock) (xs : List StoredBlock) (n : ℕ)
      → has_seq xs n ≡ true
      → has_seq (x ∷ xs) n ≡ true
  unfolding has_seq
  seq_later x xs n h = ground arith

  -- Both parts of a decoded list.
  decoded_cons :
      (x : StoredBlock) (xs : List StoredBlock) {l : List Reading} {q : List Position}
      {ls : List Reading} {qs : List Position}
      → rows_of p x ≡ ok (l, q)
      → decode_all p xs ≡ ok (ls, qs)
      → decode_all p (x ∷ xs) ≡ ok (l ++ ls, q ++ qs)
  unfolding decode_all
  decoded_cons x xs h k = rw (h, decode_all) (rw (k, decode_all) refl)

  record Parts (x : StoredBlock) (xs : List StoredBlock) (ls : List Reading) (qs : List Position)
      : Type 0 where
    l : List Reading
    q : List Position
    more : List Reading
    others : List Position
    one : rows_of p x ≡ ok (l, q)
    rest : decode_all p xs ≡ ok (more, others)
    readings : l ++ more ≡ ls
    positions : q ++ others ≡ qs

  decoded-Parts :
      (x : StoredBlock) (xs : List StoredBlock) (ls : List Reading) (qs : List Position)
      → decode_all p (x ∷ xs) ≡ ok (ls, qs)
      → Parts x xs ls qs
  unfolding decode_all
  decoded-Parts x xs ls qs h = elim (Result-cases (rows_of p x)) [
    | inr (y, k) ↦ ground arith
    | inl ((l, q), k) ↦ elim (Result-cases (decode_all p xs)) [
      | inr (y, m) ↦ ground arith
      | inl ((ls', qs'), m) ↦
          let e = ok-injective _ _ (rw (m, decode_all) at (rw (k, decode_all) at h)) in
          record {
            l = l;
            q = q;
            more = ls';
            others = qs';
            one = k;
            rest = m;
            readings = ap (λ z. z.0) e;
            positions = ap (λ z. z.1) e;
          }
    ]
  ]

  -- Of honest blocks each row has the seq of one.
  pub decode_all-seq :
      (xs : List StoredBlock) (ls : List Reading) (qs : List Position)
      → All IsHonest xs
      → decode_all p xs ≡ ok (ls, qs)
      → All (λ r. has_seq xs r.block_seq ≡ true) ls × All (λ r. has_seq xs r.block_seq ≡ true) qs
  unfolding decode_all
  decode_all-seq [] ls qs t h =
      let e = ok-injective _ _ h in
      (
        subst (All (λ r. has_seq [] r.block_seq ≡ true)) (ap (λ z. z.0) e) tt,
        subst (All (λ r. has_seq [] r.block_seq ≡ true)) (ap (λ z. z.1) e) tt,
      )
  decode_all-seq (x ∷ xs) ls qs t h =
      let d = decoded-Parts x xs ls qs h in
      let one = rows_of-seq x d.l d.q t.0 d.one in
      let rest = decode_all-seq xs d.more d.others t.1 d.rest in
      (
        subst (All (λ r. has_seq (x ∷ xs) r.block_seq ≡ true)) d.readings (
            All-append _ d.l d.more (All-imp d.l (λ r. seq_here x xs r.block_seq) one.0)
              (All-imp d.more (λ r. seq_later x xs r.block_seq) rest.0)),
        subst (All (λ r. has_seq (x ∷ xs) r.block_seq ≡ true)) d.positions (
            All-append _ d.q d.others (All-imp d.q (λ r. seq_here x xs r.block_seq) one.1)
              (All-imp d.others (λ r. seq_later x xs r.block_seq) rest.1)),
      )

  pub decode_all-append :
      (xs ys : List StoredBlock) (ls ms : List Reading) (qs ns : List Position)
      → decode_all p xs ≡ ok (ls, qs)
      → decode_all p ys ≡ ok (ms, ns)
      → decode_all p (xs ++ ys) ≡ ok (ls ++ ms, qs ++ ns)
  unfolding decode_all
  decode_all-append [] ys ls ms qs ns h k =
      let e = ok-injective _ _ h in k ∙ (λ i. ok (ap (λ z. z.0) e i ++ ms, ap (λ z. z.1) e i ++ ns))
  decode_all-append (x ∷ xs) ys ls ms qs ns h k =
      let d = decoded-Parts x xs ls qs h in
      decoded_cons x (xs ++ ys) d.one (decode_all-append xs ys d.more ms d.others ns d.rest k)
      ∙ (λ i. ok (
        (sym (append_assoc d.l d.more ms) ∙ ap (λ t. t ++ ms) d.readings) i,
        (sym (append_assoc d.q d.others ns) ∙ ap (λ t. t ++ ns) d.positions) i,
      ))
