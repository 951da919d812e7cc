-- ===== src/Batch/Derive/Stamped.antt =====
-- The rows of raw_block are the accepted blocks in their order, but for the time of their start.
use tccelta.Common.{
  append_assoc, append_nil, map-append, ℕ, ◌≡◌, sym, ap, ◌∙◌, List, [], ◌∷◌, ◌++◌, map, Result, ok,
  err, Result-cases, Bool-cases, inl, inr, arith,
}
use tccelta.Common.Int.{pos, negsuc}
use tccelta.Common.Maps.{number_key, pair_key, lookup}
use tccelta.Timeline.{unwrap}
use tccelta.Ingestion.{Accepted}
use tccelta.Ingestion.Rows.{RawBlock}
use tccelta.Memory.{RefBoot, Fault, or_else}
use tccelta.Pid.{decode}
use tccelta.Batch.{Ports}
use tccelta.Batch.Derive
use tccelta.Batch.Derive.{is_plain, raw_of, add_data, add_block, rows_loop, rows_of}

abbrev pub without_time : RawBlock → RawBlock
without_time x = record x { t0_ms = pos 0 }

-- The row of an accepted block, its time aside.
abbrev pub timeless_row : Accepted → RawBlock
timeless_row a = record {
  seq = a.b.hdr.seq;
  boot_id = a.b.hdr.boot_id;
  generation = a.generation;
  t0_ms = pos 0;
  mark = a.mark;
  payload = a.b.payload;
  signature = a.b.tag;
}

abbrev raw_in : Result Fault Derive.Rows → List RawBlock
raw_in (ok m) = m.raw
raw_in (err e) = []

module _ (p : Ports) where
  add_block_row :
      (a : Accepted) (m m' : Derive.Rows)
      → add_block p a m ≡ ok m'
      → map without_time m'.raw ≡ map without_time m.raw ++ timeless_row a ∷ []
  unfolding add_block add_data raw_of
  add_block_row a m m' h = elim (Bool-cases (is_plain a.mark)) [
    | inl e ↦
        let h1 = rw (e, add_block) at h in
        let key : ℕ × ℕ = (a.generation, a.b.hdr.boot_id) in
        let t0 = unwrap a.b.hdr.t0_ms (or_else (lookup m.ref key) (negsuc 0)) in
        elim (Result-cases (decode p.floats p.cat a.generation a.b.hdr t0 a.content)) [
          | inl ((ls, ps), f) ↦
              ap (λ t. map without_time t) (sym (ap raw_in (rw (f, add_data) at h1)))
              ∙ map-append without_time m.raw (raw_of a t0 ∷ [])
          | inr (z, f) ↦ ground (arith, (rw (f, add_data) at h1))
        ]
    | inr e ↦
        ap (λ t. map without_time t) (sym (ap raw_in (rw (e, add_block) at h)))
        ∙ map-append without_time m.raw (raw_of a (pos a.b.hdr.t0_ms) ∷ [])
  ]

  rows_loop_rows :
      (xs : List Accepted) (m m' : Derive.Rows)
      → rows_loop p xs m ≡ ok m'
      → map without_time m'.raw ≡ map without_time m.raw ++ map timeless_row xs
  unfolding rows_loop
  rows_loop_rows [] m m' h =
      ap (λ t. map without_time t) (sym (ap raw_in h)) ∙ sym (append_nil (map without_time m.raw))
  rows_loop_rows (a ∷ xs) m m' h = elim (Result-cases (add_block p a m)) [
    | inl (n, e) ↦
        rows_loop_rows xs n m' (rw (e, rows_loop) at h)
        ∙ ap (λ t. t ++ map timeless_row xs) (add_block_row a m n e)
        ∙ append_assoc (map without_time m.raw) (timeless_row a ∷ []) (map timeless_row xs)
    | inr (z, e) ↦ ground (arith, (rw (e, rows_loop) at h))
  ]

  pub rows_of_rows :
      (refs : List RefBoot) (xs : List Accepted) (m : Derive.Rows)
      → rows_of p refs xs ≡ ok m
      → map without_time m.raw ≡ map timeless_row xs
  unfolding rows_of
  rows_of_rows refs xs m h = rows_loop_rows xs _ m h
