-- ===== src/Batch/Derive.antt =====
-- receive_batch.go: the rows that `store` makes of the accepted blocks.
pub mod Stamped
use tccelta.Common.{
  ℕ, ◌+◌, ◌/◌, Bool, true, false, not, ◌&&◌, ◌||◌, List, [], ◌∷◌, ◌++◌, Option, none, some, map,
  Result, ok, err, ltb, ◌==◌, if◌then◌else◌,
}
use tccelta.Common.Int.{ℤ, pos, negsuc, ◌+ℤ◌, ◌-ℤ◌, ltb_ℤ}
use tccelta.Common.Maps.{number_key, pair_key, lookup, put}
use tccelta.Ingestion.{Accepted, Mark, plain, boot, loss}
use tccelta.Ingestion.Rows.{RawBlock, BootAggregate}
use tccelta.Memory.{Fault, pid, RefBoot, or_else}
use tccelta.Memory.Blocks.{max_ℤ}
use tccelta.Pid.{Floats, Def, Reading, Position, decode, thousand}
use tccelta.Timeline.{unwrap}
use tccelta.Batch.{Ports}
use tccelta.Batch.Verify.{member}

-- bootKey: a generation and a boot_id.
abbrev pub BootKey : Type 0
BootKey = ℕ × ℕ

pub record AggBoot : Type 0 where
  pub seq_start : ℕ
  pub seq_end : ℕ
  pub t_start : ℤ
  pub t_end : ℤ
  pub offset : ℕ

abbrev pub is_plain : Mark → Bool
is_plain plain = true
is_plain boot = false
is_plain loss = false

-- The boot_ids of the data blocks, each once.
unfoldable pub boot_ids : List ℕ → List Accepted → List ℕ
boot_ids seen [] = []
boot_ids seen (a ∷ xs) = elim (is_plain a.mark && not (member a.b.hdr.boot_id seen)) [
  | true ↦ a.b.hdr.boot_id ∷ boot_ids (a.b.hdr.boot_id ∷ seen) xs
  | false ↦ boot_ids seen xs
]

-- The map `ref` from the rows of LastTMs.
unfoldable pub refs_of : List RefBoot → List (BootKey × ℤ) → List (BootKey × ℤ)
refs_of [] m = m
refs_of (x ∷ xs) m = refs_of xs (put m (x.generation, x.boot_id) x.last_t_ms)

-- The variables of the loop over the accepted blocks.
pub record Rows : Type 0 where
  pub ref : List (BootKey × ℤ)
  pub agg : List (BootKey × AggBoot)
  pub raw : List RawBlock
  pub readings : List Reading
  pub positions : List Position

abbrev pub min_ℤ : ℤ → ℤ → ℤ
min_ℤ a b = if ltb_ℤ b a then b else a

-- recMs: time.UnixMicro in milliseconds; the Unix epoch is 62135596800 s after Go's zero time.
unfoldable pub rec_ms : Floats → ℕ → ℕ
rec_ms f now = f.div (f.of_int (pos (now / 1000) -ℤ pos 62135596800000000)) thousand

-- The row of a block, from the milliseconds of its start.
unfoldable pub raw_of : Accepted → ℤ → RawBlock
raw_of a t0 = record {
  seq = a.b.hdr.seq;
  boot_id = a.b.hdr.boot_id;
  generation = a.generation;
  t0_ms = t0;
  mark = a.mark;
  payload = a.b.payload;
  signature = a.b.tag;
}

-- The aggregate of a boot with one more block.
unfoldable pub aggregate : Floats → Option AggBoot → ℕ → ℤ → ℤ → ℕ → AggBoot
aggregate f none seq t_start t_end offset = record {
  seq_start = seq;
  seq_end = seq;
  t_start = t_start;
  t_end = t_end;
  offset = offset;
}
aggregate f (some x) seq t_start t_end offset = record {
  seq_start = x.seq_start;
  seq_end = seq;
  t_start = min_ℤ x.t_start t_start;
  t_end = max_ℤ x.t_end t_end;
  offset = f.min x.offset offset;
}

module _ (p : Ports) where
  -- The branch of a data block.
  unfoldable pub add_data : Accepted → Rows → Result Fault Rows
  add_data a m =
      let hdr = a.b.hdr in
      let key : BootKey = (a.generation, hdr.boot_id) in
      let t0 = unwrap hdr.t0_ms (or_else (lookup m.ref key) (negsuc 0)) in
      let t_start = t0 +ℤ pos a.content.dt_min in
      let t_end = t0 +ℤ pos a.content.dt_max in
      let offset = p.floats.sub (rec_ms p.floats p.now) (p.floats.of_int t_end) in
      elim (decode p.floats p.cat a.generation hdr t0 a.content) [
        | err e ↦ err (pid e)
        | ok (ls, ps) ↦ ok (record {
          ref = put m.ref key t_end;
          agg = put m.agg key (aggregate p.floats (lookup m.agg key) hdr.seq t_start t_end offset);
          raw = m.raw ++ raw_of a t0 ∷ [];
          readings = m.readings ++ ls;
          positions = m.positions ++ ps;
        })
      ]

  -- A round of the loop; a marker only leaves its row.
  unfoldable pub add_block : Accepted → Rows → Result Fault Rows
  add_block a m = elim (is_plain a.mark) [
    | true ↦ add_data a m
    | false ↦ ok (record m { raw = m.raw ++ raw_of a (pos a.b.hdr.t0_ms) ∷ [] })
  ]

  unfoldable pub rows_loop : List Accepted → Rows → Result Fault Rows
  rows_loop [] m = ok m
  rows_loop (a ∷ xs) m = elim (add_block a m) [ err e ↦ err e | ok m' ↦ rows_loop xs m' ]

  unfoldable pub rows_of : List RefBoot → List Accepted → Result Fault Rows
  rows_of refs xs =
      rows_loop xs
        (record { ref = refs_of refs []; agg = []; raw = []; readings = []; positions = [] })

-- The order of sort.Slice on the keys.
abbrev pub key_less : BootKey → BootKey → Bool
key_less k l = if k.0 == l.0 then ltb k.1 l.1 else ltb k.0 l.0

abbrev pub insert_sorted : BootKey × AggBoot → List (BootKey × AggBoot) → List (BootKey × AggBoot)
insert_sorted x [] = x ∷ []
insert_sorted x (y ∷ ys) =
    let rest = insert_sorted x ys in if key_less x.0 y.0 then x ∷ y ∷ ys else y ∷ rest

unfoldable pub sort_keys : List (BootKey × AggBoot) → List (BootKey × AggBoot)
sort_keys [] = []
sort_keys (x ∷ xs) = insert_sorted x (sort_keys xs)

unfoldable pub aggregates : List (BootKey × AggBoot) → List BootAggregate
aggregates m =
    map
      (λ x. record {
        generation = x.0.0;
        boot_id = x.0.1;
        from_seq = x.1.seq_start;
        to_seq = x.1.seq_end;
        t_start = x.1.t_start;
        t_end = x.1.t_end;
        max_offset = x.1.offset;
      })
      (sort_keys m)
