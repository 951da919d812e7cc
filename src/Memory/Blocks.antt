-- ===== src/Memory/Blocks.antt =====
-- memory.go: the operations of the ingestion on the states, the boots and the stored blocks.
use tccelta.Common.{ℕ, ◌+◌, Bool, true, false, List, [], ◌∷◌, ◌++◌, if◌then◌else◌, max}
use tccelta.Common.Bytes.{Bytes}
use tccelta.Common.Int.{ℤ, pos, ltb_ℤ}
use tccelta.Common.Maps.{number_key, pair_key, lookup, put}
use tccelta.Ingestion.Rows.{RawBlock, Rejected, BootAggregate, StateUpdate}
use tccelta.Memory.{Database, state_of, or_else}
use tccelta.Pid.{Reading, Position}
use tccelta.Registry
use tccelta.Registry.{zero_state}

-- ReadSnapshot: the fields that are not given are zero.
unfoldable pub read_snapshot : Database → ℕ → Registry.State
read_snapshot b id =
    let e = state_of b id in
    record zero_state {
      contiguous_seq = e.contiguous_seq;
      c_conf = e.c_conf;
      last_ack = e.last_ack;
    }

-- ReadLastAck
unfoldable pub read_last_ack : Database → ℕ → Bytes
read_last_ack b id = (state_of b id).last_ack

-- states.UpdateIngestion
unfoldable pub update_ingestion : Database → StateUpdate → Database
update_ingestion b a =
    let e = state_of b a.dongle_id in
    record b {
      states = put b.states a.dongle_id (record e {
        contiguous_seq = a.contiguous_seq;
        max_seen_seq = max (max e.max_seen_seq a.max_seen) a.contiguous_seq;
        last_ack = a.last_ack;
        boot_generation = a.boot_generation;
        last_boot_id = a.last_boot_id;
      });
    }

abbrev pub max_ℤ : ℤ → ℤ → ℤ
max_ℤ a b = if ltb_ℤ a b then b else a

-- boots.UpdateIngestion
unfoldable pub update_boots : ℕ → List BootAggregate → Database → Database
update_boots id [] b = b
update_boots id (a ∷ aggs) b =
    let key : ℕ × (ℕ × ℕ) = (id, (a.generation, a.boot_id)) in
    update_boots id aggs (record b {
      t_ms_boot = put b.t_ms_boot key (max_ℤ (or_else (lookup b.t_ms_boot key) (pos 0)) a.t_end);
    })

-- seen[k], false where there is none.
unfoldable pub is_seen : Database → ℕ → ℕ → Bool
is_seen b id seq = or_else (lookup b.seen (id, seq)) false

-- The loop of InsertRawBlocks, which counts the blocks that were new.
unfoldable pub insert_loop : ℕ → List RawBlock → ℕ → Database → ℕ × Database
insert_loop id [] n b = (n, b)
insert_loop id (x ∷ bs) n b = elim (is_seen b id x.seq) [
  | true ↦ insert_loop id bs n b
  | _ ↦
      insert_loop id bs (n + 1)
        (record b { seen = put b.seen (id, x.seq) true; raw_blocks = b.raw_blocks ++ x ∷ [] })
]

-- InsertRawBlocks
unfoldable pub insert_raw_blocks : ℕ → List RawBlock → Database → ℕ × Database
insert_raw_blocks id bs b = insert_loop id bs 0 b

-- RegisterRejected, CopyReadings and CopyPositions
unfoldable pub register_rejected : Rejected → Database → Database
register_rejected x b = record b { rejected = b.rejected ++ x ∷ [] }

unfoldable pub copy_readings : List Reading → Database → Database
copy_readings ls b = record b { readings = b.readings ++ ls }

unfoldable pub copy_positions : List Position → Database → Database
copy_positions ps b = record b { positions = b.positions ++ ps }
