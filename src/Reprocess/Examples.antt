-- ===== src/Reprocess/Examples.antt =====
-- A dongle with two stored blocks of one record each, whose readings are made again one block at a time.
use tccelta.Common.{
  ◌≡◌, ◌≢◌, refl, ap, sym, arith, [], ◌∷◌, true, false, none, some, ok, err, ok-injective, ltb, ℕ,
}
use tccelta.Common.Bytes.{Bytes}
use tccelta.Common.Int.{pos}
use tccelta.Common.Maps.{lookup}
use tccelta.Common.Sort.{keep}
use tccelta.Ingestion.Rows.{StoredBlock}
use tccelta.Memory.{insert_alert}
use tccelta.Memory.Blocks.{copy_readings, copy_positions}
use tccelta.Memory.Tables.{Tables, notify}
use tccelta.Pid.{Floats, Def, Reading, decode, readings_of, reading_of, position_of, value_of}
use tccelta.Protocol.Block.{decode_block}
use tccelta.Protocol.Records.{read_records, read_loop, read_marker, touch}
use tccelta.Reprocess.{
  Options, Summary, Ports, stuck, run, report, windows, round, settle, transact, decode_all,
  rows_of, last_seq_of, or_default,
}
use tccelta.Reprocess.Ends.{run-ne-stuck, run_dry}
use tccelta.Reprocess.Rebuilt.{IsKept, IsRebuilt}
use tccelta.Reprocess.Rounds.{rest_of}
use tccelta.Reprocess.Run.{run-IsRebuilt, run_again}
use tccelta.Reprocess.Store.{
  blocks_of, list_data, count_readings, delete_readings, delete_positions, rewrite,
}
use tccelta.Reprocess.Window.{Ascending, has_seq}
use tccelta.Trip.Rows.{mark_recalc_by_range}

-- The block of a seq: one record of the PID 13.
abbrev payload : ℕ → Bytes
payload seq = seq ∷ 0 ∷ 0 ∷ 0 ∷ 2 ∷ 0 ∷ 100 ∷ 0 ∷ 0 ∷ 0 ∷ 17 ∷ 0 ∷ 13 ∷ 5 ∷ 0 ∷ 60 ∷ 0 ∷ []

abbrev stored : ℕ → StoredBlock
stored seq = record {
  seq = seq;
  generation = 0;
  boot_id = 2;
  t0_ms = pos 100;
  payload = payload seq;
  received_at = 0;
}

-- A reading of before, with another value than its block has.
abbrev old : ℕ → Reading
old seq = record {
  generation = 0;
  boot_id = 2;
  t_ms = pos 105;
  pid = 13;
  raw_value = 1;
  value = none;
  block_seq = seq;
}

abbrev tables : Tables
tables = record {
  core = record {
    dongles = [];
    states = [];
    last_cs = [];
    challenges = [];
    t_ms_boot = [];
    seen = [];
    raw_blocks = [];
    rejected = [];
    readings = old 1 ∷ old 9 ∷ [];
    positions = [];
    gaps = [];
    alerts = [];
    anchors = [];
    notifications = [];
  };
  boots = [];
  groups = [];
  data_blocks = (7, stored 1 ∷ stored 3 ∷ []) ∷ [];
  trips = [];
  trip_notifications = 0;
  trip_notified = [];
}

abbrev floats : Floats
floats = record {
  of_int = λ z. 0;
  mul_add = λ x y z. x;
  add = λ x y. x;
  sub = λ x y. x;
  div = λ x y. x;
  le = λ x y. true;
  min = λ x y. x;
  float32 = λ x. x;
}

abbrev speed : Def
speed = record {
  pid = 13;
  name = "speed";
  unit = "km/h";
  n_bytes = 1;
  factor = 0;
  value_offset = 0;
  min = none;
  max = none;
}

-- The first attempt of each window finds the database busy.
abbrev ports : Ports
ports = record {
  floats = floats;
  cat = λ pid. some speed;
  is_busy = λ start attempt. ltb attempt 1;
}

abbrev options : Options
options = record { dongle_id = 7; from_seq = pos 1; to_seq = pos 5; batch = pos 1; apply = true }

abbrev summary : Summary
summary = record { blocks = 2; removed_rows = 1; inserted_rows = 2; last_seq = 3 }

abbrev after : Tables
after = (run ports options tables).1

runs : (run ports options tables).0 ≡ ok summary
unfolding run report windows round settle transact decode_all rows_of last_seq_of or_default
    list_data blocks_of keep lookup count_readings rewrite delete_readings delete_positions
    mark_recalc_by_range copy_readings copy_positions notify insert_alert decode readings_of
    reading_of position_of value_of decode_block read_records read_loop read_marker touch
runs = refl

kept : IsKept 7 5 1 tables
unfolding rest_of blocks_of keep lookup Ascending has_seq decode_block
kept = record {
  ascending = ((omega arith, tt), (tt, tt));
  honest = (
    (λ blk h. ap (λ b. b.hdr.seq) (sym (ok-injective _ _ h))),
    ((λ blk h. ap (λ b. b.hdr.seq) (sym (ok-injective _ _ h))), tt),
  );
  readings = ((λ h. refl), ((λ h. ground arith), tt));
  positions = tt;
}

run-IsRebuilt_example : IsRebuilt ports 7 5 1 tables after
unfolding or_default
run-IsRebuilt_example =
    run-IsRebuilt ports options tables after summary refl kept (λ i. (runs i, after))

abbrev last : Tables
last = (run ports options after).1

runs_on : (run ports options after).0 ≡ ok (record summary { removed_rows = 2 })
unfolding run report windows round settle transact decode_all rows_of last_seq_of or_default
    list_data blocks_of keep lookup count_readings rewrite delete_readings delete_positions
    mark_recalc_by_range copy_readings copy_positions notify insert_alert decode readings_of
    reading_of position_of value_of decode_block read_records read_loop read_marker touch
runs_on = refl

run_again_example :
    (last.core.readings ≡ after.core.readings) × (last.core.positions ≡ after.core.positions)
unfolding or_default
run_again_example =
    run_again ports options tables after last summary (record summary { removed_rows = 2 }) refl
      kept (λ i. (runs i, after)) (λ i. (runs_on i, last))

run-ne-stuck_example : (run ports options tables).0 ≢ err stuck
run-ne-stuck_example = run-ne-stuck ports options tables

run_dry_example : (run ports (record options { apply = false }) tables).1 ≡ tables
run_dry_example = run_dry ports (record options { apply = false }) tables refl
