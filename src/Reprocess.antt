-- ===== src/Reprocess.antt =====
-- backend/internal/usecase/reprocess/reprocess.go: readings and positions made again from the stored
-- blocks, window by window, over the operations of backend/internal/adapter/memory/worker.go. Lock does
-- nothing in memory and is left out.
pub mod Store
pub mod Window
mod Rounds
pub mod Decoded
pub mod Rebuilt
pub mod Run
pub mod Ends
mod Examples
use tccelta.Common.{
  ℕ, zero, suc, ◌+◌, ◌-◌, ◌*◌, ◌%◌, ◌^◌, Bool, true, false, List, [], ◌∷◌, ◌++◌, Option, none, some,
  Result, ok, err, ltb, leb, if◌then◌else◌, length,
}
use tccelta.Common.Bytes.{Bytes}
use tccelta.Common.Int.{ℤ, pos, negsuc}
use tccelta.Common.Text.{codes}
use tccelta.Ingestion.Rows.{StoredBlock}
use tccelta.Memory.{Fault, protocol, pid, Database, insert_alert, reprocessing}
use tccelta.Memory.Tables.{Tables}
use tccelta.Pid.{Floats, Def, Reading, Position}
use tccelta.Pid
use tccelta.Protocol.Block.{Block, decode_block}
use tccelta.Protocol.Identity.{Profile}
use tccelta.Protocol.Records.{Content, read_records}
use tccelta.Reprocess.Store.{list_data, count_readings, rewrite}

pub record Options : Type 0 where
  pub dongle_id : ℕ
  pub from_seq : ℤ
  pub to_seq : ℤ
  pub batch : ℤ
  pub apply : Bool

-- ValuesWouldChange, which nothing sets, is left out, and so is the operator of the options.
pub record Summary : Type 0 where
  pub blocks : ℕ
  pub removed_rows : ℕ
  pub inserted_rows : ℕ
  pub last_seq : ℕ

-- An error of Run: of a block, of a database that stays busy. `stuck`, no Go value, is a loop without fuel.
pub data Failure : Type 0 where
  fault : Fault → Failure
  busy stuck : Failure

-- A number that was given, if it is positive.
unfoldable pub or_default : ℤ → ℕ → ℕ
or_default (pos (suc n)) d = suc n
or_default z d = d

-- Profile{Name: "raw"}
abbrev pub raw_profile : Profile
raw_profile = record { name = codes "raw"; block_tag_size = 0 }

abbrev pub lift {ℓ} : {E : Type 0} {A : Type ℓ} → (E → Fault) → Result E A → Result Failure A
lift f (ok a) = ok a
lift f (err e) = err (fault (f e))

-- What the use case takes from outside: floats, the catalogue, and whether an attempt of the
-- transaction of a window is refused as busy.
pub record Ports : Type 0 where
  pub floats : Floats
  pub cat : ℕ → Option Def
  pub is_busy : ℕ → ℕ → Bool

module _ (p : Ports) where
  -- The rows of one block.
  unfoldable pub rows_of : StoredBlock → Result Failure (List Reading × List Position)
  rows_of x = elim (lift protocol (decode_block x.payload raw_profile)) [
    | err e ↦ err e
    | ok blk ↦ elim (lift protocol (read_records blk.payload)) [
      | err e ↦ err e
      | ok cont ↦ lift pid (Pid.decode p.floats p.cat (x.generation % 2 ^ 16) blk.hdr x.t0_ms cont)
    ]
  ]

  -- The loop over the blocks of a window.
  unfoldable pub decode_all : List StoredBlock → Result Failure (List Reading × List Position)
  decode_all [] = ok ([], [])
  decode_all (x ∷ xs) = elim (rows_of x) [
    | err e ↦ err e
    | ok (l, q) ↦ elim (decode_all xs) [ err e ↦ err e | ok (ls, qs) ↦ ok (l ++ ls, q ++ qs) ]
  ]

-- The seq of the last block.
unfoldable pub last_seq_of : StoredBlock → List StoredBlock → ℕ
last_seq_of x [] = x.seq
last_seq_of x (y ∷ ys) = last_seq_of y ys

module _ (p : Ports) where
  -- The attempts of a window's transaction: the rows it removed, or busy.
  unfoldable pub transact :
      ℕ → ℕ → ℕ → ℕ → ℕ → List Reading → List Position → Tables → Result Failure ℕ × Tables
  transact zero attempt id a b ls ps t = (err busy, t)
  transact (suc n) attempt id a b ls ps t = elim (p.is_busy a attempt) [
    | true ↦ transact n (attempt + 1) id a b ls ps t
    | false ↦ let (removed, c) = rewrite id a b ls ps t in (ok removed, c)
  ]

-- How one window ends: the loop stops, or goes on from a seq.
pub data Round : Type 0 where
  stop : Result Failure Summary → Tables → Round
  go : ℕ → Summary → Tables → Round

abbrev pub counted : Summary → ℕ → ℕ → ℕ → ℕ → Summary
counted s blocks removed inserted last = record {
  blocks = s.blocks + blocks;
  removed_rows = s.removed_rows + removed;
  inserted_rows = s.inserted_rows + inserted;
  last_seq = last;
}

module _ (p : Ports) (apply : Bool) (id to batch : ℕ) where
  -- A window of decoded blocks.
  unfoldable pub settle :
      StoredBlock → List StoredBlock → List Reading → List Position → Summary → Tables → Round
  settle x xs ls ps s t =
      let b = last_seq_of x xs in
      let size = suc (length xs) in
      elim apply [
        | false ↦
            go (b + 1) (counted s size (count_readings x.seq b t.core.readings) (length ls) b) t
        | true ↦
            let (r, c) = transact p 5 0 id x.seq b ls ps t in
            elim r [
              | err e ↦ stop (err e) c
              | ok removed ↦ go (b + 1) (counted s size removed (length ls) b) c
            ]
      ]

  -- A round of the loop over the windows.
  unfoldable pub round : ℕ → Summary → Tables → Round
  round start s t = if ltb to start then stop (ok s) t else elim (list_data t id start to batch) [
    | [] ↦ stop (ok s) t
    | x ∷ xs ↦ elim (decode_all p (x ∷ xs)) [
      | err e ↦ stop (err e) t
      | ok (ls, ps) ↦ settle x xs ls ps s t
    ]
  ]

  unfoldable pub windows : ℕ → ℕ → Summary → Tables → Result Failure Summary × Tables
  windows zero start s t = (err stuck, t)
  windows (suc f) start s t = elim (round start s t) [
    | stop r c ↦ (r, c)
    | go next s' c ↦ windows f next s' c
  ]

abbrev pub no_summary : Summary
no_summary = record { blocks = 0; removed_rows = 0; inserted_rows = 0; last_seq = 0 }

-- What Run does behind its loop: with Apply, an alert.
unfoldable pub report : Options → Result Failure Summary × Tables → Result Failure Summary × Tables
report o (err e, t) = (err e, t)
report o (ok s, t) =
    if o.apply
    then (
      ok s,
      record t {
        core = insert_alert t.core (record {
          dongle_id = o.dongle_id;
          kind = reprocessing;
          boot_generation = none;
          boot_id = none;
        });
      },
    )
    else (ok s, t)

-- Run; a round moves the start up, so that one round more than there are seqs is enough fuel.
unfoldable pub run : Ports → Options → Tables → Result Failure Summary × Tables
run p o t =
    let to = or_default o.to_seq 4294967295 in
    let start = or_default o.from_seq 1 in
    report o (
      windows p o.apply o.dongle_id to (or_default o.batch 200) (suc (to + 1 - start)) start
        no_summary t)
