-- ===== src/Protocol/Records/Loop.antt =====
-- ReadRecords ends, and its loop takes a round for each record.
use tccelta.Common.{
  ℕ, zero, suc, ◌≤◌, ◌≡◌, ◌≢◌, ◌⊎◌, refl, Bool, true, false, [], ◌∷◌, Result, ok, err, ltb,
  if◌then◌else◌, length, drop, arith, length-drop,
}
use tccelta.Common.Bytes.{Bytes}
use tccelta.Protocol.{Error, malformed_record, stuck}
use tccelta.Protocol.Records.{
  Content, reg_gps, reg_boot, reg_loss, read_marker, read_loop, read_records, add_gps, add_pid,
  no_content,
}

pub loop_end : (fuel n : ℕ) (first : Bool) (c : Content) → read_loop fuel n [] first c ≡ ok c
unfolding read_loop
loop_end zero n first c = refl
loop_end (suc fuel) n first c = refl

-- The rounds of the loop, by the type of the record at hand.
module _ (fuel n k : ℕ) (rest : Bytes) (first : Bool) (c : Content) where
  abbrev pub gps_round : Result Error Content
  gps_round =
      if ltb (length (k ∷ rest)) 15
      then err malformed_record
      else read_loop fuel n (drop 15 (k ∷ rest)) false (add_gps (k ∷ rest) first c)

  abbrev pub pid_round : Result Error Content
  pid_round =
      if ltb (length (k ∷ rest)) 5
      then err malformed_record
      else read_loop fuel n (drop 5 (k ∷ rest)) false (add_pid (k ∷ rest) first c)

  pub loop_marker :
      (k ≡ reg_boot) ⊎ (k ≡ reg_loss)
      → read_loop (suc fuel) n (k ∷ rest) first c ≡ read_marker n (k ∷ rest) first c
  unfolding read_loop
  loop_marker h = ground arith

  pub gps_round_long :
      15 ≤ length (k ∷ rest)
      → gps_round ≡ read_loop fuel n (drop 15 (k ∷ rest)) false (add_gps (k ∷ rest) first c)
  gps_round_long h = ground arith

  pub loop_gps : k ≡ reg_gps → read_loop (suc fuel) n (k ∷ rest) first c ≡ gps_round
  unfolding read_loop
  loop_gps h = ground arith

  pub loop_pid :
      k ≢ reg_boot
      → k ≢ reg_loss
      → k ≢ reg_gps
      → read_loop (suc fuel) n (k ∷ rest) first c ≡ pid_round
  unfolding read_loop
  loop_pid nb nl ng = ground arith

-- A round that succeeds leaves the record's bytes and goes on.
module _ (fuel n k : ℕ) (rest : Bytes) (first : Bool) (c c' : Content) where
  pub after_gps :
      k ≡ reg_gps
      → read_loop (suc fuel) n (k ∷ rest) first c ≡ ok c'
      → (15 ≤ length (k ∷ rest))
        × (read_loop fuel n (drop 15 (k ∷ rest)) false (add_gps (k ∷ rest) first c) ≡ ok c')
  after_gps h e = ground (arith, loop_gps fuel n k rest first c h)

  pub after_pid :
      k ≢ reg_boot
      → k ≢ reg_loss
      → k ≢ reg_gps
      → read_loop (suc fuel) n (k ∷ rest) first c ≡ ok c'
      → (5 ≤ length (k ∷ rest))
        × (read_loop fuel n (drop 5 (k ∷ rest)) false (add_pid (k ∷ rest) first c) ≡ ok c')
  after_pid nb nl ng e = ground (arith, loop_pid fuel n k rest first c nb nl ng)

-- The three kinds of a record.
pub kinds :
    (k : ℕ)
    → ((k ≡ reg_boot) ⊎ (k ≡ reg_loss))
      ⊎ ((k ≡ reg_gps) ⊎ ((k ≢ reg_boot) × (k ≢ reg_loss) × (k ≢ reg_gps)))
kinds k = ground arith

read_marker-ne-stuck :
    (n : ℕ) (r : Bytes) (first : Bool) (c : Content) → read_marker n r first c ≢ err stuck
unfolding read_marker
read_marker-ne-stuck n r first c h = ground arith

read_loop-ne-stuck :
    (fuel n : ℕ) (r : Bytes) (first : Bool) (c : Content)
    → length r ≤ fuel
    → read_loop fuel n r first c ≢ err stuck
unfolding read_loop
read_loop-ne-stuck fuel n [] first c h = λ e. cc
read_loop-ne-stuck zero n (k ∷ rest) first c h = absurd (omega arith)
read_loop-ne-stuck (suc fuel) n (k ∷ rest) first c h =
    let r : Bytes = k ∷ rest in
    let marker = read_marker-ne-stuck n r first c in
    let gps =
      read_loop-ne-stuck fuel n (drop 15 r) false (add_gps r first c)
        (omega (arith, length-drop 15 r)) in
    let pid =
      read_loop-ne-stuck fuel n (drop 5 r) false (add_pid r first c)
        (omega (arith, length-drop 5 r)) in
    ground arith

-- ReadRecords ends on every data area: its loop never runs out of fuel.
pub read_records-ne-stuck : (payload : Bytes) → read_records payload ≢ err stuck
unfolding read_records
read_records-ne-stuck payload =
    let loop =
      read_loop-ne-stuck (length payload) (length payload) (drop 12 payload) true no_content
        (omega (arith, length-drop 12 payload)) in
    ground arith
