-- ===== src/Protocol/Records/Totals.antt =====
-- What ReadRecords has read when it succeeds: every byte, a marker alone, and the time span.
use tccelta.Common.{
  ℕ, zero, suc, ◌+◌, ◌*◌, ◌≤◌, ◌≡◌, ◌⊎◌, inl, inr, refl, sym, ◌∙◌, Bool, true, false, [], ◌∷◌, ok,
  length, drop, arith, length-append, length-drop, Option, none, some,
}
use tccelta.Common.Bytes.{Bytes}
use tccelta.Protocol.{marker_block_size}
use tccelta.Protocol.Records.{
  Content, MarkerRecord, reg_boot, reg_loss, read_marker, read_loop, read_records, add_gps, add_pid,
  touch, no_content, pid_of, gps_of,
}
use tccelta.Protocol.Records.Loop.{kinds, loop_marker, after_gps, after_pid}

abbrev marker_bytes : Option MarkerRecord → ℕ
marker_bytes none = 0
marker_bytes (some m) = 11

-- The bytes of the records of a content.
abbrev pub content_bytes : Content → ℕ
content_bytes c = 5 * length c.pids + 15 * length c.gps + marker_bytes c.marker

-- A marker stands alone in a data area of 23 bytes, and is BOOT or LOSS.
pub record IsAlone (n : ℕ) (c : Content) (m : MarkerRecord) : Type 0 where
  pub no_pids : c.pids ≡ []
  pub no_gps : c.gps ≡ []
  pub size : n ≡ marker_block_size
  pub kind : (m.kind ≡ reg_boot) ⊎ (m.kind ≡ reg_loss)

abbrev pub MarkerRule : ℕ → Content → Type 0
MarkerRule n c = (m : MarkerRecord) → c.marker ≡ some m → IsAlone n c m

marker_totals :
    (n k : ℕ) (rest : Bytes) (first : Bool) (c c' : Content)
    → (k ≡ reg_boot) ⊎ (k ≡ reg_loss)
    → c.marker ≡ none
    → read_marker n (k ∷ rest) first c ≡ ok c'
    → (content_bytes c' ≡ content_bytes c + length (k ∷ rest)) × MarkerRule n c'
unfolding read_marker touch
marker_totals n k rest first c c' kind none_yet h = (ground arith, λ m e. ground arith)

module _ (k : ℕ) (rest : Bytes) (first : Bool) (c : Content) where
  add_gps-none : c.marker ≡ none → (add_gps (k ∷ rest) first c).marker ≡ none
  unfolding touch
  add_gps-none h = h

  add_pid-none : c.marker ≡ none → (add_pid (k ∷ rest) first c).marker ≡ none
  unfolding touch
  add_pid-none h = h

  bytes-add_gps : content_bytes (add_gps (k ∷ rest) first c) ≡ content_bytes c + 15
  unfolding touch
  bytes-add_gps = omega (arith, length-append c.gps (gps_of (k ∷ rest) ∷ []))

  bytes-add_pid : content_bytes (add_pid (k ∷ rest) first c) ≡ content_bytes c + 5
  unfolding touch
  bytes-add_pid = omega (arith, length-append c.pids (pid_of (k ∷ rest) ∷ []))

loop_totals :
    (fuel n : ℕ) (r : Bytes) (first : Bool) (c c' : Content)
    → c.marker ≡ none
    → read_loop fuel n r first c ≡ ok c'
    → (content_bytes c' ≡ content_bytes c + length r) × MarkerRule n c'
unfolding read_loop
loop_totals fuel n [] first c c' none_yet h = (ground arith, λ m e. ground arith)
loop_totals zero n (k ∷ rest) first c c' none_yet h = cc
loop_totals (suc fuel) n (k ∷ rest) first c c' none_yet h = elim (kinds k) [
  | inl m ↦
      marker_totals n k rest first c c' m none_yet (sym (loop_marker fuel n k rest first c m) ∙ h)
  | inr (inl g) ↦
      let (room, next) = after_gps fuel n k rest first c c' g h in
      let (total, rule) =
        loop_totals fuel n (drop 15 (k ∷ rest)) false (add_gps (k ∷ rest) first c) c'
          (add_gps-none k rest first c none_yet) next in
      (omega (arith, total, length-drop 15 (k ∷ rest), bytes-add_gps k rest first c), rule)
  | inr (inr (nb, nl, ng)) ↦
      let (room, next) = after_pid fuel n k rest first c c' nb nl ng h in
      let (total, rule) =
        loop_totals fuel n (drop 5 (k ∷ rest)) false (add_pid (k ∷ rest) first c) c'
          (add_pid-none k rest first c none_yet) next in
      (omega (arith, total, length-drop 5 (k ∷ rest), bytes-add_pid k rest first c), rule)
]

-- When ReadRecords succeeds, its records account for every byte behind the header: 5 for a PID
-- record, 15 for a GPS record, 11 for a marker. A marker is the only record, of an area of 23 bytes.
pub read_records_totals :
    (payload : Bytes) (c : Content)
    → read_records payload ≡ ok c
    → (content_bytes c + 12 ≡ length payload) × MarkerRule (length payload) c
unfolding read_records
read_records_totals payload c h =
    let long : 17 ≤ length payload = ground arith in
    let (total, rule) =
      loop_totals (length payload) (length payload) (drop 12 payload) true no_content c refl
        (ground arith) in
    (omega (arith, total, length-drop 12 payload), rule)
