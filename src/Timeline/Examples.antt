-- ===== src/Timeline/Examples.antt =====
-- Unwrap at concrete references, and anchors that form two groups.
use tccelta.Common.{
  map, length, List, [], ◌∷◌, ltb, leb, if◌then◌else◌, ℕ, ◌-◌, ◌+◌, ◌*◌, ◌%◌, ◌^◌, ◌≤◌, ◌≡◌, refl,
  arith,
}
use tccelta.Common.Sort.{sort_by, insert_by}
use tccelta.Boots.{Anchor}
use tccelta.Timeline.Groups.{Doubles, Config, group_anchors, group_sorted, group_loop}
use tccelta.Timeline.Groups.Runs.{Run, anchors_of, IsGreedy, described, group_anchors-IsGreedy}
use tccelta.Common.Int.{ltb_ℤ, pos_part, pos, negsuc, abs, ◌+ℤ◌, ◌-ℤ◌}
use tccelta.Common.Words.{int64}
use tccelta.Timeline.{nearer, unwrap, abs64}
use tccelta.Timeline.Nearest.{distance, unwrap_nearest}

-- Without a reference, and across a wrap of the counter.
no_reference : unwrap 5 (negsuc 0) ≡ pos 5
unfolding unwrap
no_reference = refl

across_wrap : unwrap 5 (pos (2 ^ 32 - 1)) ≡ pos (2 ^ 32 + 5)
unfolding unwrap nearer abs abs64 int64 ◌+ℤ◌ ◌-ℤ◌
across_wrap = refl

-- At the end of an int64 the candidate above wraps.
at_int64_end : unwrap 0 (pos (2 ^ 63 - 1)) ≡ pos 0
unfolding unwrap nearer abs abs64 int64 ◌+ℤ◌ ◌-ℤ◌
at_int64_end = refl

unwrap_nearest_example :
    (u : ℕ) × (unwrap 5 (pos (2 ^ 32 + 7)) ≡ pos u)
    × (u % 2 ^ 32 ≡ 5)
    × (distance u (2 ^ 32 + 7) ≤ distance (5 + 2 * 2 ^ 32) (2 ^ 32 + 7))
unwrap_nearest_example = unwrap_nearest 5 (2 ^ 32 + 7) 2 (omega arith) (omega arith)

-- Whole numbers in place of floats.
abbrev doubles : Doubles
doubles = record {
  of_int = pos_part;
  add = ◌+◌;
  sub = ◌-◌;
  mul = ◌*◌;
  div = λ x y. x;
  min = λ x y. if ltb y x then y else x;
  max = λ x y. if ltb x y then y else x;
  lt = ltb;
  le = leb;
  abs = λ x. x;
  sqrt = λ x. x;
  ceil = pos;
}

abbrev config : Config
config = record {
  group_window_ms = 10;
  max_drift_ppm = 40;
  min_half_width_ms = 1;
  span_min_ms = 100;
}

abbrev at : ℕ → Anchor
at t = record { t_ms = pos t; s1_ms = 100 + t; s2_ms = 107 + t }

abbrev measured : List Anchor
measured = at 20 ∷ at 0 ∷ at 5 ∷ []

two_groups : length (group_anchors doubles config measured).0 ≡ 2
unfolding group_anchors group_sorted group_loop sort_by insert_by ◌-ℤ◌
two_groups = refl

group_anchors-IsGreedy_example :
    (runs : List Run) × (anchors_of runs ≡ sort_by (λ x y. ltb_ℤ x.t_ms y.t_ms) measured)
    × IsGreedy doubles config runs
    × ((group_anchors doubles config measured).0 ≡ map (described doubles) runs)
group_anchors-IsGreedy_example = group_anchors-IsGreedy doubles config measured
