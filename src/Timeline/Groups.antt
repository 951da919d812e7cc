-- ===== src/Timeline/Groups.antt =====
-- backend/internal/domain/timeline/timeline.go: GroupAnchors. A float is its bit pattern, and the
-- operations on floats are an argument. sort.Slice leaves the order of equal t_ms open; here they keep theirs.
pub mod Runs
use tccelta.Common.{ℕ, Bool, List, [], ◌∷◌, ◌+◌, if◌then◌else◌}
use tccelta.Common.Int.{ℤ, pos, ◌-ℤ◌, ltb_ℤ}
use tccelta.Common.Sort.{sort_by}
use tccelta.Boots.{Anchor, Group}
use tccelta.Memory.{AlertKind, empty_intersection}

-- float64 with the package math; `lt` and `le` are the comparisons, `ceil` is int(math.Ceil(x)).
pub record Doubles : Type 0 where
  pub of_int : ℤ → ℕ
  pub add : ℕ → ℕ → ℕ
  pub sub : ℕ → ℕ → ℕ
  pub mul : ℕ → ℕ → ℕ
  pub div : ℕ → ℕ → ℕ
  pub min : ℕ → ℕ → ℕ
  pub max : ℕ → ℕ → ℕ
  pub lt : ℕ → ℕ → Bool
  pub le : ℕ → ℕ → Bool
  pub abs : ℕ → ℕ
  pub sqrt : ℕ → ℕ
  pub ceil : ℕ → ℤ

pub record Config : Type 0 where
  pub group_window_ms : ℕ
  pub max_drift_ppm : ℕ
  pub min_half_width_ms : ℕ
  pub span_min_ms : ℕ

-- The bit patterns of 600000, 40, 0.5 and 3600000.
abbrev pub default_config : Config
default_config = record {
  group_window_ms = 4693401172847886336;
  max_drift_ppm = 4630826316843712512;
  min_half_width_ms = 4602678819172646912;
  span_min_ms = 4704985352480227328;
}

-- The group that is being formed, and the sum of its t_ms.
pub record Forming : Type 0 where
  pub cur : Group
  pub sum : ℕ

module _ (d : Doubles) where
  abbrev pub low_of : Anchor → ℕ
  low_of x = d.sub x.s1_ms (d.of_int x.t_ms)

  abbrev pub high_of : Anchor → ℕ
  high_of x = d.sub x.s2_ms (d.of_int x.t_ms)

  -- open
  abbrev pub opened : Anchor → Forming
  opened x = record {
    cur = record {
      lo = low_of x;
      hi = high_of x;
      t_center = 0;
      first_t = x.t_ms;
      last_t = x.t_ms;
      n = 1;
    };
    sum = d.of_int x.t_ms;
  }

  -- close
  abbrev pub closed : Forming → Group
  closed o = record o.cur { t_center = d.div o.sum (d.of_int (pos o.cur.n)) }

  -- An anchor that joins the group.
  abbrev pub joined : Forming → Anchor → Forming
  joined o x = record {
    cur = record {
      lo = d.max o.cur.lo (low_of x);
      hi = d.min o.cur.hi (high_of x);
      t_center = o.cur.t_center;
      first_t = o.cur.first_t;
      last_t = x.t_ms;
      n = o.cur.n + 1;
    };
    sum = d.add o.sum (d.of_int x.t_ms);
  }

  module _ (c : Config) where
    -- The anchor lies outside the window of the group.
    abbrev pub is_late : Forming → Anchor → Bool
    is_late o x = d.le c.group_window_ms (d.of_int (x.t_ms -ℤ o.cur.first_t))

    -- The interval of the anchor does not meet the one of the group.
    abbrev pub is_disjoint : Forming → Anchor → Bool
    is_disjoint o x = d.lt (d.min o.cur.hi (high_of x)) (d.max o.cur.lo (low_of x))

    -- The loop over the anchors behind the first one.
    unfoldable pub group_loop : Forming → List Anchor → List Group × List AlertKind
    group_loop o [] = (closed o ∷ [], [])
    group_loop o (x ∷ xs) =
        let fresh = group_loop (opened x) xs in
        let rest = group_loop (joined o x) xs in
        if is_late o x
        then (closed o ∷ fresh.0, fresh.1)
        else if is_disjoint o x
        then (closed o ∷ fresh.0, empty_intersection ∷ fresh.1)
        else rest

    unfoldable pub group_sorted : List Anchor → List Group × List AlertKind
    group_sorted [] = ([], [])
    group_sorted (x ∷ xs) = group_loop (opened x) xs

    -- GroupAnchors
    unfoldable pub group_anchors : List Anchor → List Group × List AlertKind
    group_anchors xs = group_sorted (sort_by (λ x y. ltb_ℤ x.t_ms y.t_ms) xs)
