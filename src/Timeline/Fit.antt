-- ===== src/Timeline/Fit.antt =====
-- backend/internal/domain/timeline/timeline.go: the line through the groups of the anchors, and the
-- estimate of the time of a boot from its anchors or from its neighbours. No product is fused with a sum.
use tccelta.Common.{ℕ, List, [], ◌∷◌, ◌++◌, Option, none, some, if◌then◌else◌, ◌==◌, ◌||◌}
use tccelta.Common.Int.{ℤ, pos, ◌-ℤ◌}
use tccelta.Boots.{Anchor, Group, Source, anchors, neighbors}
use tccelta.Memory.{AlertKind, empty_intersection, excessive_drift}
use tccelta.Timeline.Groups.{Doubles, Config, group_anchors}

-- The bit patterns of 1, 2, 1e-6, 1e-9 and +Inf.
abbrev pub one : ℕ
one = 4607182418800017408

abbrev pub two : ℕ
two = 4611686018427387904

abbrev pub micro : ℕ
micro = 4517329193108106637

abbrev pub nano : ℕ
nano = 4472406533629990549

abbrev pub infinity : ℕ
infinity = 9218868437227405312

-- Estimate; a source "" is none, and the detail of an alert is left out.
pub record Estimate : Type 0 where
  pub a_ms : ℕ
  pub b : ℕ
  pub base_uncertainty_ms : ℤ
  pub source : Option Source
  pub groups : List Group
  pub alerts : List AlertKind

abbrev pub no_estimate : List AlertKind → Estimate
no_estimate alerts = record {
  a_ms = 0;
  b = 0;
  base_uncertainty_ms = pos 0;
  source = none;
  groups = [];
  alerts = alerts;
}

pub record NeighborReference : Type 0 where
  pub a_ms : ℕ
  pub b : ℕ
  pub base_uncertainty_ms : ℤ
  pub first_t_ms : ℤ
  pub last_t_ms : ℤ

pub record Line : Type 0 where
  pub a : ℕ
  pub b : ℕ
  pub sigma : ℕ

abbrev pub last_group : Group → List Group → Group
last_group g [] = g
last_group g (h ∷ hs) = last_group h hs

module _ (d : Doubles) where
  unfoldable pub center : Group → ℕ
  center g = d.div (d.add g.lo g.hi) two

  unfoldable pub half_width : Group → ℕ
  half_width g = d.div (d.sub g.hi g.lo) two

  -- A sum over the groups, from the left.
  unfoldable pub sum_of : (Group → ℕ) → ℕ → List Group → ℕ
  sum_of f acc [] = acc
  sum_of f acc (g ∷ gs) = sum_of f (d.add acc (f g)) gs

  unfoldable pub least_half : ℕ → List Group → ℕ
  least_half m [] = m
  least_half m (g ∷ gs) = least_half (d.min m (half_width g)) gs

  module _ (c : Config) where
    unfoldable pub weight : Group → ℕ
    weight g = let h = d.max (half_width g) c.min_half_width_ms in d.div one (d.mul h h)

    -- adjust, of two groups or more.
    unfoldable pub fit : Group → List Group → Line
    fit g gs =
        let all = g ∷ gs in
        let s = sum_of weight 0 all in
        let sx = sum_of (λ x. d.mul (weight x) x.t_center) 0 all in
        let sy = sum_of (λ x. d.mul (weight x) (center x)) 0 all in
        let xm = d.div sx s in
        let dx = λ (x : Group). d.sub x.t_center xm in
        let dy = λ (x : Group). d.sub (center x) (center g) in
        let sxx = sum_of (λ x. d.mul (d.mul (weight x) (dx x)) (dx x)) 0 all in
        let sxy = sum_of (λ x. d.mul (d.mul (weight x) (dx x)) (dy x)) 0 all in
        let mean = d.div sy s in
        let b = d.div sxy sxx in
        let sigma = d.sqrt (d.div one sxx) in
        let span = d.sub (last_group g gs).t_center g.t_center in
        if d.lt sxx nano
        then record { a = mean; b = 0; sigma = 0 }
        else if d.lt span c.span_min_ms || d.le (d.abs b) sigma
        then record { a = mean; b = 0; sigma = sigma }
        else record { a = d.sub mean (d.mul b xm); b = b; sigma = sigma }

    -- adjust
    unfoldable pub adjust : Group → List Group → Line
    adjust g [] = record { a = center g; b = 0; sigma = 0 }
    adjust g (h ∷ hs) = fit g (h ∷ hs)

    unfoldable pub of_groups : List Group × List AlertKind → Estimate
    of_groups ([], al) = no_estimate []
    of_groups (g ∷ gs, al) =
        let l = adjust g gs in
        let drifts = d.lt (d.mul c.max_drift_ppm micro) (d.sub (d.abs l.b) (d.mul two l.sigma)) in
        record {
          a_ms = l.a;
          b = l.b;
          base_uncertainty_ms = d.ceil (least_half infinity (g ∷ gs));
          source = some anchors;
          groups = g ∷ gs;
          alerts = if drifts then al ++ excessive_drift ∷ [] else al;
        }

    -- EstimateFromAnchors
    unfoldable pub estimate_from_anchors : List Anchor → Estimate
    estimate_from_anchors xs = of_groups (group_anchors d c xs)

    -- The time of a reference at a t_ms, and what its uncertainty grows to over its boot.
    abbrev pub time_at : NeighborReference → ℤ → ℕ
    time_at r t = d.add r.a_ms (d.mul (d.add one r.b) (d.of_int t))

    abbrev pub spread : NeighborReference → ℕ
    spread r =
        d.add (d.of_int r.base_uncertainty_ms)
          (d.mul (d.mul c.max_drift_ppm micro) (d.of_int (r.last_t_ms -ℤ r.first_t_ms)))

    abbrev pub highest : Option NeighborReference → ℤ → ℕ
    highest none last = infinity
    highest (some r) last = d.sub (d.add (time_at r r.first_t_ms) (spread r)) (d.of_int last)

    abbrev pub bounded : Option ℕ → ℕ → ℕ
    bounded none hi = hi
    bounded (some m) hi = d.min hi m

    -- EstimateFromNeighbors, of the range of t_ms from `first` to `last`.
    unfoldable pub estimate_from_neighbors :
        Option NeighborReference → Option NeighborReference → ℤ → ℤ → Option ℕ → Estimate
    estimate_from_neighbors none next first last max_offset = no_estimate []
    estimate_from_neighbors (some prev) next first last max_offset =
        let lo = d.sub (d.sub (time_at prev prev.last_t_ms) (spread prev)) (d.of_int first) in
        let hi = bounded max_offset (highest next last) in
        if hi == infinity
        then no_estimate []
        else if d.lt hi lo
        then no_estimate (empty_intersection ∷ [])
        else record {
          a_ms = d.div (d.add lo hi) two;
          b = 0;
          base_uncertainty_ms = d.ceil (d.div (d.sub hi lo) two);
          source = some neighbors;
          groups = [];
          alerts = [];
        }

    -- The distance of a group from a t_ms.
    abbrev pub distance_to : ℤ → Group → ℕ
    distance_to t g = d.abs (d.sub (d.of_int t) g.t_center)

    unfoldable pub nearest_group : ℤ → Group → List Group → Group
    nearest_group t best [] = best
    nearest_group t best (g ∷ gs) =
        nearest_group t (if d.lt (distance_to t g) (distance_to t best) then g else best) gs

    -- Uncertainty, of a reading at a t_ms.
    unfoldable pub uncertainty : ℤ → List Group → ℕ
    uncertainty t [] = infinity
    uncertainty t (g ∷ gs) =
        let best = nearest_group t g gs in
        d.add (half_width best) (d.mul (d.mul c.max_drift_ppm micro) (distance_to t best))
