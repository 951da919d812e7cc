-- ===== src/Timeline/Groups/Runs.antt =====
-- The groups are the runs of the anchors in order.
use tccelta.Common.{
  ℕ, suc, Bool, List, [], ◌∷◌, ◌++◌, map, length, ◌+◌, ◌≡◌, refl, sym, ap, ◌∙◌, inl, inr,
  Bool-cases, arith, append_assoc, append_nil, ◌||◌, false, true, subst,
}
use tccelta.Common.Int.{ℤ, pos, ltb_ℤ, ◌-ℤ◌}
use tccelta.Common.Sort.{sort_by}
use tccelta.Boots.{Anchor, Group}
use tccelta.Timeline.Groups.{
  Doubles, Config, Forming, low_of, high_of, opened, closed, joined, is_late, is_disjoint,
  group_loop, group_sorted, group_anchors,
}

-- A run of anchors: the first one and the others.
abbrev pub Run : Type 0
Run = Anchor × List Anchor

unfoldable pub anchors_of : List Run → List Anchor
anchors_of [] = []
anchors_of (r ∷ rs) = (r.0 ∷ r.1) ++ anchors_of rs

unfoldable pub fold_from {ℓ} : {A : Type ℓ} → (ℕ → A → ℕ) → ℕ → List A → ℕ
fold_from f a [] = a
fold_from f a (x ∷ xs) = fold_from f (f a x) xs

unfoldable pub last_time : ℤ → List Anchor → ℤ
last_time t [] = t
last_time t (x ∷ xs) = last_time x.t_ms xs

module _ (d : Doubles) where
  -- The group of a run: the intersection of its intervals, the mean and the ends of its times.
  unfoldable pub described : Run → Group
  described (x, xs) = record {
    lo = fold_from (λ a y. d.max a (low_of d y)) (low_of d x) xs;
    hi = fold_from (λ a y. d.min a (high_of d y)) (high_of d x) xs;
    t_center =
        d.div (fold_from (λ a y. d.add a (d.of_int y.t_ms)) (d.of_int x.t_ms) xs)
          (d.of_int (pos (length (x ∷ xs))));
    first_t = x.t_ms;
    last_t = last_time x.t_ms xs;
    n = length (x ∷ xs);
  }

  -- The group that the anchors `xs` turn a group into.
  abbrev formed : Forming → List Anchor → ℕ → Forming
  formed o xs n = record {
    cur = record {
      lo = fold_from (λ a y. d.max a (low_of d y)) o.cur.lo xs;
      hi = fold_from (λ a y. d.min a (high_of d y)) o.cur.hi xs;
      t_center = o.cur.t_center;
      first_t = o.cur.first_t;
      last_t = last_time o.cur.last_t xs;
      n = n;
    };
    sum = fold_from (λ a y. d.add a (d.of_int y.t_ms)) o.sum xs;
  }

  unfoldable joined_all : Forming → List Anchor → Forming
  joined_all o [] = o
  joined_all o (x ∷ xs) = joined_all (joined d o x) xs

  joined_all-formed :
      (o : Forming) (xs : List Anchor) → joined_all o xs ≡ formed o xs (o.cur.n + length xs)
  unfolding joined_all fold_from last_time
  joined_all-formed o [] = let e : o.cur.n ≡ o.cur.n + 0 = omega arith in ap (formed o []) e
  joined_all-formed o (x ∷ xs) =
      let e : o.cur.n + 1 + length xs ≡ o.cur.n + suc (length xs) = omega arith in
      joined_all-formed (joined d o x) xs ∙ ap (formed (joined d o x) xs) e

  joined_all-append :
      (o : Forming) (xs : List Anchor) (y : Anchor)
      → joined_all o (xs ++ y ∷ []) ≡ joined d (joined_all o xs) y
  unfolding joined_all
  joined_all-append o [] y = refl
  joined_all-append o (x ∷ xs) y = joined_all-append (joined d o x) xs y

  closed-described :
      (x : Anchor) (xs : List Anchor) → closed d (joined_all (opened d x) xs) ≡ described (x, xs)
  unfolding described
  closed-described x xs =
      let e : 1 + length xs ≡ suc (length xs) = omega arith in
      ap (closed d) (joined_all-formed (opened d x) xs)
      ∙ ap (λ k. closed d (formed (opened d x) xs k)) e

  module _ (c : Config) where
    -- The anchor starts another group than `g`.
    unfoldable pub starts_anew : Group → Anchor → Bool
    starts_anew g x =
        d.le c.group_window_ms (d.of_int (x.t_ms -ℤ g.first_t))
        || d.lt (d.min g.hi (high_of d x)) (d.max g.lo (low_of d x))

    -- Each of the later anchors lies in the group of those of the run before it.
    unfoldable pub Together : Anchor → List Anchor → List Anchor → Type 0
    Together x ys [] = Unit
    Together x ys (z ∷ zs) =
        (starts_anew (described (x, ys)) z ≡ false) × Together x (ys ++ z ∷ []) zs

    unfoldable pub Follows : Run → List Run → Type 0
    Follows r [] = Unit
    Follows r (s ∷ ss) = starts_anew (described r) s.0 ≡ true

    -- Runs that are as long as they can be.
    unfoldable pub IsGreedy : List Run → Type 0
    IsGreedy [] = Unit
    IsGreedy (r ∷ rs) = Together r.0 [] r.1 × Follows r rs × IsGreedy rs

    record Grouped (x : Anchor) (ys zs : List Anchor) (gs : List Group) : Type 0 where
      rest : List Anchor
      more : List Run
      together : Together x ys rest
      follows : Follows (x, ys ++ rest) more
      greedy : IsGreedy more
      anchors : rest ++ anchors_of more ≡ zs
      groups : gs ≡ map described ((x, ys ++ rest) ∷ more)

    anew_lem :
        (x : Anchor) (ys : List Anchor) (z : Anchor)
        → starts_anew (described (x, ys)) z ≡ (
            is_late d c (joined_all (opened d x) ys) z
            || is_disjoint d c (joined_all (opened d x) ys) z)
    unfolding starts_anew
    anew_lem x ys z = ap (λ g. starts_anew g z) (sym (closed-described x ys))

    ended :
        (x : Anchor) (ys : List Anchor)
        → Grouped x ys [] (closed d (joined_all (opened d x) ys) ∷ [])
    unfolding Together Follows IsGreedy anchors_of
    ended x ys = record {
      rest = [];
      more = [];
      together = tt;
      follows = tt;
      greedy = tt;
      anchors = refl;
      groups =
          ap (λ g. g ∷ [])
            (closed-described x ys ∙ ap (λ l. described (x, l)) (sym (append_nil ys)));
    }

    split :
        (x : Anchor) (ys : List Anchor) (z : Anchor) (zs : List Anchor) (gs : List Group)
        → starts_anew (described (x, ys)) z ≡ true
        → Grouped z [] zs gs
        → Grouped x ys (z ∷ zs) (closed d (joined_all (opened d x) ys) ∷ gs)
    unfolding Together Follows IsGreedy anchors_of
    split x ys z zs gs e g =
        let same = append_nil ys in
        record {
          rest = [];
          more = (z, g.rest) ∷ g.more;
          together = tt;
          follows = subst (λ l. starts_anew (described (x, l)) z ≡ true) (sym same) e;
          greedy = (g.together, g.follows, g.greedy);
          anchors = ap (λ l. z ∷ l) g.anchors;
          groups =
              (λ i. (closed-described x ys ∙ ap (λ l. described (x, l)) (sym same)) i ∷ g.groups i);
        }

    went_on :
        (x : Anchor) (ys : List Anchor) (z : Anchor) (zs : List Anchor) (gs : List Group)
        → starts_anew (described (x, ys)) z ≡ false
        → Grouped x (ys ++ z ∷ []) zs gs
        → Grouped x ys (z ∷ zs) gs
    unfolding Together
    went_on x ys z zs gs e g =
        let same : (ys ++ z ∷ []) ++ g.rest ≡ ys ++ z ∷ g.rest = append_assoc ys (z ∷ []) g.rest in
        record {
          rest = z ∷ g.rest;
          more = g.more;
          together = (e, g.together);
          follows = subst (λ l. Follows (x, l) g.more) same g.follows;
          greedy = g.greedy;
          anchors = ap (λ l. z ∷ l) g.anchors;
          groups = g.groups ∙ ap (λ l. map described ((x, l) ∷ g.more)) same;
        }

    group_loop-Grouped :
        (x : Anchor) (ys zs : List Anchor)
        → Grouped x ys zs (group_loop d c (joined_all (opened d x) ys) zs).0
    unfolding group_loop joined_all
    group_loop-Grouped x ys [] = ended x ys
    group_loop-Grouped x ys (z ∷ zs) =
        let o = joined_all (opened d x) ys in
        let fresh = group_loop-Grouped z [] zs in
        let on = group_loop-Grouped x (ys ++ z ∷ []) zs in
        elim (Bool-cases (is_late d c o z)) [
          | inl e ↦ rw (e, group_loop) (split x ys z zs _ (anew_lem x ys z ∙ rw e refl) fresh)
          | inr e ↦ elim (Bool-cases (is_disjoint d c o z)) [
            | inl k ↦
                rw (e, group_loop)
                  (rw (k, group_loop) (split x ys z zs _ (anew_lem x ys z ∙ rw e k) fresh))
            | inr k ↦
                rw (e, group_loop)
                  (rw (k, group_loop)
                    (went_on x ys z zs _ (anew_lem x ys z ∙ rw e k) (
                      subst (λ p. Grouped x (ys ++ z ∷ []) zs (group_loop d c p zs).0)
                        (joined_all-append (opened d x) ys z) on)))
          ]
        ]

    sorted-Grouped :
        (l : List Anchor)
        → (runs : List Run) × (anchors_of runs ≡ l)
          × IsGreedy runs
          × ((group_sorted d c l).0 ≡ map described runs)
    unfolding group_sorted anchors_of IsGreedy joined_all
    sorted-Grouped [] = ([], refl, tt, refl)
    sorted-Grouped (x ∷ l) =
        let g = group_loop-Grouped x [] l in
        (
          (x, g.rest) ∷ g.more,
          ap (λ k. x ∷ k) g.anchors,
          (g.together, g.follows, g.greedy),
          g.groups,
        )

    -- GroupAnchors takes the anchors in the order of their t_ms and cuts them into runs: a group is the
    -- intersection of the intervals of its run, with its times and its count, and an anchor starts another
    -- group exactly if it lies outside the window of the one before or does not meet its interval.
    pub group_anchors-IsGreedy :
        (xs : List Anchor)
        → (runs : List Run) × (anchors_of runs ≡ sort_by (λ x y. ltb_ℤ x.t_ms y.t_ms) xs)
          × IsGreedy runs
          × ((group_anchors d c xs).0 ≡ map described runs)
    unfolding group_anchors
    group_anchors-IsGreedy xs = sorted-Grouped (sort_by (λ x y. ltb_ℤ x.t_ms y.t_ms) xs)
