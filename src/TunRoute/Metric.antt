-- ===== src/TunRoute/Metric.antt =====
-- The choice of the interface in `find_default_route_interface_index` of src/inbound/tun_route.cpp.
use cppbox.Prelude.{
  some_injective, ℕ, ◌<◌, ◌≤◌, ◌≡◌, refl, sym, subst, ap, ◌∙◌, ◌⊎◌, inl, inr, true, false,
  Bool-cases, Option, none, some, Option-cases, List, [], ◌∷◌, ◌++◌, arith, All, ltb→lt, ltb, ◌==◌,
  not, ◌||◌, ◌+◌,
}
use cppbox.TunRoute.{
  ForwardRow, RouteCalls, Best, effective_metric, improves, consider, scan,
  find_default_route_interface_index,
}

-- A default route whose interface has a metric: `metric` is the sum of the route's and the interface's.
abbrev pub HasMetric : (ℕ → Option ℕ) → ForwardRow → ℕ → Type 0
HasMetric interface_metric route metric =
    (route.prefix_length ≡ 0)
    × (route.prefix_s_addr ≡ 0)
    × (i : ℕ) × (interface_metric route.interface_luid ≡ some i)
    × (metric ≡ route.metric + i)

module _ (interface_metric : ℕ → Option ℕ) where
  effective_metric-HasMetric :
      (route : ForwardRow) (m : ℕ)
      → effective_metric interface_metric route ≡ some m
      → HasMetric interface_metric route m
  unfolding effective_metric
  effective_metric-HasMetric route m e =
      elim (Bool-cases (not (route.prefix_length == 0) || not (route.prefix_s_addr == 0))) [
        | inl other ↦ absurd (let w = rw (effective_metric, other) at e in cc)
        | inr default ↦ elim (Option-cases (interface_metric route.interface_luid)) [
          | inl missing ↦ absurd (let w = rw (effective_metric, default, missing) at e in cc)
          | inr (i, found) ↦ (
            ground arith,
            ground arith,
            i,
            found,
            some_injective (sym (rw (effective_metric, default, found) at e)),
          )
        ]
      ]

  HasMetric-effective_metric :
      (route : ForwardRow) (m : ℕ)
      → HasMetric interface_metric route m
      → effective_metric interface_metric route ≡ some m
  unfolding effective_metric
  HasMetric-effective_metric route m (length, addr, i, found, sum) =
      rw (effective_metric, length, addr, found, sum) refl

  -- A metric below the best so far, or not.
  abbrev Beats : Best → ℕ → Type 0
  Beats none m = Unit
  Beats (some (b, i)) m = m < b

  abbrev Loses : Best → ℕ → Type 0
  Loses none m = ⊥
  Loses (some (b, i)) m = b ≤ m

  improves-cases :
      (best : Best) (m : ℕ)
      → ((improves interface_metric m best ≡ true) × Beats best m)
        ⊎ ((improves interface_metric m best ≡ false) × Loses best m)
  improves-cases none m = inl (refl, tt)
  improves-cases (some (b, i)) m = elim (Bool-cases (ltb m b)) [
    | inl e ↦ inl (e, ltb→lt m b e)
    | inr e ↦ inr (e, ground arith)
  ]

  HasMetric-eq :
      (route : ForwardRow) (m n : ℕ)
      → HasMetric interface_metric route m
      → HasMetric interface_metric route n
      → m ≡ n
  HasMetric-eq route m n h k =
      some_injective
        (sym (HasMetric-effective_metric route m h) ∙ HasMetric-effective_metric route n k)

  -- Where the route has a metric, it is above, or not below, the given one.
  abbrev pub IsAbove : ℕ → ForwardRow → Type 0
  IsAbove metric route = (m : ℕ) → HasMetric interface_metric route m → metric < m

  abbrev pub IsNotBelow : ℕ → ForwardRow → Type 0
  IsNotBelow metric route = (m : ℕ) → HasMetric interface_metric route m → metric ≤ m

  abbrev AllLose : Best → ForwardRow → Type 0
  AllLose best route = (m : ℕ) → HasMetric interface_metric route m → Loses best m

  -- The first route with the least metric.
  abbrev pub IsLeast : List ForwardRow → ℕ → ForwardRow → Type 0
  IsLeast routes metric route =
      (before : List ForwardRow) × (after : List ForwardRow) × (routes ≡ before ++ route ∷ after)
      × HasMetric interface_metric route metric
      × All (IsAbove metric) before
      × All (IsNotBelow metric) after

  abbrev Scanned : Best → List ForwardRow → Type 0
  Scanned best routes =
      (All (AllLose best) routes × (scan interface_metric best routes ≡ best))
      ⊎ ((metric : ℕ) × (route : ForwardRow) × IsLeast routes metric route
          × Beats best metric
          × (scan interface_metric best routes ≡ some (metric, route.interface_index)))

  -- A route that does not change the best goes in front.
  Scanned-skip :
      (best : Best) (route : ForwardRow) (routes : List ForwardRow)
      → AllLose best route
      → consider interface_metric best route ≡ best
      → Scanned best routes
      → Scanned best (route ∷ routes)
  unfolding scan
  Scanned-skip best route routes lose same (inl (all, e)) =
      inl ((lose, all), ap (λ b. scan interface_metric b routes) same ∙ e)
  Scanned-skip best route routes lose same
        (inr (metric, least, (before, after, split, has, above, below), beats, e)) =
      inr (
        metric,
        least,
        (
          route ∷ before,
          after,
          ap (◌∷◌ route) split,
          has,
          ((λ m h. below_best best m metric (lose m h) beats), above),
          below,
        ),
        beats,
        ap (λ b. scan interface_metric b routes) same ∙ e,
      )
    where
      below_best : (best : Best) (m metric : ℕ) → Loses best m → Beats best metric → metric < m
      below_best none m metric l b = absurd l
      below_best (some (b, i)) m metric l beats = omega arith

  -- A route that improves on the best is the best for the rest.
  Scanned-improve :
      (best : Best) (route : ForwardRow) (routes : List ForwardRow) (m : ℕ)
      → HasMetric interface_metric route m
      → Beats best m
      → consider interface_metric best route ≡ some (m, route.interface_index)
      → Scanned (some (m, route.interface_index)) routes
      → Scanned best (route ∷ routes)
  unfolding scan
  Scanned-improve best route routes m has beats new (inl (all, e)) = inr (
    m,
    route,
    ([], routes, refl, has, tt, all),
    beats,
    ap (λ b. scan interface_metric b routes) new ∙ e,
  )
  Scanned-improve best route routes m has beats new
        (inr (metric, least, (before, after, split, found, above, below), less, e)) =
      inr (
        metric,
        least,
        (
          route ∷ before,
          after,
          ap (◌∷◌ route) split,
          found,
          ((λ n h. let w : m ≡ n = HasMetric-eq route m n has h in omega arith), above),
          below,
        ),
        beats_more best beats,
        ap (λ b. scan interface_metric b routes) new ∙ e,
      )
    where
      beats_more : (best : Best) → Beats best m → Beats best metric
      beats_more none b = tt
      beats_more (some (b, i)) beats = omega arith

  scan-cases : (routes : List ForwardRow) (best : Best) → Scanned best routes
  unfolding scan consider
  scan-cases [] best = inl (tt, refl)
  scan-cases (route ∷ routes) best = elim (Option-cases (effective_metric interface_metric route)) [
    | inl missing ↦
        Scanned-skip best route routes
          (λ m h. absurd (let w = sym missing ∙ HasMetric-effective_metric route m h in cc))
          (rw (consider, missing) refl) (scan-cases routes best)
    | inr (m, has) ↦ elim (improves-cases best m) [
      | inl (better, beats) ↦
          Scanned-improve best route routes m (effective_metric-HasMetric route m has) beats
            (rw (consider, has, better) refl) (scan-cases routes (some (m, route.interface_index)))
      | inr (worse, loses) ↦
          Scanned-skip best route routes
            (λ n h.
              subst (Loses best) (some_injective (sym has ∙ HasMetric-effective_metric route n h))
                loses)
            (rw (consider, has, worse) refl) (scan-cases routes best)
    ]
  ]

-- Of a table that is read, the index is that of the first default route with the least metric, its own and
-- its interface's together, or there is none, and then the table has no default route whose
-- interface has a metric.
pub find_default_route_interface_index-cases :
    (calls : RouteCalls) (table : List ForwardRow)
    → calls.get_table ≡ some table
    → ((find_default_route_interface_index calls ≡ none)
        × All (λ route. (m : ℕ) → HasMetric calls.interface_metric route m → ⊥) table)
      ⊎ ((metric : ℕ) × (route : ForwardRow) × IsLeast calls.interface_metric table metric route
          × (find_default_route_interface_index calls ≡ some route.interface_index))
unfolding find_default_route_interface_index
find_default_route_interface_index-cases calls table e =
    elim (scan-cases calls.interface_metric table none) [
      | inl (all, kept) ↦ inl (rw (find_default_route_interface_index, e, kept) refl, all)
      | inr (metric, route, least, _, found) ↦
          inr (metric, route, least, rw (find_default_route_interface_index, e, found) refl)
    ]
