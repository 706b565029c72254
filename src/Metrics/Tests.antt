-- ===== src/Metrics/Tests.antt =====
-- Runs of actor/metrics.go.
use deqin_actor.Base.{◌≡◌, refl, arith, List, [], ◌∷◌}
use deqin_actor.Base.Int.{ℤ, pos, negsuc}
use deqin_actor.Metrics.{bounds, new_metrics, cumulative}
use deqin_actor.Metrics.Histogram.{observe_all, withins, histogram_counts}

abbrev durations : List ℤ
durations = pos 10000 ∷ pos 10001 ∷ negsuc 3 ∷ pos 70000000 ∷ pos 900000000 ∷ []

histogram_counts_example :
    cumulative 0 (observe_all new_metrics durations).lat_counts ≡ withins bounds durations
histogram_counts_example = histogram_counts durations (omega arith)

counted : withins bounds durations ≡ 1 ∷ 2 ∷ 2 ∷ 2 ∷ 2 ∷ 2 ∷ 2 ∷ 2 ∷ 2 ∷ 2 ∷ 3 ∷ 4 ∷ []
counted = refl
