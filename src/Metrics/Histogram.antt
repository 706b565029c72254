-- ===== src/Metrics/Histogram.antt =====
-- The histogram of actor/metrics.go.
use deqin_actor.Base.{
  ℕ, suc, ◌+◌, ◌%◌, ◌≤◌, ◌<◌, ◌≡◌, refl, sym, ap, ap₂, ◌∙◌, arith, if◌then◌else◌, leb, le→leb,
  lt→leb, Bool, true, false, ◌&&◌, List, [], ◌∷◌, length, dec_le,
}
use mathlib.Core.Path.{subst}
use deqin_actor.Base.Int.{ℤ, pos, negsuc, two64}
use deqin_actor.Metrics.{
  Metrics, zeros, bounds, new_metrics, search, bump, observe_latency, cumulative,
}

-- The metrics after the observations of a list, the latest first.
unfoldable pub observe_all : Metrics → List ℤ → Metrics
observe_all m [] = m
observe_all m (d ∷ ds) = observe_latency (observe_all m ds) d

-- How many of the durations are not negative and at most `b`.
abbrev pub within : ℕ → List ℤ → ℕ
within b [] = 0
within b (pos d ∷ ds) = (if leb d b then 1 else 0) + within b ds
within b (negsuc d ∷ ds) = within b ds

abbrev observed : List ℤ → ℕ
observed [] = 0
observed (pos d ∷ ds) = 1 + observed ds
observed (negsuc d ∷ ds) = observed ds

abbrev pub withins : List ℕ → List ℤ → List ℕ
withins [] ds = observed ds ∷ []
withins (b ∷ bs) ds = within b ds ∷ withins bs ds

abbrev AllAbove : ℕ → List ℕ → Type 0
AllAbove d [] = Unit {0}
AllAbove d (b ∷ bs) = (d ≤ b) × AllAbove d bs

-- The bounds go up.
abbrev IsRising : List ℕ → Type 0
IsRising [] = Unit {0}
IsRising (b ∷ bs) = AllAbove b bs × IsRising bs

-- The counts of the buckets, after those of buckets that hold `base` durations.
abbrev Tallies : ℕ → List ℕ → List ℕ → List ℤ → Type 0
Tallies base [] [] ds = ⊥
Tallies base [] (c ∷ []) ds = base + c ≡ observed ds
Tallies base [] (c ∷ c' ∷ cs) ds = ⊥
Tallies base (b ∷ bs) [] ds = ⊥
Tallies base (b ∷ bs) (c ∷ cs) ds = (base + c ≡ within b ds) × Tallies (base + c) bs cs ds

AllAbove-trans : (d b : ℕ) (bs : List ℕ) → d ≤ b → AllAbove b bs → AllAbove d bs
AllAbove-trans d b [] h hs = tt
AllAbove-trans d b (c ∷ bs) h hs = (omega (arith, hs.0), AllAbove-trans d b bs h hs.1)

within-le : (b : ℕ) (ds : List ℤ) → within b ds ≤ observed ds
within-le b [] = omega arith
within-le b (pos d ∷ ds) = ground (arith, within-le b ds)
within-le b (negsuc d ∷ ds) = within-le b ds

-- A duration in an earlier bucket.
Tallies-shift :
    (bs cs : List ℕ) (base base' d : ℕ) (ds : List ℤ)
    → base' ≡ base + 1
    → AllAbove d bs
    → Tallies base bs cs ds
    → Tallies base' bs cs (pos d ∷ ds)
Tallies-shift [] [] base base' d ds e hs t = t
Tallies-shift [] (c ∷ []) base base' d ds e hs t = omega arith
Tallies-shift [] (c ∷ c' ∷ cs) base base' d ds e hs t = t
Tallies-shift (b ∷ bs) [] base base' d ds e hs t = t
Tallies-shift (b ∷ bs) (c ∷ cs) base base' d ds e hs t = (
  ground (arith, t.0, hs.0),
  Tallies-shift bs cs (base + c) (base' + c) d ds (omega arith) hs.1 t.1,
)

-- A duration in the bucket that the search finds.
Tallies-bump :
    (bs cs : List ℕ) (base d : ℕ) (ds : List ℤ)
    → IsRising bs
    → observed ds + 1 < two64
    → Tallies base bs cs ds
    → Tallies base bs (bump cs (search bs d)) (pos d ∷ ds)
Tallies-bump [] [] base d ds r small t = t
Tallies-bump [] (c ∷ []) base d ds r small t = omega arith
Tallies-bump [] (c ∷ c' ∷ cs) base d ds r small t = t
Tallies-bump (b ∷ bs) [] base d ds r small t = t
Tallies-bump (b ∷ bs) (c ∷ cs) base d ds r small t = elim (dec_le d b) [
  | yes h ↦
      let le : leb d b ≡ true = le→leb d b h in
      let fits : (c + 1) % two64 ≡ c + 1 = omega (arith, within-le b ds, t.0) in
      rw (le, fits)
        (
          ground (arith, t.0),
          Tallies-shift bs cs (base + c) (base + (c + 1)) d ds (omega arith)
              (AllAbove-trans d b bs h r.0) t.1,
        )
  | no h ↦
      let gt : leb d b ≡ false = lt→leb d b (omega arith) in
      rw gt (ground (arith, t.0), Tallies-bump bs cs (base + c) d ds r.1 small t.1)
]

Tallies-zeros : (bs : List ℕ) (base : ℕ) → base ≡ 0 → Tallies base bs (zeros (suc (length bs))) []
Tallies-zeros [] base e = omega arith
Tallies-zeros (b ∷ bs) base e = (omega arith, Tallies-zeros bs (base + 0) (omega arith))

cumulative-Tallies :
    (bs cs : List ℕ) (base : ℕ) (ds : List ℤ)
    → observed ds < two64
    → Tallies base bs cs ds
    → cumulative base cs ≡ withins bs ds
cumulative-Tallies [] [] base ds small t = absurd t
cumulative-Tallies [] (c ∷ []) base ds small t =
    let e : (base + c) % two64 ≡ observed ds = omega arith in ap (λ n. n ∷ []) e
cumulative-Tallies [] (c ∷ c' ∷ cs) base ds small t = absurd t
cumulative-Tallies (b ∷ bs) [] base ds small t = absurd t
cumulative-Tallies (b ∷ bs) (c ∷ cs) base ds small t =
    let fits : (base + c) % two64 ≡ base + c = omega (arith, t.0, within-le b ds) in
    rw fits (ap₂ (λ n ns. n ∷ ns) t.0 (cumulative-Tallies bs cs (base + c) ds small t.1))

observed-le : (ds : List ℤ) → observed ds ≤ length ds
observed-le [] = omega arith
observed-le (pos d ∷ ds) = omega (arith, observed-le ds)
observed-le (negsuc d ∷ ds) = omega (arith, observed-le ds)

abbrev all_above : ℕ → List ℕ → Bool
all_above d [] = true
all_above d (b ∷ bs) = leb d b && all_above d bs

abbrev is_rising : List ℕ → Bool
is_rising [] = true
is_rising (b ∷ bs) = all_above b bs && is_rising bs

all_above-AllAbove : (d : ℕ) (bs : List ℕ) → all_above d bs ≡ true → AllAbove d bs
all_above-AllAbove d [] e = tt
all_above-AllAbove d (b ∷ bs) e = (ground arith, all_above-AllAbove d bs (ground arith))

is_rising-IsRising : (bs : List ℕ) → is_rising bs ≡ true → IsRising bs
is_rising-IsRising [] e = tt
is_rising-IsRising (b ∷ bs) e =
    (all_above-AllAbove b bs (ground arith), is_rising-IsRising bs (ground arith))

-- A negative duration.
Tallies-ignore :
    (bs cs : List ℕ) (base d : ℕ) (ds : List ℤ)
    → Tallies base bs cs ds
    → Tallies base bs cs (negsuc d ∷ ds)
Tallies-ignore [] [] base d ds t = t
Tallies-ignore [] (c ∷ []) base d ds t = t
Tallies-ignore [] (c ∷ c' ∷ cs) base d ds t = t
Tallies-ignore (b ∷ bs) [] base d ds t = t
Tallies-ignore (b ∷ bs) (c ∷ cs) base d ds t = (t.0, Tallies-ignore bs cs (base + c) d ds t.1)

observe_latency-buckets : (m : Metrics) (d : ℤ) → (observe_latency m d).lat_buckets ≡ m.lat_buckets
unfolding observe_latency
observe_latency-buckets m (pos d) = refl
observe_latency-buckets m (negsuc d) = refl

observe_all-buckets : (ds : List ℤ) → (observe_all new_metrics ds).lat_buckets ≡ bounds
unfolding observe_all new_metrics
observe_all-buckets [] = refl
observe_all-buckets (d ∷ ds) =
    observe_latency-buckets (observe_all new_metrics ds) d ∙ observe_all-buckets ds

observe_all-Tallies :
    (ds : List ℤ) → length ds < two64 → Tallies 0 bounds (observe_all new_metrics ds).lat_counts ds
unfolding observe_all observe_latency new_metrics
observe_all-Tallies [] small = Tallies-zeros bounds 0 refl
observe_all-Tallies (negsuc d ∷ ds) small =
    Tallies-ignore bounds (observe_all new_metrics ds).lat_counts 0 d ds
      (observe_all-Tallies ds (omega arith))
observe_all-Tallies (pos d ∷ ds) small =
    let cs = (observe_all new_metrics ds).lat_counts in
    subst (λ bs. Tallies 0 bounds (bump cs (search bs d)) (pos d ∷ ds))
      (sym (observe_all-buckets ds))
      (Tallies-bump bounds cs 0 d ds (is_rising-IsRising bounds refl)
        (omega (arith, observed-le ds)) (observe_all-Tallies ds (omega arith)))

-- After any observations, fewer than 2^64, the cumulative counts of the histogram are, for each
-- bound, the number of durations that are not negative and at most the bound, and in the end the
-- number of all durations that are not negative.
pub histogram_counts :
    (ds : List ℤ)
    → length ds < two64
    → cumulative 0 (observe_all new_metrics ds).lat_counts ≡ withins bounds ds
histogram_counts ds small =
    cumulative-Tallies bounds (observe_all new_metrics ds).lat_counts 0 ds
      (omega (arith, observed-le ds)) (observe_all-Tallies ds small)
