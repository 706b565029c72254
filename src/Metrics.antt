-- ===== src/Metrics.antt =====
-- actor/metrics.go: the counters and the histogram of latencies. The text that is served over HTTP
-- is left out, but for its cumulative counts.
mod Tests
pub mod Histogram
use deqin_actor.Base.{
  ℕ, zero, suc, ◌+◌, ◌-◌, ◌*◌, ◌/◌, ◌%◌, ◌^◌, ◌≤◌, ◌<◌, min, max, ◌≡◌, ◌≢◌, ◌↔◌, ◌⊎◌, inl, inr,
  refl, sym, ap, ap₂, ◌∙◌, arith, tests, if◌then◌else◌, ltb, leb, ◌==◌, ltb→lt, lt→ltb, le→ltb,
  leb→le, le→leb, lt→leb, ==_iff, Bool-cases, Option-cases, Bool, true, false, not, ◌&&◌, ◌||◌,
  Option, none, some, List, [], ◌∷◌, ◌++◌, map, append-nil, append_assoc, length, get_elem?, set,
  take, drop, length-append, length-set, get_elem?-set_self, get_elem?-set_ne, get_elem?-eq_some,
  get_elem?-append_left, get_elem?-append_end, dec_lt, dec_le, ℕ_discrete,
}
use deqin_actor.Base.Int.{ℤ, pos, negsuc, two64, is_zero}
use deqin_actor.Base.Time.{microsecond, millisecond}

-- `started_at` is `startedAtUnix`.
pub record Metrics : Type 0 where
  pub started_at : ℤ
  pub msg_out : ℕ
  pub msg_in : ℕ
  pub restarts : ℕ
  pub lat_buckets : List ℕ
  pub lat_counts : List ℕ
  pub lat_sum_ns : ℕ

abbrev pub zeros : ℕ → List ℕ
zeros zero = []
zeros (suc n) = 0 ∷ zeros n

abbrev pub bounds : List ℕ
bounds =
    10 * microsecond
    ∷ 50 * microsecond
    ∷ 100 * microsecond
    ∷ 500 * microsecond
    ∷ 1 * millisecond
    ∷ 2 * millisecond
    ∷ 5 * millisecond
    ∷ 10 * millisecond
    ∷ 20 * millisecond
    ∷ 50 * millisecond
    ∷ 100 * millisecond
    ∷ []

unfoldable pub new_metrics : Metrics
new_metrics = record {
  started_at = pos 0;
  msg_out = 0;
  msg_in = 0;
  restarts = 0;
  lat_buckets = bounds;
  lat_counts = zeros (length bounds + 1);
  lat_sum_ns = 0;
}

-- `time.Now().Unix()` is the argument.
unfoldable pub mark_start : Metrics → ℤ → Metrics
mark_start m now = if is_zero m.started_at then record m { started_at = now } else m

unfoldable pub inc_out : Metrics → Metrics
inc_out m = record m { msg_out = (m.msg_out + 1) % two64 }

unfoldable pub inc_in : Metrics → Metrics
inc_in m = record m { msg_in = (m.msg_in + 1) % two64 }

unfoldable inc_restart : Metrics → Metrics
inc_restart m = record m { restarts = (m.restarts + 1) % two64 }

-- What `sort.Search` finds in bounds that go up: the first one that `d` does not exceed, else their
-- number.
abbrev pub search : List ℕ → ℕ → ℕ
search [] d = 0
search (b ∷ bs) d = if leb d b then 0 else suc (search bs d)

-- `latCounts[i].Add(1)`
abbrev pub bump : List ℕ → ℕ → List ℕ
bump [] i = []
bump (c ∷ cs) zero = (c + 1) % two64 ∷ cs
bump (c ∷ cs) (suc i) = c ∷ bump cs i

unfoldable pub observe_latency : Metrics → ℤ → Metrics
observe_latency m (negsuc d) = m
observe_latency m (pos d) = record m {
  lat_sum_ns = (m.lat_sum_ns + d) % two64;
  lat_counts = bump m.lat_counts (search m.lat_buckets d);
}

-- The cumulative counts that `writeMetrics` prints, after `cum`.
abbrev pub cumulative : ℕ → List ℕ → List ℕ
cumulative cum [] = []
cumulative cum (c ∷ cs) = (cum + c) % two64 ∷ cumulative ((cum + c) % two64) cs
