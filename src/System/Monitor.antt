-- ===== src/System/Monitor.antt =====
-- actor/metrics.go: the metrics of a system, and the numbers that they are reported by.
use deqin_actor.Base.{ℕ, if◌then◌else◌, Option, none, some, List, [], ◌∷◌}
use deqin_actor.Base.Int.{ℤ, pos, is_zero, add64, mul64}
use deqin_actor.Base.Time.{second, sub_time}
use deqin_actor.Base.Str.{Str}
use deqin_actor.Types.{Target, base_actor, actor_ref, other_actor}
use deqin_actor.Mailbox
use deqin_actor.Registry
use deqin_actor.Metrics.{Metrics, new_metrics, mark_start, cumulative}
use deqin_actor.System.{System, BaseActor}

-- What `writeMetrics` reports: `buckets` are the cumulative counts of the histogram, the last of them
-- all observations; the sum and the uptime are in nanoseconds.
pub record Report : Type 0 where
  messages_out : ℕ
  messages_in : ℕ
  backlog : ℤ
  pub restarts : ℕ
  pub buckets : List ℕ
  sum_ns : ℕ
  uptime : ℤ

abbrev or_new : Option Metrics → Metrics
or_new none = new_metrics
or_new (some m) = m

abbrev started_or : ℤ → ℤ → ℤ
started_or started now = if is_zero started then now else started

module _ {V : Type 0} where
  -- `EnableMetrics` without the server that it starts; the argument is the time in seconds.
  unfoldable enable_metrics : System V → ℤ → System V
  enable_metrics s unix_now = record s { metrics = some (mark_start (or_new s.metrics) unix_now) }

  abbrev backlog_of : Option (BaseActor V) → ℤ
  backlog_of none = pos 0
  backlog_of (some a) = Mailbox.len a.mailbox

  abbrev backlog_at : System V → Option (Option Target) → ℤ
  backlog_at s none = pos 0
  backlog_at s (some none) = pos 0
  backlog_at s (some (some (base_actor addr))) = backlog_of (s.actors addr)
  backlog_at s (some (some (actor_ref id))) = pos 0
  backlog_at s (some (some (other_actor id n))) = pos 0

  -- The sum over the keys of the snapshot, in the order in which the loop takes them.
  unfoldable backlog_over : System V → ℤ → List Str → ℤ
  backlog_over s sum [] = sum
  backlog_over s sum (id ∷ ids) =
      backlog_over s (add64 sum (backlog_at s (Registry.snapshot s.registry id))) ids

  abbrev reported_by : System V → List Str → ℤ → ℤ → Option Metrics → Option Report
  reported_by s ids unix_now now none = none
  reported_by s ids unix_now now (some m) = some (record {
    messages_out = m.msg_out;
    messages_in = m.msg_in;
    backlog = backlog_over s (pos 0) ids;
    restarts = m.restarts;
    buckets = cumulative 0 m.lat_counts;
    sum_ns = m.lat_sum_ns;
    uptime = sub_time now (mul64 (started_or m.started_at unix_now) (pos second));
  })

  -- `writeMetrics`, by the numbers that it prints; `none` if there are no metrics. The time is given
  -- in seconds and in nanoseconds.
  unfoldable write_metrics : System V → List Str → ℤ → ℤ → Option Report
  write_metrics s ids unix_now now = reported_by s ids unix_now now s.metrics
