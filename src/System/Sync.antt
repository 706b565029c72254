-- ===== src/System/Sync.antt =====
-- actor/ask.go: `Ask` of an actor in a system, with the breaker of its target, the wait tokens and the
-- request that it sends.
pub mod Breakers
pub mod Circuit
mod Tests
use deqin_actor.Base.{
  ℕ, zero, suc, ◌+◌, ◌-◌, ◌*◌, ◌/◌, ◌%◌, ◌^◌, ◌≤◌, ◌<◌, min, max, ◌≡◌, ◌≢◌, ◌↔◌, ◌⊎◌, inl, inr,
  refl, sym, ap, ap₂, ◌∙◌, arith, tests, if◌then◌else◌, ltb, leb, ◌==◌, ltb→lt, lt→ltb, le→ltb,
  leb→le, le→leb, lt→leb, ==_iff, Bool-cases, Option-cases, Bool, true, false, not, ◌&&◌, ◌||◌,
  Option, none, some, List, [], ◌∷◌, ◌++◌, map, append-nil, append_assoc, length, get_elem?, set,
  take, drop, length-append, length-set, get_elem?-set_self, get_elem?-set_ne, get_elem?-eq_some,
  get_elem?-append_left, get_elem?-append_end, dec_lt, dec_le, ℕ_discrete,
}
use deqin_actor.Base.Int.{ℤ, pos}
use deqin_actor.Base.Time.{second}
use deqin_actor.Base.Str.{Str, same, put_key}
use deqin_actor.Types.{Error, Message, Target, SendOptions}
use deqin_actor.Breaker.{CircuitBreaker}
use deqin_actor.Ask
use deqin_actor.Ask.{
  Asking, Begun, circuit_open, degraded_to_async, blocks, awaits, Answer, no_answer, failed,
  answered, Asked,
}
use deqin_actor.Metrics.{Metrics, observe_latency}
use deqin_actor.System.{System, BaseActor, Host, Reply, target_id, breaker_for}
use deqin_actor.System.Async.{or_timeout, Sent, send_async, sync_options}

-- The breaker is written where the system keeps it.
abbrev pub put_breaker :
    (Str → Option CircuitBreaker) → Str → Option CircuitBreaker → Str → Option CircuitBreaker
put_breaker m id none = m
put_breaker m id (some b) = put_key m id b

-- The options of the request that `Ask` sends.
abbrev request_options : SendOptions → SendOptions
request_options o = record o {
  timeout = or_timeout o.timeout (pos (5 * second));
  allow_degrade = false;
}

abbrev observed : Option Metrics → ℤ → Option Metrics
observed none latency = none
observed (some m) latency = some (observe_latency m latency)

module _ {V : Type 0} where
  abbrev pub id_of_target : (ℕ → Option (BaseActor V)) → Option Target → Str
  id_of_target actors none = []
  id_of_target actors (some t) = target_id actors t

  abbrev stored_asking : System V → Str → Asking → System V
  stored_asking s id a = record s {
    breakers = put_breaker s.breakers id a.breaker;
    wait_tokens = a.wait_tokens;
  }

  abbrev pub begun_with : Str → Bool → ℤ → System V × Option CircuitBreaker → System V × Begun
  begun_with id allow_degrade now (s, b) =
      let (a, begun) =
        Ask.ask_begin (record { breaker = b; wait_tokens = s.wait_tokens }) allow_degrade now in
      (stored_asking s id a, begun)

  -- `Ask` up to its request or its refusal, or to where it blocks.
  unfoldable pub begin_ask : System V → Option Target → Bool → ℤ → System V × Begun
  begin_ask s t allow_degrade now =
      begun_with (id_of_target s.actors t) allow_degrade now (breaker_for s t)

  -- The request, if it has come so far.
  abbrev pub requested :
      Host
      → List ℤ
      → Str
      → ℕ
      → ℕ
      → Option Target
      → Message V
      → SendOptions
      → System V × Begun
      → System V × Begun × Option (Sent V)
  requested host times cid f addr t msg opt (s, circuit_open) = (s, circuit_open, none)
  requested host times cid f addr t msg opt (s, blocks) = (s, blocks, none)
  requested host times cid f addr t msg opt (s, degraded_to_async) = (
    s,
    degraded_to_async,
    some (send_async host s times cid f addr t msg (some (request_options opt))),
  )
  requested host times cid f addr t msg opt (s, awaits) =
      (s, awaits, some (send_async host s times cid f addr t msg (some (request_options opt))))

  -- `Ask` up to its wait.
  unfoldable pub ask :
      Host
      → System V
      → List ℤ
      → Str
      → ℕ
      → ℕ
      → Option Target
      → Message V
      → SendOptions
      → ℤ
      → System V × Begun × Option (Sent V)
  ask host s times cid f addr t msg opt now =
      requested host times cid f addr t msg opt (begin_ask s t opt.allow_degrade now)

  -- `SyncAsk` is `Ask` with its own default for the options.
  unfoldable sync_ask :
      Host
      → System V
      → List ℤ
      → Str
      → ℕ
      → ℕ
      → Option Target
      → Message V
      → Option SendOptions
      → ℤ
      → System V × Begun × Option (Sent V)
  sync_ask host s times cid f addr t msg opts now =
      ask host s times cid f addr t msg (sync_options opts) now

  -- What `Await` gives: nothing, or a response.
  abbrev pub answer_of : Option (Reply V) → Answer
  answer_of none = no_answer
  answer_of (some (v, none)) = answered
  answer_of (some (v, some e)) = failed

  abbrev pub held : System V → Str → Option CircuitBreaker
  held s id = if same id [] then none else s.breakers id

  -- `Ask` from its wait on, with what `Await` gives, the time, and how long it has waited.
  unfoldable pub end_ask : System V → Option Target → Option (Reply V) → ℤ → ℤ → System V × Asked
  end_ask s t reply now latency =
      let id = id_of_target s.actors t in
      let (a, asked) =
        Ask.ask_end (record { breaker = held s id; wait_tokens = s.wait_tokens }) (answer_of reply)
          now in
      (record (stored_asking s id a) { metrics = observed s.metrics latency }, asked)
