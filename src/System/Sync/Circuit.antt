-- ===== src/System/Sync/Circuit.antt =====
-- How the circuit breaker of actor/breaker.go stops the requests of actor/ask.go to an actor that
-- fails.
use deqin_actor.Base.{
  ℕ, ◌+◌, ◌<◌, ◌≡◌, ap, ◌∙◌, if◌then◌else◌, Bool, true, false, Option, none, some, List, [],
}
use deqin_actor.Base.Int.{ℤ, two64}
use deqin_actor.Base.Time.{unix_nano}
use deqin_actor.Base.Str.{Str, same, same_self}
use deqin_actor.Types.{Message, Target, SendOptions}
use deqin_actor.Breaker
use deqin_actor.Breaker.{
  CircuitBreaker, breaker_closed, breaker_open, breaker_half_open, Call, allows, succeeds, fails,
  step,
}
use deqin_actor.Breaker.Opened.{StillEarly, refuses_later, trips-Opened}
use deqin_actor.Breaker.Invariant.{no_success, count_fails}
use deqin_actor.Ask
use deqin_actor.Ask.{Asking, Begun, circuit_open, when_allowed, with_token, try_acquire, allowed}
use deqin_actor.Ask.Reported.{call_of}
use deqin_actor.System.{System, Host, Reply, target_id, breaker_for, found_breaker}
use deqin_actor.System.Sync.{begun_with, begin_ask, requested, ask, end_ask, answer_of}
use deqin_actor.System.Sync.Breakers.{
  AskEvent, calls_on, run_asks, breaker_per_target, end_ask-breakers, end_ask-actors,
  run_asks-actors,
}

module _ {V : Type 0} where
  begin_ask-refused :
      (s : System V) (t : Target) (d : Bool) (now : ℤ) (id : Str) (b : CircuitBreaker)
      → target_id s.actors t ≡ id
      → same id [] ≡ false
      → s.breakers id ≡ some b
      → (Breaker.allow b now).1 ≡ false
      → (begin_ask s (some t) d now).1 ≡ circuit_open
  unfolding begin_ask breaker_for Ask.ask_begin
  begin_ask-refused s t d now id b e named h refuses =
      ap
        (λ i.
          (begun_with i d now
            (if same i [] then (s, none) else found_breaker s i (s.breakers i))).1)
        e
      ∙ ap
          (λ c.
            (begun_with id d now (if c then (s, none) else found_breaker s id (s.breakers id))).1)
          named
      ∙ ap (λ o. (begun_with id d now (found_breaker s id o)).1) h
      ∙ ap
          (λ c.
            (when_allowed (record { breaker = some b; wait_tokens = s.wait_tokens }) d
              (some (Breaker.allow b now).0, c)).1)
          refuses

  ask-refused :
      (host : Host) (s : System V) (times : List ℤ) (cid : Str) (f addr : ℕ) (t : Option Target)
      (msg : Message V) (opt : SendOptions) (now : ℤ)
      → (begin_ask s t opt.allow_degrade now).1 ≡ circuit_open
      → ((ask host s times cid f addr t msg opt now).1 ≡ circuit_open)
        × ((ask host s times cid f addr t msg opt now).2 ≡ none)
  unfolding ask
  ask-refused host s times cid f addr t msg opt now e =
      let m = (begin_ask s t opt.allow_degrade now).0 in
      (
        ap (λ q. (requested host times cid f addr t msg opt (m, q)).1) e,
        ap (λ q. (requested host times cid f addr t msg opt (m, q)).2) e,
      )

  -- The breaker of the target once a request has failed.
  breaker_after :
      (s : System V) (es : List (AskEvent V)) (t : Target) (id : Str) (b : CircuitBreaker)
      (reply : Option (Reply V)) (now latency : ℤ)
      → target_id s.actors t ≡ id
      → same id [] ≡ false
      → s.breakers id ≡ some b
      → call_of (answer_of reply) now ≡ fails now
      → (end_ask (run_asks s es) (some t) reply now latency).0.breakers id
        ≡ some (Breaker.on_failure (Breaker.run b (calls_on s.actors id es)) now)
  unfolding step
  breaker_after s es t id b reply now latency e named h failing =
      let m = run_asks s es in
      let c = Breaker.run b (calls_on s.actors id es) in
      end_ask-breakers m (some t) reply now latency id c named
        (breaker_per_target s es id b named h)
      ∙ ap (λ i. some (if same id i then step c (call_of (answer_of reply) now) else c))
          (ap (λ a. target_id a t) (run_asks-actors es s) ∙ e)
      ∙ ap (λ q. some (if q then step c (call_of (answer_of reply) now) else c)) (same_self id)
      ∙ ap (λ call. some (step c call)) failing

  -- The target's breaker is closed and has no failures counted. Any requests begin and end, to any
  -- targets, such that none to this target succeeds and one more failure makes the threshold.
  -- Then a request to this target ends with no answer or with an error. After it any other requests
  -- begin and end, to any targets, such that none to this target succeeds (the failures that the
  -- breaker counts stay below 2^64), and those to this target that begin do so within the breaker's
  -- waiting time. An `Ask` of the target within that time returns `ErrCircuitOpen`, and sends nothing.
  -- The waiting time runs from the last failure of a request to this target.
  pub circuit_opens :
      (host : Host) (s : System V) (es more : List (AskEvent V)) (t : Target) (id : Str)
      (b : CircuitBreaker) (reply : Option (Reply V)) (now latency later : ℤ) (times : List ℤ)
      (cid : Str) (f addr : ℕ) (msg : Message V) (opt : SendOptions)
      → target_id s.actors t ≡ id
      → same id [] ≡ false
      → s.breakers id ≡ some b
      → b.state ≡ breaker_closed
      → b.failures ≡ 0
      → no_success (calls_on s.actors id es) ≡ true
      → count_fails (calls_on s.actors id es) + 1 ≡ b.threshold
      → call_of (answer_of reply) now ≡ fails now
      → b.threshold + count_fails (calls_on s.actors id more) < two64
      → StillEarly b.open_for (unix_nano now) (calls_on s.actors id more) later
      → let s' = run_asks (end_ask (run_asks s es) (some t) reply now latency).0 more in
        ((ask host s' times cid f addr (some t) msg opt later).1 ≡ circuit_open)
        × ((ask host s' times cid f addr (some t) msg opt later).2 ≡ none)
  circuit_opens host s es more t id b reply now latency later times cid f addr msg opt e named h
        closed fresh quiet count failing small early =
      let cs = calls_on s.actors id es in
      let c = Breaker.run b cs in
      let m = (end_ask (run_asks s es) (some t) reply now latency).0 in
      let s' = run_asks m more in
      let same_actors : m.actors ≡ s.actors =
        end_ask-actors (run_asks s es) (some t) reply now latency ∙ run_asks-actors es s in
      let after =
        breaker_per_target m more id (Breaker.on_failure c now) named
          (breaker_after s es t id b reply now latency e named h failing)
        ∙ ap (λ actors. some (Breaker.run (Breaker.on_failure c now) (calls_on actors id more)))
            same_actors in
      ask-refused host s' times cid f addr (some t) msg opt later (
        begin_ask-refused s' t opt.allow_degrade later id _
          (ap (λ a. target_id a t) (run_asks-actors more m ∙ same_actors) ∙ e) named after
          (refuses_later (unix_nano now) b.open_for later (calls_on s.actors id more) _
            (trips-Opened b cs now _ closed fresh quiet count small) early))
