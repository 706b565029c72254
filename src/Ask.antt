-- ===== src/Ask.antt =====
-- actor/ask.go and the wait tokens of actor/system.go: the requests to one target, each in two steps,
-- up to its wait and from there on, so that many of them may wait at once. The request that is sent,
-- and the response that comes back, are seen by what `Await` returns.
mod Tests
pub mod Tokens
pub mod Reported
pub mod Degraded
use deqin_actor.Base.{
  ℕ, zero, suc, ◌+◌, ◌-◌, ◌*◌, ◌/◌, ◌%◌, ◌^◌, ◌≤◌, ◌<◌, min, max, ◌≡◌, ◌≢◌, ◌↔◌, ◌⊎◌, inl, inr,
  refl, sym, ap, ap₂, ◌∙◌, arith, tests, if◌then◌else◌, ltb, leb, ◌==◌, ltb→lt, lt→ltb, le→ltb,
  leb→le, le→leb, lt→leb, ==_iff, Bool-cases, Option-cases, Bool, true, false, not, ◌&&◌, ◌||◌,
  Option, none, some, List, [], ◌∷◌, ◌++◌, map, append-nil, append_assoc, length, get_elem?, set,
  take, drop, length-append, length-set, get_elem?-set_self, get_elem?-set_ne, get_elem?-eq_some,
  get_elem?-append_left, get_elem?-append_end, dec_lt, dec_le, ℕ_discrete,
}
use mathlib.Core.Option
use deqin_actor.Base.Int.{ℤ}
use deqin_actor.Breaker
use deqin_actor.Breaker.{CircuitBreaker, on_success, on_failure}

-- The capacity of `waitTokens`.
abbrev pub max_waits : ℕ
max_waits = 4096

-- The breaker of the target, which has none if it has no id, and how many tokens are taken.
pub record Asking : Type 0 where
  pub breaker : Option CircuitBreaker
  pub wait_tokens : ℕ

-- How `Ask` comes to its wait: the breaker refuses it, it degrades to an asynchronous request, it
-- blocks until there is a token, or it waits for the response.
pub data Begun : Type 0 where
  circuit_open : Begun
  degraded_to_async : Begun
  blocks : Begun
  awaits : Begun

-- `tryAcquireWaitToken`
unfoldable pub try_acquire : Asking → Asking × Bool
try_acquire s =
    if ltb s.wait_tokens max_waits
    then (record s { wait_tokens = s.wait_tokens + 1 }, true)
    else (s, false)

-- `releaseWaitToken`
unfoldable pub release : Asking → Asking
release s = if s.wait_tokens == 0 then s else record s { wait_tokens = s.wait_tokens - 1 }

abbrev pub allowed : Option CircuitBreaker → ℤ → Option CircuitBreaker × Bool
allowed none now = (none, true)
allowed (some b) now = (some (Breaker.allow b now).0, (Breaker.allow b now).1)

abbrev pub with_token : Bool → Asking × Bool → Asking × Begun
with_token allow_degrade (s, true) = (s, awaits)
with_token true (s, false) = (s, degraded_to_async)
with_token false (s, false) = (s, blocks)

abbrev pub when_allowed : Asking → Bool → Option CircuitBreaker × Bool → Asking × Begun
when_allowed s allow_degrade (b, false) = (record s { breaker = b }, circuit_open)
when_allowed s allow_degrade (b, true) =
    with_token allow_degrade (try_acquire (record s { breaker = b }))

-- `Ask` up to its wait.
unfoldable pub ask_begin : Asking → Bool → ℤ → Asking × Begun
ask_begin s allow_degrade now = when_allowed s allow_degrade (allowed s.breaker now)

-- A call that blocks in `acquireWaitToken` tries again.
unfoldable pub ask_resume : Asking → Asking × Begun
ask_resume s = with_token false (try_acquire s)

-- What `Await` returns: nothing, in time or with a nil response; a response with an error; one
-- without.
pub data Answer : Type 0 where
  no_answer : Answer
  failed : Answer
  answered : Answer

abbrev report : Answer → ℤ → CircuitBreaker → CircuitBreaker
report no_answer now b = on_failure b now
report failed now b = on_failure b now
report answered now b = on_success b

-- What `Ask` returns for each of them: `ErrAskTimeout`, the response's error, or no error.
pub data Asked : Type 0 where
  ask_timeout : Asked
  response_error : Asked
  no_error : Asked

abbrev result_of : Answer → Asked
result_of no_answer = ask_timeout
result_of failed = response_error
result_of answered = no_error

abbrev pub reported : Answer → ℤ → Option CircuitBreaker → Option CircuitBreaker
reported reply now none = none
reported reply now (some b) = some (report reply now b)

-- `Ask` from its wait on.
unfoldable pub ask_end : Asking → Answer → ℤ → Asking × Asked
ask_end s reply now =
    (release (record s { breaker = reported reply now s.breaker }), result_of reply)
