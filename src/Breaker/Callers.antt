-- ===== src/Breaker/Callers.antt =====
-- Any number of goroutines that call `Allow` (actor/breaker.go) at once.
use deqin_actor.Base.{
  ℕ, zero, suc, ◌+◌, ◌≤◌, ◌≡◌, ◌≢◌, refl, Bool-cases, inl, inr, ◌↔◌, Bool, true, false, List, [],
  ◌∷◌, arith, if◌then◌else◌,
}
use mathlib.Core.Path.{subst}
use deqin_actor.Base.Int.{ℤ}
use deqin_actor.Breaker.{
  State, breaker_closed, breaker_open, breaker_half_open, CircuitBreaker, open_elapsed,
}
use deqin_actor.Breaker.Atomic.{
  Pc, load_state, load_opened, cas_state, reset_probe, cas_probe, returned, allow_step, after_load,
  swap_state,
}

-- A goroutine that calls `Allow` at this time, and where it stands.
pub record Caller : Type 0 where
  pub now : ℤ
  pub pc : Pc

abbrev pub calling : List ℤ → List Caller
calling [] = []
calling (now ∷ times) = record { now = now; pc = load_state } ∷ calling times

-- The goroutine at the index `i` makes its next atomic step; there may be none.
abbrev step_at : CircuitBreaker → List Caller → ℕ → CircuitBreaker × List Caller
step_at b [] i = (b, [])
step_at b (c ∷ cs) zero =
    let (b', pc') = allow_step c.now b c.pc in (b', record c { pc = pc' } ∷ cs)
step_at b (c ∷ cs) (suc i) = let (b', cs') = step_at b cs i in (b', c ∷ cs')

unfoldable pub schedule : CircuitBreaker → List Caller → List ℕ → CircuitBreaker × List Caller
schedule b cs [] = (b, cs)
schedule b cs (i ∷ is) = let (b', cs') = step_at b cs i in schedule b' cs' is

-- Whether a goroutine has passed, is about to clear the flag, or is about to take the probe.
abbrev passes : Pc → ℕ
passes (returned true) = 1
passes _ = 0

abbrev resets : Pc → ℕ
resets reset_probe = 1
resets _ = 0

abbrev probes : Pc → ℕ
probes cas_probe = 1
probes _ = 0

abbrev pub passed : List Caller → ℕ
passed [] = 0
passed (c ∷ cs) = passes c.pc + passed cs

abbrev resetting : List Caller → ℕ
resetting [] = 0
resetting (c ∷ cs) = resets c.pc + resetting cs

abbrev probing : List Caller → ℕ
probing [] = 0
probing (c ∷ cs) = probes c.pc + probing cs

abbrev free : Bool → ℕ
free true = 0
free false = 1

-- `p` goroutines have passed, `r` are about to clear the flag and `q` to take the probe: at most
-- `limit` pass in all.
abbrev Bounded : State → Bool → ℕ → ℕ → ℕ → ℕ → Type 0
Bounded breaker_closed flag limit p r q = ⊥
Bounded breaker_open flag limit p r q = (p + r + q ≡ 0) × (2 ≤ limit)
Bounded breaker_half_open flag limit p r q = p + r + free flag ≤ limit

abbrev Within : CircuitBreaker → ℕ → ℕ → ℕ → ℕ → Type 0
Within b limit p r q = Bounded b.state b.half_open_probe limit p r q

recount :
    (s : State) (flag : Bool) (limit p r q p' r' q' : ℕ)
    → p ≡ p'
    → r ≡ r'
    → q ≡ q'
    → Bounded s flag limit p r q
    → Bounded s flag limit p' r' q'
recount breaker_closed flag limit p r q p' r' q' e e' e'' h = h
recount breaker_open flag limit p r q p' r' q' e e' e'' h = (omega (arith, h.0), h.1)
recount breaker_half_open flag limit p r q p' r' q' e e' e'' h = omega arith

-- Nothing is added to the counts.
zeros :
    (s : State) (flag : Bool) (limit p r q : ℕ)
    → Bounded s flag limit p r q ↔ Bounded s flag limit (0 + p) (0 + r) (0 + q)
zeros s flag limit p r q = (
  recount s flag limit p r q (0 + p) (0 + r) (0 + q) (omega arith) (omega arith) (omega arith),
  recount s flag limit (0 + p) (0 + r) (0 + q) p r q (omega arith) (omega arith) (omega arith),
)

bounded_test :
    (s : State) (flag c : Bool) (limit p r q : ℕ)
    → Bounded s flag limit p r q
    → let pc = if c then cas_state else returned false in
      Bounded s flag limit (passes pc + p) (resets pc + r) (probes pc + q)
bounded_test s flag true limit p r q h = (zeros s flag limit p r q).0 h
bounded_test s flag false limit p r q h = (zeros s flag limit p r q).0 h

after_load-Bounded :
    (s : State) (flag : Bool) (limit p r q : ℕ)
    → Bounded s flag limit p r q
    → let pc = after_load s in Bounded s flag limit (passes pc + p) (resets pc + r) (probes pc + q)
after_load-Bounded breaker_closed flag limit p r q h = absurd h
after_load-Bounded breaker_open flag limit p r q h = ground arith
after_load-Bounded breaker_half_open flag limit p r q h = ground arith

swap_state-Within :
    (s : State) (b : CircuitBreaker) (limit p r q : ℕ)
    → b.state ≡ s
    → Bounded s b.half_open_probe limit p r q
    → let (b', pc) = swap_state s b in
      Within b' limit (passes pc + p) (resets pc + r) (probes pc + q)
swap_state-Within breaker_closed b limit p r q e h = absurd h
swap_state-Within breaker_open b limit p r q e h = ground arith
swap_state-Within breaker_half_open b limit p r q e h = rw e (omega arith)

reset-Bounded :
    (s : State) (flag : Bool) (limit p r q : ℕ)
    → Bounded s flag limit (0 + p) (1 + r) (0 + q)
    → Bounded s false limit (0 + p) (0 + r) (1 + q)
reset-Bounded breaker_closed flag limit p r q h = absurd h
reset-Bounded breaker_open flag limit p r q h = ground arith
reset-Bounded breaker_half_open flag limit p r q h = ground arith

-- The compare-and-swap of the flag.
take-Bounded :
    (s : State) (flag : Bool) (limit p r q : ℕ)
    → Bounded s flag limit (0 + p) (0 + r) (1 + q)
    → let pc = if flag then returned false else returned true in
      Bounded s true limit (passes pc + p) (resets pc + r) (probes pc + q)
take-Bounded breaker_closed flag limit p r q h = absurd h
take-Bounded breaker_open flag limit p r q h = ground arith
take-Bounded breaker_half_open true limit p r q h = ground arith
take-Bounded breaker_half_open false limit p r q h = ground arith

step-Within :
    (b : CircuitBreaker) (now : ℤ) (pc : Pc) (limit p r q : ℕ)
    → Within b limit (passes pc + p) (resets pc + r) (probes pc + q)
    → let (b', pc') = allow_step now b pc in
      Within b' limit (passes pc' + p) (resets pc' + r) (probes pc' + q)
unfolding allow_step
step-Within b now load_state limit p r q h =
    after_load-Bounded b.state b.half_open_probe limit p r q
      ((zeros b.state b.half_open_probe limit p r q).1 h)
step-Within b now load_opened limit p r q h =
    bounded_test b.state b.half_open_probe (open_elapsed b now) limit p r q
      ((zeros b.state b.half_open_probe limit p r q).1 h)
step-Within b now cas_state limit p r q h =
    swap_state-Within b.state b limit p r q refl ((zeros b.state b.half_open_probe limit p r q).1 h)
step-Within b now reset_probe limit p r q h = reset-Bounded b.state b.half_open_probe limit p r q h
step-Within b now cas_probe limit p r q h = elim (Bool-cases b.half_open_probe) [
  | inl e ↦ rw e (take-Bounded b.state true limit p r q (flagged true e))
  | inr e ↦ rw e (take-Bounded b.state false limit p r q (flagged false e))
]
  where
    flagged : (f : Bool) → b.half_open_probe ≡ f → Bounded b.state f limit (0 + p) (0 + r) (1 + q)
    flagged f e = subst (λ f. Bounded b.state f limit (0 + p) (0 + r) (1 + q)) e h
step-Within b now (returned x) limit p r q h = h

-- The counts of the other goroutines stand in `p`, `r` and `q`.
step_at-Within :
    (b : CircuitBreaker) (cs : List Caller) (i limit p r q : ℕ)
    → Within b limit (passed cs + p) (resetting cs + r) (probing cs + q)
    → let (b', cs') = step_at b cs i in
      Within b' limit (passed cs' + p) (resetting cs' + r) (probing cs' + q)
step_at-Within b [] i limit p r q h = h
step_at-Within b (c ∷ cs) zero limit p r q h =
    let (b', pc') = allow_step c.now b c.pc in
    recount b'.state b'.half_open_probe limit (passes pc' + (passed cs + p))
      (resets pc' + (resetting cs + r)) (probes pc' + (probing cs + q)) _ _ _ (omega arith)
      (omega arith) (omega arith)
      (step-Within b c.now c.pc limit (passed cs + p) (resetting cs + r) (probing cs + q) (
        recount b.state b.half_open_probe limit _ _ _ (passes c.pc + (passed cs + p))
          (resets c.pc + (resetting cs + r)) (probes c.pc + (probing cs + q)) (omega arith)
          (omega arith) (omega arith) h))
step_at-Within b (c ∷ cs) (suc i) limit p r q h =
    let (b', cs') = step_at b cs i in
    recount b'.state b'.half_open_probe limit (passed cs' + (passes c.pc + p))
      (resetting cs' + (resets c.pc + r)) (probing cs' + (probes c.pc + q)) _ _ _ (omega arith)
      (omega arith) (omega arith)
      (step_at-Within b cs i limit (passes c.pc + p) (resets c.pc + r) (probes c.pc + q) (
        recount b.state b.half_open_probe limit _ _ _ (passed cs + (passes c.pc + p))
          (resetting cs + (resets c.pc + r)) (probing cs + (probes c.pc + q)) (omega arith)
          (omega arith) (omega arith) h))

schedule-Within :
    (b : CircuitBreaker) (cs : List Caller) (is : List ℕ) (limit : ℕ)
    → Within b limit (passed cs + 0) (resetting cs + 0) (probing cs + 0)
    → let (b', cs') = schedule b cs is in
      Within b' limit (passed cs' + 0) (resetting cs' + 0) (probing cs' + 0)
unfolding schedule
schedule-Within b cs [] limit h = h
schedule-Within b cs (i ∷ is) limit h =
    let (b', cs') = step_at b cs i in
    schedule-Within b' cs' is limit (step_at-Within b cs i limit 0 0 0 h)

-- Nobody has made a step.
none_yet :
    (times : List ℤ)
    → (passed (calling times) ≡ 0) × (resetting (calling times) ≡ 0) × (probing (calling times) ≡ 0)
none_yet [] = (refl, refl, refl)
none_yet (now ∷ times) = let (p, r, q) = none_yet times in (omega arith, omega arith, omega arith)

abbrev pub most : State → ℕ
most breaker_half_open = 1
most _ = 2

Bounded-passed :
    (s : State) (flag : Bool) (limit p r q : ℕ) → Bounded s flag limit p r q → p ≤ limit
Bounded-passed breaker_closed flag limit p r q h = absurd h
Bounded-passed breaker_open flag limit p r q h = omega (arith, h.0)
Bounded-passed breaker_half_open flag limit p r q h = omega arith

starts-Bounded : (s : State) (flag : Bool) → s ≢ breaker_closed → Bounded s flag (most s) 0 0 0
starts-Bounded breaker_closed flag n = absurd (n refl)
starts-Bounded breaker_open flag n = (omega arith, omega arith)
starts-Bounded breaker_half_open true n = omega arith
starts-Bounded breaker_half_open false n = omega arith

-- Any number of goroutines call `Allow` at once, each with its own time, on a breaker that is not
-- closed, and their atomic steps interleave in any way: at most one of them passes if the breaker is
-- half open, and at most two if it is open.
pub few_probes :
    (b : CircuitBreaker) (times : List ℤ) (is : List ℕ)
    → b.state ≢ breaker_closed
    → passed (schedule b (calling times) is).1 ≤ most b.state
few_probes b times is n =
    let (p, r, q) = none_yet times in
    let (b', cs') = schedule b (calling times) is in
    let h = schedule-Within b (calling times) is (most b.state) (
      recount b.state b.half_open_probe (most b.state) 0 0 0 _ _ _ (omega arith) (omega arith)
        (omega arith) (starts-Bounded b.state b.half_open_probe n)) in
    let all = Bounded-passed b'.state b'.half_open_probe (most b.state) (passed cs' + 0) _ _ h in
    omega arith
