-- ===== src/Breaker/Opened.antt =====
-- How the breaker of actor/breaker.go opens, and how long it stays open.
use deqin_actor.Base.{ℕ, suc, ◌+◌, ◌<◌, ◌≤◌, ◌≡◌, refl, ap, ◌∙◌, arith, true, false, List, [], ◌∷◌}
use deqin_actor.Base.Int.{ℤ, leb_ℤ, two64}
use deqin_actor.Base.Time.{sub_time, unix_nano}
use deqin_actor.Breaker.{
  CircuitBreaker, breaker_closed, breaker_open, Call, allows, succeeds, fails, step, run, allow,
  on_success, on_failure,
}
use deqin_actor.Breaker.Behaviour.{allow_too_early}
use deqin_actor.Breaker.Invariant.{no_success, count_fails, trips_at_threshold}

step-open_for : (b : CircuitBreaker) (c : Call) → (step b c).open_for ≡ b.open_for
unfolding step
step-open_for b (allows now) = ground arith
step-open_for b (succeeds) = refl
step-open_for b (fails now) = ground arith

run-open_for : (cs : List Call) (b : CircuitBreaker) → (run b cs).open_for ≡ b.open_for
unfolding run
run-open_for [] b = refl
run-open_for (c ∷ cs) b = run-open_for cs (step b c) ∙ step-open_for b c

run-threshold : (cs : List Call) (b : CircuitBreaker) → (run b cs).threshold ≡ b.threshold
unfolding run step
run-threshold [] b = refl
run-threshold (allows now ∷ cs) b = run-threshold cs (allow b now).0 ∙ ground arith
run-threshold (succeeds ∷ cs) b = run-threshold cs (on_success b) ∙ refl
run-threshold (fails now ∷ cs) b = run-threshold cs (on_failure b now) ∙ ground arith

-- The breaker has opened at `opened`. None of these calls is a success, and each `Allow`, and one at
-- `later` after them, comes less than `open_for` after the last failure before it, or after `opened`.
abbrev pub StillEarly : ℤ → ℤ → List Call → ℤ → Type 0
StillEarly open_for opened [] later = leb_ℤ open_for (sub_time later opened) ≡ false
StillEarly open_for opened (allows now ∷ cs) later =
    (leb_ℤ open_for (sub_time now opened) ≡ false) × StillEarly open_for opened cs later
StillEarly open_for opened (succeeds ∷ cs) later = ⊥
StillEarly open_for opened (fails now ∷ cs) later = StillEarly open_for (unix_nano now) cs later

-- An open breaker, which has counted as many failures as its threshold.
pub record Opened (opened open_for : ℤ) (left : ℕ) (b : CircuitBreaker) : Type 0 where
  is_open : b.state ≡ breaker_open
  since : b.opened_at_unix ≡ opened
  lasts : b.open_for ≡ open_for
  reached : b.threshold ≤ b.failures
  room : b.failures + left < two64

allow-Opened :
    (opened open_for now : ℤ) (left : ℕ) (b : CircuitBreaker)
    → Opened opened open_for left b
    → leb_ℤ open_for (sub_time now opened) ≡ false
    → allow b now ≡ (b, false)
allow-Opened opened open_for now left b h early =
    allow_too_early b now h.is_open (rw (h.lasts, h.since) early)

on_failure-Opened :
    (opened open_for now : ℤ) (left : ℕ) (b : CircuitBreaker)
    → Opened opened open_for (suc left) b
    → Opened (unix_nano now) open_for left (on_failure b now)
unfolding on_failure
on_failure-Opened opened open_for now left b h = record {
  is_open = ground (arith, h.is_open, h.reached, h.room);
  since = ground (arith, h.is_open, h.reached, h.room);
  lasts = ground (arith, h.is_open, h.lasts);
  reached = ground (arith, h.is_open, h.reached, h.room);
  room = ground (arith, h.is_open, h.reached, h.room);
}

-- The failure that makes the count reach the threshold opens the breaker.
on_failure-opens :
    (b : CircuitBreaker) (now : ℤ) (left : ℕ)
    → b.state ≡ breaker_closed
    → b.failures + 1 ≡ b.threshold
    → b.threshold + left < two64
    → Opened (unix_nano now) b.open_for left (on_failure b now)
unfolding on_failure
on_failure-opens b now left closed count small = record {
  is_open = ground arith;
  since = ground arith;
  lasts = ground arith;
  reached = ground arith;
  room = ground arith;
}

pub refuses_later :
    (opened open_for later : ℤ) (cs : List Call) (b : CircuitBreaker)
    → Opened opened open_for (count_fails cs) b
    → StillEarly open_for opened cs later
    → (allow (run b cs) later).1 ≡ false
unfolding run step count_fails
refuses_later opened open_for later [] b h early =
    ap (λ r. r.1) (allow-Opened opened open_for later 0 b h early)
refuses_later opened open_for later (allows now ∷ cs) b h early =
    ap (λ r. (allow (run r.0 cs) later).1)
      (allow-Opened opened open_for now (count_fails cs) b h early.0)
    ∙ refuses_later opened open_for later cs b h early.1
refuses_later opened open_for later (succeeds ∷ cs) b h early = absurd early
refuses_later opened open_for later (fails now ∷ cs) b h early =
    refuses_later (unix_nano now) open_for later cs (on_failure b now)
      (on_failure-Opened opened open_for now (count_fails cs) b h) early

pub trips-Opened :
    (b : CircuitBreaker) (cs : List Call) (now : ℤ) (left : ℕ)
    → b.state ≡ breaker_closed
    → b.failures ≡ 0
    → no_success cs ≡ true
    → count_fails cs + 1 ≡ b.threshold
    → b.threshold + left < two64
    → Opened (unix_nano now) b.open_for left (on_failure (run b cs) now)
trips-Opened b cs now left closed fresh quiet count small =
    let c = run b cs in
    let tripped = trips_at_threshold b cs now closed fresh (omega arith) quiet (omega arith) in
    let same_limit = run-threshold cs b in
    let h = on_failure-opens c now left tripped.0 (omega arith) (omega arith) in
    record {
      is_open = h.is_open;
      since = h.since;
      lasts = h.lasts ∙ run-open_for cs b;
      reached = h.reached;
      room = h.room;
    }
