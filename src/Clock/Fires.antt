-- ===== src/Clock/Fires.antt =====
-- When the timers of testkit/clock.go fire.
use deqin_actor.Base.{
  ℕ, ◌≡◌, inl, inr, refl, sym, ap, ap₂, ◌∙◌, arith, if◌then◌else◌, ◌==◌, Bool-cases, true, Option,
  none, some, List, [], ◌∷◌, ◌++◌,
}
use deqin_actor.Base.Int.{ℤ, leb_ℤ, ◌+ℤ◌}
use deqin_actor.Clock.{FakeTimer, FakeClock, after, left, fire, advance}

-- What the timers send over a series of calls of `Advance`.
unfoldable pub run : FakeClock → List ℤ → List (ℕ × ℤ)
run c [] = []
run c (d ∷ ds) = (advance c d).1 ++ run (advance c d).0 ds

-- What one of the timers sends.
abbrev pub only : ℕ → List (ℕ × ℤ) → List (ℕ × ℤ)
only n [] = []
only n ((k, t) ∷ xs) = if k == n then (k, t) ∷ only n xs else only n xs

abbrev mine : ℕ → List FakeTimer → List FakeTimer
mine n [] = []
mine n (t ∷ ts) = if t.name == n then t ∷ mine n ts else mine n ts

-- The first time that the clock shows at or after `at`.
abbrev pub first_reached : ℤ → ℤ → List ℤ → Option ℤ
first_reached at now [] = none
first_reached at now (d ∷ ds) =
    if leb_ℤ at (now +ℤ d) then some (now +ℤ d) else first_reached at (now +ℤ d) ds

abbrev pub sent : ℕ → Option ℤ → List (ℕ × ℤ)
sent n none = []
sent n (some t) = (n, t) ∷ []

only-append : (n : ℕ) (xs ys : List (ℕ × ℤ)) → only n (xs ++ ys) ≡ only n xs ++ only n ys
only-append n [] ys = refl
only-append n ((k, t) ∷ xs) ys = elim (Bool-cases (k == n)) [
  | inl e ↦ rw e (ap (λ zs. (k, t) ∷ zs) (only-append n xs ys))
  | inr e ↦ rw e (only-append n xs ys)
]

only-fire : (n : ℕ) (now : ℤ) (ts : List FakeTimer) → only n (fire now ts) ≡ fire now (mine n ts)
only-fire n now [] = refl
only-fire n now (t ∷ ts) = elim (Bool-cases (t.name == n)) [
  | inl e ↦ elim (Bool-cases (leb_ℤ t.at now)) [
    | inl f ↦ rw (e, f, e) (ap (λ zs. (t.name, now) ∷ zs) (only-fire n now ts))
    | inr f ↦ rw (e, f) (only-fire n now ts)
  ]
  | inr e ↦ elim (Bool-cases (leb_ℤ t.at now)) [
    | inl f ↦ rw (e, f, e) (only-fire n now ts)
    | inr f ↦ rw (e, f) (only-fire n now ts)
  ]
]

mine-left : (n : ℕ) (now : ℤ) (ts : List FakeTimer) → mine n (left now ts) ≡ left now (mine n ts)
mine-left n now [] = refl
mine-left n now (t ∷ ts) = elim (Bool-cases (t.name == n)) [
  | inl e ↦ elim (Bool-cases (leb_ℤ t.at now)) [
    | inl f ↦ rw (e, f) (mine-left n now ts)
    | inr f ↦ rw (e, f, e) (ap (λ zs. t ∷ zs) (mine-left n now ts))
  ]
  | inr e ↦ elim (Bool-cases (leb_ℤ t.at now)) [
    | inl f ↦ rw (e, f) (mine-left n now ts)
    | inr f ↦ rw (e, f, e) (mine-left n now ts)
  ]
]

run-none : (ds : List ℤ) (n : ℕ) (c : FakeClock) → mine n c.tmrs ≡ [] → only n (run c ds) ≡ []
unfolding run advance
run-none [] n c h = refl
run-none (d ∷ ds) n c h =
    only-append n (fire (c.now +ℤ d) c.tmrs) (run (advance c d).0 ds)
    ∙ ap₂ (λ xs ys. xs ++ ys) (only-fire n (c.now +ℤ d) c.tmrs ∙ ap (fire (c.now +ℤ d)) h)
        (run-none ds n (advance c d).0 (mine-left n (c.now +ℤ d) c.tmrs ∙ ap (left (c.now +ℤ d)) h))

run-one :
    (ds : List ℤ) (n : ℕ) (c : FakeClock) (at : ℤ)
    → mine n c.tmrs ≡ record { name = n; at = at } ∷ []
    → only n (run c ds) ≡ sent n (first_reached at c.now ds)
unfolding run advance
run-one [] n c at h = refl
run-one (d ∷ ds) n c at h =
    let now = c.now +ℤ d in
    let fired = only-fire n now c.tmrs ∙ ap (fire now) h in
    let kept = mine-left n now c.tmrs ∙ ap (left now) h in
    only-append n (fire now c.tmrs) (run (advance c d).0 ds) ∙ (elim (Bool-cases (leb_ℤ at now)) [
      | inl e ↦
          ap₂ (λ xs ys. xs ++ ys) (fired ∙ ap (λ b. if b then (n, now) ∷ [] else []) e)
            (run-none ds n (advance c d).0
              (kept ∙ ap (λ b. if b then [] else record { name = n; at = at } ∷ []) e))
          ∙ ap (λ b. sent n (if b then some now else first_reached at now ds)) (sym e)
      | inr e ↦
          ap₂ (λ xs ys. xs ++ ys) (fired ∙ ap (λ b. if b then (n, now) ∷ [] else []) e)
            (run-one ds n (advance c d).0 at
              (kept ∙ ap (λ b. if b then [] else record { name = n; at = at } ∷ []) e))
          ∙ ap (λ b. sent n (if b then some now else first_reached at now ds)) (sym e)
    ])

mine-append : (n : ℕ) (ts us : List FakeTimer) → mine n (ts ++ us) ≡ mine n ts ++ mine n us
mine-append n [] us = refl
mine-append n (t ∷ ts) us = elim (Bool-cases (t.name == n)) [
  | inl e ↦ rw e (ap (λ zs. t ∷ zs) (mine-append n ts us))
  | inr e ↦ rw e (mine-append n ts us)
]

-- A timer that `After` makes with a name of its own fires exactly once in any series of calls of
-- `Advance`, by whatever durations: with the first time of the clock that is at or after its own, and
-- not at all if the clock never gets there.
pub timer_fires_once :
    (c : FakeClock) (d : ℤ) (n : ℕ) (ds : List ℤ)
    → mine n c.tmrs ≡ []
    → only n (run (after c d n) ds) ≡ sent n (first_reached (c.now +ℤ d) c.now ds)
unfolding after
timer_fires_once c d n ds h = run-one ds n (after c d n) (c.now +ℤ d) (
    mine-append n c.tmrs (record { name = n; at = c.now +ℤ d } ∷ [])
    ∙ ap (λ ts. ts ++ mine n (record { name = n; at = c.now +ℤ d } ∷ [])) h
    ∙ ap (λ b. if b then record { name = n; at = c.now +ℤ d } ∷ [] else []) (self_test n))
  where
    self_test : (n : ℕ) → (n == n) ≡ true
    self_test n = ground arith
