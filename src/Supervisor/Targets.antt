-- ===== src/Supervisor/Targets.antt =====
-- Which children a failure restarts, in actor/supervisor.go.
use deqin_actor.Base.{
  ℕ, zero, suc, ◌+◌, ◌-◌, ◌≤◌, ◌<◌, ◌≡◌, ◌↔◌, ◌⊎◌, inl, inr, ap, ◌∙◌, arith, true, false, some,
  List, [], ◌∷◌, length, ℕ_discrete,
}
use deqin_actor.Base.Str.{Str}
use deqin_actor.Supervisor.{
  RestartStrategy, one_for_one, one_for_all, rest_for_one, Supervisor, ChildEntry, runs_as,
  find_child, count_up, targets, on_failure,
}

abbrev pub Listed : ℕ → List ℕ → Type 0
Listed i [] = ⊥
Listed i (j ∷ js) = (i ≡ j) ⊎ Listed i js

-- The child at `idx` is the first one whose actor has the id.
abbrev IsFirst : List ChildEntry → Str → ℕ → Type 0
IsFirst [] id idx = ⊥
IsFirst (c ∷ cs) id zero = runs_as c.actor id ≡ true
IsFirst (c ∷ cs) id (suc idx) = (runs_as c.actor id ≡ false) × IsFirst cs id idx

-- The children that each strategy restarts, of `n`, when the one at `idx` fails.
abbrev pub IsDue : RestartStrategy → ℕ → ℕ → ℕ → Type 0
IsDue one_for_one n idx i = i ≡ idx
IsDue one_for_all n idx i = i < n
IsDue rest_for_one n idx i = (idx ≤ i) × (i < n)

Listed-count_up : (i a n : ℕ) → Listed i (count_up a n) ↔ ((a ≤ i) × (i < a + n))
Listed-count_up i a zero = ((λ h. absurd h), λ h. omega arith)
Listed-count_up i a (suc n) = (
  λ h. elim h [
    | inl e ↦ (omega arith, omega arith)
    | inr l ↦ let (lo, hi) = (Listed-count_up i (suc a) n).0 l in (omega arith, omega arith)
  ],
  λ h. elim (ℕ_discrete i a) [
    | yes e ↦ inl e
    | no ne ↦ inr ((Listed-count_up i (suc a) n).1 (omega arith, omega arith))
  ],
)

Listed-targets :
    (strategy : RestartStrategy) (n idx i : ℕ)
    → idx < n
    → Listed i (targets strategy n idx) ↔ IsDue strategy n idx i
Listed-targets one_for_one n idx i h = ((λ l. elim l [ inl e ↦ e | inr b ↦ absurd b ]), λ e. inl e)
Listed-targets one_for_all n idx i h = (
  λ l. let (lo, hi) = (Listed-count_up i 0 n).0 l in omega arith,
  λ d. (Listed-count_up i 0 n).1 (omega arith, omega arith),
)
Listed-targets rest_for_one n idx i h = (
  λ l. let (lo, hi) = (Listed-count_up i idx (n - idx)).0 l in (lo, omega arith),
  λ d. (Listed-count_up i idx (n - idx)).1 (d.0, omega (arith, d.1)),
)

-- The search finds the first child with the actor, if there is one.
find_child-first :
    (cs : List ChildEntry) (id : Str) (idx a : ℕ)
    → IsFirst cs id idx
    → (find_child cs id a ≡ some (a + idx)) × (idx < length cs)
find_child-first [] id idx a h = absurd h
find_child-first (c ∷ cs) id zero a h = rw h (ap some (omega arith), omega arith)
find_child-first (c ∷ cs) id (suc idx) a h =
    let (e, lt) = find_child-first cs id idx (suc a) h.1 in
    rw h.0 (e ∙ ap some (omega arith), omega arith)

-- When the actor of the child at `idx` fails, and no child before it has an actor of that id, the
-- children restarted are that child alone, all children, or that child and all after it, as the
-- strategy says.
pub on_failure_lem :
    (s : Supervisor) (id : Str) (idx i : ℕ)
    → IsFirst s.children id idx
    → Listed i (on_failure s id) ↔ IsDue s.strategy (length s.children) idx i
unfolding on_failure
on_failure_lem s id idx i h =
    let (e, lt) = find_child-first s.children id idx 0 h in
    let z : 0 + idx ≡ idx = omega arith in
    rw (e ∙ ap some z) (Listed-targets s.strategy (length s.children) idx i lt)
