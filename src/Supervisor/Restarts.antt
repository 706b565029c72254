-- ===== src/Supervisor/Restarts.antt =====
-- How often the supervisor of actor/supervisor.go restarts its children.
use deqin_actor.Base.{
  ℕ, zero, suc, ◌+◌, ◌*◌, ◌%◌, ◌≤◌, ◌≡◌, inl, inr, refl, sym, ap, ◌∙◌, arith, Bool-cases, Option,
  none, some, List, [], ◌∷◌, ◌++◌, length, get_elem?, set,
}
use deqin_actor.Base.Int.{pos, pos_part, ltb_ℤ, two64}
use deqin_actor.Base.Str.{Str}
use deqin_actor.Supervisor.{
  Supervisor, SupervisorOptions, ChildEntry, Actor, new_supervisor, spawn, restart_entry,
  restart_child, with_name,
}

pub data Call : Type 0 where
  spawns : Str → Actor → Call
  restarts_at : ℕ → Actor → Call

abbrev step : Supervisor → Call → Supervisor
step s (spawns name made) = spawn s name made
step s (restarts_at i made) = (restart_child s i made).0

unfoldable pub run : Supervisor → List Call → Supervisor
run s [] = s
run s (c ∷ cs) = run (step s c) cs

abbrev pub total : List ChildEntry → ℕ
total [] = 0
total (c ∷ cs) = c.retries + total cs

-- No child has been restarted more than `most` times.
abbrev pub AllWithin : ℕ → List ChildEntry → Type 0
AllWithin most [] = Unit {0}
AllWithin most (c ∷ cs) = (c.retries ≤ most) × AllWithin most cs

pub record IsCounted (most : ℕ) (s : Supervisor) : Type 0 where
  pub bound : pos_part s.max_retries ≡ most
  pub within : AllWithin most s.children
  pub counted : s.restarts ≡ total s.children % two64

AllWithin-append :
    (most : ℕ) (cs : List ChildEntry) (c : ChildEntry)
    → c.retries ≤ most
    → AllWithin most cs
    → AllWithin most (cs ++ c ∷ [])
AllWithin-append most [] c h hs = (h, tt)
AllWithin-append most (d ∷ cs) c h hs = (hs.0, AllWithin-append most cs c h hs.1)

total-append : (cs : List ChildEntry) (c : ChildEntry) → total (cs ++ c ∷ []) ≡ total cs + c.retries
total-append [] c = omega arith
total-append (d ∷ cs) c = omega (arith, total-append cs c)

AllWithin-set :
    (most : ℕ) (cs : List ChildEntry) (i : ℕ) (c : ChildEntry)
    → c.retries ≤ most
    → AllWithin most cs
    → AllWithin most (set cs i c)
AllWithin-set most [] i c h hs = tt
AllWithin-set most (d ∷ cs) zero c h hs = (h, hs.1)
AllWithin-set most (d ∷ cs) (suc i) c h hs = (hs.0, AllWithin-set most cs i c h hs.1)

abbrev retries_of : Option ChildEntry → ℕ
retries_of none = 0
retries_of (some c) = c.retries

total-set :
    (cs : List ChildEntry) (i : ℕ) (c c' : ChildEntry)
    → get_elem? cs i ≡ some c
    → c'.retries ≡ c.retries + 1
    → total (set cs i c') ≡ total cs + 1
total-set [] i c c' e r = ground arith
total-set (d ∷ cs) zero c c' e r =
    let same_retries : d.retries ≡ c.retries = ap retries_of e in omega arith
total-set (d ∷ cs) (suc i) c c' e r = omega (arith, total-set cs i c c' e r)

total-le : (most : ℕ) (cs : List ChildEntry) → AllWithin most cs → total cs ≤ length cs * most
total-le most [] h = omega arith
total-le most (c ∷ cs) h = grind (arith, total-le most cs h.1, h.0)

spawn-IsCounted :
    (most : ℕ) (s : Supervisor) (name : Str) (made : Actor)
    → IsCounted most s
    → IsCounted most (spawn s name made)
unfolding spawn
spawn-IsCounted most s name made h = record {
  bound = h.bound;
  within = AllWithin-append most s.children _ (omega arith) h.within;
  counted = h.counted ∙ ap (λ n. n % two64) (sym (total-append s.children _ ∙ omega arith));
}

restart-IsCounted :
    (most : ℕ) (s : Supervisor) (i : ℕ) (made : Actor) (found : Option ChildEntry)
    → get_elem? s.children i ≡ found
    → IsCounted most s
    → IsCounted most (restart_entry s i found made).0
restart-IsCounted most s i made none e h = h
restart-IsCounted most s i made (some c) e h =
    elim (Bool-cases (ltb_ℤ s.max_retries (pos (c.retries + 1)))) [
      | inl over ↦ rw over h
      | inr fits ↦ rw fits (record {
        bound = h.bound;
        within = AllWithin-set most s.children i _ (ground (arith, h.bound)) h.within;
        counted = omega (
          arith,
          h.counted,
          total-set s.children i c
              (record c { retries = c.retries + 1; actor = some (with_name made c.spec_name) }) e
              refl,
        );
      })
    ]

step-IsCounted :
    (most : ℕ) (s : Supervisor) (c : Call) → IsCounted most s → IsCounted most (step s c)
unfolding restart_child
step-IsCounted most s (spawns name made) h = spawn-IsCounted most s name made h
step-IsCounted most s (restarts_at i made) h =
    restart-IsCounted most s i made (get_elem? s.children i) refl h

run-IsCounted :
    (most : ℕ) (s : Supervisor) (cs : List Call) → IsCounted most s → IsCounted most (run s cs)
unfolding run
run-IsCounted most s [] h = h
run-IsCounted most s (c ∷ cs) h = run-IsCounted most (step s c) cs (step-IsCounted most s c h)

-- Whatever children are spawned and whichever are restarted, in any order, each restart run to its
-- end before the next one begins: no child is restarted more often than the supervisor's bound, which a bound that is negative makes never; `restarts` is
-- the number of all restarts, as a `uint64`, and they are no more than the children times the bound.
pub restarts_bounded :
    (opts : SupervisorOptions) (cs : List Call)
    → let s = run (new_supervisor opts) cs in
      let most = pos_part (new_supervisor opts).max_retries in
      AllWithin most s.children
      × (s.restarts ≡ total s.children % two64)
      × (total s.children ≤ length s.children * most)
unfolding new_supervisor
restarts_bounded opts cs =
    let s = new_supervisor opts in
    let most = pos_part s.max_retries in
    let h : IsCounted most (run s cs) =
      run-IsCounted most s cs (record { bound = refl; within = tt; counted = omega arith }) in
    (h.within, h.counted, total-le most (run s cs).children h.within)
