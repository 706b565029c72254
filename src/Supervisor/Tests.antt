-- ===== src/Supervisor/Tests.antt =====
-- Runs of actor/supervisor.go.
use deqin_actor.Base.{
  true, some, get_elem?, ℕ, ◌*◌, ◌%◌, ◌^◌, ◌≤◌, min, ◌≡◌, ◌↔◌, refl, arith, none, List, [], ◌∷◌,
  length,
}
use deqin_actor.Base.Int.{pos, pos_part, two64}
use deqin_actor.Supervisor.{
  Supervisor, SupervisorOptions, rest_for_one, Actor, new_supervisor, spawn, exponential_backoff,
  on_failure,
}
use deqin_actor.Supervisor.Backoff.{exponential_backoff_lem}
use deqin_actor.Supervisor.Targets.{Listed, IsDue, on_failure_lem}
use deqin_actor.Supervisor.Overlap.{overlapped, rounds}
use deqin_actor.Supervisor.Overlap.Apart.{restarts_apart}
use deqin_actor.Supervisor.Overlap.Lost.{restarts_exceed}
use deqin_actor.Supervisor.{ChildEntry, one_for_all, restart_child, with_name}
use deqin_actor.Supervisor.Restarts.{
  Call, spawns, restarts_at, run, total, AllWithin, restarts_bounded,
}

abbrev options : SupervisorOptions
options = record { strategy = rest_for_one; max_retries = pos 1; backoff = none }

abbrev worker : ℕ → Actor
worker n = record { id = n ∷ []; name = [] }

abbrev two_children : Supervisor
two_children = spawn (spawn (new_supervisor options) (1 ∷ []) (worker 1)) (2 ∷ []) (worker 2)

exponential_backoff_lem_example : exponential_backoff (pos 3) (pos 40) 5 ≡ pos (min (3 * 2 ^ 5) 40)
exponential_backoff_lem_example =
    exponential_backoff_lem 3 40 5 (omega arith) (omega arith) (omega arith)

on_failure_lem_example :
    Listed 1 (on_failure two_children (2 ∷ []))
    ↔ IsDue two_children.strategy (length two_children.children) 1 1
unfolding spawn new_supervisor
on_failure_lem_example = on_failure_lem two_children (2 ∷ []) 1 1 (refl, refl)

-- The second restart of the child is one too many.
abbrev calls : List Call
calls = spawns (1 ∷ []) (worker 1) ∷ restarts_at 0 (worker 3) ∷ restarts_at 0 (worker 4) ∷ []

restarts_bounded_example :
    let s = run (new_supervisor options) calls in
    let most = pos_part (new_supervisor options).max_retries in
    AllWithin most s.children
    × (s.restarts ≡ total s.children % two64)
    × (total s.children ≤ length s.children * most)
restarts_bounded_example = restarts_bounded options calls

-- All children are restarted when one fails.
abbrev siblings : Supervisor
siblings =
    spawn
      (spawn
        (new_supervisor (record { strategy = one_for_all; max_retries = pos 0; backoff = none }))
        (1 ∷ []) (worker 1))
      (2 ∷ []) (worker 2)

restarts_apart_example :
    overlapped true siblings 0 1 (worker 3) (worker 4)
    ≡ (restart_child (restart_child siblings 0 (worker 3)).0 1 (worker 4)).0
restarts_apart_example = restarts_apart true siblings 0 1 (worker 3) (worker 4) (λ e. omega arith)

-- Of ten retries nine are counted, while the child is restarted 18 times.
abbrev made : List (Actor × Actor)
made =
    (worker 3, worker 4)
    ∷ (worker 5, worker 6)
    ∷ (worker 7, worker 8)
    ∷ (worker 9, worker 10)
    ∷ (worker 11, worker 12)
    ∷ (worker 13, worker 14)
    ∷ (worker 15, worker 16)
    ∷ (worker 17, worker 18)
    ∷ (worker 19, worker 20)
    ∷ []

restarts_exceed_example :
    (d : ChildEntry) × (get_elem? (rounds siblings 0 made).children 0 ≡ some d)
    × (d.retries ≡ 9)
    × ((rounds siblings 0 made).restarts ≡ 18)
unfolding spawn new_supervisor
restarts_exceed_example =
    restarts_exceed siblings 0 10
      (record { spec_name = 1 ∷ []; actor = some (with_name (worker 1) (1 ∷ [])); retries = 0 })
      made refl refl (omega arith) (omega arith)
