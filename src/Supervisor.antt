-- ===== src/Supervisor.antt =====
-- actor/supervisor.go: the back-off, and the supervisor with its children. What a child's factory
-- makes is an argument. Here a call of `restartChild` runs with no other goroutine in between;
-- `Supervisor.Overlap` has the parts of it that hold the lock one by one.
mod Tests
pub mod Backoff
pub mod Targets
pub mod Restarts
pub mod Overlap
use deqin_actor.Base.{
  ℕ, zero, suc, ◌+◌, ◌-◌, ◌*◌, ◌/◌, ◌%◌, ◌^◌, ◌≤◌, ◌<◌, min, max, ◌≡◌, ◌≢◌, ◌↔◌, ◌⊎◌, inl, inr,
  refl, sym, ap, ap₂, ◌∙◌, arith, tests, if◌then◌else◌, ltb, leb, ◌==◌, ltb→lt, lt→ltb, le→ltb,
  leb→le, le→leb, lt→leb, ==_iff, Bool-cases, Option-cases, Bool, true, false, not, ◌&&◌, ◌||◌,
  Option, none, some, List, [], ◌∷◌, ◌++◌, map, append-nil, append_assoc, length, get_elem?, set,
  take, drop, length-append, length-set, get_elem?-set_self, get_elem?-set_ne, get_elem?-eq_some,
  get_elem?-append_left, get_elem?-append_end, dec_lt, dec_le, ℕ_discrete,
}
use mathlib.Core.Option
use deqin_actor.Base.Int.{ℤ, pos, leb_ℤ, ltb_ℤ, mul64, is_zero, two64}
use deqin_actor.Base.Time.{millisecond, second}
use deqin_actor.Base.Str.{Str, same}

pub data RestartStrategy : Type 0 where
  one_for_one : RestartStrategy
  one_for_all : RestartStrategy
  rest_for_one : RestartStrategy

-- The loop of the back-off, from the delay `d` on.
unfoldable pub backoff_loop : ℤ → ℤ → ℕ → ℤ
backoff_loop most d zero = d
backoff_loop most d (suc retries) =
    let d' = mul64 d (pos 2) in
    let rest = backoff_loop most d' retries in if leb_ℤ most d' then most else rest

abbrev or_default : ℤ → ℕ → ℤ
or_default d default_ns = if leb_ℤ d (pos 0) then pos default_ns else d

unfoldable pub exponential_backoff : ℤ → ℤ → ℕ → ℤ
exponential_backoff base most retry =
    backoff_loop (or_default most (5 * second)) (or_default base (50 * millisecond)) retry

pub record Actor : Type 0 where
  pub id : Str
  pub name : Str

-- `spec_name` is the name in the child's specification.
pub record ChildEntry : Type 0 where
  pub spec_name : Str
  pub actor : Option Actor
  pub retries : ℕ

pub record Supervisor : Type 0 where
  pub strategy : RestartStrategy
  pub max_retries : ℤ
  pub backoff : ℕ → ℤ
  pub children : List ChildEntry
  pub restarts : ℕ

-- `backoff` is `none` where the options leave it nil.
pub record SupervisorOptions : Type 0 where
  pub strategy : RestartStrategy
  pub max_retries : ℤ
  pub backoff : Option (ℕ → ℤ)

abbrev or_exponential : Option (ℕ → ℤ) → ℕ → ℤ
or_exponential none = exponential_backoff (pos (50 * millisecond)) (pos (5 * second))
or_exponential (some b) = b

unfoldable pub new_supervisor : SupervisorOptions → Supervisor
new_supervisor opts = record {
  strategy = opts.strategy;
  max_retries = if is_zero opts.max_retries then pos 10 else opts.max_retries;
  backoff = or_exponential opts.backoff;
  children = [];
  restarts = 0;
}

-- The actor that a factory made, named after the specification if it has no name.
abbrev pub with_name : Actor → Str → Actor
with_name a name = if same a.name [] then record a { name = name } else a

unfoldable pub spawn : Supervisor → Str → Actor → Supervisor
spawn s name made = record s {
  children =
      s.children
      ++ (record { spec_name = name; actor = some (with_name made name); retries = 0 } ∷ []);
}

unfoldable restart_count : Supervisor → ℕ
restart_count s = s.restarts

abbrev pub runs_as : Option Actor → Str → Bool
runs_as none id = false
runs_as (some a) id = same a.id id

-- The loop that looks for the child with the failed actor, from the index `i` on.
abbrev pub find_child : List ChildEntry → Str → ℕ → Option ℕ
find_child [] id i = none
find_child (c ∷ cs) id i = if runs_as c.actor id then some i else find_child cs id (suc i)

-- The numbers from `i` on, so many.
abbrev pub count_up : ℕ → ℕ → List ℕ
count_up i zero = []
count_up i (suc n) = i ∷ count_up (suc i) n

abbrev pub targets : RestartStrategy → ℕ → ℕ → List ℕ
targets one_for_all n idx = count_up 0 n
targets rest_for_one n idx = count_up idx (n - idx)
targets one_for_one n idx = idx ∷ []

abbrev targets_of : Supervisor → Option ℕ → List ℕ
targets_of s none = []
targets_of s (some idx) = targets s.strategy (length s.children) idx

-- The children that `onFailure` starts to restart.
unfoldable pub on_failure : Supervisor → Str → List ℕ
on_failure s id = targets_of s (find_child s.children id 0)

-- What `restartChild` does outside the supervisor.
pub data Effect : Type 0 where
  sleeps : ℤ → Effect
  stops : Actor → Effect
  starts : Actor → Effect

abbrev stop_old : Option Actor → List Effect
stop_old none = []
stop_old (some a) = stops a ∷ []

-- `restartChild` on the entry that it finds at `i`.
abbrev pub restart_entry : Supervisor → ℕ → Option ChildEntry → Actor → Supervisor × List Effect
restart_entry s i none made = (s, [])
restart_entry s i (some c) made = if ltb_ℤ s.max_retries (pos (c.retries + 1)) then (s, []) else (
  record s {
    children =
        set s.children i
          (record c { retries = c.retries + 1; actor = some (with_name made c.spec_name) });
    restarts = (s.restarts + 1) % two64;
  },
  sleeps (s.backoff c.retries) ∷ (stop_old c.actor ++ starts (with_name made c.spec_name) ∷ []),
)

unfoldable pub restart_child : Supervisor → ℕ → Actor → Supervisor × List Effect
restart_child s i made = restart_entry s i (get_elem? s.children i) made
