-- ===== src/Supervisor/Overlap.antt =====
-- Restarts of actor/supervisor.go that overlap: `restartChild` gives up the lock while it sleeps, stops
-- the old actor and starts the new one.
pub mod Apart
pub mod Lost
use deqin_actor.Base.{
  ℕ, zero, suc, ◌+◌, ◌-◌, ◌*◌, ◌/◌, ◌%◌, ◌^◌, ◌≤◌, ◌<◌, min, max, ◌≡◌, ◌≢◌, ◌↔◌, ◌⊎◌, inl, inr,
  refl, sym, ap, ap₂, ◌∙◌, arith, tests, if◌then◌else◌, ltb, leb, ◌==◌, ltb→lt, lt→ltb, le→ltb,
  leb→le, le→leb, lt→leb, ==_iff, Bool-cases, Option-cases, Bool, true, false, not, ◌&&◌, ◌||◌,
  Option, none, some, List, [], ◌∷◌, ◌++◌, map, append-nil, append_assoc, length, get_elem?, set,
  take, drop, length-append, length-set, get_elem?-set_self, get_elem?-set_ne, get_elem?-eq_some,
  get_elem?-append_left, get_elem?-append_end, dec_lt, dec_le, ℕ_discrete,
}
use deqin_actor.Base.Int.{ℤ, pos, ltb_ℤ, two64}
use deqin_actor.Base.Str.{Str}
use deqin_actor.Supervisor.{Supervisor, ChildEntry, Actor, with_name, restart_child, restart_entry}

-- `restartChild` up to where it gives up the lock, on the entry that it finds at `i`: the copy of the
-- entry that it goes on with, or `none` where it returns.
abbrev pub begin_entry : Supervisor → ℕ → Option ChildEntry → Supervisor × Option ChildEntry
begin_entry s i none = (s, none)
begin_entry s i (some c) = if ltb_ℤ s.max_retries (pos (c.retries + 1)) then (s, none) else (
  record s { children = set s.children i (record c { retries = c.retries + 1 }) },
  some (record c { retries = c.retries + 1 }),
)

unfoldable pub begin_restart : Supervisor → ℕ → Supervisor × Option ChildEntry
begin_restart s i = begin_entry s i (get_elem? s.children i)

-- `restartChild` from where it takes the lock again, with its copy of the entry.
unfoldable pub finish_restart : Supervisor → ℕ → Option ChildEntry → Actor → Supervisor
finish_restart s i none made = s
finish_restart s i (some c) made = record s {
  children = set s.children i (record c { actor = some (with_name made c.spec_name) });
  restarts = (s.restarts + 1) % two64;
}

-- The restart at `i` begins, then the one at `j`, and they finish in this order or in the other.
unfoldable pub overlapped : Bool → Supervisor → ℕ → ℕ → Actor → Actor → Supervisor
overlapped other_way s i j made made' =
    let (s1, c) = begin_restart s i in
    let (s2, d) = begin_restart s1 j in
    if other_way
    then finish_restart (finish_restart s2 j d made') i c made
    else finish_restart (finish_restart s2 i c made) j d made'

-- Rounds of two restarts of one child that overlap in this way, with the actors that they start.
unfoldable pub rounds : Supervisor → ℕ → List (Actor × Actor) → Supervisor
rounds s i [] = s
rounds s i ((made, made') ∷ more) = rounds (overlapped true s i i made made') i more

module _ {ℓ} {A : Type ℓ} where
  pub set-set_self : (xs : List A) (i : ℕ) (v w : A) → set (set xs i v) i w ≡ set xs i w
  set-set_self [] i v w = refl
  set-set_self (x ∷ xs) zero v w = refl
  set-set_self (x ∷ xs) (suc i) v w = ap (λ ys. x ∷ ys) (set-set_self xs i v w)

  pub set-set_ne :
      (xs : List A) (i j : ℕ) (v w : A) → i ≢ j → set (set xs i v) j w ≡ set (set xs j w) i v
  set-set_ne [] i j v w n = refl
  set-set_ne (x ∷ xs) zero zero v w n = absurd (n refl)
  set-set_ne (x ∷ xs) zero (suc j) v w n = refl
  set-set_ne (x ∷ xs) (suc i) zero v w n = refl
  set-set_ne (x ∷ xs) (suc i) (suc j) v w n =
      ap (λ ys. x ∷ ys) (set-set_ne xs i j v w (λ e. n (ap suc e)))

-- A restart that nothing overlaps.
pub restart_entry-apart :
    (s : Supervisor) (i : ℕ) (found : Option ChildEntry) (made : Actor)
    → (restart_entry s i found made).0
      ≡ finish_restart (begin_entry s i found).0 i (begin_entry s i found).1 made
unfolding finish_restart
restart_entry-apart s i none made = refl
restart_entry-apart s i (some c) made =
    elim (Bool-cases (ltb_ℤ s.max_retries (pos (c.retries + 1)))) [
      | inl over ↦ rw over refl
      | inr fits ↦ rw fits (
          ap (λ cs. record s { children = cs; restarts = (s.restarts + 1) % two64 })
            (sym (set-set_self s.children i _ _)))
    ]
