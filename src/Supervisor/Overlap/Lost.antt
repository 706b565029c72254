-- ===== src/Supervisor/Overlap/Lost.antt =====
-- Restarts of one child of actor/supervisor.go that overlap.
use deqin_actor.Base.{
  ℕ, zero, suc, ◌+◌, ◌*◌, ◌%◌, ◌≤◌, ◌<◌, ◌≡◌, refl, ap, ◌∙◌, arith, if◌then◌else◌, Bool, true,
  false, Option, some, List, [], ◌∷◌, length, get_elem?, set, get_elem?-set_self,
}
use deqin_actor.Base.Int.{pos, ltb_ℤ, two64}
use deqin_actor.Supervisor.{Supervisor, ChildEntry, Actor, with_name}
use deqin_actor.Supervisor.Overlap.{
  begin_entry, begin_restart, finish_restart, overlapped, rounds, set-set_self,
}

module _ {ℓ} {A : Type ℓ} where
  found-bound : (xs : List A) (i : ℕ) (a : A) → get_elem? xs i ≡ some a → i < length xs
  found-bound [] i a e = ground arith
  found-bound (x ∷ xs) zero a e = omega arith
  found-bound (x ∷ xs) (suc i) a e = omega (arith, found-bound xs i a e)

  get_elem?-rewritten :
      (xs : List A) (i : ℕ) (u v w x : A)
      → i < length xs
      → get_elem? (set (set (set (set xs i u) i v) i w) i x) i ≡ some x
  get_elem?-rewritten xs i u v w x h =
      ap (λ ys. get_elem? ys i)
        (set-set_self (set (set xs i u) i v) i w x
          ∙ set-set_self (set xs i u) i v x
          ∙ set-set_self xs i u x)
      ∙ get_elem?-set_self xs i x h

begin_restart-found :
    (s : Supervisor) (i : ℕ) (c : ChildEntry)
    → get_elem? s.children i ≡ some c
    → ltb_ℤ s.max_retries (pos (c.retries + 1)) ≡ false
    → begin_restart s i ≡ (
      record s { children = set s.children i (record c { retries = c.retries + 1 }) },
      some (record c { retries = c.retries + 1 }),
    )
unfolding begin_restart
begin_restart-found s i c e fits = ap (begin_entry s i) e ∙ rw fits refl

-- What two restarts that overlap leave of the child that they find.
abbrev left_by : Bool → Supervisor → ℕ → ChildEntry → Actor → Actor → Supervisor
left_by w s i c made made' =
    let c1 : ChildEntry = record c { retries = c.retries + 1 } in
    let d1 : ChildEntry = record c { retries = c.retries + 1 + 1 } in
    let s2 : Supervisor = record s { children = set (set s.children i c1) i d1 } in
    if w
    then finish_restart (finish_restart s2 i (some d1) made') i (some c1) made
    else finish_restart (finish_restart s2 i (some c1) made) i (some d1) made'

overlapped-found :
    (w : Bool) (s : Supervisor) (i : ℕ) (c : ChildEntry) (made made' : Actor)
    → get_elem? s.children i ≡ some c
    → ltb_ℤ s.max_retries (pos (c.retries + 1)) ≡ false
    → ltb_ℤ s.max_retries (pos (c.retries + 1 + 1)) ≡ false
    → overlapped w s i i made made' ≡ left_by w s i c made made'
unfolding overlapped
overlapped-found w s i c made made' e fits fits' =
    let c1 : ChildEntry = record c { retries = c.retries + 1 } in
    let s1 : Supervisor = record s { children = set s.children i c1 } in
    let there = get_elem?-set_self s.children i c1 (found-bound s.children i c e) in
    let both : Supervisor × Option ChildEntry → Supervisor × Option ChildEntry → Supervisor = λ p q.
      if w
      then finish_restart (finish_restart q.0 i q.1 made') i p.1 made
      else finish_restart (finish_restart q.0 i p.1 made) i q.1 made' in
    ap (λ p. both p (begin_restart p.0 i)) (begin_restart-found s i c e fits)
    ∙ ap (both (s1, some c1)) (begin_restart-found s1 i c1 there fits')

-- Two restarts of one child overlap, and it has at least two restarts left. Both start an actor, and
-- `restarts` counts both. If the one that began first finishes last, then its copy of the entry
-- takes back what the other one counted: the child's retries have grown by one. The actor that
-- finished first is the actor of no child at that place, and the other one is.
restarts_lost :
    (s : Supervisor) (i : ℕ) (c : ChildEntry) (made made' : Actor)
    → get_elem? s.children i ≡ some c
    → ltb_ℤ s.max_retries (pos (c.retries + 1)) ≡ false
    → ltb_ℤ s.max_retries (pos (c.retries + 1 + 1)) ≡ false
    → ((overlapped false s i i made made').restarts ≡ (s.restarts + 2) % two64)
      × ((overlapped true s i i made made').restarts ≡ (s.restarts + 2) % two64)
      × (get_elem? (overlapped false s i i made made').children i
          ≡ some (record c { retries = c.retries + 2; actor = some (with_name made' c.spec_name) }))
      × (get_elem? (overlapped true s i i made made').children i
          ≡ some (record c { retries = c.retries + 1; actor = some (with_name made c.spec_name) }))
unfolding finish_restart
restarts_lost s i c made made' e fits fits' =
    let c1 : ChildEntry = record c { retries = c.retries + 1 } in
    let d1 : ChildEntry = record c { retries = c.retries + 1 + 1 } in
    let c2 : ChildEntry = record c1 { actor = some (with_name made c.spec_name) } in
    let d2 : ChildEntry = record d1 { actor = some (with_name made' c.spec_name) } in
    let bound = found-bound s.children i c e in
    let one_way = overlapped-found false s i c made made' e fits fits' in
    let other = overlapped-found true s i c made made' e fits fits' in
    let twice : ((s.restarts + 1) % two64 + 1) % two64 ≡ (s.restarts + 2) % two64 = omega arith in
    (
      ap (λ t. t.restarts) one_way ∙ twice,
      ap (λ t. t.restarts) other ∙ twice,
      ap (λ t. get_elem? t.children i) one_way
          ∙ get_elem?-rewritten s.children i c1 d1 c2 d2 bound
          ∙ ap (λ n. some (record d2 { retries = n })) (omega arith),
      ap (λ t. get_elem? t.children i) other ∙ get_elem?-rewritten s.children i c1 d1 d2 c2 bound,
    )

-- In each round two restarts of one child overlap, and the one that began first finishes last. As
-- long as the child's retries, with one for each round and one more, are within the bound of the
-- supervisor, each round counts two restarts and leaves the child with one retry more: it is restarted
-- twice as often as its retries say.
pub restarts_exceed :
    (s : Supervisor) (i most : ℕ) (c : ChildEntry) (made : List (Actor × Actor))
    → get_elem? s.children i ≡ some c
    → s.max_retries ≡ pos most
    → c.retries + length made + 1 ≤ most
    → s.restarts < two64
    → (d : ChildEntry) × (get_elem? (rounds s i made).children i ≡ some d)
      × (d.retries ≡ c.retries + length made)
      × ((rounds s i made).restarts ≡ (s.restarts + 2 * length made) % two64)
unfolding rounds finish_restart
restarts_exceed s i most c [] e m h small = (c, e, omega arith, omega arith)
restarts_exceed s i most c ((a, a') ∷ more) e m h small =
    let fits : ltb_ℤ s.max_retries (pos (c.retries + 1)) ≡ false = rw m (ground arith) in
    let fits' : ltb_ℤ s.max_retries (pos (c.retries + 1 + 1)) ≡ false = rw m (ground arith) in
    let lost = restarts_lost s i c a a' e fits fits' in
    let same_bound = ap (λ t. t.max_retries) (overlapped-found true s i c a a' e fits fits') in
    let wraps = lost.1 in
    let (d, there, retried, counted) =
      restarts_exceed (overlapped true s i i a a') i most _ more lost.3 (same_bound ∙ m)
        (omega arith) (omega arith) in
    (d, there, omega arith, omega arith)
