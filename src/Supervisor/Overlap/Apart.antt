-- ===== src/Supervisor/Overlap/Apart.antt =====
-- Restarts of different children of actor/supervisor.go that overlap.
use deqin_actor.Base.{
  ℕ, ◌+◌, ◌%◌, ◌≡◌, ◌≢◌, inl, inr, refl, sym, ap, ◌∙◌, if◌then◌else◌, Bool-cases, Bool, true, false,
  Option, none, some, List, get_elem?, set, get_elem?-set_ne,
}
use deqin_actor.Base.Int.{pos, ltb_ℤ, two64}
use deqin_actor.Supervisor.{Supervisor, ChildEntry, Actor, with_name, restart_child, restart_entry}
use deqin_actor.Supervisor.Overlap.{
  begin_entry, begin_restart, finish_restart, overlapped, set-set_self, set-set_ne,
  restart_entry-apart,
}

-- The entries at other places stay.
begin_entry-elsewhere :
    (s : Supervisor) (i j : ℕ) (found : Option ChildEntry)
    → i ≢ j
    → get_elem? (begin_entry s i found).0.children j ≡ get_elem? s.children j
begin_entry-elsewhere s i j none n = refl
begin_entry-elsewhere s i j (some c) n =
    elim (Bool-cases (ltb_ℤ s.max_retries (pos (c.retries + 1)))) [
      | inl over ↦ rw over refl
      | inr fits ↦ rw fits (get_elem?-set_ne s.children i j _ n)
    ]

finish_restart-elsewhere :
    (s : Supervisor) (i j : ℕ) (copy : Option ChildEntry) (made : Actor)
    → i ≢ j
    → get_elem? (finish_restart s i copy made).children j ≡ get_elem? s.children j
unfolding finish_restart
finish_restart-elsewhere s i j none made n = refl
finish_restart-elsewhere s i j (some c) made n = get_elem?-set_ne s.children i j _ n

-- `overlapped` on the entries that it finds.
abbrev overlapped_on :
    Bool → Supervisor → ℕ → ℕ → Option ChildEntry → Option ChildEntry → Actor → Actor → Supervisor
overlapped_on other_way s i j found found' made made' =
    let (s1, c) = begin_entry s i found in
    let (s2, d) = begin_entry s1 j found' in
    if other_way
    then finish_restart (finish_restart s2 j d made') i c made
    else finish_restart (finish_restart s2 i c made) j d made'

both_fit :
    (w : Bool) (s : Supervisor) (i j : ℕ) (c d : ChildEntry) (made made' : Actor)
    → i ≢ j
    → ltb_ℤ s.max_retries (pos (c.retries + 1)) ≡ false
    → ltb_ℤ s.max_retries (pos (d.retries + 1)) ≡ false
    → overlapped_on w s i j (some c) (some d) made made'
      ≡ (restart_entry (restart_entry s i (some c) made).0 j (some d) made').0
unfolding finish_restart
both_fit w s i j c d made made' n fits fits' =
    let xs = s.children in
    let c1 : ChildEntry = record c { retries = c.retries + 1 } in
    let c2 : ChildEntry = record c1 { actor = some (with_name made c.spec_name) } in
    let d1 : ChildEntry = record d { retries = d.retries + 1 } in
    let d2 : ChildEntry = record d1 { actor = some (with_name made' d.spec_name) } in
    let end : List ChildEntry → Supervisor =
      λ ys. record s { children = ys; restarts = ((s.restarts + 1) % two64 + 1) % two64 } in
    let as_one =
      ap (λ ys. set ys j d2) (set-set_ne (set xs i c1) j i d1 c2 (λ e. n (sym e)))
      ∙ set-set_self (set (set xs i c1) i c2) j d1 d2
      ∙ ap (λ ys. set ys j d2) (set-set_self xs i c1 c2) in
    let as_other =
      ap (λ ys. set ys i c2) (set-set_self (set xs i c1) j d1 d2)
      ∙ set-set_ne (set xs i c1) j i d2 c2 (λ e. n (sym e))
      ∙ ap (λ ys. set ys j d2) (set-set_self xs i c1 c2) in
    rw fits (
      rw fits'
        (elim (Bool-cases w) [ inl e ↦ rw e (ap end as_other) | inr e ↦ rw e (ap end as_one) ]))

overlapped_on-apart :
    (w : Bool) (s : Supervisor) (i j : ℕ) (o p : Option ChildEntry) (made made' : Actor)
    → i ≢ j
    → overlapped_on w s i j o p made made'
      ≡ (restart_entry (restart_entry s i o made).0 j p made').0
unfolding finish_restart
overlapped_on-apart true s i j none p made made' n = sym (restart_entry-apart s j p made')
overlapped_on-apart false s i j none p made made' n = sym (restart_entry-apart s j p made')
overlapped_on-apart true s i j (some c) none made made' n =
    sym (restart_entry-apart s i (some c) made)
overlapped_on-apart false s i j (some c) none made made' n =
    sym (restart_entry-apart s i (some c) made)
overlapped_on-apart w s i j (some c) (some d) made made' n =
    elim (Bool-cases (ltb_ℤ s.max_retries (pos (c.retries + 1)))) [
      | inl over ↦ rw over (elim (Bool-cases w) [
        | inl e ↦ rw e (sym (restart_entry-apart s j (some d) made'))
        | inr e ↦ rw e (sym (restart_entry-apart s j (some d) made'))
      ])
      | inr fits ↦ elim (Bool-cases (ltb_ℤ s.max_retries (pos (d.retries + 1)))) [
        | inl over ↦ rw fits (
            rw over (elim (Bool-cases w) [
              | inl e ↦ rw e (
                  ap (λ ys. record s { children = ys; restarts = (s.restarts + 1) % two64 })
                    (set-set_self s.children i _ _))
              | inr e ↦ rw e (
                  ap (λ ys. record s { children = ys; restarts = (s.restarts + 1) % two64 })
                    (set-set_self s.children i _ _))
            ]))
        | inr fits' ↦ both_fit w s i j c d made made' n fits fits'
      ]
    ]

-- Two restarts of different children overlap: both begin, and they finish in the one order or the
-- other. The supervisor is then what one restart after the other would make of it.
pub restarts_apart :
    (other_way : Bool) (s : Supervisor) (i j : ℕ) (made made' : Actor)
    → i ≢ j
    → overlapped other_way s i j made made' ≡ (restart_child (restart_child s i made).0 j made').0
unfolding overlapped begin_restart restart_child
restarts_apart w s i j made made' n =
    let o = get_elem? s.children i in
    let p = get_elem? s.children j in
    let after : get_elem? (restart_entry s i o made).0.children j ≡ p =
      ap (λ t. get_elem? t.children j) (restart_entry-apart s i o made)
      ∙ finish_restart-elsewhere (begin_entry s i o).0 i j (begin_entry s i o).1 made n
      ∙ begin_entry-elsewhere s i j o n in
    ap (λ q. overlapped_on w s i j o q made made') (begin_entry-elsewhere s i j o n)
    ∙ overlapped_on-apart w s i j o p made made' n
    ∙ ap (λ q. (restart_entry (restart_entry s i o made).0 j q made').0) (sym after)
