-- ===== src/System/Lifecycle/Operations.antt =====
-- The operations of actor/base_actor.go that make, start and stop an actor keep the invariant.
use deqin_actor.Base.{
  ℕ, ◌≡◌, inl, inr, refl, sym, ap, ◌∙◌, arith, if◌then◌else◌, Bool-cases, Bool, true, false, Option,
  none, some, [], ℕ_discrete,
}
use mathlib.Core.Path.{subst}
use deqin_actor.Base.Str.{Str, same, same_self, same-eq, put_key, delete_key}
use deqin_actor.Types.{Message, EnvelopeMeta, Target, base_actor, state_running, state_stopped}
use deqin_actor.Mailbox.{Mailbox}
use deqin_actor.BaseActor.{Loop, popping}
use deqin_actor.Registry.{Registry, register, unregister}
use deqin_actor.System.{System, BaseActor, Result, Once, not_called, in_call, called}
use deqin_actor.System.Actor.{
  started, start_when, start_actor, start, finish_stop, stopping, stop_when, stop_actor, stop,
  resume_when, resume_actor, resume_stop, is_ended, replay_wal, closed_wal,
}
use deqin_actor.System.Kept.{life, has_loop}
use deqin_actor.System.Lifecycle.{Alive, Ordered, Sound, Entry, changed-Sound}

not_called_ne : (o : Once) → o ≡ not_called → o ≡ called → ⊥
not_called_ne o e e' = ground (arith, e, e')

in_call_ne : (o : Once) → o ≡ in_call → o ≡ called → ⊥
in_call_ne o e e' = ground (arith, e, e')

ended-has_loop : (l : Option Loop) → is_ended l ≡ true → has_loop l ≡ true
ended-has_loop none e = ground (arith, e)
ended-has_loop (some place) e = refl

register-by_id :
    (r : Registry Target) (id name k : Str) (t : Option Target)
    → (register r id name t).by_id k ≡ put_key r.by_id id t k
unfolding register
register-by_id r id name k t = elim (Bool-cases (same name [])) [
  | inl e ↦ rw e refl
  | inr e ↦ rw e refl
]

unregister-by_id :
    (r : Registry Target) (id name k : Str)
    → (unregister r id name).by_id k ≡ delete_key r.by_id id k
unfolding unregister
unregister-by_id r id name k = elim (Bool-cases (same name [])) [
  | inl e ↦ rw e refl
  | inr e ↦ rw e refl
]

same_target :
    (m n : ℕ)
    → ◌≡◌ {A = Option (Option Target)} (some (some (base_actor m))) (some (some (base_actor n)))
    → n ≡ m
same_target m n e = ground (arith, e)

module _ {V : Type 0} where
  abbrev pub SoundIn : Result V → Type 0
  SoundIn none = Unit {0}
  SoundIn (some (s, o)) = Sound s

  -- An entry that stays.
  stays_in :
      (s : System V) (addr : ℕ) (a a' : BaseActor V) (k : Str) (n : ℕ)
      → Sound s
      → s.actors addr ≡ some a
      → (Alive k (life (some a)) → Alive k (life (some a')))
      → s.registry.by_id k ≡ some (some (base_actor n))
      → Entry s addr a' k n
  stays_in s addr a a' k n h e goes at = elim (ℕ_discrete n addr) [
    | yes p ↦ inl (p, goes (subst (λ o. Alive k (life o)) (ap s.actors p ∙ e) (h.named k n at)))
    | no p ↦ inr (p, at)
  ]

  its-Ordered :
      (s : System V) (addr : ℕ) (a : BaseActor V)
      → Sound s
      → s.actors addr ≡ some a
      → Ordered (life (some a))
  its-Ordered s addr a h e = subst (λ o. Ordered (life o)) e (h.ordered addr)

  started-SoundIn :
      (s : System V) (addr : ℕ) (a : BaseActor V)
      (out : Option (Mailbox (Message V) EnvelopeMeta × Bool))
      → Sound s
      → s.actors addr ≡ some a
      → a.start_once ≡ not_called
      → SoundIn (started s addr a out)
  started-SoundIn s addr a none h e new = tt
  started-SoundIn s addr a (some (mb, false)) h e new =
      let o = its-Ordered s addr a h e in
      changed-Sound s addr a (record a { mailbox = mb; start_once = in_call }) s.registry h e
        (o.0, λ l. absurd (not_called_ne a.start_once new (o.1 l)))
        (λ k n at.
          stays_in s addr a (record a { mailbox = mb; start_once = in_call }) k n h e
            (λ v. absurd (not_called_ne a.start_once new v.1)) at)
  started-SoundIn s addr a (some (mb, true)) h e new =
      let o = its-Ordered s addr a h e in
      let a' = record a {
        mailbox = mb;
        start_once = called;
        state = state_running;
        loop = some popping;
      } in
      changed-Sound s addr a a' (register s.registry a.id a.name (some (base_actor addr))) h e
        (λ p. refl, λ l. refl)
        (λ k n at. elim (Bool-cases (same k a.id)) [
          | inl p ↦ inl (
            same_target addr n (
                ap (λ b. if b then some (some (base_actor addr)) else s.registry.by_id k) (sym p)
                ∙ sym (register-by_id s.registry a.id a.name k (some (base_actor addr)))
                ∙ at),
            (sym (same-eq k a.id p), refl, λ c. not_called_ne a.start_once new (o.1 (o.0 c))),
          )
          | inr p ↦
              stays_in s addr a a' k n h e (λ v. absurd (not_called_ne a.start_once new v.1))
                (ap (λ b. if b then some (some (base_actor addr)) else s.registry.by_id k) (sym p)
                  ∙ sym (register-by_id s.registry a.id a.name k (some (base_actor addr)))
                  ∙ at)
        ])

  start_when-SoundIn :
      (s : System V) (addr : ℕ) (a : BaseActor V) (o : Once)
      → Sound s
      → s.actors addr ≡ some a
      → a.start_once ≡ o
      → SoundIn (start_when s addr a o)
  start_when-SoundIn s addr a not_called h e p =
      started-SoundIn s addr a (replay_wal s a a.wal) h e p
  start_when-SoundIn s addr a in_call h e p = h
  start_when-SoundIn s addr a called h e p = h

  start_actor-SoundIn :
      (s : System V) (addr : ℕ) (o : Option (BaseActor V))
      → Sound s
      → s.actors addr ≡ o
      → SoundIn (start_actor s addr o)
  start_actor-SoundIn s addr none h e = tt
  start_actor-SoundIn s addr (some a) h e = start_when-SoundIn s addr a a.start_once h e refl

  pub start-SoundIn : (s : System V) (addr : ℕ) → Sound s → SoundIn (start s addr)
  unfolding start
  start-SoundIn s addr h = start_actor-SoundIn s addr (s.actors addr) h refl

  -- The end of `Stop`, of an actor that is stored as `a` and seen as `b`.
  finish_stop-SoundIn :
      (s : System V) (addr : ℕ) (a b : BaseActor V) (c : Bool)
      → Sound s
      → s.actors addr ≡ some a
      → b.id ≡ a.id
      → b.start_once ≡ a.start_once
      → b.stop_once ≡ in_call
      → b.loop ≡ a.loop
      → is_ended b.loop ≡ c
      → SoundIn (finish_stop s addr b c)
  finish_stop-SoundIn s addr a b false h e i st sp l p =
      let o = its-Ordered s addr a h e in
      changed-Sound s addr a b s.registry h e
        (λ q. absurd (in_call_ne b.stop_once sp q), λ q. st ∙ o.1 (ap has_loop (sym l) ∙ q))
        (λ k n at.
          stays_in s addr a b k n h e (λ v. (i ∙ v.0, st ∙ v.1, in_call_ne b.stop_once sp)) at)
  finish_stop-SoundIn s addr a b true h e i st sp l p =
      let o = its-Ordered s addr a h e in
      let looping = ended-has_loop b.loop p in
      let b' = record b { state = state_stopped; stop_once = called; wal = closed_wal b.wal } in
      changed-Sound s addr a b' (unregister s.registry b.id b.name) h e
        (λ q. looping, λ q. st ∙ o.1 (ap has_loop (sym l) ∙ q))
        (λ k n at.
          let left = sym (unregister-by_id s.registry b.id b.name k) ∙ at in
          elim (Bool-cases (same k b.id)) [
            | inl q ↦ absurd (ground (arith, q, left))
            | inr q ↦
                stays_in s addr a b' k n h e
                  (λ v.
                    absurd
                      (ground (arith, q, ap (λ t. same t b.id) (sym (i ∙ v.0)), same_self b.id)))
                  (ap (λ d. if d then none else s.registry.by_id k) (sym q) ∙ left)
          ])

  stop_when-SoundIn :
      (s : System V) (addr : ℕ) (a : BaseActor V) (o : Once)
      → Sound s
      → s.actors addr ≡ some a
      → a.stop_once ≡ o
      → SoundIn (stop_when s addr a o)
  stop_when-SoundIn s addr a not_called h e p =
      finish_stop-SoundIn s addr a (stopping a) (is_ended a.loop) h e refl refl refl refl refl
  stop_when-SoundIn s addr a in_call h e p = h
  stop_when-SoundIn s addr a called h e p = h

  stop_actor-SoundIn :
      (s : System V) (addr : ℕ) (o : Option (BaseActor V))
      → Sound s
      → s.actors addr ≡ o
      → SoundIn (stop_actor s addr o)
  stop_actor-SoundIn s addr none h e = tt
  stop_actor-SoundIn s addr (some a) h e = stop_when-SoundIn s addr a a.stop_once h e refl

  pub stop-SoundIn : (s : System V) (addr : ℕ) → Sound s → SoundIn (stop s addr)
  unfolding stop
  stop-SoundIn s addr h = stop_actor-SoundIn s addr (s.actors addr) h refl

  resume_when-SoundIn :
      (s : System V) (addr : ℕ) (a : BaseActor V) (o : Once)
      → Sound s
      → s.actors addr ≡ some a
      → a.stop_once ≡ o
      → SoundIn (resume_when s addr a o)
  resume_when-SoundIn s addr a not_called h e p = h
  resume_when-SoundIn s addr a in_call h e p =
      finish_stop-SoundIn s addr a a (is_ended a.loop) h e refl refl p refl refl
  resume_when-SoundIn s addr a called h e p = h

  resume_actor-SoundIn :
      (s : System V) (addr : ℕ) (o : Option (BaseActor V))
      → Sound s
      → s.actors addr ≡ o
      → SoundIn (resume_actor s addr o)
  resume_actor-SoundIn s addr none h e = tt
  resume_actor-SoundIn s addr (some a) h e = resume_when-SoundIn s addr a a.stop_once h e refl

  pub resume_stop-SoundIn : (s : System V) (addr : ℕ) → Sound s → SoundIn (resume_stop s addr)
  unfolding resume_stop
  resume_stop-SoundIn s addr h = resume_actor-SoundIn s addr (s.actors addr) h refl
