-- ===== src/System/Lifecycle.antt =====
-- The life of an actor of actor/base_actor.go and its registration: an invariant of every history of
-- a system.
pub mod Operations
pub mod Events
pub mod History
use deqin_actor.Base.{
  ℕ, zero, suc, ◌+◌, ◌-◌, ◌*◌, ◌/◌, ◌%◌, ◌^◌, ◌≤◌, ◌<◌, min, max, ◌≡◌, ◌≢◌, ◌↔◌, ◌⊎◌, inl, inr,
  refl, sym, ap, ap₂, ◌∙◌, arith, tests, if◌then◌else◌, ltb, leb, ◌==◌, ltb→lt, lt→ltb, le→ltb,
  leb→le, le→leb, lt→leb, ==_iff, Bool-cases, Option-cases, Bool, true, false, not, ◌&&◌, ◌||◌,
  Option, none, some, List, [], ◌∷◌, ◌++◌, map, append-nil, append_assoc, length, get_elem?, set,
  take, drop, length-append, length-set, get_elem?-set_self, get_elem?-set_ne, get_elem?-eq_some,
  get_elem?-append_left, get_elem?-append_end, dec_lt, dec_le, ℕ_discrete,
}
use mathlib.Core.Path.{subst}
use deqin_actor.Base.Int.{ℤ}
use deqin_actor.Base.Str.{Str, same, same_self, same-eq, same-ne}
use deqin_actor.Types.{Error, Message, Target, base_actor, SendOptions}
use deqin_actor.Mailbox.{Mailbox}
use deqin_actor.Types.{EnvelopeMeta}
use deqin_actor.BaseActor.{Loop, popping, waiting, ended}
use deqin_actor.Registry
use deqin_actor.Registry.{Registry, register, unregister}
use deqin_actor.System.{
  System, BaseActor, Host, RemoteEnvelope, Serializer, Outcome, Result, Once, not_called, in_call,
  called, set_actor,
}
use deqin_actor.System.Actor.{
  BaseActorOptions, new_base_actor, started, start_when, start_actor, start, finish_stop, stopping,
  stop_when, stop_actor, stop, resume_when, resume_actor, resume_stop, is_ended, replay_wal,
}
use deqin_actor.System.Kept.{life, has_loop, Kept, KeptIn}

-- An actor that the registry may know under the id `k`: it has been started under this id, and has
-- not been stopped to the end.
abbrev pub Alive : Str → Option (Str × Once × Once × Bool) → Type 0
Alive k none = ⊥
Alive k (some (id, st, sp, l)) = (id ≡ k) × (st ≡ called) × (sp ≢ called)

-- An actor is stopped to the end only if it has a goroutine, which it has only once it is started.
abbrev pub Ordered : Option (Str × Once × Once × Bool) → Type 0
Ordered none = Unit {0}
Ordered (some (id, st, sp, l)) = (sp ≡ called → l ≡ true) × (l ≡ true → st ≡ called)

module _ {V : Type 0} where
  pub record Sound (s : System V) : Type 0 where
    pub named :
        (k : Str) (n : ℕ)
        → s.registry.by_id k ≡ some (some (base_actor n))
        → Alive k (life (s.actors n))
    pub ordered : (n : ℕ) → Ordered (life (s.actors n))
    pub fresh : (n : ℕ) → s.next ≤ n → life (s.actors n) ≡ none

  pub Kept-Sound : (s s' : System V) → Sound s → Kept s s' → Sound s'
  Kept-Sound s s' h (r, n, l) = record {
    named = λ k m e. subst (Alive k) (sym (l m)) (h.named k m (ap (λ t. t.by_id k) (sym r) ∙ e));
    ordered = λ m. subst Ordered (sym (l m)) (h.ordered m);
    fresh = λ m le. l m ∙ h.fresh m (omega (arith, n, le));
  }

  -- Where an entry of the registry comes from when one actor changes.
  abbrev pub Entry : System V → ℕ → BaseActor V → Str → ℕ → Type 0
  Entry s addr a k n =
      ((n ≡ addr) × Alive k (life (some a)))
      ⊎ ((n ≢ addr) × (s.registry.by_id k ≡ some (some (base_actor n))))

  pub changed-Sound :
      (s : System V) (addr : ℕ) (a a' : BaseActor V) (r : Registry Target)
      → Sound s
      → s.actors addr ≡ some a
      → Ordered (life (some a'))
      → ((k : Str) (n : ℕ) → r.by_id k ≡ some (some (base_actor n)) → Entry s addr a' k n)
      → Sound (record (set_actor s addr a') { registry = r })
  changed-Sound s addr a a' r h e o entries = record {
    named = λ k n at. named_at k n (entries k n at);
    ordered = λ n. ordered_at n (ℕ_discrete n addr);
    fresh = λ n le. fresh_at n le (ℕ_discrete n addr);
  }
    where
      t : System V
      t = record (set_actor s addr a') { registry = r }

      here : (n : ℕ) → n ≡ addr → t.actors n ≡ some a'
      here n p = ground (arith, p)

      elsewhere : (n : ℕ) → n ≢ addr → t.actors n ≡ s.actors n
      elsewhere n p = ground (arith, p)

      named_at : (k : Str) (n : ℕ) → Entry s addr a' k n → Alive k (life (t.actors n))
      named_at k n (inl (p, v)) = subst (λ u. Alive k (life u)) (sym (here n p)) v
      named_at k n (inr (p, at)) =
          subst (λ u. Alive k (life u)) (sym (elsewhere n p)) (h.named k n at)

      ordered_at : (n : ℕ) → Dec (n ≡ addr) → Ordered (life (t.actors n))
      ordered_at n (yes p) = subst (λ u. Ordered (life u)) (sym (here n p)) o
      ordered_at n (no p) = subst (λ u. Ordered (life u)) (sym (elsewhere n p)) (h.ordered n)

      fresh_at : (n : ℕ) → s.next ≤ n → Dec (n ≡ addr) → life (t.actors n) ≡ none
      fresh_at n le (yes p) = ground (arith, h.fresh n le, ap s.actors p, e)
      fresh_at n le (no p) = ap life (elsewhere n p) ∙ h.fresh n le
