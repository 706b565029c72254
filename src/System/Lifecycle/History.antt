-- ===== src/System/Lifecycle/History.antt =====
-- The invariant of the life of actors holds in every history of a system of actor/system.go.
use deqin_actor.Base.{
  ℕ, ◌≡◌, ◌≢◌, ◌⊎◌, inl, inr, refl, sym, ap, ◌∙◌, arith, if◌then◌else◌, Bool, true, false, Option,
  none, some, List, [], ◌∷◌, ℕ_discrete,
}
use mathlib.Core.Path.{subst}
use deqin_actor.Base.Str.{Str, same, put_key, delete_key}
use deqin_actor.Types.{Error, Target, base_actor}
use deqin_actor.Registry
use deqin_actor.Registry.{new_registry, comma_ok}
use deqin_actor.System.{
  System, BaseActor, Host, Serializer, Result, called, not_called, Transport, new_system, expire,
  set_serializer, enable_persistence, enable_rate_limit, subscribe_failures,
}
use deqin_actor.System.Remote.{enable_remote, stop_remote, set_location, enable_when, listening}
use deqin_actor.System.Actor.{BaseActorOptions, new_base_actor, start, stop, resume_stop}
use deqin_actor.System.Handle.{Users}
use deqin_actor.System.Server.{Served}
use deqin_actor.System.Kept.{life, Kept, KeptIn, tell-KeptIn}
use deqin_actor.System.Kept.Handling.{run_step-KeptIn}
use deqin_actor.System.Kept.Sending.{KeptServed, send_async-KeptIn, deliver-KeptServed}
use deqin_actor.System.Lifecycle.{Alive, Ordered, Sound, Kept-Sound}
use deqin_actor.System.Lifecycle.Operations.{
  SoundIn, start-SoundIn, stop-SoundIn, resume_stop-SoundIn,
}
use deqin_actor.System.Lifecycle.Events.{
  Event, makes, starts, stops, resumes, loops, tells, asks, comes_in, expires, locates, subscribes,
  limits, persists, serializes, listens, hangs_up, left, left_by, happens, then_all, history,
}

module _ {V : Type 0} where
  abbrev SoundLeft : Option (System V) → Type 0
  SoundLeft none = Unit {0}
  SoundLeft (some s) = Sound s

  sound_left : (r : Result V) → SoundIn r → SoundLeft (left r)
  sound_left none h = tt
  sound_left (some (s, o)) h = h

  kept_left : (s : System V) (r : Result V) → Sound s → KeptIn s r → SoundLeft (left r)
  kept_left s none h k = tt
  kept_left s (some (s', o)) h k = Kept-Sound s s' h k

  kept_left_by :
      (s : System V) (r : Option (System V × Served))
      → Sound s
      → KeptServed s r
      → SoundLeft (left_by r)
  kept_left_by s none h k = tt
  kept_left_by s (some (s', o)) h k = Kept-Sound s s' h k

  same-Kept :
      (s s' : System V)
      → s'.registry ≡ s.registry
      → s'.next ≡ s.next
      → s'.actors ≡ s.actors
      → Kept s s'
  same-Kept s s' r n a = (r, n, λ k. ap (λ m. life (m k)) a)

  new_base_actor-Sound :
      (host : Host) (s : System V) (new_id : Str) (opts : BaseActorOptions V)
      → Sound s
      → Sound (new_base_actor host s new_id opts).0
  unfolding new_base_actor
  new_base_actor-Sound host s new_id opts h = record {
    named = λ k n at. named_at k n at (ℕ_discrete n s.next);
    ordered = λ n. ordered_at n (ℕ_discrete n s.next);
    fresh = λ n le. ap life (elsewhere n (omega (arith, le))) ∙ h.fresh n (omega (arith, le));
  }
    where
      t : System V
      t = (new_base_actor host s new_id opts).0

      made :
          (n : ℕ)
          → n ≡ s.next
          → life (t.actors n)
            ≡ some (if same opts.id [] then new_id else opts.id, not_called, not_called, false)
      made n p = ground (arith, p)

      elsewhere : (n : ℕ) → n ≢ s.next → t.actors n ≡ s.actors n
      elsewhere n p = ground (arith, p)

      named_at :
          (k : Str) (n : ℕ)
          → s.registry.by_id k ≡ some (some (base_actor n))
          → Dec (n ≡ s.next)
          → Alive k (life (t.actors n))
      named_at k n at (yes p) =
          absurd (subst (Alive k) (h.fresh n (omega (arith, p))) (h.named k n at))
      named_at k n at (no p) = subst (λ o. Alive k (life o)) (sym (elsewhere n p)) (h.named k n at)

      ordered_at : (n : ℕ) → Dec (n ≡ s.next) → Ordered (life (t.actors n))
      ordered_at n (yes p) =
          subst Ordered (sym (made n p)) ((λ q. ground (arith, q)), (λ q. ground (arith, q)))
      ordered_at n (no p) = subst (λ o. Ordered (life o)) (sym (elsewhere n p)) (h.ordered n)

  set_location-Kept : (s : System V) (id addr : Str) → Kept s (set_location s id addr)
  unfolding set_location
  set_location-Kept s id addr = by_tests (same id []) (same addr [])
    where
      by_tests :
          (p q : Bool)
          → Kept s (
              if p
              then s
              else if q
              then record s { locations = delete_key s.locations id }
              else record s { locations = put_key s.locations id addr })
      by_tests true q = (refl, refl, λ k. refl)
      by_tests false true = (refl, refl, λ k. refl)
      by_tests false false = (refl, refl, λ k. refl)

  listening-Kept : (s : System V) (l : Error ⊎ Str) → Kept s (listening s l).0
  listening-Kept s (inl e) = (refl, refl, λ k. refl)
  listening-Kept s (inr addr) = (refl, refl, λ k. refl)

  enable_when-Kept :
      (host : Host) (s : System V) (addr : Str) (o : Option Transport)
      → Kept s (enable_when host s addr o).0
  enable_when-Kept host s addr none = listening-Kept s (host.listen addr)
  enable_when-Kept host s addr (some rt) = (refl, refl, λ k. refl)

  happens-Sound :
      (host : Host) (users : Users V) (text : Error → Str) (s : System V) (e : Event V)
      → Sound s
      → SoundLeft (happens host users text s e)
  unfolding happens expire subscribe_failures enable_rate_limit enable_persistence set_serializer
      enable_remote stop_remote
  happens-Sound host users text s (makes new_id opts) h = new_base_actor-Sound host s new_id opts h
  happens-Sound host users text s (starts addr) h =
      sound_left (start s addr) (start-SoundIn s addr h)
  happens-Sound host users text s (stops addr) h = sound_left (stop s addr) (stop-SoundIn s addr h)
  happens-Sound host users text s (resumes addr) h =
      sound_left (resume_stop s addr) (resume_stop-SoundIn s addr h)
  happens-Sound host users text s (loops notify_first addr) h =
      kept_left s _ h (run_step-KeptIn host users notify_first s addr)
  happens-Sound host users text s (tells times sender t msg opts) h =
      kept_left s _ h (tell-KeptIn host s times sender t msg opts)
  happens-Sound host users text s (asks times cid f addr t msg opts) h =
      kept_left s _ h (send_async-KeptIn host s times cid f addr t msg opts)
  happens-Sound host users text s (comes_in env) h =
      kept_left_by s _ h (deliver-KeptServed text s env)
  happens-Sound host users text s (expires cid) h =
      Kept-Sound s (expire s cid) h (refl, refl, λ k. refl)
  happens-Sound host users text s (locates id addr) h =
      Kept-Sound s (set_location s id addr) h (set_location-Kept s id addr)
  happens-Sound host users text s (subscribes fn) h =
      Kept-Sound s (subscribe_failures s fn) h (refl, refl, λ k. refl)
  happens-Sound host users text s (limits qps burst now) h =
      Kept-Sound s (enable_rate_limit s qps burst now) h (refl, refl, λ k. refl)
  happens-Sound host users text s (persists dir) h =
      Kept-Sound s (enable_persistence s dir) h (refl, refl, λ k. refl)
  happens-Sound host users text s (serializes none) h = h
  happens-Sound host users text s (serializes (some z)) h =
      Kept-Sound s (set_serializer s (some z)) h (refl, refl, λ k. refl)
  happens-Sound host users text s (listens addr) h =
      Kept-Sound s (enable_remote host s addr).0 h (enable_when-Kept host s _ s.remote)
  happens-Sound host users text s hangs_up h =
      Kept-Sound s (stop_remote s) h (refl, refl, λ k. refl)

  history-Sound :
      (host : Host) (users : Users V) (text : Error → Str) (es : List (Event V)) (s : System V)
      → Sound s
      → SoundLeft (history host users text es s)
  unfolding history
  history-Sound host users text [] s h = h
  history-Sound host users text (e ∷ es) s h =
      goes (happens host users text s e) (happens-Sound host users text s e h)
        (history-Sound host users text es)
    where
      goes :
          (o : Option (System V))
          → SoundLeft o
          → ((s' : System V) → Sound s' → SoundLeft (history host users text es s'))
          → SoundLeft (then_all (history host users text es) o)
      goes none k go = tt
      goes (some s') k go = go s' k

  new_system-Sound : (gob : Serializer V) → Sound (new_system gob)
  unfolding new_system
  new_system-Sound gob = record {
    named = λ k n at. absurd (ground (arith, at));
    ordered = λ n. tt;
    fresh = λ n le. refl;
  }

  get-by_id :
      (s : System V) (id : Str) (addr : ℕ) (o : Option (Option Target))
      → s.registry.by_id id ≡ o
      → Registry.get s.registry id ≡ (some (base_actor addr), true)
      → s.registry.by_id id ≡ some (some (base_actor addr))
  unfolding Registry.get
  get-by_id s id addr none e found =
      absurd (ground (arith, ap (λ g. g.1) (ap comma_ok (sym e) ∙ found)))
  get-by_id s id addr (some t) e found = e ∙ ap some (ap (λ g. g.0) (ap comma_ok (sym e) ∙ found))

  alive_actor :
      (s : System V) (id : Str) (addr : ℕ) (o : Option (BaseActor V))
      → s.actors addr ≡ o
      → Alive id (life (s.actors addr))
      → (a : BaseActor V) × (s.actors addr ≡ some a)
        × (a.id ≡ id)
        × (a.start_once ≡ called)
        × (a.stop_once ≢ called)
  alive_actor s id addr none e h = absurd (subst (λ o. Alive id (life o)) e h)
  alive_actor s id addr (some a) e h =
      let (i, st, sp) = subst (λ o. Alive id (life o)) e h in (a, e, i, st, sp)

  -- Whatever the users and the other nodes make a new system do, in whatever order: an actor that the
  -- registry finds under an id is one of the system's with this id, which has been started, and whose
  -- `Stop` has not come to its end. The users do not write to the registry themselves. `Ask` is seen by
  -- the `SendAsync` in it.
  pub registered_is_alive :
      (host : Host) (users : Users V) (text : Error → Str) (gob : Serializer V)
      (events : List (Event V)) (s : System V) (id : Str) (addr : ℕ)
      → history host users text events (new_system gob) ≡ some s
      → Registry.get s.registry id ≡ (some (base_actor addr), true)
      → (a : BaseActor V) × (s.actors addr ≡ some a)
        × (a.id ≡ id)
        × (a.start_once ≡ called)
        × (a.stop_once ≢ called)
  registered_is_alive host users text gob events s id addr e found =
      let h =
        subst SoundLeft e
          (history-Sound host users text events (new_system gob) (new_system-Sound gob)) in
      alive_actor s id addr (s.actors addr) refl
        (h.named id addr (get-by_id s id addr (s.registry.by_id id) refl found))
