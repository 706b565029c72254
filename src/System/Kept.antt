-- ===== src/System/Kept.antt =====
-- What the delivery of messages by actor/system.go, actor/base_actor.go and actor/remote.go leaves
-- alone: the registry, and the life of each actor.
pub mod Handling
pub mod Sending
use deqin_actor.Base.{
  ℕ, zero, suc, ◌+◌, ◌-◌, ◌*◌, ◌/◌, ◌%◌, ◌^◌, ◌≤◌, ◌<◌, min, max, ◌≡◌, ◌≢◌, ◌↔◌, ◌⊎◌, inl, inr,
  refl, sym, ap, ap₂, ◌∙◌, arith, tests, if◌then◌else◌, ltb, leb, ◌==◌, ltb→lt, lt→ltb, le→ltb,
  leb→le, le→leb, lt→leb, ==_iff, Bool-cases, Option-cases, Bool, true, false, not, ◌&&◌, ◌||◌,
  Option, none, some, List, [], ◌∷◌, ◌++◌, map, append-nil, append_assoc, length, get_elem?, set,
  take, drop, length-append, length-set, get_elem?-set_self, get_elem?-set_ne, get_elem?-eq_some,
  get_elem?-append_left, get_elem?-append_end, dec_lt, dec_le, ℕ_discrete,
}
use deqin_actor.Base.Int.{ℤ, pos}
use deqin_actor.Base.Str.{Str, same}
use deqin_actor.Types.{
  Error, Message, nil_message, user, priority_message, request, response, EnvelopeMeta, Target,
  base_actor, actor_ref, other_actor, SendOptions, Context, envelope_kind_request,
  envelope_kind_response,
}
use deqin_actor.Mailbox.{Envelope, Mailbox, Pushed, push}
use deqin_actor.BaseActor.{Loop}
use deqin_actor.Registry
use deqin_actor.RateLimit
use deqin_actor.RateLimit.{TokenBucket}
use deqin_actor.System.{
  System, BaseActor, Host, Transport, RemoteEnvelope, Outcome, returns, throttled, no_room, blocked,
  Result, Once, set_actor, id_of_actor,
}
use deqin_actor.System.Remote.{location_of, conn, remote_deliver, invoked, deliver_by}
use deqin_actor.System.Deliver.{
  actor_tell, push_to, stored, logged, hooked, envelope, tell_found, deliver_to_id, deliver_found,
  deliver_at, send_marshalled, returning, remote_envelope, admitted, throttle, route, tell,
  send_request, send_response, receive_other, counted,
}

abbrev pub has_loop : Option Loop → Bool
has_loop none = false
has_loop (some place) = true

module _ {V : Type 0} where
  -- The id of an actor, how far it has been started and stopped, and whether it has a goroutine.
  abbrev pub life : Option (BaseActor V) → Option (Str × Once × Once × Bool)
  life none = none
  life (some a) = some (a.id, a.start_once, a.stop_once, has_loop a.loop)

  abbrev pub Kept : System V → System V → Type 0
  Kept s s' =
      (s'.registry ≡ s.registry)
      × (s'.next ≡ s.next)
      × ((k : ℕ) → life (s'.actors k) ≡ life (s.actors k))

  abbrev pub KeptIn : System V → Result V → Type 0
  KeptIn s none = Unit {0}
  KeptIn s (some (s', o)) = Kept s s'

  pub carry_over : (s s' : System V) (r : Result V) → Kept s s' → KeptIn s' r → KeptIn s r
  carry_over s s' none h h' = h'
  carry_over s s' (some (t, o)) (a, b, c) (a', b', c') = (a' ∙ a, b' ∙ b, λ k. c' k ∙ c k)

  pub change_actor :
      (s : System V) (addr : ℕ) (a a' : BaseActor V)
      → s.actors addr ≡ some a
      → life (some a') ≡ life (some a)
      → Kept s (set_actor s addr a')
  change_actor s addr a a' e l = (refl, refl, λ k. kept_at k (ℕ_discrete k addr))
    where
      kept_at : (k : ℕ) → Dec (k ≡ addr) → life ((set_actor s addr a').actors k) ≡ life (s.actors k)
      kept_at k (yes p) = ground (arith, p, e, l)
      kept_at k (no n) = ground (arith, n)

  stored-KeptIn :
      (s : System V) (addr : ℕ) (a : BaseActor V) (w : Option (Str × Bool)) (bs : List (List ℕ))
      (out : Option (Mailbox (Message V) EnvelopeMeta × Pushed))
      → s.actors addr ≡ some a
      → KeptIn s (stored (logged s w bs) addr a out)
  stored-KeptIn s addr a w bs none e = tt
  stored-KeptIn s addr a none bs (some (mb, r)) e =
      change_actor s addr a (record a { mailbox = mb }) e refl
  stored-KeptIn s addr a (some (path, is_open)) bs (some (mb, r)) e =
      change_actor s addr a (record a { mailbox = mb }) e refl

  push_to-KeptIn :
      (s : System V) (addr : ℕ) (o : Option (BaseActor V)) (env : Envelope (Message V) EnvelopeMeta)
      → s.actors addr ≡ o
      → KeptIn s (push_to s addr o env)
  push_to-KeptIn s addr none env e = tt
  push_to-KeptIn s addr (some a) env e =
      let out = push [] (hooked s.serializer a.wal a.mailbox) env in
      stored-KeptIn s addr a a.wal out.1 out.0 e

  actor_tell-KeptIn :
      (s : System V) (addr : ℕ) (msg : Message V) (meta : EnvelopeMeta) (pri : ℕ) (persist : Bool)
      → KeptIn s (actor_tell s addr msg meta pri persist)
  unfolding actor_tell
  actor_tell-KeptIn s addr msg meta pri persist =
      push_to-KeptIn s addr (s.actors addr) (envelope msg meta pri persist) refl

  pub tell_found-KeptIn :
      (s : System V) (t : Option Target) (msg : Message V) (meta : EnvelopeMeta) (pri : ℕ)
      (persist : Bool)
      → KeptIn s (tell_found s t msg meta pri persist)
  tell_found-KeptIn s none msg meta pri persist = tt
  tell_found-KeptIn s (some (base_actor addr)) msg meta pri persist =
      actor_tell-KeptIn s addr msg meta pri persist
  tell_found-KeptIn s (some (actor_ref id)) msg meta pri persist = (refl, refl, λ k. refl)
  tell_found-KeptIn s (some (other_actor id n)) msg meta pri persist = (refl, refl, λ k. refl)

  invoked-KeptIn :
      (host : Host) (s : System V) (addr : Str) (env : RemoteEnvelope)
      (c : Transport × Option Error)
      → KeptIn s (returning (invoked host s addr env c))
  invoked-KeptIn host s addr env (rt, some e) = (refl, refl, λ k. refl)
  invoked-KeptIn host s addr env (rt, none) = (refl, refl, λ k. refl)

  deliver_by-KeptIn :
      (host : Host) (s : System V) (addr : Str) (env : RemoteEnvelope) (rt : Option Transport)
      → KeptIn s (returning (deliver_by host s addr env rt))
  deliver_by-KeptIn host s addr env none = (refl, refl, λ k. refl)
  deliver_by-KeptIn host s addr env (some rt) = invoked-KeptIn host s addr env (conn host rt addr)

  send_marshalled-KeptIn :
      (host : Host) (s : System V) (addr to_id : Str) (meta : EnvelopeMeta) (pri : ℕ)
      (m : Error ⊎ Str)
      → KeptIn s (send_marshalled host s addr to_id meta pri m)
  unfolding remote_deliver
  send_marshalled-KeptIn host s addr to_id meta pri (inl e) = (refl, refl, λ k. refl)
  send_marshalled-KeptIn host s addr to_id meta pri (inr b) =
      deliver_by-KeptIn host s addr (remote_envelope to_id meta pri b) s.remote

  deliver_at-KeptIn :
      (host : Host) (s : System V) (at : Option Str) (to_id : Str) (meta : EnvelopeMeta) (pri : ℕ)
      (payload : Message V)
      → KeptIn s (deliver_at host s at to_id meta pri payload)
  deliver_at-KeptIn host s none to_id meta pri payload = (refl, refl, λ k. refl)
  deliver_at-KeptIn host s (some addr) to_id meta pri payload =
      send_marshalled-KeptIn host s addr to_id meta pri (s.serializer.marshal payload)

  deliver_found-KeptIn :
      (host : Host) (s : System V) (g : Option Target × Bool) (to_id : Str) (meta : EnvelopeMeta)
      (pri : ℕ) (payload : Message V) (persist : Bool)
      → KeptIn s (deliver_found host s g to_id meta pri payload persist)
  deliver_found-KeptIn host s (t, true) to_id meta pri payload persist =
      tell_found-KeptIn s t payload meta pri persist
  deliver_found-KeptIn host s (t, false) to_id meta pri payload persist =
      deliver_at-KeptIn host s (location_of s to_id) to_id meta pri payload

  kept_if :
      (s : System V) (c : Bool) (o : Outcome) (r : Result V)
      → KeptIn s r
      → KeptIn s (if c then some (s, o) else r)
  kept_if s true o r h = (refl, refl, λ k. refl)
  kept_if s false o r h = h

  deliver_to_id-KeptIn :
      (host : Host) (s : System V) (to_id : Str) (meta : EnvelopeMeta) (pri : ℕ)
      (payload : Message V) (persist : Bool)
      → KeptIn s (deliver_to_id host s to_id meta pri payload persist)
  unfolding deliver_to_id
  deliver_to_id-KeptIn host s to_id meta pri payload persist =
      kept_if s (same to_id []) (returns (some Error.actor_not_found)) _
        (deliver_found-KeptIn host s (Registry.get s.registry to_id) to_id meta pri payload persist)

  route-KeptIn :
      (host : Host) (s : System V) (t : Target) (msg : Message V) (meta : EnvelopeMeta) (pri : ℕ)
      (persist : Bool)
      → KeptIn s (route host s t msg meta pri persist)
  route-KeptIn host s (base_actor addr) msg meta pri persist =
      actor_tell-KeptIn s addr msg meta pri persist
  route-KeptIn host s (actor_ref id) msg meta pri persist =
      deliver_to_id-KeptIn host s id meta pri msg persist
  route-KeptIn host s (other_actor none n) msg meta pri persist = (refl, refl, λ k. refl)
  route-KeptIn host s (other_actor (some id) n) msg meta pri persist =
      received_or (same id []) (deliver_to_id-KeptIn host s id meta pri msg persist)
    where
      received_or :
          (c : Bool)
          → KeptIn s (deliver_to_id host s id meta pri msg persist)
          → KeptIn s (
              if c
              then some (receive_other s (other_actor (some id) n) msg, returns none)
              else deliver_to_id host s id meta pri msg persist)
      received_or true h = (refl, refl, λ k. refl)
      received_or false h = h

  -- A send that passes the limiter or not.
  admitted-KeptIn :
      (s : System V) (l : Option TokenBucket) (times : List ℤ) (send : System V → Result V)
      → ((s' : System V) → KeptIn s' (send s'))
      → KeptIn s (admitted (throttle s l times) send)
  admitted-KeptIn s none times send h =
      carry_over s (record s { metrics = counted s.metrics }) (send _) (refl, refl, λ k. refl) (h _)
  admitted-KeptIn s (some tb) times send h = by_wait (RateLimit.wait tb (pos 1) times)
    where
      by_wait :
          (w : TokenBucket × Bool) → KeptIn s (admitted (record s { limiter = some w.0 }, w.1) send)
      by_wait (tb', true) =
          carry_over s (record s { limiter = some tb'; metrics = counted s.metrics }) (send _)
            (refl, refl, λ k. refl) (h _)
      by_wait (tb', false) = (refl, refl, λ k. refl)

  pub tell-KeptIn :
      (host : Host) (s : System V) (times : List ℤ) (sender : Option ℕ) (t : Option Target)
      (msg : Message V) (opts : SendOptions)
      → KeptIn s (tell host s times sender t msg opts)
  unfolding tell
  tell-KeptIn host s times sender none msg opts = (refl, refl, λ k. refl)
  tell-KeptIn host s times sender (some t) msg opts =
      admitted-KeptIn s s.limiter times _ (λ s'. route-KeptIn host s' t _ _ _ _)

  pub send_request-KeptIn :
      (host : Host) (s : System V) (times : List ℤ) (sender : Option ℕ) (t : Target) (cid : Str)
      (payload : Message V) (reply_to : Str) (pri : ℕ) (persist : Bool)
      → KeptIn s (send_request host s times sender t cid payload reply_to pri persist)
  unfolding send_request
  send_request-KeptIn host s times sender t cid payload reply_to pri persist =
      admitted-KeptIn s s.limiter times _ (λ s'. route-KeptIn host s' t _ _ _ _)

  pub send_response-KeptIn :
      (host : Host) (s : System V) (times : List ℤ) (from_id to_id cid : Str) (value : Message V)
      (err : Option Error)
      → KeptIn s (send_response host s times from_id to_id cid value err)
  unfolding send_response
  send_response-KeptIn host s times from_id to_id cid value err =
      admitted-KeptIn s s.limiter times _
        (λ s'. deliver_to_id-KeptIn host s' to_id _ _ (response cid value err) false)
