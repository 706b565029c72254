-- ===== src/System.antt =====
-- actor/system.go: the state of a system, with the actors that it runs, and the operations that set
-- it up. `V` is the type of the users' own messages. What the operating system and the network do is
-- a parameter, `Host`. An operation runs with no other goroutine in between.
pub mod Remote
pub mod Deliver
pub mod Actor
pub mod Handle
pub mod Server
pub mod Async
pub mod Accepted
pub mod Requests
pub mod Refused
pub mod Across
pub mod Kept
pub mod Lifecycle
pub mod Panics
pub mod Restart
pub mod Sync
pub mod Monitor
mod Tests
use deqin_actor.Base.{
  ℕ, zero, suc, ◌+◌, ◌-◌, ◌*◌, ◌/◌, ◌%◌, ◌^◌, ◌≤◌, ◌<◌, min, max, ◌≡◌, ◌≢◌, ◌↔◌, ◌⊎◌, inl, inr,
  refl, sym, ap, ap₂, ◌∙◌, arith, tests, if◌then◌else◌, ltb, leb, ◌==◌, ltb→lt, lt→ltb, le→ltb,
  leb→le, le→leb, lt→leb, ==_iff, Bool-cases, Option-cases, Bool, true, false, not, ◌&&◌, ◌||◌,
  Option, none, some, List, [], ◌∷◌, ◌++◌, map, append-nil, append_assoc, length, get_elem?, set,
  take, drop, length-append, length-set, get_elem?-set_self, get_elem?-set_ne, get_elem?-eq_some,
  get_elem?-append_left, get_elem?-append_end, dec_lt, dec_le, ℕ_discrete,
}
use mathlib.Core.Option
use deqin_actor.Base.Int.{ℤ, pos, negsuc}
use deqin_actor.Base.Time.{second}
use deqin_actor.Base.Str.{Str, same, put_key}
use deqin_actor.Types.{
  Error, actor_not_found, Message, EnvelopeMeta, Target, base_actor, actor_ref, other_actor,
  ActorState,
}
use deqin_actor.Mailbox.{Mailbox}
use deqin_actor.BaseActor.{Loop}
use deqin_actor.Registry
use deqin_actor.Registry.{Registry, new_registry}
use deqin_actor.Pending
use deqin_actor.Pending.{Response}
use deqin_actor.Breaker.{CircuitBreaker, new_circuit_breaker}
use deqin_actor.RateLimit
use deqin_actor.RateLimit.{TokenBucket, new_token_bucket}
use deqin_actor.Metrics.{Metrics}

-- A `Serializer`.
pub record Serializer (V : Type 0) : Type 0 where
  pub marshal : Message V → Error ⊎ Str
  pub unmarshal : Str → Error ⊎ Message V

pub record RemoteEnvelope : Type 0 where
  pub to_id : Str
  pub from_id : Str
  pub kind : ℕ
  pub priority : ℕ
  pub correlation_id : Str
  pub reply_to : Str
  pub payload : Str

pub record RemoteAck : Type 0 where
  pub ok : Bool
  pub err : Str

-- `filepath.Join`, whether `persistence.Open` of a path succeeds, the error or the local address of
-- `net.Listen`, the error of `grpc.Dial`, and the error or the reply of an `Invoke` of an address.
pub record Host : Type 0 where
  pub join : Str → Str → Str
  pub opens : Str → Bool
  pub listen : Str → Error ⊎ Str
  pub dial : Str → Option Error
  pub invoke : Str → RemoteEnvelope → Error ⊎ RemoteAck

-- A `remoteTransport`: the address that it listens on, and the addresses that it has a connection to.
pub record Transport : Type 0 where
  pub addr : Str
  pub conns : Str → Bool

-- A `sync.Once`: not called, its function runs, or it has returned.
pub data Once : Type 0 where
  not_called : Once
  in_call : Once
  called : Once

-- `wal` is the path of the log and whether it is open. `loop` is the place of the goroutine `run`,
-- which `Start` starts; `done` is closed once it has ended.
pub record BaseActor (V : Type 0) : Type 0 where
  pub id : Str
  pub name : Str
  pub mailbox : Mailbox (Message V) EnvelopeMeta
  pub has_receive : Bool
  pub wal : Option (Str × Bool)
  pub state : ActorState
  pub start_once : Once
  pub stop_once : Once
  pub loop : Option Loop

-- The value and the error of a response.
abbrev pub Reply : Type 0 → Type 0
Reply V = Message V × Option Error

-- `actors` holds the actors by their addresses, all below `next`, and `disk` the logs by their
-- paths. A future, and a subscriber to failures, is known by a number. The last five fields record
-- what the system did: the calls of `Receive` of other implementations, the envelopes that it handed
-- to `Invoke`, the futures that it completed, the failures that it told its subscribers of, and
-- the actors that it started a goroutine to stop.
pub record System (V : Type 0) : Type 0 where
  pub registry : Registry Target
  pub actors : ℕ → Option (BaseActor V)
  pub next : ℕ
  pub pending : Str → Option ℕ
  pub breakers : Str → Option CircuitBreaker
  pub serializer : Serializer V
  pub persist_dir : Str
  pub disk : Str → List ℕ
  pub wait_tokens : ℕ
  pub metrics : Option Metrics
  pub limiter : Option TokenBucket
  pub remote : Option Transport
  pub locations : Str → Option Str
  pub fail_sub : List ℕ
  pub received : List (ℕ × Message V)
  pub sent : List (Str × RemoteEnvelope)
  pub completions : List (ℕ × Response (Reply V))
  pub notified : List (ℕ × Str × Message V)
  pub stops : List ℕ

-- What an operation comes to: it returns an error or nil, or it still waits: for the limiter, for
-- room in a mailbox, or for another goroutine that starts or stops the actor.
pub data Outcome : Type 0 where
  returns : Option Error → Outcome
  throttled : Outcome
  no_room : Outcome
  blocked : Outcome

-- `none` if a loop of a queue has not returned, or at an address of no actor.
abbrev pub Result : Type 0 → Type 0
Result V = Option (System V × Outcome)

-- `NewSystem`; the `GobSerializer` is a parameter.
unfoldable pub new_system : {V : Type 0} → Serializer V → System V
unfolding new_registry
new_system gob = record {
  registry = new_registry;
  actors = λ k. none;
  next = 0;
  pending = λ k. none;
  breakers = λ k. none;
  serializer = gob;
  persist_dir = [];
  disk = λ k. [];
  wait_tokens = 0;
  metrics = none;
  limiter = none;
  remote = none;
  locations = λ k. none;
  fail_sub = [];
  received = [];
  sent = [];
  completions = [];
  notified = [];
  stops = [];
}

abbrev limiter_with : Option TokenBucket → ℤ → ℤ → TokenBucket
limiter_with none qps now = new_token_bucket qps qps now
limiter_with (some tb) qps now = RateLimit.set_qps tb qps now

-- ".wal"
abbrev wal_suffix : Str
wal_suffix = 46 ∷ 119 ∷ 97 ∷ 108 ∷ []

abbrev pub default_breaker : CircuitBreaker
unfolding new_circuit_breaker
default_breaker = new_circuit_breaker 50 (pos (30 * second))

module _ {V : Type 0} where
  unfoldable pub set_serializer : System V → Option (Serializer V) → System V
  set_serializer s none = s
  set_serializer s (some z) = record s { serializer = z }

  unfoldable pub enable_persistence : System V → Str → System V
  enable_persistence s dir = record s { persist_dir = dir }

  unfoldable pub enable_rate_limit : System V → ℤ → ℤ → ℤ → System V
  enable_rate_limit s qps burst now = record s { limiter = some (new_token_bucket qps burst now) }

  unfoldable pub set_qps : System V → ℤ → ℤ → System V
  set_qps s qps now = record s { limiter = some (limiter_with s.limiter qps now) }

  unfoldable pub actor_wal_path : Host → System V → Str → Str
  actor_wal_path host s actor_id =
      if same s.persist_dir [] || same actor_id []
      then []
      else host.join s.persist_dir (actor_id ++ wal_suffix)

  unfoldable find_by_id : System V → Str → Option Target × Bool
  find_by_id s id = Registry.get s.registry id

  unfoldable find_by_name : System V → Str → Option Target × Bool
  find_by_name s name = Registry.get_by_name s.registry name

  -- `m[a] = v` for the actors.
  abbrev pub set_actor : System V → ℕ → BaseActor V → System V
  set_actor s addr a = record s { actors = λ k. if k == addr then some a else s.actors k }

  unfoldable pub complete_future : System V → Str → Message V → Option Error → System V
  unfolding Pending.complete_future
  complete_future s cid value err =
      let (pending, done) =
        Pending.complete_future s.pending
          (record { correlation_id = cid; outcome = some (value, err) }) in
      record s { pending = pending; completions = s.completions ++ done }

  unfoldable pub track_pending : System V → Str → ℕ → System V
  track_pending s cid f = record s { pending = Pending.track_pending s.pending cid f }

  -- What the timer of `TrackPending` runs.
  unfoldable pub expire : System V → Str → System V
  expire s cid =
      let (pending, done) = Pending.expire s.pending cid in
      record s { pending = pending; completions = s.completions ++ done }

  abbrev pub id_of_actor : Option (BaseActor V) → Str
  id_of_actor none = []
  id_of_actor (some a) = a.id

  -- The id that `breakerFor` finds, given the actors of the system.
  abbrev pub target_id : (ℕ → Option (BaseActor V)) → Target → Str
  target_id actors (base_actor addr) = id_of_actor (actors addr)
  target_id actors (actor_ref id) = id
  target_id actors (other_actor none n) = []
  target_id actors (other_actor (some id) n) = id

  abbrev pub found_breaker :
      System V → Str → Option CircuitBreaker → System V × Option CircuitBreaker
  found_breaker s id none =
      (record s { breakers = put_key s.breakers id default_breaker }, some default_breaker)
  found_breaker s id (some b) = (s, some b)

  -- A nil target is `none`.
  unfoldable pub breaker_for : System V → Option Target → System V × Option CircuitBreaker
  breaker_for s none = (s, none)
  breaker_for s (some t) =
      let id = target_id s.actors t in
      if same id [] then (s, none) else found_breaker s id (s.breakers id)

  unfoldable pub subscribe_failures : System V → ℕ → System V
  subscribe_failures s fn = record s { fail_sub = s.fail_sub ++ fn ∷ [] }

  abbrev pub told : Str → Message V → List ℕ → List (ℕ × Str × Message V)
  told id reason [] = []
  told id reason (fn ∷ subs) = (fn, id, reason) ∷ told id reason subs

  -- `reason` is the value of the panic.
  unfoldable pub notify_failure : System V → Str → Message V → System V
  notify_failure s id reason = record s { notified = s.notified ++ told id reason s.fail_sub }
