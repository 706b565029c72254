-- ===== src/System/Deliver.antt =====
-- actor/system.go and actor/base_actor.go: how a message gets to its actor. A `Push` that has to wait
-- for room is followed up to its first sleep.
use deqin_actor.Base.{
  ℕ, ◌⊎◌, inl, inr, if◌then◌else◌, Bool, true, false, Option, none, some, List, [], ◌∷◌, ◌++◌,
}
use deqin_actor.Base.Int.{ℤ, pos}
use deqin_actor.Base.Str.{Str, same}
use deqin_actor.Types
use deqin_actor.Types.{
  Error, actor_not_found, other_error, Message, priority_message, request, response, EnvelopeMeta,
  Target, base_actor, actor_ref, other_actor, SendOptions, priority_urgent, envelope_kind_user,
  envelope_kind_request, envelope_kind_response,
}
use deqin_actor.Mailbox.{
  Envelope, Mailbox, Pushed, no_error, mailbox_closed, mailbox_full, unknown_policy, waiting, push,
}
use deqin_actor.Registry
use deqin_actor.RateLimit
use deqin_actor.RateLimit.{TokenBucket}
use deqin_actor.Metrics.{Metrics, inc_out}
use deqin_actor.Wal
use deqin_actor.Wal.{Wal}
use deqin_actor.System.{
  System, BaseActor, Serializer, Host, RemoteEnvelope, Outcome, returns, throttled, no_room, Result,
  set_actor, id_of_actor,
}
use deqin_actor.System.Remote.{location_of, remote_deliver}

abbrev pub pushed_outcome : Pushed → Outcome
pushed_outcome no_error = returns none
pushed_outcome mailbox_closed = returns (some Types.mailbox_closed)
pushed_outcome mailbox_full = returns (some Types.mailbox_full)
pushed_outcome unknown_policy = returns (some Types.unknown_policy)
pushed_outcome waiting = no_room

abbrev pub encoded_bytes : Error ⊎ Str → Option Str
encoded_bytes (inl e) = none
encoded_bytes (inr b) = some b

abbrev pub append_all : Wal → List (List ℕ) → Wal
append_all w [] = w
append_all w (b ∷ bs) = append_all (Wal.append w b).0 bs

abbrev pub remote_envelope : Str → EnvelopeMeta → ℕ → Str → RemoteEnvelope
remote_envelope to_id meta pri b = record {
  to_id = to_id;
  from_id = meta.from_id;
  kind = meta.kind;
  priority = pri;
  correlation_id = meta.correlation_id;
  reply_to = meta.reply_to;
  payload = b;
}

abbrev pub counted : Option Metrics → Option Metrics
counted none = none
counted (some m) = some (inc_out m)

abbrev pub user_meta : Str → EnvelopeMeta
user_meta from_id = record {
  kind = envelope_kind_user;
  from_id = from_id;
  correlation_id = [];
  reply_to = [];
}

abbrev pub request_meta : Str → Str → Str → EnvelopeMeta
request_meta from_id cid reply_to = record {
  kind = envelope_kind_request;
  from_id = from_id;
  correlation_id = cid;
  reply_to = reply_to;
}

abbrev pub response_meta : Str → Str → EnvelopeMeta
response_meta from_id cid = record {
  kind = envelope_kind_response;
  from_id = from_id;
  correlation_id = cid;
  reply_to = [];
}

module _ {V : Type 0} where
  -- The hook and the encoder that `NewBaseActor` gives the mailbox of an actor with a log: the
  -- encoder asks the serializer that the system has at the time.
  abbrev pub hooked :
      Serializer V
      → Option (Str × Bool)
      → Mailbox (Message V) EnvelopeMeta
      → Mailbox (Message V) EnvelopeMeta
  hooked z none mb = mb
  hooked z (some w) mb = record mb {
    has_persist = true;
    encode = some (λ v. encoded_bytes (z.marshal v));
  }

  -- What the hook does with the bytes that it is given; those of a user's own hook are not kept.
  abbrev pub logged : System V → Option (Str × Bool) → List (List ℕ) → System V
  logged s none bs = s
  logged s (some (path, is_open)) bs = record s {
    disk = λ p.
        if same p path
        then (append_all (record { is_open = is_open; bytes = s.disk path }) bs).bytes
        else s.disk p;
  }

  abbrev pub stored :
      System V → ℕ → BaseActor V → Option (Mailbox (Message V) EnvelopeMeta × Pushed) → Result V
  stored s addr a none = none
  stored s addr a (some (mb, r)) =
      some (set_actor s addr (record a { mailbox = mb }), pushed_outcome r)

  abbrev pub push_to :
      System V → ℕ → Option (BaseActor V) → Envelope (Message V) EnvelopeMeta → Result V
  push_to s addr none env = none
  push_to s addr (some a) env =
      let out = push [] (hooked s.serializer a.wal a.mailbox) env in
      stored (logged s a.wal out.1) addr a out.0

  abbrev pub envelope : Message V → EnvelopeMeta → ℕ → Bool → Envelope (Message V) EnvelopeMeta
  envelope msg meta pri persist = record {
    priority = pri;
    payload = msg;
    data_of = meta;
    persist = persist;
  }

  -- `tell` of the actor at an address.
  unfoldable pub actor_tell : System V → ℕ → Message V → EnvelopeMeta → ℕ → Bool → Result V
  actor_tell s addr msg meta pri persist =
      push_to s addr (s.actors addr) (envelope msg meta pri persist)

  -- `Receive` of an `IActor` that is not a `BaseActor`; that of an `ActorRef` does nothing.
  abbrev pub receive_other : System V → Target → Message V → System V
  receive_other s (base_actor addr) msg = s
  receive_other s (actor_ref id) msg = s
  receive_other s (other_actor id n) msg = record s { received = s.received ++ (n, msg) ∷ [] }

  -- A nil actor that is registered makes the call of `Receive` panic: `none`.
  abbrev pub tell_found : System V → Option Target → Message V → EnvelopeMeta → ℕ → Bool → Result V
  tell_found s none msg meta pri persist = none
  tell_found s (some (base_actor addr)) msg meta pri persist =
      actor_tell s addr msg meta pri persist
  tell_found s (some (actor_ref id)) msg meta pri persist = some (s, returns none)
  tell_found s (some (other_actor id n)) msg meta pri persist =
      some (receive_other s (other_actor id n) msg, returns none)

  abbrev pub returning : System V × Option Error → Result V
  returning (s, e) = some (s, returns e)

  abbrev pub send_marshalled :
      Host → System V → Str → Str → EnvelopeMeta → ℕ → Error ⊎ Str → Result V
  send_marshalled host s addr to_id meta pri (inl e) = some (s, returns (some e))
  send_marshalled host s addr to_id meta pri (inr b) =
      returning (remote_deliver host s addr (remote_envelope to_id meta pri b))

  abbrev pub deliver_at :
      Host → System V → Option Str → Str → EnvelopeMeta → ℕ → Message V → Result V
  deliver_at host s none to_id meta pri payload = some (s, returns (some actor_not_found))
  deliver_at host s (some addr) to_id meta pri payload =
      send_marshalled host s addr to_id meta pri (s.serializer.marshal payload)

  abbrev pub deliver_found :
      Host → System V → Option Target × Bool → Str → EnvelopeMeta → ℕ → Message V → Bool → Result V
  deliver_found host s (a, true) to_id meta pri payload persist =
      tell_found s a payload meta pri persist
  deliver_found host s (a, false) to_id meta pri payload persist =
      deliver_at host s (location_of s to_id) to_id meta pri payload

  unfoldable pub deliver_to_id :
      Host → System V → Str → EnvelopeMeta → ℕ → Message V → Bool → Result V
  deliver_to_id host s to_id meta pri payload persist =
      if same to_id []
      then some (s, returns (some actor_not_found))
      else deliver_found host s (Registry.get s.registry to_id) to_id meta pri payload persist

  abbrev pub throttle : System V → Option TokenBucket → List ℤ → System V × Bool
  throttle s none times = (s, true)
  throttle s (some tb) times =
      let (tb', passed) = RateLimit.wait tb (pos 1) times in
      (record s { limiter = some tb' }, passed)

  -- The limiter and the metrics, which every send begins with; the times are those at which the
  -- limiter looks at the clock.
  abbrev pub admitted : System V × Bool → (System V → Result V) → Result V
  admitted (s, false) send = some (s, throttled)
  admitted (s, true) send = send (record s { metrics = counted s.metrics })

  -- The routes that `Tell` and `sendRequest` share.
  abbrev pub route : Host → System V → Target → Message V → EnvelopeMeta → ℕ → Bool → Result V
  route host s (base_actor addr) msg meta pri persist = actor_tell s addr msg meta pri persist
  route host s (actor_ref id) msg meta pri persist = deliver_to_id host s id meta pri msg persist
  route host s (other_actor none n) msg meta pri persist =
      some (receive_other s (other_actor none n) msg, returns none)
  route host s (other_actor (some id) n) msg meta pri persist =
      if same id []
      then some (receive_other s (other_actor (some id) n) msg, returns none)
      else deliver_to_id host s id meta pri msg persist

  abbrev pub from_id_of : System V → Option ℕ → Str
  from_id_of s none = []
  from_id_of s (some addr) = id_of_actor (s.actors addr)

  abbrev priority_of : Message V → ℕ → ℕ
  priority_of (priority_message pri msg) p = pri
  priority_of other p = p

  abbrev payload_of : Message V → Message V
  payload_of (priority_message pri msg) = msg
  payload_of other = other

  -- `Tell`; a nil sender or target is `none`.
  unfoldable pub tell :
      Host → System V → List ℤ → Option ℕ → Option Target → Message V → SendOptions → Result V
  tell host s times sender none msg opts = some (s, returns (some actor_not_found))
  tell host s times sender (some target) msg opts = admitted (throttle s s.limiter times) (λ s'.
      route host s' target (payload_of msg) (user_meta (from_id_of s' sender))
        (priority_of msg opts.priority) opts.persist)

  -- `sendRequest` of a request by its parts.
  unfoldable pub send_request :
      Host → System V → List ℤ → Option ℕ → Target → Str → Message V → Str → ℕ → Bool → Result V
  send_request host s times sender to cid payload reply_to pri persist =
      admitted (throttle s s.limiter times) (λ s'.
        route host s' to (request cid payload reply_to)
          (request_meta (from_id_of s' sender) cid reply_to) pri persist)

  -- `sendResponse` of a response by its parts.
  unfoldable pub send_response :
      Host → System V → List ℤ → Str → Str → Str → Message V → Option Error → Result V
  send_response host s times from_id to_id cid value err =
      admitted (throttle s s.limiter times) (λ s'.
        deliver_to_id host s' to_id (response_meta from_id cid) priority_urgent
          (response cid value err) false)
