-- ===== src/System/Handle.antt =====
-- actor/base_actor.go and actor/context.go: an actor handles a message. What the user's function does
-- in a call is a parameter: a series of calls of the package, and perhaps a panic after them.
use deqin_actor.Base.{
  ℕ, if◌then◌else◌, ◌==◌, Bool, true, false, ◌||◌, Option, none, some, List, [], ◌∷◌, ◌++◌,
}
use deqin_actor.Base.Int.{ℤ, pos}
use deqin_actor.Base.Str.{Str, same}
use deqin_actor.Types.{
  Error, Message, nil_message, user, priority_message, request, response, EnvelopeMeta, Target,
  SendOptions, Context, priority_normal, envelope_kind_request, envelope_kind_response,
}
use deqin_actor.Mailbox
use deqin_actor.Mailbox.{Envelope, Mailbox}
use deqin_actor.Metrics.{Metrics, inc_in}
use deqin_actor.BaseActor.{Loop, Running, loop_at}
use deqin_actor.System.{
  System, BaseActor, Host, Outcome, returns, throttled, no_room, blocked, Result, set_actor,
  id_of_actor, complete_future, notify_failure,
}
use deqin_actor.System.Deliver.{tell, send_response}

-- The calls: `Respond` of the context, `Send` of the actor, and `Tell` of the system from the actor.
-- Each has the times at which the limiter looks at the clock.
pub data Effect (V : Type 0) : Type 0 where
  responds : List ℤ → Message V → Option Error → Effect V
  sends : List ℤ → Option Target → Message V → Effect V
  tells : List ℤ → Option Target → Message V → SendOptions → Effect V

pub record Reaction (V : Type 0) : Type 0 where
  pub effects : List (Effect V)
  pub panic : Option (Message V)

-- The user's functions, by the actor that has them.
abbrev pub Users : Type 0 → Type 0
Users V = ℕ → Context → Message V → Reaction V

-- What a call comes to, and the value of the panic that it ends with.
abbrev pub Ran : Type 0 → Type 0
Ran V = Option (System V × Outcome × Option (Message V))

-- `SendOptions{}`
abbrev pub default_options : SendOptions
default_options = record {
  priority = priority_normal;
  persist = false;
  timeout = pos 0;
  on_complete = none;
  allow_degrade = false;
}

-- A context of a message that is not a request.
abbrev pub plain_context : ℕ → Str → Context
plain_context addr sender_id = record {
  self = addr;
  sender_id = sender_id;
  correlation_id = [];
  reply_to = [];
}

abbrev pub in_counted : Option Metrics → Option Metrics
in_counted none = none
in_counted (some m) = some (inc_in m)

abbrev pub request_context : ℕ → EnvelopeMeta → Str → Str → Context
request_context addr meta cid reply_to = record {
  self = addr;
  sender_id = meta.from_id;
  correlation_id = cid;
  reply_to = reply_to;
}

module _ {V : Type 0} where
  -- An error that the caller ignores.
  abbrev pub ignoring : Result V → Result V
  ignoring none = none
  ignoring (some (s, returns e)) = some (s, returns none)
  ignoring (some (s, throttled)) = some (s, throttled)
  ignoring (some (s, no_room)) = some (s, no_room)
  ignoring (some (s, blocked)) = some (s, blocked)

  unfoldable pub respond : Host → System V → List ℤ → Context → Message V → Option Error → Result V
  respond host s times ctx value err =
      if same ctx.correlation_id [] || same ctx.reply_to []
      then some (s, returns none)
      else ignoring (
          send_response host s times (id_of_actor (s.actors ctx.self)) ctx.reply_to
            ctx.correlation_id value err)

  abbrev pub send_to : Host → System V → List ℤ → ℕ → Option Target → Message V → Result V
  send_to host s times addr none msg = some (s, returns none)
  send_to host s times addr (some target) msg =
      ignoring (tell host s times (some addr) (some target) msg default_options)

  -- `Send` of a `BaseActor`.
  unfoldable pub send : Host → System V → List ℤ → ℕ → Option Target → Message V → Result V
  send host s times addr target msg = send_to host s times addr target msg

  -- `Send` of an `ActorRef`.
  unfoldable ref_send : Host → System V → List ℤ → Option Target → Message V → Result V
  ref_send host s times target msg = ignoring (tell host s times none target msg default_options)

  abbrev pub effect : Host → System V → Context → Effect V → Result V
  effect host s ctx (responds times value err) = respond host s times ctx value err
  effect host s ctx (sends times target msg) = send host s times ctx.self target msg
  effect host s ctx (tells times target msg opts) =
      tell host s times (some ctx.self) target msg opts

  -- A call and, once it has returned, what follows.
  abbrev pub and_then : (System V → Ran V) → Result V → Ran V
  and_then go none = none
  and_then go (some (s, returns e)) = go s
  and_then go (some (s, throttled)) = some (s, throttled, none)
  and_then go (some (s, no_room)) = some (s, no_room, none)
  and_then go (some (s, blocked)) = some (s, blocked, none)

  -- A call of the user's function.
  unfoldable pub run_effects :
      Host → Context → Option (Message V) → List (Effect V) → System V → Ran V
  run_effects host ctx panic [] s = some (s, returns none, panic)
  run_effects host ctx panic (e ∷ es) s =
      and_then (run_effects host ctx panic es) (effect host s ctx e)

  abbrev pub react : Host → System V → Context → Reaction V → Ran V
  react host s ctx r = run_effects host ctx r.panic r.effects s

  abbrev pub receive_if : Host → Users V → System V → Context → Message V → Bool → Ran V
  receive_if host users s ctx msg false = some (s, returns none, none)
  receive_if host users s ctx msg true = react host s ctx (users ctx.self ctx msg)

  -- `Receive`
  unfoldable pub receive : Host → Users V → System V → ℕ → BaseActor V → Message V → Ran V
  receive host users s addr a msg =
      receive_if host users s (plain_context addr []) msg a.has_receive

  abbrev pub handle_response : System V → Message V → System V
  handle_response s (response cid value err) = complete_future s cid value err
  handle_response s (request cid payload reply_to) = s
  handle_response s (priority_message pri msg) = s
  handle_response s (user v) = s
  handle_response s nil_message = s

  abbrev pub handle_request :
      Host → Users V → System V → ℕ → Bool → EnvelopeMeta → Message V → Ran V
  handle_request host users s addr has meta (request cid payload reply_to) =
      receive_if host users s (request_context addr meta cid reply_to) payload has
  handle_request host users s addr has meta (response cid value err) = some (s, returns none, none)
  handle_request host users s addr has meta (priority_message pri msg) =
      some (s, returns none, none)
  handle_request host users s addr has meta (user v) = some (s, returns none, none)
  handle_request host users s addr has meta nil_message = some (s, returns none, none)

  -- The switch of `handle`.
  abbrev pub dispatch :
      Host → Users V → System V → ℕ → Bool → Envelope (Message V) EnvelopeMeta → Ran V
  dispatch host users s addr has env =
      if env.data_of.kind == envelope_kind_response
      then some (handle_response s env.payload, returns none, none)
      else if env.data_of.kind == envelope_kind_request
      then handle_request host users s addr has env.data_of env.payload
      else receive_if host users s (plain_context addr env.data_of.from_id) env.payload has

  abbrev pub close_actor : System V → ℕ → Option (BaseActor V) → System V
  close_actor s addr none = s
  close_actor s addr (some a) = set_actor s addr (record a { mailbox = Mailbox.close a.mailbox })

  -- The deferred function of `handle`, after a panic.
  abbrev pub on_panic : System V → ℕ → Message V → System V
  on_panic s addr reason =
      let s' = notify_failure s (id_of_actor (s.actors addr)) reason in
      record (close_actor s' addr (s'.actors addr)) { stops = s.stops ++ addr ∷ [] }

  abbrev pub recovered : ℕ → Ran V → Result V
  recovered addr none = none
  recovered addr (some (s, o, none)) = some (s, o)
  recovered addr (some (s, o, some reason)) = some (on_panic s addr reason, o)

  unfoldable pub handle :
      Host → Users V → System V → ℕ → Bool → Envelope (Message V) EnvelopeMeta → Result V
  handle host users s addr has env =
      recovered addr
        (dispatch host users (record s { metrics = in_counted s.metrics }) addr has env)

  abbrev pub handle_all :
      Host → Users V → System V → ℕ → Bool → List (Envelope (Message V) EnvelopeMeta) → Result V
  handle_all host users s addr has [] = some (s, returns none)
  handle_all host users s addr has (env ∷ envs) = handle host users s addr has env

  abbrev pub looped :
      Host
      → Users V
      → System V
      → ℕ
      → BaseActor V
      → Option (Running (Message V) EnvelopeMeta × List (Envelope (Message V) EnvelopeMeta))
      → Result V
  looped host users s addr a none = none
  looped host users s addr a (some (r, envs)) =
      handle_all host users (set_actor s addr (record a { mailbox = r.mailbox; loop = some r.at }))
        addr a.has_receive envs

  abbrev pub run_at : Host → Users V → Bool → System V → ℕ → BaseActor V → Option Loop → Result V
  run_at host users notify_first s addr a none = some (s, blocked)
  run_at host users notify_first s addr a (some place) =
      looped host users s addr a (loop_at notify_first a.mailbox place)

  abbrev pub run_actor : Host → Users V → Bool → System V → ℕ → Option (BaseActor V) → Result V
  run_actor host users notify_first s addr none = none
  run_actor host users notify_first s addr (some a) = run_at host users notify_first s addr a a.loop

  -- A call of the loop of `run`, of `Pop` with `handle` or of `Wait`, which takes the notification
  -- or not if both its channels are ready.
  unfoldable pub run_step : Host → Users V → Bool → System V → ℕ → Result V
  run_step host users notify_first s addr = run_actor host users notify_first s addr (s.actors addr)
