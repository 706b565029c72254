-- ===== src/System/Kept/Handling.antt =====
-- What the handling of messages by actor/base_actor.go leaves alone: the registry, and the life of
-- each actor.
use deqin_actor.Base.{
  ℕ, ◌≡◌, refl, sym, ap, ◌∙◌, if◌then◌else◌, ◌==◌, Bool, true, false, ◌||◌, Option, none, some,
  List, [], ◌∷◌,
}
use deqin_actor.Base.Int.{ℤ}
use deqin_actor.Base.Str.{same}
use deqin_actor.Types.{
  Error, Message, nil_message, user, priority_message, request, response, EnvelopeMeta, Target,
  Context, envelope_kind_request, envelope_kind_response,
}
use deqin_actor.Mailbox.{Envelope}
use deqin_actor.BaseActor.{Loop, Running, loop_at}
use deqin_actor.System.{
  System, BaseActor, Host, returns, throttled, no_room, blocked, Result, set_actor, id_of_actor,
  complete_future, notify_failure,
}
use deqin_actor.System.Handle.{
  Effect, responds, sends, tells, Users, Ran, ignoring, respond, send_to, send, effect, run_effects,
  receive_if, dispatch, handle_request, handle_response, recovered, on_panic, close_actor,
  in_counted, handle, handle_all, looped, run_at, run_actor, run_step, and_then, request_context,
  plain_context, default_options,
}
use deqin_actor.System.Kept.{
  has_loop, Kept, KeptIn, carry_over, change_actor, tell-KeptIn, send_response-KeptIn,
}

module _ {V : Type 0} where
  two_calls : (s s' s'' : System V) → Kept s s' → Kept s' s'' → Kept s s''
  two_calls s s' s'' (a, b, c) (a', b', c') = (a' ∙ a, b' ∙ b, λ k. c' k ∙ c k)

  pub ignoring-KeptIn : (s : System V) (r : Result V) → KeptIn s r → KeptIn s (ignoring r)
  ignoring-KeptIn s none h = tt
  ignoring-KeptIn s (some (s', returns e)) h = h
  ignoring-KeptIn s (some (s', throttled)) h = h
  ignoring-KeptIn s (some (s', no_room)) h = h
  ignoring-KeptIn s (some (s', blocked)) h = h

  kept_if :
      (s : System V) (c : Bool) (r : Result V)
      → KeptIn s r
      → KeptIn s (if c then some (s, returns none) else r)
  kept_if s true r h = (refl, refl, λ k. refl)
  kept_if s false r h = h

  respond-KeptIn :
      (host : Host) (s : System V) (times : List ℤ) (ctx : Context) (v : Message V)
      (err : Option Error)
      → KeptIn s (respond host s times ctx v err)
  unfolding respond
  respond-KeptIn host s times ctx v err =
      kept_if s (same ctx.correlation_id [] || same ctx.reply_to []) _
        (ignoring-KeptIn s _ (send_response-KeptIn host s times _ _ _ v err))

  send_to-KeptIn :
      (host : Host) (s : System V) (times : List ℤ) (addr : ℕ) (t : Option Target) (msg : Message V)
      → KeptIn s (send_to host s times addr t msg)
  send_to-KeptIn host s times addr none msg = (refl, refl, λ k. refl)
  send_to-KeptIn host s times addr (some t) msg =
      ignoring-KeptIn s _ (tell-KeptIn host s times (some addr) (some t) msg default_options)

  effect-KeptIn :
      (host : Host) (s : System V) (ctx : Context) (e : Effect V) → KeptIn s (effect host s ctx e)
  unfolding send
  effect-KeptIn host s ctx (responds times v err) = respond-KeptIn host s times ctx v err
  effect-KeptIn host s ctx (sends times t msg) = send_to-KeptIn host s times ctx.self t msg
  effect-KeptIn host s ctx (tells times t msg opts) =
      tell-KeptIn host s times (some ctx.self) t msg opts

  abbrev pub KeptRan : System V → Ran V → Type 0
  KeptRan s none = Unit {0}
  KeptRan s (some (s', o, p)) = Kept s s'

  kept_ran : (s s' : System V) (r : Ran V) → Kept s s' → KeptRan s' r → KeptRan s r
  kept_ran s s' none h h' = tt
  kept_ran s s' (some (t, o, p)) h h' = two_calls s s' t h h'

  and_then-KeptRan :
      (s : System V) (go : System V → Ran V) (r : Result V)
      → KeptIn s r
      → ((s' : System V) → KeptRan s' (go s'))
      → KeptRan s (and_then go r)
  and_then-KeptRan s go none h k = tt
  and_then-KeptRan s go (some (s', returns e)) h k = kept_ran s s' (go s') h (k s')
  and_then-KeptRan s go (some (s', throttled)) h k = h
  and_then-KeptRan s go (some (s', no_room)) h k = h
  and_then-KeptRan s go (some (s', blocked)) h k = h

  run_effects-KeptRan :
      (host : Host) (ctx : Context) (panic : Option (Message V)) (es : List (Effect V))
      (s : System V)
      → KeptRan s (run_effects host ctx panic es s)
  unfolding run_effects
  run_effects-KeptRan host ctx panic [] s = (refl, refl, λ k. refl)
  run_effects-KeptRan host ctx panic (e ∷ es) s =
      and_then-KeptRan s (run_effects host ctx panic es) (effect host s ctx e)
        (effect-KeptIn host s ctx e) (λ s'. run_effects-KeptRan host ctx panic es s')

  pub receive_if-KeptRan :
      (host : Host) (users : Users V) (s : System V) (ctx : Context) (msg : Message V) (has : Bool)
      → KeptRan s (receive_if host users s ctx msg has)
  receive_if-KeptRan host users s ctx msg false = (refl, refl, λ k. refl)
  receive_if-KeptRan host users s ctx msg true = run_effects-KeptRan host ctx _ _ s

  handle_response-Kept : (s : System V) (msg : Message V) → Kept s (handle_response s msg)
  unfolding complete_future
  handle_response-Kept s (response cid value err) = (refl, refl, λ k. refl)
  handle_response-Kept s (request cid payload reply_to) = (refl, refl, λ k. refl)
  handle_response-Kept s (priority_message pri msg) = (refl, refl, λ k. refl)
  handle_response-Kept s (user v) = (refl, refl, λ k. refl)
  handle_response-Kept s nil_message = (refl, refl, λ k. refl)

  handle_request-KeptRan :
      (host : Host) (users : Users V) (s : System V) (addr : ℕ) (has : Bool) (meta : EnvelopeMeta)
      (msg : Message V)
      → KeptRan s (handle_request host users s addr has meta msg)
  handle_request-KeptRan host users s addr has meta (request cid payload reply_to) =
      receive_if-KeptRan host users s (request_context addr meta cid reply_to) payload has
  handle_request-KeptRan host users s addr has meta (response cid value err) =
      (refl, refl, λ k. refl)
  handle_request-KeptRan host users s addr has meta (priority_message pri msg) =
      (refl, refl, λ k. refl)
  handle_request-KeptRan host users s addr has meta (user v) = (refl, refl, λ k. refl)
  handle_request-KeptRan host users s addr has meta nil_message = (refl, refl, λ k. refl)

  either :
      (s : System V) (c : Bool) (r r' : Ran V)
      → KeptRan s r
      → KeptRan s r'
      → KeptRan s (if c then r else r')
  either s true r r' h h' = h
  either s false r r' h h' = h'

  dispatch-KeptRan :
      (host : Host) (users : Users V) (s : System V) (addr : ℕ) (has : Bool)
      (env : Envelope (Message V) EnvelopeMeta)
      → KeptRan s (dispatch host users s addr has env)
  dispatch-KeptRan host users s addr has env =
      either s (env.data_of.kind == envelope_kind_response) _ _ (handle_response-Kept s env.payload)
        (either s (env.data_of.kind == envelope_kind_request) _ _
          (handle_request-KeptRan host users s addr has env.data_of env.payload)
          (receive_if-KeptRan host users s (plain_context addr env.data_of.from_id) env.payload
            has))

  close_actor-Kept :
      (s : System V) (addr : ℕ) (o : Option (BaseActor V))
      → s.actors addr ≡ o
      → Kept s (close_actor s addr o)
  close_actor-Kept s addr none e = (refl, refl, λ k. refl)
  close_actor-Kept s addr (some a) e = change_actor s addr a _ e refl

  recovered-KeptIn :
      (s : System V) (addr : ℕ) (r : Ran V) → KeptRan s r → KeptIn s (recovered addr r)
  unfolding notify_failure
  recovered-KeptIn s addr none h = tt
  recovered-KeptIn s addr (some (s', o, none)) h = h
  recovered-KeptIn s addr (some (s', o, some reason)) h =
      let told = notify_failure s' (id_of_actor (s'.actors addr)) reason in
      two_calls s s' (on_panic s' addr reason) h
        (close_actor-Kept told addr (told.actors addr) refl)

  handle-KeptIn :
      (host : Host) (users : Users V) (s : System V) (addr : ℕ) (has : Bool)
      (env : Envelope (Message V) EnvelopeMeta)
      → KeptIn s (handle host users s addr has env)
  unfolding handle
  handle-KeptIn host users s addr has env =
      let c = record s { metrics = in_counted s.metrics } in
      recovered-KeptIn s addr _
        (kept_ran s c _ (refl, refl, λ k. refl) (dispatch-KeptRan host users c addr has env))

  handle_all-KeptIn :
      (host : Host) (users : Users V) (s : System V) (addr : ℕ) (has : Bool)
      (envs : List (Envelope (Message V) EnvelopeMeta))
      → KeptIn s (handle_all host users s addr has envs)
  handle_all-KeptIn host users s addr has [] = (refl, refl, λ k. refl)
  handle_all-KeptIn host users s addr has (env ∷ envs) = handle-KeptIn host users s addr has env

  looped-KeptIn :
      (host : Host) (users : Users V) (s : System V) (addr : ℕ) (a : BaseActor V)
      (r : Option (Running (Message V) EnvelopeMeta × List (Envelope (Message V) EnvelopeMeta)))
      → s.actors addr ≡ some a
      → has_loop a.loop ≡ true
      → KeptIn s (looped host users s addr a r)
  looped-KeptIn host users s addr a none e l = tt
  looped-KeptIn host users s addr a (some (r, envs)) e l =
      let a' = record a { mailbox = r.mailbox; loop = some r.at } in
      carry_over s (set_actor s addr a') _
        (change_actor s addr a a' e (ap (λ b. some (a.id, a.start_once, a.stop_once, b)) (sym l)))
        (handle_all-KeptIn host users (set_actor s addr a') addr a.has_receive envs)

  run_actor-KeptIn :
      (host : Host) (users : Users V) (notify_first : Bool) (s : System V) (addr : ℕ)
      (o : Option (BaseActor V))
      → s.actors addr ≡ o
      → KeptIn s (run_actor host users notify_first s addr o)
  run_actor-KeptIn host users notify_first s addr none e = tt
  run_actor-KeptIn host users notify_first s addr (some a) e = at_place a.loop refl
    where
      at_place :
          (l : Option Loop)
          → has_loop a.loop ≡ has_loop l
          → KeptIn s (run_at host users notify_first s addr a l)
      at_place none same_loop = (refl, refl, λ k. refl)
      at_place (some place) same_loop =
          looped-KeptIn host users s addr a (loop_at notify_first a.mailbox place) e same_loop

  pub run_step-KeptIn :
      (host : Host) (users : Users V) (notify_first : Bool) (s : System V) (addr : ℕ)
      → KeptIn s (run_step host users notify_first s addr)
  unfolding run_step
  run_step-KeptIn host users notify_first s addr =
      run_actor-KeptIn host users notify_first s addr (s.actors addr) refl
