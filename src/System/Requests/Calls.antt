-- ===== src/System/Requests/Calls.antt =====
-- Calls of actor/ask.go, actor/context.go and actor/base_actor.go on the way of a request and its
-- response.
use deqin_actor.Base.{
  ℕ, ◌≡◌, ap, ap₂, ◌∙◌, if◌then◌else◌, Bool, true, false, ◌||◌, Option, none, some, List, [], ◌∷◌,
  ◌++◌,
}
use deqin_actor.Base.Int.{ℤ}
use deqin_actor.Base.Str.{Str, same, delete_key}
use deqin_actor.Types.{
  Error, Message, request, response, base_actor, SendOptions, Context, priority_urgent,
}
use deqin_actor.Registry
use deqin_actor.Pending
use deqin_actor.Pending.{Response, completed}
use deqin_actor.System.{
  System, BaseActor, Host, returns, Reply, id_of_actor, complete_future, track_pending,
}
use deqin_actor.System.Deliver.{
  actor_tell, deliver_to_id, deliver_found, envelope, admitted, throttle, counted, route,
  from_id_of, request_meta, response_meta, send_request, send_response,
}
use deqin_actor.System.Handle.{
  responds, Users, ignoring, respond, run_effects, receive_if, react, request_context, recovered,
  in_counted, handle, and_then,
}
use deqin_actor.System.Async.{async_options, send_async}

module _ {V : Type 0} where
  -- The system once a send has passed the limiter.
  abbrev pub out_counted : System V → System V
  out_counted s = record s { metrics = counted s.metrics }

  pub send_async_lem :
      (host : Host) (s : System V) (times : List ℤ) (cid : Str) (f x y : ℕ) (a : BaseActor V)
      (msg : Message V) (opts : Option SendOptions)
      → s.limiter ≡ none
      → s.actors x ≡ some a
      → (send_async host s times cid f x (some (base_actor y)) msg opts).result
        ≡ ignoring (
            actor_tell
              (out_counted (track_pending s cid f))
              y
              (request cid msg a.id)
              (request_meta a.id cid a.id)
              (async_options opts).priority
              (async_options opts).persist)
  unfolding send_async send_request track_pending
  send_async_lem host s times cid f x y a msg opts free e =
      let o = async_options opts in
      let s0 = track_pending s cid f in
      let i = id_of_actor (s.actors x) in
      ap
        (λ l. ignoring (
          admitted (throttle s0 l times) (λ s'.
            route host s' (base_actor y) (request cid msg i)
              (request_meta (from_id_of s' (some x)) cid i) o.priority o.persist)))
        free
      ∙ ap
          (λ b. ignoring (
            actor_tell (out_counted s0) y (request cid msg (id_of_actor b))
              (request_meta (id_of_actor b) cid (id_of_actor b)) o.priority o.persist))
          e

  pub respond_lem :
      (host : Host) (c : System V) (times : List ℤ) (ctx : Context) (x : ℕ) (v : Message V)
      (err : Option Error)
      → c.limiter ≡ none
      → same ctx.correlation_id [] ≡ false
      → same ctx.reply_to [] ≡ false
      → Registry.get c.registry ctx.reply_to ≡ (some (base_actor x), true)
      → respond host c times ctx v err
        ≡ ignoring (
            actor_tell
              (out_counted c)
              x
              (response ctx.correlation_id v err)
              (response_meta (id_of_actor (c.actors ctx.self)) ctx.correlation_id)
              priority_urgent
              false)
  unfolding respond send_response deliver_to_id
  respond_lem host c times ctx x v err free has_id has_reply found =
      let i = id_of_actor (c.actors ctx.self) in
      let cid = ctx.correlation_id in
      let send = send_response host c times i ctx.reply_to cid v err in
      let meta = response_meta i cid in
      ap₂ (λ p q. if p || q then some (c, returns none) else ignoring send) has_id has_reply
      ∙ ap
          (λ l. ignoring (
            admitted (throttle c l times) (λ s'.
              deliver_to_id host s' ctx.reply_to meta priority_urgent (response cid v err) false)))
          free
      ∙ ap₂
          (λ p g. ignoring (
            if p
            then some (out_counted c, returns (some Error.actor_not_found))
            else deliver_found host (out_counted c) g ctx.reply_to meta priority_urgent
                (response cid v err) false))
          has_reply found

  -- An actor that answers a request by one `Respond`.
  pub handle-respond :
      (host : Host) (users : Users V) (c : System V) (y : ℕ) (cid : Str) (msg : Message V)
      (from_id reply_to : Str) (pri : ℕ) (persist has : Bool) (times : List ℤ) (v : Message V)
      (err : Option Error) (s' : System V)
      → has ≡ true
      → users y (request_context y (request_meta from_id cid reply_to) cid reply_to) msg
        ≡ record { effects = responds times v err ∷ []; panic = none }
      → respond host
          (record c { metrics = in_counted c.metrics })
          times
          (request_context y (request_meta from_id cid reply_to) cid reply_to)
          v
          err
        ≡ some (s', returns none)
      → handle host users c y has
          (envelope (request cid msg reply_to) (request_meta from_id cid reply_to) pri persist)
        ≡ some (s', returns none)
  unfolding handle run_effects
  handle-respond host users c y cid msg from_id reply_to pri persist has times v err s' h u e =
      let c' = record c { metrics = in_counted c.metrics } in
      let ctx = request_context y (request_meta from_id cid reply_to) cid reply_to in
      ap (λ b. recovered y (receive_if host users c' ctx msg b)) h
      ∙ ap (λ r. recovered y (react host c' ctx r)) u
      ∙ ap (λ r. recovered y (and_then (run_effects host ctx none []) r)) e

  -- The system in which the response has come in.
  abbrev pub answered_at : System V → Str → ℕ → Message V → Option Error → System V
  answered_at c cid f v err = record c {
    metrics = in_counted c.metrics;
    pending = delete_key c.pending cid;
    completions =
        c.completions ++ (f, record { correlation_id = cid; outcome = some (v, err) }) ∷ [];
  }

  pub handle_complete :
      (host : Host) (users : Users V) (c : System V) (x : ℕ) (has : Bool) (cid : Str)
      (from_id : Str) (v : Message V) (err : Option Error) (f : ℕ)
      → c.pending cid ≡ some f
      → handle host users c x has
          (envelope (response cid v err) (response_meta from_id cid) priority_urgent false)
        ≡ some (answered_at c cid f v err, returns none)
  unfolding handle complete_future Pending.complete_future
  handle_complete host users c x has cid from_id v err f e =
      ap
        (λ o.
          let r : Response (Reply V) = record { correlation_id = cid; outcome = some (v, err) } in
          some (
            record c {
              metrics = in_counted c.metrics;
              pending = (completed c.pending cid r o).0;
              completions = c.completions ++ (completed c.pending cid r o).1;
            },
            returns none,
          ))
        e
