-- ===== src/System/Requests.antt =====
-- A request and its response, from `SendAsync` of actor/ask.go to the completion of the future by
-- actor/system.go.
mod Calls
pub mod Steps
use deqin_actor.Base.{
  ℕ, zero, suc, ◌+◌, ◌-◌, ◌*◌, ◌/◌, ◌%◌, ◌^◌, ◌≤◌, ◌<◌, min, max, ◌≡◌, ◌≢◌, ◌↔◌, ◌⊎◌, inl, inr,
  refl, sym, ap, ap₂, ◌∙◌, arith, tests, if◌then◌else◌, ltb, leb, ◌==◌, ltb→lt, lt→ltb, le→ltb,
  leb→le, le→leb, lt→leb, ==_iff, Bool-cases, Option-cases, Bool, true, false, not, ◌&&◌, ◌||◌,
  Option, none, some, List, [], ◌∷◌, ◌++◌, map, append-nil, append_assoc, length, get_elem?, set,
  take, drop, length-append, length-set, get_elem?-set_self, get_elem?-set_ne, get_elem?-eq_some,
  get_elem?-append_left, get_elem?-append_end, dec_lt, dec_le, ℕ_discrete,
}
use deqin_actor.Base.Int.{ℤ}
use deqin_actor.Base.Bits.{two-pow_pos}
use deqin_actor.Base.Str.{Str, same, same_self, put_key, delete_key}
use deqin_actor.Types.{
  Error, Message, request, response, EnvelopeMeta, Target, base_actor, SendOptions, Context,
  priority_urgent,
}
use deqin_actor.Mailbox.{Envelope, is_urgent}
use deqin_actor.Mailbox.Lane.{put_if}
use deqin_actor.Mailbox.Order.{Sizes, bits_of, Mail, lane_of, next_mail}
use deqin_actor.BaseActor.{popping}
use deqin_actor.Registry
use deqin_actor.Pending
use deqin_actor.Pending.{Response, completed}
use deqin_actor.System.{
  System, BaseActor, Host, Outcome, returns, Result, Reply, set_actor, id_of_actor, complete_future,
  track_pending,
}
use deqin_actor.System.Deliver.{
  actor_tell, deliver_to_id, deliver_found, envelope, admitted, throttle, counted, route,
  from_id_of, request_meta, response_meta, send_request, send_response,
}
use deqin_actor.System.Handle.{
  Effect, responds, Reaction, Users, Ran, ignoring, respond, run_effects, receive_if, react,
  request_context, recovered, in_counted, handle, run_step, and_then,
}
use deqin_actor.System.Async.{async_options, send_async}
use deqin_actor.System.Accepted.{
  Accepted, actor_tell-Accepted, Taken, run_step-Taken, set_actor_self, set_actor_ne,
}
use deqin_actor.System.Requests.Steps.{
  Idle, Outgoing, send_async-Outgoing, Answering, run_step-Answering, Completing,
  run_step-Completing,
}

module _ {V : Type 0} where
  -- What `SendAsync`, the step of the target's loop and the step of the sender's come to.
  abbrev pub Replied :
      Host
      → Users V
      → System V
      → List ℤ
      → Str
      → ℕ
      → ℕ
      → ℕ
      → Message V
      → Option SendOptions
      → Message V
      → Option Error
      → Type 0
  Replied host users s times cid f x y msg opts v err =
      (s1 : System V) × (s2 : System V) × (s3 : System V) × ((send_async host s times cid f x
          (some (base_actor y)) msg opts).result
        ≡ some (s1, returns none))
      × (run_step host users true s1 y ≡ some (s2, returns none))
      × (run_step host users true s2 x ≡ some (s3, returns none))
      × (s3.completions
          ≡ s.completions ++ (f, record { correlation_id = cid; outcome = some (v, err) }) ∷ [])
      × (s3.pending cid ≡ none)

  -- Two actors of a system with no limiter are at the top of their loops, with empty open mailboxes of
  -- a known policy. The first sends a request to the second, whose user's function answers it by one `Respond`; the
  -- first is registered by its id. Then the request is sent, the next step of the second actor's
  -- loop handles it, and the next step of the first's completes the future of the request with the
  -- value and the error of the answer, and takes it out of the table of pending requests. Nothing
  -- else is completed.
  pub request_answered :
      (zx zy : Sizes) (host : Host) (users : Users V) (s : System V) (times later : List ℤ)
      (cid : Str) (f x y : ℕ) (a b : BaseActor V) (msg : Message V) (opts : Option SendOptions)
      (v : Message V) (err : Option Error)
      → x ≢ y
      → Idle zx s x a
      → Idle zy s y b
      → b.has_receive ≡ true
      → s.limiter ≡ none
      → same cid [] ≡ false
      → same a.id [] ≡ false
      → Registry.get s.registry a.id ≡ (some (base_actor x), true)
      → users y (request_context y (request_meta a.id cid a.id) cid a.id) msg
        ≡ record { effects = responds later v err ∷ []; panic = none }
      → Replied host users s times cid f x y msg opts v err
  request_answered zx zy host users s times later cid f x y a b msg opts v err ne ix iy has free
        has_cid has_id found reacts =
      let o = send_async-Outgoing zx zy host s times cid f x y a b msg opts ne ix iy free in
      let r =
        run_step-Answering zx zy host users s o.after later cid x y a o.target_now msg
          (async_options opts).priority (async_options opts).persist v err ne (o.sender ∙ ix.there)
          ix o.target (o.at ∙ iy.at) o.mail (o.has_receive ∙ has) (o.same_limiter ∙ free) has_cid
          has_id (ap (λ t. Registry.get t a.id) o.same_registry ∙ found) reacts in
      let t =
        run_step-Completing zx host users r.after cid f x r.asker_now r.from_id v err r.asker r.at
          r.mail (ap (λ p. p cid) r.same_pending ∙ o.tracked) in
      (
        o.after,
        r.after,
        t.after,
        o.replied,
        r.replied,
        t.replied,
        t.completed
            ∙ ap (λ cs. cs ++ (f, record { correlation_id = cid; outcome = some (v, err) }) ∷ [])
                (r.same_completions ∙ o.same_completions),
        t.gone,
      )
