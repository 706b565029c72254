-- ===== src/System/Requests/Steps.antt =====
-- The steps of a request and its response: `SendAsync` of actor/ask.go, and those of the loops of the
-- two actors.
use deqin_actor.Base.{
  ℕ, ◌^◌, ◌≤◌, ◌<◌, ◌≡◌, ◌≢◌, refl, ap, ◌∙◌, arith, if◌then◌else◌, ◌==◌, Bool, true, false, not,
  Option, none, some, List, [], ◌∷◌, ◌++◌, length,
}
use deqin_actor.Base.Int.{ℤ}
use deqin_actor.Base.Bits.{two-pow_pos}
use deqin_actor.Base.Str.{Str, same, same_self}
use deqin_actor.Types.{
  Error, Message, request, response, EnvelopeMeta, base_actor, SendOptions, priority_urgent,
}
use deqin_actor.Mailbox.{Envelope, is_urgent}
use deqin_actor.Mailbox.Lane.{put_if}
use deqin_actor.Mailbox.Order.{Sizes, bits_of, Mail, lane_of, next_mail}
use deqin_actor.BaseActor.{popping}
use deqin_actor.Registry
use deqin_actor.Pending
use deqin_actor.Pending.{Response, completed}
use deqin_actor.System.{
  System, BaseActor, Host, returns, Result, set_actor, id_of_actor, track_pending,
}
use deqin_actor.System.Deliver.{envelope, request_meta, response_meta}
use deqin_actor.System.Handle.{responds, Users, ignoring, request_context, in_counted, run_step}
use deqin_actor.System.Async.{async_options, send_async}
use deqin_actor.System.Accepted.{actor_tell-Accepted, run_step-Taken, set_actor_self, set_actor_ne}
use deqin_actor.System.Requests.Calls.{
  out_counted, send_async_lem, respond_lem, handle-respond, answered_at, handle_complete,
}

room_for :
    (P M : Type 0) (z : Sizes) (u : Bool)
    → length (lane_of {P = P} {M = M} u [] []) < 2 ^ bits_of u z
room_for P M z true = omega (arith, two-pow_pos z.urgent_bits)
room_for P M z false = omega (arith, two-pow_pos z.normal_bits)

module _ {V : Type 0} where
  -- The actor is at the top of its loop, and its mailbox is open, empty, and has a known policy.
  pub record Idle (z : Sizes) (s : System V) (addr : ℕ) (a : BaseActor V) : Type 0 where
    pub there : s.actors addr ≡ some a
    pub at : a.loop ≡ some popping
    pub holds : Mail z [] [] a.mailbox
    pub known : a.mailbox.policy ≤ 2
    pub is_open : a.mailbox.is_closed ≡ false

  first_in :
      (u : Bool) (env : Envelope (Message V) EnvelopeMeta)
      → next_mail (put_if u [] env) (put_if (not u) [] env) ≡ some env
  first_in true env = refl
  first_in false env = refl

  -- What `SendAsync` leaves.
  pub record Outgoing (z : Sizes) (s : System V) (x y : ℕ) (b : BaseActor V) (cid : Str) (f : ℕ)
      (env : Envelope (Message V) EnvelopeMeta) (out : Result V) : Type 0 where
    pub after : System V
    pub target_now : BaseActor V
    pub replied : out ≡ some (after, returns none)
    pub target : after.actors y ≡ some target_now
    pub at : target_now.loop ≡ b.loop
    pub has_receive : target_now.has_receive ≡ b.has_receive
    pub mail :
        Mail z
          (put_if (is_urgent env) [] env)
          (put_if (not (is_urgent env)) [] env)
          target_now.mailbox
    pub sender : after.actors x ≡ s.actors x
    pub same_registry : after.registry ≡ s.registry
    pub same_limiter : after.limiter ≡ s.limiter
    pub same_completions : after.completions ≡ s.completions
    pub tracked : after.pending cid ≡ some f

  pub send_async-Outgoing :
      (zx zy : Sizes) (host : Host) (s : System V) (times : List ℤ) (cid : Str) (f x y : ℕ)
      (a b : BaseActor V) (msg : Message V) (opts : Option SendOptions)
      → x ≢ y
      → Idle zx s x a
      → Idle zy s y b
      → s.limiter ≡ none
      → Outgoing zy s x y b cid f
          (envelope
            (request cid msg a.id)
            (request_meta a.id cid a.id)
            (async_options opts).priority
            (async_options opts).persist)
          (send_async host s times cid f x (some (base_actor y)) msg opts).result
  unfolding track_pending Pending.track_pending
  send_async-Outgoing zx zy host s times cid f x y a b msg opts ne ix iy free =
      let o = async_options opts in
      let c = out_counted (track_pending s cid f) in
      let t =
        actor_tell-Accepted zy [] [] c y b (request cid msg a.id) (request_meta a.id cid a.id)
          o.priority o.persist iy.there iy.holds iy.known iy.is_open
          (room_for (Message V) EnvelopeMeta zy (not (o.priority == 0))) in
      let b' = record b { mailbox = t.mb } in
      record {
        after = set_actor (record c { disk = t.disk }) y b';
        target_now = b';
        replied =
            send_async_lem host s times cid f x y a msg opts free ix.there ∙ ap ignoring t.replied;
        target = set_actor_self (record c { disk = t.disk }) y b';
        at = refl;
        has_receive = refl;
        mail = t.mail;
        sender = set_actor_ne (record c { disk = t.disk }) y x b' ne;
        same_registry = refl;
        same_limiter = refl;
        same_completions = refl;
        tracked = ap (λ p. if p then some f else s.pending cid) (same_self cid);
      }

  -- What the step leaves in which the target answers.
  pub record Answering (z : Sizes) (s : System V) (x : ℕ) (a : BaseActor V) (cid : Str)
      (v : Message V) (err : Option Error) (out : Result V) : Type 0 where
    pub after : System V
    pub asker_now : BaseActor V
    pub from_id : Str
    pub replied : out ≡ some (after, returns none)
    pub asker : after.actors x ≡ some asker_now
    pub at : asker_now.loop ≡ some popping
    pub mail :
        Mail z
          (envelope (response cid v err) (response_meta from_id cid) priority_urgent false ∷ [])
          []
          asker_now.mailbox
    pub same_completions : after.completions ≡ s.completions
    pub same_pending : after.pending ≡ s.pending

  pub run_step-Answering :
      (zx zy : Sizes) (host : Host) (users : Users V) (s0 s : System V) (later : List ℤ) (cid : Str)
      (x y : ℕ) (a b : BaseActor V) (msg : Message V) (pri : ℕ) (persist : Bool) (v : Message V)
      (err : Option Error)
      → x ≢ y
      → s.actors x ≡ some a
      → Idle zx s0 x a
      → s.actors y ≡ some b
      → b.loop ≡ some popping
      → Mail zy
          (put_if
            (not (pri == 0))
            []
            (envelope (request cid msg a.id) (request_meta a.id cid a.id) pri persist))
          (put_if
            (not (not (pri == 0)))
            []
            (envelope (request cid msg a.id) (request_meta a.id cid a.id) pri persist))
          b.mailbox
      → b.has_receive ≡ true
      → s.limiter ≡ none
      → same cid [] ≡ false
      → same a.id [] ≡ false
      → Registry.get s.registry a.id ≡ (some (base_actor x), true)
      → users y (request_context y (request_meta a.id cid a.id) cid a.id) msg
        ≡ record { effects = responds later v err ∷ []; panic = none }
      → Answering zx s x a cid v err (run_step host users true s y)
  run_step-Answering zx zy host users s0 s later cid x y a b msg pri persist v err ne there ix
        target at mail has free has_cid has_id found reacts =
      let env = envelope (request cid msg a.id) (request_meta a.id cid a.id) pri persist in
      let u = not (pri == 0) in
      let r =
        run_step-Taken zy (put_if u [] env) (put_if (not u) [] env) host users true s y b env target
          at mail (first_in u env) in
      let b' = record b { mailbox = r.mb; loop = some popping } in
      let c = set_actor s y b' in
      let c2 = record c { metrics = in_counted c.metrics } in
      let i = id_of_actor (c2.actors y) in
      let t =
        actor_tell-Accepted zx [] [] (out_counted c2) x a (response cid v err) (response_meta i cid)
          priority_urgent false (set_actor_ne s y x b' ne ∙ there) ix.holds ix.known ix.is_open
          (room_for (Message V) EnvelopeMeta zx true) in
      let a' = record a { mailbox = t.mb } in
      let s' = set_actor (record (out_counted c2) { disk = t.disk }) x a' in
      record {
        after = s';
        asker_now = a';
        from_id = i;
        replied =
            r.replied
            ∙ handle-respond host users c y cid msg a.id a.id pri persist b.has_receive later v err
                s' has reacts
                (respond_lem host c2 later (request_context y (request_meta a.id cid a.id) cid a.id)
                    x v err free has_cid has_id found
                  ∙ ap ignoring t.replied);
        asker = set_actor_self (record (out_counted c2) { disk = t.disk }) x a';
        at = ix.at;
        mail = t.mail;
        same_completions = refl;
        same_pending = refl;
      }

  -- What the step leaves that completes the future.
  pub record Completing (s : System V) (cid : Str) (f : ℕ) (v : Message V) (err : Option Error)
      (out : Result V) : Type 0 where
    pub after : System V
    pub replied : out ≡ some (after, returns none)
    pub completed :
        after.completions
        ≡ s.completions ++ (f, record { correlation_id = cid; outcome = some (v, err) }) ∷ []
    pub gone : after.pending cid ≡ none

  pub run_step-Completing :
      (z : Sizes) (host : Host) (users : Users V) (s : System V) (cid : Str) (f x : ℕ)
      (a : BaseActor V) (from_id : Str) (v : Message V) (err : Option Error)
      → s.actors x ≡ some a
      → a.loop ≡ some popping
      → Mail z
          (envelope (response cid v err) (response_meta from_id cid) priority_urgent false ∷ [])
          []
          a.mailbox
      → s.pending cid ≡ some f
      → Completing s cid f v err (run_step host users true s x)
  run_step-Completing z host users s cid f x a from_id v err there at mail waits =
      let env = envelope (response cid v err) (response_meta from_id cid) priority_urgent false in
      let r = run_step-Taken z (env ∷ []) [] host users true s x a env there at mail refl in
      let c = set_actor s x (record a { mailbox = r.mb; loop = some popping }) in
      record {
        after = answered_at c cid f v err;
        replied =
            r.replied ∙ handle_complete host users c x a.has_receive cid from_id v err f waits;
        completed = refl;
        gone = ap (λ p. if p then none else s.pending cid) (same_self cid);
      }
