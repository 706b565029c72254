-- ===== src/System/Accepted.antt =====
-- A message of actor/system.go that finds room in the mailbox of its actor, and an actor of
-- actor/base_actor.go that takes one out.
use deqin_actor.Base.{
  ℕ, ◌^◌, ◌≤◌, ◌<◌, ◌≡◌, ◌≢◌, refl, ap, ◌∙◌, arith, ◌==◌, Bool, true, false, not, Option, none,
  some, List, [], length,
}
use deqin_actor.Base.Str.{Str}
use deqin_actor.Types.{Message, EnvelopeMeta}
use deqin_actor.Ring.Dequeue.{rest}
use deqin_actor.Mailbox.{Envelope, Mailbox, push, offer, is_urgent}
use deqin_actor.Mailbox.Lane.{put_if}
use deqin_actor.Mailbox.Policies.{push_open}
use deqin_actor.Mailbox.Order.{
  Sizes, bits_of, Mail, lane_of, Offered, offer-Offered, next_mail, normal_left, pop-Popped,
}
use deqin_actor.BaseActor.{popping, after_pop}
use deqin_actor.System.{System, BaseActor, Serializer, Host, returns, Result, set_actor}
use deqin_actor.System.Deliver.{actor_tell, push_to, stored, logged, hooked, envelope}
use deqin_actor.System.Handle.{Users, run_step, run_actor, run_at, looped, handle}

module _ {V : Type 0} where
  pub hooked-Mail :
      (z : Sizes) (us ns : List (Envelope (Message V) EnvelopeMeta))
      (mb : Mailbox (Message V) EnvelopeMeta) (r : Serializer V) (w : Option (Str × Bool))
      → Mail z us ns mb
      → Mail z us ns (hooked r w mb)
  hooked-Mail z us ns mb r none h = h
  hooked-Mail z us ns mb r (some w) h = record {
    urgent_lane = h.urgent_lane;
    normal_lane = h.normal_lane;
    counted = h.counted;
  }

  pub hooked-policy :
      (mb : Mailbox (Message V) EnvelopeMeta) (r : Serializer V) (w : Option (Str × Bool))
      → (hooked r w mb).policy ≡ mb.policy
  hooked-policy mb r none = refl
  hooked-policy mb r (some w) = refl

  pub hooked-is_closed :
      (mb : Mailbox (Message V) EnvelopeMeta) (r : Serializer V) (w : Option (Str × Bool))
      → (hooked r w mb).is_closed ≡ mb.is_closed
  hooked-is_closed mb r none = refl
  hooked-is_closed mb r (some w) = refl

  pub hooked-urgent :
      (mb : Mailbox (Message V) EnvelopeMeta) (r : Serializer V) (w : Option (Str × Bool))
      → (hooked r w mb).urgent ≡ mb.urgent
  hooked-urgent mb r none = refl
  hooked-urgent mb r (some w) = refl

  pub hooked-normal :
      (mb : Mailbox (Message V) EnvelopeMeta) (r : Serializer V) (w : Option (Str × Bool))
      → (hooked r w mb).normal ≡ mb.normal
  hooked-normal mb r none = refl
  hooked-normal mb r (some w) = refl

  logged_lem :
      (s : System V) (w : Option (Str × Bool)) (bs : List (List ℕ))
      → logged s w bs ≡ record s { disk = (logged s w bs).disk }
  logged_lem s none bs = refl
  logged_lem s (some (path, is_open)) bs = refl

  -- What a call of `tell` comes to that is accepted.
  pub record Accepted (z : Sizes) (us ns : List (Envelope (Message V) EnvelopeMeta)) (s : System V)
      (addr : ℕ) (a : BaseActor V) (env : Envelope (Message V) EnvelopeMeta) (out : Result V)
      : Type 0 where
    pub mb : Mailbox (Message V) EnvelopeMeta
    pub disk : Str → List ℕ
    pub replied :
        out
        ≡ some (set_actor (record s { disk = disk }) addr (record a { mailbox = mb }), returns none)
    pub mail : Mail z (put_if (is_urgent env) us env) (put_if (not (is_urgent env)) ns env) mb
    pub same_closed : mb.is_closed ≡ false
    pub same_policy : mb.policy ≡ a.mailbox.policy

  room_taken :
      (z : Sizes) (us ns : List (Envelope (Message V) EnvelopeMeta)) (s : System V) (addr : ℕ)
      (a : BaseActor V) (env : Envelope (Message V) EnvelopeMeta) (accepted : Bool)
      → Offered z us ns
          (hooked s.serializer a.wal a.mailbox)
          (is_urgent env)
          env
          accepted
          (offer (hooked s.serializer a.wal a.mailbox) env)
      → a.mailbox.policy ≤ 2
      → a.mailbox.is_closed ≡ false
      → length (lane_of (is_urgent env) us ns) < 2 ^ bits_of (is_urgent env) z
      → Accepted z us ns s addr a env (push_to s addr (some a) env)
  room_taken z us ns s addr a env false o known is_open room =
      absurd (omega (arith, o.full refl, room))
  room_taken z us ns s addr a env true o known is_open room =
      let hm = hooked s.serializer a.wal a.mailbox in
      let same_policy = hooked-policy a.mailbox s.serializer a.wal in
      let open_now = hooked-is_closed a.mailbox s.serializer a.wal ∙ is_open in
      record {
        mb = o.after;
        disk = (logged s a.wal (push [] hm env).1).disk;
        replied =
            ap (stored (logged s a.wal (push [] hm env).1) addr a) (
              push_open hm o.after env true (omega (arith, same_policy, known)) open_now
                (o.same_closed ∙ open_now) o.replied)
            ∙ ap (λ t. some (set_actor t addr (record a { mailbox = o.after }), returns none))
                (logged_lem s a.wal (push [] hm env).1);
        mail = o.mail;
        same_closed = o.same_closed ∙ open_now;
        same_policy = o.same_policy ∙ same_policy;
      }

  pub actor_tell-Accepted :
      (z : Sizes) (us ns : List (Envelope (Message V) EnvelopeMeta)) (s : System V) (addr : ℕ)
      (a : BaseActor V) (msg : Message V) (meta : EnvelopeMeta) (pri : ℕ) (persist : Bool)
      → s.actors addr ≡ some a
      → Mail z us ns a.mailbox
      → a.mailbox.policy ≤ 2
      → a.mailbox.is_closed ≡ false
      → length (lane_of (not (pri == 0)) us ns) < 2 ^ bits_of (not (pri == 0)) z
      → Accepted z us ns s addr a
          (envelope msg meta pri persist)
          (actor_tell s addr msg meta pri persist)
  unfolding actor_tell
  actor_tell-Accepted z us ns s addr a msg meta pri persist e h known is_open room =
      let env = envelope msg meta pri persist in
      let (accepted, o) =
        offer-Offered z us ns (hooked s.serializer a.wal a.mailbox) env
          (hooked-Mail z us ns a.mailbox s.serializer a.wal h) in
      let t = room_taken z us ns s addr a env accepted o known is_open room in
      record {
        mb = t.mb;
        disk = t.disk;
        replied = ap (λ b. push_to s addr b env) e ∙ t.replied;
        mail = t.mail;
        same_closed = t.same_closed;
        same_policy = t.same_policy;
      }

  pub set_actor_self :
      (s : System V) (addr : ℕ) (a : BaseActor V) → (set_actor s addr a).actors addr ≡ some a
  set_actor_self s addr a = ground arith

  pub set_actor_ne :
      (s : System V) (addr k : ℕ) (a : BaseActor V)
      → k ≢ addr
      → (set_actor s addr a).actors k ≡ s.actors k
  set_actor_ne s addr k a n = ground arith

  -- What a step of the loop comes to that pops an envelope.
  pub record Taken (z : Sizes) (us ns : List (Envelope (Message V) EnvelopeMeta)) (host : Host)
      (users : Users V) (s : System V) (addr : ℕ) (a : BaseActor V)
      (env : Envelope (Message V) EnvelopeMeta) (out : Result V) : Type 0 where
    pub mb : Mailbox (Message V) EnvelopeMeta
    pub replied :
        out
        ≡ handle host users
            (set_actor s addr (record a { mailbox = mb; loop = some popping }))
            addr
            a.has_receive
            env
    pub mail : Mail z (rest us) (normal_left us ns) mb
    pub same_closed : mb.is_closed ≡ a.mailbox.is_closed
    pub same_policy : mb.policy ≡ a.mailbox.policy

  pub run_step-Taken :
      (z : Sizes) (us ns : List (Envelope (Message V) EnvelopeMeta)) (host : Host) (users : Users V)
      (notify_first : Bool) (s : System V) (addr : ℕ) (a : BaseActor V)
      (env : Envelope (Message V) EnvelopeMeta)
      → s.actors addr ≡ some a
      → a.loop ≡ some popping
      → Mail z us ns a.mailbox
      → next_mail us ns ≡ some env
      → Taken z us ns host users s addr a env (run_step host users notify_first s addr)
  unfolding run_step
  run_step-Taken z us ns host users notify_first s addr a env e at h next =
      let p = pop-Popped z us ns a.mailbox h in
      record {
        mb = p.after;
        replied =
            ap (run_actor host users notify_first s addr) e
            ∙ ap (run_at host users notify_first s addr a) at
            ∙ ap (λ o. looped host users s addr a (after_pop o))
                (p.replied ∙ ap (λ n. some (p.after, n)) next);
        mail = p.mail;
        same_closed = p.same_closed;
        same_policy = p.same_policy;
      }
