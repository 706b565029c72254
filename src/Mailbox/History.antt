-- ===== src/Mailbox/History.antt =====
-- The histories of calls on a mailbox of mailbox/mailbox.go.
use deqin_actor.Base.{
  ℕ, ◌^◌, ◌≤◌, ◌<◌, ◌≡◌, refl, sym, ap, ◌∙◌, arith, if◌then◌else◌, Bool, true, false, not, ◌&&◌,
  Option, none, some, List, [], ◌∷◌,
}
use mathlib.Core.Path.{subst}
use mathlib.Core.Option
use deqin_actor.Base.Int.{two63, two64}
use deqin_actor.Ring.Dequeue.{rest}
use deqin_actor.Ring.{round_up}
use deqin_actor.Ring.Refine.{round_up-Sized}
use deqin_actor.Mailbox.{
  Envelope, Mailbox, Options, Pushed, mailbox_closed, new_mailbox, or_default, close, len,
  is_urgent, push, pop,
}
use deqin_actor.Mailbox.Lane.{put_if}
use deqin_actor.Mailbox.Order.{Sizes, Mail, offer-Offered, next_mail, normal_left, pop-Popped}
use deqin_actor.Mailbox.Spec.{
  MailOp, pushes, pops, measures, closes, MailReply, pushed, popped, measured, done, verdict,
  IsMail,
}
use deqin_actor.Mailbox.Policies.{push-guarded, push_open}
use deqin_actor.Mailbox.Start.{new_mailbox-Mail}

module _ {P M : Type 0} where
  abbrev next :
      (Mailbox P M → Option (List (MailReply P M)))
      → Option (Mailbox P M × MailReply P M)
      → Option (List (MailReply P M))
  next go none = none
  next go (some (m, r)) = Option.map (λ rs. r ∷ rs) (go m)

  abbrev as_pushed : Option (Mailbox P M × Pushed) → Option (Mailbox P M × MailReply P M)
  as_pushed none = none
  as_pushed (some (m, p)) = some (m, pushed p)

  abbrev as_popped :
      Option (Mailbox P M × Option (Envelope P M)) → Option (Mailbox P M × MailReply P M)
  as_popped none = none
  as_popped (some (m, e)) = some (m, popped e)

  -- A history of calls with their replies. A `Push` that would block is left at its first sleep.
  abbrev step : Mailbox P M → MailOp P M → Option (Mailbox P M × MailReply P M)
  step m (pushes env) = as_pushed (push [] m env).0
  step m pops = as_popped (pop m)
  step m measures = some (m, measured (len m))
  step m closes = some (close m, done)

  unfoldable pub run : Mailbox P M → List (MailOp P M) → Option (List (MailReply P M))
  run m [] = some []
  run m (op ∷ ops) = next (λ m'. run m' ops) (step m op)

  run-step :
      (m m' : Mailbox P M) (op : MailOp P M) (r : MailReply P M) (ops : List (MailOp P M))
      (rs : List (MailReply P M))
      → step m op ≡ some (m', r)
      → run m' ops ≡ some rs
      → run m (op ∷ ops) ≡ some (r ∷ rs)
  unfolding run
  run-step m m' op r ops rs e f = ap (next (λ n. run n ops)) e ∙ ap (Option.map (λ qs. r ∷ qs)) f

  record State (z : Sizes) (policy : ℕ) (us ns : List (Envelope P M)) (closed : Bool)
      (m : Mailbox P M) : Type 0 where
    mail : Mail z us ns m
    policy_is : m.policy ≡ policy
    closed_is : m.is_closed ≡ closed

  abbrev closed_as : Mailbox P M → Bool → Mailbox P M
  closed_as m c = if c then m else record m { is_closed = true }

  close-State :
      (z : Sizes) (policy : ℕ) (us ns : List (Envelope P M)) (closed : Bool) (m : Mailbox P M)
      → State z policy us ns closed m
      → State z policy us ns true (close m)
  unfolding close
  close-State z policy us ns true m h =
      subst (State z policy us ns true) (sym (ap (closed_as m) h.closed_is)) h
  close-State z policy us ns false m h =
      subst (State z policy us ns true) (sym (ap (closed_as m) h.closed_is)) (record {
        mail = record {
          urgent_lane = h.mail.urgent_lane;
          normal_lane = h.mail.normal_lane;
          counted = h.mail.counted;
        };
        policy_is = h.policy_is;
        closed_is = refl;
      })

  abbrev Answers :
      Sizes
      → ℕ
      → List (Envelope P M)
      → List (Envelope P M)
      → Bool
      → Mailbox P M
      → List (MailOp P M)
      → Type 0
  Answers z policy us ns closed m ops =
      (rs : List (MailReply P M)) × (run m ops ≡ some rs) × IsMail z policy us ns ops rs closed

  run-IsMail :
      (ops : List (MailOp P M)) (z : Sizes) (policy : ℕ) (us ns : List (Envelope P M))
      (closed : Bool) (m : Mailbox P M)
      → policy ≤ 2
      → State z policy us ns closed m
      → Answers z policy us ns closed m ops
  unfolding run len
  run-IsMail [] z policy us ns closed m known h = ([], refl, tt)
  run-IsMail (pushes env ∷ ops) z policy us ns true m known h =
      let (rs, e, f) = run-IsMail ops z policy us ns true m known h in
      (
        pushed mailbox_closed ∷ rs,
        run-step m m (pushes env) (pushed mailbox_closed) ops rs
            (ap as_pushed (push-guarded m env true h.closed_is)) e,
        (refl, f),
      )
  run-IsMail (pushes env ∷ ops) z policy us ns false m known h =
      let (accepted, o) = offer-Offered z us ns m env h.mail in
      let m' = o.after in
      let policy_is = o.same_policy ∙ h.policy_is in
      let closed_is = o.same_closed ∙ h.closed_is in
      let (rs, e, f) =
        run-IsMail ops z policy (put_if (accepted && is_urgent env) us env)
          (put_if (accepted && not (is_urgent env)) ns env) false m' known
          (record { mail = o.mail; policy_is = policy_is; closed_is = closed_is }) in
      let known_m : m.policy ≤ 2 = omega (arith, h.policy_is) in
      let r = verdict m.policy accepted in
      (
        pushed r ∷ rs,
        run-step m m' (pushes env) (pushed r) ops rs
            (ap as_pushed (push_open m m' env accepted known_m h.closed_is closed_is o.replied)) e,
        (accepted, ap (λ p. verdict p accepted) h.policy_is, o.room, o.full, f),
      )
  run-IsMail (pops ∷ ops) z policy us ns closed m known h =
      let p = pop-Popped z us ns m h.mail in
      let (rs, e, f) =
        run-IsMail ops z policy (rest us) (normal_left us ns) closed p.after known (record {
          mail = p.mail;
          policy_is = p.same_policy ∙ h.policy_is;
          closed_is = p.same_closed ∙ h.closed_is;
        }) in
      (
        popped (next_mail us ns) ∷ rs,
        run-step m p.after pops (popped (next_mail us ns)) ops rs (ap as_popped p.replied) e,
        (refl, f),
      )
  run-IsMail (measures ∷ ops) z policy us ns closed m known h =
      let (rs, e, f) = run-IsMail ops z policy us ns closed m known h in
      (
        measured m.size ∷ rs,
        run-step m m measures (measured m.size) ops rs refl e,
        (h.mail.counted, f),
      )
  run-IsMail (closes ∷ ops) z policy us ns closed m known h =
      let (rs, e, f) =
        run-IsMail ops z policy us ns true (close m) known
          (close-State z policy us ns closed m h) in
      (done ∷ rs, run-step m (close m) closes done ops rs refl e, f)

-- A new mailbox, with a policy that is known and capacities of at most 2^63, answers any history of
-- `Push`, `Pop`, `Len` and `Close` as the specification says: `Pop` takes the oldest urgent envelope,
-- else the oldest normal one, else none, also after `Close`; a closed mailbox refuses every `Push`;
-- an open one refuses an envelope only if its lane is as full as one segment, and then answers by
-- the policy; an envelope reported as pushed is in its lane, but for the one that `DropNewest`
-- drops; `Len` is the number of envelopes. `sizes` has the cells of a segment of each lane, which
-- are the capacity asked for rounded up to a power of two.
pub mailbox_delivers :
    (P M : Type 0) (opts : Options P) (ops : List (MailOp P M))
    → opts.urgent_capacity ≤ two63
    → opts.capacity ≤ two63
    → opts.max_segments < two64
    → opts.policy ≤ 2
    → (sizes : Sizes) × (round_up (or_default opts.urgent_capacity 1024) ≡ 2 ^ sizes.urgent_bits)
      × (round_up (or_default opts.capacity 65536) ≡ 2 ^ sizes.normal_bits)
      × (sizes.limit ≡ or_default opts.max_segments 8)
      × (rs : List (MailReply P M)) × (run (new_mailbox opts) ops ≡ some rs)
      × IsMail sizes (new_mailbox {M = M} opts).policy [] [] ops rs false
unfolding new_mailbox
mailbox_delivers P M opts ops u_small n_small word known =
    let (ub, us) = round_up-Sized (or_default opts.urgent_capacity 1024) (ground arith) in
    let (nb, ns) = round_up-Sized (or_default opts.capacity 65536) (ground arith) in
    let z : Sizes = record {
      urgent_bits = ub;
      normal_bits = nb;
      limit = (or_default opts.max_segments 8);
    } in
    let m : Mailbox P M = new_mailbox opts in
    let (rs, e, f) = run-IsMail ops z m.policy [] [] false m (ground arith) (record {
      mail = new_mailbox-Mail opts ub nb us ns word;
      policy_is = refl;
      closed_is = refl;
    }) in
    (z, us.size, ns.size, refl, rs, e, f)
