-- ===== src/BaseActor/Wakeup.antt =====
-- No wake-up of the loop of actor/base_actor.go is lost.
use deqin_actor.Base.{
  ◌≤◌, ◌<◌, ◌≡◌, inl, inr, sym, ap, ap₂, ◌∙◌, arith, Bool, true, false, not, ◌&&◌, ◌||◌, Option,
  none, some, List, [], ◌∷◌, ◌++◌,
}
use mathlib.Core.Path.{subst}
use mathlib.Core.Option
use deqin_actor.Base.Int.{two63, two64}
use deqin_actor.Ring.Refine.{round_up-Sized}
use deqin_actor.Mailbox.{Envelope, Mailbox, Options, new_mailbox, or_default, pop, wait, has_mail}
use deqin_actor.Mailbox.Order.{Sizes, Mail, next_mail, pop-Popped}
use deqin_actor.Mailbox.Start.{new_mailbox-Mail}
use deqin_actor.BaseActor.{popping, waiting, Running, after_pop, after_wait, loop_step}
use deqin_actor.BaseActor.Events.{
  Event, is_waiting, run, run-Goes, Goes, Awake, quiet, quiet-Mail, waited,
}

module _ {P M : Type 0} where
  abbrev pub start : Mailbox P M → Running P M
  start m = record { mailbox = m; at = popping }

  -- Two calls of the loop, with the envelopes that they hand over.
  abbrev second_turn :
      Bool → Option (Running P M × List (Envelope P M)) → Option (List (Envelope P M))
  second_turn notify_first none = none
  second_turn notify_first (some (r, envs)) =
      Option.map (λ p. envs ++ p.1) (loop_step notify_first r)

  abbrev pub two_turns : Bool → Running P M → Option (List (Envelope P M))
  two_turns notify_first r = second_turn notify_first (loop_step notify_first r)

  start-Goes :
      (opts : Options P) (es : List (Event P M))
      → opts.urgent_capacity ≤ two63
      → opts.capacity ≤ two63
      → opts.max_segments < two64
      → opts.policy ≤ 2
      → (z : Sizes) × Goes z (run (start (new_mailbox opts)) es)
  unfolding new_mailbox
  start-Goes opts es u_small n_small word known =
      let (ub, us) = round_up-Sized (or_default opts.urgent_capacity 1024) (ground arith) in
      let (nb, ns) = round_up-Sized (or_default opts.capacity 65536) (ground arith) in
      let z : Sizes = record {
        urgent_bits = ub;
        normal_bits = nb;
        limit = (or_default opts.max_segments 8);
      } in
      (
        z,
        run-Goes z es (start (new_mailbox opts)) (record {
          us = [];
          ns = [];
          mail = new_mailbox-Mail opts ub nb us ns word;
          known = ground arith;
          ready = λ w. absurd (ground arith);
        }),
      )

  wait-notified :
      (notify_first : Bool) (m : Mailbox P M)
      → m.notify ≡ true
      → m.is_closed ≡ false
      → wait notify_first m ≡ (quiet m, has_mail)
  unfolding wait
  wait-notified true m n c = ap₂ (λ b c'. waited m (b && (true || not c')) c') n c
  wait-notified false m n c = ap₂ (λ b c'. waited m (b && (false || not c')) c') n c

  -- A loop that is notified hands over the next envelope in its next two calls.
  two_turns-notified :
      (z : Sizes) (us ns : List (Envelope P M)) (notify_first : Bool) (m : Mailbox P M)
      (env : Envelope P M)
      → Mail z us ns m
      → m.notify ≡ true
      → m.is_closed ≡ false
      → next_mail us ns ≡ some env
      → two_turns notify_first (record { mailbox = m; at = waiting }) ≡ some (env ∷ [])
  unfolding loop_step
  two_turns-notified z us ns notify_first m env h n c e =
      let p = pop-Popped z us ns (quiet m) (quiet-Mail z us ns m h) in
      ap (λ w. second_turn notify_first (some (after_wait w, [])))
        (wait-notified notify_first m n c)
      ∙ ap (λ o. Option.map (λ q. [] ++ q.1) (after_pop o))
          (p.replied ∙ ap (λ v. some (p.after, v)) e)

  abbrev mail_of : Option (Mailbox P M × Option (Envelope P M)) → Option (Envelope P M)
  mail_of none = none
  mail_of (some (m, v)) = v

  two_turns-Awake :
      (z : Sizes) (notify_first : Bool) (r : Running P M) (m : Mailbox P M) (env : Envelope P M)
      → Awake z r
      → r.at ≡ waiting
      → r.mailbox.is_closed ≡ false
      → pop r.mailbox ≡ some (m, some env)
      → two_turns notify_first r ≡ some (env ∷ [])
  two_turns-Awake z notify_first r m env h w c e =
      let p = pop-Popped z h.us h.ns r.mailbox h.mail in
      let first : next_mail h.us h.ns ≡ some env = ap mail_of (sym p.replied ∙ e) in
      elim (h.ready (ap is_waiting w)) [
        | inl empty ↦ absurd (ground (arith, sym first ∙ empty))
        | inr notified ↦
            subst
              (λ l.
                two_turns notify_first (record { mailbox = r.mailbox; at = l }) ≡ some (env ∷ []))
              (sym w)
              (two_turns-notified z h.us h.ns notify_first r.mailbox env h.mail notified c first)
      ]

abbrev or_start : {P M : Type 0} → Running P M → Option (Running P M) → Running P M
or_start r none = r
or_start r (some r') = r'

-- An actor's loop starts on a new mailbox with a policy that is known and capacities of at most
-- 2^63. Whatever is pushed, and whenever the mailbox is closed, between its calls, each event
-- returns.
events_return :
    (P M : Type 0) (opts : Options P) (es : List (Event P M))
    → opts.urgent_capacity ≤ two63
    → opts.capacity ≤ two63
    → opts.max_segments < two64
    → opts.policy ≤ 2
    → (r : Running P M) × (run (start (new_mailbox opts)) es ≡ some r)
events_return P M opts es u_small n_small word known =
    let (z, (r, e, h)) = start-Goes opts es u_small n_small word known in (r, e)

-- An actor's loop starts on a new mailbox with a policy that is known and capacities of at most
-- 2^63, and others push and close between its calls. Whenever it is then about to wait on an open
-- mailbox from which `Pop` would take an envelope, its next two calls hand that envelope over: its
-- `Wait` does not block, so that no wake-up is lost.
pub no_lost_wakeup :
    (P M : Type 0) (opts : Options P) (es : List (Event P M)) (r : Running P M) (m : Mailbox P M)
    (env : Envelope P M) (notify_first : Bool)
    → opts.urgent_capacity ≤ two63
    → opts.capacity ≤ two63
    → opts.max_segments < two64
    → opts.policy ≤ 2
    → run (start (new_mailbox opts)) es ≡ some r
    → r.at ≡ waiting
    → r.mailbox.is_closed ≡ false
    → pop r.mailbox ≡ some (m, some env)
    → two_turns notify_first r ≡ some (env ∷ [])
no_lost_wakeup P M opts es r m env notify_first u_small n_small word known run_is w c e =
    let (z, (r', run_is', h)) = start-Goes opts es u_small n_small word known in
    let same : r' ≡ r = ap (or_start r) (sym run_is' ∙ run_is) in
    two_turns-Awake z notify_first r m env (subst (Awake z) same h) w c e
