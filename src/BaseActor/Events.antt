-- ===== src/BaseActor/Events.antt =====
-- The loop of actor/base_actor.go, while other goroutines push and close between its calls.
use deqin_actor.Base.{
  ◌≤◌, ◌≡◌, ◌⊎◌, inl, inr, refl, ap, ◌∙◌, arith, if◌then◌else◌, Bool-cases, Bool, true, false, not,
  ◌&&◌, ◌||◌, Option, none, some, List, [], ◌∷◌,
}
use deqin_actor.Mailbox.{
  Envelope, Mailbox, Pushed, close, is_urgent, push, pop, wait, Waited, has_mail, closed_down,
  sleeps,
}
use deqin_actor.Mailbox.Lane.{put_if}
use deqin_actor.Mailbox.Order.{Sizes, Mail, offer-Offered, next_mail, Popped, pop-Popped}
use deqin_actor.Mailbox.Policies.{push-guarded, push_open}
use deqin_actor.BaseActor.{
  Loop, popping, waiting, ended, Running, after_pop, after_wait, loop_at, loop_step,
}

-- What happens next: a `Push`, which is left at its first sleep if it has to wait, a `Close`, or a
-- call of the loop.
pub data Event {ℓ} (P M : Type ℓ) : Type ℓ where
  arrives : Envelope P M → Event P M
  shuts : Event P M
  turns : Bool → Event P M

abbrev pub is_waiting : Loop → Bool
is_waiting popping = false
is_waiting waiting = true
is_waiting ended = false

module _ {P M : Type 0} where
  abbrev landed : Loop → Option (Mailbox P M × Pushed) → Option (Running P M)
  landed l none = none
  landed l (some (m, p)) = some (record { mailbox = m; at = l })

  abbrev turned : Option (Running P M × List (Envelope P M)) → Option (Running P M)
  turned none = none
  turned (some (r, envs)) = some r

  abbrev happen : Running P M → Event P M → Option (Running P M)
  happen r (arrives env) = landed r.at (push [] r.mailbox env).0
  happen r shuts = some (record r { mailbox = close r.mailbox })
  happen r (turns notify_first) = turned (loop_step notify_first r)

  abbrev pub next :
      (Running P M → Option (Running P M)) → Option (Running P M) → Option (Running P M)
  next go none = none
  next go (some r) = go r

  unfoldable pub run : Running P M → List (Event P M) → Option (Running P M)
  run r [] = some r
  run r (e ∷ es) = next (λ r'. run r' es) (happen r e)

  -- Whenever the loop is about to wait, there is no mail or the notification is there.
  pub record Awake (z : Sizes) (r : Running P M) : Type 0 where
    pub us : List (Envelope P M)
    pub ns : List (Envelope P M)
    pub mail : Mail z us ns r.mailbox
    pub known : r.mailbox.policy ≤ 2
    pub ready : is_waiting r.at ≡ true → (next_mail us ns ≡ none) ⊎ (r.mailbox.notify ≡ true)

  -- What an event comes to.
  abbrev pub Goes : Sizes → Option (Running P M) → Type 0
  Goes z out = (r : Running P M) × (out ≡ some r) × Awake z r

  arrives-offered :
      (z : Sizes) (r : Running P M) (env : Envelope P M) (accepted : Bool) (u : Bool)
      (h : Awake z r) (m : Mailbox P M)
      → Mail z (put_if (accepted && u) h.us env) (put_if (accepted && not u) h.ns env) m
      → m.policy ≡ r.mailbox.policy
      → m.notify ≡ (accepted || r.mailbox.notify)
      → Awake z (record { mailbox = m; at = r.at })
  arrives-offered z r env true u h m mail policy notified = record {
    us = put_if u h.us env;
    ns = put_if (not u) h.ns env;
    mail = mail;
    known = omega (arith, h.known, policy);
    ready = λ _. inr notified;
  }
  arrives-offered z r env false u h m mail policy notified = record {
    us = h.us;
    ns = h.ns;
    mail = mail;
    known = omega (arith, h.known, policy);
    ready = λ w. elim (h.ready w) [ inl e ↦ inl e | inr n ↦ inr (notified ∙ n) ];
  }

  arrives-Goes :
      (z : Sizes) (r : Running P M) (env : Envelope P M) (closed : Bool)
      → r.mailbox.is_closed ≡ closed
      → Awake z r
      → Goes z (happen r (arrives env))
  arrives-Goes z r env true e h = (r, ap (landed r.at) (push-guarded r.mailbox env true e), h)
  arrives-Goes z r env false e h =
      let (accepted, o) = offer-Offered z h.us h.ns r.mailbox env h.mail in
      (
        record { mailbox = o.after; at = r.at },
        ap (landed r.at)
            (push_open r.mailbox o.after env accepted h.known e (o.same_closed ∙ e) o.replied),
        arrives-offered z r env accepted (is_urgent env) h o.after o.mail o.same_policy o.notified,
      )

  shuts-Goes : (z : Sizes) (r : Running P M) → Awake z r → Goes z (happen r shuts)
  unfolding close
  shuts-Goes z r h = elim (Bool-cases r.mailbox.is_closed) [
    | inl e ↦ (
      r,
      ap
          (λ c.
            some (record r {
              mailbox = if c then r.mailbox else record r.mailbox { is_closed = true };
            }))
          e,
      h,
    )
    | inr e ↦ (
      record r { mailbox = record r.mailbox { is_closed = true } },
      ap
          (λ c.
            some (record r {
              mailbox = if c then r.mailbox else record r.mailbox { is_closed = true };
            }))
          e,
      record {
        us = h.us;
        ns = h.ns;
        mail = record {
          urgent_lane = h.mail.urgent_lane;
          normal_lane = h.mail.normal_lane;
          counted = h.mail.counted;
        };
        known = h.known;
        ready = h.ready;
      },
    )
  ]

  pops-Goes :
      (z : Sizes) (m : Mailbox P M) (us ns : List (Envelope P M))
      → m.policy ≤ 2
      → Popped z us ns m (pop m)
      → Goes z (turned (after_pop (pop m)))
  pops-Goes z m (e ∷ us) ns known p = (
    record { mailbox = p.after; at = popping },
    ap (λ o. turned (after_pop o)) p.replied,
    record {
      us = us;
      ns = ns;
      mail = p.mail;
      known = omega (arith, known, p.same_policy);
      ready = λ w. absurd (ground arith);
    },
  )
  pops-Goes z m [] (e ∷ ns) known p = (
    record { mailbox = p.after; at = popping },
    ap (λ o. turned (after_pop o)) p.replied,
    record {
      us = [];
      ns = ns;
      mail = p.mail;
      known = omega (arith, known, p.same_policy);
      ready = λ w. absurd (ground arith);
    },
  )
  pops-Goes z m [] [] known p = (
    record { mailbox = p.after; at = waiting },
    ap (λ o. turned (after_pop o)) p.replied,
    record {
      us = [];
      ns = [];
      mail = p.mail;
      known = omega (arith, known, p.same_policy);
      ready = λ w. inl refl;
    },
  )

  -- `Wait` takes the notification, or leaves the mailbox as it is.
  abbrev pub quiet : Mailbox P M → Mailbox P M
  quiet m = record m { notify = false }

  pub quiet-Mail :
      (z : Sizes) (us ns : List (Envelope P M)) (m : Mailbox P M)
      → Mail z us ns m
      → Mail z us ns (quiet m)
  quiet-Mail z us ns m h = record {
    urgent_lane = h.urgent_lane;
    normal_lane = h.normal_lane;
    counted = h.counted;
  }

  abbrev pub waited : Mailbox P M → Bool → Bool → Mailbox P M × Waited
  waited m b c = if b then (quiet m, has_mail) else if c then (m, closed_down) else (m, sleeps)

  waited-cases :
      (m : Mailbox P M) (b c : Bool)
      → (waited m b c ≡ (quiet m, has_mail))
        ⊎ ((waited m b c ≡ (m, closed_down)) ⊎ (waited m b c ≡ (m, sleeps)))
  waited-cases m true c = inl refl
  waited-cases m false true = inr (inl refl)
  waited-cases m false false = inr (inr refl)

  wait-cases :
      (notify_first : Bool) (m : Mailbox P M)
      → (wait notify_first m ≡ (quiet m, has_mail))
        ⊎ ((wait notify_first m ≡ (m, closed_down)) ⊎ (wait notify_first m ≡ (m, sleeps)))
  unfolding wait
  wait-cases notify_first m =
      waited-cases m (m.notify && (notify_first || not m.is_closed)) m.is_closed

  turns-Goes :
      (z : Sizes) (notify_first : Bool) (m : Mailbox P M) (l : Loop)
      → Awake z (record { mailbox = m; at = l })
      → Goes z (turned (loop_at notify_first m l))
  turns-Goes z notify_first m popping h =
      pops-Goes z m h.us h.ns h.known (pop-Popped z h.us h.ns m h.mail)
  turns-Goes z notify_first m ended h = (record { mailbox = m; at = ended }, refl, h)
  turns-Goes z notify_first m waiting h = elim (wait-cases notify_first m) [
    | inl e ↦ (
      record { mailbox = quiet m; at = popping },
      ap (λ w. some (after_wait w)) e,
      record {
        us = h.us;
        ns = h.ns;
        mail = quiet-Mail z h.us h.ns m h.mail;
        known = h.known;
        ready = λ w. absurd (ground arith);
      },
    )
    | inr (inl e) ↦ (
      record { mailbox = m; at = ended },
      ap (λ w. some (after_wait w)) e,
      record {
        us = h.us;
        ns = h.ns;
        mail = h.mail;
        known = h.known;
        ready = λ w. absurd (ground arith);
      },
    )
    | inr (inr e) ↦ (record { mailbox = m; at = waiting }, ap (λ w. some (after_wait w)) e, h)
  ]

  happen-Goes : (z : Sizes) (r : Running P M) (e : Event P M) → Awake z r → Goes z (happen r e)
  unfolding loop_step
  happen-Goes z r (arrives env) h = arrives-Goes z r env r.mailbox.is_closed refl h
  happen-Goes z r shuts h = shuts-Goes z r h
  happen-Goes z r (turns notify_first) h = turns-Goes z notify_first r.mailbox r.at h

  pub run-Goes :
      (z : Sizes) (es : List (Event P M)) (r : Running P M) → Awake z r → Goes z (run r es)
  unfolding run
  run-Goes z [] r h = (r, refl, h)
  run-Goes z (e ∷ es) r h =
      let (r', eq, h') = happen-Goes z r e h in
      let (r'', eq', h'') = run-Goes z es r' h' in (r'', ap (next (λ t. run t es)) eq ∙ eq', h'')
