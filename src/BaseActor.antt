-- ===== src/BaseActor.antt =====
-- actor/base_actor.go: the loop of an actor on its mailbox. What `handle` does with an envelope is
-- left out; the loop is seen by the envelopes that it hands over.
mod Tests
pub mod Events
pub mod Wakeup
use deqin_actor.Base.{
  ℕ, zero, suc, ◌+◌, ◌-◌, ◌*◌, ◌/◌, ◌%◌, ◌^◌, ◌≤◌, ◌<◌, min, max, ◌≡◌, ◌≢◌, ◌↔◌, ◌⊎◌, inl, inr,
  refl, sym, ap, ap₂, ◌∙◌, arith, tests, if◌then◌else◌, ltb, leb, ◌==◌, ltb→lt, lt→ltb, le→ltb,
  leb→le, le→leb, lt→leb, ==_iff, Bool-cases, Option-cases, Bool, true, false, not, ◌&&◌, ◌||◌,
  Option, none, some, List, [], ◌∷◌, ◌++◌, map, append-nil, append_assoc, length, get_elem?, set,
  take, drop, length-append, length-set, get_elem?-set_self, get_elem?-set_ne, get_elem?-eq_some,
  get_elem?-append_left, get_elem?-append_end, dec_lt, dec_le, ℕ_discrete,
}
use mathlib.Core.Option
use deqin_actor.Mailbox.{Envelope, Mailbox, pop, wait, Waited, has_mail, closed_down, sleeps}

-- Where the loop is: about to call `Pop`, about to call `Wait`, or past its end.
pub data Loop : Type 0 where
  popping : Loop
  waiting : Loop
  ended : Loop

-- The mailbox of an actor, and the place in its loop.
pub record Running {ℓ} (P M : Type ℓ) : Type ℓ where
  pub mailbox : Mailbox P M
  pub at : Loop

module _ {ℓ} {P M : Type ℓ} where
  abbrev pub after_pop :
      Option (Mailbox P M × Option (Envelope P M)) → Option (Running P M × List (Envelope P M))
  after_pop none = none
  after_pop (some (m, some env)) = some (record { mailbox = m; at = popping }, env ∷ [])
  after_pop (some (m, none)) = some (record { mailbox = m; at = waiting }, [])

  abbrev pub after_wait : Mailbox P M × Waited → Running P M
  after_wait (m, has_mail) = record { mailbox = m; at = popping }
  after_wait (m, closed_down) = record { mailbox = m; at = ended }
  after_wait (m, sleeps) = record { mailbox = m; at = waiting }

  -- A call of the loop, with the envelopes that it hands to `handle`; the argument is whether `Wait`
  -- takes the notification if both its channels are ready.
  abbrev pub loop_at : Bool → Mailbox P M → Loop → Option (Running P M × List (Envelope P M))
  loop_at notify_first m popping = after_pop (pop m)
  loop_at notify_first m waiting = some (after_wait (wait notify_first m), [])
  loop_at notify_first m ended = some (record { mailbox = m; at = ended }, [])

  unfoldable pub loop_step : Bool → Running P M → Option (Running P M × List (Envelope P M))
  loop_step notify_first r = loop_at notify_first r.mailbox r.at
