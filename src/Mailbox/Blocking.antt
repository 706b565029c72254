-- ===== src/Mailbox/Blocking.antt =====
-- A `Push` of mailbox/mailbox.go that waits for room.
use deqin_actor.Base.{
  ℕ, zero, suc, ◌*◌, ◌^◌, ◌≤◌, ◌≡◌, refl, sym, ap, ap₂, ◌∙◌, arith, if◌then◌else◌, Bool, true,
  false, not, ◌&&◌, Option, none, some, List, [], ◌∷◌, length,
}
use mathlib.Core.Path.{subst}
use deqin_actor.Mailbox.{
  Envelope, Mailbox, Pushed, mailbox_closed, waiting, close, offer, is_urgent, push, push_by,
  push_block, tried, persisted, backpressure_block,
}
use deqin_actor.Mailbox.Lane.{put_if}
use deqin_actor.Mailbox.Order.{Sizes, bits_of, Mail, lane_of, Offered, offer-Offered}

module _ {P M : Type 0} where
  -- Nothing happens in so many sleeps, and the mailbox is closed in the one after them.
  abbrev pub closed_after : ℕ → List (Mailbox P M → Mailbox P M)
  closed_after zero = close ∷ []
  closed_after (suc sleeps) = (λ m. m) ∷ closed_after sleeps

  -- A try that is refused.
  abbrev Refused :
      Sizes → List (Envelope P M) → List (Envelope P M) → Mailbox P M → Envelope P M → Type 0
  Refused z us ns m env =
      (m' : Mailbox P M) × (offer m env ≡ some (m', false))
      × Mail z us ns m'
      × (m'.is_closed ≡ m.is_closed)

  full-Refused :
      (z : Sizes) (us ns : List (Envelope P M)) (m : Mailbox P M) (env : Envelope P M)
      (accepted : Bool)
      → Offered z us ns m (is_urgent env) env accepted (offer m env)
      → z.limit * 2 ^ bits_of (is_urgent env) z ≤ length (lane_of (is_urgent env) us ns)
      → Refused z us ns m env
  full-Refused z us ns m env true o full = absurd (omega (arith, o.room refl, full))
  full-Refused z us ns m env false o full = (o.after, o.replied, o.mail, o.same_closed)

  refused :
      (z : Sizes) (us ns : List (Envelope P M)) (m : Mailbox P M) (env : Envelope P M)
      → Mail z us ns m
      → z.limit * 2 ^ bits_of (is_urgent env) z ≤ length (lane_of (is_urgent env) us ns)
      → Refused z us ns m env
  refused z us ns m env h full =
      let (accepted, o) = offer-Offered z us ns m env h in
      full-Refused z us ns m env accepted o full

  abbrev shut : Mailbox P M → Mailbox P M
  shut m = record m { is_closed = true }

  close_lem : (m : Mailbox P M) → m.is_closed ≡ false → close m ≡ shut m
  unfolding close
  close_lem m e = ap (λ c. if c then m else shut m) e

  shut-Mail :
      (z : Sizes) (us ns : List (Envelope P M)) (m : Mailbox P M)
      → Mail z us ns m
      → Mail z us ns (shut m)
  shut-Mail z us ns m h = record {
    urgent_lane = h.urgent_lane;
    normal_lane = h.normal_lane;
    counted = h.counted;
  }

  -- What a refused try goes on with.
  tried-refused :
      (go : Mailbox P M → Option (Mailbox P M × Pushed)) (m m' : Mailbox P M) (env : Envelope P M)
      (closed : Bool)
      → offer m env ≡ some (m', false)
      → m'.is_closed ≡ closed
      → tried go (offer m env) ≡ (if closed then some (m', mailbox_closed) else go m')
  tried-refused go m m' env closed e c =
      ap (tried go) e ∙ ap (λ b. if b then some (m', mailbox_closed) else go m') c

  abbrev Closes :
      Sizes → List (Envelope P M) → List (Envelope P M) → Option (Mailbox P M × Pushed) → Type 0
  Closes z us ns out = (m' : Mailbox P M) × (out ≡ some (m', mailbox_closed)) × Mail z us ns m'

  push_block-Closes :
      (sleeps : ℕ) (z : Sizes) (us ns : List (Envelope P M)) (m : Mailbox P M) (env : Envelope P M)
      → Mail z us ns m
      → m.is_closed ≡ false
      → z.limit * 2 ^ bits_of (is_urgent env) z ≤ length (lane_of (is_urgent env) us ns)
      → Closes z us ns (push_block (closed_after sleeps) env m)
  unfolding push_block
  push_block-Closes zero z us ns m env h c full =
      let (m1, e1, h1, c1) = refused z us ns m env h full in
      let (m2, e2, h2, c2) = refused z us ns (shut m1) env (shut-Mail z us ns m1 h1) full in
      (
        m2,
        tried-refused (λ m'. push_block [] env (close m')) m m1 env false e1 (c1 ∙ c)
            ∙ ap (push_block [] env) (close_lem m1 (c1 ∙ c))
            ∙ tried-refused (λ m'. some (m', waiting)) (shut m1) m2 env true e2 c2,
        h2,
      )
  push_block-Closes (suc sleeps) z us ns m env h c full =
      let (m1, e1, h1, c1) = refused z us ns m env h full in
      let (m2, e2, h2) = push_block-Closes sleeps z us ns m1 env h1 (c1 ∙ c) full in
      (
        m2,
        tried-refused (λ m'. push_block (closed_after sleeps) env m') m m1 env false e1 (c1 ∙ c)
            ∙ e2,
        h2,
      )

  abbrev by_test :
      ℕ → Mailbox P M → Envelope P M → Bool → ℕ → Option (Mailbox P M × Pushed) × List (List ℕ)
  by_test sleeps m env closed policy =
      if closed
      then (some (m, mailbox_closed), [])
      else (push_by policy (closed_after sleeps) m env, persisted m env)

  -- An open mailbox with the policy `BackpressureBlock` holds `us` and `ns`, and the lane of the
  -- envelope has no free cell in any segment. A `Push` then waits through any number of sleeps in
  -- which nothing happens, and returns once the mailbox is closed, with the error that says so; what
  -- the mailbox holds is unchanged.
  pub blocked_until_closed :
      (sleeps : ℕ) (z : Sizes) (us ns : List (Envelope P M)) (m : Mailbox P M) (env : Envelope P M)
      → Mail z us ns m
      → m.policy ≡ backpressure_block
      → m.is_closed ≡ false
      → z.limit * 2 ^ bits_of (is_urgent env) z ≤ length (lane_of (is_urgent env) us ns)
      → (m' : Mailbox P M) × ((push (closed_after sleeps) m env).0 ≡ some (m', mailbox_closed))
        × Mail z us ns m'
  unfolding push
  blocked_until_closed sleeps z us ns m env h p c full =
      let (m', e, h') = push_block-Closes sleeps z us ns m env h c full in
      (m', ap₂ (λ b n. (by_test sleeps m env b n).0) c p ∙ e, h')

  abbrev outcome_of : Mailbox P M → Option (Mailbox P M × Bool) → Mailbox P M × Bool
  outcome_of m none = (m, false)
  outcome_of m (some p) = p

  -- A mailbox after a `Push` that is accepted.
  pub offer-Mail :
      (z : Sizes) (us ns : List (Envelope P M)) (m m' : Mailbox P M) (env : Envelope P M)
      → Mail z us ns m
      → offer m env ≡ some (m', true)
      → Mail z (put_if (is_urgent env) us env) (put_if (not (is_urgent env)) ns env) m'
  offer-Mail z us ns m m' env h e =
      let (accepted, o) = offer-Offered z us ns m env h in
      let same : (o.after, accepted) ≡ (m', true) = ap (outcome_of m) (sym o.replied ∙ e) in
      subst
        (λ p.
          Mail z (put_if (p.1 && is_urgent env) us env) (put_if (p.1 && not (is_urgent env)) ns env)
            p.0)
        same o.mail
