-- ===== src/Mailbox/Policies.antt =====
-- What `Push` of mailbox/mailbox.go makes of the policy, for a mailbox that is closed or open.
use deqin_actor.Base.{
  ℕ, ◌≤◌, ◌≡◌, ap, ◌∙◌, arith, if◌then◌else◌, ◌==◌, Bool, true, false, Option, some, List, [],
}
use deqin_actor.Mailbox.{
  Envelope, Mailbox, Pushed, mailbox_closed, unknown_policy, persisted, waiting, offer, push,
  push_block, push_by, push_expand, push_drop_newest, tried, backpressure_expand,
  backpressure_block, backpressure_drop_newest,
}
use deqin_actor.Mailbox.Spec.{verdict}

-- What an open mailbox makes of the outcome of the queue.
abbrev outcome :
    {P M : Type 0} → ℕ → Mailbox P M → Option (Mailbox P M × Bool) → Option (Mailbox P M × Pushed)
outcome policy m o =
    if policy == backpressure_expand
    then push_expand o
    else if policy == backpressure_drop_newest
    then push_drop_newest o
    else if policy == backpressure_block
    then tried (λ n. some (n, waiting)) o
    else some (m, unknown_policy)

by_policy :
    {P M : Type 0} (policy : ℕ) (m m' : Mailbox P M) (accepted : Bool)
    → policy ≤ 2
    → m'.is_closed ≡ false
    → outcome policy m (some (m', accepted)) ≡ some (m', verdict policy accepted)
by_policy policy m m' true known is_open = ground arith
by_policy policy m m' false known is_open = ground (arith, is_open)

module _ {P M : Type 0} where
  abbrev guarded : Mailbox P M → Envelope P M → Bool → Option (Mailbox P M × Pushed)
  guarded m env c = if c then some (m, mailbox_closed) else push_by m.policy [] m env

  abbrev with_bytes :
      Mailbox P M → Envelope P M → Bool → Option (Mailbox P M × Pushed) × List (List ℕ)
  with_bytes m env c =
      if c then (some (m, mailbox_closed), []) else (push_by m.policy [] m env, persisted m env)

  pub push-guarded :
      (m : Mailbox P M) (env : Envelope P M) (c : Bool)
      → m.is_closed ≡ c
      → (push [] m env).0 ≡ guarded m env c
  unfolding push
  push-guarded m env true e = ap (λ c. (with_bytes m env c).0) e
  push-guarded m env false e = ap (λ c. (with_bytes m env c).0) e

  pub push_open :
      (m m' : Mailbox P M) (env : Envelope P M) (accepted : Bool)
      → m.policy ≤ 2
      → m.is_closed ≡ false
      → m'.is_closed ≡ false
      → offer m env ≡ some (m', accepted)
      → (push [] m env).0 ≡ some (m', verdict m.policy accepted)
  unfolding push_block
  push_open m m' env accepted known is_open still_open e =
      push-guarded m env false is_open
      ∙ ap (outcome m.policy m) e
      ∙ by_policy m.policy m m' accepted known still_open
