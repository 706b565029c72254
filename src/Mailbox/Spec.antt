-- ===== src/Mailbox/Spec.antt =====
-- The specification of the mailbox of mailbox/mailbox.go: two lists of envelopes.
use deqin_actor.Base.{
  ℕ, ◌+◌, ◌*◌, ◌^◌, ◌≤◌, ◌<◌, ◌≡◌, if◌then◌else◌, ◌==◌, Bool, true, false, not, ◌&&◌, Option, List,
  [], ◌∷◌, length,
}
use deqin_actor.Base.Int.{ℤ, pos, to_int64}
use deqin_actor.Ring.Dequeue.{rest}
use deqin_actor.Mailbox.{
  Envelope, Pushed, no_error, mailbox_closed, mailbox_full, waiting, is_urgent, backpressure_expand,
  backpressure_drop_newest,
}
use deqin_actor.Mailbox.Lane.{put_if}
use deqin_actor.Mailbox.Order.{Sizes, bits_of, lane_of, next_mail, normal_left}

pub data MailOp {ℓ} (P M : Type ℓ) : Type ℓ where
  pushes : Envelope P M → MailOp P M
  pops : MailOp P M
  measures : MailOp P M
  closes : MailOp P M

pub data MailReply {ℓ} (P M : Type ℓ) : Type ℓ where
  pushed : Pushed → MailReply P M
  popped : Option (Envelope P M) → MailReply P M
  measured : ℤ → MailReply P M
  done : MailReply P M

-- What the policy makes of an envelope that the queue accepted or refused.
abbrev pub verdict : ℕ → Bool → Pushed
verdict policy true = no_error
verdict policy false =
    if policy == backpressure_expand
    then mailbox_full
    else if policy == backpressure_drop_newest
    then no_error
    else waiting

module _ {P M : Type 0} where
  -- The replies to a history of calls on a mailbox that holds the urgent envelopes `us` and the
  -- normal ones `ns`, and is closed or not: the specification of the mailbox.
  abbrev pub IsMail :
      Sizes
      → ℕ
      → List (Envelope P M)
      → List (Envelope P M)
      → List (MailOp P M)
      → List (MailReply P M)
      → Bool
      → Type 0
  IsMail z policy us ns [] [] closed = Unit {0}
  IsMail z policy us ns (pushes env ∷ ops) (pushed r ∷ rs) true =
      (r ≡ mailbox_closed) × IsMail z policy us ns ops rs true
  IsMail z policy us ns (pushes env ∷ ops) (pushed r ∷ rs) false =
      (accepted : Bool) × (r ≡ verdict policy accepted)
      × (accepted ≡ true
          → length (lane_of (is_urgent env) us ns) < z.limit * 2 ^ bits_of (is_urgent env) z)
      × (accepted ≡ false → 2 ^ bits_of (is_urgent env) z ≤ length (lane_of (is_urgent env) us ns))
      × IsMail z policy (put_if (accepted && is_urgent env) us env)
          (put_if (accepted && not (is_urgent env)) ns env) ops rs false
  IsMail z policy us ns (pops ∷ ops) (popped e ∷ rs) closed =
      (e ≡ next_mail us ns) × IsMail z policy (rest us) (normal_left us ns) ops rs closed
  IsMail z policy us ns (measures ∷ ops) (measured n ∷ rs) closed =
      (n ≡ to_int64 (pos (length us + length ns))) × IsMail z policy us ns ops rs closed
  IsMail z policy us ns (closes ∷ ops) (done ∷ rs) closed = IsMail z policy us ns ops rs true
  IsMail z policy us ns ops rs closed = ⊥
