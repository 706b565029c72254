-- ===== src/Mailbox.antt =====
-- mailbox/mailbox.go: the mailbox, two segmented queues behind one interface. What the user gives it
-- for persistence is a parameter: whether there is a hook, and the encoder. A call runs with no other
-- goroutine in between, but for those that act while `Push` waits for room.
mod Tests
pub mod Lane
pub mod Order
pub mod Spec
pub mod Policies
pub mod Start
pub mod Blocking
pub mod History
use deqin_actor.Base.{
  ℕ, zero, suc, ◌+◌, ◌-◌, ◌*◌, ◌/◌, ◌%◌, ◌^◌, ◌≤◌, ◌<◌, min, max, ◌≡◌, ◌≢◌, ◌↔◌, ◌⊎◌, inl, inr,
  refl, sym, ap, ap₂, ◌∙◌, arith, tests, if◌then◌else◌, ltb, leb, ◌==◌, ltb→lt, lt→ltb, le→ltb,
  leb→le, le→leb, lt→leb, ==_iff, Bool-cases, Option-cases, Bool, true, false, not, ◌&&◌, ◌||◌,
  Option, none, some, List, [], ◌∷◌, ◌++◌, map, append-nil, append_assoc, length, get_elem?, set,
  take, drop, length-append, length-set, get_elem?-set_self, get_elem?-set_ne, get_elem?-eq_some,
  get_elem?-append_left, get_elem?-append_end, dec_lt, dec_le, ℕ_discrete,
}
use mathlib.Core.Option
use deqin_actor.Base.Int.{ℤ, pos, negsuc, add64}
use deqin_actor.Segmented
use deqin_actor.Segmented.{SegmentedQueue, new_segmented_queue}

-- A `BackpressurePolicy` is a `uint8`: these, or an unknown one.
abbrev pub backpressure_expand : ℕ
backpressure_expand = 0

abbrev pub backpressure_block : ℕ
backpressure_block = 1

abbrev pub backpressure_drop_newest : ℕ
backpressure_drop_newest = 2

pub record Envelope {ℓ} (P M : Type ℓ) : Type ℓ where
  pub priority : ℕ
  pub payload : P
  pub data_of : M
  pub persist : Bool

-- `notify` tells whether the channel of capacity 1 is full, `is_closed` whether `closed` is closed.
pub record Mailbox {ℓ} (P M : Type ℓ) : Type ℓ where
  pub urgent : SegmentedQueue (Envelope P M)
  pub normal : SegmentedQueue (Envelope P M)
  pub policy : ℕ
  pub is_closed : Bool
  pub notify : Bool
  pub size : ℤ
  pub has_persist : Bool
  pub encode : Option (P → Option (List ℕ))

pub record Options {ℓ} (P : Type ℓ) : Type ℓ where
  pub capacity : ℕ
  pub urgent_capacity : ℕ
  pub max_segments : ℕ
  pub policy : ℕ
  pub has_persist : Bool
  pub encode : Option (P → Option (List ℕ))

-- What `Push` returns: no error, one of its errors, or it still waits.
pub data Pushed : Type 0 where
  no_error : Pushed
  mailbox_closed : Pushed
  mailbox_full : Pushed
  unknown_policy : Pushed
  waiting : Pushed

abbrev pub or_default : ℕ → ℕ → ℕ
or_default n d = if n == 0 then d else n

-- The bytes that `Push` hands to the hook.
abbrev pub encoded : Option (List ℕ) → List (List ℕ)
encoded none = []
encoded (some b) = b ∷ []

abbrev encode_with {ℓ} : {P : Type ℓ} → Option (P → Option (List ℕ)) → P → List (List ℕ)
encode_with none p = []
encode_with (some f) p = encoded (f p)

module _ {ℓ} {P M : Type ℓ} where
  unfoldable pub new_mailbox : Options P → Mailbox P M
  new_mailbox opts = record {
    urgent =
        new_segmented_queue (or_default opts.urgent_capacity 1024) (or_default opts.max_segments 8);
    normal = new_segmented_queue (or_default opts.capacity 65536) (or_default opts.max_segments 8);
    policy = or_default opts.policy backpressure_expand;
    is_closed = false;
    notify = false;
    size = pos 0;
    has_persist = opts.has_persist;
    encode = opts.encode;
  }

  unfoldable pub close : Mailbox P M → Mailbox P M
  close m = if m.is_closed then m else record m { is_closed = true }

  unfoldable pub len : Mailbox P M → ℤ
  len m = m.size

  unfoldable pub persisted : Mailbox P M → Envelope P M → List (List ℕ)
  persisted m env = if env.persist && m.has_persist then encode_with m.encode env.payload else []

  abbrev pub is_urgent : Envelope P M → Bool
  is_urgent env = not (env.priority == 0)

  abbrev pub lane : Mailbox P M → Bool → SegmentedQueue (Envelope P M)
  lane m true = m.urgent
  lane m false = m.normal

  abbrev set_lane : Mailbox P M → Bool → SegmentedQueue (Envelope P M) → Mailbox P M
  set_lane m true q = record m { urgent = q }
  set_lane m false q = record m { normal = q }

  -- An `Enqueue` of the lane, with the count and the notification that follow it.
  abbrev pub offered :
      Mailbox P M
      → Bool
      → Option (SegmentedQueue (Envelope P M) × Bool)
      → Option (Mailbox P M × Bool)
  offered m u none = none
  offered m u (some (q, true)) =
      some (record (set_lane m u q) { size = add64 m.size (pos 1); notify = true }, true)
  offered m u (some (q, false)) = some (set_lane m u q, false)

  unfoldable pub offer : Mailbox P M → Envelope P M → Option (Mailbox P M × Bool)
  offer m env = offered m (is_urgent env) (Segmented.enqueue 2 (lane m (is_urgent env)) env)

  abbrev pub push_expand : Option (Mailbox P M × Bool) → Option (Mailbox P M × Pushed)
  push_expand none = none
  push_expand (some (m, true)) = some (m, no_error)
  push_expand (some (m, false)) = some (m, mailbox_full)

  abbrev pub push_drop_newest : Option (Mailbox P M × Bool) → Option (Mailbox P M × Pushed)
  push_drop_newest none = none
  push_drop_newest (some (m, accepted)) = some (m, no_error)

  -- A try of `BackpressureBlock`; `again` is the next try, after a sleep.
  abbrev pub tried :
      (Mailbox P M → Option (Mailbox P M × Pushed))
      → Option (Mailbox P M × Bool)
      → Option (Mailbox P M × Pushed)
  tried again none = none
  tried again (some (m, true)) = some (m, no_error)
  tried again (some (m, false)) = if m.is_closed then some (m, mailbox_closed) else again m

  -- The loop of `BackpressureBlock`: what others do to the mailbox in each of its sleeps; it still
  -- waits after the last of them.
  unfoldable pub push_block :
      List (Mailbox P M → Mailbox P M) → Envelope P M → Mailbox P M → Option (Mailbox P M × Pushed)
  push_block [] env m = tried (λ m'. some (m', waiting)) (offer m env)
  push_block (others ∷ sleeps) env m = tried (λ m'. push_block sleeps env (others m')) (offer m env)

  abbrev pub push_by :
      ℕ
      → List (Mailbox P M → Mailbox P M)
      → Mailbox P M
      → Envelope P M
      → Option (Mailbox P M × Pushed)
  push_by policy sleeps m env =
      if policy == backpressure_expand
      then push_expand (offer m env)
      else if policy == backpressure_drop_newest
      then push_drop_newest (offer m env)
      else if policy == backpressure_block
      then push_block sleeps env m
      else some (m, unknown_policy)

  -- `Push`, with what others do while it sleeps: the mailbox and the error, and the bytes that the
  -- hook is given. `none` if a loop of the queue has not returned.
  unfoldable pub push :
      List (Mailbox P M → Mailbox P M)
      → Mailbox P M
      → Envelope P M
      → Option (Mailbox P M × Pushed) × List (List ℕ)
  push sleeps m env =
      if m.is_closed
      then (some (m, mailbox_closed), [])
      else (push_by m.policy sleeps m env, persisted m env)

  abbrev pub from_normal :
      Mailbox P M
      → Option (SegmentedQueue (Envelope P M) × Option (Envelope P M) × Bool)
      → Option (Mailbox P M × Option (Envelope P M))
  from_normal m none = none
  from_normal m (some (q, some env, true)) =
      some (record m { normal = q; size = add64 m.size (negsuc 0) }, some env)
  from_normal m (some (q, v, found)) = some (record m { normal = q }, none)

  abbrev pop_normal : Mailbox P M → Option (Mailbox P M × Option (Envelope P M))
  pop_normal m = from_normal m (Segmented.dequeue m.normal.max_seg m.normal)

  abbrev pub from_urgent :
      Mailbox P M
      → Option (SegmentedQueue (Envelope P M) × Option (Envelope P M) × Bool)
      → Option (Mailbox P M × Option (Envelope P M))
  from_urgent m none = none
  from_urgent m (some (q, some env, true)) =
      some (record m { urgent = q; size = add64 m.size (negsuc 0) }, some env)
  from_urgent m (some (q, v, found)) = pop_normal (record m { urgent = q })

  -- `Pop`: an envelope, or `none` for the zero envelope with `false`.
  unfoldable pub pop : Mailbox P M → Option (Mailbox P M × Option (Envelope P M))
  pop m = from_urgent m (Segmented.dequeue m.urgent.max_seg m.urgent)

-- `Wait` goes on, ends, or blocks.
pub data Waited : Type 0 where
  has_mail : Waited
  closed_down : Waited
  sleeps : Waited

module _ {ℓ} {P M : Type ℓ} where
  -- If both channels are ready, `select` takes the one that the argument says.
  unfoldable pub wait : Bool → Mailbox P M → Mailbox P M × Waited
  wait notify_first m =
      if m.notify && (notify_first || not m.is_closed)
      then (record m { notify = false }, has_mail)
      else if m.is_closed
      then (m, closed_down)
      else (m, sleeps)
