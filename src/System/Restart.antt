-- ===== src/System/Restart.antt =====
-- An actor of actor/base_actor.go that is started again on the log of an earlier one.
pub mod Logging
mod Tests
use deqin_actor.Base.{
  ℕ, zero, suc, ◌+◌, ◌-◌, ◌*◌, ◌/◌, ◌%◌, ◌^◌, ◌≤◌, ◌<◌, min, max, ◌≡◌, ◌≢◌, ◌↔◌, ◌⊎◌, inl, inr,
  refl, sym, ap, ap₂, ◌∙◌, arith, tests, if◌then◌else◌, ltb, leb, ◌==◌, ltb→lt, lt→ltb, le→ltb,
  leb→le, le→leb, lt→leb, ==_iff, Bool-cases, Option-cases, Bool, true, false, not, ◌&&◌, ◌||◌,
  Option, none, some, List, [], ◌∷◌, ◌++◌, map, append-nil, append_assoc, length, get_elem?, set,
  take, drop, length-append, length-set, get_elem?-set_self, get_elem?-set_ne, get_elem?-eq_some,
  get_elem?-append_left, get_elem?-append_end, dec_lt, dec_le, ℕ_discrete,
}
use mathlib.Core.Path.{subst}
use deqin_actor.Registry
use deqin_actor.Base.Str.{Str}
use deqin_actor.Types.{Message, EnvelopeMeta, priority_normal, state_running, base_actor}
use deqin_actor.Mailbox.{Envelope, Mailbox, Pushed, no_error, push, offer}
use deqin_actor.Mailbox.Spec.{verdict}
use deqin_actor.Mailbox.Policies.{push_open}
use deqin_actor.Mailbox.Order.{Sizes, Mail, Offered, offer-Offered}
use deqin_actor.BaseActor.{Loop, popping}
use deqin_actor.Wal.{open_file, replay, records}
use deqin_actor.Wal.RoundTrip.{kept, AllShort, append_all, wal_round_trip}
use deqin_actor.System.{
  System, BaseActor, Serializer, returns, Result, Once, not_called, called, set_actor,
}
use deqin_actor.System.Deliver.{envelope, user_meta}
use deqin_actor.System.Actor.{
  replay_into, replay_one, after_replay, replay_records, replay_wal, started, start_when,
  start_actor, start,
}
use deqin_actor.System.Accepted.{set_actor_self}
use deqin_actor.System.Restart.Logging.{Posted, message_of, Coded, Logs, post_all, post_all-Logs}

Coded-AllShort :
    {V : Type 0} (r : Serializer V) (ps : List (Posted V)) (bs : List (List ℕ))
    → Coded r ps bs
    → AllShort bs × (kept bs ≡ bs)
Coded-AllShort r [] [] c = (tt, refl)
Coded-AllShort r [] (b ∷ bs) c = absurd c
Coded-AllShort r (p ∷ ps) [] c = absurd c
Coded-AllShort r (p ∷ ps) (b ∷ bs) c =
    let (short, same) = Coded-AllShort r ps bs c.4 in
    let some_bytes : (length b == 0) ≡ false = ground (arith, c.2) in
    ((c.3, short), ap (λ t. if t then kept bs else b ∷ kept bs) some_bytes ∙ ap (λ l. b ∷ l) same)

module _ {V : Type 0} where
  -- What `Start` makes of a record of the log: a user message from no one, with normal priority.
  abbrev replayed : List (Posted V) → List (Envelope (Message V) EnvelopeMeta)
  replayed [] = []
  replayed (p ∷ ps) = envelope (message_of p) (user_meta []) priority_normal false ∷ replayed ps

  record Room (z : Sizes) (ns : List (Envelope (Message V) EnvelopeMeta))
      (env : Envelope (Message V) EnvelopeMeta)
      (out : Option (Mailbox (Message V) EnvelopeMeta × Pushed)) : Type 0 where
    after : Mailbox (Message V) EnvelopeMeta
    pushed : out ≡ some (after, no_error)
    mail : Mail z [] (ns ++ env ∷ []) after
    known : after.policy ≤ 2
    is_open : after.is_closed ≡ false

  push_accepts :
      (z : Sizes) (ns : List (Envelope (Message V) EnvelopeMeta))
      (mb : Mailbox (Message V) EnvelopeMeta) (v : Message V) (accepted : Bool)
      → Offered z [] ns mb false
          (envelope v (user_meta []) priority_normal false)
          accepted
          (offer mb (envelope v (user_meta []) priority_normal false))
      → mb.policy ≤ 2
      → mb.is_closed ≡ false
      → length ns < 2 ^ z.normal_bits
      → Room z ns
          (envelope v (user_meta []) priority_normal false)
          (push [] mb (envelope v (user_meta []) priority_normal false)).0
  push_accepts z ns mb v false o known is_open room = absurd (omega (arith, o.full refl, room))
  push_accepts z ns mb v true o known is_open room = record {
    after = o.after;
    pushed =
        push_open mb o.after (envelope v (user_meta []) priority_normal false) true known is_open
          (o.same_closed ∙ is_open) o.replied;
    mail = o.mail;
    known = omega (arith, o.same_policy, known);
    is_open = o.same_closed ∙ is_open;
  }

  replay_into-Mail :
      (z : Sizes) (r : Serializer V) (ps : List (Posted V)) (bs : List (List ℕ))
      (ns : List (Envelope (Message V) EnvelopeMeta)) (mb : Mailbox (Message V) EnvelopeMeta)
      → Coded r ps bs
      → Mail z [] ns mb
      → mb.policy ≤ 2
      → mb.is_closed ≡ false
      → length ns + length ps ≤ 2 ^ z.normal_bits
      → (mb' : Mailbox (Message V) EnvelopeMeta) × (replay_into r bs mb ≡ some (mb', true))
        × Mail z [] (ns ++ replayed ps) mb'
  unfolding replay_into
  replay_into-Mail z r [] [] ns mb c h known is_open room =
      (mb, refl, subst (λ l. Mail z [] l mb) (sym (append-nil ns)) h)
  replay_into-Mail z r [] (b ∷ bs) ns mb c h known is_open room = absurd c
  replay_into-Mail z r (p ∷ ps) [] ns mb c h known is_open room = absurd c
  replay_into-Mail z r (p ∷ ps) (b ∷ bs) ns mb c h known is_open room =
      let env = envelope (message_of p) (user_meta []) priority_normal false in
      let (accepted, o) = offer-Offered z [] ns mb env h in
      let t = push_accepts z ns mb (message_of p) accepted o known is_open (omega (arith, room)) in
      let (mb', e, m) =
        replay_into-Mail z r ps bs (ns ++ env ∷ []) t.after c.4 t.mail t.known t.is_open
          (omega (arith, length-append ns (env ∷ []), room)) in
      (
        mb',
        ap (replay_one (replay_into r bs) mb) c.1
            ∙ ap (after_replay (replay_into r bs)) t.pushed
            ∙ e,
        subst (λ l. Mail z [] l mb') (append_assoc ns (env ∷ []) (replayed ps)) m,
      )

  start-replays :
      (t : System V) (addr : ℕ) (a : BaseActor V) (path : Str)
      (mb : Mailbox (Message V) EnvelopeMeta) (bs : List (List ℕ))
      → t.actors addr ≡ some a
      → a.start_once ≡ not_called
      → a.wal ≡ some (path, true)
      → replay (open_file (t.disk path)) ≡ some (records bs)
      → replay_into t.serializer bs a.mailbox ≡ some (mb, true)
      → start t addr ≡ started t addr a (some (mb, true))
  unfolding start
  start-replays t addr a path mb bs there new wal read into =
      ap (start_actor t addr) there
      ∙ ap (start_when t addr a) new
      ∙ ap (λ w. started t addr a (replay_wal t a w)) wal
      ∙ ap (λ o. started t addr a (replay_records t a o)) read
      ∙ ap (started t addr a) into

  -- An actor with persistence has an open mailbox and an empty open log. It is told any messages to
  -- be persisted, from any senders and with any priorities, and is or is not able to take each of
  -- them; the serializer writes each as a record that is not empty and fits a header, and reads it
  -- back. Later a system with the same serializer and the log as it then is has a new actor on that
  -- log, which has not been started, with an empty open mailbox of a known policy whose normal lane
  -- has so many cells in a segment. Then all the calls return, and `Start` returns, and has put
  -- exactly these messages into the mailbox, in order, as user messages from no one with normal
  -- priority; and the actor's loop runs.
  pub restart_replays :
      (z z' : Sizes) (path : Str) (s t : System V) (addr n : ℕ) (ps : List (Posted V))
      (bs : List (List ℕ)) (b : BaseActor V)
      → Logs z path [] addr s
      → Coded s.serializer ps bs
      → ((s' : System V) → post_all s addr ps ≡ some s' → t.disk path ≡ s'.disk path)
      → t.serializer ≡ s.serializer
      → t.actors n ≡ some b
      → b.start_once ≡ not_called
      → b.wal ≡ some (path, true)
      → Mail z' [] [] b.mailbox
      → b.mailbox.policy ≤ 2
      → b.mailbox.is_closed ≡ false
      → length ps ≤ 2 ^ z'.normal_bits
      → (s' : System V) × (t' : System V) × (b' : BaseActor V) × (post_all s addr ps ≡ some s')
        × (start t n ≡ some (t', returns none))
        × (t'.actors n ≡ some b')
        × Mail z' [] (replayed ps) b'.mailbox
        × (b'.loop ≡ some popping)
  restart_replays z z' path s t addr n ps bs b h c after same_r there new wal mail known is_open
        room =
      let (s', e, d) = post_all-Logs z path addr s.serializer ps bs [] s h refl c in
      let (short, same) = Coded-AllShort s.serializer ps bs c in
      let bytes = (append_all (open_file []) bs).bytes in
      let read : replay (open_file (t.disk path)) ≡ some (records bs) =
        ap (λ l. replay (open_file l)) (after s' e ∙ d ∙ sym (append-nil bytes))
        ∙ wal_round_trip bs [] short (omega arith)
        ∙ ap (λ l. some (records l)) same in
      let (mb, into, m) =
        replay_into-Mail z' s.serializer ps bs [] b.mailbox c mail known is_open
          (omega (arith, room)) in
      let b' = record b {
        mailbox = mb;
        start_once = called;
        state = state_running;
        loop = some popping;
      } in
      (
        s',
        record (set_actor t n b') {
          registry = Registry.register t.registry b.id b.name (some (base_actor n));
        },
        b',
        e,
        start-replays t n b path mb bs there new wal read
            (ap (λ r. replay_into r bs b.mailbox) same_r ∙ into),
        set_actor_self t n b',
        m,
        refl,
      )
