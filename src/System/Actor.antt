-- ===== src/System/Actor.antt =====
-- actor/base_actor.go: an actor is made, started and stopped.
use deqin_actor.Base.{
  ℕ, suc, ◌⊎◌, inl, inr, if◌then◌else◌, Bool, true, false, ◌||◌, Option, none, some, List, [], ◌∷◌,
}
use deqin_actor.Base.Str.{Str, same}
use deqin_actor.Types.{
  Error, Message, EnvelopeMeta, base_actor, state_new, state_running, state_stopping, state_stopped,
  priority_normal,
}
use deqin_actor.Mailbox
use deqin_actor.Mailbox.{
  Mailbox, Options, new_mailbox, Pushed, no_error, mailbox_closed, mailbox_full, unknown_policy,
  waiting, push,
}
use deqin_actor.BaseActor.{Loop, popping, waiting, ended}
use deqin_actor.Registry
use deqin_actor.Wal
use deqin_actor.Wal.{Replayed, records, fails}
use deqin_actor.System.{
  System, BaseActor, Serializer, Host, returns, no_room, blocked, Result, Once, not_called, in_call,
  called, set_actor, actor_wal_path,
}
use deqin_actor.System.Deliver.{hooked, envelope, user_meta}

-- `has_receive` tells whether there is a `Receive`.
pub record BaseActorOptions (V : Type 0) : Type 0 where
  pub id : Str
  pub name : Str
  pub mailbox : Options (Message V)
  pub has_receive : Bool

abbrev pub is_ended : Option Loop → Bool
is_ended (some ended) = true
is_ended (some popping) = false
is_ended (some waiting) = false
is_ended none = false

abbrev pub closed_wal : Option (Str × Bool) → Option (Str × Bool)
closed_wal none = none
closed_wal (some (path, is_open)) = some (path, false)

module _ {V : Type 0} where
  -- The log that `NewBaseActor` opens, unless the user gives the mailbox a hook.
  abbrev pub opened : Host → System V → Str → Bool → Option (Str × Bool)
  opened host s id user_hook =
      let path = actor_wal_path host s id in
      if same s.persist_dir [] || user_hook
      then none
      else if host.opens path
      then some (path, true)
      else none

  -- `NewBaseActor` for a system, with what `NewActorID` returns, and the address of the new actor.
  unfoldable pub new_base_actor : Host → System V → Str → BaseActorOptions V → System V × ℕ
  new_base_actor host s new_id opts =
      let id = if same opts.id [] then new_id else opts.id in
      let wal = opened host s id opts.mailbox.has_persist in
      (
        record (set_actor s s.next (record {
          id = id;
          name = opts.name;
          mailbox = hooked s.serializer wal (new_mailbox opts.mailbox);
          has_receive = opts.has_receive;
          wal = wal;
          state = state_new;
          start_once = not_called;
          stop_once = not_called;
          loop = none;
        })) { next = suc s.next },
        s.next,
      )

  -- A push of `Start`, whose error is ignored, and what follows.
  abbrev pub after_replay :
      (Mailbox (Message V) EnvelopeMeta → Option (Mailbox (Message V) EnvelopeMeta × Bool))
      → Option (Mailbox (Message V) EnvelopeMeta × Pushed)
      → Option (Mailbox (Message V) EnvelopeMeta × Bool)
  after_replay go none = none
  after_replay go (some (mb, Pushed.waiting)) = some (mb, false)
  after_replay go (some (mb, no_error)) = go mb
  after_replay go (some (mb, mailbox_closed)) = go mb
  after_replay go (some (mb, mailbox_full)) = go mb
  after_replay go (some (mb, unknown_policy)) = go mb

  abbrev pub replay_one :
      (Mailbox (Message V) EnvelopeMeta → Option (Mailbox (Message V) EnvelopeMeta × Bool))
      → Mailbox (Message V) EnvelopeMeta
      → Error ⊎ Message V
      → Option (Mailbox (Message V) EnvelopeMeta × Bool)
  replay_one go mb (inl e) = go mb
  replay_one go mb (inr v) =
      after_replay go (push [] mb (envelope v (user_meta []) priority_normal false)).0

  -- The loop of `Start` over the records, and whether it ends without waiting for room.
  unfoldable pub replay_into :
      Serializer V
      → List (List ℕ)
      → Mailbox (Message V) EnvelopeMeta
      → Option (Mailbox (Message V) EnvelopeMeta × Bool)
  replay_into z [] mb = some (mb, true)
  replay_into z (b ∷ bs) mb = replay_one (replay_into z bs) mb (z.unmarshal b)

  abbrev pub replay_records :
      System V → BaseActor V → Option Replayed → Option (Mailbox (Message V) EnvelopeMeta × Bool)
  replay_records s a none = none
  replay_records s a (some (fails e)) = some (a.mailbox, true)
  replay_records s a (some (records bs)) = replay_into s.serializer bs a.mailbox

  abbrev pub replay_wal :
      System V
      → BaseActor V
      → Option (Str × Bool)
      → Option (Mailbox (Message V) EnvelopeMeta × Bool)
  replay_wal s a none = some (a.mailbox, true)
  replay_wal s a (some (path, is_open)) =
      replay_records s a (Wal.replay (record { is_open = is_open; bytes = s.disk path }))

  abbrev pub started :
      System V → ℕ → BaseActor V → Option (Mailbox (Message V) EnvelopeMeta × Bool) → Result V
  started s addr a none = none
  started s addr a (some (mb, false)) =
      some (set_actor s addr (record a { mailbox = mb; start_once = in_call }), no_room)
  started s addr a (some (mb, true)) = some (
    record (set_actor s addr (record a {
      mailbox = mb;
      start_once = called;
      state = state_running;
      loop = some popping;
    })) { registry = Registry.register s.registry a.id a.name (some (base_actor addr)) },
    returns none,
  )

  abbrev pub start_when : System V → ℕ → BaseActor V → Once → Result V
  start_when s addr a not_called = started s addr a (replay_wal s a a.wal)
  start_when s addr a in_call = some (s, blocked)
  start_when s addr a called = some (s, returns none)

  abbrev pub start_actor : System V → ℕ → Option (BaseActor V) → Result V
  start_actor s addr none = none
  start_actor s addr (some a) = start_when s addr a a.start_once

  unfoldable pub start : System V → ℕ → Result V
  start s addr = start_actor s addr (s.actors addr)

  -- `Stop` from `<-a.done` on, if the loop has ended or not.
  abbrev pub finish_stop : System V → ℕ → BaseActor V → Bool → Result V
  finish_stop s addr a false = some (set_actor s addr a, blocked)
  finish_stop s addr a true = some (
    record (set_actor s addr
        (record a { state = state_stopped; stop_once = called; wal = closed_wal a.wal })) {
          registry = Registry.unregister s.registry a.id a.name;
        },
    returns none,
  )

  abbrev pub stopping : BaseActor V → BaseActor V
  stopping a = record a {
    state = state_stopping;
    stop_once = in_call;
    mailbox = Mailbox.close a.mailbox;
  }

  abbrev pub stop_when : System V → ℕ → BaseActor V → Once → Result V
  stop_when s addr a not_called = finish_stop s addr (stopping a) (is_ended a.loop)
  stop_when s addr a in_call = some (s, blocked)
  stop_when s addr a called = some (s, returns none)

  abbrev pub stop_actor : System V → ℕ → Option (BaseActor V) → Result V
  stop_actor s addr none = none
  stop_actor s addr (some a) = stop_when s addr a a.stop_once

  unfoldable pub stop : System V → ℕ → Result V
  stop s addr = stop_actor s addr (s.actors addr)

  abbrev pub resume_when : System V → ℕ → BaseActor V → Once → Result V
  resume_when s addr a not_called = some (s, returns none)
  resume_when s addr a in_call = finish_stop s addr a (is_ended a.loop)
  resume_when s addr a called = some (s, returns none)

  abbrev pub resume_actor : System V → ℕ → Option (BaseActor V) → Result V
  resume_actor s addr none = none
  resume_actor s addr (some a) = resume_when s addr a a.stop_once

  -- The goroutine that waits in `Stop` for the loop looks again.
  unfoldable pub resume_stop : System V → ℕ → Result V
  resume_stop s addr = resume_actor s addr (s.actors addr)
