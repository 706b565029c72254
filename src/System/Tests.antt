-- ===== src/System/Tests.antt =====
-- Runs of a system of actor/system.go at concrete inputs. A message is a number.
use deqin_actor.Base.{
  ℕ, ◌≡◌, ◌≢◌, ◌⊎◌, inl, inr, refl, arith, true, false, Option, none, some, List, [], ◌∷◌, ◌++◌,
}
use deqin_actor.Base.Str.{Str}
use deqin_actor.Types
use deqin_actor.Types.{
  Error, actor_not_found, other_error, Message, user, EnvelopeMeta, Target, base_actor, state_new,
  state_running,
}
use deqin_actor.Ring.{round_up, double_until}
use deqin_actor.Ring.Refine.{Sized}
use deqin_actor.Mailbox
use deqin_actor.Mailbox.{Envelope, Mailbox, Options, new_mailbox, offer}
use deqin_actor.Mailbox.Order.{Sizes, Mail}
use deqin_actor.Mailbox.Start.{new_mailbox-Mail}
use deqin_actor.BaseActor.{popping}
use deqin_actor.Registry
use deqin_actor.Registry.{new_registry, register}
use deqin_actor.System.{
  System, BaseActor, Host, Serializer, not_called, called, new_system, set_actor, returns,
}
use deqin_actor.System.Deliver.{remote_envelope, user_meta}
use deqin_actor.System.Handle.{Users, responds}
use deqin_actor.Mailbox.{pop}
use deqin_actor.System.Deliver.{deliver_to_id}
use deqin_actor.System.Server.{deliver, served, acknowledged}
use deqin_actor.System.Across.{remote_as_local, refusal_lost}
use deqin_actor.System.Actor.{BaseActorOptions, new_base_actor, start}
use deqin_actor.System.Lifecycle.Events.{Event, makes, starts, history, happens}
use deqin_actor.System.Lifecycle.History.{registered_is_alive}
use deqin_actor.System.Requests.{request_answered, Replied}
use deqin_actor.System.Requests.Steps.{Idle}

-- It writes a number as one byte.
abbrev written : Message ℕ → Error ⊎ Str
written (user n) = inr (n ∷ [])
written other = inl (other_error [])

abbrev read : Str → Error ⊎ Message ℕ
read (n ∷ []) = inr (user n)
read other = inl (other_error [])

abbrev pub toy : Serializer ℕ
toy = record { marshal = written; unmarshal = read }

abbrev pub host : Host
host = record {
  join = λ d p. d ++ p;
  opens = λ p. true;
  listen = λ a. inr a;
  dial = λ a. none;
  invoke = λ a env. inr (record { ok = true; err = [] });
}

abbrev pub small : Options (Message ℕ)
small = record {
  capacity = 2;
  urgent_capacity = 2;
  max_segments = 1;
  policy = 0;
  has_persist = false;
  encode = none;
}

abbrev pub sizes : Sizes
sizes = record { urgent_bits = 1; normal_bits = 1; limit = 1 }

two-Sized : Sized 2 1
unfolding round_up double_until
two-Sized = record { size = refl; two_cells = omega arith; small = omega arith }

pub small-Mail : Mail sizes [] [] (new_mailbox {M = EnvelopeMeta} small)
small-Mail = new_mailbox-Mail small 1 1 two-Sized two-Sized (omega arith)

-- An actor that runs and has no mail.
abbrev pub actor : Str → BaseActor ℕ
actor id = record {
  id = id;
  name = [];
  mailbox = new_mailbox small;
  has_receive = true;
  wal = none;
  state = state_running;
  start_once = called;
  stop_once = not_called;
  loop = some popping;
}

-- Two actors, at the addresses 0 and 1, which are registered.
abbrev pub two_actors : System ℕ
two_actors = record (set_actor (set_actor (new_system toy) 0 (actor (1 ∷ []))) 1 (actor (2 ∷ []))) {
  next = 2;
  registry =
      register (register new_registry (1 ∷ []) [] (some (base_actor 0))) (2 ∷ []) []
        (some (base_actor 1));
}

-- The function answers with 8.
abbrev users : Users ℕ
users addr ctx msg = record { effects = responds [] (user 8) none ∷ []; panic = none }

at_rest :
    (n : ℕ) (id : Str) → two_actors.actors n ≡ some (actor id) → Idle sizes two_actors n (actor id)
unfolding new_mailbox
at_rest n id e = record {
  there = e;
  at = refl;
  holds = small-Mail;
  known = omega arith;
  is_open = refl;
}

request_answered_example :
    Replied host users two_actors [] (9 ∷ []) 4 0 1 (user 7) none (user 8) none
unfolding register new_registry Registry.get new_system
request_answered_example =
    request_answered sizes sizes host users two_actors [] [] (9 ∷ []) 4 0 1 (actor (1 ∷ []))
      (actor (2 ∷ [])) (user 7) none (user 8) none (omega arith) (at_rest 0 (1 ∷ []) refl)
      (at_rest 1 (2 ∷ []) refl) refl refl refl refl refl refl

abbrev no_text : Error → Str
no_text e = []

-- A node that knows where the first actor is, and is connected there.
abbrev sender_node : System ℕ
sender_node = record (new_system toy) {
  locations = λ k. some (5 ∷ []);
  remote = some (record { addr = 6 ∷ []; conns = λ k. true });
}

remote_as_local_example :
    (deliver_to_id host sender_node (1 ∷ []) (user_meta []) 0 (user 7) true
      ≡ some (
        record sender_node {
          sent = (5 ∷ [], remote_envelope (1 ∷ []) (user_meta []) 0 (7 ∷ [])) ∷ [];
        },
        returns none,
      ))
    × (deliver no_text two_actors (remote_envelope (1 ∷ []) (user_meta []) 0 (7 ∷ []))
        ≡ served (deliver_to_id host two_actors (1 ∷ []) (user_meta []) 0 (user 7) false))
unfolding register new_registry Registry.get new_system
remote_as_local_example =
    remote_as_local host no_text sender_node two_actors (1 ∷ []) (5 ∷ []) (7 ∷ []) (user_meta []) 0
      (user 7) true none (some (base_actor 0)) (record { addr = 6 ∷ []; conns = λ k. true }) refl
      refl refl refl refl refl refl refl

-- The first actor has been closed.
abbrev closing : BaseActor ℕ
closing = record (actor (1 ∷ [])) { mailbox = Mailbox.close (new_mailbox small) }

refusal_lost_example :
    (s' : System ℕ) × (a' : BaseActor ℕ) × (deliver no_text
        (set_actor two_actors 0 closing)
        (remote_envelope (1 ∷ []) (user_meta []) 0 (7 ∷ []))
      ≡ some (s', acknowledged))
    × (deliver_to_id host (set_actor two_actors 0 closing) (1 ∷ []) (user_meta []) 0 (user 7) false
        ≡ some (s', returns (some Types.mailbox_closed)))
    × (s'.actors 0 ≡ some a')
    × (a'.mailbox.urgent ≡ closing.mailbox.urgent)
    × (a'.mailbox.normal ≡ closing.mailbox.normal)
    × ((k : ℕ) → k ≢ 0 → s'.actors k ≡ (set_actor two_actors 0 closing).actors k)
unfolding register new_registry Registry.get new_system Mailbox.close new_mailbox
refusal_lost_example =
    refusal_lost host no_text (set_actor two_actors 0 closing) (1 ∷ []) (7 ∷ []) (user_meta []) 0
      (user 7) 0 closing refl refl refl refl refl

abbrev options : BaseActorOptions ℕ
options = record { id = 1 ∷ []; name = []; mailbox = small; has_receive = true }

abbrev pub left_of : Option (System ℕ) → System ℕ
left_of none = new_system toy
left_of (some s) = s

-- An actor is made and started.
abbrev made_and_started : List (Event ℕ)
made_and_started = makes [] options ∷ starts 0 ∷ []

registered_is_alive_example :
    (a : BaseActor ℕ) × ((left_of
          (history host users no_text made_and_started (new_system toy))).actors
        0
      ≡ some a)
    × (a.id ≡ 1 ∷ [])
    × (a.start_once ≡ called)
    × (a.stop_once ≢ called)
unfolding history happens new_base_actor start register new_registry Registry.get new_system
registered_is_alive_example =
    registered_is_alive host users no_text toy made_and_started
      (left_of (history host users no_text made_and_started (new_system toy))) (1 ∷ []) 0 refl refl
