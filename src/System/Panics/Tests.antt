-- ===== src/System/Panics/Tests.antt =====
-- A panic in an actor of actor/base_actor.go at concrete inputs.
use deqin_actor.Base.{ℕ, Bool, true, false, Option, none, some, [], ◌∷◌}
use deqin_actor.Types
use deqin_actor.Types.{
  Error, actor_not_found, other_error, Message, user, EnvelopeMeta, Target, base_actor, state_new,
  state_running,
}
use deqin_actor.Ring
use deqin_actor.Segmented
use deqin_actor.Mailbox
use deqin_actor.Mailbox.{Envelope, Mailbox, Options, new_mailbox, offer}
use deqin_actor.BaseActor.{popping}
use deqin_actor.System.{System, BaseActor, new_system, set_actor}
use deqin_actor.System.Deliver.{user_meta}
use deqin_actor.System.Handle.{Users, Ran, sends, receive_if, plain_context}
use deqin_actor.Mailbox.{pop}
use deqin_actor.System.Deliver.{envelope}
use deqin_actor.System.Tests.{toy, host, small, actor, two_actors}

abbrev letter : Envelope (Message ℕ) EnvelopeMeta
letter = envelope (user 7) (user_meta (2 ∷ [])) 0 false

abbrev mailbox_of :
    Option (Mailbox (Message ℕ) EnvelopeMeta × Bool) → Mailbox (Message ℕ) EnvelopeMeta
mailbox_of none = new_mailbox small
mailbox_of (some (m, accepted)) = m

abbrev mailbox_left :
    Option (Mailbox (Message ℕ) EnvelopeMeta × Option (Envelope (Message ℕ) EnvelopeMeta))
    → Mailbox (Message ℕ) EnvelopeMeta
mailbox_left none = new_mailbox small
mailbox_left (some (m, env)) = m

abbrev system_left : Ran ℕ → System ℕ
system_left none = new_system toy
system_left (some (s, out, reason)) = s

abbrev with_letter : Mailbox (Message ℕ) EnvelopeMeta
with_letter = mailbox_of (offer (new_mailbox small) letter)

-- It sends 9 to the second actor, and panics.
abbrev panicking : Users ℕ
panicking addr ctx msg = record {
  effects = sends [] (some (base_actor 1)) (user 9) ∷ [];
  panic = some (user 13);
}

abbrev mailed : BaseActor ℕ
mailed = record (actor (1 ∷ [])) { mailbox = with_letter }

-- One subscriber, 3, and the first actor with a letter.
abbrev watched : System ℕ
watched = record (set_actor two_actors 0 mailed) { fail_sub = 3 ∷ [] }

abbrev popped : Mailbox (Message ℕ) EnvelopeMeta
popped = mailbox_left (pop with_letter)

abbrev at_panic : System ℕ
at_panic = system_left (
    receive_if host panicking
      (set_actor watched 0 (record mailed { mailbox = popped; loop = some popping }))
      (plain_context 0 (2 ∷ [])) (user 7) true)
