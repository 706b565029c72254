-- ===== src/System/Panics.antt =====
-- What a panic of the user's function does to an actor of actor/base_actor.go.
mod Tests
use deqin_actor.Base.{ℕ, if◌then◌else◌, ◌==◌, Bool, true, false, Option, none, some, []}
use deqin_actor.Base.Str.{Str}
use deqin_actor.Types
use deqin_actor.Types.{
  Message, EnvelopeMeta, Context, request, response, user, priority_message, nil_message,
  envelope_kind_request, envelope_kind_response,
}
use deqin_actor.Mailbox.{Envelope, Mailbox}
use deqin_actor.System.{System, BaseActor, Host, Once}
use deqin_actor.System.Handle.{Users, Ran, plain_context, request_context, receive_if}

abbrev id_in : Option (Str × Once × Once × Bool) → Str
id_in none = []
id_in (some (id, started, stopped, loops)) = id

abbrev loop_in : Option (Str × Once × Once × Bool) → Bool
loop_in none = false
loop_in (some (id, started, stopped, loops)) = loops

module _ {V : Type 0} where
  abbrev call_of_request : ℕ → EnvelopeMeta → Message V → Option (Context × Message V)
  call_of_request addr meta (request cid payload reply_to) =
      some (request_context addr meta cid reply_to, payload)
  call_of_request addr meta (response cid value err) = none
  call_of_request addr meta (priority_message pri msg) = none
  call_of_request addr meta (user v) = none
  call_of_request addr meta nil_message = none

  -- What the user's function is called with for an envelope, which a response is not.
  abbrev user_call : ℕ → Envelope (Message V) EnvelopeMeta → Option (Context × Message V)
  user_call addr env =
      if env.data_of.kind == envelope_kind_response
      then none
      else if env.data_of.kind == envelope_kind_request
      then call_of_request addr env.data_of env.payload
      else some (plain_context addr env.data_of.from_id, env.payload)

  abbrev receive_call : Host → Users V → System V → Option (Context × Message V) → Ran V
  receive_call host users s none = none
  receive_call host users s (some (ctx, msg)) = receive_if host users s ctx msg true
