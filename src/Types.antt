-- ===== src/Types.antt =====
-- The data of actor/types.go, actor/envelope.go, actor/errors.go, actor/context.go and actor/ref.go.
-- `V` is the type of the users' own messages and values.
use deqin_actor.Base.{ℕ, Bool, Option}
use deqin_actor.Base.Int.{ℤ}
use deqin_actor.Base.Str.{Str}

-- A `Priority` is a `uint8`.
abbrev pub priority_normal : ℕ
priority_normal = 0

abbrev pub priority_urgent : ℕ
priority_urgent = 1

-- An `envelopeKind` is a `uint8`, which may come from another node.
abbrev pub envelope_kind_user : ℕ
envelope_kind_user = 0

abbrev pub envelope_kind_request : ℕ
envelope_kind_request = 1

abbrev pub envelope_kind_response : ℕ
envelope_kind_response = 2

-- The errors of the package, those of the mailbox that it passes on, and others by their text.
pub data Error : Type 0 where
  actor_not_found : Error
  circuit_open : Error
  degraded_to_async : Error
  ask_timeout : Error
  mailbox_closed : Error
  mailbox_full : Error
  unknown_policy : Error
  remote_not_enabled : Error
  other_error : Str → Error

-- A value of the type `any`, as the code tells them apart: nil, a `PriorityMessage` (priority and
-- message), a `*Request` (correlation id, payload and the id to reply to), a `*Response`
-- (correlation id, value and error), or anything else.
pub data Message (V : Type 0) : Type 0 where
  nil_message : Message V
  user : V → Message V
  priority_message : ℕ → Message V → Message V
  request : Str → Message V → Str → Message V
  response : Str → Message V → Option Error → Message V

pub record EnvelopeMeta : Type 0 where
  pub kind : ℕ
  pub from_id : Str
  pub correlation_id : Str
  pub reply_to : Str

-- An `IActor` that is not nil: a `*BaseActor` by its address, an `*ActorRef` of the same system by the
-- id that it holds, or another implementation by a number, with what its `ID` returns if it has that
-- method.
pub data Target : Type 0 where
  base_actor : ℕ → Target
  actor_ref : Str → Target
  other_actor : Option Str → ℕ → Target

pub data ActorState : Type 0 where
  state_new : ActorState
  state_running : ActorState
  state_stopping : ActorState
  state_stopped : ActorState

-- The options of a message. `OnComplete` is the name of a callback.
pub record SendOptions : Type 0 where
  pub priority : ℕ
  pub persist : Bool
  pub timeout : ℤ
  pub on_complete : Option ℕ
  pub allow_degrade : Bool

-- What a user's function is given besides the message; `self` is an address.
pub record Context : Type 0 where
  pub self : ℕ
  pub sender_id : Str
  pub correlation_id : Str
  pub reply_to : Str
