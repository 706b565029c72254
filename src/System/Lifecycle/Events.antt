-- ===== src/System/Lifecycle/Events.antt =====
-- What the users and the other nodes make a system of actor/system.go do.
use deqin_actor.Base.{ℕ, Bool, Option, none, some, List, [], ◌∷◌}
use deqin_actor.Base.Int.{ℤ}
use deqin_actor.Base.Str.{Str}
use deqin_actor.Types.{Error, Message, Target, SendOptions}
use deqin_actor.System.{
  System, Host, RemoteEnvelope, Serializer, Result, expire, set_serializer, enable_persistence,
  enable_rate_limit, subscribe_failures,
}
use deqin_actor.System.Remote.{enable_remote, stop_remote, set_location}
use deqin_actor.System.Deliver.{tell}
use deqin_actor.System.Actor.{BaseActorOptions, new_base_actor, start, stop, resume_stop}
use deqin_actor.System.Handle.{Users, run_step}
use deqin_actor.System.Server.{Served, deliver}
use deqin_actor.System.Async.{send_async}

-- An actor is made, started or stopped; a goroutine that waits in `Stop`, or one that runs an actor's
-- loop, goes on; a message or a request is sent; an envelope comes in from another node; a timer of
-- a request fires; the place of an actor is set, a subscriber added, or a service switched on or off.
pub data Event (V : Type 0) : Type 0 where
  makes : Str → BaseActorOptions V → Event V
  starts : ℕ → Event V
  stops : ℕ → Event V
  resumes : ℕ → Event V
  loops : Bool → ℕ → Event V
  tells : List ℤ → Option ℕ → Option Target → Message V → SendOptions → Event V
  asks : List ℤ → Str → ℕ → ℕ → Option Target → Message V → Option SendOptions → Event V
  comes_in : RemoteEnvelope → Event V
  expires : Str → Event V
  locates : Str → Str → Event V
  subscribes : ℕ → Event V
  limits : ℤ → ℤ → ℤ → Event V
  persists : Str → Event V
  serializes : Option (Serializer V) → Event V
  listens : Str → Event V
  hangs_up : Event V

module _ {V : Type 0} where
  abbrev pub left : Result V → Option (System V)
  left none = none
  left (some (s, o)) = some s

  abbrev pub left_by : Option (System V × Served) → Option (System V)
  left_by none = none
  left_by (some (s, o)) = some s

  unfoldable pub happens : Host → Users V → (Error → Str) → System V → Event V → Option (System V)
  happens host users text s (makes new_id opts) = some (new_base_actor host s new_id opts).0
  happens host users text s (starts addr) = left (start s addr)
  happens host users text s (stops addr) = left (stop s addr)
  happens host users text s (resumes addr) = left (resume_stop s addr)
  happens host users text s (loops notify_first addr) =
      left (run_step host users notify_first s addr)
  happens host users text s (tells times sender t msg opts) =
      left (tell host s times sender t msg opts)
  happens host users text s (asks times cid f addr t msg opts) =
      left (send_async host s times cid f addr t msg opts).result
  happens host users text s (comes_in env) = left_by (deliver text s env)
  happens host users text s (expires cid) = some (expire s cid)
  happens host users text s (locates id addr) = some (set_location s id addr)
  happens host users text s (subscribes fn) = some (subscribe_failures s fn)
  happens host users text s (limits qps burst now) = some (enable_rate_limit s qps burst now)
  happens host users text s (persists dir) = some (enable_persistence s dir)
  happens host users text s (serializes z) = some (set_serializer s z)
  happens host users text s (listens addr) = some (enable_remote host s addr).0
  happens host users text s hangs_up = some (stop_remote s)

  abbrev pub then_all : (System V → Option (System V)) → Option (System V) → Option (System V)
  then_all go none = none
  then_all go (some s) = go s

  -- The system after the events, unless one of them does not return.
  unfoldable pub history :
      Host → Users V → (Error → Str) → List (Event V) → System V → Option (System V)
  unfolding happens
  history host users text [] s = some s
  history host users text (e ∷ es) s =
      then_all (history host users text es) (happens host users text s e)
