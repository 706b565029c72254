-- ===== src/System/Async.antt =====
-- actor/ask.go: an asynchronous request, and the options of the requests.
use deqin_actor.Base.{ℕ, ◌*◌, if◌then◌else◌, Bool, false, Option, none, some, List}
use deqin_actor.Base.Int.{ℤ, pos, is_zero, ltb_ℤ}
use deqin_actor.Base.Time.{second}
use deqin_actor.Base.Str.{Str}
use deqin_actor.Types.{Message, Target, SendOptions, priority_normal}
use deqin_actor.System.{System, Host, Result, track_pending, id_of_actor}
use deqin_actor.System.Deliver.{send_request}
use deqin_actor.System.Handle.{ignoring}

abbrev pub or_timeout : ℤ → ℤ → ℤ
or_timeout t d = if is_zero t then d else t

-- The options of a request, from those that the caller gives, if any, and the timeout that it has by
-- default.
abbrev options_with : ℤ → Option SendOptions → SendOptions
options_with default none = record {
  priority = priority_normal;
  persist = false;
  timeout = default;
  on_complete = none;
  allow_degrade = false;
}
options_with default (some o) = record o { timeout = or_timeout o.timeout default }

unfoldable pub async_options : Option SendOptions → SendOptions
async_options opts = options_with (pos (30 * second)) opts

unfoldable pub sync_options : Option SendOptions → SendOptions
sync_options opts = options_with (pos (5 * second)) opts

-- What `SendAsync` leaves besides the request: whether there is a timer, and the callback of the
-- future.
pub record Sent (V : Type 0) : Type 0 where
  pub result : Result V
  pub timer : Bool
  pub callback : Option ℕ

module _ {V : Type 0} where
  -- A call on a nil target panics.
  abbrev pub request_to :
      Host → System V → List ℤ → ℕ → Option Target → Str → Message V → Str → SendOptions → Result V
  request_to host s times addr none cid msg reply_to o = none
  request_to host s times addr (some target) cid msg reply_to o =
      send_request host s times (some addr) target cid msg reply_to o.priority o.persist

  -- `SendAsync` with what `NewActorID` returns and the name of the new future.
  unfoldable pub send_async :
      Host
      → System V
      → List ℤ
      → Str
      → ℕ
      → ℕ
      → Option Target
      → Message V
      → Option SendOptions
      → Sent V
  send_async host s times cid f addr target msg opts =
      let o = async_options opts in
      record {
        result = ignoring (
            request_to host (track_pending s cid f) times addr target cid msg
              (id_of_actor (s.actors addr)) o);
        timer = ltb_ℤ (pos 0) o.timeout;
        callback = o.on_complete;
      }
