-- ===== src/Pending/Tests.antt =====
-- Runs of the pending requests of actor/system.go.
use deqin_actor.Base.{ℕ, ◌≡◌, Option, none, some, List, [], ◌∷◌}
use deqin_actor.Base.Str.{Str}
use deqin_actor.Pending.{Response, track_pending}
use deqin_actor.Pending.Once.{
  Event, responds, expires, run, only, completion, first_of, pending_once,
}

abbrev cid : Str
cid = 99 ∷ []

abbrev response : ℕ → Response ℕ
response v = record { correlation_id = cid; outcome = some v }

-- The timer fires after the first response, and a second one comes late.
abbrev events : List (Event ℕ)
events = responds (response 5) ∷ expires cid ∷ responds (response 6) ∷ []

abbrev no_requests : Str → Option ℕ
no_requests id = none

pending_once_example :
    only cid (run (track_pending no_requests cid 1) events) ≡ completion 1 (first_of cid events)
pending_once_example = pending_once ℕ ℕ no_requests cid 1 events
