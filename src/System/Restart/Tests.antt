-- ===== src/System/Restart/Tests.antt =====
-- A restart of an actor of actor/base_actor.go at concrete inputs.
use deqin_actor.Base.{ℕ, ◌≡◌, refl, ap, arith, true, false, none, some, List, [], ◌∷◌}
use deqin_actor.Base.Str.{Str}
use deqin_actor.Types.{user, state_new}
use deqin_actor.Mailbox.{new_mailbox}
use deqin_actor.Mailbox.Order.{Mail}
use deqin_actor.BaseActor.{popping}
use deqin_actor.System.{System, BaseActor, not_called, new_system, set_actor, returns}
use deqin_actor.System.Deliver.{user_meta}
use deqin_actor.System.Deliver.{envelope}
use deqin_actor.System.Restart.{restart_replays}
use deqin_actor.System.Restart.Logging.{Posted, Logs, post_all}
use deqin_actor.System.Actor.{start}
use deqin_actor.System.Tests.{toy, sizes, small-Mail, actor, two_actors, left_of}

abbrev path : Str
path = 4 ∷ []

-- The first actor has an empty log, and is told of 7 urgently.
abbrev logging : BaseActor ℕ
logging = record (actor (1 ∷ [])) { wal = some (path, true) }

abbrev persisting : System ℕ
persisting = set_actor two_actors 0 logging

abbrev posts : List (Posted ℕ)
posts = (2 ∷ [], 1, user 7) ∷ []

-- After a crash: the log, and a new actor on it.
abbrev restarted : BaseActor ℕ
restarted = record logging { start_once = not_called; loop = none; state = state_new }

abbrev after_crash : System ℕ
after_crash = record (set_actor (new_system toy) 0 restarted) {
  disk = (left_of (post_all persisting 0 posts)).disk;
}

logging-Logs : Logs sizes path [] 0 persisting
unfolding new_system new_mailbox
logging-Logs = record {
  actor = logging;
  us = [];
  ns = [];
  there = refl;
  wal = refl;
  mail = small-Mail;
  known = omega arith;
  is_open = refl;
  disk = refl;
}

restart_replays_example :
    (s' : System ℕ) × (t' : System ℕ) × (b' : BaseActor ℕ) × (post_all persisting 0 posts ≡ some s')
    × (start after_crash 0 ≡ some (t', returns none))
    × (t'.actors 0 ≡ some b')
    × Mail sizes [] (envelope (user 7) (user_meta []) 0 false ∷ []) b'.mailbox
    × (b'.loop ≡ some popping)
unfolding new_system new_mailbox
restart_replays_example =
    restart_replays sizes sizes path persisting after_crash 0 0 posts ((7 ∷ []) ∷ []) restarted
      logging-Logs (refl, refl, omega arith, omega arith, tt)
      (λ s' e. ap (λ o. (left_of o).disk path) e) refl refl refl refl small-Mail (omega arith) refl
      (omega arith)
