-- ===== src/Pending.antt =====
-- The table of pending requests of actor/system.go. A future is known by a name of the type `F`; what
-- a call completes is the list of the futures with their responses. The lock makes a call atomic.
mod Tests
pub mod Once
use deqin_actor.Base.{
  ℕ, zero, suc, ◌+◌, ◌-◌, ◌*◌, ◌/◌, ◌%◌, ◌^◌, ◌≤◌, ◌<◌, min, max, ◌≡◌, ◌≢◌, ◌↔◌, ◌⊎◌, inl, inr,
  refl, sym, ap, ap₂, ◌∙◌, arith, tests, if◌then◌else◌, ltb, leb, ◌==◌, ltb→lt, lt→ltb, le→ltb,
  leb→le, le→leb, lt→leb, ==_iff, Bool-cases, Option-cases, Bool, true, false, not, ◌&&◌, ◌||◌,
  Option, none, some, List, [], ◌∷◌, ◌++◌, map, append-nil, append_assoc, length, get_elem?, set,
  take, drop, length-append, length-set, get_elem?-set_self, get_elem?-set_ne, get_elem?-eq_some,
  get_elem?-append_left, get_elem?-append_end, dec_lt, dec_le, ℕ_discrete,
}
use mathlib.Core.Option
use deqin_actor.Base.Str.{Str, put_key, delete_key}

-- A response with its correlation id: a user's, or the error of a timeout.
pub record Response {ℓ} (V : Type ℓ) : Type ℓ where
  pub correlation_id : Str
  pub outcome : Option V

-- `ErrAskTimeout`
abbrev pub timeout_response {ℓ} : {V : Type ℓ} → Str → Response V
timeout_response id = record { correlation_id = id; outcome = none }

-- `TrackPending` up to its timer.
unfoldable pub track_pending {ℓ} : {F : Type ℓ} → (Str → Option F) → Str → F → Str → Option F
track_pending pending id f = put_key pending id f

module _ {ℓ} {F V : Type ℓ} where
  abbrev pub completed :
      (Str → Option F) → Str → Response V → Option F → (Str → Option F) × List (F × Response V)
  completed pending id resp none = (pending, [])
  completed pending id resp (some f) = (delete_key pending id, (f, resp) ∷ [])

  unfoldable pub complete_future :
      (Str → Option F) → Response V → (Str → Option F) × List (F × Response V)
  complete_future pending resp =
      completed pending resp.correlation_id resp (pending resp.correlation_id)

  -- What the timer of `TrackPending` runs.
  unfoldable pub expire : (Str → Option F) → Str → (Str → Option F) × List (F × Response V)
  expire pending id = completed pending id (timeout_response id) (pending id)
