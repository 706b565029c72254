-- ===== src/Future.antt =====
-- actor/future.go: a future and its callbacks. A call runs with no
-- other goroutine in between. A callback is known by a name of the type `C`; what a call runs is
-- the list of the callbacks with the value that each of them gets.
mod Tests
pub mod Callbacks
pub mod All
use deqin_actor.Base.{
  ℕ, zero, suc, ◌+◌, ◌-◌, ◌*◌, ◌/◌, ◌%◌, ◌^◌, ◌≤◌, ◌<◌, min, max, ◌≡◌, ◌≢◌, ◌↔◌, ◌⊎◌, inl, inr,
  refl, sym, ap, ap₂, ◌∙◌, arith, tests, if◌then◌else◌, ltb, leb, ◌==◌, ltb→lt, lt→ltb, le→ltb,
  leb→le, le→leb, lt→leb, ==_iff, Bool-cases, Option-cases, Bool, true, false, not, ◌&&◌, ◌||◌,
  Option, none, some, List, [], ◌∷◌, ◌++◌, map, append-nil, append_assoc, length, get_elem?, set,
  take, drop, length-append, length-set, get_elem?-set_self, get_elem?-set_ne, get_elem?-eq_some,
  get_elem?-append_left, get_elem?-append_end, dec_lt, dec_le, ℕ_discrete,
}
use mathlib.Core.Option

-- `buffer` and `is_closed` are the channel `ch`, of capacity 1.
pub record Future {ℓ} (A C : Type ℓ) : Type ℓ where
  pub done : Bool
  pub result : Option A
  pub buffer : Option A
  pub is_closed : Bool
  pub callbacks : List C

module _ {ℓ} {A C : Type ℓ} where
  unfoldable pub new_future : Future A C
  new_future = record {
    done = false;
    result = none;
    buffer = none;
    is_closed = false;
    callbacks = [];
  }

  abbrev pub call_each : List C → A → List (C × A)
  call_each [] v = []
  call_each (cb ∷ cbs) v = (cb, v) ∷ call_each cbs v

  -- The future after the call, and the callbacks that the call runs.
  unfoldable pub complete : Future A C → A → Future A C × List (C × A)
  complete f v = if f.done then (f, []) else (
    record { done = true; result = some v; buffer = some v; is_closed = true; callbacks = [] },
    call_each f.callbacks v,
  )

  abbrev call_with : C → Option A → List (C × A)
  call_with cb none = []
  call_with cb (some v) = (cb, v) ∷ []

  unfoldable pub on_complete : Future A C → C → Future A C × List (C × A)
  on_complete f cb =
      if f.done
      then (f, call_with cb f.result)
      else (record f { callbacks = f.callbacks ++ cb ∷ [] }, [])

-- What comes of `Await`: a value and `true`, the zero value and `false`, or it blocks. The timer of
-- a positive timeout counts as not yet fired while the channel can be received from, and as fired
-- when it cannot.
pub data Awaited {ℓ} (A : Type ℓ) : Type ℓ where
  value : A → Awaited A
  no_value : Awaited A
  blocks : Awaited A

abbrev stored {ℓ} : {A : Type ℓ} → Option A → Awaited A
stored none = no_value
stored (some v) = value v

module _ {ℓ} {A C : Type ℓ} where
  -- `<-f.ch`; `timed` tells whether a timer ends the wait.
  abbrev receive : Future A C → Option A → Bool → Bool → Future A C × Awaited A
  receive f (some v) is_closed timed = (record f { buffer = none }, value v)
  receive f none true timed = (f, no_value)
  receive f none false true = (f, no_value)
  receive f none false false = (f, blocks)

  unfoldable pub await : Future A C → Bool → Future A C × Awaited A
  await f timed = if f.done then (f, stored f.result) else receive f f.buffer f.is_closed timed
