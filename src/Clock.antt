-- ===== src/Clock.antt =====
-- testkit/clock.go: the fake clock. A timer is known by a number; what `Advance` sends is the list of
-- the timers that fire, with the time that each of them gets. The lock makes a call atomic, up to the
-- sends that follow it.
mod Tests
pub mod Fires
use deqin_actor.Base.{
  ℕ, zero, suc, ◌+◌, ◌-◌, ◌*◌, ◌/◌, ◌%◌, ◌^◌, ◌≤◌, ◌<◌, min, max, ◌≡◌, ◌≢◌, ◌↔◌, ◌⊎◌, inl, inr,
  refl, sym, ap, ap₂, ◌∙◌, arith, tests, if◌then◌else◌, ltb, leb, ◌==◌, ltb→lt, lt→ltb, le→ltb,
  leb→le, le→leb, lt→leb, ==_iff, Bool-cases, Option-cases, Bool, true, false, not, ◌&&◌, ◌||◌,
  Option, none, some, List, [], ◌∷◌, ◌++◌, map, append-nil, append_assoc, length, get_elem?, set,
  take, drop, length-append, length-set, get_elem?-set_self, get_elem?-set_ne, get_elem?-eq_some,
  get_elem?-append_left, get_elem?-append_end, dec_lt, dec_le, ℕ_discrete,
}
use mathlib.Core.Option
use deqin_actor.Base.Int.{ℤ, pos, leb_ℤ, ◌+ℤ◌}

pub record FakeTimer : Type 0 where
  pub name : ℕ
  pub at : ℤ

pub record FakeClock : Type 0 where
  pub now : ℤ
  pub tmrs : List FakeTimer

abbrev or_epoch : Option ℤ → ℤ
or_epoch none = pos 0
or_epoch (some t) = t

-- `NewFakeClock`; `none` is the zero `time.Time`.
unfoldable new_fake_clock : Option ℤ → FakeClock
new_fake_clock start = record { now = or_epoch start; tmrs = [] }

unfoldable pub after : FakeClock → ℤ → ℕ → FakeClock
after c d name = record c { tmrs = c.tmrs ++ (record { name = name; at = c.now +ℤ d } ∷ []) }

-- The loop of `Advance`: the timers that are left, and those that fire.
abbrev pub left : ℤ → List FakeTimer → List FakeTimer
left now [] = []
left now (t ∷ ts) = if leb_ℤ t.at now then left now ts else t ∷ left now ts

abbrev pub fire : ℤ → List FakeTimer → List (ℕ × ℤ)
fire now [] = []
fire now (t ∷ ts) = if leb_ℤ t.at now then (t.name, now) ∷ fire now ts else fire now ts

unfoldable pub advance : FakeClock → ℤ → FakeClock × List (ℕ × ℤ)
advance c d =
    (record { now = c.now +ℤ d; tmrs = left (c.now +ℤ d) c.tmrs }, fire (c.now +ℤ d) c.tmrs)
