-- ===== src/Registry.antt =====
-- actor/registry.go: the two indexes of the actors. An `IActor` is an `Option A`, whose `none` is
-- the nil interface. The lock makes a call atomic.
mod Tests
pub mod Lookup
use deqin_actor.Base.{
  ℕ, zero, suc, ◌+◌, ◌-◌, ◌*◌, ◌/◌, ◌%◌, ◌^◌, ◌≤◌, ◌<◌, min, max, ◌≡◌, ◌≢◌, ◌↔◌, ◌⊎◌, inl, inr,
  refl, sym, ap, ap₂, ◌∙◌, arith, tests, if◌then◌else◌, ltb, leb, ◌==◌, ltb→lt, lt→ltb, le→ltb,
  leb→le, le→leb, lt→leb, ==_iff, Bool-cases, Option-cases, Bool, true, false, not, ◌&&◌, ◌||◌,
  Option, none, some, List, [], ◌∷◌, ◌++◌, map, append-nil, append_assoc, length, get_elem?, set,
  take, drop, length-append, length-set, get_elem?-set_self, get_elem?-set_ne, get_elem?-eq_some,
  get_elem?-append_left, get_elem?-append_end, dec_lt, dec_le, ℕ_discrete,
}
use deqin_actor.Base.Str.{Str, same, put_key, delete_key}

pub record Registry {ℓ} (A : Type ℓ) : Type ℓ where
  pub by_id : Str → Option (Option A)
  pub by_name : Str → Option Str

module _ {ℓ} {A : Type ℓ} where
  unfoldable pub new_registry : Registry A
  new_registry = record { by_id = λ k. none; by_name = λ k. none }

  unfoldable pub register : Registry A → Str → Str → Option A → Registry A
  register r id name a =
      let r' = record r { by_id = put_key r.by_id id a } in
      if same name [] then r' else record r' { by_name = put_key r.by_name name id }

  unfoldable pub unregister : Registry A → Str → Str → Registry A
  unregister r id name =
      let r' = record r { by_id = delete_key r.by_id id } in
      if same name [] then r' else record r' { by_name = delete_key r.by_name name }

  -- What a map of actors gives for a key: the actor, nil if the key is missing, and whether it is
  -- there.
  abbrev pub comma_ok : Option (Option A) → Option A × Bool
  comma_ok none = (none, false)
  comma_ok (some a) = (a, true)

  abbrev is_some : Option A → Bool
  is_some none = false
  is_some (some a) = true

  unfoldable pub get : Registry A → Str → Option A × Bool
  get r id = comma_ok (r.by_id id)

  abbrev pub named : Registry A → Option Str → Option A × Bool
  named r none = (none, false)
  named r (some id) = let a = (comma_ok (r.by_id id)).0 in (a, is_some a)

  unfoldable pub get_by_name : Registry A → Str → Option A × Bool
  get_by_name r name = named r (r.by_name name)

  -- `Snapshot`: a copy of the map, which later calls do not change.
  unfoldable pub snapshot : Registry A → Str → Option (Option A)
  snapshot r = r.by_id
