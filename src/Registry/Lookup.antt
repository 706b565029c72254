-- ===== src/Registry/Lookup.antt =====
-- What the lookups of actor/registry.go find after `Register` and `Unregister`.
use deqin_actor.Base.{◌≡◌, ◌≢◌, inl, inr, refl, Bool-cases, true, false, none, some, []}
use deqin_actor.Base.Str.{Str, same, same_self, same-ne}
use deqin_actor.Registry.{Registry, register, unregister, get, get_by_name}

module _ {A : Type 0} where
  -- A registration finds the actor by its id, and by its name if there is one; other ids are found
  -- as before.
  register-found :
      (r : Registry A) (id name other : Str) (a : A)
      → name ≢ []
      → other ≢ id
      → (get (register r id name (some a)) id ≡ (some a, true))
        × (get_by_name (register r id name (some a)) name ≡ (some a, true))
        × (get (register r id name (some a)) other ≡ get r other)
  unfolding register get get_by_name
  register-found r id name other a named_ ne =
      rw (same-ne name [] named_, same_self id, same_self name, same_self id, same-ne other id ne)
        (refl, refl, refl)

  -- After `Unregister`, neither the id nor any name that still points to it finds an actor; other
  -- ids, and other names that point to other ids, are found as before.
  unregister-gone :
      (r : Registry A) (id name alias other : Str)
      → alias ≢ name
      → r.by_name alias ≡ some id
      → other ≢ id
      → (get (unregister r id name) id ≡ (none, false))
        × (get_by_name (unregister r id name) alias ≡ (none, false))
        × (get (unregister r id name) other ≡ get r other)
  unfolding unregister get get_by_name
  unregister-gone r id name alias other ne points other_ne = elim (Bool-cases (same name [])) [
    | inl e ↦ rw (e, points, same_self id, same-ne other id other_ne) (refl, refl, refl)
    | inr e ↦
        rw (e, same-ne alias name ne, points, same_self id, same-ne other id other_ne)
          (refl, refl, refl)
  ]

  -- Two actors are registered under one name, the second last. The first goes, and takes the name
  -- with it: the second is no longer found by its name, though it is by its id.
  pub unregister_takes_name :
      (r : Registry A) (id1 id2 name : Str) (a1 a2 : A)
      → name ≢ []
      → id2 ≢ id1
      → let r' =
          unregister (register (register r id1 name (some a1)) id2 name (some a2)) id1 name in
        (get_by_name r' name ≡ (none, false)) × (get r' id2 ≡ (some a2, true))
  unfolding register unregister get get_by_name
  unregister_takes_name r id1 id2 name a1 a2 named_ ne =
      rw (same-ne name [] named_, same_self name, same-ne id2 id1 ne, same_self id2) (refl, refl)
