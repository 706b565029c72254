-- ===== src/Registry/Tests.antt =====
-- Runs of actor/registry.go.
use deqin_actor.Base.{ℕ, ◌≡◌, ◌≢◌, ap, arith, true, false, none, some, [], ◌∷◌}
use deqin_actor.Base.Str.{Str, same, same_self}
use deqin_actor.Registry.{Registry, new_registry, register, unregister, get, get_by_name}
use deqin_actor.Registry.Lookup.{unregister_takes_name}

abbrev ann : Str
ann = 97 ∷ []

abbrev bob : Str
bob = 98 ∷ []

abbrev al : Str
al = 97 ∷ 108 ∷ []

abbrev one_actor : Registry ℕ
one_actor = register new_registry ann al (some 7)

ann-named : ann ≢ []
ann-named e = ground (arith, same_self ann, ap (λ s. same ann s) e)

bob-ne : bob ≢ ann
bob-ne e = ground (arith, same_self bob, ap (λ s. same bob s) e)

al-ne : al ≢ bob
al-ne e = ground (arith, same_self al, ap (λ s. same al s) e)

unregister_takes_name_example :
    let r = unregister (register (register one_actor ann ann (some 1)) bob ann (some 2)) ann ann in
    (get_by_name r ann ≡ (none, false)) × (get r bob ≡ (some 2, true))
unregister_takes_name_example = unregister_takes_name one_actor ann bob ann 1 2 ann-named bob-ne
