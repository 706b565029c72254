-- ===== src/Future/All.antt =====
-- `Then` and `All` of actor/future.go: futures that other futures complete. A callback is seen by the
-- call that runs it.
pub mod Order
use deqin_actor.Base.{
  ℕ, zero, suc, ◌+◌, ◌-◌, ◌*◌, ◌/◌, ◌%◌, ◌^◌, ◌≤◌, ◌<◌, min, max, ◌≡◌, ◌≢◌, ◌↔◌, ◌⊎◌, inl, inr,
  refl, sym, ap, ap₂, ◌∙◌, arith, tests, if◌then◌else◌, ltb, leb, ◌==◌, ltb→lt, lt→ltb, le→ltb,
  leb→le, le→leb, lt→leb, ==_iff, Bool-cases, Option-cases, Bool, true, false, not, ◌&&◌, ◌||◌,
  Option, none, some, List, [], ◌∷◌, ◌++◌, map, append-nil, append_assoc, length, get_elem?, set,
  take, drop, length-append, length-set, get_elem?-set_self, get_elem?-set_ne, get_elem?-eq_some,
  get_elem?-append_left, get_elem?-append_end, dec_lt, dec_le, ℕ_discrete,
}
use deqin_actor.Future.{Future, new_future, complete, on_complete}

module _ {ℓ} {A B C : Type ℓ} where
  -- `Then`, whose callback has a name: the new future, and the old one with the callback.
  unfoldable then_future : Future A C → C → Future B C × (Future A C × List (C × A))
  then_future fa cb = (new_future, on_complete fa cb)

  -- What the callback does with the new future.
  unfoldable on_value : Future B C → (A → B) → A → Future B C × List (C × B)
  on_value fb fn a = complete fb (fn a)

-- What the callbacks of `All` share; `left` is an `int32`, as a `uint32`.
pub record Gathered {ℓ} (A C : Type ℓ) : Type ℓ where
  pub out : Future (List A) C
  pub left : ℕ
  pub vals : List A

-- `make([]T, n)`
abbrev pub zeroed {ℓ} : {A : Type ℓ} → ℕ → A → List A
zeroed zero z = []
zeroed (suc n) z = z ∷ zeroed n z

module _ {ℓ} {A C : Type ℓ} where
  -- `All` of `n` futures, given the zero value of their type.
  unfoldable pub all_futures : ℕ → A → Gathered A C
  unfolding new_future complete
  all_futures n z =
      if n == 0
      then record { out = (complete new_future []).0; left = 0; vals = [] }
      else record { out = new_future; left = n % 2 ^ 32; vals = zeroed n z }

  -- The callback of the `i`-th future.
  unfoldable pub on_result : Gathered A C → ℕ → A → Gathered A C
  unfolding complete
  on_result g i v =
      let vals = set g.vals i v in
      let left = (g.left + (2 ^ 32 - 1)) % 2 ^ 32 in
      record {
        out = if left == 0 then (complete g.out vals).0 else g.out;
        left = left;
        vals = vals;
      }

  -- The callbacks of these futures have run, the first of the list last; future `i` has the value
  -- `at i`.
  unfoldable pub results : ℕ → A → (ℕ → A) → List ℕ → Gathered A C
  results n z at [] = all_futures n z
  results n z at (i ∷ is) = on_result (results n z at is) i (at i)
