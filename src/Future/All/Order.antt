-- ===== src/Future/All/Order.antt =====
-- What a future of `All` of actor/future.go is completed with.
use deqin_actor.Base.{
  ℕ, zero, suc, ◌+◌, ◌-◌, ◌%◌, ◌^◌, ◌≤◌, ◌<◌, ◌≡◌, refl, sym, ap, ap₂, ◌∙◌, arith, if◌then◌else◌,
  ◌==◌, Bool, true, false, some, List, [], ◌∷◌, length, get_elem?, set, length-set,
  get_elem?-set_self, get_elem?-set_ne, ℕ_discrete,
}
use mathlib.Core.Path.{subst}
use deqin_actor.Future.{Future, new_future, complete}
use deqin_actor.Future.All.{Gathered, zeroed, all_futures, on_result, results}

abbrev has_run : ℕ → List ℕ → Bool
has_run j [] = false
has_run j (i ∷ is) = if j == i then true else has_run j is

-- How many of the first `n` futures have not had their callbacks run.
abbrev pub missing : List ℕ → ℕ → ℕ
missing is zero = 0
missing is (suc n) = (if has_run n is then 0 else 1) + missing is n

-- Each of the callbacks is of one of the `n` futures, and none has run twice.
abbrev EachOnce : ℕ → List ℕ → Type 0
EachOnce n [] = Unit {0}
EachOnce n (i ∷ is) = (i < n) × (has_run i is ≡ false) × EachOnce n is

-- The values of `n` futures in their order, from number `k` on.
abbrev pub in_order {ℓ} : {A : Type ℓ} → (ℕ → A) → ℕ → ℕ → List A
in_order at k zero = []
in_order at k (suc n) = at k ∷ in_order at (suc k) n

missing-beyond : (n i : ℕ) (is : List ℕ) → n ≤ i → missing (i ∷ is) n ≡ missing is n
missing-beyond zero i is h = refl
missing-beyond (suc n) i is h = ground (arith, missing-beyond n i is (omega (arith, h)), h)

missing-new :
    (n i : ℕ) (is : List ℕ) → i < n → has_run i is ≡ false → missing is n ≡ suc (missing (i ∷ is) n)
missing-new zero i is h f = absurd (omega (arith, h))
missing-new (suc n) i is h f = elim (ℕ_discrete n i) [
  | yes p ↦ ground (arith, p, f, ap (λ t. has_run t is) p, missing-beyond n i is (omega (arith, p)))
  | no p ↦ ground (arith, p, missing-new n i is (omega (arith, p, h)) f)
]

missing-le : (n : ℕ) (is : List ℕ) → missing is n ≤ n
missing-le zero is = omega arith
missing-le (suc n) is = ground (arith, missing-le n is)

missing-nil : (n : ℕ) → missing [] n ≡ n
missing-nil zero = refl
missing-nil (suc n) = omega (arith, missing-nil n)

none_missing : (n j : ℕ) (is : List ℕ) → missing is n ≡ 0 → j < n → has_run j is ≡ true
none_missing zero j is h lt = absurd (omega (arith, lt))
none_missing (suc n) j is h lt = elim (ℕ_discrete j n) [
  | yes p ↦ ground (arith, h, p, ap (λ t. has_run t is) p)
  | no p ↦ none_missing n j is (ground (arith, h)) (omega (arith, p, lt))
]

length-zeroed : {A : Type 0} (n : ℕ) (z : A) → length (zeroed n z) ≡ n
length-zeroed zero z = refl
length-zeroed (suc n) z = ap suc (length-zeroed n z)

left_down : (l m : ℕ) → l ≡ suc m → suc m < 2 ^ 32 → (l + (2 ^ 32 - 1)) % 2 ^ 32 ≡ m
left_down l m e small = omega (arith, e, small)

suc_not_zero : (m : ℕ) → (suc m == 0) ≡ false
suc_not_zero m = ground arith

module _ {A : Type 0} (n : ℕ) (at : ℕ → A) where
  filled_set :
      (is : List ℕ) (i : ℕ) (vals : List A)
      → length vals ≡ n
      → i < n
      → ((j : ℕ) → j < n → has_run j is ≡ true → get_elem? vals j ≡ some (at j))
      → (j : ℕ) → j < n
      → has_run j (i ∷ is) ≡ true
      → get_elem? (set vals i (at i)) j ≡ some (at j)
  filled_set is i vals len lt h j jlt r = elim (ℕ_discrete i j) [
    | yes p ↦
        subst (λ k. get_elem? (set vals i (at i)) k ≡ some (at k)) p
          (get_elem?-set_self vals i (at i) (omega (arith, len, lt)))
    | no p ↦ get_elem?-set_ne vals i j (at i) p ∙ h j jlt (ground (arith, r, p))
  ]

module _ {A C : Type 0} where
  abbrev stepped : Gathered A C → List A → ℕ → Bool → Gathered A C
  stepped g vals left c = record {
    out = if c then (complete g.out vals).0 else g.out;
    left = left;
    vals = vals;
  }

  completed_now :
      (f : Future (List A) C) (vals : List A)
      → f.done ≡ false
      → ((complete f vals).0.done ≡ true) × ((complete f vals).0.result ≡ some vals)
  unfolding complete
  completed_now f vals e = (ground (arith, e), ground (arith, e))

module _ {A C : Type 0} (n : ℕ) (z : A) (at : ℕ → A) where
  -- What the callbacks leave.
  record Gathering (is : List ℕ) (g : Gathered A C) : Type 0 where
    left_is : g.left ≡ missing is n
    size : length g.vals ≡ n
    filled : (j : ℕ) → j < n → has_run j is ≡ true → get_elem? g.vals j ≡ some (at j)
    done_is : g.out.done ≡ (missing is n == 0)
    result_is : g.out.done ≡ true → g.out.result ≡ some g.vals

  stepped-Gathering :
      (is : List ℕ) (i : ℕ) (g : Gathered A C) (m : ℕ)
      → Gathering is g
      → i < n
      → has_run i is ≡ false
      → missing (i ∷ is) n ≡ m
      → Gathering (i ∷ is) (stepped g (set g.vals i (at i)) m (m == 0))
  stepped-Gathering is i g m h lt new e =
      let not_yet : g.out.done ≡ false =
        h.done_is
        ∙ ap (λ t. t == 0) (missing-new n i is lt new)
        ∙ suc_not_zero (missing (i ∷ is) n) in
      by_count m e not_yet
    where
      by_count :
          (k : ℕ)
          → missing (i ∷ is) n ≡ k
          → g.out.done ≡ false
          → Gathering (i ∷ is) (stepped g (set g.vals i (at i)) k (k == 0))
      by_count zero e' not_yet =
          let (d, r) = completed_now g.out (set g.vals i (at i)) not_yet in
          record {
            left_is = sym e';
            size = length-set g.vals i (at i) ∙ h.size;
            filled = filled_set n at is i g.vals h.size lt h.filled;
            done_is = d ∙ sym (ap (λ t. t == 0) e');
            result_is = λ q. r;
          }
      by_count (suc k) e' not_yet = record {
        left_is = sym e';
        size = length-set g.vals i (at i) ∙ h.size;
        filled = filled_set n at is i g.vals h.size lt h.filled;
        done_is =
            ap (λ c. (stepped g (set g.vals i (at i)) (suc k) c).out.done) (suc_not_zero k)
            ∙ not_yet
            ∙ sym (ap (λ t. t == 0) e' ∙ suc_not_zero k);
        result_is = λ q. absurd (
            ground (
              arith,
              not_yet,
              ap (λ c. (stepped g (set g.vals i (at i)) (suc k) c).out.done) (sym (suc_not_zero k)),
              q,
            ));
      }

  results-Gathering :
      (is : List ℕ) → 1 ≤ n → n < 2 ^ 32 → EachOnce n is → Gathering is (results {C = C} n z at is)
  unfolding results all_futures on_result complete new_future
  results-Gathering [] some_futures few h =
      let many : (n == 0) ≡ false = ground (arith, some_futures) in
      let count = missing-nil n in
      subst
        (λ c. Gathering [] (
          if c
          then record { out = (complete new_future []).0; left = 0; vals = [] }
          else record { out = new_future; left = n % 2 ^ 32; vals = zeroed n z }))
        (sym many)
        (record {
          left_is = omega (arith, few, count);
          size = length-zeroed n z;
          filled = λ j lt r. absurd (ground (arith, r));
          done_is = sym (ap (λ t. t == 0) count ∙ many);
          result_is = λ q. absurd (ground (arith, q));
        })
  results-Gathering (i ∷ is) some_futures few (lt, new, h) =
      let g = results-Gathering is some_futures few h in
      let before = results {C = C} n z at is in
      let m = missing (i ∷ is) n in
      let down : (before.left + (2 ^ 32 - 1)) % 2 ^ 32 ≡ m =
        left_down before.left m (g.left_is ∙ missing-new n i is lt new)
          (omega (arith, few, missing-new n i is lt new, missing-le n is)) in
      subst (λ k. Gathering (i ∷ is) (stepped before (set before.vals i (at i)) k (k == 0)))
        (sym down) (stepped-Gathering is i before m g lt new refl)

add_zero : (k : ℕ) → k + 0 ≡ k
add_zero k = omega arith

zero_add : (j : ℕ) → j ≡ 0 + j
zero_add j = omega arith

add_suc : (k j : ℕ) → k + suc j ≡ suc k + j
add_suc k j = omega arith

in_order_lem :
    {A : Type 0} (xs : List A) (at : ℕ → A) (k : ℕ)
    → ((j : ℕ) → j < length xs → get_elem? xs j ≡ some (at (k + j)))
    → xs ≡ in_order at k (length xs)
in_order_lem [] at k h = refl
in_order_lem (x ∷ xs) at k h =
    let first : x ≡ at k = ground (arith, h 0 (omega arith) ∙ ap (λ i. some (at i)) (add_zero k)) in
    ap₂ (λ y ys. y ∷ ys) first
      (in_order_lem xs at (suc k)
        (λ j lt. h (suc j) (omega (arith, lt)) ∙ ap (λ i. some (at i)) (add_suc k j)))

-- `All` of `n` futures, fewer than 2^31: their callbacks run in any order, each at most once, future
-- `i` with the value `at i`. The future that `All` returns is done exactly when none of them is left,
-- and then it is completed with the values of all the futures in the order of the futures.
pub all_in_order :
    (A C : Type 0) (n : ℕ) (z : A) (at : ℕ → A) (is : List ℕ)
    → n < 2 ^ 31
    → EachOnce n is
    → ((results {C = C} n z at is).out.done ≡ (missing is n == 0))
      × (missing is n ≡ 0 → (results {C = C} n z at is).out.result ≡ some (in_order at 0 n))
unfolding results all_futures complete new_future
all_in_order A C zero z at [] few h = (refl, λ e. refl)
all_in_order A C zero z at (i ∷ is) few h = absurd (omega (arith, h.0))
all_in_order A C (suc n) z at is few h =
    let g = results-Gathering {C = C} (suc n) z at is (omega arith) (omega (arith, few)) h in
    (
      g.done_is,
      λ e.
          g.result_is (g.done_is ∙ ap (λ t. t == 0) e)
          ∙ ap some (
              in_order_lem (results {C = C} (suc n) z at is).vals at 0 (λ j lt.
                g.filled j (omega (arith, lt, g.size))
                  (none_missing (suc n) j is e (omega (arith, lt, g.size)))
                ∙ ap (λ i. some (at i)) (zero_add j))
              ∙ ap (in_order at 0) g.size),
    )
