-- ===== src/Future/Tests.antt =====
-- Runs of actor/future.go.
use deqin_actor.Base.{ℕ, ◌*◌, ◌≡◌, refl, arith, ◌==◌, true, false, some, List, [], ◌∷◌}
use deqin_actor.Future.{Future, new_future, await}
use deqin_actor.Future.All.{results}
use deqin_actor.Future.All.Order.{missing, in_order, all_in_order}
use deqin_actor.Future.Callbacks.{
  FutureOp, completes, registers, awaits, first_value, registered, call_all, run, answer,
  each_callback_once, await-first_value,
}

-- The second value comes too late.
abbrev fresh : Future ℕ ℕ
fresh = new_future

abbrev history : List (FutureOp ℕ ℕ)
history = registers 1 ∷ awaits true ∷ registers 2 ∷ completes 7 ∷ completes 8 ∷ registers 3 ∷ []

each_callback_once_example :
    (run fresh history).1 ≡ call_all (first_value history) (registered history)
each_callback_once_example = each_callback_once history

await-first_value_example :
    (await (run fresh history).0 false).1 ≡ answer (first_value history) false
await-first_value_example = await-first_value history false

called_in_order :
    call_all (first_value history) (registered history) ≡ (1, 7) ∷ (2, 7) ∷ (3, 7) ∷ []
called_in_order = refl

-- Three futures, of which the second is the first to be done, and then the third.
all_in_order_example :
    ((results {C = ℕ} 3 0 (λ i. i * 10) (0 ∷ 2 ∷ 1 ∷ [])).out.done
      ≡ (missing (0 ∷ 2 ∷ 1 ∷ []) 3 == 0))
    × (missing (0 ∷ 2 ∷ 1 ∷ []) 3 ≡ 0
        → (results {C = ℕ} 3 0 (λ i. i * 10) (0 ∷ 2 ∷ 1 ∷ [])).out.result
          ≡ some (in_order (λ i. i * 10) 0 3))
all_in_order_example =
    all_in_order ℕ ℕ 3 0 (λ i. i * 10) (0 ∷ 2 ∷ 1 ∷ []) (omega arith)
      (omega arith, refl, (omega arith, refl, (omega arith, refl, tt)))
