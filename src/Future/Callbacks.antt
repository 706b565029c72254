-- ===== src/Future/Callbacks.antt =====
-- The histories of calls on one future of actor/future.go.
use deqin_actor.Base.{
  ◌≡◌, refl, sym, ap, ◌∙◌, Bool, true, false, Option, none, some, List, [], ◌∷◌, ◌++◌, append-nil,
  append_assoc,
}
use mathlib.Core.Path.{subst}
use deqin_actor.Future.{
  Future, new_future, complete, call_each, on_complete, Awaited, value, no_value, blocks, await,
}

pub data FutureOp {ℓ} (A C : Type ℓ) : Type ℓ where
  completes : A → FutureOp A C
  registers : C → FutureOp A C
  awaits : Bool → FutureOp A C

abbrev pub answer : {A : Type 0} → Option A → Bool → Awaited A
answer (some v) timed = value v
answer none true = no_value
answer none false = blocks

module _ {A C : Type 0} where
  -- The value of the first `complete`, and the callbacks in the order of their registrations.
  abbrev pub first_value : List (FutureOp A C) → Option A
  first_value [] = none
  first_value (completes v ∷ ops) = some v
  first_value (registers cb ∷ ops) = first_value ops
  first_value (awaits t ∷ ops) = first_value ops

  abbrev pub registered : List (FutureOp A C) → List C
  registered [] = []
  registered (completes v ∷ ops) = registered ops
  registered (registers cb ∷ ops) = cb ∷ registered ops
  registered (awaits t ∷ ops) = registered ops

  abbrev pub call_all : Option A → List C → List (C × A)
  call_all none cbs = []
  call_all (some v) cbs = call_each cbs v

  abbrev pub step : Future A C → FutureOp A C → Future A C × List (C × A)
  step f (completes v) = complete f v
  step f (registers cb) = on_complete f cb
  step f (awaits t) = ((await f t).0, [])

  abbrev after_calls : List (C × A) → Future A C × List (C × A) → Future A C × List (C × A)
  after_calls called p = (p.0, called ++ p.1)

  -- The future after a history, and the callbacks that have run.
  unfoldable pub run : Future A C → List (FutureOp A C) → Future A C × List (C × A)
  run f [] = (f, [])
  run f (op ∷ ops) = after_calls (step f op).1 (run (step f op).0 ops)

  run-step :
      (f f' : Future A C) (op : FutureOp A C) (called : List (C × A)) (ops : List (FutureOp A C))
      → step f op ≡ (f', called)
      → after_calls called (run f' ops) ≡ run f (op ∷ ops)
  unfolding run
  run-step f f' op called ops e = sym (ap (λ p. after_calls p.1 (run p.0 ops)) e)

  record Pending (f : Future A C) (cbs : List C) : Type 0 where
    not_done : f.done ≡ false
    empty : f.buffer ≡ none
    is_open : f.is_closed ≡ false
    waiting : f.callbacks ≡ cbs

  record Settled (f : Future A C) (v : A) : Type 0 where
    done_is : f.done ≡ true
    result_is : f.result ≡ some v

  call_each-append :
      (cbs : List C) (ds : List C) (v : A)
      → call_each (cbs ++ ds) v ≡ call_each cbs v ++ call_each ds v
  call_each-append [] ds v = refl
  call_each-append (cb ∷ cbs) ds v = ap (λ t. (cb, v) ∷ t) (call_each-append cbs ds v)

  -- What a history leaves: the value, if it completes the future, and else no value.
  abbrev Left : Future A C → Option A → List C → Type 0
  Left f none cbs = Pending f cbs
  Left f (some v) cbs = Settled f v

  -- The callbacks that have run, and the future that is left.
  abbrev Outcome : Option A → List C → Future A C × List (C × A) → Type 0
  Outcome o cbs p = (p.1 ≡ call_all o cbs) × Left p.0 o cbs

  run-Settled :
      (ops : List (FutureOp A C)) (f : Future A C) (v : A)
      → Settled f v
      → Outcome (some v) (registered ops) (run f ops)
  unfolding run complete on_complete await
  run-Settled [] f v h = (refl, h)
  run-Settled (completes w ∷ ops) f v h =
      subst (Outcome (some v) (registered ops))
        (run-step f f (completes w) [] ops (rw h.done_is refl)) (run-Settled ops f v h)
  run-Settled (registers cb ∷ ops) f v h =
      let (e, s) = run-Settled ops f v h in
      subst (Outcome (some v) (cb ∷ registered ops))
        (run-step f f (registers cb) ((cb, v) ∷ []) ops (rw (h.done_is, h.result_is) refl))
        (ap (λ t. (cb, v) ∷ t) e, s)
  run-Settled (awaits t ∷ ops) f v h =
      subst (Outcome (some v) (registered ops)) (run-step f f (awaits t) [] ops (rw h.done_is refl))
        (run-Settled ops f v h)

  await-Pending :
      (f : Future A C) (cbs : List C) (t : Bool) → Pending f cbs → await f t ≡ (f, answer none t)
  unfolding await
  await-Pending f cbs true h = rw (h.not_done, h.empty, h.is_open) refl
  await-Pending f cbs false h = rw (h.not_done, h.empty, h.is_open) refl

  run-Pending :
      (ops : List (FutureOp A C)) (f : Future A C) (cbs : List C)
      → Pending f cbs
      → Outcome (first_value ops) (cbs ++ registered ops) (run f ops)
  unfolding run complete on_complete
  run-Pending [] f cbs h = (refl, subst (Pending f) (sym (append-nil cbs)) h)
  run-Pending (completes v ∷ ops) f cbs h =
      let after : Future A C = record {
        done = true;
        result = some v;
        buffer = some v;
        is_closed = true;
        callbacks = [];
      } in
      let (e, s) = run-Settled ops after v (record { done_is = refl; result_is = refl }) in
      subst (Outcome (some v) (cbs ++ registered ops))
        (run-step f after (completes v) (call_each cbs v) ops (rw (h.not_done, h.waiting) refl))
        (ap (λ t. call_each cbs v ++ t) e ∙ sym (call_each-append cbs (registered ops) v), s)
  run-Pending (registers cb ∷ ops) f cbs h =
      let after : Future A C = record f { callbacks = f.callbacks ++ cb ∷ [] } in
      subst (Outcome (first_value ops) (cbs ++ cb ∷ registered ops))
        (run-step f after (registers cb) [] ops (rw h.not_done refl))
        (subst (λ ds. Outcome (first_value ops) ds (run after ops))
          (append_assoc cbs (cb ∷ []) (registered ops))
          (run-Pending ops after (cbs ++ cb ∷ []) (record {
            not_done = h.not_done;
            empty = h.empty;
            is_open = h.is_open;
            waiting = ap (λ t. t ++ cb ∷ []) h.waiting;
          })))
  run-Pending (awaits t ∷ ops) f cbs h =
      subst (Outcome (first_value ops) (cbs ++ registered ops))
        (run-step f f (awaits t) [] ops (ap (λ p. (p.0, [])) (await-Pending f cbs t h)))
        (run-Pending ops f cbs h)

  new_future-Pending : Pending new_future []
  unfolding new_future
  new_future-Pending = record { not_done = refl; empty = refl; is_open = refl; waiting = refl }

  -- Over any history of `complete`, `OnComplete` and `Await` on a new future, the callbacks that
  -- have run are all those registered, each once and in the order of registration, with the value
  -- of the first `complete`; while there is none, no callback has run.
  pub each_callback_once :
      (ops : List (FutureOp A C))
      → (run new_future ops).1 ≡ call_all (first_value ops) (registered ops)
  each_callback_once ops = (run-Pending ops new_future [] new_future-Pending).0

  await-Left :
      (f : Future A C) (o : Option A) (cbs : List C) (timed : Bool)
      → Left f o cbs
      → (await f timed).1 ≡ answer o timed
  unfolding await
  await-Left f none cbs true h = ap (λ p. p.1) (await-Pending f cbs true h)
  await-Left f none cbs false h = ap (λ p. p.1) (await-Pending f cbs false h)
  await-Left f (some v) cbs timed h = rw (h.done_is, h.result_is) refl

  -- After any history on a new future, `Await` returns the value of the first `complete`, however
  -- often it is called; while there is none, it blocks, or returns no value if it has a timeout.
  pub await-first_value :
      (ops : List (FutureOp A C)) (timed : Bool)
      → (await (run new_future ops).0 timed).1 ≡ answer (first_value ops) timed
  await-first_value ops timed =
      await-Left (run new_future ops).0 (first_value ops) (registered ops) timed
        (run-Pending ops new_future [] new_future-Pending).1
