-- ===== src/System/Sync/Breakers.antt =====
-- The breakers of a system of actor/system.go, over the requests of actor/ask.go.
use deqin_actor.Base.{
  ℕ, ◌≡◌, inl, inr, refl, sym, ap, ◌∙◌, if◌then◌else◌, Bool-cases, Bool, true, false, Option, none,
  some, List, [], ◌∷◌,
}
use deqin_actor.Base.Int.{ℤ}
use deqin_actor.Base.Str.{Str, same, same-eq}
use deqin_actor.Types.{Target}
use deqin_actor.Breaker
use deqin_actor.Breaker.{CircuitBreaker, Call, allows, succeeds, fails, step}
use deqin_actor.Ask.{allowed, reported}
use deqin_actor.System.{System, BaseActor, Reply, target_id, breaker_for, found_breaker}
use deqin_actor.System.Sync.{
  put_breaker, id_of_target, begun_with, begin_ask, held, end_ask, answer_of,
}
use deqin_actor.Ask.Reported.{ask_begin-breaker, ask_end-breaker, reported-step, call_of}

-- A request begins, degradable or not, or ends with what `Await` gave.
pub data AskEvent (V : Type 0) : Type 0 where
  begins : Option Target → Bool → ℤ → AskEvent V
  ends : Option Target → Option (Reply V) → ℤ → ℤ → AskEvent V

-- What a map of breakers has for an id once the breaker of another or the same id is written.
abbrev written_at : Bool → Option CircuitBreaker → Option CircuitBreaker → Option CircuitBreaker
written_at c none old = old
written_at c (some b) old = if c then some b else old

put_breaker-at :
    (m : Str → Option CircuitBreaker) (id k : Str) (o : Option CircuitBreaker)
    → put_breaker m id o k ≡ written_at (same k id) o (m k)
put_breaker-at m id k none = refl
put_breaker-at m id k (some b) = refl

written_elsewhere : (o old : Option CircuitBreaker) → written_at false o old ≡ old
written_elsewhere none old = refl
written_elsewhere (some b) old = refl

-- One call, or none, and the calls after it.
run-if :
    (c : Bool) (b : CircuitBreaker) (call : Call) (cs : List Call)
    → Breaker.run (if c then step b call else b) cs ≡ Breaker.run b (if c then call ∷ cs else cs)
unfolding Breaker.run
run-if true b call cs = refl
run-if false b call cs = refl

module _ {V : Type 0} where
  -- The calls of the breaker of one id that requests make.
  abbrev pub calls_on : (ℕ → Option (BaseActor V)) → Str → List (AskEvent V) → List Call
  calls_on actors id [] = []
  calls_on actors id (begins t d now ∷ es) =
      if same id (id_of_target actors t)
      then allows now ∷ calls_on actors id es
      else calls_on actors id es
  calls_on actors id (ends t r now latency ∷ es) =
      if same id (id_of_target actors t)
      then call_of (answer_of r) now ∷ calls_on actors id es
      else calls_on actors id es

  unfoldable pub run_asks : System V → List (AskEvent V) → System V
  run_asks s [] = s
  run_asks s (begins t d now ∷ es) = run_asks (begin_ask s t d now).0 es
  run_asks s (ends t r now latency ∷ es) = run_asks (end_ask s t r now latency).0 es

  breaker_for-actors : (s : System V) (t : Option Target) → (breaker_for s t).0.actors ≡ s.actors
  unfolding breaker_for
  breaker_for-actors s none = refl
  breaker_for-actors s (some t) =
      by_id (same (target_id s.actors t) []) (s.breakers (target_id s.actors t))
    where
      by_id :
          (c : Bool) (o : Option CircuitBreaker)
          → (if c then (s, none) else found_breaker s (target_id s.actors t) o).0.actors ≡ s.actors
      by_id true o = refl
      by_id false none = refl
      by_id false (some b) = refl

  begun_with-breakers :
      (id k : Str) (d : Bool) (now : ℤ) (p : System V × Option CircuitBreaker)
      → (begun_with id d now p).0.breakers k
        ≡ written_at (same k id) (allowed p.1 now).0 (p.0.breakers k)
  begun_with-breakers id k d now (s, o) =
      put_breaker-at s.breakers id k _
      ∙ ap (λ b. written_at (same k id) b (s.breakers k))
          (ask_begin-breaker (record { breaker = o; wait_tokens = s.wait_tokens }) d now)

  -- The breaker of an id after one of them, given what `breakerFor` finds.
  found_breaker-at :
      (s : System V) (id k : Str) (b : CircuitBreaker) (now : ℤ) (o : Option CircuitBreaker)
      → s.breakers k ≡ some b
      → s.breakers id ≡ o
      → written_at
          (same k id)
          (allowed (found_breaker s id o).1 now).0
          ((found_breaker s id o).0.breakers k)
        ≡ some (if same k id then step b (allows now) else b)
  unfolding step
  found_breaker-at s id k b now o h e = elim (Bool-cases (same k id)) [
    | inl p ↦
        let there : o ≡ some b = sym e ∙ ap s.breakers (sym (same-eq k id p)) ∙ h in
        ap
          (λ q.
            written_at (same k id) (allowed (found_breaker s id q).1 now).0
              ((found_breaker s id q).0.breakers k))
          there
        ∙ rw p refl
    | inr p ↦ elsewhere o p
  ]
    where
      elsewhere :
          (q : Option CircuitBreaker)
          → same k id ≡ false
          → written_at
              (same k id)
              (allowed (found_breaker s id q).1 now).0
              ((found_breaker s id q).0.breakers k)
            ≡ some (if same k id then (Breaker.allow b now).0 else b)
      elsewhere none p = rw p h
      elsewhere (some c) p = rw p h

  begin_ask-breakers :
      (s : System V) (t : Option Target) (d : Bool) (now : ℤ) (k : Str) (b : CircuitBreaker)
      → same k [] ≡ false
      → s.breakers k ≡ some b
      → (begin_ask s t d now).0.breakers k
        ≡ some (if same k (id_of_target s.actors t) then step b (allows now) else b)
  unfolding begin_ask breaker_for
  begin_ask-breakers s none d now k b named h =
      begun_with-breakers [] k d now (s, none)
      ∙ h
      ∙ ap (λ c. some (if c then step b (allows now) else b)) (sym named)
  begin_ask-breakers s (some t) d now k b named h =
      let id = target_id s.actors t in
      begun_with-breakers id k d now (breaker_for s (some t)) ∙ elim (Bool-cases (same id [])) [
        | inl p ↦
            let other : same k id ≡ false = ap (same k) (same-eq id [] p) ∙ named in
            ap
              (λ c.
                let q = if c then (s, none) else found_breaker s id (s.breakers id) in
                written_at (same k id) (allowed q.1 now).0 (q.0.breakers k))
              p
            ∙ h
            ∙ ap (λ c. some (if c then step b (allows now) else b)) (sym other)
        | inr p ↦
            ap
              (λ c.
                let q = if c then (s, none) else found_breaker s id (s.breakers id) in
                written_at (same k id) (allowed q.1 now).0 (q.0.breakers k))
              p
            ∙ found_breaker-at s id k b now (s.breakers id) h refl
      ]

  pub end_ask-breakers :
      (s : System V) (t : Option Target) (r : Option (Reply V)) (now latency : ℤ) (k : Str)
      (b : CircuitBreaker)
      → same k [] ≡ false
      → s.breakers k ≡ some b
      → (end_ask s t r now latency).0.breakers k
        ≡ some (if same k (id_of_target s.actors t) then step b (call_of (answer_of r) now) else b)
  unfolding end_ask
  end_ask-breakers s t r now latency k b named h =
      let id = id_of_target s.actors t in
      put_breaker-at s.breakers id k _
      ∙ ap (λ o. written_at (same k id) o (s.breakers k))
          (ask_end-breaker (record { breaker = held s id; wait_tokens = s.wait_tokens })
            (answer_of r) now)
      ∙ elim (Bool-cases (same k id)) [
        | inl p ↦
            let it : held s id ≡ some b =
              ap (held s) (sym (same-eq k id p))
              ∙ ap (λ c. if c then none else s.breakers k) named
              ∙ h in
            ap (λ o. written_at (same k id) (reported (answer_of r) now o) (s.breakers k)) it
            ∙ ap (λ o. written_at (same k id) o (s.breakers k)) (reported-step (answer_of r) now b)
            ∙ rw p refl
        | inr p ↦
            ap (λ c. written_at c (reported (answer_of r) now (held s id)) (s.breakers k)) p
            ∙ written_elsewhere (reported (answer_of r) now (held s id)) (s.breakers k)
            ∙ h
            ∙ ap (λ c. some (if c then step b (call_of (answer_of r) now) else b)) (sym p)
      ]

  begin_ask-actors :
      (s : System V) (t : Option Target) (d : Bool) (now : ℤ)
      → (begin_ask s t d now).0.actors ≡ s.actors
  unfolding begin_ask
  begin_ask-actors s t d now = breaker_for-actors s t

  pub end_ask-actors :
      (s : System V) (t : Option Target) (r : Option (Reply V)) (now latency : ℤ)
      → (end_ask s t r now latency).0.actors ≡ s.actors
  unfolding end_ask
  end_ask-actors s t r now latency = refl

  pub run_asks-actors : (es : List (AskEvent V)) (s : System V) → (run_asks s es).actors ≡ s.actors
  unfolding run_asks
  run_asks-actors [] s = refl
  run_asks-actors (begins t d now ∷ es) s =
      run_asks-actors es (begin_ask s t d now).0 ∙ begin_ask-actors s t d now
  run_asks-actors (ends t r now latency ∷ es) s =
      run_asks-actors es (end_ask s t r now latency).0 ∙ end_ask-actors s t r now latency

  -- An id has a breaker. Any requests begin and end, to any targets, in any order. Then its breaker is
  -- what its own calls make of it: the `Allow` of each request to a target with this id, and the
  -- `OnSuccess` or `OnFailure` of each of them that ends, in their order; requests to other targets
  -- do not touch it.
  pub breaker_per_target :
      (s : System V) (es : List (AskEvent V)) (id : Str) (b : CircuitBreaker)
      → same id [] ≡ false
      → s.breakers id ≡ some b
      → (run_asks s es).breakers id ≡ some (Breaker.run b (calls_on s.actors id es))
  unfolding run_asks Breaker.run
  breaker_per_target s [] id b named h = h
  breaker_per_target s (begins t d now ∷ es) id b named h =
      let c = same id (id_of_target s.actors t) in
      breaker_per_target (begin_ask s t d now).0 es id (if c then step b (allows now) else b) named
        (begin_ask-breakers s t d now id b named h)
      ∙ ap
          (λ actors.
            some (Breaker.run (if c then step b (allows now) else b) (calls_on actors id es)))
          (begin_ask-actors s t d now)
      ∙ ap some (run-if c b (allows now) (calls_on s.actors id es))
  breaker_per_target s (ends t r now latency ∷ es) id b named h =
      let c = same id (id_of_target s.actors t) in
      let call = call_of (answer_of r) now in
      breaker_per_target (end_ask s t r now latency).0 es id (if c then step b call else b) named
        (end_ask-breakers s t r now latency id b named h)
      ∙ ap (λ actors. some (Breaker.run (if c then step b call else b) (calls_on actors id es)))
          (end_ask-actors s t r now latency)
      ∙ ap some (run-if c b call (calls_on s.actors id es))
