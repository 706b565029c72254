-- ===== src/Pending/Once.antt =====
-- A request of actor/system.go is completed once.
use deqin_actor.Base.{
  ◌≡◌, inl, inr, refl, sym, ap, ◌∙◌, arith, if◌then◌else◌, Bool-cases, false, Option, none, some,
  List, [], ◌∷◌, ◌++◌,
}
use deqin_actor.Base.Str.{Str, same, same_self, same-eq, same-ne, put_key, delete_key}
use deqin_actor.Pending.{
  Response, timeout_response, completed, complete_future, track_pending, expire,
}

-- A response comes in, or a timer fires.
pub data Event {ℓ} (V : Type ℓ) : Type ℓ where
  responds : Response V → Event V
  expires : Str → Event V

abbrev response_of {ℓ} : {V : Type ℓ} → Event V → Response V
response_of (responds resp) = resp
response_of (expires id) = timeout_response id

abbrev pub first_of {ℓ} : {V : Type ℓ} → Str → List (Event V) → Option (Response V)
first_of id [] = none
first_of id (e ∷ es) =
    if same (response_of e).correlation_id id then some (response_of e) else first_of id es

module _ {F V : Type 0} where
  abbrev fire : (Str → Option F) → Event V → (Str → Option F) × List (F × Response V)
  fire pending (responds resp) = complete_future pending resp
  fire pending (expires id) = expire pending id

  -- The futures that are completed in a history, with their responses.
  unfoldable pub run : (Str → Option F) → List (Event V) → List (F × Response V)
  run pending [] = []
  run pending (e ∷ es) = (fire pending e).1 ++ run (fire pending e).0 es

  -- Those of one correlation id.
  abbrev pub only : Str → List (F × Response V) → List (F × Response V)
  only id [] = []
  only id ((f, resp) ∷ xs) =
      if same resp.correlation_id id then (f, resp) ∷ only id xs else only id xs

  abbrev pub completion : F → Option (Response V) → List (F × Response V)
  completion f none = []
  completion f (some resp) = (f, resp) ∷ []

  fire_lem :
      (pending : Str → Option F) (e : Event V)
      → fire pending e
        ≡ completed pending
            (response_of e).correlation_id
            (response_of e)
            (pending (response_of e).correlation_id)
  unfolding complete_future expire
  fire_lem pending (responds resp) = refl
  fire_lem pending (expires id) = refl

  abbrev after : List (Event V) → (Str → Option F) × List (F × Response V) → List (F × Response V)
  after es p = p.1 ++ run p.0 es

  run-fire :
      (pending : Str → Option F) (e : Event V) (es : List (Event V))
      → run pending (e ∷ es)
        ≡ after es (
            completed pending
              (response_of e).correlation_id
              (response_of e)
              (pending (response_of e).correlation_id))
  unfolding run
  run-fire pending e es = ap (after es) (fire_lem pending e)

  -- An event of another id.
  other_id :
      (pending : Str → Option F) (id : Str) (r : Response V) (o : Option F) (es : List (Event V))
      (xs : List (F × Response V))
      → same r.correlation_id id ≡ false
      → ((p : Str → Option F) → p id ≡ pending id → only id (run p es) ≡ xs)
      → only id (after es (completed pending r.correlation_id r o)) ≡ xs
  other_id pending id r none es xs ne h = h pending refl
  other_id pending id r (some f) es xs ne h = rw ne (h (delete_key pending r.correlation_id) kept)
    where
      kept : delete_key pending r.correlation_id id ≡ pending id
      kept =
          rw
            (same-ne id r.correlation_id
              (λ e. ground (arith, ne, ap (λ s. same s id) (sym e), same_self id)))
            refl

  gone :
      (es : List (Event V)) (pending : Str → Option F) (id : Str)
      → pending id ≡ none
      → only id (run pending es) ≡ []
  unfolding run
  gone [] pending id h = refl
  gone (e ∷ es) pending id h =
      ap (only id) (run-fire pending e es)
      ∙ (elim (Bool-cases (same (response_of e).correlation_id id)) [
        | inl s ↦
            let k : pending (response_of e).correlation_id ≡ none =
              ap pending (same-eq (response_of e).correlation_id id s) ∙ h in
            ap
              (λ o.
                only id
                  (after es (completed pending (response_of e).correlation_id (response_of e) o)))
              k
            ∙ gone es pending id h
        | inr d ↦
            other_id pending id (response_of e) (pending (response_of e).correlation_id) es [] d
              (λ p same_at. gone es p id (same_at ∙ h))
      ])

  tracked :
      (es : List (Event V)) (pending : Str → Option F) (id : Str) (f : F)
      → pending id ≡ some f
      → only id (run pending es) ≡ completion f (first_of id es)
  unfolding run
  tracked [] pending id f h = refl
  tracked (e ∷ es) pending id f h =
      ap (only id) (run-fire pending e es)
      ∙ (elim (Bool-cases (same (response_of e).correlation_id id)) [
        | inl s ↦
            let key = (response_of e).correlation_id in
            let k : pending key ≡ some f = ap pending (same-eq key id s) ∙ h in
            let empty : delete_key pending key id ≡ none =
              ap (λ t. if t then none else pending id)
                (ap (λ t. same id t) (same-eq key id s) ∙ same_self id) in
            ap (λ o. only id (after es (completed pending key (response_of e) o))) k
            ∙ rw s (ap (λ xs. (f, response_of e) ∷ xs) (gone es (delete_key pending key) id empty))
        | inr d ↦
            other_id pending id (response_of e) (pending (response_of e).correlation_id) es
              (completion f (first_of id es)) d (λ p same_at. tracked es p id f (same_at ∙ h))
            ∙ ap (λ b. completion f (if b then some (response_of e) else first_of id es)) (sym d)
      ])

-- Whatever responses come in and timers fire, in any order, a request that is tracked is completed
-- exactly once, with the first response of its correlation id or the timeout that comes before it,
-- and not at all if neither comes.
pub pending_once :
    (F V : Type 0) (pending : Str → Option F) (id : Str) (f : F) (es : List (Event V))
    → only id (run (track_pending pending id f) es) ≡ completion f (first_of id es)
unfolding track_pending
pending_once F V pending id f es =
    tracked es (put_key pending id f) id f
      (ap (λ b. if b then some f else pending id) (same_self id))
