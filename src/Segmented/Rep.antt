-- ===== src/Segmented/Rep.antt =====
-- What a queue of mailbox/segmented.go holds: the items of each segment from `head` to `tail`.
use deqin_actor.Base.{
  ℕ, suc, ◌+◌, ◌≤◌, ◌<◌, ◌≡◌, ◌≢◌, refl, sym, ap, ◌∙◌, arith, none, some, List, [], ◌∷◌, ◌++◌,
  append-nil, append_assoc, length, length-append,
}
use deqin_actor.Base.Int.{two64}
use deqin_actor.Ring.{Ring}
use deqin_actor.Ring.Rep.{Holds}
use deqin_actor.Ring.Refine.{Sized}
use deqin_actor.Segmented.{Segment, SegmentedQueue, update}

-- `p` are the items of the first segment, `ps` those of the segments after it.
abbrev pub contents {ℓ} : {A : Type ℓ} → List A → List (List A) → List A
contents p [] = p
contents p (p' ∷ ps) = p ++ contents p' ps

abbrev pub last_part {ℓ} : {A : Type ℓ} → List A → List (List A) → List A
last_part p [] = p
last_part p (p' ∷ ps) = last_part p' ps

abbrev pub push_first {ℓ} : {A : Type ℓ} → List A → List (List A) → A → List A
push_first p [] v = p ++ v ∷ []
push_first p (p' ∷ ps) v = p

abbrev pub push_rest {ℓ} : {A : Type ℓ} → List A → List (List A) → A → List (List A)
push_rest p [] v = []
push_rest p (p' ∷ ps) v = push_first p' ps v ∷ push_rest p' ps v

module _ {ℓ} {A : Type ℓ} where
  abbrev pub HoldsPart : ℕ → List A → Ring A → Type ℓ
  HoldsPart bits items r = (base : ℕ) × Holds bits base items r

  abbrev pub Chain : ℕ → (ℕ → Segment A) → ℕ → List A → List (List A) → Type ℓ
  Chain bits store a p [] = HoldsPart bits p (store a).q × ((store a).next ≡ none)
  Chain bits store a p (p' ∷ ps) =
      HoldsPart bits p (store a).q
      × ((store a).next ≡ some (suc a))
      × Chain bits store (suc a) p' ps

  pub record Rep (bits : ℕ) (p : List A) (ps : List (List A)) (q : SegmentedQueue A) : Type ℓ where
    pub chain : Chain bits q.store q.head p ps
    pub tail_at : q.tail ≡ q.head + length ps
    pub fresh : q.allocated ≡ suc q.tail
    pub sized : Sized q.seg_cap bits
    pub counted : q.segs ≡ length ps + 1
    pub limit : q.segs ≤ q.max_seg
    pub word : q.max_seg < two64

  pub contents-push :
      (p : List A) (ps : List (List A)) (v : A)
      → contents (push_first p ps v) (push_rest p ps v) ≡ contents p ps ++ v ∷ []
  contents-push p [] v = refl
  contents-push p (p' ∷ ps) v =
      ap (λ t. p ++ t) (contents-push p' ps v) ∙ sym (append_assoc p (contents p' ps) (v ∷ []))

  pub length-push_rest :
      (p : List A) (ps : List (List A)) (v : A) → length (push_rest p ps v) ≡ length ps
  length-push_rest p [] v = refl
  length-push_rest p (p' ∷ ps) v = ap suc (length-push_rest p' ps v)

  pub contents-link : (p : List A) (ps : List (List A)) → contents p (ps ++ [] ∷ []) ≡ contents p ps
  contents-link p [] = append-nil p
  contents-link p (p' ∷ ps) = ap (λ t. p ++ t) (contents-link p' ps)

  pub length-last_part-le :
      (p : List A) (ps : List (List A)) → length (last_part p ps) ≤ length (contents p ps)
  length-last_part-le p [] = omega arith
  length-last_part-le p (p' ∷ ps) =
      omega (arith, length-append p (contents p' ps), length-last_part-le p' ps)

  pub last_part-link : (p : List A) (ps : List (List A)) → last_part p (ps ++ [] ∷ []) ≡ []
  last_part-link p [] = refl
  last_part-link p (p' ∷ ps) = last_part-link p' ps

  -- The last segment of a chain.
  pub Chain-last :
      (bits : ℕ) (store : ℕ → Segment A) (a t : ℕ) (p : List A) (ps : List (List A))
      → t ≡ a + length ps
      → Chain bits store a p ps
      → HoldsPart bits (last_part p ps) (store t).q × ((store t).next ≡ none)
  Chain-last bits store a t p [] e c = rw (at_start e) c
    where
      at_start : t ≡ a + 0 → t ≡ a
      at_start e = omega arith
  Chain-last bits store a t p (p' ∷ ps) e c =
      Chain-last bits store (suc a) t p' ps (omega arith) c.2

  -- A chain depends on its own addresses alone.
  pub Chain-frame :
      (bits : ℕ) (store store' : ℕ → Segment A) (a : ℕ) (p : List A) (ps : List (List A))
      → ((b : ℕ) → a ≤ b → b ≤ a + length ps → store' b ≡ store b)
      → Chain bits store a p ps
      → Chain bits store' a p ps
  Chain-frame bits store store' a p [] same c = rw (same a (omega arith) (omega arith)) c
  Chain-frame bits store store' a p (p' ∷ ps) same c =
      let e = same a (omega arith) (omega arith) in
      (
        rw e c.0,
        rw e c.1,
        Chain-frame bits store store' (suc a) p' ps (λ b h h'. same b (omega arith) (omega arith))
            c.2,
      )

  pub update-ne :
      (store : ℕ → Segment A) (a b : ℕ) (s : Segment A) → a ≢ b → update store a s b ≡ store b
  update-ne store a b s h = ground arith

  pub update_self : (store : ℕ → Segment A) (a : ℕ) (s : Segment A) → update store a s a ≡ s
  update_self store a s = ground arith
