-- ===== src/Segmented/Chains.antt =====
-- How the writes of mailbox/segmented.go change the chain of segments.
use deqin_actor.Base.{ℕ, suc, ◌+◌, ◌≡◌, ◌≢◌, refl, arith, none, some, List, [], ◌∷◌, ◌++◌, length}
use deqin_actor.Ring.{Ring}
use deqin_actor.Segmented.{Segment, update}
use deqin_actor.Segmented.Rep.{
  HoldsPart, Chain, Chain-frame, last_part, push_first, push_rest, update-ne, update_self,
}

module _ {ℓ} {A : Type ℓ} (bits : ℕ) where
  -- A ring in the place of the first one.
  pub Chain-first :
      (store : ℕ → Segment A) (a : ℕ) (p p₂ : List A) (ps : List (List A)) (r : Ring A)
      → HoldsPart bits p₂ r
      → Chain bits store a p ps
      → Chain bits (update store a (record { q = r; next = (store a).next })) a p₂ ps
  Chain-first store a p p₂ [] r h c =
      rw (update_self store a (record { q = r; next = (store a).next })) (h, c.1)
  Chain-first store a p p₂ (p' ∷ ps) r h c =
      let new : Segment A = record { q = r; next = (store a).next } in
      (
        rw (update_self store a new) h,
        rw (update_self store a new) c.1,
        Chain-frame bits store (update store a new) (suc a) p' ps
            (λ b hb hb'. update-ne store a b new (omega arith)) c.2,
      )

  -- The last segment with one more item.
  pub Chain-push :
      (store : ℕ → Segment A) (a t : ℕ) (p : List A) (ps : List (List A)) (v : A) (r : Ring A)
      → t ≡ a + length ps
      → HoldsPart bits (last_part p ps ++ v ∷ []) r
      → Chain bits store a p ps
      → Chain bits
          (update store t (record { q = r; next = (store t).next }))
          a
          (push_first p ps v)
          (push_rest p ps v)
  Chain-push store a t p [] v r e h c =
      rw (at_start e) (Chain-first store a p (p ++ v ∷ []) [] r h c)
    where
      at_start : t ≡ a + 0 → t ≡ a
      at_start e = omega arith
  Chain-push store a t p (p' ∷ ps) v r e h c =
      rw (update-ne store t a (record { q = r; next = (store t).next }) (later e))
        (c.0, c.1, Chain-push store (suc a) t p' ps v r (omega arith) h c.2)
    where
      later : t ≡ a + suc (length ps) → t ≢ a
      later e = omega arith

  -- The store with a new segment at `n`, linked behind the one at `t`.
  abbrev pub linked : (ℕ → Segment A) → ℕ → ℕ → Ring A → ℕ → Segment A
  linked store t n r =
      update (update store t (record { q = (store t).q; next = some n })) n
        (record { q = r; next = none })

  linked-below :
      (store : ℕ → Segment A) (t n : ℕ) (r : Ring A) (b : ℕ)
      → b ≢ t
      → b ≢ n
      → linked store t n r b ≡ store b
  linked-below store t n r b h h' = ground arith

  linked_old :
      (store : ℕ → Segment A) (t n : ℕ) (r : Ring A) (a : ℕ)
      → t ≡ a
      → n ≡ suc a
      → linked store t n r a ≡ record { q = (store a).q; next = some (suc a) }
  linked_old store t n r a e e' = rw (e, e') (ground arith)

  linked_new :
      (store : ℕ → Segment A) (t n : ℕ) (r : Ring A) (b : ℕ)
      → n ≡ b
      → linked store t n r b ≡ record { q = r; next = none }
  linked_new store t n r b e = rw e (ground arith)

  -- One more segment, empty.
  pub Chain-link :
      (store : ℕ → Segment A) (a t n : ℕ) (p : List A) (ps : List (List A)) (r : Ring A)
      → t ≡ a + length ps
      → n ≡ suc t
      → HoldsPart bits [] r
      → Chain bits store a p ps
      → Chain bits (linked store t n r) a p (ps ++ [] ∷ [])
  Chain-link store a t n p [] r e e' h c =
      rw
        (
          linked_old store t n r a (omega arith) (omega arith),
          linked_new store t n r (suc a) (omega arith),
        )
        (c.0, refl, (h, refl))
  Chain-link store a t n p (p' ∷ ps) r e e' h c =
      rw (linked-below store t n r a (omega arith) (omega arith))
        (c.0, c.1, Chain-link store (suc a) t n p' ps r (omega arith) e' h c.2)
