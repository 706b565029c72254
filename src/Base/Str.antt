-- ===== src/Base/Str.antt =====
-- Go strings, as the lists of their bytes, and the maps that they index.
use deqin_actor.Base.{
  ℕ, ◌≡◌, ◌≢◌, inl, inr, refl, ap₂, arith, if◌then◌else◌, ◌==◌, Bool-cases, Bool, true, false,
  Option, none, some, List, [], ◌∷◌, ℕ_discrete,
}

abbrev pub Str : Type 0
Str = List ℕ

abbrev pub same : Str → Str → Bool
same [] [] = true
same [] (y ∷ t) = false
same (x ∷ s) [] = false
same (x ∷ s) (y ∷ t) = if x == y then same s t else false

pub same_self : (s : Str) → same s s ≡ true
same_self [] = refl
same_self (x ∷ s) = ground (arith, same_self s)

pub same-eq : (s t : Str) → same s t ≡ true → s ≡ t
same-eq [] [] e = refl
same-eq (x ∷ s) (y ∷ t) e = elim (ℕ_discrete x y) [
  | yes p ↦ ap₂ (λ a b. a ∷ b) p (same-eq s t (ground arith))
  | no n ↦ absurd (ground arith)
]
same-eq [] (y ∷ t) e = ground arith
same-eq (x ∷ s) [] e = ground arith

pub same-ne : (s t : Str) → s ≢ t → same s t ≡ false
same-ne s t n = elim (Bool-cases (same s t)) [ inl e ↦ absurd (n (same-eq s t e)) | inr e ↦ e ]

module _ {ℓ} {A : Type ℓ} where
  -- `m[k] = v`
  abbrev pub put_key : (Str → Option A) → Str → A → Str → Option A
  put_key m k v k' = if same k' k then some v else m k'

  -- `delete(m, k)`
  abbrev pub delete_key : (Str → Option A) → Str → Str → Option A
  delete_key m k k' = if same k' k then none else m k'
