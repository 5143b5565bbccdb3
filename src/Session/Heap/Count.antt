-- ===== src/Session/Heap/Count.antt =====
-- How often a number occurs in a slice: what the order of the entries does not change.
use gateway_test.Prelude.{
  ℕ, suc, ◌+◌, ◌<◌, ◌≡◌, refl, ap, ◌∙◌, inl, inr, Bool, true, List, [], ◌∷◌, arith, eqb,
  if◌then◌else◌, Bool-cases, nat_eq, string_eq, length, select,
}
use mathlib.Core.List.{Perm, Permᴰ}
use mathlib.Core.Logic.{∥∥₁_elim}
use native.Mathlib.Nat.{ℕ_set}
use gateway_test.Session.Heap.{key_at}

module _ {ℓ} {A : Type ℓ} (key : A → ℕ) where
  abbrev pub count : ℕ → List A → ℕ
  count k [] = 0
  count k (x ∷ xs) = let rest = count k xs in if eqb (key x) k then rest + 1 else rest

  count-permᴰ : (k : ℕ) {xs ys : List A} → Permᴰ xs ys → count k xs ≡ count k ys
  count-permᴰ k Permᴰ.nil = refl
  count-permᴰ k (Permᴰ.cons e p) = ground (arith, ap key e, count-permᴰ k p)
  count-permᴰ k (Permᴰ.swap d e) = ground (arith, ap key d, ap key e)
  count-permᴰ k (Permᴰ.trans p q) = count-permᴰ k p ∙ count-permᴰ k q

  pub count-perm : (k : ℕ) {xs ys : List A} → Perm xs ys → count k xs ≡ count k ys
  count-perm k p = ∥∥₁_elim p (ℕ_set _ _) (count-permᴰ k)

  pub count_index :
      (k : ℕ) (xs : List A) → 0 < count k xs → (i : ℕ) × (i < length xs) × (key_at key xs i ≡ k)
  count_index k [] h = absurd (omega arith)
  count_index k (x ∷ xs) h = elim (Bool-cases (eqb (key x) k)) [
    | inl here ↦ (0, omega arith, ground arith)
    | inr there ↦ let (i, inside, e) = count_index k xs (ground arith) in (suc i, omega arith, e)
  ]

  pub count-select :
      (k : ℕ) (p : A → Bool) (xs : List A)
      → ((x : A) → key x ≡ k → p x ≡ true)
      → count k (select p xs) ≡ count k xs
  count-select k p [] h = refl
  count-select k p (x ∷ xs) h = ground (arith, h x, count-select k p xs h)

  -- With no number anywhere there is no entry.
  pub count_empty : (xs : List A) → ((k : ℕ) → count k xs ≡ 0) → xs ≡ []
  count_empty [] h = refl
  count_empty (x ∷ xs) h = absurd (ground (arith, h (key x)))
