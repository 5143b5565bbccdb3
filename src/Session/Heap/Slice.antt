-- ===== src/Session/Heap/Slice.antt =====
-- Reading, writing and swapping entries of a slice.
use mathlib.Core.List.Perm
use mathlib.Core.List.{Perm, Permᴰ}
use mathlib.Core.Logic.{∥∥₁_elim}
use native.Mathlib.Nat.{ℕ_set}
use gateway_test.Prelude.{
  ℕ, zero, suc, ◌<◌, ◌≡◌, refl, ap, ◌∙◌, inl, inr, some, List, [], ◌∷◌, arith, eqb, if◌then◌else◌,
  Option-cases, nat_eq, string_eq, length, get_elem?, set, length-set,
}
use gateway_test.Session.Heap.{swap, key_at}

module _ {ℓ} {A : Type ℓ} where
  pub get_elem?-set :
      (xs : List A) (i j : ℕ) (v : A)
      → i < length xs
      → get_elem? (set xs i v) j ≡ (if eqb i j then some v else get_elem? xs j)
  get_elem?-set [] i j v h = absurd (omega arith)
  get_elem?-set (x ∷ xs) zero zero v h = refl
  get_elem?-set (x ∷ xs) zero (suc j) v h = ground arith
  get_elem?-set (x ∷ xs) (suc i) zero v h = ground arith
  get_elem?-set (x ∷ xs) (suc i) (suc j) v h = ground (arith, get_elem?-set xs i j v)

  pub get_elem?_inside : (xs : List A) (i : ℕ) → i < length xs → (x : A) × (get_elem? xs i ≡ some x)
  get_elem?_inside [] i h = absurd (omega arith)
  get_elem?_inside (x ∷ xs) zero h = (x, refl)
  get_elem?_inside (x ∷ xs) (suc i) h = get_elem?_inside xs i (omega arith)

  pub length-swap : (xs : List A) (i j : ℕ) → length (swap xs i j) ≡ length xs
  unfolding swap
  length-swap xs i j = elim (Option-cases (get_elem? xs i)) [
    | inl e ↦ rw (e, swap)
    | inr (x, e) ↦ elim (Option-cases (get_elem? xs j)) [
      | inl f ↦ rw (e, f, swap)
      | inr (y, f) ↦ rw (e, f, swap) (length-set (set xs i y) j x ∙ length-set xs i y)
    ]
  ]

  module _ (xs : List A) (i j : ℕ) (hi : i < length xs) (hj : j < length xs) where
    pub get_elem?-swap :
        (c : ℕ)
        → get_elem? (swap xs i j) c
          ≡ (if eqb j c then get_elem? xs i else if eqb i c then get_elem? xs j else get_elem? xs c)
    unfolding swap
    get_elem?-swap c =
        let (x, e) = get_elem?_inside xs i hi in
        let (y, f) = get_elem?_inside xs j hj in
        ground (arith, get_elem?-set (set xs i y) j c x, get_elem?-set xs i c y, length-set xs i y)

    pub key_at-swap :
        (key : A → ℕ) (c : ℕ)
        → key_at key (swap xs i j) c ≡ (
            if eqb j c
            then key_at key xs i
            else if eqb i c
            then key_at key xs j
            else key_at key xs c)
    key_at-swap key c = ground (arith, get_elem?-swap c)

  -- A write trades the old entry for the new one.
  set-trade :
      (xs : List A) (i : ℕ) (old new : A)
      → get_elem? xs i ≡ some old
      → Perm (old ∷ set xs i new) (new ∷ xs)
  set-trade [] i old new e = cc
  set-trade (x ∷ xs) zero old new e =
      let same : x ≡ old = ground arith in rw (← same) (Perm.swap new x xs)
  set-trade (x ∷ xs) (suc i) old new e =
      Perm.trans (Perm.swap x old (set xs i new))
        (Perm.trans (Perm.cons x (set-trade xs i old new e)) (Perm.swap new x xs))

  inside_of_some : (xs : List A) (i : ℕ) (x : A) → get_elem? xs i ≡ some x → i < length xs
  inside_of_some [] i x e = cc
  inside_of_some (y ∷ xs) zero x e = omega arith
  inside_of_some (y ∷ xs) (suc i) x e = omega (arith, inside_of_some xs i x e)

  swap_found-perm :
      (xs : List A) (i j : ℕ) (x y : A)
      → get_elem? xs i ≡ some x
      → get_elem? xs j ≡ some y
      → Perm (set (set xs i y) j x) xs
  swap_found-perm xs i j x y e f =
      let held : get_elem? (set xs i y) j ≡ some y =
        ground (arith, get_elem?-set xs i j y, inside_of_some xs i x e) in
      Perm.cons_inv (Perm.trans (set-trade (set xs i y) j y x held) (set-trade xs i x y e))

  pub swap-perm : (xs : List A) (i j : ℕ) → Perm (swap xs i j) xs
  unfolding swap
  swap-perm xs i j = elim (Option-cases (get_elem? xs i)) [
    | inl e ↦ rw (e, swap) Perm.rfl
    | inr (x, e) ↦ elim (Option-cases (get_elem? xs j)) [
      | inl f ↦ rw (e, f, swap) Perm.rfl
      | inr (y, f) ↦ rw (e, f, swap) (swap_found-perm xs i j x y e f)
    ]
  ]

  Permᴰ-length : {xs ys : List A} → Permᴰ xs ys → length xs ≡ length ys
  Permᴰ-length (Permᴰ.trans left right) = Permᴰ-length left ∙ Permᴰ-length right
  Permᴰ-length (Permᴰ.swap x y) = refl
  Permᴰ-length (Permᴰ.cons x same) = ap suc (Permᴰ-length same)
  Permᴰ-length Permᴰ.nil = refl

  pub length-perm : {xs ys : List A} → Perm xs ys → length xs ≡ length ys
  length-perm p = ∥∥₁_elim p (ℕ_set _ _) Permᴰ-length
