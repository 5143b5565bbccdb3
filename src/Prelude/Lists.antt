-- ===== src/Prelude/Lists.antt =====
-- Lists measured and indexed by native numbers, under the library's names.
use Prim.Native.Nat.{ℕ, zero, suc, ◌+◌, ◌≤◌}
use mathlib.Core.Path.{◌≡◌, refl, ap}
use mathlib.Core.Bool.{Bool}
use mathlib.Core.List.{List, [], ◌∷◌, ◌++◌}
use mathlib.Core.Option.{Option, none, some}
use native.Mathlib.Omega.{arith}
use gateway_test.Prelude.Tests.{if◌then◌else◌}

module _ {ℓ} {A : Type ℓ} where
  abbrev pub length : List A → ℕ
  length [] = 0
  length (_ ∷ rest) = suc (length rest)

  abbrev pub drop : ℕ → List A → List A
  drop zero xs = xs
  drop (suc n) [] = []
  drop (suc n) (_ ∷ rest) = drop n rest

  abbrev pub replicate : ℕ → A → List A
  replicate zero a = []
  replicate (suc n) a = a ∷ replicate n a

  abbrev pub get_elem? : List A → ℕ → Option A
  get_elem? [] _ = none
  get_elem? (x ∷ rest) zero = some x
  get_elem? (_ ∷ rest) (suc k) = get_elem? rest k

  -- The entries that pass a test, in their order.
  abbrev pub select : (A → Bool) → List A → List A
  select p [] = []
  select p (x ∷ xs) = let rest = select p xs in if p x then x ∷ rest else rest

  -- A write out of bounds changes nothing.
  abbrev pub set : List A → ℕ → A → List A
  set [] _ new = []
  set (_ ∷ rest) zero new = new ∷ rest
  set (x ∷ rest) (suc k) new = x ∷ set rest k new

  abbrev pub take : ℕ → List A → List A
  take zero _ = []
  take (suc n) [] = []
  take (suc n) (x ∷ rest) = x ∷ take n rest

  pub length-append : (xs ys : List A) → length (xs ++ ys) ≡ length xs + length ys
  length-append [] ys = omega arith
  length-append (x ∷ xs) ys = omega (arith, length-append xs ys)

  pub length_zero : (xs : List A) → length xs ≡ 0 → xs ≡ []
  length_zero [] e = refl
  length_zero (x ∷ xs) e = absurd (omega arith)

  pub length-set : (xs : List A) (i : ℕ) (v : A) → length (set xs i v) ≡ length xs
  length-set [] i v = refl
  length-set (x ∷ xs) zero v = refl
  length-set (x ∷ xs) (suc i) v = ap suc (length-set xs i v)

  pub length-select-le : (p : A → Bool) (xs : List A) → length (select p xs) ≤ length xs
  length-select-le p [] = omega arith
  length-select-le p (x ∷ xs) = ground (arith, length-select-le p xs)

  pub select-append :
      (p : A → Bool) (xs ys : List A) → select p (xs ++ ys) ≡ select p xs ++ select p ys
  select-append p [] ys = refl
  select-append p (x ∷ xs) ys = ground (arith, select-append p xs ys)

-- A property of every entry, which computes to a tuple.
abbrev pub All {ℓ κ} : {A : Type ℓ} → (A → Type κ) → List A → Type κ
All holds [] = Unit
All holds (x ∷ xs) = holds x × All holds xs

module _ {ℓ κ} {A : Type ℓ} (P : A → Type κ) where
  pub All-append : (xs ys : List A) → All P xs → All P ys → All P (xs ++ ys)
  All-append [] ys h k = k
  All-append (x ∷ xs) ys h k = (h.0, All-append xs ys h.1 k)

  pub All-select : (p : A → Bool) (xs : List A) → All P xs → All P (select p xs)
  All-select p [] h = tt
  All-select p (x ∷ xs) h = ground (arith, All-select p xs h.1)

pub All-map {ℓ κ κ'} :
    {A : Type ℓ} (P : A → Type κ) (Q : A → Type κ')
    → ((a : A) → P a → Q a)
    → (xs : List A) → All P xs
    → All Q xs
All-map P Q f [] h = tt
All-map P Q f (x ∷ xs) h = (f x h.0, All-map P Q f xs h.1)
