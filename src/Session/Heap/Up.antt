-- ===== src/Session/Heap/Up.antt =====
-- Sifting up: one entry that may be too deep finds its place.
use gateway_test.Prelude.{
  ℕ, zero, suc, ◌≤◌, ◌<◌, ◌≡◌, ◌≢◌, inl, inr, not, ◌||◌, List, arith, ltb, eqb, Bool-cases, nat_eq,
  string_eq, length,
}
use mathlib.Core.List.Perm
use mathlib.Core.List.{Perm}
use gateway_test.Session.Heap.{key_at, parent, up, swap}
use gateway_test.Session.Heap.Slice.{length-swap, key_at-swap, swap-perm}

module _ {ℓ} {A : Type ℓ} (key : A → ℕ) where
  -- Among the first `n` entries, each is at least its parent, if that stands at `lo` or later.
  abbrev pub IsHeapFrom : ℕ → ℕ → List A → Type 0
  IsHeapFrom lo n xs =
      (c : ℕ) → 0 < c → c < n → lo ≤ parent c → key_at key xs (parent c) ≤ key_at key xs c

  -- The heap order, but for the edge from `j` to its parent.
  pub record UpInv (xs : List A) (j : ℕ) : Type 0 where
    pub inside : j < length xs
    pub others :
        (c : ℕ) → 0 < c → c < length xs → c ≢ j → key_at key xs (parent c) ≤ key_at key xs c
    pub across :
        (c : ℕ)
        → 0 < c
        → c < length xs
        → parent c ≡ j
        → 0 < j
        → key_at key xs (parent j) ≤ key_at key xs c

  UpInv-swap :
      (xs : List A) (j : ℕ)
      → UpInv xs j
      → 0 < j
      → key_at key xs j < key_at key xs (parent j)
      → UpInv (swap xs (parent j) j) (parent j)
  UpInv-swap xs j v deep below =
      let now = key_at-swap xs (parent j) j (omega arith) v.inside key in
      let size = length-swap xs (parent j) j in
      record {
        inside = omega arith;
        others = λ c p q d. ground (arith, now c, now (parent c), v.others c, v.across c);
        across = λ c p q r s.
            ground (arith, now c, now (parent (parent j)), v.others c, v.others (parent j));
      }

  pub up-perm : (fuel : ℕ) (xs : List A) (j : ℕ) → Perm (up key fuel xs j) xs
  unfolding up
  up-perm zero xs j = Perm.rfl
  up-perm (suc fuel) xs j =
      elim (Bool-cases
        (eqb (parent j) j || not (ltb (key_at key xs j) (key_at key xs (parent j))))) [
          | inl stop ↦ rw stop Perm.rfl
          | inr go ↦ rw go (
              Perm.trans (up-perm fuel (swap xs (parent j) j) (parent j))
                (swap-perm xs (parent j) j))
        ]

  pub up-order :
      (fuel : ℕ) (xs : List A) (j : ℕ)
      → j < fuel
      → UpInv xs j
      → IsHeapFrom 0 (length xs) (up key fuel xs j)
  unfolding up
  up-order zero xs j f v = absurd (omega arith)
  up-order (suc fuel) xs j f v =
      elim (Bool-cases
        (eqb (parent j) j || not (ltb (key_at key xs j) (key_at key xs (parent j))))) [
          | inl stop ↦ rw stop (λ c p q r. ground (arith, v.others c))
          | inr go ↦
              let step = UpInv-swap xs j v (ground arith) (ground arith) in
              rw go (
                rw (length-swap xs (parent j) j) at
                  (up-order fuel (swap xs (parent j) j) (parent j) (ground arith) step))
        ]
