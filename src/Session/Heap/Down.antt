-- ===== src/Session/Heap/Down.antt =====
-- Sifting down: one entry that may be too high finds its place.
use gateway_test.Prelude.{
  ℕ, zero, suc, ◌+◌, ◌*◌, ◌≤◌, ◌<◌, ◌≡◌, refl, sym, ◌∙◌, ◌≢◌, ◌⊎◌, inl, inr, not, List, arith, ltb,
  leb, Bool-cases, nat_eq, string_eq, length, get_elem?,
}
use mathlib.Core.List.Perm
use mathlib.Core.List.{Perm}
use gateway_test.Session.Heap.{key_at, parent, lower_child, down, init_loop, swap}
use gateway_test.Session.Heap.Slice.{
  length-swap, key_at-swap, get_elem?-swap, swap-perm, length-perm,
}
use gateway_test.Session.Heap.Up.{IsHeapFrom}

module _ {ℓ} {A : Type ℓ} (key : A → ℕ) where
  -- The heap order from `lo` on, but for the edges from `i` to its children.
  pub record DownInv (lo n : ℕ) (xs : List A) (i : ℕ) : Type 0 where
    pub within : n ≤ length xs
    pub others :
        (c : ℕ)
        → 0 < c
        → c < n
        → lo ≤ parent c
        → parent c ≢ i
        → key_at key xs (parent c) ≤ key_at key xs c
    pub across :
        (c : ℕ)
        → 0 < c
        → c < n
        → parent c ≡ i
        → 0 < i
        → lo ≤ parent i
        → key_at key xs (parent i) ≤ key_at key xs c

  record IsLowerChild (n : ℕ) (xs : List A) (i j : ℕ) : Type 0 where
    below : j < n
    child : (j ≡ 2 * i + 1) ⊎ (j ≡ 2 * i + 2)
    lowest : (c : ℕ) → 0 < c → c < n → parent c ≡ i → key_at key xs j ≤ key_at key xs c

  lower_child-IsLowerChild :
      (n : ℕ) (xs : List A) (i : ℕ) → 2 * i + 1 < n → IsLowerChild n xs i (lower_child key xs i n)
  unfolding lower_child
  lower_child-IsLowerChild n xs i h = grind arith

  DownInv-swap :
      (lo n : ℕ) (xs : List A) (i j : ℕ)
      → DownInv lo n xs i
      → IsLowerChild n xs i j
      → key_at key xs j < key_at key xs i
      → DownInv lo n (swap xs i j) j
  DownInv-swap lo n xs i j v m below =
      let now = key_at-swap xs i j (omega arith) (omega (arith, m.below)) key in
      record {
        within = omega (arith, length-swap xs i j);
        others = λ c p q r d.
            ground
              (arith, now c, now (parent c), v.others c, v.across j, m.lowest c, m.child, m.below);
        across = λ c p q r s t. ground (arith, now c, now (parent j), v.others c, m.child);
      }

  pub down-perm : (fuel : ℕ) (xs : List A) (i n : ℕ) → Perm (down key fuel xs i n) xs
  unfolding down
  down-perm zero xs i n = Perm.rfl
  down-perm (suc fuel) xs i n =
      let j = lower_child key xs i n in
      elim (Bool-cases (leb n (2 * i + 1))) [
        | inl leaf ↦ rw leaf Perm.rfl
        | inr inner ↦ elim (Bool-cases (not (ltb (key_at key xs j) (key_at key xs i)))) [
          | inl stop ↦ rw (inner, stop) Perm.rfl
          | inr go ↦
              rw (inner, go) (Perm.trans (down-perm fuel (swap xs i j) j n) (swap-perm xs i j))
        ]
      ]

  pub down-order :
      (fuel lo : ℕ) (xs : List A) (i n : ℕ)
      → n ≤ fuel + i
      → DownInv lo n xs i
      → IsHeapFrom key lo n (down key fuel xs i n)
  unfolding down
  down-order zero lo xs i n f v = λ c p q r. v.others c p q r (omega arith)
  down-order (suc fuel) lo xs i n f v =
      let j = lower_child key xs i n in
      elim (Bool-cases (leb n (2 * i + 1))) [
        | inl leaf ↦ rw leaf (λ c p q r. v.others c p q r (ground arith))
        | inr inner ↦
            let m = lower_child-IsLowerChild n xs i (ground arith) in
            elim (Bool-cases (not (ltb (key_at key xs j) (key_at key xs i)))) [
              | inl stop ↦ rw (inner, stop) (λ c p q r. ground (arith, v.others c, m.lowest c))
              | inr go ↦
                  rw (inner, go)
                    (down-order fuel lo (swap xs i j) j n (ground (arith, m.child))
                      (DownInv-swap lo n xs i j v m (ground arith)))
            ]
      ]

  -- What stands at `n` or later is left alone.
  pub get_elem?-down :
      (fuel : ℕ) (xs : List A) (i n c : ℕ)
      → n ≤ length xs
      → n ≤ c
      → get_elem? (down key fuel xs i n) c ≡ get_elem? xs c
  unfolding down
  get_elem?-down zero xs i n c h k = refl
  get_elem?-down (suc fuel) xs i n c h k =
      let j = lower_child key xs i n in
      elim (Bool-cases (leb n (2 * i + 1))) [
        | inl leaf ↦ rw leaf
        | inr inner ↦
            let m = lower_child-IsLowerChild n xs i (ground arith) in
            elim (Bool-cases (not (ltb (key_at key xs j) (key_at key xs i)))) [
              | inl stop ↦ rw (inner, stop)
              | inr go ↦
                  rw (inner, go)
                    (get_elem?-down fuel (swap xs i j) j n c (omega (arith, length-swap xs i j)) k
                      ∙ ground (
                        arith,
                        m.child,
                        m.below,
                        get_elem?-swap xs i j (omega (arith, m.child, m.below))
                            (omega (arith, m.below)) c,
                      ))
            ]
      ]

  -- Each round of `Init` orders one more parent.
  pub init_loop-order :
      (k : ℕ) (xs : List A) (n : ℕ)
      → n ≡ length xs
      → IsHeapFrom key k n xs
      → IsHeapFrom key 0 n (init_loop key n k xs)
  unfolding init_loop
  init_loop-order zero xs n e h = h
  init_loop-order (suc k) xs n e h =
      init_loop-order k (down key n xs k n) n (e ∙ sym (length-perm (down-perm n xs k n))) (
        down-order n k xs k n (omega arith) (record {
          within = omega arith;
          others = λ c p q r d. h c p q (omega arith);
          across = λ c p q r s t. absurd (omega arith);
        }))

  pub init_loop-perm : (k : ℕ) (xs : List A) (n : ℕ) → Perm (init_loop key n k xs) xs
  unfolding init_loop
  init_loop-perm zero xs n = Perm.rfl
  init_loop-perm (suc k) xs n =
      Perm.trans (init_loop-perm k (down key n xs k n) n) (down-perm n xs k n)
