-- ===== src/Session/Heap.antt =====
-- container/heap of Go's standard library, on a slice whose entries are compared by a number, as
-- internal/session/ordered_queue.go uses it for MessageQueue. An index out of range would panic;
-- none is reached, and the definitions leave the slice as it is there.
pub mod Slice
pub mod Up
pub mod Down
pub mod Count
pub mod Laws
use gateway_test.Prelude.{
  ℕ, zero, suc, ◌+◌, ◌-◌, ◌*◌, ◌/◌, refl, not, ◌&&◌, ◌||◌, Option, none, some, List, [], ◌∷◌, ◌++◌,
  arith, ltb, leb, eqb, if◌then◌else◌, nat_eq, string_eq, length, get_elem?, set, take,
}

module _ {ℓ} {A : Type ℓ} where
  swap_found : List A → ℕ → ℕ → Option A → Option A → List A
  swap_found xs i j (some x) (some y) = set (set xs i y) j x
  swap_found xs i j _ _ = xs

  -- `mq[i], mq[j] = mq[j], mq[i]`
  unfoldable pub swap : List A → ℕ → ℕ → List A
  unfolding swap_found
  swap xs i j = swap_found xs i j (get_elem? xs i) (get_elem? xs j)

  abbrev key_of : (A → ℕ) → Option A → ℕ
  key_of key none = 0
  key_of key (some x) = key x

  -- The number by which entry `i` is compared.
  abbrev pub key_at : (A → ℕ) → List A → ℕ → ℕ
  key_at key xs i = key_of key (get_elem? xs i)

  -- `up`: the loop moves entry `j` towards the root.
  pub up : (A → ℕ) → ℕ → List A → ℕ → List A
  up key zero xs j = xs
  up key (suc fuel) xs j =
      let i = (j - 1) / 2 in
      let rest = up key fuel (swap xs i j) i in
      if eqb i j || not (ltb (key_at key xs j) (key_at key xs i)) then xs else rest

  -- The child of `i` with the lower number; the right one counts only below `n`.
  pub lower_child : (A → ℕ) → List A → ℕ → ℕ → ℕ
  lower_child key xs i n =
      let j1 = 2 * i + 1 in
      let j2 = j1 + 1 in if ltb j2 n && ltb (key_at key xs j2) (key_at key xs j1) then j2 else j1

  -- `down`: the loop moves entry `i` towards the leaves among the first `n` entries.
  pub down : (A → ℕ) → ℕ → List A → ℕ → ℕ → List A
  unfolding lower_child
  down key zero xs i n = xs
  down key (suc fuel) xs i n =
      let j = lower_child key xs i n in
      let rest = down key fuel (swap xs i j) j n in
      if leb n (2 * i + 1)
      then xs
      else if not (ltb (key_at key xs j) (key_at key xs i))
      then xs
      else rest

  -- `for i := n/2 - 1; i >= 0; i-- { down(h, i, n) }`, with `k` rounds left.
  pub init_loop : (A → ℕ) → ℕ → ℕ → List A → List A
  unfolding down
  init_loop key n zero xs = xs
  init_loop key n (suc i) xs = init_loop key n i (down key n xs i n)

  unfoldable pub heap_init : (A → ℕ) → List A → List A
  unfolding init_loop
  heap_init key xs = init_loop key (length xs) (length xs / 2) xs

  unfoldable pub heap_push : (A → ℕ) → A → List A → List A
  unfolding up swap
  heap_push key x xs = up key (length xs + 1) (xs ++ x ∷ []) (length xs)

  -- `item := old[n-1]; *mq = old[0 : n-1]` after the root went to the end.
  pop_last : List A → ℕ → Option (A × List A)
  pop_last xs n = elim (get_elem? xs n) [ none ↦ none | some x ↦ some (x, take n xs) ]

  unfoldable pub heap_pop : (A → ℕ) → List A → Option (A × List A)
  unfolding down swap pop_last
  heap_pop key [] = none
  heap_pop key (x ∷ xs) = let n = length xs in pop_last (down key n (swap (x ∷ xs) 0 n) 0 n) n

abbrev pub parent : ℕ → ℕ
parent c = (c - 1) / 2
