-- ===== src/Session/Heap/Laws.antt =====
-- What Init, Push and Pop promise: the heap order, the same entries, and the least one first.
use gateway_test.Prelude.{
  ℕ, subst, zero, suc, ◌+◌, ◌/◌, ◌≤◌, ◌<◌, ◌≡◌, refl, ap, ◌∙◌, some, List, [], ◌∷◌, ◌++◌, arith,
  nat_eq, string_eq, length, get_elem?, take, length-append, All,
}
use mathlib.Core.List.Perm
use mathlib.Core.List.{Permᴰ, Perm, perm_middle, append-nil}
use gateway_test.Session.Heap.{key_at, parent, down, swap, pop_last, heap_init, heap_push, heap_pop}
use mathlib.Core.Logic.{∥∥₁_elim}
use mathlib.Core.HLevel.{×_prop, Unit-prop}
use gateway_test.Session.Heap.Slice.{
  length-swap, get_elem?-swap, key_at-swap, swap-perm, length-perm,
}
use gateway_test.Session.Heap.Up.{IsHeapFrom, UpInv, up-perm, up-order}
use gateway_test.Session.Heap.Down.{
  down-perm, down-order, get_elem?-down, init_loop-order, init_loop-perm,
}

module _ {ℓ} {A : Type ℓ} where
  append-perm : (xs : List A) (x : A) → Perm (xs ++ x ∷ []) (x ∷ xs)
  append-perm xs x = rw (append-nil xs) at (perm_middle {a = x} xs [])

  get_elem?-append :
      (xs ys : List A) (i : ℕ) → i < length xs → get_elem? (xs ++ ys) i ≡ get_elem? xs i
  get_elem?-append [] ys i h = absurd (omega arith)
  get_elem?-append (x ∷ xs) ys zero h = refl
  get_elem?-append (x ∷ xs) ys (suc i) h = get_elem?-append xs ys i (omega arith)

  get_elem?-take : (n : ℕ) (xs : List A) (i : ℕ) → i < n → get_elem? (take n xs) i ≡ get_elem? xs i
  get_elem?-take zero xs i h = absurd (omega arith)
  get_elem?-take (suc n) [] i h = refl
  get_elem?-take (suc n) (x ∷ xs) zero h = refl
  get_elem?-take (suc n) (x ∷ xs) (suc i) h = get_elem?-take n xs i (omega arith)

  take-append_last :
      (n : ℕ) (xs : List A) (x : A)
      → length xs ≡ suc n
      → get_elem? xs n ≡ some x
      → take n xs ++ x ∷ [] ≡ xs
  take-append_last zero [] x h e = cc
  take-append_last zero (y ∷ []) x h e = ground arith
  take-append_last zero (y ∷ z ∷ xs) x h e = absurd (omega arith)
  take-append_last (suc n) [] x h e = cc
  take-append_last (suc n) (y ∷ xs) x h e = ap (◌∷◌ y) (take-append_last n xs x (omega arith) e)

module _ {ℓ} {A : Type ℓ} (key : A → ℕ) where
  -- The slice is a heap: no entry is below its parent.
  abbrev pub IsHeap : List A → Type 0
  IsHeap xs = IsHeapFrom key 0 (length xs) xs

  pub heap_init-perm : (xs : List A) → Perm (heap_init key xs) xs
  unfolding heap_init
  heap_init-perm xs = init_loop-perm key (length xs / 2) xs (length xs)

  pub heap_init-IsHeap : (xs : List A) → IsHeap (heap_init key xs)
  heap_init-IsHeap xs = rw (length-perm (heap_init-perm xs)) order
    where
      order : IsHeapFrom key 0 (length xs) (heap_init key xs)
      order =
          unfold heap_init in
          init_loop-order key (length xs / 2) xs (length xs) refl (λ c p q r. absurd (omega arith))

  pub heap_init-nil : heap_init key [] ≡ []
  unfolding heap_init
  heap_init-nil = refl

  pub heap_push-perm : (x : A) (xs : List A) → Perm (heap_push key x xs) (x ∷ xs)
  unfolding heap_push
  heap_push-perm x xs =
      Perm.trans (up-perm key (length xs + 1) (xs ++ x ∷ []) (length xs)) (append-perm xs x)

  pub heap_push-IsHeap : (x : A) (xs : List A) → IsHeap xs → IsHeap (heap_push key x xs)
  unfolding heap_push
  heap_push-IsHeap x xs h =
      rw (length-perm (up-perm key (length xs + 1) (xs ++ x ∷ []) (length xs)))
        (up-order key (length xs + 1) (xs ++ x ∷ []) (length xs) (omega arith) start)
    where
      size : length (xs ++ x ∷ []) ≡ length xs + 1
      size = length-append xs (x ∷ [])

      start : UpInv key (xs ++ x ∷ []) (length xs)
      start = record {
        inside = omega (arith, size);
        others = λ c p q d. ground (
          arith,
          size,
          h c,
          get_elem?-append xs (x ∷ []) c,
          get_elem?-append xs (x ∷ []) (parent c),
        );
        across = λ c p q r s. absurd (omega (arith, size));
      }

  -- The root of a heap is the least entry.
  root_least_below :
      (k : ℕ) (xs : List A) (i : ℕ)
      → i < k
      → IsHeap xs
      → i < length xs
      → key_at key xs 0 ≤ key_at key xs i
  root_least_below zero xs i f h p = absurd (omega arith)
  root_least_below (suc k) xs i f h p = ground (arith, h i, root_least_below k xs (parent i))

  pub root_least :
      (xs : List A) (i : ℕ) → IsHeap xs → i < length xs → key_at key xs 0 ≤ key_at key xs i
  root_least xs i h p = root_least_below (suc i) xs i (omega arith) h p

  -- The slice before `Pop` cuts its last entry off.
  abbrev sunk : A → List A → List A
  sunk x xs = down key (length xs) (swap (x ∷ xs) 0 (length xs)) 0 (length xs)

  sunk-perm : (x : A) (xs : List A) → Perm (sunk x xs) (x ∷ xs)
  sunk-perm x xs = Perm.trans (down-perm key _ _ 0 _) (swap-perm (x ∷ xs) 0 (length xs))

  sunk_last : (x : A) (xs : List A) → get_elem? (sunk x xs) (length xs) ≡ some x
  sunk_last x xs =
      get_elem?-down key (length xs) (swap (x ∷ xs) 0 (length xs)) 0 (length xs) (length xs)
        (omega (arith, length-swap (x ∷ xs) 0 (length xs))) (omega arith)
      ∙ ground
          (arith, get_elem?-swap (x ∷ xs) 0 (length xs) (omega arith) (omega arith) (length xs))

  sunk-order : (x : A) (xs : List A) → IsHeap (x ∷ xs) → IsHeapFrom key 0 (length xs) (sunk x xs)
  sunk-order x xs h =
      let n = length xs in
      let now = key_at-swap (x ∷ xs) 0 n (omega arith) (omega arith) key in
      down-order key n 0 (swap (x ∷ xs) 0 n) 0 n (omega arith) (record {
        within = omega (arith, length-swap (x ∷ xs) 0 n);
        others = λ c p q r d. ground (arith, now c, now (parent c), h c);
        across = λ c p q r s t. absurd (omega arith);
      })

  abbrev pub popped : A → List A → List A
  popped x xs = take (length xs) (sunk x xs)

  -- Pop gives the root, which is the least entry, and leaves a heap of the others.
  pub heap_pop-cons : (x : A) (xs : List A) → heap_pop key (x ∷ xs) ≡ some (x, popped x xs)
  unfolding heap_pop
  heap_pop-cons x xs = rw (sunk_last x xs, pop_last)

  pub popped-perm : (x : A) (xs : List A) → Perm (popped x xs) xs
  popped-perm x xs =
      Perm.cons_inv
        (Perm.trans (Perm.symm (append-perm (popped x xs) x)) (rw whole (sunk-perm x xs)))
    where
      whole : popped x xs ++ x ∷ [] ≡ sunk x xs
      whole =
          take-append_last (length xs) (sunk x xs) x (length-perm (sunk-perm x xs)) (sunk_last x xs)

  pub popped-IsHeap : (x : A) (xs : List A) → IsHeap (x ∷ xs) → IsHeap (popped x xs)
  popped-IsHeap x xs h = rw (length-perm (popped-perm x xs)) λ c p q r. ground (
    arith,
    sunk-order x xs h c,
    get_elem?-take (length xs) (sunk x xs) c,
    get_elem?-take (length xs) (sunk x xs) (parent c),
  )

-- A property of every entry does not depend on the order.
module _ {ℓ κ} {A : Type ℓ} (P : A → Type κ) (is_prop : (x : A) → IsProp (P x)) where
  All-prop : (xs : List A) → IsProp (All P xs)
  All-prop [] = Unit-prop
  All-prop (x ∷ xs) = ×_prop (is_prop x) (All-prop xs)

  All-permᴰ : {xs ys : List A} → Permᴰ xs ys → All P xs → All P ys
  All-permᴰ Permᴰ.nil h = h
  All-permᴰ (Permᴰ.cons e p) h = (subst P e h.0, All-permᴰ p h.1)
  All-permᴰ (Permᴰ.swap d e) h = (subst P e h.1.0, (subst P d h.0, h.1.1))
  All-permᴰ (Permᴰ.trans p q) h = All-permᴰ q (All-permᴰ p h)

  pub All-perm : {xs ys : List A} → Perm xs ys → All P xs → All P ys
  All-perm {ys} p h = ∥∥₁_elim p (All-prop ys) (λ d. All-permᴰ d h)
