-- ===== src/Gateway/Overload/Window.antt =====
-- What the window counts: everything since it last started over.
use gateway_test.Prelude.{
  ℕ, subst, zero, suc, ◌+◌, ◌-◌, ◌/◌, ◌%◌, ◌≤◌, ◌<◌, ◌≡◌, refl, sym, ap, ◌∙◌, inl, inr, some, List,
  [], ◌∷◌, map, arith, leb, if◌then◌else◌, Bool-cases, nat_eq, string_eq, length, All, ℤ, pos,
  negsuc, pos_part, neg_part, add64, i64_mod,
}
use gateway_test.Gateway.Overload.{
  SlidingWindow, new_sliding_window, add, advance, increase, sum, sum_from,
}

-- A count and the time since when it counts.
pub record Tumbling : Type 0 where
  pub since : ℕ
  pub count : ℕ

-- One event: a count whose time is up starts over with it.
abbrev pub tumble : ℕ → ℕ → Tumbling → Tumbling
tumble window now t =
    if leb window (now - t.since)
    then record { since = now; count = 1 }
    else record t { count = t.count + 1 }

abbrev pub total : List ℤ → ℕ
total [] = 0
total (b ∷ bs) = pos_part b + total bs

abbrev IsPos : ℤ → Type 0
IsPos b = neg_part b ≡ 0

-- The window counts what `t` does.
pub record Counts (sw : SlidingWindow) (t : Tumbling) : Type 0 where
  pub started : sw.start_time ≡ t.since
  pub counted : total sw.buckets ≡ t.count
  pub positive : All IsPos sw.buckets
  pub ten : length sw.buckets ≡ 10
  pub wide : neg_part sw.window_size ≡ 0
  pub sized : 0 < pos_part sw.bucket_size

pub add64-pos : (a b : ℕ) → a + b < i64_mod → add64 (pos a) (pos b) ≡ pos (a + b)
add64-pos a b small =
    let same : (a % 18446744073709551616 + b % 18446744073709551616) % 18446744073709551616
        ≡ a + b =
      omega arith in
    rw same (ground arith)

sum_from-total :
    (a : ℕ) (bs : List ℤ)
    → All IsPos bs
    → a + total bs < i64_mod
    → sum_from (pos a) bs ≡ pos (a + total bs)
unfolding sum_from
sum_from-total a [] h small = ap pos (omega arith)
sum_from-total a (pos b ∷ bs) h small =
    rw (add64-pos a b (omega arith))
      (sum_from-total (a + b) bs h.1 (omega arith) ∙ ap pos (omega arith))
sum_from-total a (negsuc b ∷ bs) h small = absurd (omega (arith, h.0))

pub sum-Counts :
    (sw : SlidingWindow) (t : Tumbling) → Counts sw t → t.count < i64_mod → sum sw ≡ pos t.count
unfolding sum
sum-Counts sw t v small =
    sum_from-total 0 sw.buckets v.positive (omega (arith, v.counted))
    ∙ ap pos (omega (arith, v.counted))

total-increase :
    (i : ℕ) (bs : List ℤ)
    → All IsPos bs
    → i < length bs
    → total bs + 1 < i64_mod
    → total (increase i (pos 1) bs) ≡ total bs + 1
total-increase i [] h inside small = absurd (omega arith)
total-increase zero (pos b ∷ bs) h inside small = rw (add64-pos b 1 (omega arith)) (omega arith)
total-increase zero (negsuc b ∷ bs) h inside small = absurd (omega (arith, h.0))
total-increase (suc i) (b ∷ bs) h inside small =
    omega (arith, total-increase i bs h.1 (omega arith) (omega arith))

increase-IsPos :
    (i : ℕ) (bs : List ℤ)
    → All IsPos bs
    → total bs + 1 < i64_mod
    → All IsPos (increase i (pos 1) bs)
increase-IsPos i [] h small = tt
increase-IsPos zero (pos b ∷ bs) h small = rw (add64-pos b 1 (omega arith)) (refl, h.1)
increase-IsPos zero (negsuc b ∷ bs) h small = absurd (omega (arith, h.0))
increase-IsPos (suc i) (b ∷ bs) h small = (h.0, increase-IsPos i bs h.1 (omega arith))

length-increase : (i : ℕ) (count : ℤ) (bs : List ℤ) → length (increase i count bs) ≡ length bs
length-increase i count [] = refl
length-increase zero count (b ∷ bs) = refl
length-increase (suc i) count (b ∷ bs) = ap suc (length-increase i count bs)

cleared :
    (bs : List ℤ)
    → (total (map (λ _. pos 0) bs) ≡ 0)
      × All IsPos (map (λ _. pos 0) bs)
      × (length (map (λ _. pos 0) bs) ≡ length bs)
cleared [] = (refl, tt, refl)
cleared (b ∷ bs) = let (t, p, l) = cleared bs in (omega (arith, t), (refl, p), ap suc l)

-- Inside the window the loop does nothing, whatever its fuel.
advance-inside :
    (fuel elapsed bucket_index : ℕ) (sw : SlidingWindow)
    → neg_part sw.window_size ≡ 0
    → elapsed < pos_part sw.window_size
    → advance fuel elapsed bucket_index sw ≡ sw
unfolding advance
advance-inside zero elapsed bucket_index sw wide h = refl
advance-inside (suc fuel) elapsed bucket_index sw wide h = ground arith

add-fresh :
    (now : ℕ) (sw : SlidingWindow)
    → 0 < pos_part sw.bucket_size
    → neg_part sw.window_size ≡ 0
    → pos_part sw.window_size ≤ now - sw.start_time
    → add now (pos 1) sw
      ≡ some (record sw {
        buckets = increase 0 (pos 1) (map (λ _. pos 0) sw.buckets);
        start_time = now;
        current = 0;
      })
unfolding add
add-fresh now sw sized wide over = ground arith

abbrev bucket_at : ℕ → SlidingWindow → ℕ
bucket_at now sw = (now - sw.start_time) / pos_part sw.bucket_size % length sw.buckets

add-inside :
    (now : ℕ) (sw : SlidingWindow)
    → 0 < pos_part sw.bucket_size
    → neg_part sw.window_size ≡ 0
    → now - sw.start_time < pos_part sw.window_size
    → add now (pos 1) sw
      ≡ some (record sw {
        buckets = increase (bucket_at now sw) (pos 1) sw.buckets;
        current = bucket_at now sw;
      })
unfolding add
add-inside now sw sized wide inside =
    rw (advance-inside (length sw.buckets) (now - sw.start_time) (bucket_at now sw) sw wide inside)
      (ground arith)

fresh-Counts :
    (now : ℕ) (sw : SlidingWindow) (t : Tumbling)
    → Counts sw t
    → Counts
        (record sw {
          buckets = increase 0 (pos 1) (map (λ _. pos 0) sw.buckets);
          start_time = now;
          current = 0;
        })
        (record { since = now; count = 1 })
fresh-Counts now sw t v =
    let bs = map (λ _. pos 0) sw.buckets in
    let (none_left, positive, long) = cleared sw.buckets in
    record {
      started = refl;
      counted = omega (
        arith,
        none_left,
        total-increase 0 bs positive (omega (arith, long, v.ten)) (omega (arith, none_left)),
      );
      positive = increase-IsPos 0 bs positive (omega (arith, none_left));
      ten = length-increase 0 (pos 1) bs ∙ long ∙ v.ten;
      wide = v.wide;
      sized = v.sized;
    }

inside-Counts :
    (i : ℕ) (sw : SlidingWindow) (t : Tumbling)
    → Counts sw t
    → i < length sw.buckets
    → t.count + 1 < i64_mod
    → Counts
        (record sw { buckets = increase i (pos 1) sw.buckets; current = i })
        (record t { count = t.count + 1 })
inside-Counts i sw t v inside small = record {
  started = v.started;
  counted =
      omega (
        arith,
        v.counted,
        total-increase i sw.buckets v.positive inside (omega (arith, v.counted)),
      );
  positive = increase-IsPos i sw.buckets v.positive (omega (arith, v.counted));
  ten = length-increase i (pos 1) sw.buckets ∙ v.ten;
  wide = v.wide;
  sized = v.sized;
}

pub add-Counts :
    (now : ℕ) (sw : SlidingWindow) (t : Tumbling)
    → Counts sw t
    → t.count + 1 < i64_mod
    → (sw' : SlidingWindow) × (add now (pos 1) sw ≡ some sw')
      × Counts sw' (tumble (pos_part sw.window_size) now t)
      × (sw'.window_size ≡ sw.window_size)
add-Counts now sw t v small =
    elim (Bool-cases (leb (pos_part sw.window_size) (now - sw.start_time))) [
      | inl over ↦
          let again : tumble (pos_part sw.window_size) now t ≡ record { since = now; count = 1 } =
            ground (arith, over, v.started) in
          (
            _,
            add-fresh now sw v.sized v.wide (ground (arith, over)),
            rw again (fresh-Counts now sw t v),
            refl,
          )
      | inr within ↦
          let goes_on : tumble (pos_part sw.window_size) now t ≡ record t { count = t.count + 1 } =
            ground (arith, within, v.started) in
          (
            _,
            add-inside now sw v.sized v.wide (ground (arith, within)),
            rw goes_on (
                inside-Counts (bucket_at now sw) sw t v
                  (subst (λ n. (now - sw.start_time) / pos_part sw.bucket_size % n < n) (sym v.ten)
                    (omega arith))
                  small),
            refl,
          )
    ]

-- A new window of at least ten nanoseconds counts from its own start.
pub new-Counts :
    (now window : ℕ)
    → 10 ≤ window
    → Counts (new_sliding_window now (pos window) 10) (record { since = now; count = 0 })
unfolding new_sliding_window
new-Counts now window wide = record {
  started = refl;
  counted = refl;
  positive = (refl, (refl, (refl, (refl, (refl, (refl, (refl, (refl, (refl, (refl, tt))))))))));
  ten = refl;
  wide = refl;
  sized = omega arith;
}
