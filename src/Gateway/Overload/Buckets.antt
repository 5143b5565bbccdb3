-- ===== src/Gateway/Overload/Buckets.antt =====
-- The request limiter answers while its buckets have a length, which it keeps.
use gateway_test.Prelude.{
  ℕ, zero, suc, ◌+◌, ◌-◌, ◌/◌, ◌%◌, ◌≡◌, refl, ap, ◌≢◌, Bool, true, false, not, Option, none, some,
  arith, nat_eq, string_eq, length, set, ℤ, pos, pos_part, leb_ℤ, eqb_ℤ, eqb_ℤ_iff, if_both,
}
use gateway_test.Gateway.Overload.{
  SlidingWindow, OverloadProtector, advance, add, counted_request, allow_new_request,
  is_rate_at_least,
}

advance_size :
    (fuel elapsed bucket_index : ℕ) (sw : SlidingWindow)
    → (advance fuel elapsed bucket_index sw).bucket_size ≡ sw.bucket_size
unfolding advance
advance_size zero elapsed bucket_index sw = refl
advance_size (suc fuel) elapsed bucket_index sw = ground (
  arith,
  advance_size fuel elapsed bucket_index (record sw {
    buckets = set sw.buckets sw.current (pos 0);
    current = (sw.current + 1) % length sw.buckets;
  }),
)

-- A window that has counted.
pub data IsWindow (size : ℤ) : Option SlidingWindow → Type 0 where
  window : (sw : SlidingWindow) → sw.bucket_size ≡ size → IsWindow size (some sw)

add-IsWindow :
    (now : ℕ) (count : ℤ) (sw : SlidingWindow)
    → sw.bucket_size ≢ pos 0
    → IsWindow sw.bucket_size (add now count sw)
unfolding add
add-IsWindow now count sw nonempty =
    let elapsed = now - sw.start_time in
    let bucket_index = elapsed / pos_part sw.bucket_size % length sw.buckets in
    let divides : eqb_ℤ sw.bucket_size (pos 0) ≡ false =
      ground (arith, nonempty, eqb_ℤ_iff sw.bucket_size (pos 0)) in
    rw divides (
      if_both (IsWindow sw.bucket_size) (leb_ℤ sw.window_size (pos elapsed)) (window _ refl)
        (window _ (advance_size (length sw.buckets) elapsed bucket_index sw)))

-- The number of open connections, and the length of a bucket of the window.
abbrev pub count_of : OverloadProtector → ℤ × ℤ
count_of op = (op.current_connections, op.qps_window.bucket_size)

-- What the limiter answers for a request: both stay.
pub data IsAnswer (op : OverloadProtector) : Option (OverloadProtector × Bool) → Type 0 where
  answer :
      (op' : OverloadProtector) (b : Bool)
      → count_of op' ≡ count_of op
      → IsAnswer op (some (op', b))

counted-IsAnswer :
    (op : OverloadProtector) (o : Option SlidingWindow)
    → IsWindow op.qps_window.bucket_size o
    → IsAnswer op (counted_request op o)
counted-IsAnswer op none v = elim v [ ]
counted-IsAnswer op (some sw) (window _ same) =
    let kept = ap (λ n. (op.current_connections, n)) same in
    if_both (IsAnswer op) (not op.config.enabled) (answer _ true kept) (
      if_both (IsAnswer op) (is_rate_at_least op.config.max_qps sw) (answer _ false kept)
        (answer _ true kept))

pub allow-IsAnswer :
    (now : ℕ) (op : OverloadProtector)
    → op.qps_window.bucket_size ≢ pos 0
    → IsAnswer op (allow_new_request now op)
unfolding allow_new_request
allow-IsAnswer now op nonempty =
    counted-IsAnswer op (add now (pos 1) op.qps_window)
      (add-IsWindow now (pos 1) op.qps_window nonempty)
