-- ===== src/Gateway/Overload/Requests.antt =====
-- Which requests the rate limit admits.
use gateway_test.Gateway.Overload.{
  sum, reaches, in_seconds, new_sliding_window, counted_request, OverloadProtector, OverloadConfig,
  SlidingWindow, allow_new_request, is_rate_at_least, new_overload_protector,
}
use gateway_test.Prelude.{
  ℕ, subst, ◌+◌, ◌*◌, ◌%◌, ◌≤◌, ◌<◌, ◌≡◌, refl, sym, ap, ◌∙◌, inl, inr, Bool, true, not, Option,
  none, some, List, [], ◌∷◌, arith, ltb, leb, Bool-cases, nat_eq, string_eq, length, pos, pos_part,
  add64, i64_mod,
}
use native.Mathlib.Nat.{mul_assoc}
use gateway_test.Gateway.Overload.Window.{
  Tumbling, tumble, Counts, add-Counts, sum-Counts, new-Counts,
}

-- The requests of a history, given by their times, and the answers; `none` where one panics.
then_answer : Bool → Option (OverloadProtector × List Bool) → Option (OverloadProtector × List Bool)
then_answer ok none = none
then_answer ok (some (op, answers)) = some (op, ok ∷ answers)

allow_rest :
    (OverloadProtector → Option (OverloadProtector × List Bool))
    → Option (OverloadProtector × Bool)
    → Option (OverloadProtector × List Bool)
unfolding then_answer
allow_rest rest none = none
allow_rest rest (some (op, ok)) = then_answer ok (rest op)

unfoldable pub allow_all : List ℕ → OverloadProtector → Option (OverloadProtector × List Bool)
unfolding allow_rest
allow_all [] op = some (op, [])
allow_all (now ∷ times) op = allow_rest (allow_all times) (allow_new_request now op)

-- The answers of a count that starts over when its time is up: yes while it is below the limit.
abbrev pub answers : ℕ → ℕ → List ℕ → Tumbling → List Bool
answers limit window [] t = []
answers limit window (now ∷ times) t =
    let t' = tumble window now t in ltb t'.count limit ∷ answers limit window times t'

reaches_pos :
    (m nanos count : ℕ)
    → 0 < nanos
    → reaches (pos m) (pos nanos) (pos count) ≡ leb (m * nanos) (count * 1000000000)
reaches_pos m nanos count some_time = ground arith

rate-Counts :
    (m secs : ℕ) (sw : SlidingWindow) (t : Tumbling)
    → Counts sw t
    → sw.window_size ≡ pos (secs * 1000000000)
    → 0 < secs
    → t.count < i64_mod
    → is_rate_at_least (pos m) sw ≡ not (ltb t.count (m * secs))
unfolding is_rate_at_least
rate-Counts m secs sw t v window some_time small =
    let scaled : m * (secs * 1000000000) ≡ m * secs * 1000000000 =
      sym (mul_assoc m secs 1000000000) in
    ap (λ n. reaches (pos m) n (sum sw)) window
    ∙ ap (reaches (pos m) (pos (secs * 1000000000))) (sum-Counts sw t v small)
    ∙ reaches_pos m (secs * 1000000000) t.count (omega arith)
    ∙ rw scaled (ground arith)

module _ (m secs : ℕ) (some_time : 0 < secs) where
  abbrev nanos : ℕ
  nanos = secs * 1000000000

  -- The protector limits by `m`, and its window counts what `t` does.
  record Follows (op : OverloadProtector) (t : Tumbling) : Type 0 where
    on : op.config.enabled ≡ true
    limit : op.config.max_qps ≡ pos m
    sized : op.qps_window.window_size ≡ pos nanos
    counts : Counts op.qps_window t

  tumble-le : (now : ℕ) (t : Tumbling) → (tumble nanos now t).count ≤ t.count + 1
  tumble-le now t = ground arith

  checked-Follows :
      (op : OverloadProtector) (sw : SlidingWindow) (t : Tumbling)
      → op.config.enabled ≡ true
      → op.config.max_qps ≡ pos m
      → sw.window_size ≡ pos nanos
      → Counts sw t
      → t.count < i64_mod
      → (op' : OverloadProtector) × (counted_request op (some sw)
          ≡ some (op', ltb t.count (m * secs)))
        × Follows op' t
  checked-Follows op sw t on limit sized v small = elim (Bool-cases (ltb t.count (m * secs))) [
    | inl below ↦ (
      record op { qps_window = sw },
      rw (on, limit, rate-Counts m secs sw t v sized some_time small, below) refl,
      record { on = on; limit = limit; sized = sized; counts = v },
    )
    | inr above ↦ (
      record op { qps_window = sw; requests_rejected = add64 op.requests_rejected (pos 1) },
      rw (on, limit, rate-Counts m secs sw t v sized some_time small, above) refl,
      record { on = on; limit = limit; sized = sized; counts = v },
    )
  ]

  request-Follows :
      (now : ℕ) (op : OverloadProtector) (t : Tumbling)
      → Follows op t
      → t.count + 1 < i64_mod
      → (op' : OverloadProtector) × (allow_new_request now op
          ≡ some (op', ltb (tumble nanos now t).count (m * secs)))
        × Follows op' (tumble nanos now t)
  unfolding allow_new_request
  request-Follows now op t v small =
      let (sw', e, counts, same) = add-Counts now op.qps_window t v.counts small in
      let again = ap (λ n. tumble (pos_part n) now t) v.sized in
      let (op', answer, next) =
        checked-Follows op sw' (tumble nanos now t) v.on v.limit (same ∙ v.sized)
          (subst (Counts sw') again counts) (omega (arith, tumble-le now t)) in
      (op', rw e answer, next)

  allow_all-Follows :
      (times : List ℕ) (op : OverloadProtector) (t : Tumbling)
      → Follows op t
      → t.count + length times < i64_mod
      → (op' : OverloadProtector) × (allow_all times op
          ≡ some (op', answers (m * secs) nanos times t))
  unfolding allow_all
  allow_all-Follows [] op t v small = (op, refl)
  allow_all-Follows (now ∷ times) op t v small =
      let (op', e, next) = request-Follows now op t v (omega arith) in
      let (op'', rest) =
        allow_all-Follows times op' (tumble nanos now t) next (omega (arith, tumble-le now t)) in
      (op'', rw e (ap (then_answer (ltb (tumble nanos now t).count (m * secs))) rest))

in_seconds_exact :
    (secs : ℕ) → secs * 1000000000 < i64_mod → in_seconds (pos secs) ≡ pos (secs * 1000000000)
in_seconds_exact secs fits =
    let same : secs % 18446744073709551616 * 1000000000 % 18446744073709551616 ≡ secs * 1000000000 =
      omega arith in
    rw same (ground arith)

-- A new protector with a window of at least a second, whose nanoseconds fit in int64, answers every
-- history of requests like a counter that starts over with the first request after its time is up:
-- the request is counted, and admitted while the count stays below the limit times the seconds of
-- the window. So nothing slides: what came before the counter started over is forgotten at once.
-- The number of requests and the limit times the seconds are below 2^53, where the comparison of
-- float64 numbers is that of the integers.
pub allow_all-tumbling :
    (m secs now : ℕ) (config : OverloadConfig) (times : List ℕ)
    → config.enabled ≡ true
    → config.max_qps ≡ pos m
    → config.qps_window_seconds ≡ pos secs
    → 0 < secs
    → secs * 1000000000 < i64_mod
    → m * secs < 9007199254740992
    → length times < 9007199254740992
    → (op : OverloadProtector) × (allow_all times (new_overload_protector now (some config))
        ≡ some
            (op, answers (m * secs) (secs * 1000000000) times (record { since = now; count = 0 })))
unfolding new_overload_protector new_sliding_window
allow_all-tumbling m secs now config times on limit seconds some_time fits exact small =
    let sized : in_seconds config.qps_window_seconds ≡ pos (secs * 1000000000) =
      rw seconds (in_seconds_exact secs fits) in
    allow_all-Follows m secs some_time times (new_overload_protector now (some config))
      (record { since = now; count = 0 })
      (record {
        on = on;
        limit = limit;
        sized = sized;
        counts =
            subst (λ w. Counts (new_sliding_window now w 10) (record { since = now; count = 0 }))
              (sym sized) (new-Counts now (secs * 1000000000) (omega arith));
      })
      (omega arith)
