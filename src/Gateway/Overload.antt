-- ===== src/Gateway/Overload.antt =====
-- internal/gateway/overload_protector.go: the limits on connections, requests and calls upstream.
-- Metrics, logging and the pause of a millisecond above the warning threshold have no part here.
-- Each atomic operation is one step. Times are nanoseconds.
pub mod Window
pub mod Requests
pub mod Limits
pub mod Buckets
mod Tests
use gateway_test.Prelude.{
  ℕ, zero, suc, ◌+◌, ◌-◌, ◌*◌, ◌/◌, ◌%◌, refl, Bool, true, false, not, ◌&&◌, Option, none, some,
  List, [], ◌∷◌, map, arith, leb, eqb, if◌then◌else◌, nat_eq, string_eq, length, set, replicate, ℤ,
  pos, negsuc, add64, leb_ℤ, ltb_ℤ, eqb_ℤ, sub_ℕ, signed64, bits64, pos_part, neg_part,
}

pub record OverloadConfig : Type 0 where
  pub enabled : Bool
  pub max_connections : ℤ
  pub connection_warning_threshold : ℤ
  pub max_qps : ℤ
  pub qps_warning_threshold : ℤ
  pub qps_window_seconds : ℤ
  pub max_upstream_concurrent : ℤ
  pub upstream_timeout : ℕ
  pub upstream_warning_threshold : ℤ

abbrev pub second : ℕ
second = 1000000000

unfoldable pub default_overload_config : OverloadConfig
default_overload_config = record {
  enabled = true;
  max_connections = pos 1000;
  connection_warning_threshold = pos 800;
  max_qps = pos 2000;
  qps_warning_threshold = pos 1600;
  qps_window_seconds = pos 10;
  max_upstream_concurrent = pos 100;
  upstream_timeout = 30 * 1000000000;
  upstream_warning_threshold = pos 80;
}

pub record SlidingWindow : Type 0 where
  pub window_size : ℤ
  pub buckets : List ℤ
  pub bucket_size : ℤ
  pub current : ℕ
  pub start_time : ℕ

-- Division, which rounds towards 0.
abbrev pub quotient : ℤ → ℕ → ℤ
quotient (pos n) k = pos (n / k)
quotient (negsuc n) k = sub_ℕ 0 ((n + 1) / k)

-- `time.Duration(seconds) * time.Second`, in int64.
abbrev pub in_seconds : ℤ → ℤ
in_seconds seconds = signed64 (bits64 seconds * 1000000000 % 18446744073709551616)

-- Every caller asks for ten buckets.
unfoldable pub new_sliding_window : ℕ → ℤ → ℕ → SlidingWindow
new_sliding_window now window_size bucket_count = record {
  window_size = window_size;
  buckets = replicate bucket_count (pos 0);
  bucket_size = quotient window_size bucket_count;
  current = 0;
  start_time = now;
}

-- `buckets[i] += count`
abbrev pub increase : ℕ → ℤ → List ℤ → List ℤ
increase i count [] = []
increase zero count (b ∷ bs) = add64 b count ∷ bs
increase (suc i) count (b ∷ bs) = b ∷ increase i count bs

-- The loop of the other branch, round by round: `elapsed >= windowSize && current != bucketIndex`.
-- A round moves `current` on, so there are at most as many as there are buckets.
pub advance : ℕ → ℕ → ℕ → SlidingWindow → SlidingWindow
advance zero elapsed bucket_index sw = sw
advance (suc fuel) elapsed bucket_index sw =
    let sw' = record sw {
      buckets = set sw.buckets sw.current (pos 0);
      current = (sw.current + 1) % length sw.buckets;
    } in
    let rest = advance fuel elapsed bucket_index sw' in
    if leb_ℤ sw.window_size (pos elapsed) && not (eqb sw.current bucket_index) then rest else sw

-- `none` where the division by an empty bucket panics. A negative window is over at once, so that the
-- index is read only where the length of a bucket is positive.
unfoldable pub add : ℕ → ℤ → SlidingWindow → Option SlidingWindow
unfolding advance
add now count sw =
    let elapsed = now - sw.start_time in
    let bucket_index = elapsed / pos_part sw.bucket_size % length sw.buckets in
    let moved = advance (length sw.buckets) elapsed bucket_index sw in
    if eqb_ℤ sw.bucket_size (pos 0)
    then none
    else if leb_ℤ sw.window_size (pos elapsed)
    then some (record sw {
      buckets = increase 0 count (map (λ _. pos 0) sw.buckets);
      start_time = now;
      current = 0;
    })
    else some (record moved {
      buckets = increase bucket_index count moved.buckets;
      current = bucket_index;
    })

sum_from : ℤ → List ℤ → ℤ
sum_from sum [] = sum
sum_from sum (count ∷ counts) = sum_from (add64 sum count) counts

unfoldable pub sum : SlidingWindow → ℤ
unfolding sum_from
sum sw = sum_from (pos 0) sw.buckets

-- An integer times a number of nanoseconds.
abbrev scale : ℤ → ℕ → ℤ
scale (pos m) k = pos (m * k)
scale (negsuc m) k = if eqb k 0 then pos 0 else negsuc (suc m * k - 1)

-- `Rate() >= float64(max)`, multiplied out, for a window of `nanos`. The numbers and the quotient of
-- the source are float64, which gives the same answer while the sum and the limit times the seconds
-- stay below 2^53. The rate of an empty window is infinite, or no number where it counts nothing.
abbrev pub reaches : ℤ → ℤ → ℤ → Bool
reaches limit nanos count =
    let scaled = scale limit (neg_part nanos) in
    if eqb_ℤ nanos (pos 0)
    then ltb_ℤ (pos 0) count
    else if ltb_ℤ (pos 0) nanos
    then leb_ℤ (scale limit (pos_part nanos)) (scale count 1000000000)
    else leb_ℤ (scale count 1000000000) (sub_ℕ (neg_part scaled) (pos_part scaled))

unfoldable pub is_rate_at_least : ℤ → SlidingWindow → Bool
is_rate_at_least limit sw = reaches limit sw.window_size (sum sw)

pub record OverloadProtector : Type 0 where
  pub config : OverloadConfig
  pub current_connections : ℤ
  pub qps_window : SlidingWindow
  pub upstream_active : ℤ
  pub connections_rejected : ℤ
  pub requests_rejected : ℤ
  pub upstream_rejected : ℤ
  pub start_time : ℕ

abbrev config_or_default : Option OverloadConfig → OverloadConfig
config_or_default none = default_overload_config
config_or_default (some config) = config

unfoldable pub new_overload_protector : ℕ → Option OverloadConfig → OverloadProtector
new_overload_protector now given =
    let config = config_or_default given in
    record {
      config = config;
      current_connections = pos 0;
      qps_window = new_sliding_window now (in_seconds config.qps_window_seconds) 10;
      upstream_active = pos 0;
      connections_rejected = pos 0;
      requests_rejected = pos 0;
      upstream_rejected = pos 0;
      start_time = now;
    }

unfoldable pub allow_new_connection : OverloadProtector → OverloadProtector × Bool
allow_new_connection op =
    if not op.config.enabled
    then (op, true)
    else if leb_ℤ op.config.max_connections op.current_connections
    then (record op { connections_rejected = add64 op.connections_rejected (pos 1) }, false)
    else (op, true)

abbrev pub counted_request :
    OverloadProtector → Option SlidingWindow → Option (OverloadProtector × Bool)
counted_request op none = none
counted_request op (some sw) =
    let op' = record op { qps_window = sw } in
    if not op.config.enabled
    then some (op', true)
    else if is_rate_at_least op.config.max_qps sw
    then some (record op' { requests_rejected = add64 op.requests_rejected (pos 1) }, false)
    else some (op', true)

-- A request is counted before it is checked, and also without protection.
unfoldable pub allow_new_request : ℕ → OverloadProtector → Option (OverloadProtector × Bool)
allow_new_request now op = counted_request op (add now (pos 1) op.qps_window)

unfoldable pub allow_upstream_request : OverloadProtector → OverloadProtector × Bool
allow_upstream_request op =
    if not op.config.enabled
    then (op, true)
    else if leb_ℤ op.config.max_upstream_concurrent op.upstream_active
    then (record op { upstream_rejected = add64 op.upstream_rejected (pos 1) }, false)
    else (op, true)

unfoldable pub on_connection_start : OverloadProtector → OverloadProtector
on_connection_start op = record op { current_connections = add64 op.current_connections (pos 1) }

-- The counter never stays below 0.
abbrev pub decreased : ℤ → ℤ
decreased n = let current = add64 n (negsuc 0) in if ltb_ℤ current (pos 0) then pos 0 else current

unfoldable pub on_connection_end : OverloadProtector → OverloadProtector
on_connection_end op = record op { current_connections = decreased op.current_connections }

unfoldable pub on_upstream_start : OverloadProtector → OverloadProtector
on_upstream_start op = record op { upstream_active = add64 op.upstream_active (pos 1) }

unfoldable pub on_upstream_end : OverloadProtector → OverloadProtector
on_upstream_end op = record op { upstream_active = decreased op.upstream_active }

unfoldable pub is_connection_overloaded : OverloadProtector → Bool
is_connection_overloaded op =
    op.config.enabled && leb_ℤ op.config.max_connections op.current_connections

unfoldable pub is_qps_overloaded : OverloadProtector → Bool
is_qps_overloaded op = op.config.enabled && is_rate_at_least op.config.max_qps op.qps_window

unfoldable pub is_upstream_overloaded : OverloadProtector → Bool
is_upstream_overloaded op =
    op.config.enabled && leb_ℤ op.config.max_upstream_concurrent op.upstream_active

unfoldable pub reset : ℕ → OverloadProtector → OverloadProtector
reset now op = record op {
  current_connections = pos 0;
  upstream_active = pos 0;
  connections_rejected = pos 0;
  requests_rejected = pos 0;
  upstream_rejected = pos 0;
  qps_window = new_sliding_window now (in_seconds op.config.qps_window_seconds) 10;
  start_time = now;
}

unfoldable pub set_enabled : Bool → OverloadProtector → OverloadProtector
set_enabled enabled op = record op { config = record op.config { enabled = enabled } }

unfoldable pub update_config : ℕ → Option OverloadConfig → OverloadProtector → OverloadProtector
update_config now none op = op
update_config now (some config) op = record op {
  config = config;
  qps_window =
      if eqb_ℤ config.qps_window_seconds (pos 0)
      then op.qps_window
      else new_sliding_window now (in_seconds config.qps_window_seconds) 10;
}
