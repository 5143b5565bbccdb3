-- ===== src/Gateway/Overload/Tests.antt =====
-- Runs of the protector, and instances of its theorems.
use gateway_test.Prelude.{
  ℕ, ◌≤◌, ◌≡◌, refl, true, false, some, List, [], ◌∷◌, arith, nat_eq, string_eq, pos,
}
use gateway_test.Gateway.Overload.{
  OverloadProtector, OverloadConfig, new_overload_protector, new_sliding_window, sum,
  is_rate_at_least, default_overload_config, on_connection_start, on_upstream_start,
  on_upstream_end, is_connection_overloaded, is_qps_overloaded, is_upstream_overloaded, reset,
  set_enabled, update_config,
}
use gateway_test.Gateway.Overload.Requests.{allow_all, answers, allow_all-tumbling}
use gateway_test.Gateway.Overload.Limits.{
  ConnectionEvent, arrives, leaves, on_events, on_events-bounded, occupancy, check_all, start_all,
  upstream_limit_overrun,
}

-- Two connections, one call upstream, and two requests a second.
abbrev config : OverloadConfig
config = record default_overload_config {
  max_connections = pos 2;
  max_qps = pos 2;
  qps_window_seconds = pos 2;
  max_upstream_concurrent = pos 1;
}

abbrev protector : OverloadProtector
protector = new_overload_protector 0 (some config)

-- Four requests at the end of a window, and three right after it.
abbrev times : List ℕ
times =
    1900000000 ∷ 1900000000 ∷ 1900000000 ∷ 1900000000 ∷ 2000000000 ∷ 2000000001 ∷ 2000000002 ∷ []

allow_all-tumbling_example :
    (op : OverloadProtector) × (allow_all times protector
      ≡ some (op, answers 4 2000000000 times (record { since = 0; count = 0 })))
unfolding default_overload_config
allow_all-tumbling_example =
    allow_all-tumbling 2 2 0 config times refl refl refl (omega arith) (omega arith) (omega arith)
      (omega arith)

-- Six requests within a fifth of a second, where three are the most a window admits.
answers_to_bursts :
    answers 4 2000000000 times (record { since = 0; count = 0 })
    ≡ true ∷ true ∷ true ∷ false ∷ true ∷ true ∷ true ∷ []
answers_to_bursts = refl

abbrev events : List ConnectionEvent
events = arrives ∷ arrives ∷ arrives ∷ leaves ∷ arrives ∷ []

on_events-bounded_example :
    ((on_events events protector).current_connections ≡ pos (occupancy 2 events 0))
    × (occupancy 2 events 0 ≤ 2)
unfolding new_overload_protector default_overload_config
on_events-bounded_example =
    on_events-bounded 2 0 events protector (omega arith) refl refl refl (omega arith)

upstream_limit_overrun_example :
    let (op, oks) = check_all 3 protector in
    (oks ≡ true ∷ true ∷ true ∷ []) × ((start_all 3 op).upstream_active ≡ pos 3)
unfolding new_overload_protector default_overload_config
upstream_limit_overrun_example =
    upstream_limit_overrun 3 1 0 protector refl refl refl (omega arith) (omega arith)

overloads :
    let busy = on_upstream_start (on_connection_start (on_connection_start protector)) in
    (is_connection_overloaded busy ≡ true)
    × (is_upstream_overloaded busy ≡ true)
    × (is_qps_overloaded busy ≡ false)
    × (is_connection_overloaded (set_enabled false busy) ≡ false)
    × (is_upstream_overloaded (on_upstream_end busy) ≡ false)
    × ((on_upstream_end (on_upstream_end busy)).upstream_active ≡ pos 0)
    × ((reset 5 busy).current_connections ≡ pos 0)
    × ((update_config 5 (some default_overload_config) busy).config.max_connections ≡ pos 1000)
unfolding new_overload_protector default_overload_config on_upstream_start on_connection_start
    is_connection_overloaded is_upstream_overloaded is_qps_overloaded set_enabled on_upstream_end
    reset update_config is_rate_at_least sum new_sliding_window
overloads = (refl, refl, refl, refl, refl, refl, refl, refl)
