-- ===== src/Gateway/Overload/Limits.antt =====
-- The limits on connections and on calls upstream. The accept loop of
-- internal/gateway/server_connection.go admits one connection after the other, while requests run
-- side by side, so that their check and their start are two steps.
use gateway_test.Prelude.{
  ℕ, zero, suc, ◌+◌, ◌-◌, ◌%◌, ◌≤◌, ◌<◌, ◌≡◌, refl, ap, ◌∙◌, inl, inr, Bool, true, false, List, [],
  ◌∷◌, arith, ltb, if◌then◌else◌, Bool-cases, nat_eq, string_eq, replicate, pos, add64, i64_mod,
}
use gateway_test.Gateway.Overload.{
  OverloadProtector, allow_new_connection, on_connection_start, on_connection_end,
  allow_upstream_request, on_upstream_start, decreased,
}
use gateway_test.Gateway.Overload.Window.{add64-pos}

pub data ConnectionEvent : Type 0 where
  arrives leaves : ConnectionEvent

abbrev admitted : OverloadProtector × Bool → OverloadProtector
admitted (op, true) = on_connection_start op
admitted (op, false) = op

-- The accept loop: a connection that is allowed is started.
unfoldable pub on_event : ConnectionEvent → OverloadProtector → OverloadProtector
on_event arrives op = admitted (allow_new_connection op)
on_event leaves op = on_connection_end op

unfoldable pub on_events : List ConnectionEvent → OverloadProtector → OverloadProtector
on_events [] op = op
on_events (e ∷ es) op = on_events es (on_event e op)

-- How many connections there are, where an arrival beyond the limit is turned away.
abbrev pub occupancy : ℕ → List ConnectionEvent → ℕ → ℕ
occupancy limit [] n = n
occupancy limit (arrives ∷ es) n = occupancy limit es (if ltb n limit then n + 1 else n)
occupancy limit (leaves ∷ es) n = occupancy limit es (n - 1)

decreased-pos : (n : ℕ) → n < i64_mod → decreased (pos n) ≡ pos (n - 1)
decreased-pos zero small = refl
decreased-pos (suc k) small =
    let same : (suc k % 18446744073709551616 + 18446744073709551615) % 18446744073709551616 ≡ k =
      omega arith in
    rw same (ground arith)

module _ (limit : ℕ) (limit_fits : limit < i64_mod) where
  record Holds (op : OverloadProtector) (n : ℕ) : Type 0 where
    on : op.config.enabled ≡ true
    bounded : op.config.max_connections ≡ pos limit
    counted : op.current_connections ≡ pos n
    within : n ≤ limit

  admits :
      (op : OverloadProtector) (n : ℕ)
      → Holds op n
      → n < limit
      → on_event arrives op ≡ on_connection_start op
  unfolding on_event allow_new_connection
  admits op n v below = ground (arith, v.on, v.bounded, v.counted)

  turns_away :
      (op : OverloadProtector) (n : ℕ)
      → Holds op n
      → limit ≤ n
      → on_event arrives op
        ≡ record op { connections_rejected = add64 op.connections_rejected (pos 1) }
  unfolding on_event allow_new_connection
  turns_away op n v full = ground (arith, v.on, v.bounded, v.counted)

  arrives-Holds :
      (op : OverloadProtector) (n : ℕ)
      → Holds op n
      → Holds (on_event arrives op) (if ltb n limit then n + 1 else n)
  unfolding on_connection_start
  arrives-Holds op n v = elim (Bool-cases (ltb n limit)) [
    | inl below ↦
        rw (below, admits op n v (ground (arith, below)))
          (record {
            on = v.on;
            bounded = v.bounded;
            counted = ap (λ k. add64 k (pos 1)) v.counted ∙ add64-pos n 1 (ground (arith, below));
            within = ground (arith, below);
          })
    | inr full ↦
        rw (full, turns_away op n v (ground (arith, full)))
          (record { on = v.on; bounded = v.bounded; counted = v.counted; within = v.within })
  ]

  leaves-Holds : (op : OverloadProtector) (n : ℕ) → Holds op n → Holds (on_event leaves op) (n - 1)
  unfolding on_event on_connection_end
  leaves-Holds op n v = record {
    on = v.on;
    bounded = v.bounded;
    counted = ap decreased v.counted ∙ decreased-pos n (omega (arith, v.within));
    within = omega (arith, v.within);
  }

  on_events-Holds :
      (es : List ConnectionEvent) (op : OverloadProtector) (n : ℕ)
      → Holds op n
      → Holds (on_events es op) (occupancy limit es n)
  unfolding on_events
  on_events-Holds [] op n v = v
  on_events-Holds (arrives ∷ es) op n v =
      on_events-Holds es (on_event arrives op) _ (arrives-Holds op n v)
  on_events-Holds (leaves ∷ es) op n v =
      on_events-Holds es (on_event leaves op) _ (leaves-Holds op n v)

-- With protection on, whatever connections come and go, the counter is the number of connections
-- that are open, where those beyond the limit are turned away, and it never exceeds the limit.
pub on_events-bounded :
    (limit n : ℕ) (es : List ConnectionEvent) (op : OverloadProtector)
    → limit < i64_mod
    → op.config.enabled ≡ true
    → op.config.max_connections ≡ pos limit
    → op.current_connections ≡ pos n
    → n ≤ limit
    → ((on_events es op).current_connections ≡ pos (occupancy limit es n))
      × (occupancy limit es n ≤ limit)
on_events-bounded limit n es op fits on bounded counted within =
    let v =
      on_events-Holds limit fits es op n
        (record { on = on; bounded = bounded; counted = counted; within = within }) in
    (v.counted, v.within)

-- Requests that run side by side: all are checked before the first is started.
unfoldable pub check_all : ℕ → OverloadProtector → OverloadProtector × List Bool
check_all zero op = (op, [])
check_all (suc requests) op =
    let (op', ok) = allow_upstream_request op in
    let (op'', oks) = check_all requests op' in (op'', ok ∷ oks)

unfoldable pub start_all : ℕ → OverloadProtector → OverloadProtector
start_all zero op = op
start_all (suc requests) op = start_all requests (on_upstream_start op)

check_all-below :
    (requests : ℕ) (op : OverloadProtector) (limit n : ℕ)
    → op.config.enabled ≡ true
    → op.config.max_upstream_concurrent ≡ pos limit
    → op.upstream_active ≡ pos n
    → n < limit
    → check_all requests op ≡ (op, replicate requests true)
unfolding check_all allow_upstream_request
check_all-below zero op limit n on bounded active below = refl
check_all-below (suc requests) op limit n on bounded active below =
    ground (arith, check_all-below requests op limit n on bounded active below)

start_all-adds :
    (requests : ℕ) (op : OverloadProtector) (n : ℕ)
    → op.upstream_active ≡ pos n
    → n + requests < i64_mod
    → (start_all requests op).upstream_active ≡ pos (n + requests)
unfolding start_all on_upstream_start
start_all-adds zero op n active small = active ∙ ap pos (omega arith)
start_all-adds (suc requests) op n active small =
    start_all-adds requests (on_upstream_start op) (n + 1)
      (ap (λ k. add64 k (pos 1)) active ∙ add64-pos n 1 (omega arith)) (omega arith)
    ∙ ap pos (omega arith)

-- A defect of the limit on calls upstream: below the limit, any number of requests that are checked
-- before the first of them starts are all allowed, and all are then active at once.
pub upstream_limit_overrun :
    (requests limit n : ℕ) (op : OverloadProtector)
    → op.config.enabled ≡ true
    → op.config.max_upstream_concurrent ≡ pos limit
    → op.upstream_active ≡ pos n
    → n < limit
    → n + requests < i64_mod
    → let (op', oks) = check_all requests op in
      (oks ≡ replicate requests true)
      × ((start_all requests op').upstream_active ≡ pos (n + requests))
upstream_limit_overrun requests limit n op on bounded active below small =
    rw (check_all-below requests op limit n on bounded active below)
      (refl, start_all-adds requests op n active small)
