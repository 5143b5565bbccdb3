-- ===== src/Gateway/Handlers/Gate.antt =====
-- Which business requests reach an upstream service, and the count of running upstream calls.
use gateway_test.Session.State.{can_process_business_request, can_process_login_request, Session}
use gateway_test.Session.Manager.Calls.{validate_client_sequence}
use gateway_test.Gateway.Handlers.{
  business_read, business_checked, business_of, handle_business_request, check_state, task_of,
  is_login_action, upstream_request_of, admit_business, route_business, submitted, after_call,
  answer_sync, handle_business_request_sync, handle_login_success,
}
use gateway_test.Gateway.Server.{
  session_at, respond_error, sender_env, AsyncProcessor, Server, ServerEnv,
}
use gateway_test.Gateway.Async.{submit_task}
use gateway_test.Gateway.Overload.{
  on_upstream_end, allow_upstream_request, on_upstream_start, OverloadProtector,
}
use gateway_test.Proto.{UpstreamRequest, ClientRequest, BusinessRequest, UpstreamResponse}
use gateway_test.Prelude.{
  ℕ, subst, ◌+◌, ◌<◌, String, ◌≡◌, refl, sym, ap, ◌∙◌, ◌⊎◌, inl, inr, Bool, true, false, Option,
  none, some, ◌∷◌, arith, if◌then◌else◌, Bool-cases, nat_eq, string_eq, get_elem?, ℤ, pos, pos_part,
  neg_part, i64_mod, if_both,
}
use gateway_test.Gateway.Sender.{send_business_response}
use gateway_test.Gateway.Router.{determine_upstream_service}
use gateway_test.Gateway.Server.Facts.{send_by-KeepsRest, respond_error-KeepsRest}

abbrev Same : OverloadProtector → Server × Bool → Type 0
Same op r = r.0.protector ≡ op

-- The handler failed, called no upstream service and queued no task.
abbrev pub Untouched : Server → Server × Bool → Type 0
Untouched srv r =
    (r.1 ≡ false)
    × (r.0.upstream_calls ≡ srv.upstream_calls)
    × (r.0.async_processor ≡ srv.async_processor)

module _ (env : ServerEnv) (p : ℕ) (req : ClientRequest) where
  login_protector :
      (resp : UpstreamResponse) (s : Session) (srv : Server)
      → (handle_login_success env resp s srv).0.protector ≡ srv.protector
  unfolding handle_login_success
  login_protector resp s srv = ground arith

  answer_protector :
      (resp : UpstreamResponse) (srv : Server) → Same srv.protector (answer_sync env p req resp srv)
  unfolding answer_sync
  answer_protector resp srv =
      let first =
        (send_by-KeepsRest p
          (send_business_response (sender_env env p) req.msg_id resp.code resp.message
            resp.message_data resp.headers)
          srv).protector in
      if_both (Same srv.protector) _ first ((send_by-KeepsRest p _ _).protector ∙ first)

  call_protector :
      (is_login : Bool) (s : Session) (answer : String ⊎ UpstreamResponse) (srv : Server)
      → Same srv.protector (after_call env p req is_login s answer srv)
  unfolding after_call
  call_protector is_login s (inl message) srv =
      (respond_error-KeepsRest env p _ _ _ _ srv).protector
  call_protector is_login s (inr resp) srv =
      let r = handle_login_success env resp s srv in
      let login = login_protector resp s srv in
      if_both (Same srv.protector) _ (answer_protector resp srv) (
        if_both (Same srv.protector) r.1 (answer_protector resp r.0 ∙ login)
          ((respond_error-KeepsRest env p _ _ _ _ r.0).protector ∙ login))

  submitted_protector :
      (r : AsyncProcessor × Bool) (srv : Server) → Same srv.protector (submitted env p req r srv)
  unfolding submitted
  submitted_protector (ap, true) srv = refl
  submitted_protector (ap, false) srv = (respond_error-KeepsRest env p _ _ _ _ _).protector

  sync_protector :
      (service : String) (call : UpstreamRequest) (is_login : Bool) (s : Session) (srv : Server)
      → Same srv.protector (handle_business_request_sync env p req service call is_login s srv)
  unfolding handle_business_request_sync
  sync_protector service call is_login s srv =
      call_protector is_login s (env.call service call)
        (record srv { upstream_calls = (service, call) ∷ srv.upstream_calls })

  pub route_protector :
      (b : BusinessRequest) (s : Session) (ap : Option AsyncProcessor) (srv : Server)
      → Same srv.protector (route_business env p req b s ap srv)
  unfolding route_business
  route_protector b s none srv =
      sync_protector (determine_upstream_service env.text b) (upstream_request_of env req b s)
        (is_login_action env b) s srv
  route_protector b s (some ap) srv =
      if_both (Same srv.protector) (is_login_action env b)
        (sync_protector (determine_upstream_service env.text b) (upstream_request_of env req b s)
          true s srv)
        (submitted_protector (submit_task (task_of env p req b s) ap) srv)

-- The count of running calls is a small natural number.
abbrev pub IsCount : ℤ → Type 0
IsCount n = (neg_part n ≡ 0) × (pos_part n + 1 < i64_mod)

started_ended :
    (op op' : OverloadProtector)
    → IsCount op.upstream_active
    → op' ≡ on_upstream_start op
    → (on_upstream_end op').upstream_active ≡ op.upstream_active
unfolding on_upstream_start on_upstream_end
started_ended op op' count e = rw e (ground (arith, count))

allow_keeps :
    (op : OverloadProtector) → (allow_upstream_request op).0.upstream_active ≡ op.upstream_active
unfolding allow_upstream_request
allow_keeps op = ground arith

-- The count is what it was, and the request was admitted or nothing happened.
abbrev Gated : Type 0 → Server → Server × Bool → Type 0
Gated A srv r =
    (r.0.protector.upstream_active ≡ srv.protector.upstream_active) × (A ⊎ Untouched srv r)

module _ (env : ServerEnv) (p : ℕ) (req : ClientRequest) where
  refused :
      {A : Type 0} (msg_id : ℕ) (code : ℤ) (message detail : String) (srv srv' : Server)
      → srv'.protector.upstream_active ≡ srv.protector.upstream_active
      → srv'.upstream_calls ≡ srv.upstream_calls
      → srv'.async_processor ≡ srv.async_processor
      → Gated A srv (respond_error env p msg_id code message detail srv', false)
  refused msg_id code message detail srv srv' count calls processor =
      let kept = respond_error-KeepsRest env p msg_id code message detail srv' in
      (
        ap (λ (op : OverloadProtector). op.upstream_active) kept.protector ∙ count,
        inr (refl, kept.calls ∙ calls, kept.processor ∙ processor),
      )

  admit-Gated :
      (b : BusinessRequest) (s : Session) (srv : Server)
      → IsCount srv.protector.upstream_active
      → Gated
          ((allow_upstream_request srv.protector).1 ≡ true)
          srv
          (admit_business env p req b s srv)
  unfolding admit_business
  admit-Gated b s srv count =
      let op = (allow_upstream_request srv.protector).0 in
      let srv' = record srv { protector = on_upstream_start op } in
      let kept = allow_keeps srv.protector in
      let routed = route_protector env p req b s srv.async_processor srv' in
      elim (Bool-cases (allow_upstream_request srv.protector).1) [
        | inl yes_free ↦ rw yes_free (
          started_ended op (route_business env p req b s srv.async_processor srv').0.protector
                (subst IsCount (sym kept) count) routed
              ∙ kept,
          inl refl,
        )
        | inr full ↦ rw full (
            refused req.msg_id (pos 503) "上游服务繁忙" "上游服务当前负载过高，请稍后重试" srv
              (record srv { protector = op }) kept refl refl)
      ]

-- The state that the action wants, and room for an upstream call.
abbrev pub MayRun : ServerEnv → BusinessRequest → Session → Server → Type 0
MayRun env b s srv =
    ((if is_login_action env b then can_process_login_request s else can_process_business_request s)
      ≡ true)
    × ((allow_upstream_request srv.protector).1 ≡ true)

-- A request that the gateway lets through: its number follows the session's last one, its payload is
-- a business request, the session that the check of the number leaves is in the state that the
-- action wants, and the upstream limit has room.
pub record IsAdmitted (env : ServerEnv) (p : ℕ) (req : ClientRequest) (srv : Server) : Type 0 where
  pub before : Session
  pub here : session_at p srv ≡ some before
  pub in_sequence : (validate_client_sequence before.id req.seq_id srv.manager).1 ≡ true
  pub after : Session
  pub there :
      get_elem? (validate_client_sequence before.id req.seq_id srv.manager).0.cells p ≡ some after
  pub business : BusinessRequest
  pub read : env.formats.business_request.unmarshal req.payload ≡ some business
  pub may_run : MayRun env business after srv

module _ (env : ServerEnv) (p : ℕ) (req : ClientRequest) where
  state-Gated :
      (b : BusinessRequest) (s : Session) (srv : Server)
      → IsCount srv.protector.upstream_active
      → Gated (MayRun env b s srv) srv (check_state env p req b s srv)
  unfolding check_state
  state-Gated b s srv count =
      let (kept, reached) = admit-Gated env p req b s srv count in
      elim (Bool-cases (is_login_action env b)) [
        | inl login ↦ elim (Bool-cases (can_process_login_request s)) [
          | inl can ↦
              rw (login, can) (kept, elim reached [ inl free ↦ inl (refl, free) | inr u ↦ inr u ])
          | inr cannot ↦ rw (login, cannot) (refused env p req _ _ _ _ srv srv refl refl refl)
        ]
        | inr other ↦ elim (Bool-cases (can_process_business_request s)) [
          | inl can ↦
              rw (other, can) (kept, elim reached [ inl free ↦ inl (refl, free) | inr u ↦ inr u ])
          | inr cannot ↦ rw (other, cannot) (refused env p req _ _ _ _ srv srv refl refl refl)
        ]
      ]

  -- What the later checks need of the payload and of the session.
  abbrev Reads : Option BusinessRequest → Session → Server → Type 0
  Reads o s srv = (b : BusinessRequest) × (o ≡ some b) × MayRun env b s srv

  read-Gated :
      (o : Option BusinessRequest) (s : Session) (srv : Server)
      → IsCount srv.protector.upstream_active
      → Gated (Reads o s srv) srv (business_read env p req o s srv)
  unfolding business_read
  read-Gated none s srv count = refused env p req _ _ _ _ srv srv refl refl refl
  read-Gated (some b) s srv count =
      let (kept, reached) = state-Gated b s srv count in
      (kept, elim reached [ inl may ↦ inl (b, refl, may) | inr u ↦ inr u ])

  abbrev Checks : Option Session → Server → Type 0
  Checks o srv =
      (s : Session) × (o ≡ some s)
      × Reads (env.formats.business_request.unmarshal req.payload) s srv

  checked-Gated :
      (o : Option Session) (srv : Server)
      → IsCount srv.protector.upstream_active
      → Gated (Checks o srv) srv (business_checked env p req o srv)
  unfolding business_checked
  checked-Gated none srv count = (refl, inr (refl, refl, refl))
  checked-Gated (some s) srv count =
      let (kept, reached) =
        read-Gated (env.formats.business_request.unmarshal req.payload) s srv count in
      (kept, elim reached [ inl reads ↦ inl (s, refl, reads) | inr u ↦ inr u ])

  of-Gated :
      (o : Option Session) (srv : Server)
      → session_at p srv ≡ o
      → IsCount srv.protector.upstream_active
      → Gated (IsAdmitted env p req srv) srv (business_of env p req o srv)
  unfolding business_of
  of-Gated none srv e count = (refl, inr (refl, refl, refl))
  of-Gated (some s) srv e count =
      let m = (validate_client_sequence s.id req.seq_id srv.manager).0 in
      let srv' = record srv { manager = m } in
      let (kept, reached) = checked-Gated (session_at p srv') srv' count in
      elim (Bool-cases (validate_client_sequence s.id req.seq_id srv.manager).1) [
        | inl valid ↦ rw valid (
          kept,
          elim reached [
            | inl (s', there, (b, read, may)) ↦ inl (record {
              before = s;
              here = e;
              in_sequence = valid;
              after = s';
              there = there;
              business = b;
              read = read;
              may_run = may;
            })
            | inr u ↦ inr u
          ],
        )
        | inr invalid ↦ rw invalid (refused env p req _ _ _ _ srv srv' refl refl refl)
      ]

-- A business request calls an upstream service or queues a task only if it is admitted; otherwise
-- the handler fails and does neither. On every path the count of running upstream calls is
-- afterwards what it was, also where the request waits in the queue of the workers.
pub business_gate :
    (env : ServerEnv) (p : ℕ) (req : ClientRequest) (srv : Server)
    → IsCount srv.protector.upstream_active
    → let r = handle_business_request env p req srv in
      (r.0.protector.upstream_active ≡ srv.protector.upstream_active)
      × (IsAdmitted env p req srv ⊎ Untouched srv r)
unfolding handle_business_request
business_gate env p req srv count = of-Gated env p req (session_at p srv) srv refl count
