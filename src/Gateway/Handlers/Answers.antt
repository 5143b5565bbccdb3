-- ===== src/Gateway/Handlers/Answers.antt =====
-- In which order a business request is answered.
use gateway_test.Gateway.Notifies.Runs.{
  after-Runs, before-Runs, notify_bodies, befores, afters, bound-Runs,
}
use gateway_test.Session.Ordering.{bound, MessageOrderingManager}
use gateway_test.Gateway.Async.{is_session_valid, process_task, answer_async}
use gateway_test.Gateway.Server.{AsyncTask, Server, ServerEnv, sender_env, session_at, send_by}
use gateway_test.Gateway.Handlers.{handle_business_request_sync, answer_sync}
use gateway_test.Prelude.{
  ℕ, ◌+◌, ◌<◌, ◌≡◌, ap, ◌∙◌, inr, true, false, some, List, ◌∷◌, arith, nat_eq, string_eq, length,
  u64_mod, u32,
}
use gateway_test.Message.Create.{create_business_response, payload_of}
use gateway_test.Proto.{ClientRequest, UpstreamResponse}
use gateway_test.Session.Queue.{Wire}
use gateway_test.Session.State.{Session}
use gateway_test.Gateway.Sender.{send_business_response}
use gateway_test.Gateway.Sender.Bodies.{bodies, sent_onto, IsOpen, IsReady, Puts, send-Puts}
use gateway_test.Gateway.Server.Facts.{send_by-Through}
use gateway_test.Gateway.Notifies.{send_before_notifies, process_bound_notifies}

-- The body of a response.
abbrev pub response_body : ServerEnv → UpstreamResponse → List ℕ
response_body env resp =
    payload_of env.formats.business_response
      (record { code = resp.code; message = resp.message; message_data = resp.message_data })

-- The sender sends one response.
response-Puts :
    (env : ServerEnv) (p n msg_id : ℕ) (resp : UpstreamResponse) (s : Session) (w : Wire)
    → IsOpen (sender_env env p)
    → n + 1 < u64_mod
    → IsReady n s
    → Puts n (response_body env resp) s w (
        send_business_response
          (sender_env env p)
          msg_id
          resp.code
          resp.message
          resp.message_data
          resp.headers
          s
          w)
unfolding send_business_response create_business_response
response-Puts env p n msg_id resp s w open_env small v =
    send-Puts (sender_env env p) open_env n _ s w small v

-- A session that can send, with what is bound to the request, and numbers enough for the answer.
pub record CanAnswer (env : ServerEnv) (p grid n : ℕ) (m : MessageOrderingManager) (s : Session)
    : Type 0 where
  pub opened : IsOpen (sender_env env p)
  pub ready : IsReady n s
  pub has : s.ordering_manager ≡ some m
  pub small : n + 1 + length (befores grid m) + length (afters grid m) < u64_mod

answer_sync-bodies :
    (env : ServerEnv) (p n : ℕ) (m : MessageOrderingManager) (req : ClientRequest)
    (resp : UpstreamResponse) (s : Session) (srv : Server)
    → session_at p srv ≡ some s
    → CanAnswer env p (u32 req.seq_id) n m s
    → let grid = u32 req.seq_id in
      bodies ((answer_sync env p req resp srv).0.wires p).log
      ≡ sent_onto (notify_bodies (afters grid m)) (
          sent_onto
            (notify_bodies (befores grid m))
            (response_body env resp ∷ bodies (srv.wires p).log))
unfolding answer_sync
answer_sync-bodies env p n m req resp s srv here v =
    let grid = u32 req.seq_id in
    let w = srv.wires p in
    let respond =
      send_business_response (sender_env env p) req.msg_id resp.code resp.message resp.message_data
        resp.headers in
    let r = respond s w in
    let srv' = (send_by p respond srv).0 in
    let puts =
      response-Puts env p n req.msg_id resp s w v.opened (omega (arith, v.small)) v.ready in
    let first = send_by-Through p s respond srv here in
    let second =
      send_by-Through p r.0 (process_bound_notifies (sender_env env p) grid) srv' first.session in
    let both =
      bound-Runs (sender_env env p) v.opened grid m (n + 1) r.0 (srv'.wires p)
        (puts.notifies ∙ v.has) (omega (arith, v.small)) puts.ready in
    rw (first.error ∙ puts.fine) (
      ap (λ (k : Wire). bodies k.log) second.wire
      ∙ both
      ∙ ap
          (λ b.
            sent_onto (notify_bodies (afters grid m))
              (sent_onto (notify_bodies (befores grid m)) b))
          (ap (λ (k : Wire). bodies k.log) first.wire ∙ puts.sent))

answer_async-bodies :
    (env : ServerEnv) (p n grid msg_id : ℕ) (m : MessageOrderingManager) (resp : UpstreamResponse)
    (s : Session) (w : Wire)
    → CanAnswer env p grid n m s
    → bodies (answer_async env (sender_env env p) grid msg_id resp s w).1.log
      ≡ sent_onto
          (notify_bodies (afters grid m))
          (response_body env resp ∷ sent_onto (notify_bodies (befores grid m)) (bodies w.log))
unfolding answer_async
answer_async-bodies env p n grid msg_id m resp s w v =
    let out = sender_env env p in
    let before = send_before_notifies out grid s w in
    let (first, (m', kept, same)) =
      before-Runs out v.opened grid m n s w v.has (omega (arith, v.small)) v.ready in
    let k = n + length (befores grid m) in
    let puts =
      response-Puts env p k msg_id resp before.0 before.1 v.opened (omega (arith, v.small))
        first.ready in
    let answered =
      send_business_response out msg_id resp.code resp.message resp.message_data resp.headers
        before.0 before.1 in
    let sizes : length (afters grid m') ≡ length (afters grid m) =
      ap (λ b. length (bound grid b)) same in
    let last =
      after-Runs out v.opened grid m' (k + 1) answered.0 answered.1 (puts.notifies ∙ kept)
        (omega (arith, v.small, sizes)) puts.ready in
    rw puts.fine (
      last.sent
      ∙ ap (λ b. sent_onto (notify_bodies (bound grid b)) (bodies answered.1.log)) same
      ∙ ap (sent_onto (notify_bodies (afters grid m)))
          (puts.sent ∙ ap (λ b. response_body env resp ∷ b) first.sent))

process_task-bodies :
    (env : ServerEnv) (n : ℕ) (m : MessageOrderingManager) (task : AsyncTask)
    (resp : UpstreamResponse) (s : Session) (srv : Server)
    → session_at task.session srv ≡ some s
    → is_session_valid (some s) ≡ true
    → env.call task.service_type task.upstream_req ≡ inr resp
    → CanAnswer env task.session (u32 task.request.seq_id) n m s
    → let grid = u32 task.request.seq_id in
      bodies ((process_task env task srv).wires task.session).log
      ≡ sent_onto (notify_bodies (afters grid m)) (
          response_body env resp
          ∷ sent_onto (notify_bodies (befores grid m)) (bodies (srv.wires task.session).log))
unfolding process_task
process_task-bodies env n m task resp s srv here valid called v =
    let p = task.session in
    let srv' = record srv {
      upstream_calls = (task.service_type, task.upstream_req) ∷ srv.upstream_calls;
    } in
    let through =
      send_by-Through p s
        (answer_async env (sender_env env p) (u32 task.request.seq_id) task.request.msg_id resp)
        srv' here in
    rw (here, valid, called)
      (ap (λ (k : Wire). bodies k.log) through.wire
        ∙ answer_async-bodies env p n (u32 task.request.seq_id) task.request.msg_id m resp s
            (srv.wires p) v)

-- A worker sends the notifies bound before a response, then the response, then the notifies bound
-- after it. A defect of the other path: where the request is answered at once, the notifies that
-- are bound before the response are sent after it.
pub before_notifies-misplaced :
    (env : ServerEnv) (n : ℕ) (m : MessageOrderingManager) (task : AsyncTask)
    (resp : UpstreamResponse) (s : Session) (srv : Server)
    → session_at task.session srv ≡ some s
    → is_session_valid (some s) ≡ true
    → env.call task.service_type task.upstream_req ≡ inr resp
    → CanAnswer env task.session (u32 task.request.seq_id) n m s
    → let p = task.session in
      let grid = u32 task.request.seq_id in
      let before = notify_bodies (befores grid m) in
      let after = notify_bodies (afters grid m) in
      let sent = bodies (srv.wires p).log in
      let at_once =
        (handle_business_request_sync env p task.request task.service_type task.upstream_req false s
          srv).0 in
      (bodies ((process_task env task srv).wires p).log
        ≡ sent_onto after (response_body env resp ∷ sent_onto before sent))
      × (bodies (at_once.wires p).log
          ≡ sent_onto after (sent_onto before (response_body env resp ∷ sent)))
unfolding handle_business_request_sync
before_notifies-misplaced env n m task resp s srv here valid called v =
    let srv' = record srv {
      upstream_calls = (task.service_type, task.upstream_req) ∷ srv.upstream_calls;
    } in
    (
      process_task-bodies env n m task resp s srv here valid called v,
      rw called (answer_sync-bodies env task.session n m task.request resp s srv' here v),
    )
