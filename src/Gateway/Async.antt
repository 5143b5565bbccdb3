-- ===== src/Gateway/Async.antt =====
-- internal/gateway/async_processor.go: business requests that wait for a worker. A submission and the
-- work on one task are steps; `workers` interleaves them.
use gateway_test.Prelude.{
  ℕ, String, ap, ◌⊎◌, inl, inr, Bool, true, false, not, Option, none, some, List, [], ◌∷◌, ◌++◌,
  ltb, if◌then◌else◌, nat_eq, string_eq, length, u32, pos, is_some,
}
use gateway_test.Proto.{UpstreamResponse}
use gateway_test.Session.State.{Session, SessionState, closed_state}
use gateway_test.Session.Queue.{Wire}
use gateway_test.Gateway.Sender.{SenderEnv, Sent, send_business_response}
use gateway_test.Gateway.Server.{
  AsyncTask, AsyncProcessor, Server, ServerEnv, sender_env, session_at, send_by, respond_error,
}
use gateway_test.Gateway.Notifies.{send_before_notifies, send_after_notifies}

unfoldable pub new_async_request_processor : ℕ → ℕ → AsyncProcessor
new_async_request_processor max_workers max_queue_size = record {
  max_workers = max_workers;
  max_queue_size = max_queue_size;
  task_queue = [];
  started = false;
  stopping = false;
}

-- The workers are goroutines. False where it was started before.
unfoldable pub start : AsyncProcessor → AsyncProcessor × Bool
start ap = if ap.started then (ap, false) else (record ap { started = true }, true)

-- The stop channel is closed, and the workers have returned.
unfoldable pub stop : AsyncProcessor → AsyncProcessor
stop ap = if ap.started then record ap { started = false; stopping = true } else ap

-- A send on a channel that is full takes the default branch.
unfoldable pub submit_task : AsyncTask → AsyncProcessor → AsyncProcessor × Bool
submit_task task ap =
    if not ap.started
    then (ap, false)
    else if ltb (length ap.task_queue) ap.max_queue_size
    then (record ap { task_queue = ap.task_queue ++ task ∷ [] }, true)
    else (ap, false)

unfoldable pub get_queue_length : AsyncProcessor → ℕ
get_queue_length ap = length ap.task_queue

abbrev is_closed_state : SessionState → Bool
is_closed_state closed_state = true
is_closed_state _ = false

-- The test reads the state, and the connection that a session always has; it does not read whether
-- the session is closed.
abbrev pub is_session_valid : Option Session → Bool
is_session_valid none = false
is_session_valid (some s) = not (is_closed_state s.state)

module _ (env : ServerEnv) where
  -- The three sends of a task. An error of the first loop is only logged.
  unfoldable pub answer_async : SenderEnv → ℕ → ℕ → UpstreamResponse → Session → Wire → Sent
  answer_async out grid msg_id resp s w =
      let before = send_before_notifies out grid s w in
      let answered =
        send_business_response out msg_id resp.code resp.message resp.message_data resp.headers
          before.0 before.1 in
      let after = send_after_notifies out grid answered.0 answered.1 in
      if is_some answered.2 then answered else (after.0, after.1, none)

  finish_task : AsyncTask → String ⊎ UpstreamResponse → Server → Server
  finish_task task (inl message) srv =
      respond_error env task.session task.request.msg_id (pos 500) "上游服务错误" message srv
  finish_task task (inr resp) srv =
      (send_by task.session
        (answer_async (sender_env env task.session) (u32 task.request.seq_id) task.request.msg_id
          resp)
        srv).0

  unfoldable pub process_task : AsyncTask → Server → Server
  unfolding finish_task
  process_task task srv =
      let called = record srv {
        upstream_calls = (task.service_type, task.upstream_req) ∷ srv.upstream_calls;
      } in
      if is_session_valid (session_at task.session srv)
      then finish_task task (env.call task.service_type task.upstream_req) called
      else srv

  work_on : Option AsyncProcessor → List AsyncTask → Server → Server
  work_on none tasks srv = srv
  work_on (some ap) [] srv = srv
  work_on (some ap) (task ∷ tasks) srv =
      process_task task (record srv { async_processor = some (record ap { task_queue = tasks }) })

  tasks_of : Option AsyncProcessor → List AsyncTask
  tasks_of none = []
  tasks_of (some ap) = if ap.started then ap.task_queue else []

  -- One worker takes the oldest task.
  unfoldable pub worker_step : Server → Server
  unfolding work_on tasks_of
  worker_step srv = work_on srv.async_processor (tasks_of srv.async_processor) srv
