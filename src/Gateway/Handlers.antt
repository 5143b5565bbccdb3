-- ===== src/Gateway/Handlers.antt =====
-- internal/gateway/handlers.go: the handlers of the five requests. Each returns the server and
-- whether it succeeded. `p` is the cell of the session that the connection holds.
pub mod Answers
pub mod Gate
pub mod Connected
use gateway_test.Prelude.{
  ℕ, String, refl, ap, ◌⊎◌, inl, inr, Bool, true, false, not, ◌&&◌, Option, none, some, [], ◌∷◌,
  arith, ltb, eqb, if◌then◌else◌, ◌==◌, nat_eq, string_eq, u32, ℤ, pos, is_some, eqb_ℤ,
}
use gateway_test.Prelude.Dict.{lookup}
use gateway_test.Proto.{
  ClientRequest, BusinessRequest, StartRequest, StopRequest, HeartbeatRequest, ClientAck,
  UpstreamRequest, UpstreamResponse,
}
use gateway_test.Session.State.{Session, can_process_login_request, can_process_business_request}
use gateway_test.Session.Manager.{remove_session_with_delay}
use gateway_test.Session.Manager.Calls.{
  ack_messages_up_to, activate_session, validate_client_sequence, get_expected_client_sequence,
  bind_session,
}
use gateway_test.Gateway.Overload.{allow_upstream_request, on_upstream_start, on_upstream_end}
use gateway_test.Gateway.Router.{determine_upstream_service}
use gateway_test.Gateway.Sender.{
  SenderError, send_heartbeat_response, send_business_response, send_start_response,
  resync_session_sequence,
}
use gateway_test.Gateway.Server.{
  AsyncTask, AsyncProcessor, Server, ServerEnv, sender_env, session_at, put_session, send_by,
  respond_error,
}
use gateway_test.Gateway.Notifies.{process_bound_notifies}
use gateway_test.Gateway.Async.{submit_task}

-- A failed send makes the handler fail.
abbrev pub unless_failed : Server × Option SenderError → Server × Bool
unless_failed (srv, e) = (srv, not (is_some e))

-- ResyncSessionSequence on the session of a cell.
pub resync_at : ℕ → ℕ → Option Session → Server → Server
resync_at p ack none srv = srv
resync_at p ack (some s) srv = put_session p (resync_session_sequence ack s) srv

module _ (env : ServerEnv) where
  heartbeat_read : ℕ → ClientRequest → Option HeartbeatRequest → Server → Server × Bool
  heartbeat_read p req none srv = (srv, false)
  heartbeat_read p req (some beat) srv =
      unless_failed (
        send_by p (send_heartbeat_response (sender_env env p) req.msg_id beat.client_timestamp) srv)

  unfoldable pub handle_heartbeat : ℕ → ClientRequest → Server → Server × Bool
  unfolding heartbeat_read
  handle_heartbeat p req srv =
      if not (eqb req.seq_id 0)
      then (srv, false)
      else heartbeat_read p req (env.formats.heartbeat_request.unmarshal req.payload) srv

  -- The zone of a response: 0 without a header, `none` where it cannot be parsed.
  zone_of : Option String → Option ℤ
  zone_of none = some (pos 0)
  zone_of (some zone) = if zone == "" then some (pos 0) else env.parse_int zone

  activate_zone : Option ℤ → Session → Server → Server × Bool
  activate_zone none s srv = (srv, false)
  activate_zone (some zone) s srv =
      let (m, e) = activate_session s.id zone srv.manager in
      (record srv { manager = m }, not (is_some e))

  unfoldable pub handle_login_success : UpstreamResponse → Session → Server → Server × Bool
  unfolding zone_of activate_zone
  handle_login_success resp s srv = activate_zone (zone_of (lookup "zone" resp.headers)) s srv

  -- The response, and then the notifies, whose errors are only logged.
  answer_sync : ℕ → ClientRequest → UpstreamResponse → Server → Server × Bool
  answer_sync p req resp srv =
      let (srv', e) =
        send_by p
          (send_business_response (sender_env env p) req.msg_id resp.code resp.message
            resp.message_data resp.headers)
          srv in
      if is_some e
      then (srv', false)
      else ((send_by p (process_bound_notifies (sender_env env p) (u32 req.seq_id)) srv').0, true)

  after_call :
      ℕ → ClientRequest → Bool → Session → String ⊎ UpstreamResponse → Server → Server × Bool
  unfolding answer_sync
  after_call p req is_login s (inl message) srv =
      (respond_error env p req.msg_id (pos 500) "上游服务错误" message srv, false)
  after_call p req is_login s (inr resp) srv =
      let (srv', activated) = handle_login_success resp s srv in
      if not (is_login && eqb_ℤ resp.code (pos 200))
      then answer_sync p req resp srv
      else if activated
      then answer_sync p req resp srv'
      else (respond_error env p req.msg_id (pos 500) "登录处理失败" env.error_text srv', false)

  unfoldable pub handle_business_request_sync :
      ℕ → ClientRequest → String → UpstreamRequest → Bool → Session → Server → Server × Bool
  unfolding after_call
  handle_business_request_sync p req service upstream_req is_login s srv =
      after_call p req is_login s (env.call service upstream_req)
        (record srv { upstream_calls = (service, upstream_req) ∷ srv.upstream_calls })

  abbrev pub is_login_action : BusinessRequest → Bool
  is_login_action b = env.text.to_lower b.action == "hello"

  abbrev pub upstream_request_of : ClientRequest → BusinessRequest → Session → UpstreamRequest
  upstream_request_of req b s = record {
    session_id = s.id;
    openid = s.open_id;
    action = b.action;
    params = b.params;
    message_data = b.message_data;
    headers = req.headers;
    client_seq_id = req.seq_id;
  }

  submitted : ℕ → ClientRequest → AsyncProcessor × Bool → Server → Server × Bool
  submitted p req (ap, true) srv = (record srv { async_processor = some ap }, true)
  submitted p req (ap, false) srv = (
    respond_error env p req.msg_id (pos 503) "服务繁忙" "异步处理队列已满，请稍后重试"
        (record srv { async_processor = some ap }),
    false,
  )

  abbrev pub task_of : ℕ → ClientRequest → BusinessRequest → Session → AsyncTask
  task_of p req b s = record {
    session = p;
    request = req;
    business_req = b;
    service_type = determine_upstream_service env.text b;
    upstream_req = upstream_request_of req b s;
    is_login = is_login_action b;
  }

  -- A login waits for the upstream service; another request does so where no processor is there.
  pub route_business :
      ℕ → ClientRequest → BusinessRequest → Session → Option AsyncProcessor → Server → Server × Bool
  unfolding submitted
  route_business p req b s none srv =
      handle_business_request_sync p req (determine_upstream_service env.text b)
        (upstream_request_of req b s) (is_login_action b) s srv
  route_business p req b s (some ap) srv =
      if is_login_action b
      then handle_business_request_sync p req (determine_upstream_service env.text b)
          (upstream_request_of req b s) true s srv
      else submitted p req (submit_task (task_of p req b s) ap) srv

  -- OnUpstreamStart, and OnUpstreamEnd when the function returns.
  admit_business : ℕ → ClientRequest → BusinessRequest → Session → Server → Server × Bool
  unfolding route_business
  admit_business p req b s srv =
      let (op, admitted) = allow_upstream_request srv.protector in
      let (srv', done) =
        route_business p req b s srv.async_processor
          (record srv { protector = on_upstream_start op }) in
      if admitted then (record srv' { protector = on_upstream_end srv'.protector }, done) else (
        respond_error env p req.msg_id (pos 503) "上游服务繁忙" "上游服务当前负载过高，请稍后重试"
            (record srv { protector = op }),
        false,
      )

  check_state : ℕ → ClientRequest → BusinessRequest → Session → Server → Server × Bool
  unfolding admit_business
  check_state p req b s srv =
      if is_login_action b
      then (if can_process_login_request s
          then admit_business p req b s srv
          else (respond_error env p req.msg_id (pos 403) "会话状态错误" "当前状态不允许登录" srv, false))
      else if can_process_business_request s
      then admit_business p req b s srv
      else (respond_error env p req.msg_id (pos 401) "未登录" "请先登录" srv, false)

  business_read : ℕ → ClientRequest → Option BusinessRequest → Session → Server → Server × Bool
  unfolding check_state
  business_read p req none s srv =
      (respond_error env p req.msg_id (pos 400) "解析请求失败" env.error_text srv, false)
  business_read p req (some b) s srv = check_state p req b s srv

  -- The session as it is after its sequence number was checked.
  business_checked : ℕ → ClientRequest → Option Session → Server → Server × Bool
  unfolding business_read
  business_checked p req none srv = (srv, false)
  business_checked p req (some s) srv =
      business_read p req (env.formats.business_request.unmarshal req.payload) s srv

  business_of : ℕ → ClientRequest → Option Session → Server → Server × Bool
  unfolding business_checked
  business_of p req none srv = (srv, false)
  business_of p req (some s) srv =
      let (m, valid) = validate_client_sequence s.id req.seq_id srv.manager in
      let srv' = record srv { manager = m } in
      if valid then business_checked p req (session_at p srv') srv' else (
        respond_error env p req.msg_id (pos 400) "无效的序列号"
            (env.sequence_detail (get_expected_client_sequence s.id m) req.seq_id) srv',
        false,
      )

  unfoldable pub handle_business_request : ℕ → ClientRequest → Server → Server × Bool
  unfolding business_of
  handle_business_request p req srv = business_of p req (session_at p srv) srv

  ack_read : ℕ → Option ClientAck → Option Session → Server → Server × Bool
  unfolding resync_at
  ack_read p (some ack) (some s) srv =
      let (m, count) = ack_messages_up_to s.id ack.acked_seq_id srv.manager in
      let srv' = record srv { manager = m } in
      (resync_at p ack.acked_seq_id (session_at p srv') srv', ltb 0 count)
  ack_read p _ _ srv = (srv, false)

  unfoldable pub handle_ack : ℕ → ClientRequest → Server → Server × Bool
  unfolding ack_read
  handle_ack p req srv =
      if not (eqb req.seq_id 0)
      then (srv, false)
      else ack_read p (env.formats.client_ack.unmarshal req.payload) (session_at p srv) srv

  -- What follows a bind that succeeds.
  start_bound : ℕ → ClientRequest → StartRequest → Session → Server → Server × Bool
  unfolding resync_at
  start_bound p req start s srv =
      let acked = record srv {
        manager = (ack_messages_up_to s.id start.last_acked_seq_id srv.manager).0;
      } in
      let caught_up =
        if ltb 0 start.last_acked_seq_id
        then resync_at p start.last_acked_seq_id (session_at p acked) acked
        else srv in
      unless_failed
        (send_by p (send_start_response (sender_env env p) req.msg_id true (pos 30) s.id) caught_up)

  -- The session takes the user's id before the bind can fail.
  start_read : ℕ → ClientRequest → Option StartRequest → Session → Server → Server × Bool
  unfolding start_bound
  start_read p req none s srv =
      (respond_error env p req.msg_id (pos 400) "解析请求失败" env.error_text srv, false)
  start_read p req (some start) s srv =
      let named = put_session p (record s { open_id = start.openid; client_id = req.openid }) srv in
      let (m, e) = bind_session p named.manager in
      let bound = record named { manager = m } in
      if start.openid == ""
      then (respond_error env p req.msg_id (pos 400) "缺少OpenID" "OpenID不能为空" srv, false)
      else if is_some e
      then (respond_error env p req.msg_id (pos 500) "会话绑定失败" env.error_text bound, false)
      else start_bound p req start s bound

  start_of : ℕ → ClientRequest → Option Session → Server → Server × Bool
  unfolding start_read
  start_of p req none srv = (srv, false)
  start_of p req (some s) srv =
      if not (eqb req.seq_id 0)
      then (respond_error env p req.msg_id (pos 400) "无效的序列号" "START消息序列号必须为0" srv, false)
      else start_read p req (env.formats.start_request.unmarshal req.payload) s srv

  unfoldable pub handle_start_sync : ℕ → ClientRequest → Server → Server × Bool
  unfolding start_of
  handle_start_sync p req srv = start_of p req (session_at p srv) srv

  stop_read : Option StopRequest → Option Session → Server → Server × Bool
  stop_read (some stop) (some s) srv =
      (record srv { manager = remove_session_with_delay s.id false srv.manager }, false)
  stop_read _ _ srv = (srv, false)

  -- The reason is only logged, and the result is false on every branch.
  unfoldable pub handle_stop : ℕ → ClientRequest → Server → Server × Bool
  unfolding stop_read
  handle_stop p req srv =
      stop_read (env.formats.stop_request.unmarshal req.payload) (session_at p srv) srv
