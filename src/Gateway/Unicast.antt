-- ===== src/Gateway/Unicast.antt =====
-- internal/gateway/unicast_service.go and server_push.go: pushes that upstream services ask for.
use gateway_test.Prelude.{
  ℕ, ◌+◌, String, Bool, true, false, not, ◌||◌, Option, none, some, List, [], ◌∷◌, eqb,
  if◌then◌else◌, ◌==◌, nat_eq, string_eq, get_elem?, u32, pos, is_some,
}
use gateway_test.Proto.{
  UnicastPushRequest, UnicastPushResponse, BroadcastRequest, NotifySyncHint, before_response,
  after_response, BusinessResponse,
}
use gateway_test.Session.Ordering.{
  NotifyBindMsgItem, MessageOrderingManager, add_notify_bind_before_rsp, add_notify_bind_after_rsp,
}
use gateway_test.Session.State.{Session, is_normal}
use gateway_test.Session.Manager.{find_session, find_by_uid}
use gateway_test.Gateway.Sender.{SenderError, push_business}
use gateway_test.Gateway.Server.{Server, ServerEnv, sender_env, put_session, send_by}

pub data UnicastError : Type 0 where
  no_session not_normal bind_id_required bind_failed marshal_failed session_closed : UnicastError
  unknown_target : UnicastError
  send_failed : SenderError → UnicastError

abbrev pub bytes_or : List ℕ → Option (List ℕ) → List ℕ
bytes_or otherwise none = otherwise
bytes_or otherwise (some bytes) = bytes

abbrev sent_or : Server × Option SenderError → Server × Option UnicastError
sent_or (srv, none) = (srv, none)
sent_or (srv, some e) = (srv, some (send_failed e))

module _ (env : ServerEnv) where
  -- The bytes of the request itself where it cannot be marshalled.
  unfoldable pub create_notify_bind_msg_item : UnicastPushRequest → NotifyBindMsgItem
  create_notify_bind_msg_item req = record {
    notify_data = bytes_or req.body (env.formats.unicast_push.marshal req);
    msg_type = req.msg_type;
    title = req.title;
    content = req.content;
    metadata = req.metadata;
    sync_hint = req.sync_hint;
    bind_grid = u32 req.bind_client_seq_id;
    create_time = env.unix_now;
  }

  abbrev Adds : Type 0
  Adds = ℕ → Option NotifyBindMsgItem → MessageOrderingManager → MessageOrderingManager × Bool

  bound_at : ℕ → Session → Server → MessageOrderingManager × Bool → Server × Option UnicastError
  bound_at p s srv (m, ok) = (
    put_session p (record s { ordering_manager = some m }) srv,
    if ok then none else some bind_failed,
  )

  bind_in :
      Adds
      → ℕ
      → NotifyBindMsgItem
      → ℕ
      → Session
      → Option MessageOrderingManager
      → Server
      → Server × Option UnicastError
  unfolding bound_at
  bind_in add grid item p s none srv = (srv, some bind_failed)
  bind_in add grid item p s (some m) srv = bound_at p s srv (add grid (some item) m)

  bind_notify : Adds → UnicastPushRequest → ℕ → Session → Server → Server × Option UnicastError
  unfolding bind_in
  bind_notify add req p s srv =
      let grid = u32 req.bind_client_seq_id in
      if eqb grid 0
      then (srv, some bind_id_required)
      else bind_in add grid (create_notify_bind_msg_item req) p s s.ordering_manager srv

  -- A push of a marshalled response.
  pub push_marshalled : ℕ → Option (List ℕ) → Server → Server × Option UnicastError
  push_marshalled p none srv = (srv, some marshal_failed)
  push_marshalled p (some payload) srv =
      sent_or (send_by p (push_business (sender_env env p) payload) srv)

  abbrev pub titled_response : String → String → List ℕ → BusinessResponse
  titled_response msg_type title bytes = record {
    code = pos 200;
    message = env.titled msg_type title;
    message_data = bytes;
  }

  notify_by_hint :
      NotifySyncHint → UnicastPushRequest → ℕ → Session → Server → Server × Option UnicastError
  unfolding bind_notify push_marshalled
  notify_by_hint before_response req p s srv = bind_notify add_notify_bind_before_rsp req p s srv
  notify_by_hint after_response req p s srv = bind_notify add_notify_bind_after_rsp req p s srv
  notify_by_hint _ req p s srv =
      push_marshalled p
        (env.formats.business_response.marshal (titled_response req.msg_type req.title req.body))
        srv

  unfoldable pub process_notify_message :
      UnicastPushRequest → ℕ → Session → Server → Server × Option UnicastError
  unfolding notify_by_hint
  process_notify_message req p s srv = notify_by_hint req.sync_hint req p s srv

  -- The session that a target names must be activated.
  unicast_found : UnicastPushRequest → Option (ℕ × Session) → Server → Server × Option UnicastError
  unicast_found req none srv = (srv, some no_session)
  unicast_found req (some (p, s)) srv =
      if is_normal s.state then process_notify_message req p s srv else (srv, some not_normal)

  unfoldable pub push_to_client : UnicastPushRequest → Server → Server × Option UnicastError
  unfolding unicast_found
  push_to_client req srv =
      if req.target_type == "session"
      then unicast_found req (find_session req.target_id srv.manager) srv
      else if req.target_type == "openid"
      then unicast_found req (find_by_uid req.target_id srv.manager) srv
      else (srv, some unknown_target)

  -- The answer to the caller: an error is no gRPC error, but a field of the response.
  unfoldable pub push_response : Option UnicastError → String → UnicastPushResponse
  push_response none text = record { success = true; message = "推送成功"; error_code = "" }
  push_response (some e) text = record {
    success = false;
    message = text;
    error_code = "PUSH_FAILED";
  }

  -- One session of a broadcast; the number of messages sent.
  broadcast_to : BroadcastRequest → ℕ → Option Session → Server → Server × ℕ
  broadcast_to req p none srv = (srv, 0)
  broadcast_to req p (some s) srv =
      let (srv', e) =
        push_marshalled p
          (env.formats.business_response.marshal
            (titled_response req.msg_type req.title req.message_data))
          srv in
      if not (is_normal s.state) || s.closed then (srv, 0) else (srv', if is_some e then 0 else 1)

  -- The loop over the index by id, in the order of its list.
  pub broadcast_loop : BroadcastRequest → List (String × ℕ) → Server → Server × ℕ
  unfolding broadcast_to
  broadcast_loop req [] srv = (srv, 0)
  broadcast_loop req ((_, p) ∷ index) srv =
      let (srv', n) = broadcast_to req p (get_elem? srv.manager.cells p) srv in
      let (srv'', total) = broadcast_loop req index srv' in (srv'', n + total)

  unfoldable pub broadcast_to_clients : BroadcastRequest → Server → Server × ℕ
  unfolding broadcast_loop
  broadcast_to_clients req srv = broadcast_loop req srv.manager.sessions srv

  push_open : List ℕ → Option (ℕ × Session) → Server → Server × Option UnicastError
  push_open bytes none srv = (srv, some no_session)
  push_open bytes (some (p, s)) srv =
      if s.closed
      then (srv, some session_closed)
      else sent_or (send_by p (push_business (sender_env env p) bytes) srv)

  -- PushToSession does not ask whether the session is activated.
  unfoldable pub push_to_session : String → List ℕ → Server → Server × Option UnicastError
  unfolding push_open
  push_to_session session_id bytes srv = push_open bytes (find_session session_id srv.manager) srv

  by_session : List ℕ → Option (ℕ × Session) → Server → Server × Option UnicastError
  by_session bytes none srv = (srv, some no_session)
  by_session bytes (some (_, s)) srv = push_to_session s.id bytes srv

  unfoldable pub push_to_open_id : String → List ℕ → Server → Server × Option UnicastError
  unfolding by_session
  push_to_open_id open_id bytes srv = by_session bytes (find_by_uid open_id srv.manager) srv

  unfoldable pub handle_unicast_push_request :
      String → String → List ℕ → Server → Server × Option UnicastError
  handle_unicast_push_request target_type target_id bytes srv =
      if target_type == "session"
      then push_to_session target_id bytes srv
      else if target_type == "openid"
      then push_to_open_id target_id bytes srv
      else (srv, some unknown_target)
