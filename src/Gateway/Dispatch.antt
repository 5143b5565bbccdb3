-- ===== src/Gateway/Dispatch.antt =====
-- internal/gateway/server_connection.go: the first message of a connection, and what is done with
-- each message. A panic, which the window of the overload protector can raise, gives `none`.
pub mod Connected
use gateway_test.Prelude.{
  ℕ, String, Bool, true, false, Option, none, some, List, if◌then◌else◌, nat_eq, string_eq, pos,
  is_some,
}
use gateway_test.Prelude.Dict.{Dict, lookup}
use gateway_test.Proto.{
  ClientRequest, RequestType, request_start, request_stop, request_heartbeat, request_business,
  request_ack, StartRequest, BusinessRequest,
}
use gateway_test.Message.Create.{decode_client_request}
use gateway_test.Session.State.{Session, update_activity}
use gateway_test.Gateway.Overload.{OverloadProtector, allow_new_request}
use gateway_test.Gateway.Sender.{send_start_response}
use gateway_test.Gateway.Server.{
  Server, ServerEnv, sender_env, session_at, put_session, send_by, respond_error,
}
use gateway_test.Gateway.Handlers.{
  handle_start_sync, handle_stop, handle_heartbeat, handle_business_request, handle_ack,
}

abbrev pub skips_overload : RequestType → Bool
skips_overload request_heartbeat = true
skips_overload request_ack = true
skips_overload _ = false

touch : ℕ → ℕ → Option Session → Server → Server
touch now p none srv = srv
touch now p (some s) srv = put_session p (update_activity now s) srv

module _ (env : ServerEnv) where
  overload_answer : RequestType → ℕ → ClientRequest → Server → Server
  overload_answer request_start p req srv =
      (send_by p (send_start_response (sender_env env p) req.msg_id false (pos 0) "") srv).0
  overload_answer request_stop p req srv = srv
  overload_answer _ p req srv = respond_error env p req.msg_id (pos 503) "服务器过载" "请求过多，请稍后重试" srv

  unfoldable pub send_overload_error_response : ℕ → ClientRequest → Server → Server
  unfolding overload_answer
  send_overload_error_response p req srv = overload_answer req.request_type p req srv

  dispatch : RequestType → ℕ → ClientRequest → Server → Server × Bool
  dispatch request_start p req srv = handle_start_sync env p req srv
  dispatch request_stop p req srv = handle_stop env p req srv
  dispatch request_heartbeat p req srv = handle_heartbeat env p req srv
  dispatch request_business p req srv = handle_business_request env p req srv
  dispatch request_ack p req srv = handle_ack env p req srv
  dispatch _ p req srv = (srv, false)

  admitted : ℕ → ClientRequest → Option (OverloadProtector × Bool) → Server → Option (Server × Bool)
  unfolding dispatch
  admitted p req none srv = none
  admitted p req (some (op, true)) srv =
      some (dispatch req.request_type p req (record srv { protector = op }))
  admitted p req (some (op, false)) srv =
      some (send_overload_error_response p req (record srv { protector = op }), false)

  decoded : ℕ → Option ClientRequest → Server → Option (Server × Bool)
  unfolding admitted
  decoded p none srv = some (srv, false)
  decoded p (some req) srv =
      if skips_overload req.request_type
      then some (dispatch req.request_type p req srv)
      else admitted p req (allow_new_request env.now srv.protector) srv

  unfoldable pub handle_message_event : ℕ → List ℕ → Server → Option (Server × Bool)
  unfolding decoded touch
  handle_message_event p bytes srv =
      decoded p (decode_client_request env.formats.client_request bytes)
        (touch env.now p (session_at p srv) srv)

  abbrev param : String → Dict String String → String
  param key params = elim (lookup key params) [ none ↦ "" | some value ↦ value ]

  start_identity : Option StartRequest → String × String
  start_identity none = ("", "")
  start_identity (some start) = (start.openid, start.client_id)

  business_identity : Option BusinessRequest → String × String
  business_identity none = ("", "")
  business_identity (some b) = (param "Openid" b.params, param "clientId" b.params)

  -- The user and the client that the first message names.
  unfoldable pub first_identity : RequestType → List ℕ → String × String
  unfolding start_identity business_identity
  first_identity request_start payload =
      start_identity (env.formats.start_request.unmarshal payload)
  first_identity request_business payload =
      business_identity (env.formats.business_request.unmarshal payload)
  first_identity _ payload = ("", "")
