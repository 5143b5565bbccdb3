-- ===== src/Gateway/Dispatch/Connected.antt =====
-- A message changes neither the count of open connections nor the length of a bucket, and while
-- buckets have a length it is always handled.
use gateway_test.Gateway.Server.{respond_error, Server, ServerEnv, session_at, sender_env}
use gateway_test.Prelude.{
  ℕ, subst, String, ◌≡◌, refl, ap, ◌∙◌, ◌≢◌, Bool, true, false, Option, none, some, List, nat_eq,
  string_eq, pos, if_both,
}
use gateway_test.Proto.{
  ClientRequest, RequestType, request_start, request_stop, request_heartbeat, request_business,
  request_ack, request_unknown, other_request,
}
use gateway_test.Message.Create.{decode_client_request}
use gateway_test.Session.State.{Session}
use gateway_test.Gateway.Overload.{OverloadProtector, allow_new_request}
use gateway_test.Gateway.Overload.Buckets.{count_of, IsAnswer, answer, allow-IsAnswer}
use gateway_test.Gateway.Sender.{send_start_response}
use gateway_test.Gateway.Server.Facts.{send_by-KeepsRest, respond_error-KeepsRest}
use gateway_test.Gateway.Handlers.Connected.{
  HasCount, heartbeat_counts, stop_counts, ack_counts, start_sync_counts, business_counts,
}
use gateway_test.Gateway.Dispatch.{
  handle_message_event, decoded, admitted, dispatch, overload_answer, send_overload_error_response,
  touch, skips_overload,
}

-- A message that was handled.
pub data IsHandled (op : OverloadProtector) : Option (Server × Bool) → Type 0 where
  handled : (srv : Server) (b : Bool) → HasCount op srv → IsHandled op (some (srv, b))

module _ (env : ServerEnv) (p : ℕ) where
  dispatch_counts :
      (t : RequestType) (req : ClientRequest) (srv : Server)
      → HasCount srv.protector (dispatch env t p req srv).0
  unfolding dispatch
  dispatch_counts request_start req srv = start_sync_counts env p req srv
  dispatch_counts request_stop req srv = stop_counts env p req srv
  dispatch_counts request_heartbeat req srv = heartbeat_counts env p req srv
  dispatch_counts request_business req srv = business_counts env p req srv
  dispatch_counts request_ack req srv = ack_counts env p req srv
  dispatch_counts request_unknown req srv = refl
  dispatch_counts (other_request _) req srv = refl

  error_counts :
      (req : ClientRequest) (message detail : String) (srv : Server)
      → HasCount srv.protector (respond_error env p req.msg_id (pos 503) message detail srv)
  error_counts req message detail srv =
      ap count_of (respond_error-KeepsRest env p req.msg_id (pos 503) message detail srv).protector

  refusal_counts :
      (t : RequestType) (req : ClientRequest) (srv : Server)
      → HasCount srv.protector (overload_answer env t p req srv)
  unfolding overload_answer
  refusal_counts request_start req srv =
      ap count_of
        (send_by-KeepsRest p (send_start_response (sender_env env p) req.msg_id false (pos 0) "")
          srv).protector
  refusal_counts request_stop req srv = refl
  refusal_counts request_heartbeat req srv = error_counts req _ _ srv
  refusal_counts request_business req srv = error_counts req _ _ srv
  refusal_counts request_ack req srv = error_counts req _ _ srv
  refusal_counts request_unknown req srv = error_counts req _ _ srv
  refusal_counts (other_request _) req srv = error_counts req _ _ srv

  admitted-IsHandled :
      (req : ClientRequest) (o : Option (OverloadProtector × Bool)) (srv : Server)
      → IsAnswer srv.protector o
      → IsHandled srv.protector (admitted env p req o srv)
  unfolding admitted send_overload_error_response
  admitted-IsHandled req none srv v = elim v [ ]
  admitted-IsHandled req (some (op, true)) srv (answer _ _ same) =
      handled _ _ (dispatch_counts req.request_type req (record srv { protector = op }) ∙ same)
  admitted-IsHandled req (some (op, false)) srv (answer _ _ same) =
      handled _ _ (refusal_counts req.request_type req (record srv { protector = op }) ∙ same)

  decoded-IsHandled :
      (o : Option ClientRequest) (srv : Server)
      → srv.protector.qps_window.bucket_size ≢ pos 0
      → IsHandled srv.protector (decoded env p o srv)
  unfolding decoded
  decoded-IsHandled none srv nonempty = handled _ _ refl
  decoded-IsHandled (some req) srv nonempty =
      if_both (IsHandled srv.protector) (skips_overload req.request_type)
        (handled _ _ (dispatch_counts req.request_type req srv))
        (admitted-IsHandled req (allow_new_request env.now srv.protector) srv
          (allow-IsAnswer env.now srv.protector nonempty))

  touch_protector :
      (o : Option Session) (srv : Server) → (touch env.now p o srv).protector ≡ srv.protector
  unfolding touch
  touch_protector none srv = refl
  touch_protector (some s) srv = refl

  pub message-IsHandled :
      (bytes : List ℕ) (srv : Server)
      → srv.protector.qps_window.bucket_size ≢ pos 0
      → IsHandled srv.protector (handle_message_event env p bytes srv)
  unfolding handle_message_event
  message-IsHandled bytes srv nonempty =
      let srv' = touch env.now p (session_at p srv) srv in
      let same = touch_protector (session_at p srv) srv in
      subst (λ op. IsHandled op (handle_message_event env p bytes srv)) same
        (decoded-IsHandled (decode_client_request env.formats.client_request bytes) srv'
          (rw same nonempty))
