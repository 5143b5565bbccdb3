-- ===== src/Gateway/Handlers/Connected.antt =====
-- No handler changes the count of open connections or the window of requests.
use gateway_test.Gateway.Overload.Buckets.{count_of}
use gateway_test.Gateway.Handlers.Gate.{route_protector}
use gateway_test.Session.State.{can_process_business_request, can_process_login_request, Session}
use gateway_test.Gateway.Server.{
  sender_env, put_session, session_at, Server, ServerEnv, respond_error,
}
use gateway_test.Gateway.Overload.{
  on_upstream_end, on_upstream_start, allow_upstream_request, OverloadProtector,
}
use gateway_test.Session.Manager.Calls.{bind_session, validate_client_sequence, ack_messages_up_to}
use gateway_test.Gateway.Sender.{send_start_response}
use gateway_test.Gateway.Handlers.{
  is_login_action, check_state, admit_business, business_read, start_of, business_of,
  business_checked, handle_start_sync, handle_business_request, start_bound, start_read,
  heartbeat_read, handle_heartbeat, resync_at, handle_stop, stop_read, handle_ack, ack_read,
}
use gateway_test.Proto.{BusinessRequest, StartRequest, ClientRequest, HeartbeatRequest}
use gateway_test.Prelude.{
  ℕ, String, ◌≡◌, refl, ap, ◌∙◌, Bool, true, not, Option, none, some, arith, ltb, eqb,
  if◌then◌else◌, ◌==◌, nat_eq, string_eq, ℤ, pos, is_some, if_both,
}
use gateway_test.Gateway.Server.Facts.{send_by-KeepsRest, respond_error-KeepsRest}

-- The count of connections and the length of a bucket are those of `op`.
abbrev pub HasCount : OverloadProtector → Server → Type 0
HasCount op srv = count_of srv.protector ≡ count_of op

abbrev Ended : OverloadProtector → Server × Bool → Type 0
Ended op r = HasCount op r.0

module _ (env : ServerEnv) (p : ℕ) (req : ClientRequest) where
  refused_counts :
      (op : OverloadProtector) (srv : Server) (code : ℤ) (message detail : String)
      → HasCount op srv
      → HasCount op (respond_error env p req.msg_id code message detail srv)
  refused_counts op srv code message detail v =
      ap count_of (respond_error-KeepsRest env p req.msg_id code message detail srv).protector ∙ v

  read_counts :
      (o : Option HeartbeatRequest) (srv : Server)
      → HasCount srv.protector (heartbeat_read env p req o srv).0
  unfolding heartbeat_read
  read_counts none srv = refl
  read_counts (some beat) srv = ap count_of (send_by-KeepsRest p _ srv).protector

  pub heartbeat_counts : (srv : Server) → HasCount srv.protector (handle_heartbeat env p req srv).0
  unfolding handle_heartbeat
  heartbeat_counts srv =
      if_both (Ended srv.protector) (not (eqb req.seq_id 0)) refl
        (read_counts (env.formats.heartbeat_request.unmarshal req.payload) srv)

  pub stop_counts : (srv : Server) → HasCount srv.protector (handle_stop env p req srv).0
  unfolding handle_stop stop_read
  stop_counts srv = ground arith

  pub ack_counts : (srv : Server) → HasCount srv.protector (handle_ack env p req srv).0
  unfolding handle_ack ack_read resync_at
  ack_counts srv = ground arith

  bound_counts :
      (start : StartRequest) (s : Session) (srv : Server)
      → HasCount srv.protector (start_bound env p req start s srv).0
  unfolding start_bound resync_at
  bound_counts start s srv =
      let m = (ack_messages_up_to s.id start.last_acked_seq_id srv.manager).0 in
      let acked = record srv { manager = m } in
      let ack = start.last_acked_seq_id in
      let caught_up = if ltb 0 ack then resync_at p ack (session_at p acked) acked else srv in
      let same : HasCount srv.protector caught_up = ground arith in
      ap count_of
        (send_by-KeepsRest p (send_start_response (sender_env env p) req.msg_id true (pos 30) s.id)
          caught_up).protector
      ∙ same

  start_counts :
      (o : Option StartRequest) (s : Session) (srv : Server)
      → HasCount srv.protector (start_read env p req o s srv).0
  unfolding start_read
  start_counts none s srv = refused_counts srv.protector srv _ _ _ refl
  start_counts (some start) s srv =
      let named = put_session p (record s { open_id = start.openid; client_id = req.openid }) srv in
      let r = bind_session p named.manager in
      let bound = record named { manager = r.0 } in
      if_both (Ended srv.protector) (start.openid == "")
        (refused_counts srv.protector srv _ _ _ refl)
        (if_both (Ended srv.protector) (is_some r.1) (refused_counts srv.protector bound _ _ _ refl)
          (bound_counts start s bound))

  of_counts :
      (o : Option Session) (srv : Server) → HasCount srv.protector (start_of env p req o srv).0
  unfolding start_of
  of_counts none srv = refl
  of_counts (some s) srv =
      if_both (Ended srv.protector) (not (eqb req.seq_id 0))
        (refused_counts srv.protector srv _ _ _ refl)
        (start_counts (env.formats.start_request.unmarshal req.payload) s srv)

  pub start_sync_counts :
      (srv : Server) → HasCount srv.protector (handle_start_sync env p req srv).0
  unfolding handle_start_sync
  start_sync_counts srv = of_counts (session_at p srv) srv

  admit_counts :
      (b : BusinessRequest) (s : Session) (srv : Server)
      → HasCount srv.protector (admit_business env p req b s srv).0
  unfolding admit_business allow_upstream_request on_upstream_start on_upstream_end
  admit_counts b s srv =
      let r = allow_upstream_request srv.protector in
      let started = record srv { protector = on_upstream_start r.0 } in
      let routed = route_protector env p req b s srv.async_processor started in
      let allowed : count_of r.0 ≡ count_of srv.protector = ground arith in
      if_both (Ended srv.protector) r.1 (ap count_of routed ∙ allowed)
        (refused_counts srv.protector (record srv { protector = r.0 }) _ _ _ allowed)

  state_counts :
      (b : BusinessRequest) (s : Session) (srv : Server)
      → HasCount srv.protector (check_state env p req b s srv).0
  unfolding check_state
  state_counts b s srv =
      if_both (Ended srv.protector) (is_login_action env b)
        (if_both (Ended srv.protector) (can_process_login_request s) (admit_counts b s srv)
          (refused_counts srv.protector srv _ _ _ refl))
        (if_both (Ended srv.protector) (can_process_business_request s) (admit_counts b s srv)
          (refused_counts srv.protector srv _ _ _ refl))

  business_read_counts :
      (o : Option BusinessRequest) (s : Session) (srv : Server)
      → HasCount srv.protector (business_read env p req o s srv).0
  unfolding business_read
  business_read_counts none s srv = refused_counts srv.protector srv _ _ _ refl
  business_read_counts (some b) s srv = state_counts b s srv

  checked_counts :
      (o : Option Session) (srv : Server)
      → HasCount srv.protector (business_checked env p req o srv).0
  unfolding business_checked
  checked_counts none srv = refl
  checked_counts (some s) srv =
      business_read_counts (env.formats.business_request.unmarshal req.payload) s srv

  business_of_counts :
      (o : Option Session) (srv : Server) → HasCount srv.protector (business_of env p req o srv).0
  unfolding business_of
  business_of_counts none srv = refl
  business_of_counts (some s) srv =
      let r = validate_client_sequence s.id req.seq_id srv.manager in
      let srv' = record srv { manager = r.0 } in
      if_both (Ended srv.protector) r.1 (checked_counts (session_at p srv') srv')
        (refused_counts srv.protector srv' _ _ _ refl)

  pub business_counts :
      (srv : Server) → HasCount srv.protector (handle_business_request env p req srv).0
  unfolding handle_business_request
  business_counts srv = business_of_counts (session_at p srv) srv
