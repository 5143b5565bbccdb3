-- ===== src/Gateway/Connection/Released.antt =====
-- A connection is counted while it is open, and released once it has ended.
use gateway_test.Prelude.{
  ℕ, String, ◌≡◌, refl, sym, ap, ◌∙◌, ◌≢◌, Bool, true, false, Option, none, some, List, [], ◌∷◌,
  arith, if◌then◌else◌, nat_eq, string_eq, length, ℤ, pos, add64,
}
use gateway_test.Prelude.Dict.{Dict}
use gateway_test.Proto.{ClientRequest}
use gateway_test.Message.Create.{decode_client_request}
use gateway_test.Session.Queue.{OrderedMessage}
use gateway_test.Gateway.Overload.{
  OverloadProtector, allow_new_connection, on_connection_start, on_connection_end,
}
use gateway_test.Gateway.Overload.Buckets.{count_of}
use gateway_test.Gateway.Server.{Server, ServerEnv}
use gateway_test.Gateway.Handlers.Gate.{IsCount}
use gateway_test.Gateway.Handlers.Connected.{HasCount}
use gateway_test.Gateway.Dispatch.{handle_message_event}
use gateway_test.Gateway.Dispatch.Connected.{IsHandled, handled, message-IsHandled}
use gateway_test.Gateway.Connection.{
  ConnectionEvent, message_read, read_failed, cancelled, accept_connection, handle_first_message,
  first_session, handle_subsequent_messages, with_session, serve_stream, end_connection,
  handle_connection,
}

along :
    (op : OverloadProtector) (srv : Server) (o : Option (Server × Bool))
    → HasCount op srv
    → IsHandled srv.protector o
    → IsHandled op o
along op srv none same v = elim v [ ]
along op srv (some (srv', b)) same (handled _ _ later) = handled _ _ (later ∙ same)

-- The count of a server after its connection, by whether that has ended.
abbrev pub count_after : Bool → ℤ → ℤ
count_after ended n = if ended then n else add64 n (pos 1)

-- The connection was served: the server that is left, and whether the connection has ended.
pub record IsServed (n : ℤ) (o : Option (Server × Bool)) : Type 0 where
  pub server : Server
  pub ended : Bool
  pub returns : o ≡ some (server, ended)
  pub counted : server.protector.current_connections ≡ count_after ended n

module _ (env : ServerEnv)
    (copy_messages : Dict ℕ OrderedMessage → Dict ℕ OrderedMessage → Dict ℕ OrderedMessage)
    (session_id user_ip : String) where
  next-IsHandled :
      (op : OverloadProtector) (p : ℕ) (events : List ConnectionEvent) (o : Option (Server × Bool))
      → op.qps_window.bucket_size ≢ pos 0
      → ((srv : Server)
          → srv.protector.qps_window.bucket_size ≢ pos 0
          → IsHandled srv.protector
              (handle_subsequent_messages env copy_messages session_id user_ip p events srv))
      → IsHandled op o
      → IsHandled op (elim o [
        | none ↦ none
        | some (srv, _) ↦
            handle_subsequent_messages env copy_messages session_id user_ip p events srv
      ])
  next-IsHandled op p events none nonempty later v = elim v [ ]
  next-IsHandled op p events (some (srv, b)) nonempty later (handled _ _ same) =
      let sized = ap (λ (c : ℤ × ℤ). c.1) same in
      along op srv _ same (later srv (λ empty. nonempty (sym sized ∙ empty)))

  subsequent-IsHandled :
      (p : ℕ) (events : List ConnectionEvent) (srv : Server)
      → srv.protector.qps_window.bucket_size ≢ pos 0
      → IsHandled srv.protector
          (handle_subsequent_messages env copy_messages session_id user_ip p events srv)
  unfolding handle_subsequent_messages
  subsequent-IsHandled p [] srv nonempty = handled _ _ refl
  subsequent-IsHandled p (read_failed ∷ events) srv nonempty = handled _ _ refl
  subsequent-IsHandled p (cancelled ∷ events) srv nonempty = handled _ _ refl
  subsequent-IsHandled p (message_read bytes ∷ events) srv nonempty =
      next-IsHandled srv.protector p events (handle_message_event env p bytes srv) nonempty
        (subsequent-IsHandled p events) (message-IsHandled env p bytes srv nonempty)

  session-IsHandled :
      (o : Option ClientRequest) (bytes : List ℕ) (events : List ConnectionEvent) (srv : Server)
      → srv.protector.qps_window.bucket_size ≢ pos 0
      → IsHandled srv.protector (
          with_session env copy_messages session_id user_ip bytes events
            (first_session env copy_messages session_id user_ip o srv))
  unfolding with_session first_session
  session-IsHandled none bytes events srv nonempty = handled _ _ refl
  session-IsHandled (some req) bytes events srv nonempty =
      subsequent-IsHandled (length srv.manager.cells) (message_read bytes ∷ events) _ nonempty

  stream-IsHandled :
      (first : Option (List ℕ)) (events : List ConnectionEvent) (srv : Server)
      → srv.protector.qps_window.bucket_size ≢ pos 0
      → IsHandled srv.protector (serve_stream env copy_messages session_id user_ip first events srv)
  unfolding serve_stream handle_first_message
  stream-IsHandled none events srv nonempty = handled _ _ refl
  stream-IsHandled (some bytes) events srv nonempty =
      session-IsHandled (decode_client_request env.formats.client_request bytes) bytes events srv
        nonempty

  ended-IsServed :
      (op op' : OverloadProtector) (o : Option (Server × Bool))
      → IsCount op.current_connections
      → op'.current_connections ≡ add64 op.current_connections (pos 1)
      → IsHandled op' o
      → IsServed op.current_connections (end_connection env copy_messages session_id user_ip o)
  unfolding end_connection on_connection_end
  ended-IsServed op op' none count started v = elim v [ ]
  ended-IsServed op op' (some (srv, false)) count started (handled _ _ same) = record {
    server = _;
    ended = _;
    returns = refl;
    counted = ap (λ (c : ℤ × ℤ). c.0) same ∙ started;
  }
  ended-IsServed op op' (some (srv, true)) count started (handled _ _ same) =
      let opened = ap (λ (c : ℤ × ℤ). c.0) same ∙ started in
      record { server = _; ended = _; returns = refl; counted = rw opened (ground (arith, count)) }

  -- Whatever a client sends and however its stream ends, a connection that is accepted is served
  -- without a panic. While it is open it counts as one more connection, and once it has ended the
  -- count is what it was. The buckets of the request window have a length, and the count is a small
  -- natural number.
  pub handle_connection-IsServed :
      (first : Option (List ℕ)) (events : List ConnectionEvent) (srv : Server)
      → IsCount srv.protector.current_connections
      → srv.protector.qps_window.bucket_size ≢ pos 0
      → (accept_connection srv).1 ≡ true
      → IsServed srv.protector.current_connections (
          handle_connection env copy_messages session_id user_ip first events
            (accept_connection srv).0)
  unfolding handle_connection accept_connection allow_new_connection on_connection_start
  handle_connection-IsServed first events srv count nonempty accepted =
      let srv' = (accept_connection srv).0 in
      let started : count_of srv'.protector ≡ (
        add64 srv.protector.current_connections (pos 1),
        srv.protector.qps_window.bucket_size,
      ) =
        ground (arith, accepted) in
      let sized : srv'.protector.qps_window.bucket_size ≢ pos 0 =
        λ empty. nonempty (sym (ap (λ (c : ℤ × ℤ). c.1) started) ∙ empty) in
      ended-IsServed srv.protector srv'.protector _ count (ap (λ (c : ℤ × ℤ). c.0) started)
        (stream-IsHandled first events srv' sized)
