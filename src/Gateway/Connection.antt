-- ===== src/Gateway/Connection.antt =====
-- internal/gateway/server_connection.go: the life of a connection. What the stream gives is a list of
-- events, the new uuid, the address of the peer and the copy of an old queue are parameters. A panic
-- gives `none`.
pub mod Released
use gateway_test.Prelude.{
  ℕ, String, Bool, true, false, Option, none, some, List, [], ◌∷◌, if◌then◌else◌, nat_eq, string_eq,
  length,
}
use gateway_test.Prelude.Dict.{Dict}
use gateway_test.Proto.{ClientRequest}
use gateway_test.Message.Create.{decode_client_request}
use gateway_test.Session.Queue.{OrderedMessage}
use gateway_test.Session.Manager.{create_or_reconnect_session}
use gateway_test.Gateway.Overload.{
  OverloadProtector, allow_new_connection, on_connection_start, on_connection_end,
}
use gateway_test.Gateway.Server.{Server, ServerEnv}
use gateway_test.Gateway.Dispatch.{handle_message_event, first_identity}

-- What the loop over the later messages selects: a message that was read, an error of the reader,
-- or the cancellation of the context or of the server.
pub data ConnectionEvent : Type 0 where
  message_read : List ℕ → ConnectionEvent
  read_failed cancelled : ConnectionEvent

abbrev pub with_protector : (OverloadProtector → OverloadProtector) → Server → Server
with_protector f srv = record srv { protector = f srv.protector }

-- One accepted connection of the accept loop, and whether it is handled.
unfoldable pub accept_connection : Server → Server × Bool
accept_connection srv =
    let (op, allowed) = allow_new_connection srv.protector in
    let srv' = record srv { protector = op } in
    if allowed then (with_protector on_connection_start srv', true) else (srv', false)

module _ (env : ServerEnv)
    (copy_messages : Dict ℕ OrderedMessage → Dict ℕ OrderedMessage → Dict ℕ OrderedMessage)
    (session_id user_ip : String) where
  -- The session is the new cell of the manager.
  first_session : Option ClientRequest → Server → Server × Option ℕ
  first_session none srv = (srv, none)
  first_session (some req) srv =
      let (open_id, client_id) = first_identity env req.request_type req.payload in
      let (m, reconnected) =
        create_or_reconnect_session copy_messages env.now session_id client_id open_id user_ip
          srv.manager in
      (record srv { manager = m }, some (length srv.manager.cells))

  unfoldable pub handle_first_message : List ℕ → Server → Server × Option ℕ
  unfolding first_session
  handle_first_message bytes srv =
      first_session (decode_client_request env.formats.client_request bytes) srv

  -- Whether the loop has ended is returned beside the server: without a further event it waits.
  pub handle_subsequent_messages : ℕ → List ConnectionEvent → Server → Option (Server × Bool)
  handle_subsequent_messages p [] srv = some (srv, false)
  handle_subsequent_messages p (read_failed ∷ events) srv = some (srv, true)
  handle_subsequent_messages p (cancelled ∷ events) srv = some (srv, true)
  handle_subsequent_messages p (message_read bytes ∷ events) srv =
      elim (handle_message_event env p bytes srv) [
        | none ↦ none
        | some (srv', _) ↦ handle_subsequent_messages p events srv'
      ]

  -- The first message, then the later ones.
  with_session : List ℕ → List ConnectionEvent → Server × Option ℕ → Option (Server × Bool)
  unfolding handle_subsequent_messages
  with_session bytes events (srv, none) = some (srv, true)
  with_session bytes events (srv, some p) =
      handle_subsequent_messages p (message_read bytes ∷ events) srv

  -- OnConnectionEnd is deferred.
  end_connection : Option (Server × Bool) → Option (Server × Bool)
  end_connection none = none
  end_connection (some (srv, false)) = some (srv, false)
  end_connection (some (srv, true)) = some (with_protector on_connection_end srv, true)

  -- `first` is what the stream gives first, where a stream is accepted at all and the read succeeds.
  pub serve_stream : Option (List ℕ) → List ConnectionEvent → Server → Option (Server × Bool)
  unfolding with_session
  serve_stream none events srv = some (srv, true)
  serve_stream (some bytes) events srv = with_session bytes events (handle_first_message bytes srv)

  unfoldable pub handle_connection :
      Option (List ℕ) → List ConnectionEvent → Server → Option (Server × Bool)
  unfolding end_connection serve_stream
  handle_connection first events srv = end_connection (serve_stream first events srv)
