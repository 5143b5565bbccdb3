-- ===== src/Gateway/Sender.antt =====
-- internal/gateway/ordered_sender.go: the numbered messages of the server. protobuf is a `Format` for
-- each message type, and `write` the outcome of the n-th write on the session's stream. The queue's
-- callback is a closure over the session that reads whether it is closed when it is called; no
-- other code sets a callback, so the model installs it with the session's present state.
pub mod Gap
pub mod Bodies
use gateway_test.Prelude.{
  ℕ, String, refl, ◌⊎◌, inl, inr, Bool, not, ◌&&◌, Option, none, some, List, [], arith,
  if◌then◌else◌, nat_eq, string_eq, ℤ,
}
use gateway_test.Prelude.Dict.{Dict}
use gateway_test.Message.Create.{
  Format, EncodeError, encode_server_push, create_heartbeat_response, create_business_response,
  create_error_message, create_start_response,
}
use gateway_test.Proto.{
  ServerPush, push_business_data, ClientRequest, StartRequest, StartResponse, StopRequest,
  HeartbeatRequest, HeartbeatResponse, BusinessRequest, BusinessResponse, ErrorMessage, ClientAck,
  UnicastPushRequest,
}
use gateway_test.Session.Queue.{
  OrderedMessage, OrderedMessageQueue, SendCallback, QueueError, Wire, enqueue_message,
  set_send_callback, resync_sequence,
}
use gateway_test.Session.State.{Session, new_server_seq}

pub record Formats : Type 0 where
  pub client_request : Format ClientRequest
  pub server_push : Format ServerPush
  pub start_request : Format StartRequest
  pub start_response : Format StartResponse
  pub stop_request : Format StopRequest
  pub heartbeat_request : Format HeartbeatRequest
  pub heartbeat_response : Format HeartbeatResponse
  pub business_request : Format BusinessRequest
  pub business_response : Format BusinessResponse
  pub error_message : Format ErrorMessage
  pub client_ack : Format ClientAck
  pub unicast_push : Format UnicastPushRequest

pub data SenderError : Type 0 where
  encode_failed : EncodeError → SenderError
  no_queue : SenderError
  enqueue_failed : QueueError → SenderError

-- The session, what its callback did, and an error.
abbrev pub Sent : Type 0
Sent = Session × Wire × Option SenderError

-- Two clocks: nanoseconds for the queue, and milliseconds for the codec.
pub record SenderEnv : Type 0 where
  pub formats : Formats
  pub write : ℕ → List ℕ → Bool
  pub now : ℕ
  pub millis : ℤ

module _ (env : SenderEnv) where
  -- sendMessageDirectly.
  abbrev pub callback_of : Session → SendCallback
  callback_of s calls msg = not s.closed && env.write calls msg.bytes

  abbrev sender_fault : Option QueueError → Option SenderError
  sender_fault none = none
  sender_fault (some e) = some (enqueue_failed e)

  enqueue_in : Option OrderedMessageQueue → ServerPush → List ℕ → Session → Wire → Sent
  enqueue_in none push bytes s w = (s, w, some no_queue)
  enqueue_in (some q) push bytes s w =
      let (q', w', e) =
        enqueue_message push.seq_id push bytes env.now (set_send_callback (callback_of s) q) w in
      (record s { ordered_queue = some q' }, w', sender_fault e)

  enqueue_encoded : EncodeError ⊎ List ℕ → ServerPush → Session → Wire → Sent
  unfolding enqueue_in
  enqueue_encoded (inl e) push s w = (s, w, some (encode_failed e))
  enqueue_encoded (inr bytes) push s w = enqueue_in s.ordered_queue push bytes s w

  -- The number is taken before the message is encoded and queued.
  unfoldable pub send_ordered_message : ServerPush → Session → Wire → Sent
  unfolding enqueue_encoded
  send_ordered_message push s w =
      let (s', server_seq) = new_server_seq s in
      let numbered = record push { seq_id = server_seq } in
      enqueue_encoded (encode_server_push env.formats.server_push numbered) numbered s' w

  unfoldable pub send_heartbeat_response : ℕ → ℤ → Session → Wire → Sent
  send_heartbeat_response msg_id client_timestamp s w =
      send_ordered_message
        (create_heartbeat_response env.formats.heartbeat_response env.millis msg_id 0
          client_timestamp)
        s w

  unfoldable pub send_business_response :
      ℕ → ℤ → String → List ℕ → Dict String String → Session → Wire → Sent
  send_business_response msg_id code message message_data headers s w =
      send_ordered_message
        (record (create_business_response env.formats.business_response msg_id 0 code message
          message_data) { headers = headers })
        s w

  unfoldable pub send_error_response : ℕ → ℤ → String → String → Session → Wire → Sent
  send_error_response msg_id code message detail s w =
      send_ordered_message
        (create_error_message env.formats.error_message msg_id 0 code message detail) s w

  -- The error that the caller passes is not sent.
  unfoldable pub send_start_response : ℕ → Bool → ℤ → String → Session → Wire → Sent
  send_start_response msg_id success heartbeat_interval connection_id s w =
      send_ordered_message
        (create_start_response env.formats.start_response msg_id 0 success none heartbeat_interval
          connection_id)
        s w

  abbrev pub business_data : List ℕ → ServerPush
  business_data bytes = record {
    msg_id = 0;
    seq_id = 0;
    push_type = push_business_data;
    payload = bytes;
    headers = [];
  }

  unfoldable pub push_business : List ℕ → Session → Wire → Sent
  push_business bytes s w = send_ordered_message (business_data bytes) s w

abbrev resync_queue : ℕ → Option OrderedMessageQueue → Option OrderedMessageQueue
resync_queue ack none = none
resync_queue ack (some q) = some (resync_sequence ack q)

unfoldable pub resync_session_sequence : ℕ → Session → Session
resync_session_sequence client_ack_seq s = record s {
  ordered_queue = resync_queue client_ack_seq s.ordered_queue;
}
