-- ===== src/Message/Conversation.antt =====
-- Requests and pushes from their creation on one side to their decoding on the other.
use gateway_test.Proto.{
  StartResponse, ErrorMessage, StopRequest, BusinessResponse, HeartbeatRequest, ClientRequest,
  ServerPush, BusinessRequest, ClientAck, HeartbeatResponse, StartRequest,
}
use gateway_test.Message.Create.{
  create_start_response, create_error_message, create_stop_request, create_heartbeat_request,
  create_business_response, Format, IsFaithful, encode_client_request, encode_server_push,
  decode_client_request, decode_server_push, encode_bytes, create_business_request,
  create_ack_message, create_start_request, create_heartbeat_response, payload_of, payload_or_nil,
}
use gateway_test.Message.{ReadError, read_message, write_message, max_message_size, Writer}
use gateway_test.Prelude.{
  subst, ℕ, ◌≤◌, String, ◌≡◌, ap, ◌⊎◌, inl, inr, true, Option, none, some, List, [], ◌++◌, arith,
  Option-cases, nat_eq, string_eq, length, is_some,
}
use gateway_test.Message.Framing.{frame, read_message-frame, write_message-frame}

-- Where a reader finds a message, its decoding.
abbrev pub received : {M : Type 0} → (List ℕ → Option M) → ReadError ⊎ List ℕ → Option M
received decode (inl e) = none
received decode (inr bytes) = decode bytes

encoded-small :
    (f : Option (List ℕ)) (bytes : List ℕ)
    → encode_bytes f ≡ inr bytes
    → (f ≡ some bytes) × (length bytes ≤ max_message_size)
unfolding encode_bytes
encoded-small none bytes e = ground (arith, e)
encoded-small (some b) bytes e = ground (arith, e)

-- What one side writes, the other reads.
arrives :
    (writer : Writer) (bytes rest : List ℕ)
    → ((b : List ℕ) → writer b ≡ (b, true))
    → length bytes ≤ max_message_size
    → let (stream, fault) = write_message writer bytes [] in
      (fault ≡ none) × (read_message (stream ++ rest) ≡ (inr bytes, rest))
arrives writer bytes rest ok small = (
  unfold write_message in ground (arith, ok (frame bytes)),
  rw (write_message-frame writer bytes [] ok small) (read_message-frame bytes rest small),
)

-- A request that could be encoded and is written without an error is the next one that the server
-- reads and decodes, and the reader then stands behind its frame.
pub request-arrives :
    (f : Format ClientRequest) (writer : Writer) (req : ClientRequest) (bytes rest : List ℕ)
    → IsFaithful f
    → ((b : List ℕ) → writer b ≡ (b, true))
    → encode_client_request f req ≡ inr bytes
    → let (stream, fault) = write_message writer bytes [] in
      let (result, reader) = read_message (stream ++ rest) in
      (fault ≡ none) × (received (decode_client_request f) result ≡ some req) × (reader ≡ rest)
unfolding encode_client_request decode_client_request
request-arrives f writer req bytes rest faithful ok e =
    let (marshalled, small) = encoded-small (f.marshal req) bytes e in
    let (fine, there) = arrives writer bytes rest ok small in
    (fine, rw there (faithful req bytes marshalled), ap (λ r. r.1) there)

-- A push that could be encoded and is written without an error is the next one that the client
-- reads and decodes, and the reader then stands behind its frame.
push-arrives :
    (f : Format ServerPush) (writer : Writer) (push : ServerPush) (bytes rest : List ℕ)
    → IsFaithful f
    → ((b : List ℕ) → writer b ≡ (b, true))
    → encode_server_push f push ≡ inr bytes
    → let (stream, fault) = write_message writer bytes [] in
      let (result, reader) = read_message (stream ++ rest) in
      (fault ≡ none) × (received (decode_server_push f) result ≡ some push) × (reader ≡ rest)
unfolding encode_server_push decode_server_push
push-arrives f writer push bytes rest faithful ok e =
    let (marshalled, small) = encoded-small (f.marshal push) bytes e in
    let (fine, there) = arrives writer bytes rest ok small in
    (fine, rw there (faithful push bytes marshalled), ap (λ r. r.1) there)

payload_of-decodes :
    {M : Type 0} (f : Format M) (m : M)
    → IsFaithful f
    → is_some (f.marshal m) ≡ true
    → f.unmarshal (payload_of f m) ≡ some m
unfolding payload_of payload_or_nil
payload_of-decodes f m faithful marshals = elim (Option-cases (f.marshal m)) [
  | inl missing ↦ absurd (ground (arith, marshals, missing))
  | inr (bytes, e) ↦ rw e (faithful m bytes e)
]

module _ (heartbeats : Format HeartbeatRequest) (businesses : Format BusinessRequest)
    (acks : Format ClientAck) (starts : Format StartRequest) (stops : Format StopRequest)
    (faithful_heartbeats : IsFaithful heartbeats) (faithful_businesses : IsFaithful businesses)
    (faithful_acks : IsFaithful acks) (faithful_starts : IsFaithful starts)
    (faithful_stops : IsFaithful stops) where
  -- Each request that a client creates carries a payload that decodes to the arguments it was
  -- created with, where these can be marshalled. A start request is created without a client id.
  pub created_requests :
      (heartbeat : HeartbeatRequest) (business : BusinessRequest) (ack : ClientAck)
      (start : StartRequest) (end : StopRequest)
      → start.client_id ≡ ""
      → is_some (heartbeats.marshal heartbeat) ≡ true
      → is_some (businesses.marshal business) ≡ true
      → is_some (acks.marshal ack) ≡ true
      → is_some (starts.marshal start) ≡ true
      → is_some (stops.marshal end) ≡ true
      → (msg_id seq_id : ℕ) (open_id : String)
      → (heartbeats.unmarshal
            (create_heartbeat_request heartbeats heartbeat.client_timestamp msg_id seq_id
              open_id).payload
          ≡ some heartbeat)
        × (businesses.unmarshal
              (create_business_request businesses msg_id seq_id business.action business.params
                business.message_data open_id).payload
            ≡ some business)
        × (acks.unmarshal (create_ack_message acks ack.acked_seq_id open_id).payload ≡ some ack)
        × (starts.unmarshal
              (create_start_request starts msg_id seq_id start.openid start.auth_token
                start.last_acked_seq_id).payload
            ≡ some start)
        × (stops.unmarshal (create_stop_request stops msg_id seq_id end.reason open_id).payload
            ≡ some end)
  unfolding create_heartbeat_request create_business_request create_ack_message create_start_request
      create_stop_request
  created_requests heartbeat business ack start end unnamed h b a s t msg_id seq_id open_id = (
    payload_of-decodes heartbeats heartbeat faithful_heartbeats h,
    payload_of-decodes businesses business faithful_businesses b,
    payload_of-decodes acks ack faithful_acks a,
    subst (λ x. starts.unmarshal (payload_of starts x) ≡ some start)
        (ap (λ c. record start { client_id = c }) unnamed)
        (payload_of-decodes starts start faithful_starts s),
    payload_of-decodes stops end faithful_stops t,
  )

module _ (heartbeats : Format HeartbeatResponse) (businesses : Format BusinessResponse)
    (errors : Format ErrorMessage) (starts : Format StartResponse)
    (faithful_heartbeats : IsFaithful heartbeats) (faithful_businesses : IsFaithful businesses)
    (faithful_errors : IsFaithful errors) (faithful_starts : IsFaithful starts) where
  -- Each push that the server creates carries a payload that decodes to the arguments it was
  -- created with, where these can be marshalled.
  pub created_pushes :
      (heartbeat : HeartbeatResponse) (business : BusinessResponse) (fault : ErrorMessage)
      (start : StartResponse)
      → is_some (heartbeats.marshal heartbeat) ≡ true
      → is_some (businesses.marshal business) ≡ true
      → is_some (errors.marshal fault) ≡ true
      → is_some (starts.marshal start) ≡ true
      → (msg_id seq_id : ℕ)
      → (heartbeats.unmarshal
            (create_heartbeat_response heartbeats heartbeat.server_timestamp msg_id seq_id
              heartbeat.client_timestamp).payload
          ≡ some heartbeat)
        × (businesses.unmarshal
              (create_business_response businesses msg_id seq_id business.code business.message
                business.message_data).payload
            ≡ some business)
        × (errors.unmarshal
              (create_error_message errors msg_id seq_id fault.error_code fault.error_message
                fault.detail).payload
            ≡ some fault)
        × (starts.unmarshal
              (create_start_response starts msg_id seq_id start.success start.error
                start.heartbeat_interval start.connection_id).payload
            ≡ some start)
  unfolding create_heartbeat_response create_business_response create_error_message
      create_start_response
  created_pushes heartbeat business fault start h b e s msg_id seq_id = (
    payload_of-decodes heartbeats heartbeat faithful_heartbeats h,
    payload_of-decodes businesses business faithful_businesses b,
    payload_of-decodes errors fault faithful_errors e,
    payload_of-decodes starts start faithful_starts s,
  )
