-- ===== src/Message/Create.antt =====
-- internal/message/codec.go: encoding, decoding, and the requests and pushes that it creates.
-- A `Format` stands for protobuf's Marshal and Unmarshal of one message type, `none` for an error,
-- and `now` for the clock in milliseconds.
use gateway_test.Prelude.{
  ℕ, String, ◌≡◌, ◌⊎◌, inl, inr, Bool, Option, none, some, List, [], ltb, if◌then◌else◌, nat_eq,
  string_eq, length, ℤ,
}
use gateway_test.Message.{max_message_size}
use gateway_test.Proto.{
  ServerPush, PushType, push_start_resp, push_heartbeat_resp, push_business_data, push_error,
  ClientRequest, RequestType, request_start, request_stop, request_heartbeat, request_business,
  request_ack, StartRequest, StartResponse, StopRequest, StopReason, HeartbeatRequest,
  HeartbeatResponse, BusinessRequest, BusinessResponse, ErrorMessage, ClientAck,
}
use gateway_test.Prelude.Dict.{Dict}

pub record Format (M : Type 0) : Type 0 where
  pub marshal : M → Option (List ℕ)
  pub unmarshal : List ℕ → Option M

-- What is marshalled can be unmarshalled, to the same message.
abbrev pub IsFaithful : {M : Type 0} → Format M → Type 0
IsFaithful {M} f = (m : M) (bytes : List ℕ) → f.marshal m ≡ some bytes → f.unmarshal bytes ≡ some m

pub data EncodeError : Type 0 where
  marshal_failed encoded_too_large : EncodeError

unfoldable pub encode_bytes : Option (List ℕ) → EncodeError ⊎ List ℕ
encode_bytes none = inl marshal_failed
encode_bytes (some bytes) =
    if ltb max_message_size (length bytes) then inl encoded_too_large else inr bytes

unfoldable pub encode_client_request : Format ClientRequest → ClientRequest → EncodeError ⊎ List ℕ
unfolding encode_bytes
encode_client_request f req = encode_bytes (f.marshal req)

unfoldable pub encode_server_push : Format ServerPush → ServerPush → EncodeError ⊎ List ℕ
unfolding encode_bytes
encode_server_push f push = encode_bytes (f.marshal push)

-- An acknowledgement has no size limit.
unfoldable pub encode_client_ack : Format ClientAck → ClientAck → Option (List ℕ)
encode_client_ack f ack = f.marshal ack

unfoldable pub decode_client_request : Format ClientRequest → List ℕ → Option ClientRequest
decode_client_request f bytes = f.unmarshal bytes

unfoldable pub decode_server_push : Format ServerPush → List ℕ → Option ServerPush
decode_server_push f bytes = f.unmarshal bytes

unfoldable pub decode_client_ack : Format ClientAck → List ℕ → Option ClientAck
decode_client_ack f bytes = f.unmarshal bytes

-- `payload, _ := proto.Marshal(m)`: nil where there is an error.
unfoldable pub payload_or_nil : Option (List ℕ) → List ℕ
payload_or_nil none = []
payload_or_nil (some bytes) = bytes

unfoldable pub payload_of : {M : Type 0} → Format M → M → List ℕ
unfolding payload_or_nil
payload_of f m = payload_or_nil (f.marshal m)

abbrev push_with : ℕ → ℕ → PushType → List ℕ → ServerPush
push_with msg_id seq_id push_type payload = record {
  msg_id = msg_id;
  seq_id = seq_id;
  push_type = push_type;
  payload = payload;
  headers = [];
}

abbrev request_with : ℕ → ℕ → RequestType → List ℕ → String → ClientRequest
request_with msg_id seq_id request_type payload openid = record {
  msg_id = msg_id;
  seq_id = seq_id;
  request_type = request_type;
  payload = payload;
  headers = [];
  openid = openid;
}

unfoldable pub create_heartbeat_request :
    Format HeartbeatRequest → ℤ → ℕ → ℕ → String → ClientRequest
create_heartbeat_request f now msg_id seq_id open_id =
    request_with msg_id seq_id request_heartbeat (payload_of f (record { client_timestamp = now }))
      open_id

unfoldable pub create_heartbeat_response : Format HeartbeatResponse → ℤ → ℕ → ℕ → ℤ → ServerPush
create_heartbeat_response f now msg_id seq_id client_timestamp =
    push_with msg_id seq_id push_heartbeat_resp
      (payload_of f (record { client_timestamp = client_timestamp; server_timestamp = now }))

unfoldable pub create_business_request :
    Format BusinessRequest → ℕ → ℕ → String → Dict String String → List ℕ → String → ClientRequest
create_business_request f msg_id seq_id action params message_data open_id =
    request_with msg_id seq_id request_business
      (payload_of f (record { action = action; params = params; message_data = message_data }))
      open_id

unfoldable pub create_business_response :
    Format BusinessResponse → ℕ → ℕ → ℤ → String → List ℕ → ServerPush
create_business_response f msg_id seq_id code message message_data =
    push_with msg_id seq_id push_business_data
      (payload_of f (record { code = code; message = message; message_data = message_data }))

-- Both numbers of an acknowledgement are 0.
unfoldable pub create_ack_message : Format ClientAck → ℕ → String → ClientRequest
create_ack_message f seq_id open_id =
    request_with 0 0 request_ack (payload_of f (record { acked_seq_id = seq_id })) open_id

unfoldable pub create_error_message : Format ErrorMessage → ℕ → ℕ → ℤ → String → String → ServerPush
create_error_message f msg_id seq_id code message detail =
    push_with msg_id seq_id push_error
      (payload_of f (record { error_code = code; error_message = message; detail = detail }))

unfoldable pub create_start_response :
    Format StartResponse → ℕ → ℕ → Bool → Option ErrorMessage → ℤ → String → ServerPush
create_start_response f msg_id seq_id success error_msg heartbeat_interval connection_id =
    push_with msg_id seq_id push_start_resp (
      payload_of f (record {
        success = success;
        error = error_msg;
        heartbeat_interval = heartbeat_interval;
        connection_id = connection_id;
      }))

unfoldable pub create_start_request :
    Format StartRequest → ℕ → ℕ → String → String → ℕ → ClientRequest
create_start_request f msg_id seq_id open_id auth_token last_acked_seq_id =
    request_with msg_id seq_id request_start
      (payload_of f (record {
        openid = open_id;
        client_id = "";
        auth_token = auth_token;
        last_acked_seq_id = last_acked_seq_id;
      }))
      open_id

unfoldable pub create_stop_request :
    Format StopRequest → ℕ → ℕ → StopReason → String → ClientRequest
create_stop_request f msg_id seq_id reason open_id =
    request_with msg_id seq_id request_stop (payload_of f (record { reason = reason })) open_id
