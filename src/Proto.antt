-- ===== src/Proto.antt =====
-- proto/message.proto and proto/upstream.proto: the messages that the gateway handles. Bytes are
-- numbers, an enum that the wire may extend has a constructor for the other values, and a map field
-- is a map.
use gateway_test.Prelude.{ℕ, String, Bool, Option, List, nat_eq, string_eq, ℤ}
use gateway_test.Prelude.Dict.{Dict}

pub data PushType : Type 0 where
  push_unknown push_start_resp push_heartbeat_resp push_business_data push_error : PushType
  other_push : ℕ → PushType

pub record ServerPush : Type 0 where
  pub msg_id : ℕ
  pub seq_id : ℕ
  pub push_type : PushType
  pub payload : List ℕ
  pub headers : Dict String String

pub data NotifySyncHint : Type 0 where
  immediately before_response after_response : NotifySyncHint
  other_hint : ℕ → NotifySyncHint

pub record UnicastPushRequest : Type 0 where
  pub target_type : String
  pub target_id : String
  pub msg_type : String
  pub title : String
  pub content : String
  pub body : List ℕ
  pub metadata : Dict String String
  pub sync_hint : NotifySyncHint
  pub bind_client_seq_id : ℕ

pub data RequestType : Type 0 where
  request_unknown request_start request_stop request_heartbeat request_business request_ack :
      RequestType
  other_request : ℕ → RequestType

pub record ClientRequest : Type 0 where
  pub msg_id : ℕ
  pub seq_id : ℕ
  pub request_type : RequestType
  pub payload : List ℕ
  pub headers : Dict String String
  pub openid : String

-- `client_id` stands in proto/message.pb.go and not in proto/message.proto.
pub record StartRequest : Type 0 where
  pub openid : String
  pub client_id : String
  pub auth_token : String
  pub last_acked_seq_id : ℕ

pub record ErrorMessage : Type 0 where
  pub error_code : ℤ
  pub error_message : String
  pub detail : String

pub record StartResponse : Type 0 where
  pub success : Bool
  pub error : Option ErrorMessage
  pub heartbeat_interval : ℤ
  pub connection_id : String

pub data StopReason : Type 0 where
  unknown_reason user_logout app_close switch_account : StopReason
  other_reason : ℕ → StopReason

pub record StopRequest : Type 0 where
  pub reason : StopReason

pub record HeartbeatRequest : Type 0 where
  pub client_timestamp : ℤ

pub record HeartbeatResponse : Type 0 where
  pub client_timestamp : ℤ
  pub server_timestamp : ℤ

pub record BusinessRequest : Type 0 where
  pub action : String
  pub params : Dict String String
  pub message_data : List ℕ

pub record BusinessResponse : Type 0 where
  pub code : ℤ
  pub message : String
  pub message_data : List ℕ

pub record ClientAck : Type 0 where
  pub acked_seq_id : ℕ

pub record UpstreamRequest : Type 0 where
  pub session_id : String
  pub openid : String
  pub action : String
  pub params : Dict String String
  pub message_data : List ℕ
  pub headers : Dict String String
  pub client_seq_id : ℕ

pub record UpstreamResponse : Type 0 where
  pub code : ℤ
  pub message : String
  pub message_data : List ℕ
  pub headers : Dict String String
  pub client_seq_id : ℕ

pub record UnicastPushResponse : Type 0 where
  pub success : Bool
  pub message : String
  pub error_code : String

pub record BroadcastRequest : Type 0 where
  pub msg_type : String
  pub title : String
  pub content : String
  pub message_data : List ℕ
  pub metadata : Dict String String
