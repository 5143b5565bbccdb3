-- ===== src/Message/Tests.antt =====
-- Runs of the codec, and instances of its theorems. The formats are small: each marshals the
-- messages of one shape, and refuses the others.
use gateway_test.Message.Conversation.{created_requests, created_pushes, request-arrives}
use gateway_test.Message.Create.{
  decode_client_ack, encode_server_push, create_business_request, create_error_message,
  create_ack_message, encode_client_ack, encode_client_request, Format, IsFaithful,
}
use gateway_test.Proto.{
  user_logout, ServerPush, ErrorMessage, StartResponse, BusinessResponse, HeartbeatResponse,
  StartRequest, ClientAck, BusinessRequest, StopRequest, HeartbeatRequest, ClientRequest,
}
use gateway_test.Message.{
  write_message, read_full, read_message, Writer, max_message_size, body_failed,
}
use gateway_test.Prelude.{
  ℕ, ◌≤◌, String, ◌≡◌, refl, sym, ap, inl, inr, true, Option, none, some, List, [], ◌∷◌, ◌++◌,
  arith, eqb, if◌then◌else◌, Bool-cases, ◌==◌, nat_eq, string_eq, length, take, pos, is_some,
  some_inj,
}
use native.Mathlib.Decide.{ℕ_discrete}
use gateway_test.Message.Framing.{
  frame, read_all, write_all, read_all-write_all, read_message-accepts, read_message-cut,
}

abbrev whole : Writer
whole b = (b, true)

read_all-write_all_example :
    read_all 2 (write_all whole ((1 ∷ 2 ∷ []) ∷ [] ∷ []) []) ≡ ((1 ∷ 2 ∷ []) ∷ [] ∷ [], [])
read_all-write_all_example =
    read_all-write_all whole ((1 ∷ 2 ∷ []) ∷ [] ∷ []) (λ b. refl) (omega arith)

abbrev incoming : List ℕ
incoming = 0 ∷ 0 ∷ 0 ∷ 2 ∷ 7 ∷ 8 ∷ 9 ∷ []

incoming_first : (read_message incoming).0 ≡ inr (7 ∷ 8 ∷ [])
unfolding read_message read_full
incoming_first = refl

read_message-accepts_example :
    (2 ≤ max_message_size) × (frame (7 ∷ 8 ∷ []) ++ (read_message incoming).1 ≡ incoming)
read_message-accepts_example =
    read_message-accepts incoming (7 ∷ 8 ∷ []) (omega arith) incoming_first

read_message-cut_example : (read_message (take 5 (frame (7 ∷ 8 ∷ [])))).0 ≡ inl body_failed
read_message-cut_example = read_message-cut (7 ∷ 8 ∷ []) 5 (omega arith) (omega arith)

one_bytes : {M : Type 0} {m n : M} → Dec (m ≡ n) → Option (List ℕ)
one_bytes (yes e) = some (1 ∷ [])
one_bytes (no d) = none

-- The format that marshals one message only.
abbrev only : {M : Type 0} → Discrete M → M → Format M
only same n = record {
  marshal = λ m. one_bytes (same m n);
  unmarshal = λ bytes. if eqb (length bytes) 1 then some n else none;
}

one_bytes-same : {M : Type 0} {m n : M} (d : Dec (m ≡ n)) → m ≡ n → one_bytes d ≡ some (1 ∷ [])
unfolding one_bytes
one_bytes-same (yes e) same = refl
one_bytes-same (no d) same = absurd (d same)

one_bytes-decodes :
    {M : Type 0} {m n : M} (d : Dec (m ≡ n)) (bytes : List ℕ)
    → one_bytes d ≡ some bytes
    → (if eqb (length bytes) 1 then some n else none) ≡ some m
unfolding one_bytes
one_bytes-decodes (yes e) bytes same = rw (sym (some_inj same)) (ap some (sym e))
one_bytes-decodes (no d) bytes same = ground (arith, same)

only-IsFaithful : {M : Type 0} (same : Discrete M) (n : M) → IsFaithful (only same n)
only-IsFaithful same n m bytes e = one_bytes-decodes (same m n) bytes e

only-marshals : {M : Type 0} (same : Discrete M) (n : M) → (only same n).marshal n ≡ some (1 ∷ [])
only-marshals same n = one_bytes-same (same n n) refl

String-discrete : Discrete String
String-discrete a b = elim (Bool-cases (a == b)) [
  | inl same ↦ yes ((string_eq.beq_iff a b).0 same)
  | inr other ↦ no (λ e. ground (arith, string_eq.beq_iff a b, e, other))
]

ClientRequest-discrete : Discrete ClientRequest
ClientRequest-discrete = hlevel (ℕ_discrete, String-discrete)

ServerPush-discrete : Discrete ServerPush
ServerPush-discrete = hlevel (ℕ_discrete, String-discrete)

HeartbeatRequest-discrete : Discrete HeartbeatRequest
HeartbeatRequest-discrete = hlevel (ℕ_discrete, String-discrete)

BusinessRequest-discrete : Discrete BusinessRequest
BusinessRequest-discrete = hlevel (ℕ_discrete, String-discrete)

ClientAck-discrete : Discrete ClientAck
ClientAck-discrete = hlevel (ℕ_discrete, String-discrete)

StartRequest-discrete : Discrete StartRequest
StartRequest-discrete = hlevel (ℕ_discrete, String-discrete)

StopRequest-discrete : Discrete StopRequest
StopRequest-discrete = hlevel (ℕ_discrete, String-discrete)

HeartbeatResponse-discrete : Discrete HeartbeatResponse
HeartbeatResponse-discrete = hlevel (ℕ_discrete, String-discrete)

BusinessResponse-discrete : Discrete BusinessResponse
BusinessResponse-discrete = hlevel (ℕ_discrete, String-discrete)

ErrorMessage-discrete : Discrete ErrorMessage
ErrorMessage-discrete = hlevel (ℕ_discrete, String-discrete)

StartResponse-discrete : Discrete StartResponse
StartResponse-discrete = hlevel (ℕ_discrete, String-discrete)

abbrev acks : Format ClientAck
acks = only ClientAck-discrete (record { acked_seq_id = 4 })

abbrev request : ClientRequest
request = create_ack_message acks 4 "o"

abbrev requests : Format ClientRequest
requests = only ClientRequest-discrete request

encoded_request : encode_client_request requests request ≡ inr (1 ∷ [])
unfolding encode_client_request
encoded_request = rw (only-marshals ClientRequest-discrete request) refl

request-arrives_example :
    (read_message ((write_message whole (1 ∷ []) []).0 ++ (9 ∷ []))).1 ≡ 9 ∷ []
request-arrives_example =
    (request-arrives requests whole request (1 ∷ []) (9 ∷ [])
      (only-IsFaithful ClientRequest-discrete request) (λ b. refl) encoded_request).2

abbrev errors : Format ErrorMessage
errors =
    only ErrorMessage-discrete (record { error_code = pos 7; error_message = "m"; detail = "d" })

abbrev push : ServerPush
push = create_error_message errors 1 2 (pos 7) "m" "d"

abbrev pushes : Format ServerPush
pushes = only ServerPush-discrete push

encoded_push : encode_server_push pushes push ≡ inr (1 ∷ [])
unfolding encode_server_push
encoded_push = rw (only-marshals ServerPush-discrete push) refl

only-succeeds : {M : Type 0} (same : Discrete M) (n : M) → is_some ((only same n).marshal n) ≡ true
only-succeeds same n = rw (only-marshals same n) refl

abbrev beat : HeartbeatRequest
beat = record { client_timestamp = pos 3 }

abbrev business : BusinessRequest
business = record { action = "a"; params = ("k", "v") ∷ []; message_data = 5 ∷ [] }

abbrev start : StartRequest
start = record { openid = "o"; client_id = ""; auth_token = "t"; last_acked_seq_id = 2 }

abbrev leaving : StopRequest
leaving = record { reason = user_logout }

abbrev businesses : Format BusinessRequest
businesses = only BusinessRequest-discrete business

start_payload :
    businesses.unmarshal
      (create_business_request businesses 1 2 "a" (("k", "v") ∷ []) (5 ∷ []) "o").payload
    ≡ some business
start_payload =
    (created_requests (only HeartbeatRequest-discrete beat) businesses acks
      (only StartRequest-discrete start) (only StopRequest-discrete leaving)
      (only-IsFaithful HeartbeatRequest-discrete beat)
      (only-IsFaithful BusinessRequest-discrete business)
      (only-IsFaithful ClientAck-discrete (record { acked_seq_id = 4 }))
      (only-IsFaithful StartRequest-discrete start) (only-IsFaithful StopRequest-discrete leaving)
      beat business (record { acked_seq_id = 4 }) start leaving refl
      (only-succeeds HeartbeatRequest-discrete beat)
      (only-succeeds BusinessRequest-discrete business)
      (only-succeeds ClientAck-discrete (record { acked_seq_id = 4 }))
      (only-succeeds StartRequest-discrete start) (only-succeeds StopRequest-discrete leaving) 1 2
      "o").1

abbrev beat_back : HeartbeatResponse
beat_back = record { client_timestamp = pos 3; server_timestamp = pos 4 }

abbrev answer : BusinessResponse
answer = record { code = pos 0; message = "ok"; message_data = 5 ∷ [] }

abbrev fault : ErrorMessage
fault = record { error_code = pos 7; error_message = "m"; detail = "d" }

abbrev started : StartResponse
started = record { success = true; error = none; heartbeat_interval = pos 30; connection_id = "c" }

error_payload :
    errors.unmarshal (create_error_message errors 1 2 (pos 7) "m" "d").payload ≡ some fault
error_payload =
    (created_pushes (only HeartbeatResponse-discrete beat_back)
      (only BusinessResponse-discrete answer) errors (only StartResponse-discrete started)
      (only-IsFaithful HeartbeatResponse-discrete beat_back)
      (only-IsFaithful BusinessResponse-discrete answer)
      (only-IsFaithful ErrorMessage-discrete fault) (only-IsFaithful StartResponse-discrete started)
      beat_back answer fault started (only-succeeds HeartbeatResponse-discrete beat_back)
      (only-succeeds BusinessResponse-discrete answer) (only-succeeds ErrorMessage-discrete fault)
      (only-succeeds StartResponse-discrete started) 1 2).2

-- An acknowledgement is encoded as it is marshalled, and decoded as it was.
ack_round_trip : encode_client_ack acks (record { acked_seq_id = 4 }) ≡ some (1 ∷ [])
unfolding encode_client_ack
ack_round_trip = only-marshals ClientAck-discrete (record { acked_seq_id = 4 })

ack_decoded : decode_client_ack acks (1 ∷ []) ≡ some (record { acked_seq_id = 4 })
unfolding decode_client_ack
ack_decoded = refl
