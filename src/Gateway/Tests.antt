-- ===== src/Gateway/Tests.antt =====
-- Runs of the server, and instances of its theorems.
use gateway_test.Gateway.Overload.{
  default_overload_config, allow_new_connection, new_sliding_window, new_overload_protector,
}
use gateway_test.Gateway.Connection.{
  ConnectionEvent, message_read, read_failed, handle_connection, accept_connection,
}
use gateway_test.Gateway.Connection.Released.{handle_connection-IsServed, IsServed}
use gateway_test.Prelude.Dict.{store, lookup}
use gateway_test.Session.Manager.{find_session, Manager, new_manager, session_for, register}
use gateway_test.Prelude.{
  ap, pos_part, ℕ, ◌≡◌, refl, ◌≢◌, ◌⊎◌, inr, true, false, none, some, List, [], ◌∷◌, arith, nat_eq,
  string_eq, pos,
}
use gateway_test.Message.Create.{Format, encode_server_push}
use gateway_test.Proto.{
  ServerPush, ClientRequest, request_business, BusinessRequest, UpstreamRequest, UpstreamResponse,
  before_response,
}
use gateway_test.Session.Queue.{Wire, new_ordered_message_queue}
use gateway_test.Session.Queue.Shape.{new-QueueInv}
use gateway_test.Session.Queue.Firsts.{firsts}
use gateway_test.Session.Ordering.{NotifyBindMsgItem, MessageOrderingManager}
use gateway_test.Session.State.{Session, normal}
use gateway_test.Gateway.Sender.{Formats, SenderEnv, send_ordered_message, business_data}
use gateway_test.Gateway.Sender.Gap.{failed_send-blocks, send_all}
use gateway_test.Gateway.Sender.Bodies.{bodies, sent_onto, IsOpen, IsReady}
use gateway_test.Gateway.Server.{AsyncTask, Server, ServerEnv, sender_env, session_at}
use gateway_test.Gateway.Async.{process_task}
use gateway_test.Gateway.Handlers.{handle_business_request, handle_business_request_sync}
use gateway_test.Gateway.Handlers.Answers.{CanAnswer, before_notifies-misplaced, response_body}
use gateway_test.Gateway.Handlers.Gate.{business_gate, IsAdmitted, Untouched}
use gateway_test.Gateway.Unicast.{push_to_client, UnicastError}

-- A format that marshals every message alike and reads nothing.
abbrev blank : {M : Type 0} → Format M
blank = record { marshal = λ _. some (1 ∷ []); unmarshal = λ _. none }

abbrev refusing : {M : Type 0} → Format M
refusing = record { marshal = λ _. none; unmarshal = λ _. none }

abbrev request : BusinessRequest
request = record { action = "buy"; params = []; message_data = [] }

abbrev formats : Formats
formats = record {
  client_request = blank;
  server_push = blank;
  start_request = blank;
  start_response = blank;
  stop_request = blank;
  heartbeat_request = blank;
  heartbeat_response = blank;
  business_request = record { marshal = λ _. some []; unmarshal = λ _. some request };
  business_response = blank;
  error_message = blank;
  client_ack = blank;
  unicast_push = blank;
}

abbrev response : UpstreamResponse
response = record {
  code = pos 200;
  message = "";
  message_data = [];
  headers = [];
  client_seq_id = 7;
}

abbrev env : ServerEnv
env = record {
  formats = formats;
  text = record { to_lower = λ s. s; contains = λ _ _. false };
  write = λ _ _ _. true;
  now = 0;
  millis = pos 0;
  unix_now = pos 0;
  call = λ _ _. inr response;
  parse_int = λ _. none;
  error_text = "";
  sequence_detail = λ _ _. "";
  titled = λ _ _. "";
}

abbrev notify : ℕ → NotifyBindMsgItem
notify n = record {
  notify_data = n ∷ [];
  msg_type = "t";
  title = "";
  content = "";
  metadata = [];
  sync_hint = before_response;
  bind_grid = 7;
  create_time = pos 0;
}

abbrev ordering : MessageOrderingManager
ordering = record {
  before_rsp_notifies = (7, notify 5 ∷ []) ∷ [];
  after_rsp_notifies = (7, notify 6 ∷ []) ∷ [];
}

-- A session that is logged in, with a notify bound before request 7 and one after it.
abbrev session : Session
session = record (session_for 0 "s" "c" "o" "ip") {
  state = normal;
  ordering_manager = some ordering;
}

abbrev manager : Manager
manager = register (λ _ m. m) session (new_manager 10)

abbrev no_wire : Wire
no_wire = record { calls = 0; log = [] }

abbrev server : Server
server = record {
  manager = manager;
  protector = new_overload_protector 0 none;
  wires = λ _. no_wire;
  async_processor = none;
  upstream_calls = [];
}

abbrev client_request : ClientRequest
client_request = record {
  msg_id = 1;
  seq_id = 7;
  request_type = request_business;
  payload = [];
  headers = [];
  openid = "o";
}

abbrev upstream_request : UpstreamRequest
upstream_request = record {
  session_id = "s";
  openid = "o";
  action = "buy";
  params = [];
  message_data = [];
  headers = [];
  client_seq_id = 7;
}

abbrev task : AsyncTask
task = record {
  session = 0;
  request = client_request;
  business_req = request;
  service_type = "business";
  upstream_req = upstream_request;
  is_login = false;
}

env-IsOpen : IsOpen (sender_env env 0)
unfolding encode_server_push
env-IsOpen = record { writes = refl; encodes = λ push. (1 ∷ [], refl) }

session-IsReady : IsReady 1 session
unfolding new_ordered_message_queue gateway_test.Session.Heap.heap_init
session-IsReady = record {
  queue = new_ordered_message_queue "s" (pos 1000);
  holds = refl;
  empty = refl;
  live = refl;
  room = omega arith;
  due = refl;
  number = refl;
  unclosed = refl;
}

session-CanAnswer : CanAnswer env 0 7 1 ordering session
unfolding lookup
session-CanAnswer = record {
  opened = env-IsOpen;
  ready = session-IsReady;
  has = refl;
  small = omega arith;
}

session_found : session_at 0 server ≡ some session
unfolding new_manager
session_found = refl

before_notifies-misplaced_example :
    (bodies ((process_task env task server).wires 0).log
      ≡ sent_onto ((6 ∷ []) ∷ []) (response_body env response ∷ sent_onto ((5 ∷ []) ∷ []) []))
    × (bodies
          ((handle_business_request_sync env 0 client_request "business" upstream_request false
              session server).0.wires
            0).log
        ≡ sent_onto ((6 ∷ []) ∷ []) (sent_onto ((5 ∷ []) ∷ []) (response_body env response ∷ [])))
unfolding lookup
before_notifies-misplaced_example =
    before_notifies-misplaced env 1 ordering task response session server session_found refl refl
      session-CanAnswer

business_gate_example :
    let r = handle_business_request env 0 client_request server in
    (r.0.protector.upstream_active ≡ server.protector.upstream_active)
    × (IsAdmitted env 0 client_request server ⊎ Untouched server r)
unfolding new_overload_protector
business_gate_example = business_gate env 0 client_request server (omega arith)

-- The sender of a server that cannot encode.
abbrev mute : SenderEnv
mute = record {
  formats = record formats { server_push = refusing };
  write = λ _ _. true;
  now = 0;
  millis = pos 0;
}

abbrev some_data : ServerPush
some_data = business_data mute (1 ∷ [])

mute_fails : (send_ordered_message mute some_data session no_wire).2 ≢ none
unfolding send_ordered_message encode_server_push
mute_fails = λ e. cc

failed_send-blocks_example :
    let r = send_ordered_message mute some_data session no_wire in
    firsts (send_all mute (some_data ∷ some_data ∷ []) r.0 r.1).1.log ≡ firsts no_wire.log
unfolding new_ordered_message_queue
failed_send-blocks_example =
    failed_send-blocks mute some_data (some_data ∷ some_data ∷ []) session no_wire
      (new_ordered_message_queue "s" (pos 1000)) refl (new-QueueInv "s" (pos 1000)) refl
      (omega arith) mute_fails

-- A push to a session that nobody has.
no_such_session :
    (push_to_client env
      (record {
        target_type = "session";
        target_id = "x";
        msg_type = "";
        title = "";
        content = "";
        body = [];
        metadata = [];
        sync_hint = before_response;
        bind_client_seq_id = 7;
      })
      server).1
    ≡ some UnicastError.no_session
unfolding push_to_client new_manager find_session lookup store
no_such_session = refl

-- An environment whose client sends a business request.
abbrev asking : ServerEnv
asking = record env {
  formats = record formats {
    client_request = record { marshal = λ _. none; unmarshal = λ _. some client_request };
  };
}

abbrev asks_twice : List ConnectionEvent
asks_twice = message_read (2 ∷ []) ∷ read_failed ∷ []

admits_one : (accept_connection server).1 ≡ true
unfolding accept_connection allow_new_connection new_overload_protector default_overload_config
admits_one = refl

handle_connection-IsServed_example : IsServed (pos 0) (
    handle_connection asking
      (λ _ m. m)
      "s2"
      "ip"
      (some (1 ∷ []))
      asks_twice
      (accept_connection server).0)
unfolding new_overload_protector new_sliding_window default_overload_config
handle_connection-IsServed_example =
    handle_connection-IsServed asking (λ _ m. m) "s2" "ip" (some (1 ∷ [])) asks_twice server
      (omega arith) (λ e. omega (arith, ap pos_part e)) admits_one
