-- ===== src/Session/Send/Tests.antt =====
-- Runs of a session's sending, and instances of its theorems.
use gateway_test.Proto.{
  immediately, UnicastPushRequest, NotifySyncHint, ServerPush, before_response,
}
use gateway_test.Prelude.Dict.{store, lookup}
use gateway_test.Session.Queue.{
  process_waiting_messages, send_message_directly, enqueue_message, OrderedMessageQueue,
  new_ordered_message_queue, set_send_callback,
}
use gateway_test.Session.State.{new_server_seq, Session, inited}
use gateway_test.Session.Send.{
  NotifyError, send_push, send_notify_immediately, Outcome, bind_id_required, process_notify,
  cleanup_expired_bind_notifies, World, proc_with_notify_binds,
}
use gateway_test.Session.Ordering.{
  cleanup_expired_notifies, get_and_remove_after_notifies, get_and_remove_before_notifies,
  MessageOrderingManager, NotifyBindMsgItem,
}
use gateway_test.Session.Send.Binding.{process_notify-before_response}
use gateway_test.Prelude.{
  ℕ, ◌≡◌, refl, ap, true, false, Option, none, some, List, [], ◌∷◌, arith, nat_eq, string_eq,
  length, pos,
}
use gateway_test.Session.Send.Bodies.{Sends, request_bodies, still_bound, IsReady}
use gateway_test.Session.Send.Sequence.{proc_with_notify_binds-in_order}
use gateway_test.Session.Queue.Idle.{IsIdle}
use gateway_test.Session.Queue.Progress.{succeeds}
use gateway_test.Session.Queue.Order.{idle_wire}
use gateway_test.Session.Heap.{heap_init}

abbrev bare_queue : OrderedMessageQueue
bare_queue = new_ordered_message_queue "s" (pos 10)

abbrev queue : OrderedMessageQueue
queue = set_send_callback succeeds bare_queue

abbrev bound_item : ℕ → NotifyBindMsgItem
bound_item n = record {
  notify_data = n ∷ [];
  msg_type = "t";
  title = "";
  content = "";
  metadata = [];
  sync_hint = before_response;
  bind_grid = 7;
  create_time = pos 0;
}

-- Two notifies are bound before request 7, and one after it.
abbrev bound_notifies : MessageOrderingManager
bound_notifies = record {
  before_rsp_notifies = (7, bound_item 1 ∷ bound_item 2 ∷ []) ∷ [];
  after_rsp_notifies = (7, bound_item 3 ∷ []) ∷ [];
}

abbrev session : Session
session = record {
  id = "s";
  has_stream = true;
  create_time = 0;
  last_activity = 0;
  client_id = "c";
  open_id = "o";
  conn_idx = pos 1;
  user_ip = "";
  state = inited;
  zone = pos 0;
  is_successor = false;
  next_seq_id = 1;
  server_seq = 0;
  max_client_seq = 0;
  client_ack_server_seq = 0;
  ordered_queue = some queue;
  ordering_manager = some bound_notifies;
  closed = false;
}

abbrev world : World
world = record { wire = idle_wire; writes = 0; stream_log = [] }

queue-IsIdle : IsIdle 1 queue
unfolding set_send_callback new_ordered_message_queue heap_init
queue-IsIdle = record { empty = refl; live = refl; good = refl; room = omega arith; due = refl }

session-IsReady : IsReady session
session-IsReady = record { queue = queue; has_queue = refl; idle = queue-IsIdle }

abbrev marshal : ServerPush → List ℕ
marshal push = push.payload

abbrev bodies_length : ℕ
bodies_length = length (request_bodies 7 (9 ∷ []) bound_notifies)

bodies_four : bodies_length ≡ 4
unfolding get_and_remove_before_notifies get_and_remove_after_notifies lookup
bodies_four = refl

proc_with_notify_binds-in_order_example :
    Sends
      (request_bodies 7 (9 ∷ []) bound_notifies)
      (record session { ordering_manager = some (still_bound 7 bound_notifies) })
      world
      (proc_with_notify_binds (λ p. some (marshal p)) (λ _ _. true) 0 (9 ∷ []) 7 session world)
proc_with_notify_binds-in_order_example =
    proc_with_notify_binds-in_order marshal (λ _ _. true) 0 (9 ∷ []) 7 bound_notifies session world
      refl session-IsReady (omega (arith, bodies_four))

abbrev request : NotifySyncHint → ℕ → UnicastPushRequest
request hint grid = record {
  target_type = "user";
  target_id = "o";
  msg_type = "t";
  title = "";
  content = "";
  body = 5 ∷ [];
  metadata = [];
  sync_hint = hint;
  bind_client_seq_id = grid;
}

abbrev marshal_request : UnicastPushRequest → Option (List ℕ)
marshal_request req = some req.body

abbrev notified : NotifySyncHint → ℕ → Outcome NotifyError
notified hint grid =
    process_notify (λ p. some (marshal p)) (λ _ _. true) 0 marshal_request (pos 0)
      (some (request hint grid)) session world

process_notify-before_response_example : (notified before_response 7).2 ≡ none
process_notify-before_response_example =
    ap (λ r. r.2)
      (process_notify-before_response (λ p. some (marshal p)) (λ _ _. true) 0 marshal_request
        (pos 0) (request before_response 7) (5 ∷ []) bound_notifies session world refl refl
        (omega arith) refl).0

-- A number that is a multiple of 2^32 is refused, though it is not 0.
wrapped : (notified before_response 4294967296).2 ≡ some bind_id_required
unfolding process_notify
wrapped = refl

sent_at_once :
    ((notified immediately 0).2 ≡ none)
    × ((notified immediately 0).0.server_seq ≡ 1)
    × (length (notified immediately 0).1.wire.log ≡ 1)
unfolding process_notify send_notify_immediately send_push new_server_seq enqueue_message
    set_send_callback new_ordered_message_queue send_message_directly process_waiting_messages
    heap_init store
sent_at_once = (refl, refl, refl)

cleaned_bound : (cleanup_expired_bind_notifies (pos 10) (pos 5) session).1 ≡ 3
unfolding cleanup_expired_bind_notifies cleanup_expired_notifies
cleaned_bound = refl
