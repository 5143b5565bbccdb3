-- ===== src/Session/State.antt =====
-- internal/session/session.go: the state of one session without what it sends.
-- Atomic fields and the close mutex make each method one step. The connection and the stream are
-- outside the program.
pub mod Login
pub mod Inherit
mod Tests
use gateway_test.Prelude.{
  ℕ, ◌+◌, String, refl, Bool, true, false, ◌||◌, Option, none, some, [], arith, ltb, eqb,
  if◌then◌else◌, nat_eq, string_eq, u64, ℤ,
}
use gateway_test.Prelude.Dict.{Dict}
use gateway_test.Proto.{ServerPush, push_business_data}
use gateway_test.Session.Queue.{
  OrderedMessageQueue, QueueError, Wire, enqueue_message, new_ordered_message_queue,
  resync_sequence, stop,
}
use gateway_test.Session.Ordering.{
  NotifyBindMsgItem, MessageOrderingManager, add_notify_bind_before_rsp, add_notify_bind_after_rsp,
  get_and_remove_before_notifies, get_and_remove_after_notifies, cleanup_expired_notifies,
}

pub data SessionState : Type 0 where
  inited normal closed_state : SessionState

pub record Session : Type 0 where
  pub id : String
  pub has_stream : Bool
  pub create_time : ℕ
  pub last_activity : ℕ
  pub client_id : String
  pub open_id : String
  pub conn_idx : ℤ
  pub user_ip : String
  pub state : SessionState
  pub zone : ℤ
  pub is_successor : Bool
  pub next_seq_id : ℕ
  pub server_seq : ℕ
  pub max_client_seq : ℕ
  pub client_ack_server_seq : ℕ
  pub ordered_queue : Option OrderedMessageQueue
  pub ordering_manager : Option MessageOrderingManager
  pub closed : Bool

unfoldable pub next_seq_id : Session → Session × ℕ
next_seq_id s = let n = u64 (s.next_seq_id + 1) in (record s { next_seq_id = n }, n)

unfoldable pub update_activity : ℕ → Session → Session
update_activity now s = record s { last_activity = now }

-- `time.Since(s.LastActivity) > timeout`
abbrev pub is_expired : ℕ → ℕ → Session → Bool
is_expired now timeout s = ltb (s.last_activity + timeout) now

-- Close also closes the stream and the connection, which are outside the model.
abbrev stop_queue : Option OrderedMessageQueue → Option OrderedMessageQueue
stop_queue none = none
stop_queue (some q) = some (stop q)

unfoldable pub close : Session → Session
close s =
    if s.closed then s else record s { closed = true; ordered_queue = stop_queue s.ordered_queue }

-- Returns whether the session was closed before.
unfoldable pub set_closed : Session → Session × Bool
set_closed s = if s.closed then (s, true) else (record s { closed = true }, false)

abbrev pub is_inited : SessionState → Bool
is_inited inited = true
is_inited _ = false

abbrev pub is_normal : SessionState → Bool
is_normal normal = true
is_normal _ = false

unfoldable pub set_state : SessionState → Session → Session
set_state state s = record s { state = state }

unfoldable pub set_normal : Session → Session × Bool
set_normal s = if is_inited s.state then (record s { state = normal }, true) else (s, false)

unfoldable pub activate_session : ℤ → Session → Session × Bool
activate_session zone s =
    if is_inited s.state then (record s { state = normal; zone = zone }, true) else (s, false)

unfoldable pub can_process_business_request : Session → Bool
can_process_business_request s = is_normal s.state

unfoldable pub can_process_login_request : Session → Bool
can_process_login_request s = is_inited s.state || is_normal s.state

unfoldable pub new_server_seq : Session → Session × ℕ
new_server_seq s = let n = u64 (s.server_seq + 1) in (record s { server_seq = n }, n)

unfoldable pub update_ack_server_seq : ℕ → Session → Session
update_ack_server_seq seq s = record s { client_ack_server_seq = seq }

unfoldable pub validate_client_seq : ℕ → Session → Session × Bool
validate_client_seq client_seq s =
    if eqb s.max_client_seq 0
    then (record s { max_client_seq = client_seq }, true)
    else if eqb client_seq (u64 (s.max_client_seq + 1))
    then (record s { max_client_seq = client_seq }, true)
    else (s, false)

abbrev resync_if :
    Option OrderedMessageQueue → ℕ → Option OrderedMessageQueue → Option OrderedMessageQueue
resync_if (some _) ack (some q) = some (resync_sequence ack q)
resync_if _ ack q = q

-- InheritFrom: what the new session takes from the old one.
unfoldable pub inherit_from : Session → Session → Session
inherit_from old s = record s {
  zone = old.zone;
  server_seq = old.server_seq;
  is_successor = true;
  state = if is_normal old.state then normal else s.state;
  client_ack_server_seq = old.client_ack_server_seq;
  max_client_seq = old.max_client_seq;
  ordered_queue = resync_if old.ordered_queue old.client_ack_server_seq s.ordered_queue;
}

queue_or_new : String → ℤ → Option OrderedMessageQueue → OrderedMessageQueue
queue_or_new id max_queue_size none = new_ordered_message_queue id max_queue_size
queue_or_new id max_queue_size (some q) = q

unfoldable pub init_ordered_queue : ℤ → Session → Session
unfolding queue_or_new
init_ordered_queue max_queue_size s = record s {
  ordered_queue = some (queue_or_new s.id max_queue_size s.ordered_queue);
}
