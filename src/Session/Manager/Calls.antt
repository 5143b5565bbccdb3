-- ===== src/Session/Manager/Calls.antt =====
-- internal/session/manager.go: the calls that reach a session through its id, and the bind of a user.
use gateway_test.Prelude.{
  ℕ, ◌+◌, String, Bool, false, not, Option, none, some, if◌then◌else◌, ◌==◌, nat_eq, string_eq,
  get_elem?, u64, ℤ,
}
use gateway_test.Prelude.Dict.{store}
use gateway_test.Session.Queue
use gateway_test.Session.State
use gateway_test.Session.Queue.{OrderedMessageQueue}
use gateway_test.Session.State.{Session, update_ack_server_seq, validate_client_seq}
use gateway_test.Session.Manager.{Manager, find_session, find_by_uid, get_session, put}

acked_queue : ℕ → ℕ → Session → Manager → Option OrderedMessageQueue → Manager × ℕ
acked_queue ack p s m none = (put p s m, 0)
acked_queue ack p s m (some q) =
    let (q', count) = Queue.ack_messages_up_to ack q in
    (put p (record s { ordered_queue = some q' }) m, count)

acked_found : ℕ → Manager → Option (ℕ × Session) → Manager × ℕ
unfolding acked_queue
acked_found ack m none = (m, 0)
acked_found ack m (some (p, s)) = acked_queue ack p (update_ack_server_seq ack s) m s.ordered_queue

unfoldable pub ack_messages_up_to : String → ℕ → Manager → Manager × ℕ
unfolding acked_found
ack_messages_up_to session_id ack m = acked_found ack m (find_session session_id m)

pub data ManagerError : Type 0 where
  no_session not_inited : ManagerError
  uid_taken : String → ManagerError

activate_found : ℤ → Manager → Option (ℕ × Session) → Manager × Option ManagerError
activate_found zone m none = (m, some no_session)
activate_found zone m (some (p, s)) =
    let (s', ok) = State.activate_session zone s in
    (put p s' m, if ok then none else some not_inited)

unfoldable pub activate_session : String → ℤ → Manager → Manager × Option ManagerError
unfolding activate_found
activate_session session_id zone m = activate_found zone m (find_session session_id m)

validate_found : ℕ → Manager → Option (ℕ × Session) → Manager × Bool
validate_found client_seq m none = (m, false)
validate_found client_seq m (some (p, s)) =
    let (s', ok) = validate_client_seq client_seq s in (put p s' m, ok)

unfoldable pub validate_client_sequence : String → ℕ → Manager → Manager × Bool
unfolding validate_found
validate_client_sequence session_id client_seq m =
    validate_found client_seq m (find_session session_id m)

abbrev expected_of : Option Session → ℕ
expected_of none = 1
expected_of (some s) = u64 (s.max_client_seq + 1)

unfoldable pub get_expected_client_sequence : String → Manager → ℕ
get_expected_client_sequence session_id m = expected_of (get_session session_id m)

abbrev pending_in : Option OrderedMessageQueue → ℕ
pending_in none = 0
pending_in (some q) = Queue.get_pending_count q

abbrev pending_of : Option Session → ℕ
pending_of none = 0
pending_of (some s) = pending_in s.ordered_queue

unfoldable pub get_pending_count : String → Manager → ℕ
get_pending_count session_id m = pending_of (get_session session_id m)

abbrev is_other : String → Option (ℕ × Session) → Bool
is_other session_id none = false
is_other session_id (some (_, s)) = not (s.id == session_id)

-- The session is given by its pointer, as the caller holds it.
abbrev pub bind_cell : ℕ → Manager → Option Session → Manager × Option ManagerError
bind_cell p m none = (m, some no_session)
bind_cell p m (some s) =
    if s.open_id == ""
    then (m, none)
    else if is_other s.id (find_by_uid s.open_id m)
    then (m, some (uid_taken s.open_id))
    else (record m { sessions_by_uid = store s.open_id p m.sessions_by_uid }, none)

unfoldable pub bind_session : ℕ → Manager → Manager × Option ManagerError
bind_session p m = bind_cell p m (get_elem? m.cells p)
