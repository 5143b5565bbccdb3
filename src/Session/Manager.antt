-- ===== src/Session/Manager.antt =====
-- internal/session/manager.go: the sessions of the gateway and their two indexes. A session is an
-- object that both indexes point to, so the model has a store of sessions and indexes into it. The
-- maps are concurrent maps, and each method is one step. Timers are recorded and fire later.
pub mod Calls
pub mod Index
pub mod Removal
pub mod WellFormed
pub mod Binding
pub mod Histories
pub mod Expiry
mod Tests
use gateway_test.Prelude.{
  ℕ, ◌+◌, ◌*◌, String, refl, Bool, true, false, not, ◌&&◌, Option, none, some, List, [], ◌∷◌, ◌++◌,
  arith, ltb, eqb, if◌then◌else◌, ◌==◌, nat_eq, string_eq, length, get_elem?, set, pos,
}
use gateway_test.Prelude.Dict.{Dict, lookup, store, delete}
use gateway_test.Session.State.{
  Session, SessionState, inited, close, set_closed, is_expired, inherit_from, validate_client_seq,
  update_ack_server_seq,
}
use gateway_test.Session.State
use gateway_test.Session.Queue
use gateway_test.Session.Queue.{OrderedMessage, OrderedMessageQueue, new_ordered_message_queue}
use gateway_test.Session.Ordering.{new_message_ordering_manager}

pub record Manager : Type 0 where
  pub cells : List Session
  pub sessions : Dict String ℕ
  pub sessions_by_uid : Dict String ℕ
  pub session_timeout : ℕ
  pub connection_down_delay : ℕ
  -- The ids that an immediate removal waits for, and the old sessions to close.
  pub removals : List String
  pub closings : List ℕ

unfoldable pub new_manager : ℕ → Manager
new_manager session_timeout = record {
  cells = [];
  sessions = [];
  sessions_by_uid = [];
  session_timeout = session_timeout;
  connection_down_delay = 30 * 1000000000;
  removals = [];
  closings = [];
}

-- The object behind an entry of an index.
abbrev pub at_cell : ℕ → Option Session → Option (ℕ × Session)
at_cell p none = none
at_cell p (some s) = some (p, s)

abbrev pub pointed : List Session → Option ℕ → Option (ℕ × Session)
pointed cells none = none
pointed cells (some p) = at_cell p (get_elem? cells p)

unfoldable pub find_session : String → Manager → Option (ℕ × Session)
find_session session_id m = pointed m.cells (lookup session_id m.sessions)

unfoldable pub find_by_uid : String → Manager → Option (ℕ × Session)
find_by_uid open_id m = pointed m.cells (lookup open_id m.sessions_by_uid)

abbrev pub object : Option (ℕ × Session) → Option Session
object none = none
object (some (_, s)) = some s

unfoldable pub get_session : String → Manager → Option Session
get_session session_id m = object (find_session session_id m)

unfoldable pub get_session_by_open_id : String → Manager → Option Session
get_session_by_open_id open_id m = object (find_by_uid open_id m)

unfoldable pub get_session_count : Manager → ℕ
get_session_count m = length m.sessions

abbrev pub put : ℕ → Session → Manager → Manager
put p s m = record m { cells = set m.cells p s }

abbrev pub without_uid : String → Dict String ℕ → Dict String ℕ
without_uid open_id index = if open_id == "" then index else delete open_id index

pub remove_found : String → Manager → Option (ℕ × Session) → Manager
remove_found session_id m none = m
remove_found session_id m (some (p, s)) = record m {
  sessions = delete session_id m.sessions;
  sessions_by_uid = without_uid s.open_id m.sessions_by_uid;
  cells = set m.cells p (close s);
}

unfoldable pub immediate_remove_session : String → Manager → Manager
unfolding remove_found
immediate_remove_session session_id m = remove_found session_id m (find_session session_id m)

pub delay_found : String → Bool → Manager → Option (ℕ × Session) → Manager
delay_found session_id delay m none = m
delay_found session_id delay m (some (p, s)) =
    let (s', already_closed) = set_closed s in
    let m' = put p s' m in
    if already_closed && not delay
    then immediate_remove_session session_id m'
    else if delay && not (s.open_id == "")
    then record m' { removals = session_id ∷ m'.removals }
    else immediate_remove_session session_id m'

unfoldable pub remove_session_with_delay : String → Bool → Manager → Manager
unfolding delay_found
remove_session_with_delay session_id delay m =
    delay_found session_id delay m (find_session session_id m)

unfoldable pub remove_session : String → Manager → Manager
remove_session session_id m = remove_session_with_delay session_id false m

-- The new session before it takes anything over.
abbrev pub session_for : ℕ → String → String → String → String → Session
session_for now session_id client_id open_id user_ip = record {
  id = session_id;
  has_stream = true;
  create_time = now;
  last_activity = now;
  client_id = client_id;
  open_id = open_id;
  conn_idx = pos 1;
  user_ip = user_ip;
  state = inited;
  zone = pos 0;
  is_successor = false;
  next_seq_id = 1;
  server_seq = 0;
  max_client_seq = 0;
  client_ack_server_seq = 0;
  ordered_queue = some (new_ordered_message_queue session_id (pos 1000));
  ordering_manager = some new_message_ordering_manager;
  closed = false;
}

-- The old session of a user, while it may be taken over.
abbrev pub candidate : ℕ → ℕ → Option (ℕ × Session) → Option (ℕ × Session)
candidate now delay none = none
candidate now delay (some (p, s)) =
    if ltb now (s.last_activity + delay * 2) then some (p, s) else none

abbrev pub same_object : ℕ → Option (ℕ × Session) → Bool
same_object p none = false
same_object p (some (q, _)) = eqb p q

-- It is taken over only if the index by id still holds this very object.
abbrev pub confirmed : Manager → Option (ℕ × Session) → Option (ℕ × Session)
confirmed m none = none
confirmed m (some (p, s)) = if same_object p (find_session s.id m) then some (p, s) else none

-- The old session is marked and leaves the index by id; it is closed five seconds later.
abbrev pub handle_old_session_on_reconnect : ℕ → Session → Manager → Manager
handle_old_session_on_reconnect p old m = record m {
  cells = set m.cells p (set_closed old).0;
  sessions = delete old.id m.sessions;
  closings = p ∷ m.closings;
}

module _
    (copy_messages : Dict ℕ OrderedMessage → Dict ℕ OrderedMessage → Dict ℕ OrderedMessage) where
  -- copier.Copy of the messages that wait for an acknowledgement.
  abbrev with_messages :
      Option OrderedMessageQueue → Option OrderedMessageQueue → Option OrderedMessageQueue
  with_messages (some old) (some q) =
      some (record q { sent_messages = copy_messages q.sent_messages old.sent_messages })
  with_messages _ q = q

  abbrev pub register : Session → Manager → Manager
  register s m =
      let p = length m.cells in
      record m {
        cells = m.cells ++ s ∷ [];
        sessions = store s.id p m.sessions;
        sessions_by_uid =
            if s.open_id == "" then m.sessions_by_uid else store s.open_id p m.sessions_by_uid;
      }

  pub connect : Session → Manager → Option (ℕ × Session) → Manager × Bool
  connect s m none = (register s m, false)
  connect s m (some (p, old)) =
      let taken = inherit_from old s in
      let s' = record taken {
        ordered_queue = with_messages old.ordered_queue taken.ordered_queue;
      } in
      (register s' (handle_old_session_on_reconnect p old m), true)

  -- `session_id` is the new uuid.
  unfoldable pub create_or_reconnect_session :
      ℕ → String → String → String → String → Manager → Manager × Bool
  unfolding connect
  create_or_reconnect_session now session_id client_id open_id user_ip m =
      let known = if open_id == "" then none else find_by_uid open_id m in
      connect (session_for now session_id client_id open_id user_ip) m
        (confirmed m (candidate now m.connection_down_delay known))

-- The old session's timer fires.
close_cell : ℕ → Manager → Option Session → Manager
close_cell p m none = m
close_cell p m (some s) = put p (close s) m

unfoldable pub close_old_session : ℕ → Manager → Manager
unfolding close_cell
close_old_session p m = close_cell p m (get_elem? m.cells p)

abbrev pub expired_cell : ℕ → ℕ → Option Session → Bool
expired_cell now timeout none = false
expired_cell now timeout (some s) = is_expired now timeout s

-- The first loop collects the ids, the second removes them.
pub expired_ids : ℕ → Manager → Dict String ℕ → List String
expired_ids now m [] = []
expired_ids now m ((session_id, p) ∷ index) =
    let ids = expired_ids now m index in
    if expired_cell now m.session_timeout (get_elem? m.cells p) then session_id ∷ ids else ids

pub expire_found : String → Manager → Option (ℕ × Session) → Manager
expire_found session_id m none = m
expire_found session_id m (some (p, s)) = record m {
  sessions = delete session_id m.sessions;
  cells = set m.cells p (close s);
}

pub expire_all : List String → Manager → Manager
unfolding expire_found
expire_all [] m = m
expire_all (session_id ∷ ids) m =
    expire_all ids (expire_found session_id m (find_session session_id m))

unfoldable pub remove_expired_sessions : ℕ → Manager → Manager
unfolding expired_ids expire_all
remove_expired_sessions now m = expire_all (expired_ids now m m.sessions) m

close_listed : Dict String ℕ → Manager → Manager
close_listed [] m = m
close_listed ((_, p) ∷ index) m = close_listed index (close_old_session p m)

unfoldable pub stop : Manager → Manager
unfolding close_listed
stop m = record (close_listed m.sessions m) { sessions = []; sessions_by_uid = [] }
