-- ===== src/Session/Manager/Tests.antt =====
-- Runs of the manager, and instances of its theorems.
use gateway_test.Session.Manager.Histories.{
  expires, removes_now, removes, on_calls-WellFormed, KeepUsers, starts, binds, creates, on_calls,
  ManagerCall,
}
use gateway_test.Session.Manager.WellFormed.{WellFormed}
use gateway_test.Prelude.{
  inr, ℕ, ◌*◌, String, ◌≡◌, refl, ◌≢◌, true, false, none, some, List, [], ◌∷◌, arith, ◌==◌, nat_eq,
  string_eq, get_elem?, pos,
}
use gateway_test.Prelude.Dict.{Dict, lookup, store, delete}
use gateway_test.Session.State.{Session, set_closed, validate_client_seq}
use gateway_test.Session.Queue
use gateway_test.Session.Queue.{OrderedMessage, new_ordered_message_queue}
use gateway_test.Session.Manager.{
  Manager, new_manager, session_for, get_session, get_session_by_open_id, get_session_count,
  create_or_reconnect_session, remove_session, find_session, find_by_uid, immediate_remove_session,
  remove_expired_sessions, remove_session_with_delay, close_old_session, stop,
}
use gateway_test.Session.Manager.Calls.{
  ack_messages_up_to, activate_session, validate_client_sequence, get_expected_client_sequence,
  get_pending_count, bind_session, no_session, uid_taken,
}
use gateway_test.Session.Manager.Index.{
  IsFound, create_or_reconnect_session-IsFound, create_or_reconnect_session-replaces,
}
use gateway_test.Session.Manager.Removal.{remove_session-leaks, immediate_remove_session-orphans}
use gateway_test.Session.Manager.Expiry.{remove_expired_sessions-stale}

abbrev copy : Dict ℕ OrderedMessage → Dict ℕ OrderedMessage → Dict ℕ OrderedMessage
copy to from = from

differs : (a b : String) → (a == b) ≡ false → a ≢ b
differs a b h e = ground (arith, string_eq.beq_iff a b, h, e)

-- One session of the user "u".
abbrev first : Session
first = session_for 0 "a" "c" "u" ""

abbrev one_session : Manager
one_session = record {
  cells = first ∷ [];
  sessions = ("a", 0) ∷ [];
  sessions_by_uid = ("u", 0) ∷ [];
  session_timeout = 100;
  connection_down_delay = 30;
  removals = [];
  closings = [];
}

first_created :
    (create_or_reconnect_session copy 0 "a" "c" "u" "" (new_manager 100)).0
    ≡ record one_session { connection_down_delay = 30 * 1000000000 }
unfolding create_or_reconnect_session new_manager find_by_uid lookup store delete
first_created = refl

-- Two of the same user, where the index by user holds the second.
abbrev second : Session
second = session_for 90 "b" "c" "u" ""

abbrev two_sessions : Manager
two_sessions = record one_session {
  cells = first ∷ second ∷ [];
  sessions = ("a", 0) ∷ ("b", 1) ∷ [];
  sessions_by_uid = ("u", 1) ∷ [];
}

create_or_reconnect_session-IsFound_example :
    IsFound "b" "u" 1 (create_or_reconnect_session copy 90 "b" "c" "u" "" one_session).0
create_or_reconnect_session-IsFound_example =
    create_or_reconnect_session-IsFound copy 90 "b" "c" "u" "" one_session

-- After 90 nanoseconds, with a delay of 30, the second does not take over from the first.
second_created :
    (create_or_reconnect_session copy 90 "b" "c" "u" "" one_session).0.sessions_by_uid
    ≡ ("u", 1) ∷ []
unfolding create_or_reconnect_session find_by_uid find_session lookup store delete
second_created = refl

one_user : find_by_uid "u" one_session ≡ some (0, first)
unfolding find_by_uid lookup
one_user = refl

one_found : find_session "a" one_session ≡ some (0, first)
unfolding find_session lookup
one_found = refl

create_or_reconnect_session-replaces_example :
    get_session "a" (create_or_reconnect_session copy 40 "b" "c" "u" "" one_session).0 ≡ none
create_or_reconnect_session-replaces_example =
    (create_or_reconnect_session-replaces copy 40 "b" "c" "u" "" one_session 0 first
      (differs "u" "" refl) one_user one_found (omega arith) (differs "a" "b" refl)).1

remove_session-leaks_example :
    get_elem? (remove_session "a" one_session).cells 0 ≡ some (record first { closed = true })
remove_session-leaks_example = (remove_session-leaks "a" one_session 0 first one_found refl).1

two_first : find_session "a" two_sessions ≡ some (0, first)
unfolding find_session lookup
two_first = refl

two_second : find_session "b" two_sessions ≡ some (1, second)
unfolding find_session lookup
two_second = refl

two_user : find_by_uid "u" two_sessions ≡ some (1, second)
unfolding find_by_uid lookup
two_user = refl

immediate_remove_session-orphans_example :
    (get_session "b" (immediate_remove_session "a" two_sessions) ≡ some second)
    × (get_session_by_open_id "u" (immediate_remove_session "a" two_sessions) ≡ none)
immediate_remove_session-orphans_example =
    immediate_remove_session-orphans "a" two_sessions 0 1 first second two_first two_user two_second
      (differs "u" "" refl) (omega arith) (differs "a" "b" refl)

remove_expired_sessions-stale_example :
    let m = remove_expired_sessions 101 one_session in
    (lookup "a" m.sessions ≡ none) × (lookup "u" m.sessions_by_uid ≡ some 0)
unfolding lookup
remove_expired_sessions-stale_example =
    remove_expired_sessions-stale 101 "a" "u" one_session 0 first refl refl refl refl

others :
    (get_session_count two_sessions ≡ 2)
    × (get_expected_client_sequence "a" one_session ≡ 1)
    × (get_pending_count "a" one_session ≡ 0)
    × ((ack_messages_up_to "a" 0 one_session).1 ≡ 0)
    × ((activate_session "x" (pos 1) one_session).1 ≡ some no_session)
    × ((validate_client_sequence "a" 5 one_session).1 ≡ true)
    × ((bind_session 0 two_sessions).1 ≡ some (uid_taken "u"))
    × (get_session_count (stop two_sessions) ≡ 0)
    × (get_session_count (close_old_session 0 two_sessions) ≡ 2)
    × ((remove_session_with_delay "a" true one_session).removals ≡ "a" ∷ [])
unfolding get_session_count get_expected_client_sequence get_pending_count ack_messages_up_to
    activate_session validate_client_sequence bind_session stop close_old_session
    remove_session_with_delay get_session find_session find_by_uid lookup Queue.get_pending_count
    Queue.ack_messages_up_to new_ordered_message_queue validate_client_seq set_closed
others = (refl, refl, refl, refl, refl, refl, refl, refl, refl, refl)

one-WellFormed : WellFormed one_session
one-WellFormed = record { by_id = (refl, tt); by_user = (refl, tt); named = ((λ e. cc), tt) }

abbrev history : List ManagerCall
history =
    starts 0 "u" "c2"
    ∷ binds 0
    ∷ creates 40 "b" "c" "u" ""
    ∷ creates 50 "d" "c" "w" ""
    ∷ removes "d" true
    ∷ removes_now "d"
    ∷ expires 145
    ∷ []

history_keeps : KeepUsers copy history one_session
history_keeps = (inr refl, (tt, (tt, (tt, (tt, (tt, (tt, tt)))))))

on_calls-WellFormed_example : WellFormed (on_calls copy history one_session)
on_calls-WellFormed_example =
    on_calls-WellFormed copy history one_session history_keeps one-WellFormed
