-- ===== src/Session/State/Tests.antt =====
-- Runs of a session's state, and instances of its theorems.
use gateway_test.Session.Queue.{
  resyncs, OrderedMessageQueue, QueueCall, new_ordered_message_queue, run, enqueues, resends,
  resync_sequence,
}
use gateway_test.Session.State.Login.{chain, up_from, feed, feed-client_seqs, feed-fresh}
use gateway_test.Prelude.{
  ◌+◌, ◌-◌, ◌≡◌, refl, true, false, none, some, List, [], ◌∷◌, arith, nat_eq, string_eq, length,
  pos,
}
use gateway_test.Session.State.{
  Session, inited, closed_state, next_seq_id, update_activity, close, set_closed, set_state,
  set_normal, can_process_business_request, can_process_login_request, new_server_seq, is_expired,
  update_ack_server_seq, validate_client_seq, inherit_from, init_ordered_queue,
}
use gateway_test.Session.State.Inherit.{inherit_from_stalls}
use gateway_test.Session.Queue.Order.{idle_wire}
use gateway_test.Session.Queue.Firsts.{firsts}
use gateway_test.Session.Queue.Shape.{new-QueueInv}
use gateway_test.Proto.{ServerPush, push_business_data}

abbrev fresh_session : Session
fresh_session = record {
  id = "s";
  has_stream = true;
  create_time = 0;
  last_activity = 0;
  client_id = "c";
  open_id = "o";
  conn_idx = pos 1;
  user_ip = "";
  state = inited;
  zone = pos 0;
  is_successor = false;
  next_seq_id = 1;
  server_seq = 0;
  max_client_seq = 0;
  client_ack_server_seq = 0;
  ordered_queue = none;
  ordering_manager = none;
  closed = false;
}

abbrev queued : Session
queued = init_ordered_queue (pos 10) fresh_session

-- A login, and then the end.
abbrev lived : Session
lived =
    let (s, _) = set_normal (update_activity 5 (update_ack_server_seq 2 queued)) in
    let (s', _) = next_seq_id s in close s'

lived_end :
    (lived.closed ≡ true)
    × (lived.next_seq_id ≡ 2)
    × (can_process_login_request lived ≡ true)
    × (can_process_business_request lived ≡ true)
    × ((set_closed lived).1 ≡ true)
    × (is_expired 6 0 lived ≡ true)
    × (can_process_login_request (set_state closed_state lived) ≡ false)
unfolding set_normal update_activity update_ack_server_seq init_ordered_queue next_seq_id close
    set_closed set_state can_process_login_request can_process_business_request
lived_end = (refl, refl, refl, refl, refl, refl, refl)

abbrev at_four : Session
at_four = record fresh_session { max_client_seq = 4 }

feed-client_seqs_example :
    let (s, taken) = feed (5 ∷ 7 ∷ 6 ∷ 6 ∷ []) at_four in
    (taken ≡ chain 5 (5 ∷ 7 ∷ 6 ∷ 6 ∷ []))
    × (taken ≡ up_from 5 (length taken))
    × (s.max_client_seq ≡ 4 + length taken)
feed-client_seqs_example = feed-client_seqs (5 ∷ 7 ∷ 6 ∷ 6 ∷ []) at_four (omega arith) (omega arith)

fed : (feed (5 ∷ 7 ∷ 6 ∷ 6 ∷ []) at_four).1 ≡ 5 ∷ 6 ∷ []
unfolding feed validate_client_seq
fed = refl

feed-fresh_example :
    let taken = (feed (0 ∷ 0 ∷ 9 ∷ 10 ∷ []) fresh_session).1 in
    (taken ≡ 0 ∷ 0 ∷ 9 ∷ chain 10 (10 ∷ [])) × (taken ≡ 0 ∷ 0 ∷ up_from 9 (length taken - 2))
feed-fresh_example = feed-fresh 2 9 (10 ∷ []) fresh_session refl (omega arith) (omega arith)

-- Five messages sent, three acknowledged.
abbrev behind : Session
behind = record queued { server_seq = 5; client_ack_server_seq = 3 }

abbrev fresh_queue : OrderedMessageQueue
fresh_queue = new_ordered_message_queue "s" (pos 10)

abbrev body : ServerPush
body = record { msg_id = 0; seq_id = 6; push_type = push_business_data; payload = []; headers = [] }

abbrev later_calls : List QueueCall
later_calls = enqueues 6 body [] 0 ∷ enqueues 7 body [] 0 ∷ resyncs 4 ∷ resends 40000000000 ∷ []

queued_queue : queued.ordered_queue ≡ some fresh_queue
unfolding init_ordered_queue
queued_queue = refl

fresh_next : fresh_queue.next_expected_seq ≡ 1
unfolding new_ordered_message_queue
fresh_next = refl

inherit_from_stalls_example :
    let s = inherit_from behind queued in
    let q = resync_sequence 3 fresh_queue in
    ((new_server_seq s).1 ≡ 6)
    × (s.ordered_queue ≡ some q)
    × (q.next_expected_seq ≡ 4)
    × (firsts (run later_calls (q, idle_wire)).1.log ≡ [])
    × ((resync_sequence 5 q).next_expected_seq ≡ 6)
inherit_from_stalls_example =
    inherit_from_stalls behind queued fresh_queue fresh_queue later_calls idle_wire queued_queue
      queued_queue (new-QueueInv "s" (pos 10)) fresh_next (omega arith) (omega arith) (omega arith)
