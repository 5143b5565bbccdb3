-- ===== src/Session/Queue/Tests.antt =====
-- Runs of the queue, and instances of its theorems.
use gateway_test.Session.Queue.Blocking.{resync_wedges}
use gateway_test.Session.Queue.{
  get_pending_count, resync_sequence, send_message_directly, resyncs, process_waiting_messages,
  acks, resends, Wire, enqueues, sets_callback, new_ordered_message_queue, enqueue_message, seq_of,
  QueueCall, ServerPush, run, set_send_callback, step, OrderedMessageQueue,
}
use gateway_test.Session.Queue.Order.{run_exact, idle_wire, run-Falling}
use gateway_test.Session.Queue.Firsts.{countdown, Falling, firsts}
use gateway_test.Session.Queue.Reorder.{enqueue_all_sorts}
use gateway_test.Session.Queue.Progress.{enqueue_all, succeeds, one_to, Arrival}
use gateway_test.Session.Queue.Invariant.{step-QueueInv, run-QueueInv}
use gateway_test.Session.Queue.Shape.{new-QueueInv, QueueInv}
use gateway_test.Proto.{push_business_data}
use gateway_test.Session.Heap.{heap_init, heap_push, heap_pop}
use gateway_test.Prelude.Dict.{store}
use gateway_test.Session.Heap.Count.{count}
use gateway_test.Prelude.{ℕ, ◌+◌, ◌≡◌, refl, List, [], ◌∷◌, map, arith, nat_eq, string_eq, pos}

abbrev body : ServerPush
body = record {
  msg_id = 0;
  seq_id = 0;
  push_type = push_business_data;
  payload = 1 ∷ [];
  headers = [];
}

abbrev arrival : ℕ → Arrival
arrival n = record { seq = n; push = body; bytes = n ∷ []; time = 0 }

abbrev shuffled : List Arrival
shuffled = arrival 3 ∷ arrival 1 ∷ arrival 2 ∷ []

abbrev fresh_queue : OrderedMessageQueue
fresh_queue = new_ordered_message_queue "s" (pos 10)

abbrev ready : OrderedMessageQueue
ready = set_send_callback succeeds fresh_queue

shuffled_run : map seq_of (enqueue_all shuffled ready idle_wire).1.log ≡ 3 ∷ 2 ∷ 1 ∷ []
unfolding enqueue_message set_send_callback new_ordered_message_queue process_waiting_messages
    send_message_directly store heap_push heap_pop heap_init
shuffled_run = refl

shuffled_once : (k : ℕ) → count (λ a. a.seq) k shuffled ≡ one_to 3 k
shuffled_once k = ground arith

enqueue_all_sorts_example : map seq_of (enqueue_all shuffled ready idle_wire).1.log ≡ countdown 3
enqueue_all_sorts_example =
    (enqueue_all_sorts "s" 3 10 shuffled (omega arith) (omega arith) shuffled_once).0

abbrev enqueued : ℕ → QueueCall
enqueued n = enqueues n body (n ∷ []) 0

abbrev calls : List QueueCall
calls =
    sets_callback succeeds
    ∷ enqueued 2
    ∷ enqueued 1
    ∷ resends 40000000000
    ∷ acks 1
    ∷ resyncs 7
    ∷ enqueued 8
    ∷ []

abbrev end_state : OrderedMessageQueue × Wire
end_state = run calls (fresh_queue, idle_wire)

run-QueueInv_example : QueueInv end_state.0
run-QueueInv_example = run-QueueInv calls fresh_queue idle_wire (new-QueueInv "s" (pos 10))

run-Falling_example : Falling end_state.0.next_expected_seq (firsts end_state.1.log)
run-Falling_example =
    run-Falling "s" (pos 10) calls
      (tt, (omega arith, (omega arith, (tt, (tt, ((omega arith, refl), (omega arith, tt)))))))

abbrev plain_calls : List QueueCall
plain_calls = sets_callback succeeds ∷ enqueued 2 ∷ enqueued 1 ∷ acks 1 ∷ []

run_exact_example :
    let (q, w) = run plain_calls (fresh_queue, idle_wire) in
    (q.next_expected_seq ≡ q.last_sent_seq + 1)
    × (map seq_of (firsts w.log) ≡ countdown q.last_sent_seq)
run_exact_example = run_exact "s" (pos 10) plain_calls (omega arith)

abbrev late_calls : List QueueCall
late_calls = enqueued 2 ∷ enqueued 3 ∷ resends 40000000000 ∷ []

ready-QueueInv : QueueInv ready
unfolding step
ready-QueueInv =
    step-QueueInv (sets_callback succeeds) fresh_queue idle_wire (new-QueueInv "s" (pos 10))

ready_next : ready.next_expected_seq ≡ 1
unfolding set_send_callback new_ordered_message_queue
ready_next = refl

-- Message 3 waits for 1 and 2.
abbrev gapped : OrderedMessageQueue
gapped = (step (enqueued 3) (ready, idle_wire)).0

resync_wedges_example :
    firsts (run (enqueued 4 ∷ enqueued 5 ∷ []) (resync_sequence 2 gapped, idle_wire)).1.log ≡ []
unfolding step set_send_callback new_ordered_message_queue enqueue_message heap_push heap_init
resync_wedges_example =
    (resync_wedges 2 (enqueued 4 ∷ enqueued 5 ∷ []) gapped idle_wire
      (step-QueueInv (enqueued 3) ready idle_wire ready-QueueInv) (omega arith) (omega arith)
      (omega arith) (omega arith)).2

one_pending : get_pending_count (step (enqueued 1) (ready, idle_wire)).0 ≡ 1
unfolding get_pending_count step set_send_callback new_ordered_message_queue enqueue_message
    process_waiting_messages send_message_directly store heap_init
one_pending = refl
