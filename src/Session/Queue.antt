-- ===== src/Session/Queue.antt =====
-- internal/session/ordered_queue.go: the queue that sends a session's messages in the order of
-- their sequence numbers. The mutex makes each method one step. A callback is the outcome of its
-- n-th call; the wire logs the calls that succeeded, newest first. Times are nanoseconds.
pub mod Rounds
pub mod Cases
pub mod Shape
pub mod Invariant
pub mod Firsts
pub mod Order
pub mod Progress
pub mod Reorder
pub mod Blocking
pub mod Idle
mod Tests
use gateway_test.Prelude.{
  ℕ, zero, suc, ◌+◌, ◌/◌, String, refl, Bool, true, false, not, ◌&&◌, Option, none, some, List, [],
  ◌∷◌, arith, ltb, leb, eqb, if◌then◌else◌, nat_eq, string_eq, length, select, u64, ℤ, pos, add64,
  leb_ℤ, ltb_ℤ,
}
use gateway_test.Prelude.Dict.{Dict, store, keep}
use gateway_test.Proto.{ServerPush}
use gateway_test.Session.Heap.{heap_init, heap_push, heap_pop}

pub record OrderedMessage : Type 0 where
  pub server_seq : ℕ
  pub push : ServerPush
  pub bytes : List ℕ
  pub timestamp : ℕ
  pub retries : ℤ
  pub sent : Bool

abbrev pub seq_of : OrderedMessage → ℕ
seq_of m = m.server_seq

-- The outcome of the callback's n-th call on a message: true where it returns nil.
abbrev pub SendCallback : Type 0
SendCallback = ℕ → OrderedMessage → Bool

-- What the callbacks did: how often they were called, and the messages that went out.
pub record Wire : Type 0 where
  pub calls : ℕ
  pub log : List OrderedMessage

abbrev pub message_timeout : ℕ
message_timeout = 30000000000

abbrev pub max_retries : ℤ
max_retries = pos 3

pub record OrderedMessageQueue : Type 0 where
  pub session_id : String
  pub waiting_queue : List OrderedMessage
  pub sent_messages : Dict ℕ OrderedMessage
  pub next_expected_seq : ℕ
  pub last_sent_seq : ℕ
  pub last_acked_seq : ℕ
  pub max_queue_size : ℤ
  pub stopped : Bool
  pub send_callback : Option SendCallback

pub data SendError : Type 0 where
  no_callback callback_failed : SendError

pub data QueueError : Type 0 where
  queue_stopped queue_full stale_seq : QueueError
  send_failed : SendError → QueueError

unfoldable pub new_ordered_message_queue : String → ℤ → OrderedMessageQueue
new_ordered_message_queue session_id max_queue_size = record {
  session_id = session_id;
  waiting_queue = heap_init seq_of [];
  sent_messages = [];
  next_expected_seq = 1;
  last_sent_seq = 0;
  last_acked_seq = 0;
  max_queue_size = max_queue_size;
  stopped = false;
  send_callback = none;
}

unfoldable pub set_send_callback : SendCallback → OrderedMessageQueue → OrderedMessageQueue
set_send_callback callback q = record q { send_callback = some callback }

-- One call of the callback.
abbrev pub call : SendCallback → OrderedMessage → Wire → Wire × Bool
call callback msg w =
    if callback w.calls msg
    then (record { calls = w.calls + 1; log = msg ∷ w.log }, true)
    else (record w { calls = w.calls + 1 }, false)

send_by : Option SendCallback → OrderedMessage → Wire → Wire × Option SendError
send_by none msg w = (w, some no_callback)
send_by (some callback) msg w =
    let (w', succeeded) = call callback msg w in
    (w', if succeeded then none else some callback_failed)

unfoldable pub send_message_directly :
    OrderedMessageQueue → OrderedMessage → Wire → Wire × Option SendError
unfolding send_by
send_message_directly q msg w = send_by q.send_callback msg w

-- What follows a successful send.
abbrev pub mark_sent : OrderedMessageQueue → OrderedMessage → OrderedMessageQueue
mark_sent q msg = record q {
  sent_messages = store msg.server_seq (record msg { sent = true }) q.sent_messages;
  next_expected_seq = u64 (q.next_expected_seq + 1);
  last_sent_seq = msg.server_seq;
}

-- One round of the loop: the queue after it, and whether the loop goes on.
pub settle_send :
    OrderedMessageQueue
    → OrderedMessage
    → List OrderedMessage
    → Wire × Option SendError
    → (OrderedMessageQueue × Wire) × Bool
settle_send q msg rest (w, none) = ((mark_sent (record q { waiting_queue = rest }) msg, w), true)
settle_send q msg rest (w, some e) =
    ((record q { waiting_queue = heap_push seq_of msg rest }, w), false)

pub pop_and_send :
    OrderedMessageQueue
    → Option (OrderedMessage × List OrderedMessage)
    → Wire
    → (OrderedMessageQueue × Wire) × Bool
unfolding settle_send
pop_and_send q none w = ((q, w), false)
pop_and_send q (some (msg, rest)) w = settle_send q msg rest (send_message_directly q msg w)

pub top_is_next : List OrderedMessage → ℕ → Bool
top_is_next [] next = false
top_is_next (top ∷ _) next = eqb top.server_seq next

-- The loop over the waiting queue; each round that goes on takes one message off.
pub process_loop : ℕ → OrderedMessageQueue → Wire → OrderedMessageQueue × Wire
unfolding top_is_next pop_and_send
process_loop zero q w = (q, w)
process_loop (suc fuel) q w =
    let (after, more) = pop_and_send q (heap_pop seq_of q.waiting_queue) w in
    let rest = process_loop fuel after.0 after.1 in
    if top_is_next q.waiting_queue q.next_expected_seq
    then (if more then rest else after)
    else (q, w)

unfoldable pub process_waiting_messages : OrderedMessageQueue → Wire → OrderedMessageQueue × Wire
unfolding process_loop
process_waiting_messages q w = process_loop (length q.waiting_queue) q w

abbrev pub new_message : ℕ → ServerPush → List ℕ → ℕ → OrderedMessage
new_message server_seq push bytes now = record {
  server_seq = server_seq;
  push = push;
  bytes = bytes;
  timestamp = now;
  retries = pos 0;
  sent = false;
}

enqueue_sent :
    OrderedMessageQueue
    → OrderedMessage
    → Wire × Option SendError
    → OrderedMessageQueue × Wire × Option QueueError
enqueue_sent q msg (w, some e) = (q, w, some (send_failed e))
enqueue_sent q msg (w, none) =
    let (q', w') = process_waiting_messages (mark_sent q msg) w in (q', w', none)

unfoldable pub enqueue_message :
    ℕ
    → ServerPush
    → List ℕ
    → ℕ
    → OrderedMessageQueue
    → Wire
    → OrderedMessageQueue × Wire × Option QueueError
unfolding enqueue_sent
enqueue_message server_seq push bytes now q w =
    let msg = new_message server_seq push bytes now in
    if q.stopped
    then (q, w, some queue_stopped)
    else if leb_ℤ q.max_queue_size (pos (length q.waiting_queue))
    then (q, w, some queue_full)
    else if eqb server_seq q.next_expected_seq
    then enqueue_sent q msg (send_message_directly q msg w)
    else if ltb q.next_expected_seq server_seq
    then (record q { waiting_queue = heap_push seq_of msg q.waiting_queue }, w, none)
    else (q, w, some stale_seq)

abbrev unacked : ℕ → ℕ → OrderedMessage → Bool
unacked ack seq_id _ = not (leb seq_id ack)

unfoldable pub resync_sequence : ℕ → OrderedMessageQueue → OrderedMessageQueue
resync_sequence client_ack_seq q =
    let p = record q { sent_messages = keep (unacked client_ack_seq) q.sent_messages } in
    let r =
      if leb p.next_expected_seq client_ack_seq
      then record p {
        next_expected_seq = u64 (client_ack_seq + 1);
        last_sent_seq = client_ack_seq;
        waiting_queue =
            heap_init seq_of (select (λ m. ltb client_ack_seq m.server_seq) p.waiting_queue);
      }
      else p in
    if ltb r.last_acked_seq client_ack_seq then record r { last_acked_seq = client_ack_seq } else r

-- The loop over the map counts what it deletes.
count_acked : ℕ → Dict ℕ OrderedMessage → ℕ
count_acked ack [] = 0
count_acked ack ((seq_id, msg) ∷ m) =
    let n = count_acked ack m in if leb seq_id ack then n + 1 else n

unfoldable pub ack_messages_up_to : ℕ → OrderedMessageQueue → OrderedMessageQueue × ℕ
unfolding count_acked
ack_messages_up_to ack_seq_id q =
    let p = record q { sent_messages = keep (unacked ack_seq_id) q.sent_messages } in
    let r =
      if ltb p.last_acked_seq ack_seq_id then record p { last_acked_seq = ack_seq_id } else p in
    (r, count_acked ack_seq_id q.sent_messages)

unfoldable pub get_pending_count : OrderedMessageQueue → ℕ
get_pending_count q = length q.sent_messages

-- `now.Sub(msg.Timestamp) > d`
abbrev is_older : ℕ → ℕ → OrderedMessage → Bool
is_older now d msg = ltb (msg.timestamp + d) now

abbrev is_given_up : ℕ → ℕ → OrderedMessage → Bool
is_given_up now _ msg = is_older now message_timeout msg && leb_ℤ max_retries msg.retries

unfoldable pub cleanup_expired_messages : ℕ → OrderedMessageQueue → OrderedMessageQueue
cleanup_expired_messages now q = record q {
  sent_messages = keep (λ seq_id msg. not (is_given_up now seq_id msg)) q.sent_messages;
  waiting_queue =
      heap_init seq_of (select (λ msg. not (is_older now message_timeout msg)) q.waiting_queue);
}

abbrev is_retried : ℕ → OrderedMessage → Bool
is_retried now msg = is_older now (message_timeout / 2) msg && ltb_ℤ msg.retries max_retries

-- One message of the retry loop.
retry_message : ℕ → SendCallback → OrderedMessage → Wire → OrderedMessage × Wire
retry_message now callback msg w =
    let (w', succeeded) = call callback msg w in
    if is_retried now msg
    then (if succeeded
        then (record msg { retries = add64 msg.retries (pos 1); timestamp = now }, w')
        else (msg, w'))
    else (msg, w)

-- Go visits the map in any order; the model visits it in the order of its list.
pub retry_loop :
    ℕ → Option SendCallback → Dict ℕ OrderedMessage → Wire → Dict ℕ OrderedMessage × Wire
unfolding retry_message
retry_loop now none m w = (m, w)
retry_loop now (some callback) [] w = ([], w)
retry_loop now (some callback) ((seq_id, msg) ∷ m) w =
    let (msg', w') = retry_message now callback msg w in
    let (m', w'') = retry_loop now (some callback) m w' in ((seq_id, msg') ∷ m', w'')

unfoldable pub retry_timed_out_messages :
    ℕ → OrderedMessageQueue → Wire → OrderedMessageQueue × Wire
unfolding retry_loop
retry_timed_out_messages now q w =
    let (m, w') = retry_loop now q.send_callback q.sent_messages w in
    (record q { sent_messages = m }, w')

unfoldable pub stop : OrderedMessageQueue → OrderedMessageQueue
stop q =
    if q.stopped
    then q
    else record q { stopped = true; waiting_queue = heap_init seq_of []; sent_messages = [] }

-- The methods as one alphabet, for histories. `cleans` and `resends` are the two halves of a tick
-- of `cleanupLoop`, between which other methods may run.
pub data QueueCall : Type 0 where
  enqueues : ℕ → ServerPush → List ℕ → ℕ → QueueCall
  acks resyncs cleans resends : ℕ → QueueCall
  sets_callback : SendCallback → QueueCall
  stops : QueueCall

unfoldable pub step : QueueCall → OrderedMessageQueue × Wire → OrderedMessageQueue × Wire
step (enqueues seq p bytes now) (q, w) =
    let (q', w', _) = enqueue_message seq p bytes now q w in (q', w')
step (acks ack) (q, w) = ((ack_messages_up_to ack q).0, w)
step (resyncs ack) (q, w) = (resync_sequence ack q, w)
step (cleans now) (q, w) = (cleanup_expired_messages now q, w)
step (resends now) (q, w) = retry_timed_out_messages now q w
step (sets_callback callback) (q, w) = (set_send_callback callback q, w)
step stops (q, w) = (stop q, w)

unfoldable pub run : List QueueCall → OrderedMessageQueue × Wire → OrderedMessageQueue × Wire
run [] s = s
run (c ∷ cs) s = run cs (step c s)
