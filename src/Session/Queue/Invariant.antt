-- ===== src/Session/Queue/Invariant.antt =====
-- What holds of the queue between two calls.
use gateway_test.Session.Queue.{
  OrderedMessage, OrderedMessageQueue, SendCallback, Wire, QueueCall, enqueues, acks, resyncs,
  cleans, resends, sets_callback, stops, set_send_callback, retry_timed_out_messages, retry_loop,
  retry_message, step, run,
}
use gateway_test.Prelude.Dict.{Dict, lookup, IsMap, Entries}
use gateway_test.Prelude.{ℕ, ◌≡◌, refl, Option, none, some, List, [], ◌∷◌, arith, nat_eq, string_eq}
use gateway_test.Session.Queue.Shape.{
  IsPending, QueueInv, ack-QueueInv, cleanup-QueueInv, enqueue-QueueInv, resync-QueueInv,
  stop-QueueInv,
}

-- A retry touches no key, and neither the number nor the mark of a message.
module _ (now : ℕ) (callback : SendCallback) where
  retry_absent :
      (k : ℕ) (m : Dict ℕ OrderedMessage) (w : Wire)
      → lookup k m ≡ none
      → lookup k (retry_loop now (some callback) m w).0 ≡ none
  unfolding retry_loop lookup
  retry_absent k [] w h = refl
  retry_absent k ((j, msg) ∷ m) w h =
      ground (arith, retry_absent k m (retry_message now callback msg w).1)

  retry-IsMap :
      (m : Dict ℕ OrderedMessage) (w : Wire)
      → IsMap m
      → IsMap (retry_loop now (some callback) m w).0
  unfolding retry_loop
  retry-IsMap [] w h = tt
  retry-IsMap ((j, msg) ∷ m) w h =
      let w' = (retry_message now callback msg w).1 in
      (retry_absent j m w' h.0, retry-IsMap m w' h.1)

  retry_message-IsPending :
      (j : ℕ) (msg : OrderedMessage) (w : Wire)
      → IsPending j msg
      → IsPending j (retry_message now callback msg w).0
  unfolding retry_message
  retry_message-IsPending j msg w h = ground arith

  retry-IsPending :
      (m : Dict ℕ OrderedMessage) (w : Wire)
      → Entries IsPending m
      → Entries IsPending (retry_loop now (some callback) m w).0
  unfolding retry_loop
  retry-IsPending [] w h = tt
  retry-IsPending ((j, msg) ∷ m) w h = (
    retry_message-IsPending j msg w h.0,
    retry-IsPending m (retry_message now callback msg w).1 h.1,
  )

  retry_empty :
      (m : Dict ℕ OrderedMessage) (w : Wire) → m ≡ [] → (retry_loop now (some callback) m w).0 ≡ []
  unfolding retry_loop
  retry_empty [] w e = refl
  retry_empty (x ∷ m) w e = cc

retry-QueueInv :
    (q : OrderedMessageQueue) (now : ℕ) (w : Wire) (callback : Option SendCallback)
    → QueueInv q
    → QueueInv (record q { sent_messages = (retry_loop now callback q.sent_messages w).0 })
unfolding retry_loop
retry-QueueInv q now w none v = v
retry-QueueInv q now w (some callback) v = record {
  heap = v.heap;
  one_each = retry-IsMap now callback q.sent_messages w v.one_each;
  pending = retry-IsPending now callback q.sent_messages w v.pending;
  follows = v.follows;
  room = v.room;
  none_if_stopped = λ s.
      let (no_waiting, no_sent) = v.none_if_stopped s in
      (no_waiting, retry_empty now callback q.sent_messages w no_sent);
}

pub step-QueueInv :
    (c : QueueCall) (q : OrderedMessageQueue) (w : Wire) → QueueInv q → QueueInv (step c (q, w)).0
unfolding step retry_timed_out_messages set_send_callback
step-QueueInv (enqueues seq p bytes now) q w v = enqueue-QueueInv q v seq p bytes now w
step-QueueInv (acks ack) q w v = ack-QueueInv q v ack
step-QueueInv (resyncs ack) q w v = resync-QueueInv q v ack
step-QueueInv (cleans now) q w v = cleanup-QueueInv q v now
step-QueueInv (resends now) q w v = retry-QueueInv q now w q.send_callback v
step-QueueInv (sets_callback callback) q w v = record {
  heap = v.heap;
  one_each = v.one_each;
  pending = v.pending;
  follows = v.follows;
  room = v.room;
  none_if_stopped = v.none_if_stopped;
}
step-QueueInv stops q w v = stop-QueueInv q v

-- Every history of calls keeps the invariant: the waiting messages are a heap by sequence number
-- and no more than the limit, each message that waits for an acknowledgement is marked sent and
-- stands once, under its own number, the next number follows the last one sent, and a stopped
-- queue holds nothing.
pub run-QueueInv :
    (cs : List QueueCall) (q : OrderedMessageQueue) (w : Wire)
    → QueueInv q
    → QueueInv (run cs (q, w)).0
unfolding run
run-QueueInv [] q w v = v
run-QueueInv (c ∷ cs) q w v =
    run-QueueInv cs (step c (q, w)).0 (step c (q, w)).1 (step-QueueInv c q w v)
