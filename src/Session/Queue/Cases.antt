-- ===== src/Session/Queue/Cases.antt =====
-- The branches of EnqueueMessage as one rule.
use gateway_test.Prelude.{
  ℕ, subst, ◌+◌, ◌<◌, ◌≡◌, refl, sym, inl, inr, false, Option, none, some, List, arith, ltb, eqb,
  Bool-cases, nat_eq, string_eq, length, pos, leb_ℤ,
}
use gateway_test.Proto.{ServerPush}
use gateway_test.Session.Heap.{heap_push}
use gateway_test.Session.Queue.{
  OrderedMessage, OrderedMessageQueue, SendCallback, SendError, no_callback, callback_failed,
  QueueError, queue_stopped, queue_full, stale_seq, send_failed, Wire, seq_of, mark_sent,
  send_message_directly, process_waiting_messages, enqueue_message, new_message,
}
use gateway_test.Session.Queue.Rounds.{logged}

module _ {ℓ} (P : OrderedMessageQueue → Wire → Option QueueError → Type ℓ) (seq : ℕ)
    (p : ServerPush) (bytes : List ℕ) (now : ℕ) (q : OrderedMessageQueue) (w : Wire)
    (refused : (e : QueueError) → P q w (some e))
    (fails : (w' : Wire) (e : SendError)
      → w'.log ≡ w.log
      → seq ≡ q.next_expected_seq
      → P q w' (some (send_failed e)))
    (sends : let msg = new_message seq p bytes now in
      let (q', w') = process_waiting_messages (mark_sent q msg) (logged msg w) in
      q.stopped ≡ false → seq ≡ q.next_expected_seq → P q' w' none)
    (waits : q.stopped ≡ false
      → leb_ℤ q.max_queue_size (pos (length q.waiting_queue)) ≡ false
      → q.next_expected_seq < seq
      → P
          (record q {
            waiting_queue = heap_push seq_of (new_message seq p bytes now) q.waiting_queue;
          })
          w
          none) where
  abbrev msg : OrderedMessage
  msg = new_message seq p bytes now

  via :
      (r : OrderedMessageQueue × Wire × Option QueueError)
      → enqueue_message seq p bytes now q w ≡ r
      → P r.0 r.1 r.2
      → let s = enqueue_message seq p bytes now q w in P s.0 s.1 s.2
  via r e h = subst (λ s. P s.0 s.1 s.2) (sym e) h

  due_cases :
      q.stopped ≡ false
      → leb_ℤ q.max_queue_size (pos (length q.waiting_queue)) ≡ false
      → seq ≡ q.next_expected_seq
      → (callback : Option SendCallback) → q.send_callback ≡ callback
      → let r = enqueue_message seq p bytes now q w in P r.0 r.1 r.2
  unfolding enqueue_message send_message_directly
  due_cases run fits due none f =
      via (q, w, some (send_failed no_callback)) (ground arith) (fails w no_callback refl due)
  due_cases run fits due (some callback) f =
      let (q', w') = process_waiting_messages (mark_sent q msg) (logged msg w) in
      let missed : Wire = record w { calls = w.calls + 1 } in
      elim (Bool-cases (callback w.calls msg)) [
        | inl good ↦ via (q', w', none) (ground arith) (sends run due)
        | inr bad ↦
            via (q, missed, some (send_failed callback_failed)) (ground arith)
              (fails missed callback_failed refl due)
      ]

  pub enqueue_cases : let r = enqueue_message seq p bytes now q w in P r.0 r.1 r.2
  unfolding enqueue_message
  enqueue_cases =
      let waiting = record q { waiting_queue = heap_push seq_of msg q.waiting_queue } in
      elim (Bool-cases q.stopped) [
        | inl e ↦ via (q, w, some queue_stopped) (ground arith) (refused queue_stopped)
        | inr run ↦ elim (Bool-cases (leb_ℤ q.max_queue_size (pos (length q.waiting_queue)))) [
          | inl full ↦ via (q, w, some queue_full) (ground arith) (refused queue_full)
          | inr fits ↦ elim (Bool-cases (eqb seq q.next_expected_seq)) [
            | inl due ↦ due_cases run fits (ground arith) q.send_callback refl
            | inr d ↦ elim (Bool-cases (ltb q.next_expected_seq seq)) [
              | inl early ↦ via (waiting, w, none) (ground arith) (waits run fits (ground arith))
              | inr late ↦ via (q, w, some stale_seq) (ground arith) (refused stale_seq)
            ]
          ]
        ]
      ]
