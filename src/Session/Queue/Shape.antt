-- ===== src/Session/Queue/Shape.antt =====
-- What is well formed in a queue, and that each operation keeps it so.
use gateway_test.Session.Queue.{
  heap_push, ServerPush, heap_init, OrderedMessage, OrderedMessageQueue, Wire, seq_of, mark_sent,
  new_ordered_message_queue, process_waiting_messages, enqueue_message, resync_sequence,
  ack_messages_up_to, cleanup_expired_messages, stop, run, new_message, unacked, is_given_up,
  is_older, message_timeout,
}
use gateway_test.Prelude.Dict.{
  Entries-keep, keep-IsMap, keep, IsMap, Entries, store-IsMap, Entries-store,
}
use gateway_test.Session.Queue.Rounds.{logged, process_keeps, after_sent, after_failed}
use gateway_test.Session.Queue.Cases.{enqueue_cases}
use gateway_test.Prelude.{
  ℕ, subst, ◌+◌, ◌≤◌, String, ◌≡◌, refl, ap, inl, inr, Bool, true, false, not, List, [], ◌∷◌, arith,
  ltb, leb, if◌then◌else◌, Bool-cases, nat_eq, string_eq, length, select, length_zero,
  length-select-le, u64, ℤ, pos, pos_part, leb_ℤ,
}
use gateway_test.Session.Heap.Slice.{length-perm}
use gateway_test.Session.Heap.Laws.{
  IsHeap, popped, popped-perm, popped-IsHeap, heap_push-perm, heap_push-IsHeap, heap_init-perm,
  heap_init-IsHeap,
}

-- An entry of the map of messages that wait for an acknowledgement.
abbrev pub IsPending : ℕ → OrderedMessage → Type 0
IsPending seq_id msg = (msg.server_seq ≡ seq_id) × (msg.sent ≡ true)

pub record QueueInv (q : OrderedMessageQueue) : Type 0 where
  pub heap : IsHeap seq_of q.waiting_queue
  pub one_each : IsMap q.sent_messages
  pub pending : Entries IsPending q.sent_messages
  pub follows : q.next_expected_seq ≡ u64 (q.last_sent_seq + 1)
  pub room : length q.waiting_queue ≤ pos_part q.max_queue_size
  pub none_if_stopped : q.stopped ≡ true → (q.waiting_queue ≡ []) × (q.sent_messages ≡ [])

pub new-QueueInv : (id : String) (size : ℤ) → QueueInv (new_ordered_message_queue id size)
unfolding new_ordered_message_queue
new-QueueInv id size = record {
  heap = heap_init-IsHeap seq_of [];
  one_each = tt;
  pending = tt;
  follows = refl;
  room = omega (arith, length-perm (heap_init-perm seq_of []));
  none_if_stopped = λ e. cc;
}

after_sent-QueueInv :
    (q : OrderedMessageQueue) (top : OrderedMessage) (xs : List OrderedMessage)
    → q.waiting_queue ≡ top ∷ xs
    → top.server_seq ≡ q.next_expected_seq
    → QueueInv q
    → QueueInv (after_sent q top xs)
after_sent-QueueInv q top xs e d v =
    let sizes = length-perm (popped-perm seq_of top xs) in
    record {
      heap = popped-IsHeap seq_of top xs (subst (IsHeap seq_of) e v.heap);
      one_each = store-IsMap top.server_seq (record top { sent = true }) q.sent_messages v.one_each;
      pending =
          Entries-store IsPending top.server_seq (record top { sent = true }) q.sent_messages
            (refl, refl) v.pending;
      follows = ground arith;
      room = omega (arith, sizes, v.room, ap length e);
      none_if_stopped = λ s. ground (arith, v.none_if_stopped s);
    }

after_failed-QueueInv :
    (q : OrderedMessageQueue) (top : OrderedMessage) (xs : List OrderedMessage)
    → q.waiting_queue ≡ top ∷ xs
    → QueueInv q
    → QueueInv (after_failed q top xs)
after_failed-QueueInv q top xs e v =
    let sizes = length-perm (popped-perm seq_of top xs) in
    record {
      heap =
          heap_push-IsHeap seq_of top (popped seq_of top xs)
            (popped-IsHeap seq_of top xs (subst (IsHeap seq_of) e v.heap));
      one_each = v.one_each;
      pending = v.pending;
      follows = v.follows;
      room = omega (
        arith,
        sizes,
        length-perm (heap_push-perm seq_of top (popped seq_of top xs)),
        v.room,
        ap length e,
      );
      none_if_stopped = λ s. ground (arith, v.none_if_stopped s);
    }

process-QueueInv :
    (q : OrderedMessageQueue) (w : Wire) → QueueInv q → QueueInv (process_waiting_messages q w).0
process-QueueInv =
    process_keeps (λ q _. QueueInv q) (λ q _ top xs e d v. after_sent-QueueInv q top xs e d v)
      (λ q _ _ top xs e _ v. after_failed-QueueInv q top xs e v)

module _ (q : OrderedMessageQueue) (v : QueueInv q) where
  mark_sent-QueueInv :
      (msg : OrderedMessage)
      → msg.server_seq ≡ q.next_expected_seq
      → q.stopped ≡ false
      → QueueInv (mark_sent q msg)
  mark_sent-QueueInv msg d run = record {
    heap = v.heap;
    one_each = store-IsMap msg.server_seq (record msg { sent = true }) q.sent_messages v.one_each;
    pending =
        Entries-store IsPending msg.server_seq (record msg { sent = true }) q.sent_messages
          (refl, refl) v.pending;
    follows = ground arith;
    room = v.room;
    none_if_stopped = λ s. cc;
  }

  waiting-QueueInv :
      (msg : OrderedMessage)
      → q.stopped ≡ false
      → leb_ℤ q.max_queue_size (pos (length q.waiting_queue)) ≡ false
      → QueueInv (record q { waiting_queue = heap_push seq_of msg q.waiting_queue })
  waiting-QueueInv msg run fits = record {
    heap = heap_push-IsHeap seq_of msg q.waiting_queue v.heap;
    one_each = v.one_each;
    pending = v.pending;
    follows = v.follows;
    room = ground (arith, length-perm (heap_push-perm seq_of msg q.waiting_queue));
    none_if_stopped = λ s. cc;
  }

  pub enqueue-QueueInv :
      (seq : ℕ) (p : ServerPush) (bytes : List ℕ) (now : ℕ) (w : Wire)
      → QueueInv (enqueue_message seq p bytes now q w).0
  enqueue-QueueInv seq p bytes now w =
      let msg = new_message seq p bytes now in
      enqueue_cases (λ q' _ _. QueueInv q') seq p bytes now q w (λ e. v) (λ w' e _ _. v)
        (λ run due.
          process-QueueInv (mark_sent q msg) (logged msg w) (mark_sent-QueueInv msg due run))
        (λ run fits _. waiting-QueueInv msg run fits)

  -- The waiting queue after a filter, ordered again.
  abbrev refiltered : (OrderedMessage → Bool) → List OrderedMessage
  refiltered p = heap_init seq_of (select p q.waiting_queue)

  length-refiltered : (p : OrderedMessage → Bool) → length (refiltered p) ≤ length q.waiting_queue
  length-refiltered p = omega (
    arith,
    length-perm (heap_init-perm seq_of (select p q.waiting_queue)),
    length-select-le p q.waiting_queue,
  )

  -- A queue with fewer waiting messages, in heap order, and fewer pending ones.
  trimmed-QueueInv :
      (ms : List OrderedMessage) (stays : ℕ → OrderedMessage → Bool) (next last acked : ℕ)
      → IsHeap seq_of ms
      → length ms ≤ length q.waiting_queue
      → next ≡ u64 (last + 1)
      → QueueInv (record q {
        waiting_queue = ms;
        sent_messages = keep stays q.sent_messages;
        next_expected_seq = next;
        last_sent_seq = last;
        last_acked_seq = acked;
      })
  unfolding keep
  trimmed-QueueInv ms stays next last acked h le f = record {
    heap = h;
    one_each = keep-IsMap stays q.sent_messages v.one_each;
    pending = Entries-keep IsPending stays q.sent_messages v.pending;
    follows = f;
    room = omega (arith, v.room);
    none_if_stopped = λ s.
        let (no_waiting, no_sent) = v.none_if_stopped s in
        (length_zero ms (omega (arith, ap length no_waiting)), ap (keep stays) no_sent);
  }

  acked_to : ℕ → ℕ
  acked_to ack = if ltb q.last_acked_seq ack then ack else q.last_acked_seq

  pub resync-QueueInv : (ack : ℕ) → QueueInv (resync_sequence ack q)
  unfolding resync_sequence acked_to
  resync-QueueInv ack =
      let later = λ (m : OrderedMessage). ltb ack m.server_seq in
      elim (Bool-cases (leb q.next_expected_seq ack)) [
        | inl ahead ↦ subst QueueInv (ground arith) (
            trimmed-QueueInv (refiltered later) (unacked ack) (u64 (ack + 1)) ack (acked_to ack)
              (heap_init-IsHeap seq_of _) (length-refiltered later) refl)
        | inr behind ↦ subst QueueInv (ground arith) (
            trimmed-QueueInv q.waiting_queue (unacked ack) q.next_expected_seq q.last_sent_seq
              (acked_to ack) v.heap (omega arith) v.follows)
      ]

  pub ack-QueueInv : (ack : ℕ) → QueueInv (ack_messages_up_to ack q).0
  unfolding ack_messages_up_to acked_to
  ack-QueueInv ack = subst QueueInv (ground arith) (
      trimmed-QueueInv q.waiting_queue (unacked ack) q.next_expected_seq q.last_sent_seq
        (acked_to ack) v.heap (omega arith) v.follows)

  pub cleanup-QueueInv : (now : ℕ) → QueueInv (cleanup_expired_messages now q)
  unfolding cleanup_expired_messages
  cleanup-QueueInv now =
      let fresh = λ (m : OrderedMessage). not (is_older now message_timeout m) in
      trimmed-QueueInv (refiltered fresh) (λ k m. not (is_given_up now k m)) q.next_expected_seq
        q.last_sent_seq q.last_acked_seq (heap_init-IsHeap seq_of _) (length-refiltered fresh)
        v.follows

  no_messages : heap_init seq_of [] ≡ []
  no_messages = length_zero _ (length-perm (heap_init-perm seq_of []))

  pub stop-QueueInv : QueueInv (stop q)
  unfolding stop
  stop-QueueInv =
      let halted : OrderedMessageQueue = record q {
        stopped = true;
        waiting_queue = heap_init seq_of [];
        sent_messages = [];
      } in
      let inv : QueueInv halted = record {
        heap = heap_init-IsHeap seq_of [];
        one_each = tt;
        pending = tt;
        follows = v.follows;
        room = omega (arith, ap length no_messages);
        none_if_stopped = λ s. (no_messages, refl);
      } in
      elim (Bool-cases q.stopped) [
        | inl done ↦ subst QueueInv (ground arith) v
        | inr live ↦ subst QueueInv (ground arith) inv
      ]
