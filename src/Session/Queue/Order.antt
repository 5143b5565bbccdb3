-- ===== src/Session/Queue/Order.antt =====
-- First transmissions go out in the order of their sequence numbers.
use gateway_test.Session.Queue.{
  sets_callback, resends, message_timeout, is_older, cleans, acks, cleanup_expired_messages, stops,
  set_send_callback, SendCallback, retry_timed_out_messages, stop, retry_loop, run,
  new_ordered_message_queue, step, OrderedMessage, OrderedMessageQueue, Wire, QueueCall, enqueues,
  resyncs, seq_of, mark_sent, enqueue_message, resync_sequence, ack_messages_up_to, new_message,
}
use gateway_test.Session.Queue.Invariant.{step-QueueInv}
use gateway_test.Session.Queue.Shape.{QueueInv, new-QueueInv}
use gateway_test.Prelude.{
  ℕ, subst, ◌+◌, ◌<◌, String, ◌≡◌, refl, Bool, true, false, not, Option, none, some, List, [], ◌∷◌,
  map, arith, ltb, nat_eq, string_eq, select, All, All-select, u64_mod, ℤ,
}
use mathlib.Core.List.Perm
use gateway_test.Proto.{ServerPush}
use gateway_test.Session.Heap.{heap_init}
use gateway_test.Session.Heap.Laws.{popped, popped-perm, heap_push-perm, heap_init-perm, All-perm}
use gateway_test.Session.Queue.Cases.{enqueue_cases}
use gateway_test.Session.Queue.Rounds.{after_sent, after_failed, logged, process_keeps}
use gateway_test.Session.Queue.Firsts.{
  Falling, Falling-mono, IsFresh, IsFresh-prop, IsSane, OrderInv, countdown, countdown-next, firsts,
  retry_firsts,
}

module _ (jumps : Bool) where
  marked-OrderInv :
      (q : OrderedMessageQueue) (w : Wire) (msg : OrderedMessage) (ms : List OrderedMessage)
      → OrderInv jumps q w
      → IsFresh msg
      → msg.server_seq ≡ q.next_expected_seq
      → All IsFresh ms
      → OrderInv jumps (mark_sent (record q { waiting_queue = ms }) msg) (logged msg w)
  marked-OrderInv q w msg ms v new due h = record {
    fresh = h;
    falling = ground (arith, v.falling);
    exact = λ j. ground (arith, v.exact j, countdown-next msg.server_seq q.last_sent_seq);
  }

  sent-OrderInv :
      (q : OrderedMessageQueue) (w : Wire) (top : OrderedMessage) (xs : List OrderedMessage)
      → q.waiting_queue ≡ top ∷ xs
      → top.server_seq ≡ q.next_expected_seq
      → OrderInv jumps q w
      → OrderInv jumps (after_sent q top xs) (logged top w)
  sent-OrderInv q w top xs e d v =
      let all = subst (All IsFresh) e v.fresh in
      marked-OrderInv q w top (popped seq_of top xs) v all.0 d
        (All-perm IsFresh IsFresh-prop (Perm.symm (popped-perm seq_of top xs)) all.1)

  failed-OrderInv :
      (q : OrderedMessageQueue) (w w' : Wire) (top : OrderedMessage) (xs : List OrderedMessage)
      → q.waiting_queue ≡ top ∷ xs
      → w'.log ≡ w.log
      → OrderInv jumps q w
      → OrderInv jumps (after_failed q top xs) w'
  failed-OrderInv q w w' top xs e l v =
      let all = subst (All IsFresh) e v.fresh in
      let rest = All-perm IsFresh IsFresh-prop (Perm.symm (popped-perm seq_of top xs)) all.1 in
      record {
        fresh =
            All-perm IsFresh IsFresh-prop
              (Perm.symm (heap_push-perm seq_of top (popped seq_of top xs))) (all.0, rest);
        falling = rw l v.falling;
        exact = λ j. rw l (v.exact j);
      }

  same_log :
      (q : OrderedMessageQueue) (w w' : Wire)
      → w'.log ≡ w.log
      → OrderInv jumps q w
      → OrderInv jumps q w'
  same_log q w w' l v = record {
    fresh = v.fresh;
    falling = rw l v.falling;
    exact = λ j. rw l (v.exact j);
  }

  enqueue-OrderInv :
      (seq : ℕ) (p : ServerPush) (bytes : List ℕ) (now : ℕ) (q : OrderedMessageQueue) (w : Wire)
      → seq + 1 < u64_mod
      → OrderInv jumps q w
      → OrderInv jumps
          (enqueue_message seq p bytes now q w).0
          (enqueue_message seq p bytes now q w).1
  enqueue-OrderInv seq p bytes now q w sane v =
      let msg = new_message seq p bytes now in
      enqueue_cases (λ q' w' _. OrderInv jumps q' w') seq p bytes now q w (λ e. v)
        (λ w' e l _. same_log q w w' l v)
        (λ run due.
          process_keeps (OrderInv jumps) sent-OrderInv failed-OrderInv (mark_sent q msg)
            (logged msg w) (marked-OrderInv q w msg q.waiting_queue v (refl, sane) due v.fresh))
        (λ run fits early. record {
          fresh =
              All-perm IsFresh IsFresh-prop (Perm.symm (heap_push-perm seq_of msg q.waiting_queue))
                ((refl, sane), v.fresh);
          falling = v.falling;
          exact = v.exact;
        })

  refiltered-IsFresh :
      (p : OrderedMessage → Bool) (ms : List OrderedMessage)
      → All IsFresh ms
      → All IsFresh (heap_init seq_of (select p ms))
  refiltered-IsFresh p ms h =
      All-perm IsFresh IsFresh-prop (Perm.symm (heap_init-perm seq_of (select p ms)))
        (All-select IsFresh p ms h)

  resync-OrderInv :
      (ack : ℕ) (q : OrderedMessageQueue) (w : Wire)
      → (ack + 1 < u64_mod) × (jumps ≡ true)
      → OrderInv jumps q w
      → OrderInv jumps (resync_sequence ack q) w
  unfolding resync_sequence
  resync-OrderInv ack q w sane v = record {
    fresh =
        ground
          (arith, v.fresh, refiltered-IsFresh (λ m. ltb ack m.server_seq) q.waiting_queue v.fresh);
    falling =
        ground
          (arith, v.falling, Falling-mono {m = q.next_expected_seq} {n = ack + 1} (firsts w.log));
    exact = λ j. cc;
  }

  ack-OrderInv :
      (ack : ℕ) (q : OrderedMessageQueue) (w : Wire)
      → OrderInv jumps q w
      → OrderInv jumps (ack_messages_up_to ack q).0 w
  unfolding ack_messages_up_to
  ack-OrderInv ack q w v = record {
    fresh = ground (arith, v.fresh);
    falling = ground (arith, v.falling);
    exact = λ j. ground (arith, v.exact j);
  }

  stop-OrderInv :
      (q : OrderedMessageQueue) (w : Wire) → OrderInv jumps q w → OrderInv jumps (stop q) w
  unfolding stop
  stop-OrderInv q w v = record {
    fresh = ground (arith, v.fresh, refiltered-IsFresh (λ m. true) [] tt);
    falling = ground (arith, v.falling);
    exact = λ j. ground (arith, v.exact j);
  }

  retry-OrderInv :
      (now : ℕ) (q : OrderedMessageQueue) (w : Wire) (callback : Option SendCallback)
      → QueueInv q
      → OrderInv jumps q w
      → let r = retry_loop now callback q.sent_messages w in
        OrderInv jumps (record q { sent_messages = r.0 }) r.1
  unfolding retry_loop
  retry-OrderInv now q w none inv v = record {
    fresh = v.fresh;
    falling = v.falling;
    exact = v.exact;
  }
  retry-OrderInv now q w (some callback) inv v =
      let same = retry_firsts now callback q.sent_messages w inv.pending in
      record { fresh = v.fresh; falling = rw same v.falling; exact = λ j. rw same (v.exact j) }

  step-OrderInv :
      (c : QueueCall) (q : OrderedMessageQueue) (w : Wire)
      → IsSane jumps c
      → QueueInv q
      → OrderInv jumps q w
      → OrderInv jumps (step c (q, w)).0 (step c (q, w)).1
  unfolding step retry_timed_out_messages set_send_callback cleanup_expired_messages
  step-OrderInv (enqueues seq p bytes now) q w sane inv v =
      enqueue-OrderInv seq p bytes now q w sane v
  step-OrderInv (acks ack) q w sane inv v = ack-OrderInv ack q w v
  step-OrderInv (resyncs ack) q w sane inv v = resync-OrderInv ack q w sane v
  step-OrderInv (cleans now) q w sane inv v = record {
    fresh = refiltered-IsFresh (λ m. not (is_older now message_timeout m)) q.waiting_queue v.fresh;
    falling = v.falling;
    exact = v.exact;
  }
  step-OrderInv (resends now) q w sane inv v = retry-OrderInv now q w q.send_callback inv v
  step-OrderInv (sets_callback callback) q w sane inv v = record {
    fresh = v.fresh;
    falling = v.falling;
    exact = v.exact;
  }
  step-OrderInv stops q w sane inv v = stop-OrderInv q w v

  run-OrderInv :
      (cs : List QueueCall) (q : OrderedMessageQueue) (w : Wire)
      → All (IsSane jumps) cs
      → QueueInv q
      → OrderInv jumps q w
      → OrderInv jumps (run cs (q, w)).0 (run cs (q, w)).1
  unfolding run
  run-OrderInv [] q w sane inv v = v
  run-OrderInv (c ∷ cs) q w sane inv v =
      run-OrderInv cs (step c (q, w)).0 (step c (q, w)).1 sane.1 (step-QueueInv c q w inv)
        (step-OrderInv c q w sane.0 inv v)

  new-OrderInv :
      (id : String) (size : ℤ)
      → OrderInv jumps (new_ordered_message_queue id size) (record { calls = 0; log = [] })
  unfolding new_ordered_message_queue
  new-OrderInv id size = record {
    fresh = refiltered-IsFresh (λ m. true) [] tt;
    falling = tt;
    exact = λ j. (refl, refl);
  }

abbrev pub idle_wire : Wire
idle_wire = record { calls = 0; log = [] }

-- Whatever the callbacks answer, in every history of calls on a new queue whose sequence numbers
-- and acknowledged numbers stay below 2^64 - 1 the first transmissions went out in strictly rising order of their numbers,
-- all below the number that is expected next. So none is sent twice as new.
pub run-Falling :
    (id : String) (size : ℤ) (cs : List QueueCall)
    → All (IsSane true) cs
    → let (q, w) = run cs (new_ordered_message_queue id size, idle_wire) in
      Falling q.next_expected_seq (firsts w.log)
run-Falling id size cs sane =
    (run-OrderInv true cs (new_ordered_message_queue id size) idle_wire sane (new-QueueInv id size)
      (new-OrderInv true id size)).falling

-- Whatever the callbacks answer, in every history of calls on a new queue in which nothing
-- resynchronises and whose sequence numbers stay below 2^64 - 1, the first transmissions carry
-- exactly the numbers 1, 2, …, up to the last sent, each once and in this order, and the number
-- expected next is one more.
pub run_exact :
    (id : String) (size : ℤ) (cs : List QueueCall)
    → All (IsSane false) cs
    → let (q, w) = run cs (new_ordered_message_queue id size, idle_wire) in
      (q.next_expected_seq ≡ q.last_sent_seq + 1)
      × (map seq_of (firsts w.log) ≡ countdown q.last_sent_seq)
run_exact id size cs sane =
    (run-OrderInv false cs (new_ordered_message_queue id size) idle_wire sane (new-QueueInv id size)
        (new-OrderInv false id size)).exact
      refl
