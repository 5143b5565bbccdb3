-- ===== src/Session/Queue/Blocking.antt =====
-- What holds a queue back: no first transmission without the message that is due.
use gateway_test.Session.Heap.Laws.{heap_init-IsHeap, root_least, All-perm, heap_init-perm}
use native.Mathlib.Bridge.{le_prop}
use gateway_test.Session.Queue.{
  stops, OrderedMessage, resync_sequence, seq_of, sets_callback, resends, cleans, acks,
  ack_messages_up_to, stop, cleanup_expired_messages, enqueue_message, SendCallback,
  set_send_callback, Wire, retry_timed_out_messages, run, OrderedMessageQueue, resyncs, retry_loop,
  step, QueueCall, enqueues,
}
use gateway_test.Session.Heap.{heap_init, key_at}
use gateway_test.Session.Queue.Firsts.{retry_firsts, firsts}
use gateway_test.Session.Queue.Invariant.{step-QueueInv}
use gateway_test.Session.Queue.Shape.{QueueInv}
use gateway_test.Session.Queue.Cases.{enqueue_cases}
use gateway_test.Prelude.{
  ℕ, subst, ◌+◌, ◌≤◌, ◌<◌, ◌≡◌, refl, sym, ◌∙◌, Option, none, some, List, [], ◌∷◌, arith, ltb,
  nat_eq, string_eq, length, select, All, u64_mod,
}
use mathlib.Core.List.Perm
use gateway_test.Proto.{ServerPush}
use gateway_test.Session.Heap.Count.{count, count-perm, count_index, count-select}

-- A call that neither brings the message `n` nor an older one, nor resynchronises.
abbrev pub IsBeyond : ℕ → QueueCall → Type 0
IsBeyond n (enqueues seq p bytes now) = n < seq
IsBeyond n (resyncs ack) = ⊥
IsBeyond n _ = Unit {0}

abbrev pub Stays : OrderedMessageQueue → Wire → OrderedMessageQueue → Wire → Type 0
Stays q w q' w' = (q'.next_expected_seq ≡ q.next_expected_seq) × (firsts w'.log ≡ firsts w.log)

enqueue-Stays :
    (seq : ℕ) (p : ServerPush) (bytes : List ℕ) (now : ℕ) (q : OrderedMessageQueue) (w : Wire)
    → q.next_expected_seq < seq
    → Stays q w (enqueue_message seq p bytes now q w).0 (enqueue_message seq p bytes now q w).1
enqueue-Stays seq p bytes now q w h =
    enqueue_cases (λ q' w' _. Stays q w q' w') seq p bytes now q w (λ e. (refl, refl))
      (λ w' e l due. absurd (omega arith)) (λ run due. absurd (omega arith))
      (λ run fits early. (refl, refl))

retry-Stays :
    (now : ℕ) (q : OrderedMessageQueue) (w : Wire) (callback : Option SendCallback)
    → QueueInv q
    → firsts (retry_loop now callback q.sent_messages w).1.log ≡ firsts w.log
unfolding retry_loop
retry-Stays now q w none v = refl
retry-Stays now q w (some callback) v = retry_firsts now callback q.sent_messages w v.pending

pub step-Stays :
    (c : QueueCall) (q : OrderedMessageQueue) (w : Wire)
    → IsBeyond q.next_expected_seq c
    → QueueInv q
    → Stays q w (step c (q, w)).0 (step c (q, w)).1
unfolding step retry_timed_out_messages set_send_callback cleanup_expired_messages stop
    ack_messages_up_to
step-Stays (enqueues seq p bytes now) q w h v = enqueue-Stays seq p bytes now q w h
step-Stays (acks ack) q w h v = ground arith
step-Stays (resyncs ack) q w h v = absurd h
step-Stays (cleans now) q w h v = (refl, refl)
step-Stays (resends now) q w h v = (refl, retry-Stays now q w q.send_callback v)
step-Stays (sets_callback callback) q w h v = (refl, refl)
step-Stays stops q w h v = ground arith

-- While the message that is due does not come and nothing resynchronises, no call sends a message
-- for the first time, however many later messages arrive and whatever waits in the queue.
pub gap_blocks :
    (cs : List QueueCall) (q : OrderedMessageQueue) (w : Wire)
    → QueueInv q
    → All (IsBeyond q.next_expected_seq) cs
    → let (q', w') = run cs (q, w) in
      (q'.next_expected_seq ≡ q.next_expected_seq) × (firsts w'.log ≡ firsts w.log)
unfolding run
gap_blocks [] q w v h = (refl, refl)
gap_blocks (c ∷ cs) q w v h =
    let s = step c (q, w) in
    let once = step-Stays c q w h.0 v in
    let rest =
      gap_blocks cs s.0 s.1 (step-QueueInv c q w v)
        (subst (λ n. All (IsBeyond n) cs) (sym once.0) h.1) in
    (rest.0 ∙ once.0, rest.1 ∙ once.1)

abbrev pub later_than : ℕ → List OrderedMessage → List OrderedMessage
later_than ack ms = select (λ m. ltb ack m.server_seq) ms

pub resync_ahead :
    (ack : ℕ) (q : OrderedMessageQueue)
    → q.next_expected_seq ≤ ack
    → ack + 1 < u64_mod
    → let r = resync_sequence ack q in
      (r.next_expected_seq ≡ ack + 1)
      × (r.waiting_queue ≡ heap_init seq_of (later_than ack q.waiting_queue))
unfolding resync_sequence
resync_ahead ack q ahead small = (ground arith, ground arith)

All-later_than :
    (ack : ℕ) (ms : List OrderedMessage) → All (λ m. ack < m.server_seq) (later_than ack ms)
All-later_than ack [] = tt
All-later_than ack (m ∷ ms) = ground (arith, All-later_than ack ms)

first_above :
    (ack : ℕ) (ms : List OrderedMessage)
    → All (λ m. ack < m.server_seq) ms
    → 0 < length ms
    → ack < key_at seq_of ms 0
first_above ack [] h l = absurd (omega arith)
first_above ack (m ∷ ms) h l = h.0

-- The least of the later messages comes to the root.
later_root :
    (ack : ℕ) (ms : List OrderedMessage)
    → 0 < count seq_of (ack + 1) ms
    → key_at seq_of (heap_init seq_of (later_than ack ms)) 0 ≡ ack + 1
later_root ack ms held =
    let heap = heap_init seq_of (later_than ack ms) in
    let same = heap_init-perm seq_of (later_than ack ms) in
    let there : 0 < count seq_of (ack + 1) heap = omega (
      arith,
      count-perm seq_of (ack + 1) same,
      count-select seq_of (ack + 1) (λ m. ltb ack m.server_seq) ms (λ m e. ground arith),
    ) in
    let (i, inside, e) = count_index seq_of (ack + 1) heap there in
    let above =
      All-perm (λ m. ack < m.server_seq) (λ m. le_prop) (Perm.symm same) (All-later_than ack ms) in
    omega (
      arith,
      root_least seq_of heap i (heap_init-IsHeap seq_of (later_than ack ms)) inside,
      first_above ack heap above (omega arith),
    )

-- The defect of ResyncSequence: it moves the expected number forward and sends nothing. Where the
-- message that is now due waits in the queue already, it stands at the root afterwards, and while
-- only later messages arrive nothing is sent for the first time.
pub resync_wedges :
    (ack : ℕ) (cs : List QueueCall) (q : OrderedMessageQueue) (w : Wire)
    → QueueInv q
    → q.next_expected_seq ≤ ack
    → ack + 1 < u64_mod
    → 0 < count seq_of (ack + 1) q.waiting_queue
    → All (IsBeyond (ack + 1)) cs
    → let r = resync_sequence ack q in
      (r.next_expected_seq ≡ ack + 1)
      × (key_at seq_of r.waiting_queue 0 ≡ r.next_expected_seq)
      × (firsts (run cs (r, w)).1.log ≡ firsts w.log)
resync_wedges ack cs q w v ahead small held beyond =
    let r = resync_sequence ack q in
    let (next, waiting) = resync_ahead ack q ahead small in
    (
      next,
      rw waiting (later_root ack q.waiting_queue held) ∙ sym next,
      (gap_blocks cs r w (unfold step in step-QueueInv (resyncs ack) q w v) (rw next beyond)).1,
    )
