-- ===== src/Session/Queue/Reorder.antt =====
-- Messages that arrive in any order leave in the right one.
use gateway_test.Session.Heap.Laws.{
  heap_init-IsHeap, heap_init-nil, heap_push-IsHeap, heap_push-perm,
}
use gateway_test.Session.Queue.Order.{idle_wire, idle_wire}
use gateway_test.Session.Queue.Firsts.{countdown}
use gateway_test.Session.Heap.Count.{count_empty, count-perm, count}
use gateway_test.Session.Queue.{
  new_ordered_message_queue, set_send_callback, process_waiting_messages, send_message_directly,
  QueueError, new_message, mark_sent, enqueue_message, seq_of, Wire, OrderedMessageQueue,
  process_loop, OrderedMessage,
}
use gateway_test.Session.Heap.{heap_push}
use gateway_test.Session.Queue.Rounds.{logged}
use gateway_test.Session.Heap.Slice.{length-perm}
use gateway_test.Prelude.{
  ℕ, subst, ◌+◌, ◌-◌, ◌≤◌, ◌<◌, String, ◌≡◌, refl, ap, ◌∙◌, inl, inr, Option, none, List, [], ◌∷◌,
  map, arith, eqb, if◌then◌else◌, Bool-cases, nat_eq, string_eq, length, u64_mod, pos,
}
use mathlib.Core.Path.{fun_ext}
use gateway_test.Session.Queue.Progress.{
  Arrival, IsQuiet, Progress, enqueue_all, loop_settles, marked-Progress, one_to, succeeds,
}

-- One more arrival of the number `s`.
abbrev bump : (ℕ → ℕ) → ℕ → ℕ → ℕ
bump c s k = c k + (if eqb s k then 1 else 0)

module _ (n m : ℕ) (c : ℕ → ℕ) (a : Arrival) (q : OrderedMessageQueue) (w : Wire)
    (v : Progress n c q w) (quiet : IsQuiet q) (max : q.max_queue_size ≡ pos m)
    (fits : length q.waiting_queue < m) (bound : (k : ℕ) → bump c a.seq k ≤ one_to n k) where
  abbrev Settled : OrderedMessageQueue → Wire → Type 0
  Settled q' w' =
      Progress n (bump c a.seq) q' w'
      × IsQuiet q'
      × (length q'.waiting_queue + length w'.log ≡ length q.waiting_queue + length w.log + 1)
      × (q'.max_queue_size ≡ pos m)

  abbrev arrived : OrderedMessage
  arrived = new_message a.seq a.push a.bytes a.time

  abbrev outcome : OrderedMessageQueue × Wire × Option QueueError
  outcome = enqueue_message a.seq a.push a.bytes a.time q w

  bumped :
      a.seq ≡ q.next_expected_seq
      → Progress n (bump c a.seq) (mark_sent q arrived) (logged arrived w)
  bumped due =
      marked-Progress n c (bump c a.seq) q w arrived q.waiting_queue v due bound
        (λ k h. ground arith) (ground (arith, bound a.seq, v.held a.seq)) v.heap
        (λ k. ground (arith, v.held k, quiet))

  due-Settled : a.seq ≡ q.next_expected_seq → Settled outcome.0 outcome.1
  unfolding enqueue_message send_message_directly process_waiting_messages
  due-Settled due =
      let start : OrderedMessageQueue = mark_sent q arrived in
      let (q', w') = process_loop (length q.waiting_queue) start (logged arrived w) in
      let (v', quiet', kept, same) =
        loop_settles n (bump c a.seq) (length q.waiting_queue) start (logged arrived w)
          (omega arith) (bumped due) in
      let runs : outcome ≡ (q', w', none) = ground (arith, v.live, v.good, max) in
      rw runs (v', quiet', omega (arith, kept), same ∙ max)

  early-Settled : q.next_expected_seq < a.seq → Settled outcome.0 outcome.1
  unfolding enqueue_message
  early-Settled early =
      let waiting : OrderedMessageQueue = record q {
        waiting_queue = heap_push seq_of arrived q.waiting_queue;
      } in
      let stays : outcome ≡ (waiting, w, none) = ground (arith, v.live, max) in
      let same = heap_push-perm seq_of arrived q.waiting_queue in
      rw stays (
        record {
          small = v.small;
          bound = bound;
          good = v.good;
          live = v.live;
          heap = heap_push-IsHeap seq_of arrived q.waiting_queue v.heap;
          held = λ k. ground (arith, count-perm seq_of k same, v.held k);
          start = v.start;
          done = λ k p r. ground (arith, v.done k);
          sent = v.sent;
        },
        ground (arith, count-perm seq_of q.next_expected_seq same),
        omega (arith, length-perm same),
        max,
      )

  enqueue-Settled : Settled outcome.0 outcome.1
  enqueue-Settled = elim (Bool-cases (eqb a.seq q.next_expected_seq)) [
    | inl due ↦ due-Settled (ground arith)
    | inr other ↦ early-Settled (ground (arith, bound a.seq, v.done a.seq))
  ]

-- What has arrived and what is still to come make up each number from 1 to n once.
enqueue_all-Progress :
    (n m : ℕ) (arrivals : List Arrival) (c : ℕ → ℕ) (q : OrderedMessageQueue) (w : Wire)
    → Progress n c q w
    → IsQuiet q
    → q.max_queue_size ≡ pos m
    → length q.waiting_queue + length w.log + length arrivals ≤ m
    → ((k : ℕ) → c k + count (λ a. a.seq) k arrivals ≡ one_to n k)
    → let (q', w') = enqueue_all arrivals q w in Progress n (one_to n) q' w' × IsQuiet q'
enqueue_all-Progress n m [] c q w v quiet max fits all =
    (subst (λ c. Progress n c q w) (fun_ext (λ k. omega (arith, all k))) v, quiet)
enqueue_all-Progress n m (a ∷ rest) c q w v quiet max fits all =
    let (v', quiet', kept, same) =
      enqueue-Settled n m c a q w v quiet max (omega arith) (λ k. ground (arith, all k)) in
    let r = enqueue_message a.seq a.push a.bytes a.time q w in
    enqueue_all-Progress n m rest (bump c a.seq) r.0 r.1 v' quiet' same (omega (arith, kept))
      (λ k. ground (arith, all k))

new-Progress :
    (id : String) (n m : ℕ)
    → n + 1 < u64_mod
    → Progress n
        (λ k. 0)
        (set_send_callback succeeds (new_ordered_message_queue id (pos m)))
        idle_wire
unfolding set_send_callback new_ordered_message_queue
new-Progress id n m small = record {
  small = small;
  bound = λ k. omega arith;
  good = refl;
  live = refl;
  heap = heap_init-IsHeap seq_of [];
  held = λ k. rw (heap_init-nil seq_of) (ground arith);
  start = omega arith;
  done = λ k p r. absurd (omega arith);
  sent = refl;
}

new_empty :
    (id : String) (m : ℕ)
    → let q = set_send_callback succeeds (new_ordered_message_queue id (pos m)) in
      (q.waiting_queue ≡ []) × (q.max_queue_size ≡ pos m)
unfolding set_send_callback new_ordered_message_queue
new_empty id m = (heap_init-nil seq_of, refl)

-- At the end everything was sent.
Progress-end :
    (n : ℕ) (q : OrderedMessageQueue) (w : Wire)
    → Progress n (one_to n) q w
    → IsQuiet q
    → (map seq_of w.log ≡ countdown n) × (q.waiting_queue ≡ []) × (q.next_expected_seq ≡ n + 1)
Progress-end n q w v quiet =
    let next : q.next_expected_seq ≡ n + 1 =
      ground (arith, v.start, v.held q.next_expected_seq, v.done (q.next_expected_seq - 1)) in
    (
      ground (arith, v.sent, next),
      count_empty seq_of q.waiting_queue (λ k. ground (arith, v.held k, next)),
      next,
    )

-- A new queue with a callback that does not fail sends the messages 1, …, n in this order, in
-- whatever order they are enqueued, each once, where the limit admits them all and n + 1 fits 64
-- bits. At the end nothing waits and n + 1 is expected next.
pub enqueue_all_sorts :
    (id : String) (n m : ℕ) (arrivals : List Arrival)
    → n + 1 < u64_mod
    → length arrivals ≤ m
    → ((k : ℕ) → count (λ a. a.seq) k arrivals ≡ one_to n k)
    → let (q, w) =
        enqueue_all arrivals
          (set_send_callback succeeds (new_ordered_message_queue id (pos m)))
          idle_wire in
      (map seq_of w.log ≡ countdown n) × (q.waiting_queue ≡ []) × (q.next_expected_seq ≡ n + 1)
enqueue_all_sorts id n m arrivals small fits all =
    let start = set_send_callback succeeds (new_ordered_message_queue id (pos m)) in
    let (empty, limit) = new_empty id m in
    let (v, quiet) =
      enqueue_all-Progress n m arrivals (λ k. 0) start idle_wire (new-Progress id n m small)
        (ap (count seq_of start.next_expected_seq) empty) limit (omega (arith, ap length empty))
        (λ k. omega (arith, all k)) in
    Progress-end n (enqueue_all arrivals start idle_wire).0 (enqueue_all arrivals start idle_wire).1
      v quiet
