-- ===== src/Session/Queue/Progress.antt =====
-- Arrivals in any order: what was sent and what waits after some of them.
use gateway_test.Session.Heap.Laws.{popped-perm, popped-IsHeap, popped, root_least, IsHeap}
use gateway_test.Session.Queue.Firsts.{countdown-next, countdown}
use gateway_test.Session.Heap.Count.{count-perm, count_index, count}
use gateway_test.Session.Queue.{
  mark_sent, enqueue_message, seq_of, Wire, SendCallback, OrderedMessageQueue, process_loop,
  OrderedMessage,
}
use gateway_test.Session.Heap.{key_at}
use gateway_test.Session.Queue.Rounds.{
  round_fails, round_sends, settled_early, settled_empty, logged, round_ends, round, after_sent,
}
use gateway_test.Session.Heap.Slice.{length-perm}
use gateway_test.Prelude.{
  ℕ, subst, zero, suc, ◌+◌, ◌-◌, ◌≤◌, ◌<◌, ◌≡◌, refl, sym, ap, ◌∙◌, ◌≢◌, inl, inr, true, false,
  ◌&&◌, some, List, [], ◌∷◌, map, arith, ltb, leb, if◌then◌else◌, Bool-cases, nat_eq, string_eq,
  length, length_zero, u64_mod, u64,
}
use gateway_test.Proto.{ServerPush}

pub record Arrival : Type 0 where
  pub seq : ℕ
  pub push : ServerPush
  pub bytes : List ℕ
  pub time : ℕ

-- EnqueueMessage for each arrival in turn.
abbrev pub enqueue_all : List Arrival → OrderedMessageQueue → Wire → OrderedMessageQueue × Wire
enqueue_all [] q w = (q, w)
enqueue_all (a ∷ rest) q w =
    let (q', w', _) = enqueue_message a.seq a.push a.bytes a.time q w in enqueue_all rest q' w'

-- A callback that never fails.
abbrev pub succeeds : SendCallback
succeeds calls msg = true

-- Once for each number from 1 to n.
abbrev pub one_to : ℕ → ℕ → ℕ
one_to n k = if leb 1 k && leb k n then 1 else 0

-- `c k` is how often the number `k` has arrived so far.
pub record Progress (n : ℕ) (c : ℕ → ℕ) (q : OrderedMessageQueue) (w : Wire) : Type 0 where
  pub small : n + 1 < u64_mod
  pub bound : (k : ℕ) → c k ≤ one_to n k
  pub good : q.send_callback ≡ some succeeds
  pub live : q.stopped ≡ false
  pub heap : IsHeap seq_of q.waiting_queue
  pub held :
      (k : ℕ) → count seq_of k q.waiting_queue ≡ (if leb q.next_expected_seq k then c k else 0)
  pub start : 1 ≤ q.next_expected_seq
  pub done : (k : ℕ) → 1 ≤ k → k < q.next_expected_seq → c k ≡ 1
  pub sent : map seq_of w.log ≡ countdown (q.next_expected_seq - 1)

abbrev pub IsQuiet : OrderedMessageQueue → Type 0
IsQuiet q = count seq_of q.next_expected_seq q.waiting_queue ≡ 0

-- The message that is due has arrived, and none of its number waits.
pub marked-Progress :
    (n : ℕ) (c c' : ℕ → ℕ) (q : OrderedMessageQueue) (w : Wire) (msg : OrderedMessage)
    (ms : List OrderedMessage)
    → Progress n c q w
    → msg.server_seq ≡ q.next_expected_seq
    → ((k : ℕ) → c' k ≤ one_to n k)
    → ((k : ℕ) → k < q.next_expected_seq → c' k ≡ c k)
    → c' msg.server_seq ≡ 1
    → IsHeap seq_of ms
    → ((k : ℕ) → count seq_of k ms ≡ (if leb (q.next_expected_seq + 1) k then c' k else 0))
    → Progress n c' (mark_sent (record q { waiting_queue = ms }) msg) (logged msg w)
marked-Progress n c c' q w msg ms v due bound older one h counts =
    let next : u64 (q.next_expected_seq + 1) ≡ q.next_expected_seq + 1 =
      ground (arith, bound msg.server_seq, v.small) in
    record {
      small = v.small;
      bound = bound;
      good = v.good;
      live = v.live;
      heap = h;
      held = λ k. rw next (counts k);
      start = omega (arith, next);
      done = λ k p r. ground (arith, next, v.done k, older k);
      sent = ground (
        arith,
        next,
        v.sent,
        v.start,
        countdown-next q.next_expected_seq (q.next_expected_seq - 1),
      );
    }

module _ (n : ℕ) (c : ℕ → ℕ) where
  after_sent-Progress :
      (q : OrderedMessageQueue) (w : Wire) (top : OrderedMessage) (xs : List OrderedMessage)
      → Progress n c q w
      → q.waiting_queue ≡ top ∷ xs
      → top.server_seq ≡ q.next_expected_seq
      → Progress n c (after_sent q top xs) (logged top w)
  after_sent-Progress q w top xs v e due =
      let before = λ (k : ℕ). ap (count seq_of k) (sym e) ∙ v.held k in
      let one : c top.server_seq ≡ 1 =
        ground (arith, before top.server_seq, v.bound top.server_seq) in
      marked-Progress n c c q w top (popped seq_of top xs) v due v.bound (λ k _. refl) one
        (popped-IsHeap seq_of top xs (subst (IsHeap seq_of) e v.heap))
        (λ k.
          ground (arith, before k, one, v.bound k, count-perm seq_of k (popped-perm seq_of top xs)))

  -- A root that is not due leaves nothing that is.
  early-IsQuiet :
      (q : OrderedMessageQueue) (w : Wire) (top : OrderedMessage) (xs : List OrderedMessage)
      → Progress n c q w
      → q.waiting_queue ≡ top ∷ xs
      → top.server_seq ≢ q.next_expected_seq
      → IsQuiet q
  early-IsQuiet q w top xs v e early =
      elim (Bool-cases (ltb 0 (count seq_of next q.waiting_queue))) [
        | inl there ↦
            let (i, inside, found) = count_index seq_of next q.waiting_queue (ground arith) in
            let least = root_least seq_of q.waiting_queue i v.heap inside in
            let root : key_at seq_of q.waiting_queue 0 ≡ top.server_seq =
              ap (λ ms. key_at seq_of ms 0) e in
            let mine = ap (count seq_of top.server_seq) (sym e) ∙ v.held top.server_seq in
            absurd (ground (arith, least, root, mine))
        | inr nothing ↦ ground arith
      ]
    where
      next : ℕ
      next = q.next_expected_seq

  pub loop_settles :
      (fuel : ℕ) (q : OrderedMessageQueue) (w : Wire)
      → length q.waiting_queue ≤ fuel
      → Progress n c q w
      → let (q', w') = process_loop fuel q w in
        Progress n c q' w'
        × IsQuiet q'
        × (length q'.waiting_queue + length w'.log ≡ length q.waiting_queue + length w.log)
        × (q'.max_queue_size ≡ q.max_queue_size)
  unfolding process_loop
  loop_settles zero q w f v =
      let nothing : q.waiting_queue ≡ [] = length_zero q.waiting_queue (omega arith) in
      (v, ap (count seq_of q.next_expected_seq) nothing, refl, refl)
  loop_settles (suc fuel) q w f v = elim (round fuel q w) [
    | round_ends (settled_empty e) r ↦ rw r (v, ap (count seq_of q.next_expected_seq) e, refl, refl)
    | round_ends (settled_early top xs e early) r ↦
        rw r (v, early-IsQuiet q w top xs v e early, refl, refl)
    | round_sends top xs _ e due _ _ r ↦
        let size = length-perm (popped-perm seq_of top xs) in
        let (v', quiet', kept, same) =
          loop_settles fuel (after_sent q top xs) (logged top w) (omega (arith, size, ap length e))
            (after_sent-Progress q w top xs v e due) in
        rw r (v', quiet', omega (arith, kept, size, ap length e), same)
    | round_fails top xs w' e l bad r ↦ absurd (ground (arith, bad succeeds v.good))
  ]
