-- ===== src/Session/State/Inherit.antt =====
-- A session that takes over from an older one of the same client.
use gateway_test.Prelude.{
  ℕ, subst, ◌+◌, ◌≤◌, ◌<◌, ◌≡◌, refl, sym, ◌∙◌, ◌⊎◌, inl, inr, some, List, [], ◌∷◌, arith, nat_eq,
  string_eq, All, u64_mod,
}
use gateway_test.Session.State.{Session, inherit_from, new_server_seq}
use gateway_test.Session.Queue.{
  OrderedMessageQueue, QueueCall, Wire, resync_sequence, run, step, resyncs, enqueues,
}
use gateway_test.Session.Queue.Firsts.{firsts}
use gateway_test.Session.Queue.Invariant.{step-QueueInv}
use gateway_test.Session.Queue.Shape.{QueueInv}
use gateway_test.Session.Queue.Blocking.{IsBeyond, step-Stays, resync_ahead}

resync_next :
    (ack : ℕ) (q : OrderedMessageQueue)
    → q.next_expected_seq ≡ 1
    → ack + 1 < u64_mod
    → (resync_sequence ack q).next_expected_seq ≡ ack + 1
unfolding resync_sequence
resync_next ack q fresh small = ground arith

-- A call that leaves the numbers up to `n` alone: it brings a later message, or acknowledges an
-- older one than `n`.
abbrev pub HoldsBack : ℕ → QueueCall → Type 0
HoldsBack n (enqueues seq p bytes now) = n < seq
HoldsBack n (resyncs ack) = ack < n
HoldsBack n _ = Unit {0}

HoldsBack-IsBeyond :
    (n k : ℕ) (c : QueueCall)
    → k ≤ n
    → HoldsBack n c
    → IsBeyond k c ⊎ ((ack : ℕ) × (c ≡ resyncs ack) × (ack < n))
HoldsBack-IsBeyond n k (enqueues seq p bytes now) le h = inl (omega arith)
HoldsBack-IsBeyond n k (resyncs ack) le h = inr (ack, refl, h)
HoldsBack-IsBeyond n k c le h = inl tt

-- The queue still waits for a number up to `n`, and nothing new was sent.
abbrev Held : ℕ → Wire → OrderedMessageQueue × Wire → Type 0
Held n w r = (r.0.next_expected_seq ≤ n) × (firsts r.1.log ≡ firsts w.log)

resync-Held :
    (n ack : ℕ) (q : OrderedMessageQueue) (w : Wire)
    → n < u64_mod
    → q.next_expected_seq ≤ n
    → ack < n
    → Held n w (step (resyncs ack) (q, w))
unfolding step resync_sequence
resync-Held n ack q w small le h = (ground arith, refl)

step-Held :
    (n : ℕ) (c : QueueCall) (q : OrderedMessageQueue) (w : Wire)
    → n < u64_mod
    → QueueInv q
    → q.next_expected_seq ≤ n
    → HoldsBack n c
    → Held n w (step c (q, w))
step-Held n c q w small v le h = elim (HoldsBack-IsBeyond n q.next_expected_seq c le h) [
  | inl beyond ↦
      let (next, same) = step-Stays c q w beyond v in (subst (λ k. k ≤ n) (sym next) le, same)
  | inr (ack, resync, older) ↦
      subst (λ c. Held n w (step c (q, w))) (sym resync) (resync-Held n ack q w small le older)
]

run-Held :
    (n : ℕ) (cs : List QueueCall) (q : OrderedMessageQueue) (w : Wire)
    → n < u64_mod
    → QueueInv q
    → q.next_expected_seq ≤ n
    → All (HoldsBack n) cs
    → Held n w (run cs (q, w))
unfolding run
run-Held n [] q w small v le h = (le, refl)
run-Held n (c ∷ cs) q w small v le h =
    let r = step c (q, w) in
    let (bound, same) = step-Held n c q w small v le h.0 in
    let (later, rest) = run-Held n cs r.0 r.1 small (step-QueueInv c q w v) bound h.1 in
    (later, rest ∙ same)

-- A defect of the reconnection, for a new session with a fresh queue: where the client has not
-- acknowledged all that the old session sent, the new session numbers its messages after the last
-- of them, while its queue expects the number after the acknowledged one. While only messages
-- under the new numbers are enqueued, and the client acknowledges only messages before the last
-- of the old session, no message is sent for the first time, whatever else happens to the queue.
-- An acknowledgement of the last of them makes the queue expect the first new number. The numbers
-- do not wrap.
pub inherit_from_stalls :
    (old s : Session) (queue old_queue : OrderedMessageQueue) (cs : List QueueCall) (w : Wire)
    → s.ordered_queue ≡ some queue
    → old.ordered_queue ≡ some old_queue
    → QueueInv queue
    → queue.next_expected_seq ≡ 1
    → old.client_ack_server_seq < old.server_seq
    → old.server_seq + 1 < u64_mod
    → All (HoldsBack old.server_seq) cs
    → let s' = inherit_from old s in
      let q = resync_sequence old.client_ack_server_seq queue in
      ((new_server_seq s').1 ≡ old.server_seq + 1)
      × (s'.ordered_queue ≡ some q)
      × (q.next_expected_seq ≡ old.client_ack_server_seq + 1)
      × (firsts (run cs (q, w)).1.log ≡ firsts w.log)
      × ((resync_sequence old.server_seq q).next_expected_seq ≡ old.server_seq + 1)
unfolding inherit_from new_server_seq step
inherit_from_stalls old s queue old_queue cs w e old_e v fresh behind small held =
    let ack = old.client_ack_server_seq in
    let q = resync_sequence ack queue in
    let next = resync_next ack queue fresh (omega arith) in
    (
      omega arith,
      rw old_e (rw e refl),
      next,
      (run-Held old.server_seq cs q w (omega arith) (step-QueueInv (resyncs ack) queue w v)
          (omega (arith, next)) held).1,
      (resync_ahead old.server_seq q (omega (arith, next)) small).0,
    )
