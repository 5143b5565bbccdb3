-- ===== src/Session/Queue/Rounds.antt =====
-- The rounds of processWaitingMessages, and a rule for what they keep.
use gateway_test.Prelude.{
  ℕ, subst, zero, suc, ◌+◌, ◌≡◌, refl, sym, ap, ◌∙◌, ◌≢◌, inl, inr, true, false, Option, none, some,
  List, [], ◌∷◌, arith, eqb, Bool-cases, nat_eq, string_eq, length, some_inj,
}
use gateway_test.Session.Heap.{heap_push, heap_pop}
use gateway_test.Session.Heap.Laws.{popped, heap_pop-cons}
use gateway_test.Session.Queue.{
  OrderedMessage, OrderedMessageQueue, SendCallback, Wire, seq_of, mark_sent, send_message_directly,
  process_loop, process_waiting_messages,
}

abbrev pub logged : OrderedMessage → Wire → Wire
logged msg w = record { calls = w.calls + 1; log = msg ∷ w.log }

-- The queue after its root was sent, and after it was put back.
abbrev pub after_sent :
    OrderedMessageQueue → OrderedMessage → List OrderedMessage → OrderedMessageQueue
after_sent q top xs = mark_sent (record q { waiting_queue = popped seq_of top xs }) top

abbrev pub after_failed :
    OrderedMessageQueue → OrderedMessage → List OrderedMessage → OrderedMessageQueue
after_failed q top xs = record q { waiting_queue = heap_push seq_of top (popped seq_of top xs) }

-- The root is not the message that is due.
pub data IsSettled (q : OrderedMessageQueue) : Type 0 where
  settled_empty : q.waiting_queue ≡ [] → IsSettled q
  settled_early :
      (top : OrderedMessage) (xs : List OrderedMessage)
      → q.waiting_queue ≡ top ∷ xs
      → top.server_seq ≢ q.next_expected_seq
      → IsSettled q

-- What one more round of fuel does.
pub data Round (fuel : ℕ) (q : OrderedMessageQueue) (w : Wire) : Type 0 where
  round_ends : IsSettled q → process_loop (suc fuel) q w ≡ (q, w) → Round fuel q w
  round_sends :
      (top : OrderedMessage) (xs : List OrderedMessage) (callback : SendCallback)
      → q.waiting_queue ≡ top ∷ xs
      → top.server_seq ≡ q.next_expected_seq
      → q.send_callback ≡ some callback
      → callback w.calls top ≡ true
      → process_loop (suc fuel) q w ≡ process_loop fuel (after_sent q top xs) (logged top w)
      → Round fuel q w
  round_fails :
      (top : OrderedMessage) (xs : List OrderedMessage) (w' : Wire)
      → q.waiting_queue ≡ top ∷ xs
      → w'.log ≡ w.log
      → ((callback : SendCallback) → q.send_callback ≡ some callback → callback w.calls top ≡ false)
      → process_loop (suc fuel) q w ≡ (after_failed q top xs, w')
      → Round fuel q w

module _ (fuel : ℕ) (q : OrderedMessageQueue) (w : Wire) where
  heap_pop_root :
      (top : OrderedMessage) (xs : List OrderedMessage)
      → q.waiting_queue ≡ top ∷ xs
      → heap_pop seq_of q.waiting_queue ≡ some (top, popped seq_of top xs)
  heap_pop_root top xs e = ap (heap_pop seq_of) e ∙ heap_pop-cons seq_of top xs

  due-Round :
      (top : OrderedMessage) (xs : List OrderedMessage)
      → q.waiting_queue ≡ top ∷ xs
      → top.server_seq ≡ q.next_expected_seq
      → (callback : Option SendCallback) → q.send_callback ≡ callback
      → Round fuel q w
  unfolding process_loop send_message_directly
  due-Round top xs e d none f =
      round_fails top xs w e refl (λ c g. cc) (ground (arith, heap_pop_root top xs e))
  due-Round top xs e d (some callback) f = elim (Bool-cases (callback w.calls top)) [
    | inl good ↦ round_sends top xs callback e d f good (ground (arith, heap_pop_root top xs e))
    | inr bad ↦
        round_fails top xs (record w { calls = w.calls + 1 }) e refl
          (λ c g. sym (ap (λ k. k w.calls top) (some_inj (sym f ∙ g))) ∙ bad)
          (ground (arith, heap_pop_root top xs e))
  ]

  waiting-Round : (ms : List OrderedMessage) → q.waiting_queue ≡ ms → Round fuel q w
  unfolding process_loop
  waiting-Round [] e = round_ends (settled_empty e) (ground arith)
  waiting-Round (top ∷ xs) e = elim (Bool-cases (eqb top.server_seq q.next_expected_seq)) [
    | inl due ↦ due-Round top xs e (ground arith) q.send_callback refl
    | inr early ↦ round_ends (settled_early top xs e (ground arith)) (ground arith)
  ]

-- Every round is one of the three.
pub round : (fuel : ℕ) (q : OrderedMessageQueue) (w : Wire) → Round fuel q w
round fuel q w = waiting-Round fuel q w q.waiting_queue refl

-- What every send and every failed send keeps, the loop keeps.
module _ {ℓ} (P : OrderedMessageQueue → Wire → Type ℓ)
    (sends : (q : OrderedMessageQueue) (w : Wire) (top : OrderedMessage) (xs : List OrderedMessage)
      → q.waiting_queue ≡ top ∷ xs
      → top.server_seq ≡ q.next_expected_seq
      → P q w
      → P (after_sent q top xs) (logged top w))
    (fails : (q : OrderedMessageQueue) (w w' : Wire) (top : OrderedMessage)
        (xs : List OrderedMessage)
      → q.waiting_queue ≡ top ∷ xs
      → w'.log ≡ w.log
      → P q w
      → P (after_failed q top xs) w') where
  loop_keeps :
      (fuel : ℕ) (q : OrderedMessageQueue) (w : Wire)
      → P q w
      → P (process_loop fuel q w).0 (process_loop fuel q w).1
  unfolding process_loop
  loop_keeps zero q w h = h
  loop_keeps (suc fuel) q w h = elim (round fuel q w) [
    | round_ends _ e ↦ subst (λ r. P r.0 r.1) (sym e) h
    | round_sends top xs _ e d _ _ r ↦
        subst (λ r. P r.0 r.1) (sym r)
          (loop_keeps fuel (after_sent q top xs) (logged top w) (sends q w top xs e d h))
    | round_fails top xs w' e l _ r ↦ subst (λ r. P r.0 r.1) (sym r) (fails q w w' top xs e l h)
  ]

  pub process_keeps :
      (q : OrderedMessageQueue) (w : Wire)
      → P q w
      → P (process_waiting_messages q w).0 (process_waiting_messages q w).1
  unfolding process_waiting_messages
  process_keeps q w h = loop_keeps (length q.waiting_queue) q w h
