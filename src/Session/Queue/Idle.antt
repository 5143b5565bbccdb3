-- ===== src/Session/Queue/Idle.antt =====
-- A queue with nothing waiting sends the message that is due at once.
use gateway_test.Session.Queue.Rounds.{logged}
use gateway_test.Session.Queue.{
  mark_sent, new_message, Wire, OrderedMessageQueue, enqueue_message, send_message_directly,
  process_waiting_messages,
}
use gateway_test.Prelude.{
  ℕ, ◌+◌, ◌<◌, ◌≡◌, refl, ap, false, none, some, List, [], ◌∷◌, arith, nat_eq, string_eq, length,
  u64_mod, pos_part,
}
use gateway_test.Proto.{ServerPush}
use gateway_test.Session.Queue.Progress.{succeeds}

-- The message `n` is due, nothing waits, and nothing keeps it back.
pub record IsIdle (n : ℕ) (q : OrderedMessageQueue) : Type 0 where
  pub empty : q.waiting_queue ≡ []
  pub live : q.stopped ≡ false
  pub good : q.send_callback ≡ some succeeds
  pub room : 0 < pos_part q.max_queue_size
  pub due : q.next_expected_seq ≡ n

enqueue_idle_result :
    (n : ℕ) (push : ServerPush) (bytes : List ℕ) (now : ℕ) (q : OrderedMessageQueue) (w : Wire)
    → IsIdle n q
    → let msg = new_message n push bytes now in
      enqueue_message n push bytes now q w ≡ (mark_sent q msg, logged msg w, none)
unfolding enqueue_message send_message_directly process_waiting_messages
enqueue_idle_result n push bytes now q w v = ground (arith, ap length v.empty)

pub enqueue-IsIdle :
    (n : ℕ) (push : ServerPush) (bytes : List ℕ) (now : ℕ) (q : OrderedMessageQueue) (w : Wire)
    → n + 1 < u64_mod
    → IsIdle n q
    → let r = enqueue_message n push bytes now q w in
      IsIdle (n + 1) r.0 × (r.1.log ≡ new_message n push bytes now ∷ w.log) × (r.2 ≡ none)
enqueue-IsIdle n push bytes now q w small v = rw (enqueue_idle_result n push bytes now q w v) (
  record {
    empty = v.empty;
    live = v.live;
    good = v.good;
    room = v.room;
    due = omega (arith, v.due);
  },
  refl,
  refl,
)
