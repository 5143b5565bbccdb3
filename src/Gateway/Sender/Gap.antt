-- ===== src/Gateway/Sender/Gap.antt =====
-- A message that cannot be sent leaves a gap in the numbers.
use gateway_test.Gateway.Sender.{
  SenderError, SenderEnv, Sent, send_ordered_message, enqueue_encoded, enqueue_in, sender_fault,
  callback_of,
}
use gateway_test.Prelude.{
  ℕ, subst, ◌+◌, ◌≤◌, ◌<◌, ◌≡◌, refl, sym, ap, ◌∙◌, ◌≢◌, ◌⊎◌, inl, inr, true, Option, none, some,
  List, [], ◌∷◌, arith, nat_eq, string_eq, length, u64_mod, u64, is_some,
}
use gateway_test.Message.Create.{EncodeError, encode_server_push}
use gateway_test.Proto.{ServerPush}
use gateway_test.Session.Queue.{
  OrderedMessageQueue, QueueError, Wire, enqueue_message, set_send_callback, step, run, enqueues,
  sets_callback,
}
use gateway_test.Session.Queue.Shape.{QueueInv}
use gateway_test.Session.Queue.Invariant.{step-QueueInv}
use gateway_test.Session.Queue.Cases.{enqueue_cases}
use gateway_test.Session.Queue.Blocking.{gap_blocks}
use gateway_test.Session.Queue.Firsts.{firsts}
use gateway_test.Session.State.{Session, new_server_seq}

-- The queue waits for number `n`, and the session has given it out already.
record IsGapped (n : ℕ) (s : Session) (q : OrderedMessageQueue) : Type 0 where
  holds : s.ordered_queue ≡ some q
  good : QueueInv q
  due : q.next_expected_seq ≡ n
  given : n ≤ s.server_seq

-- The queue after one message of the sender, which sets the callback and then enqueues.
abbrev Queued :
    SenderEnv
    → ServerPush
    → List ℕ
    → Session
    → OrderedMessageQueue
    → Wire
    → OrderedMessageQueue × Wire × Option QueueError
Queued env push bytes s q w =
    enqueue_message push.seq_id push bytes env.now (set_send_callback (callback_of env s) q) w

-- The number moves on, the gap stays, and nothing is sent for the first time.
abbrev Stays : ℕ → Session → Wire → Sent → Type 0
Stays n s w r =
    (q' : OrderedMessageQueue) × IsGapped n r.0 q'
    × (r.0.server_seq ≡ s.server_seq)
    × (firsts r.1.log ≡ firsts w.log)

module _ (env : SenderEnv) where
  queued-QueueInv :
      (push : ServerPush) (bytes : List ℕ) (s : Session) (q : OrderedMessageQueue) (w : Wire)
      → QueueInv q
      → QueueInv (Queued env push bytes s q w).0
  unfolding step
  queued-QueueInv push bytes s q w good =
      let set = step-QueueInv (sets_callback (callback_of env s)) q w good in
      step-QueueInv (enqueues push.seq_id push bytes env.now)
        (set_send_callback (callback_of env s) q) w set

  queued_blocks :
      (push : ServerPush) (bytes : List ℕ) (s : Session) (q : OrderedMessageQueue) (w : Wire)
      → QueueInv q
      → q.next_expected_seq < push.seq_id
      → let r = Queued env push bytes s q w in
        (r.0.next_expected_seq ≡ q.next_expected_seq) × (firsts r.1.log ≡ firsts w.log)
  unfolding step run
  queued_blocks push bytes s q w good later =
      gap_blocks (sets_callback (callback_of env s) ∷ enqueues push.seq_id push bytes env.now ∷ [])
        q w good (tt, (later, tt))

  enqueue-Stays :
      (n : ℕ) (push : ServerPush) (bytes : List ℕ) (s : Session) (w : Wire)
      (q : OrderedMessageQueue)
      → QueueInv q
      → q.next_expected_seq ≡ n
      → n ≤ s.server_seq
      → n < push.seq_id
      → Stays n s w (enqueue_in env (some q) push bytes s w)
  unfolding enqueue_in
  enqueue-Stays n push bytes s w q good due given later =
      let (same, silent) = queued_blocks push bytes s q w good (omega (arith, due)) in
      (
        (Queued env push bytes s q w).0,
        record {
          holds = refl;
          good = queued-QueueInv push bytes s q w good;
          due = same ∙ due;
          given = given;
        },
        refl,
        silent,
      )

  encoded-Stays :
      (n : ℕ) (e : EncodeError ⊎ List ℕ) (push : ServerPush) (s : Session) (w : Wire)
      (q : OrderedMessageQueue)
      → IsGapped n s q
      → n < push.seq_id
      → Stays n s w (enqueue_encoded env e push s w)
  unfolding enqueue_encoded
  encoded-Stays n (inl e) push s w q v later = (q, v, refl, refl)
  encoded-Stays n (inr bytes) push s w q v later =
      subst (λ o. Stays n s w (enqueue_in env o push bytes s w)) (sym v.holds)
        (enqueue-Stays n push bytes s w q v.good v.due v.given later)

  -- A send after a gap.
  send-Stays :
      (n : ℕ) (push : ServerPush) (s : Session) (w : Wire) (q : OrderedMessageQueue)
      → IsGapped n s q
      → s.server_seq + 1 < u64_mod
      → let r = send_ordered_message env push s w in
        (q' : OrderedMessageQueue) × IsGapped n r.0 q'
        × (r.0.server_seq ≡ s.server_seq + 1)
        × (firsts r.1.log ≡ firsts w.log)
  unfolding send_ordered_message new_server_seq
  send-Stays n push s w q v small =
      let s' = record s { server_seq = u64 (s.server_seq + 1) } in
      let numbered = record push { seq_id = u64 (s.server_seq + 1) } in
      let v' : IsGapped n s' q = record {
        holds = v.holds;
        good = v.good;
        due = v.due;
        given = omega (arith, v.given);
      } in
      let (q', w', number, silent) =
        encoded-Stays n (encode_server_push env.formats.server_push numbered) numbered s' w q v'
          (omega (arith, v.given)) in
      (q', w', number ∙ omega arith, silent)

  -- A run of sends.
  unfoldable pub send_all : List ServerPush → Session → Wire → Session × Wire
  send_all [] s w = (s, w)
  send_all (push ∷ pushes) s w =
      let r = send_ordered_message env push s w in send_all pushes r.0 r.1

  all_silent :
      (pushes : List ServerPush) (n : ℕ) (s : Session) (w : Wire) (q : OrderedMessageQueue)
      → IsGapped n s q
      → s.server_seq + length pushes < u64_mod
      → firsts (send_all pushes s w).1.log ≡ firsts w.log
  unfolding send_all
  all_silent [] n s w q v small = refl
  all_silent (push ∷ pushes) n s w q v small =
      let (q', v', number, silent) = send-Stays n push s w q v (omega arith) in
      let r = send_ordered_message env push s w in
      all_silent pushes n r.0 r.1 q' v' (omega (arith, number)) ∙ silent

-- An enqueue that fails leaves the queue alone.
refused_enqueue :
    (push : ServerPush) (bytes : List ℕ) (now : ℕ) (q : OrderedMessageQueue) (w : Wire)
    → let r = enqueue_message push.seq_id push bytes now q w in
      is_some r.2 ≡ true → (r.0 ≡ q) × (firsts r.1.log ≡ firsts w.log)
refused_enqueue push bytes now q w =
    enqueue_cases (λ q' w' e. is_some e ≡ true → (q' ≡ q) × (firsts w'.log ≡ firsts w.log))
      push.seq_id push bytes now q w (λ e h. (refl, refl))
      (λ w' e same due h. (refl, ap firsts same)) (λ live due h. absurd (cc))
      (λ live fits later h. absurd (cc))

is_some_of_ne : (o : Option SenderError) → o ≢ none → is_some o ≡ true
is_some_of_ne none d = absurd (d refl)
is_some_of_ne (some e) d = refl

abbrev Fails : Sent → Type 0
Fails r = is_some r.2 ≡ true

module _ (env : SenderEnv) where
  fault_some : (e : Option QueueError) → is_some (sender_fault env e) ≡ true → is_some e ≡ true
  fault_some none h = cc
  fault_some (some e) h = refl

  keeps_rejected :
      (n : ℕ) (push : ServerPush) (bytes : List ℕ) (s : Session) (w : Wire)
      (q : OrderedMessageQueue)
      → IsGapped n s q
      → Fails (enqueue_in env (some q) push bytes s w)
      → Stays n s w (enqueue_in env (some q) push bytes s w)
  unfolding enqueue_in set_send_callback
  keeps_rejected n push bytes s w q v fails =
      let q0 = set_send_callback (callback_of env s) q in
      let r = Queued env push bytes s q w in
      let (kept, silent) = refused_enqueue push bytes env.now q0 w (fault_some r.2 fails) in
      (
        r.0,
        record {
          holds = refl;
          good = queued-QueueInv env push bytes s q w v.good;
          due = ap (λ (k : OrderedMessageQueue). k.next_expected_seq) kept ∙ v.due;
          given = v.given;
        },
        refl,
        silent,
      )

  -- A send that fails, of a message that the queue waits for.
  keeps_unsent :
      (n : ℕ) (e : EncodeError ⊎ List ℕ) (push : ServerPush) (s : Session) (w : Wire)
      (q : OrderedMessageQueue)
      → IsGapped n s q
      → Fails (enqueue_encoded env e push s w)
      → Stays n s w (enqueue_encoded env e push s w)
  unfolding enqueue_encoded
  keeps_unsent n (inl e) push s w q v fails = (q, v, refl, refl)
  keeps_unsent n (inr bytes) push s w q v fails =
      subst (λ o. Stays n s w (enqueue_in env o push bytes s w)) (sym v.holds)
        (keeps_rejected n push bytes s w q v
          (subst (λ o. Fails (enqueue_in env o push bytes s w)) v.holds fails))

-- A defect of the sender: the number is taken before the message is encoded and queued, and is not
-- given back. Where the queue waits for the next number of the session and the send of a message
-- fails, the queue waits for its number for ever: of the messages sent later, none goes out for the
-- first time, while the numbers do not wrap.
pub failed_send-blocks :
    (env : SenderEnv) (push : ServerPush) (pushes : List ServerPush) (s : Session) (w : Wire)
    (q : OrderedMessageQueue)
    → s.ordered_queue ≡ some q
    → QueueInv q
    → q.next_expected_seq ≡ s.server_seq + 1
    → s.server_seq + 1 + length pushes < u64_mod
    → (send_ordered_message env push s w).2 ≢ none
    → let r = send_ordered_message env push s w in
      firsts (send_all env pushes r.0 r.1).1.log ≡ firsts w.log
unfolding send_ordered_message new_server_seq
failed_send-blocks env push pushes s w q holds good due small failed =
    let n = s.server_seq + 1 in
    let s' = record s { server_seq = u64 n } in
    let numbered = record push { seq_id = u64 n } in
    let v : IsGapped n s' q = record {
      holds = holds;
      good = good;
      due = due;
      given = omega arith;
    } in
    let e = encode_server_push env.formats.server_push numbered in
    let r = enqueue_encoded env e numbered s' w in
    let (q', v', number, silent) =
      keeps_unsent env n e numbered s' w q v (is_some_of_ne r.2 failed) in
    all_silent env pushes n r.0 r.1 q' v' (omega (arith, number)) ∙ silent
