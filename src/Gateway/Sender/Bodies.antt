-- ===== src/Gateway/Sender/Bodies.antt =====
-- What a session with nothing waiting sends, body by body.
use gateway_test.Prelude.{
  ℕ, subst, ◌+◌, ◌<◌, ◌≡◌, refl, sym, ap, ◌∙◌, inr, true, false, none, some, List, [], ◌∷◌, map,
  arith, nat_eq, string_eq, u64_mod, u64, pos_part,
}
use gateway_test.Message.Create.{encode_server_push}
use gateway_test.Proto.{ServerPush}
use gateway_test.Session.Queue.{
  OrderedMessage, OrderedMessageQueue, Wire, set_send_callback, enqueue_message,
}
use gateway_test.Session.Queue.Progress.{succeeds}
use gateway_test.Session.Queue.Idle.{IsIdle, enqueue-IsIdle}
use gateway_test.Session.State.{Session, new_server_seq}
use gateway_test.Gateway.Sender.{
  SenderEnv, Sent, send_ordered_message, enqueue_encoded, enqueue_in, sender_fault, callback_of,
}

-- The payloads of a log, newest first.
abbrev pub bodies : List OrderedMessage → List (List ℕ)
bodies log = map (λ m. m.push.payload) log

-- Entries that are sent one after the other onto a log.
abbrev pub sent_onto : List (List ℕ) → List (List ℕ) → List (List ℕ)
sent_onto [] log = log
sent_onto (x ∷ xs) log = sent_onto xs (x ∷ log)

-- Every push can be encoded, and every write succeeds.
pub record IsOpen (env : SenderEnv) : Type 0 where
  pub writes : env.write ≡ (λ _ _. true)
  pub encodes :
      (push : ServerPush)
      → (bytes : List ℕ) × (encode_server_push env.formats.server_push push ≡ inr bytes)

-- The session is open, its queue has nothing waiting, and the number `n` is the next.
pub record IsReady (n : ℕ) (s : Session) : Type 0 where
  pub queue : OrderedMessageQueue
  pub holds : s.ordered_queue ≡ some queue
  pub empty : queue.waiting_queue ≡ []
  pub live : queue.stopped ≡ false
  pub room : 0 < pos_part queue.max_queue_size
  pub due : queue.next_expected_seq ≡ n
  pub number : s.server_seq + 1 ≡ n
  pub unclosed : s.closed ≡ false

-- A send that succeeds with one body, and leaves the notifies alone.
pub record Puts (n : ℕ) (body : List ℕ) (s : Session) (w : Wire) (r : Sent) : Type 0 where
  pub ready : IsReady (n + 1) r.0
  pub sent : bodies r.1.log ≡ body ∷ bodies w.log
  pub fine : r.2 ≡ none
  pub notifies : r.0.ordering_manager ≡ s.ordering_manager

module _ (env : SenderEnv) (open_env : IsOpen env) where
  good_callback : (s : Session) → s.closed ≡ false → callback_of env s ≡ succeeds
  good_callback s unclosed = rw (open_env.writes, unclosed) refl

  no_send :
      (n : ℕ) (s : Session) (q : OrderedMessageQueue)
      → s.closed ≡ false
      → q.waiting_queue ≡ []
      → q.stopped ≡ false
      → 0 < pos_part q.max_queue_size
      → q.next_expected_seq ≡ n
      → IsIdle n (set_send_callback (callback_of env s) q)
  unfolding set_send_callback
  no_send n s q unclosed empty live room due = record {
    empty = empty;
    live = live;
    good = ap some (good_callback s unclosed);
    room = room;
    due = due;
  }

  enqueue-Puts :
      (push : ServerPush) (bytes : List ℕ) (s : Session) (w : Wire) (q : OrderedMessageQueue)
      → push.seq_id + 1 < u64_mod
      → IsIdle push.seq_id (set_send_callback (callback_of env s) q)
      → s.server_seq ≡ push.seq_id
      → s.closed ≡ false
      → Puts push.seq_id push.payload s w (enqueue_in env (some q) push bytes s w)
  unfolding enqueue_in
  enqueue-Puts push bytes s w q small idle number unclosed =
      let q0 = set_send_callback (callback_of env s) q in
      let (idle', log, fine) = enqueue-IsIdle push.seq_id push bytes env.now q0 w small idle in
      record {
        ready = record {
          queue = (enqueue_message push.seq_id push bytes env.now q0 w).0;
          holds = refl;
          empty = idle'.empty;
          live = idle'.live;
          room = idle'.room;
          due = idle'.due;
          number = ap (λ (k : ℕ). k + 1) number;
          unclosed = unclosed;
        };
        sent = ap bodies log;
        fine = ap (sender_fault env) fine;
        notifies = refl;
      }

  encoded-Puts :
      (push : ServerPush) (s : Session) (w : Wire) (q : OrderedMessageQueue)
      → push.seq_id + 1 < u64_mod
      → s.ordered_queue ≡ some q
      → IsIdle push.seq_id (set_send_callback (callback_of env s) q)
      → s.server_seq ≡ push.seq_id
      → s.closed ≡ false
      → Puts push.seq_id push.payload s w
          (enqueue_encoded env (encode_server_push env.formats.server_push push) push s w)
  unfolding enqueue_encoded
  encoded-Puts push s w q small holds idle number unclosed =
      let (bytes, encoded) = open_env.encodes push in
      subst (λ e. Puts push.seq_id push.payload s w (enqueue_encoded env e push s w)) (sym encoded)
        (subst (λ o. Puts push.seq_id push.payload s w (enqueue_in env o push bytes s w))
          (sym holds) (enqueue-Puts push bytes s w q small idle number unclosed))

  pub send-Puts :
      (n : ℕ) (push : ServerPush) (s : Session) (w : Wire)
      → n + 1 < u64_mod
      → IsReady n s
      → Puts n push.payload s w (send_ordered_message env push s w)
  unfolding send_ordered_message new_server_seq
  send-Puts n push s w small v =
      let s' = record s { server_seq = u64 (s.server_seq + 1) } in
      let numbered = record push { seq_id = u64 (s.server_seq + 1) } in
      let same : u64 (s.server_seq + 1) ≡ n = omega (arith, v.number) in
      let r =
        enqueue_encoded env (encode_server_push env.formats.server_push numbered) numbered s' w in
      let puts : Puts (u64 (s.server_seq + 1)) push.payload s' w r =
        encoded-Puts numbered s' w v.queue (omega (arith, same)) v.holds
          (no_send (u64 (s.server_seq + 1)) s' v.queue v.unclosed v.empty v.live v.room
            (v.due ∙ sym same))
          refl v.unclosed in
      record {
        ready = subst (λ k. IsReady (k + 1) r.0) same puts.ready;
        sent = puts.sent;
        fine = puts.fine;
        notifies = puts.notifies;
      }
