-- ===== src/Session/Send/Bodies.antt =====
-- What a session sends for a request: the bodies, and the numbers they get.
use gateway_test.Session.Ordering.{
  get_and_remove_before_notifies, get_and_remove_after_notifies, MessageOrderingManager,
  NotifyBindMsgItem,
}
use gateway_test.Prelude.Dict.{Dict}
use gateway_test.Prelude.{
  ℕ, suc, ◌+◌, String, ◌≡◌, refl, sym, ap, ◌∙◌, Option, none, some, List, [], ◌∷◌, ◌++◌, map, arith,
  nat_eq, string_eq, length, length-append,
}
use native.Mathlib.Nat.{add-zero}
use gateway_test.Session.Send.{SendFault, World, Outcome}
use gateway_test.Session.Queue.Idle.{IsIdle}
use gateway_test.Session.Queue.{OrderedMessageQueue}
use gateway_test.Session.State.{Session}
use gateway_test.Proto.{ServerPush, push_business_data}

-- What one business push carries, apart from its number.
pub record Body : Type 0 where
  pub payload : List ℕ
  pub headers : Dict String String

abbrev pub push_of : ℕ → Body → ServerPush
push_of n b = record {
  msg_id = 0;
  seq_id = n;
  push_type = push_business_data;
  payload = b.payload;
  headers = b.headers;
}

-- The pushes of the bodies under the numbers n, n + 1, …, put before `log` newest first.
abbrev pub numbered : ℕ → List Body → List ServerPush → List ServerPush
numbered n [] log = log
numbered n (b ∷ bs) log = numbered (n + 1) bs (push_of n b ∷ log)

abbrev pub pushes : World → List ServerPush
pushes w = map (λ m. m.push) w.wire.log

abbrev pub body_of : NotifyBindMsgItem → Body
body_of item = record { payload = item.notify_data; headers = item.metadata }

-- An empty response is not sent.
abbrev pub response_body : List ℕ → List Body
response_body [] = []
response_body (b ∷ bytes) = record { payload = b ∷ bytes; headers = [] } ∷ []

-- What `proc_with_notify_binds` has to send, and the notifies that stay bound.
abbrev pub request_bodies : ℕ → List ℕ → MessageOrderingManager → List Body
request_bodies grid response m =
    let (before, m') = get_and_remove_before_notifies grid m in
    let (after, _) = get_and_remove_after_notifies grid m' in
    map body_of before ++ (response_body response ++ map body_of after)

abbrev pub still_bound : ℕ → MessageOrderingManager → MessageOrderingManager
still_bound grid m =
    (get_and_remove_after_notifies grid (get_and_remove_before_notifies grid m).1).1

-- The queue is idle, and due for the session's next number.
pub record IsReady (s : Session) : Type 0 where
  pub queue : OrderedMessageQueue
  pub has_queue : s.ordered_queue ≡ some queue
  pub idle : IsIdle (s.server_seq + 1) queue

numbered-append :
    (n : ℕ) (bs cs : List Body) (log : List ServerPush)
    → numbered n (bs ++ cs) log ≡ numbered (n + length bs) cs (numbered n bs log)
numbered-append n [] cs log = rw add-zero
numbered-append n (b ∷ bs) cs log =
    numbered-append (n + 1) bs cs (push_of n b ∷ log)
    ∙ ap (λ k. numbered k cs (numbered (n + 1) bs (push_of n b ∷ log))) (omega arith)

pub length-map : {A B : Type 0} (f : A → B) (xs : List A) → length (map f xs) ≡ length xs
length-map f [] = refl
length-map f (x ∷ xs) = ap suc (length-map f xs)

pub request_length :
    (grid : ℕ) (response : List ℕ) (m : MessageOrderingManager)
    → let (before, m') = get_and_remove_before_notifies grid m in
      let (after, _) = get_and_remove_after_notifies grid m' in
      length (request_bodies grid response m)
      ≡ length before + (length (response_body response) + length after)
request_length grid response m =
    let (before, m') = get_and_remove_before_notifies grid m in
    let (after, _) = get_and_remove_after_notifies grid m' in
    omega (
      arith,
      length-append (map body_of before) (response_body response ++ map body_of after),
      length-append (response_body response) (map body_of after),
      length-map body_of before,
      length-map body_of after,
    )

-- A step of the session that sends the given bodies, in order, without a fault.
pub record Sends (bs : List Body) (s : Session) (w : World) (r : Outcome SendFault) : Type 0 where
  pub ready : IsReady r.0
  pub counted : r.0.server_seq ≡ s.server_seq + length bs
  pub in_order : pushes r.1 ≡ numbered (s.server_seq + 1) bs (pushes w)
  pub manager : r.0.ordering_manager ≡ s.ordering_manager
  pub no_fault : r.2 ≡ none

pub send_nothing : (s : Session) (w : World) → IsReady s → Sends [] s w (s, w, none)
send_nothing s w v = record {
  ready = v;
  counted = omega arith;
  in_order = refl;
  manager = refl;
  no_fault = refl;
}

pub Sends-append :
    (bs cs : List Body) (s : Session) (w : World) (r t : Outcome SendFault)
    → Sends bs s w r
    → Sends cs r.0 r.1 t
    → Sends (bs ++ cs) s w t
Sends-append bs cs s w r t first second = record {
  ready = second.ready;
  counted = omega (arith, first.counted, second.counted, length-append bs cs);
  in_order =
      second.in_order
      ∙ ap (λ n. numbered (n + 1) cs (pushes r.1)) first.counted
      ∙ ap (numbered (s.server_seq + length bs + 1) cs) first.in_order
      ∙ ap (λ n. numbered n cs (numbered (s.server_seq + 1) bs (pushes w))) (omega arith)
      ∙ sym (numbered-append (s.server_seq + 1) bs cs (pushes w));
  manager = second.manager ∙ first.manager;
  no_fault = second.no_fault;
}

-- The bound notifies can be exchanged at both ends.
pub Sends-manager :
    (o : Option MessageOrderingManager) (bs : List Body) (s : Session) (w : World)
    (r : Outcome SendFault)
    → Sends bs s w r
    → Sends bs (record s { ordering_manager = o }) w (record r.0 { ordering_manager = o }, r.1, r.2)
Sends-manager o bs s w r v = record {
  ready = record { queue = v.ready.queue; has_queue = v.ready.has_queue; idle = v.ready.idle };
  counted = v.counted;
  in_order = v.in_order;
  manager = refl;
  no_fault = v.no_fault;
}
