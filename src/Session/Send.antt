-- ===== src/Session/Send.antt =====
-- internal/session/session.go: the notifies and responses that a session sends. `marshal_push` and
-- `marshal_request` stand for protobuf.Marshal, where `none` is an error, and `write` for the
-- outcome of the n-th write on the stream.
pub mod Bodies
pub mod Sequence
pub mod Binding
mod Tests
use gateway_test.Proto.{
  after_response, before_response, NotifySyncHint, ServerPush, UnicastPushRequest,
  push_business_data,
}
use gateway_test.Session.Ordering.{
  add_notify_bind_after_rsp, add_notify_bind_before_rsp, cleanup_expired_notifies,
  get_and_remove_after_notifies, get_and_remove_before_notifies, MessageOrderingManager,
  NotifyBindMsgItem,
}
use gateway_test.Session.Queue.{enqueue_message, OrderedMessageQueue, Wire, QueueError}
use gateway_test.Session.State.{new_server_seq, Session, update_activity}
use gateway_test.Prelude.{
  ℕ, ◌+◌, refl, Bool, true, false, Option, none, some, List, [], ◌∷◌, arith, eqb, if◌then◌else◌,
  nat_eq, string_eq, length, u32, ℤ, is_some,
}

-- What a session does to the world: the queue's callbacks, and writes that bypass the queue.
pub record World : Type 0 where
  pub wire : Wire
  pub writes : ℕ
  pub stream_log : List ServerPush

pub data SendFault : Type 0 where
  marshal_failed stream_is_nil write_failed : SendFault
  enqueue_failed : QueueError → SendFault

pub data NotifyError : Type 0 where
  invalid_request notify_marshal_failed bind_id_required bind_failed : NotifyError
  notify_send_failed : SendFault → NotifyError

-- A result with the session and the world after it.
abbrev pub Outcome : Type 0 → Type 0
Outcome E = Session × World × Option E

module _ (marshal_push : ServerPush → Option (List ℕ)) (write : ℕ → List ℕ → Bool) (now : ℕ) where
  -- sendMessageDirectly, once the push is marshalled.
  write_direct : Option (List ℕ) → ServerPush → Session → World → Outcome SendFault
  write_direct none push s w = (s, w, some marshal_failed)
  write_direct (some bytes) push s w =
      let s' = update_activity now s in
      let w' = record w { writes = w.writes + 1 } in
      if write w.writes bytes
      then (s', record w' { stream_log = push ∷ w.stream_log }, none)
      else (s', w', some write_failed)

  send_message_directly : ServerPush → Session → World → Outcome SendFault
  unfolding write_direct
  send_message_directly push s w =
      if s.has_stream then write_direct (marshal_push push) push s w else (s, w, some stream_is_nil)

  abbrev pub queue_fault : Option QueueError → Option SendFault
  queue_fault none = none
  queue_fault (some e) = some (enqueue_failed e)

  enqueue_bytes :
      Option (List ℕ) → ServerPush → OrderedMessageQueue → Session → World → Outcome SendFault
  enqueue_bytes none push q s w = (s, w, some marshal_failed)
  enqueue_bytes (some bytes) push q s w =
      let (q', wire', e) = enqueue_message push.seq_id push bytes now q w.wire in
      (record s { ordered_queue = some q' }, record w { wire = wire' }, queue_fault e)

  send_queued : Option OrderedMessageQueue → ServerPush → Session → World → Outcome SendFault
  unfolding enqueue_bytes send_message_directly
  send_queued none push s w = send_message_directly push s w
  send_queued (some q) push s w = enqueue_bytes (marshal_push push) push q s w

  -- `if s.orderedQueue != nil { … EnqueueMessage … } return s.sendMessageDirectly(…)`
  pub send_push : ServerPush → Session → World → Outcome SendFault
  unfolding send_queued
  send_push push s w = send_queued s.ordered_queue push s w

  abbrev business_push : ℕ → NotifyBindMsgItem → ServerPush
  business_push seq item = record {
    msg_id = 0;
    seq_id = seq;
    push_type = push_business_data;
    payload = item.notify_data;
    headers = item.metadata;
  }

  pub send_notify_with_seq : NotifyBindMsgItem → ℕ → Session → World → Outcome SendFault
  send_notify_with_seq item server_seq s w = send_push (business_push server_seq item) s w

  pub send_notify_immediately : NotifyBindMsgItem → Session → World → Outcome SendFault
  send_notify_immediately item s w =
      let (s', seq) = new_server_seq s in send_push (business_push seq item) s' w

  pub send_response : List ℕ → Session → World → Outcome SendFault
  send_response response_data s w =
      let (s', seq) = new_server_seq s in
      let push : ServerPush = record {
        msg_id = 0;
        seq_id = seq;
        push_type = push_business_data;
        payload = response_data;
        headers = [];
      } in
      if eqb (length response_data) 0 then (s, w, none) else send_push push s' w

  -- The loop over the notifies of one request; the first failure ends it.
  pub send_items : List NotifyBindMsgItem → Session → World → Outcome SendFault
  send_items [] s w = (s, w, none)
  send_items (item ∷ items) s w =
      let (s', seq) = new_server_seq s in
      let r = send_notify_with_seq item seq s' w in
      let rest = send_items items r.0 r.1 in if is_some r.2 then r else rest

  before_items : Option MessageOrderingManager → ℕ → Session → World → Outcome SendFault
  before_items none grid s w = (s, w, none)
  before_items (some m) grid s w =
      let (items, m') = get_and_remove_before_notifies grid m in
      send_items items (record s { ordering_manager = some m' }) w

  after_items : Option MessageOrderingManager → ℕ → Session → World → Outcome SendFault
  after_items none grid s w = (s, w, none)
  after_items (some m) grid s w =
      let (items, m') = get_and_remove_after_notifies grid m in
      send_items items (record s { ordering_manager = some m' }) w

  pub send_before_notifies : ℕ → Session → World → Outcome SendFault
  unfolding before_items
  send_before_notifies grid s w = before_items s.ordering_manager grid s w

  pub send_after_notifies : ℕ → Session → World → Outcome SendFault
  unfolding after_items
  send_after_notifies grid s w = after_items s.ordering_manager grid s w

  -- `if err := f(); err != nil { return err }`, then the next step.
  abbrev pub then_send :
      Outcome SendFault → (Session → World → Outcome SendFault) → Outcome SendFault
  then_send (s, w, some e) next = (s, w, some e)
  then_send (s, w, none) next = next s w

  pub proc_with_notify_binds : List ℕ → ℕ → Session → World → Outcome SendFault
  proc_with_notify_binds response_data grid s w =
      then_send (send_before_notifies grid s w)
        λ s w. then_send (send_response response_data s w) λ s w. send_after_notifies grid s w

  -- The bind branches, after `uint32(notifyReq.BindClientSeqId)`.
  abbrev bind_result : Session → World → MessageOrderingManager × Bool → Outcome NotifyError
  bind_result s w (m, true) = (record s { ordering_manager = some m }, w, none)
  bind_result s w (m, false) = (record s { ordering_manager = some m }, w, some bind_failed)

  bind_with :
      (ℕ → Option NotifyBindMsgItem → MessageOrderingManager → MessageOrderingManager × Bool)
      → Option MessageOrderingManager
      → ℕ
      → NotifyBindMsgItem
      → Session
      → World
      → Outcome NotifyError
  bind_with add none grid item s w = (s, w, some bind_failed)
  bind_with add (some m) grid item s w = bind_result s w (add grid (some item) m)

  bind_checked :
      (ℕ → Option NotifyBindMsgItem → MessageOrderingManager → MessageOrderingManager × Bool)
      → ℕ
      → NotifyBindMsgItem
      → Session
      → World
      → Outcome NotifyError
  unfolding bind_with
  bind_checked add grid item s w =
      if eqb grid 0
      then (s, w, some bind_id_required)
      else bind_with add s.ordering_manager grid item s w

  abbrev notify_fault : Outcome SendFault → Outcome NotifyError
  notify_fault (s, w, none) = (s, w, none)
  notify_fault (s, w, some e) = (s, w, some (notify_send_failed e))

  by_hint : NotifySyncHint → ℕ → NotifyBindMsgItem → Session → World → Outcome NotifyError
  unfolding bind_checked
  by_hint before_response grid item s w = bind_checked add_notify_bind_before_rsp grid item s w
  by_hint after_response grid item s w = bind_checked add_notify_bind_after_rsp grid item s w
  by_hint _ grid item s w = notify_fault (send_notify_immediately item s w)

  module _ (marshal_request : UnicastPushRequest → Option (List ℕ)) (unix_now : ℤ) where
    marshalled_notify : Option (List ℕ) → UnicastPushRequest → Session → World → Outcome NotifyError
    unfolding by_hint
    marshalled_notify none req s w = (s, w, some notify_marshal_failed)
    marshalled_notify (some bytes) req s w =
        let item : NotifyBindMsgItem = record {
          notify_data = bytes;
          msg_type = req.msg_type;
          title = req.title;
          content = req.content;
          metadata = req.metadata;
          sync_hint = req.sync_hint;
          bind_grid = u32 req.bind_client_seq_id;
          create_time = unix_now;
        } in
        by_hint req.sync_hint (u32 req.bind_client_seq_id) item s w

    pub process_notify : Option UnicastPushRequest → Session → World → Outcome NotifyError
    unfolding marshalled_notify
    process_notify none s w = (s, w, some invalid_request)
    process_notify (some req) s w = marshalled_notify (marshal_request req) req s w

-- CleanupExpiredBindNotifies, with the time of the clock.
cleanup_bound : ℤ → ℤ → Option MessageOrderingManager → Option MessageOrderingManager × ℕ
cleanup_bound unix_now max_age none = (none, 0)
cleanup_bound unix_now max_age (some m) =
    let (m', cleaned) = cleanup_expired_notifies unix_now max_age m in (some m', cleaned)

pub cleanup_expired_bind_notifies : ℤ → ℤ → Session → Session × ℕ
unfolding cleanup_bound
cleanup_expired_bind_notifies unix_now max_age s =
    let (m, cleaned) = cleanup_bound unix_now max_age s.ordering_manager in
    (record s { ordering_manager = m }, cleaned)
