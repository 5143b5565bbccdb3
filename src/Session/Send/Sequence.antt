-- ===== src/Session/Send/Sequence.antt =====
-- The order and the numbers of what a session sends for one request.
use gateway_test.Session.Send.Bodies.{
  Sends-manager, Sends-append, length-map, request_length, send_nothing, still_bound, response_body,
  push_of, body_of, request_bodies, Sends, Body, IsReady,
}
use gateway_test.Prelude.{
  ℕ, subst, ◌+◌, ◌<◌, ◌≡◌, refl, sym, ap, ◌∙◌, Bool, false, none, some, List, [], ◌∷◌, ◌++◌, map,
  arith, eqb, nat_eq, string_eq, length, u64_mod, u64,
}
use gateway_test.Session.Send.{
  SendFault, World, Outcome, send_push, send_items, send_response, send_before_notifies,
  send_after_notifies, proc_with_notify_binds, enqueue_bytes, send_queued, queue_fault, then_send,
  send_notify_with_seq, before_items, after_items,
}
use gateway_test.Proto.{ServerPush}
use gateway_test.Session.Queue.{OrderedMessageQueue, enqueue_message}
use gateway_test.Session.Queue.Idle.{IsIdle, enqueue-IsIdle}
use gateway_test.Session.State.{Session, new_server_seq}
use gateway_test.Session.Ordering.{
  NotifyBindMsgItem, MessageOrderingManager, get_and_remove_before_notifies,
  get_and_remove_after_notifies,
}

module _ (marshal : ServerPush → List ℕ) (write : ℕ → List ℕ → Bool) (now : ℕ) where
  send_push_queued :
      (q : OrderedMessageQueue) (push : ServerPush) (s : Session) (w : World)
      → s.ordered_queue ≡ some q
      → send_push (λ p. some (marshal p)) write now push s w
        ≡ enqueue_bytes (λ p. some (marshal p)) write now (some (marshal push)) push q s w
  unfolding send_push
  send_push_queued q push s w e =
      ap (λ o. send_queued (λ p. some (marshal p)) write now o push s w) e

  queued-Sends :
      (b : Body) (q : OrderedMessageQueue) (s : Session) (w : World)
      → s.server_seq + 2 < u64_mod
      → IsIdle (s.server_seq + 1) q
      → let n = s.server_seq + 1 in
        Sends (b ∷ []) s w (
          enqueue_bytes
            (λ p. some (marshal p))
            write
            now
            (some (marshal (push_of n b)))
            (push_of n b)
            q
            (record s { server_seq = n })
            w)
  unfolding enqueue_bytes
  queued-Sends b q s w small v =
      let n = s.server_seq + 1 in
      let push = push_of n b in
      let r = enqueue_message n push (marshal push) now q w.wire in
      let (idle, logged, fine) =
        enqueue-IsIdle n push (marshal push) now q w.wire (omega arith) v in
      record {
        ready = record { queue = r.0; has_queue = refl; idle = idle };
        counted = refl;
        in_order = ap (map (λ m. m.push)) logged;
        manager = refl;
        no_fault = ap (queue_fault (λ p. some (marshal p)) write now) fine;
      }

  send_body-Sends :
      (b : Body) (s : Session) (w : World)
      → s.server_seq + 2 < u64_mod
      → IsReady s
      → let (s', n) = new_server_seq s in
        Sends (b ∷ []) s w (send_push (λ p. some (marshal p)) write now (push_of n b) s' w)
  unfolding new_server_seq
  send_body-Sends b s w small v =
      let same : u64 (s.server_seq + 1) ≡ s.server_seq + 1 = omega arith in
      subst
        (λ n. Sends (b ∷ []) s w (
          send_push (λ p. some (marshal p)) write now (push_of n b) (record s { server_seq = n })
            w))
        (sym same)
        (rw
          (send_push_queued v.queue (push_of (s.server_seq + 1) b)
            (record s { server_seq = s.server_seq + 1 }) w v.has_queue)
          (queued-Sends b v.queue s w small v.idle))

  send_items-Sends :
      (items : List NotifyBindMsgItem) (s : Session) (w : World)
      → s.server_seq + length items + 1 < u64_mod
      → IsReady s
      → Sends (map body_of items) s w (send_items (λ p. some (marshal p)) write now items s w)
  unfolding send_items send_notify_with_seq
  send_items-Sends [] s w small v = send_nothing s w v
  send_items-Sends (item ∷ items) s w small v =
      let (s', n) = new_server_seq s in
      let r = send_push (λ p. some (marshal p)) write now (push_of n (body_of item)) s' w in
      let first = send_body-Sends (body_of item) s w (omega arith) v in
      rw first.no_fault (
        Sends-append (body_of item ∷ []) (map body_of items) s w r
          (send_items (λ p. some (marshal p)) write now items r.0 r.1) first
          (send_items-Sends items r.0 r.1 (omega (arith, first.counted)) first.ready))

  send_response-Sends :
      (response : List ℕ) (s : Session) (w : World)
      → s.server_seq + 2 < u64_mod
      → IsReady s
      → Sends
          (response_body response)
          s
          w
          (send_response (λ p. some (marshal p)) write now response s w)
  unfolding send_response
  send_response-Sends [] s w small v = send_nothing s w v
  send_response-Sends (b ∷ bytes) s w small v =
      let filled : eqb (length (b ∷ bytes)) 0 ≡ false = ground arith in
      rw filled (send_body-Sends (record { payload = b ∷ bytes; headers = [] }) s w small v)

  then_send-none :
      (r : Outcome SendFault) (next : Session → World → Outcome SendFault)
      → r.2 ≡ none
      → then_send (λ p. some (marshal p)) write now r next ≡ next r.0 r.1
  then_send-none (s, w, none) next e = refl
  then_send-none (s, w, some x) next e = ground (arith, e)

  before-Sends :
      (grid : ℕ) (m : MessageOrderingManager) (s : Session) (w : World)
      → s.ordering_manager ≡ some m
      → IsReady s
      → let (items, m') = get_and_remove_before_notifies grid m in
        (s.server_seq + length items + 1 < u64_mod)
        → Sends
            (map body_of items)
            (record s { ordering_manager = some m' })
            w
            (send_before_notifies (λ p. some (marshal p)) write now grid s w)
  unfolding send_before_notifies
  before-Sends grid m s w e v small =
      let (items, m') = get_and_remove_before_notifies grid m in
      subst
        (λ o.
          Sends (map body_of items) (record s { ordering_manager = some m' }) w
            (before_items (λ p. some (marshal p)) write now o grid s w))
        (sym e)
        (send_items-Sends items (record s { ordering_manager = some m' }) w small
          (record { queue = v.queue; has_queue = v.has_queue; idle = v.idle }))

  after-Sends :
      (grid : ℕ) (m : MessageOrderingManager) (s : Session) (w : World)
      → s.ordering_manager ≡ some m
      → IsReady s
      → let (items, m') = get_and_remove_after_notifies grid m in
        (s.server_seq + length items + 1 < u64_mod)
        → Sends
            (map body_of items)
            (record s { ordering_manager = some m' })
            w
            (send_after_notifies (λ p. some (marshal p)) write now grid s w)
  unfolding send_after_notifies
  after-Sends grid m s w e v small =
      let (items, m') = get_and_remove_after_notifies grid m in
      subst
        (λ o.
          Sends (map body_of items) (record s { ordering_manager = some m' }) w
            (after_items (λ p. some (marshal p)) write now o grid s w))
        (sym e)
        (send_items-Sends items (record s { ordering_manager = some m' }) w small
          (record { queue = v.queue; has_queue = v.has_queue; idle = v.idle }))

  -- Where marshalling succeeds and the session's queue has sent all it was given, a request sends
  -- its bound notifies and its response: the notifies bound before it, the response unless it is
  -- empty, then those bound after it, in the order in which they were bound, under consecutive
  -- numbers that follow the last one used, without a fault. The queue is then ready for the next
  -- request, and exactly the notifies of this request are no longer bound.
  pub proc_with_notify_binds-in_order :
      (response : List ℕ) (grid : ℕ) (m : MessageOrderingManager) (s : Session) (w : World)
      → s.ordering_manager ≡ some m
      → IsReady s
      → s.server_seq + length (request_bodies grid response m) + 2 < u64_mod
      → Sends
          (request_bodies grid response m)
          (record s { ordering_manager = some (still_bound grid m) })
          w
          (proc_with_notify_binds (λ p. some (marshal p)) write now response grid s w)
  unfolding proc_with_notify_binds
  proc_with_notify_binds-in_order response grid m s w e v small =
      let (before, m1) = get_and_remove_before_notifies grid m in
      let (after, m2) = get_and_remove_after_notifies grid m1 in
      let bs = map body_of before in
      let rs = response_body response in
      let cs = map body_of after in
      let total = request_length grid response m in
      let r1 = send_before_notifies (λ p. some (marshal p)) write now grid s w in
      let r2 = send_response (λ p. some (marshal p)) write now response r1.0 r1.1 in
      let r3 = send_after_notifies (λ p. some (marshal p)) write now grid r2.0 r2.1 in
      let first = before-Sends grid m s w e v (omega (arith, total)) in
      let second =
        send_response-Sends response r1.0 r1.1
          (omega (arith, total, first.counted, length-map body_of before)) first.ready in
      let third = after-Sends grid m1 r2.0 r2.1 (second.manager ∙ first.manager) second.ready (
        omega (
          arith,
          total,
          first.counted,
          second.counted,
          length-map body_of before,
          length-map body_of after,
        )) in
      let s' = record s { ordering_manager = some m2 } in
      let r1' : Outcome SendFault = (record r1.0 { ordering_manager = some m2 }, r1.1, r1.2) in
      let r2' : Outcome SendFault = (record r2.0 { ordering_manager = some m2 }, r2.1, r2.2) in
      subst (Sends (bs ++ (rs ++ cs)) s' w)
        (sym (then_send-none r1 _ first.no_fault ∙ then_send-none r2 _ second.no_fault))
        (Sends-append bs (rs ++ cs) s' w r1' r3
          (Sends-manager (some m2) bs (record s { ordering_manager = some m1 }) w r1 first)
          (Sends-append rs cs r1'.0 r1'.1 r2' r3 (Sends-manager (some m2) rs r1.0 r1.1 r2 second)
            third))
