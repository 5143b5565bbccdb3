-- ===== src/Backup/Sync/Orderly.antt =====
-- Every method and every turn of the loops keeps the stream in order.
use gateway_test.Backup.Sync.{
  empty_log, new_sync_service_with_addr, SyncError, SyncService, SyncLog, Peer, offer,
  process_received, process_receive, process_tick, process_done, try_connect, manage_connection,
  close_connection, cancel_loops, close_stream, sync_session, sync_queue_state, sync_messages,
  delete_session, full_sync, send_unless_empty, is_due,
}
use gateway_test.Backup.Records.{SyncConfig, SyncMessage, SyncPayload}
use gateway_test.Prelude.{
  ℕ, ◌<◌, String, ◌≡◌, refl, sym, ap, ◌∙◌, inl, inr, Bool, not, ◌||◌, Option, List, [], ◌∷◌, ◌++◌,
  arith, eqb, Bool-cases, nat_eq, string_eq, length, length-append, ℤ, pos_part, if_both,
}
use mathlib.Core.List.{append_assoc}
use gateway_test.Backup.Sync.Batches.{
  SyncStep, sync_step, sync_run, firsts_of, IsOrderly, send_batch-IsOrderly,
}

offer-IsOrderly :
    (msg : SyncMessage) (s : SyncService) (l : SyncLog)
    → IsOrderly (s, l)
    → IsOrderly (offer msg (s, l)).0
unfolding offer
offer-IsOrderly msg s l v =
    let moved : l.accepted ++ msg ∷ []
        ≡ firsts_of l.handled ++ (s.batch ++ (s.sync_chan ++ msg ∷ [])) =
      ap (λ h. h ++ msg ∷ []) v.conserved
      ∙ append_assoc (firsts_of l.handled) (s.batch ++ s.sync_chan) (msg ∷ [])
      ∙ ap (λ h. firsts_of l.handled ++ h) (append_assoc s.batch s.sync_chan (msg ∷ [])) in
    record {
      conserved = ground (arith, v.conserved, moved);
      within = ground (arith, v.within, length-append s.sync_chan (msg ∷ []));
      small = ground (arith, v.small);
    }

module _ (peer : Peer) (now latency : ℤ) where
  send_unless_empty-IsOrderly :
      (s : SyncService) (l : SyncLog)
      → IsOrderly (s, l)
      → IsOrderly (send_unless_empty peer now latency (s, l))
  send_unless_empty-IsOrderly s l v =
      if_both IsOrderly (eqb (length s.batch) 0) v
        (send_batch-IsOrderly peer now latency s l v.conserved v.within (omega (arith, v.small))).0

  received-IsOrderly :
      (msgs : List SyncMessage) (s : SyncService) (l : SyncLog)
      → s.sync_chan ≡ msgs
      → IsOrderly (s, l)
      → IsOrderly (process_received peer now latency msgs (s, l))
  unfolding process_received
  received-IsOrderly [] s l e v = record {
    conserved = ground (arith, v.conserved);
    within = ground (arith, v.within);
    small = ground (arith, v.small);
  }
  received-IsOrderly (msg ∷ msgs) s l e v =
      let s' = record s { sync_chan = msgs; batch = s.batch ++ msg ∷ [] } in
      let moved : l.accepted ≡ firsts_of l.handled ++ ((s.batch ++ msg ∷ []) ++ msgs) =
        v.conserved
        ∙ ap (λ c. firsts_of l.handled ++ (s.batch ++ c)) e
        ∙ ap (λ c. firsts_of l.handled ++ c) (sym (append_assoc s.batch (msg ∷ []) msgs)) in
      let short = ap length e in
      elim (Bool-cases (is_due msg s')) [
        | inl due ↦
            rw due
              (send_batch-IsOrderly peer now latency s' l moved (omega (arith, v.within, short))
                (omega (arith, v.small))).0
        | inr early ↦ rw early (record {
          conserved = moved;
          within = omega (arith, v.within, short);
          small = ground (arith, length-append s.batch (msg ∷ []), early);
        })
      ]

  receive-IsOrderly :
      (s : SyncService) (l : SyncLog)
      → IsOrderly (s, l)
      → IsOrderly (process_receive peer now latency (s, l))
  unfolding process_receive
  receive-IsOrderly s l v =
      if_both IsOrderly s.finished v (received-IsOrderly s.sync_chan s l refl v)

  tick-IsOrderly :
      (s : SyncService) (l : SyncLog)
      → IsOrderly (s, l)
      → IsOrderly (process_tick peer now latency (s, l))
  unfolding process_tick
  tick-IsOrderly s l v = if_both IsOrderly s.finished v (send_unless_empty-IsOrderly s l v)

  done-IsOrderly :
      (s : SyncService) (l : SyncLog)
      → IsOrderly (s, l)
      → IsOrderly (process_done peer now latency (s, l))
  unfolding process_done
  done-IsOrderly s l v =
      let w = send_unless_empty-IsOrderly s l v in
      if_both IsOrderly (s.finished || not s.stopped) v
        (record { conserved = w.conserved; within = w.within; small = w.small })

manage-IsOrderly :
    (dialled : Bool) (s : SyncService) (l : SyncLog)
    → IsOrderly (s, l)
    → IsOrderly (manage_connection dialled s, l)
unfolding manage_connection try_connect
manage-IsOrderly dialled s l v = record {
  conserved = ground (arith, v.conserved);
  within = ground (arith, v.within);
  small = ground (arith, v.small);
}

close-IsOrderly : (s : SyncService) (l : SyncLog) → IsOrderly (s, l) → IsOrderly (close_stream s, l)
unfolding close_stream close_connection
close-IsOrderly s l v = record {
  conserved = ground (arith, v.conserved);
  within = ground (arith, v.within);
  small = ground (arith, v.small);
}

abbrev Leaves : (SyncService × SyncLog) × Option SyncError → Type 0
Leaves r = IsOrderly r.0

module _ (calculate_checksum : SyncPayload → ℕ) (peer : Peer) where
  step-IsOrderly :
      (c : SyncStep) (s : SyncService) (l : SyncLog)
      → IsOrderly (s, l)
      → IsOrderly (sync_step calculate_checksum peer c (s, l))
  unfolding sync_step cancel_loops sync_session sync_queue_state sync_messages delete_session
      full_sync
  step-IsOrderly (SyncStep.syncs_session now id sess) s l v =
      if_both Leaves (not s.connected) v (offer-IsOrderly _ s l v)
  step-IsOrderly (SyncStep.syncs_queue now id meta) s l v =
      if_both Leaves (not s.connected) v (offer-IsOrderly _ s l v)
  step-IsOrderly (SyncStep.syncs_messages now id msgs) s l v =
      if_both Leaves (not s.connected || eqb (length msgs) 0) v (offer-IsOrderly _ s l v)
  step-IsOrderly (SyncStep.deletes now id) s l v =
      if_both Leaves (not s.connected) v (offer-IsOrderly _ s l v)
  step-IsOrderly (SyncStep.requests_full now) s l v =
      if_both Leaves (not s.connected) v (offer-IsOrderly _ s l v)
  step-IsOrderly (SyncStep.receives now latency) s l v = receive-IsOrderly peer now latency s l v
  step-IsOrderly (SyncStep.ticks now latency) s l v = tick-IsOrderly peer now latency s l v
  step-IsOrderly (SyncStep.finishes now latency) s l v = done-IsOrderly peer now latency s l v
  step-IsOrderly (SyncStep.manages dialled) s l v = manage-IsOrderly dialled s l v
  step-IsOrderly SyncStep.cancels s l v = record {
    conserved = v.conserved;
    within = v.within;
    small = v.small;
  }
  step-IsOrderly SyncStep.closes s l v =
      if_both (λ s'. IsOrderly (s', l)) s.stopped (close-IsOrderly s l v) v

  run-IsOrderly :
      (cs : List SyncStep) (s : SyncService) (l : SyncLog)
      → IsOrderly (s, l)
      → IsOrderly (sync_run calculate_checksum peer cs (s, l))
  unfolding sync_run
  run-IsOrderly [] s l v = v
  run-IsOrderly (c ∷ cs) s l v =
      let r = sync_step calculate_checksum peer c (s, l) in
      run-IsOrderly cs r.0 r.1 (step-IsOrderly c s l v)

  -- From a new stream with a positive batch size, whatever is called and whatever the connection
  -- does: the accepted messages are, in their order, those that left a batch, then the current
  -- batch, then the channel; the channel keeps to its capacity and a batch below its size.
  pub new_stream-IsOrderly :
      (cs : List SyncStep) (now : ℤ) (config : SyncConfig) (addr : String)
      → 0 < pos_part config.sync_batch_size
      → IsOrderly (
          sync_run calculate_checksum peer cs
            (new_sync_service_with_addr now config addr, empty_log))
  unfolding new_sync_service_with_addr
  new_stream-IsOrderly cs now config addr positive =
      run-IsOrderly cs (new_sync_service_with_addr now config addr) empty_log
        (record { conserved = refl; within = omega arith; small = positive })
