-- ===== src/Backup/Sync/Stopping.antt =====
-- What happens to the messages that wait when the stream is stopped.
use gateway_test.Prelude.{
  ℕ, ◌≡◌, refl, ap, ◌∙◌, Bool, false, not, ◌||◌, List, [], ◌∷◌, ◌++◌, arith, eqb, nat_eq, string_eq,
  length, select, select-append, All, ℤ, if_both,
}
use mathlib.Core.List.{append-nil}
use gateway_test.Backup.Records.{SyncMessage, SyncPayload}
use gateway_test.Backup.Sync.{
  SyncService, SyncLog, Peer, send_batch, send_unless_empty, is_due, unsent, process_received,
  process_receive, process_tick, process_done, try_connect, manage_connection, close_connection,
  cancel_loops, close_stream, sync_session, sync_queue_state, sync_messages, delete_session,
  full_sync,
}
use gateway_test.Backup.Sync.Batches.{SyncStep, sync_step, sync_run}

-- What was written to the peer.
abbrev pub written : SyncLog → List (SyncMessage × Bool)
written l = select (λ h. h.1) l.handled

written-unsent :
    (msgs : List SyncMessage) → select (λ (h : SyncMessage × Bool). h.1) (unsent msgs) ≡ []
written-unsent [] = refl
written-unsent (msg ∷ msgs) = written-unsent msgs

-- Without a connection, and with what was written so far.
record Silent (w : List (SyncMessage × Bool)) (r : SyncService × SyncLog) : Type 0 where
  down : r.0.connected ≡ false
  same : written r.1 ≡ w

-- Every step but a dial that succeeds.
abbrev pub DoesNotDial : SyncStep → Type 0
DoesNotDial (SyncStep.manages dialled) = dialled ≡ false
DoesNotDial _ = Unit {0}

module _ (w : List (SyncMessage × Bool)) where
  module _ (peer : Peer) (now latency : ℤ) where
    send_batch-Silent :
        (s : SyncService) (l : SyncLog)
        → Silent w (s, l)
        → Silent w (send_batch peer now latency (s, l))
    unfolding send_batch
    send_batch-Silent s l v =
        let dropped : written (record l { handled = l.handled ++ unsent s.batch }) ≡ w =
          select-append (λ (h : SyncMessage × Bool). h.1) l.handled (unsent s.batch)
          ∙ ap (λ h. written l ++ h) (written-unsent s.batch)
          ∙ append-nil (written l)
          ∙ v.same in
        record { down = ground (arith, v.down); same = ground (arith, v.down, dropped) }

    unless_empty-Silent :
        (s : SyncService) (l : SyncLog)
        → Silent w (s, l)
        → Silent w (send_unless_empty peer now latency (s, l))
    unless_empty-Silent s l v =
        if_both (Silent w) (eqb (length s.batch) 0) v (send_batch-Silent s l v)

    received-Silent :
        (msgs : List SyncMessage) (s : SyncService) (l : SyncLog)
        → Silent w (s, l)
        → Silent w (process_received peer now latency msgs (s, l))
    unfolding process_received
    received-Silent [] s l v = record { down = ground (arith, v.down); same = v.same }
    received-Silent (msg ∷ msgs) s l v =
        let s' = record s { sync_chan = msgs; batch = s.batch ++ msg ∷ [] } in
        let v' : Silent w (s', l) = record { down = v.down; same = v.same } in
        if_both (Silent w) (is_due msg s') (send_batch-Silent s' l v') v'

    receive-Silent :
        (s : SyncService) (l : SyncLog)
        → Silent w (s, l)
        → Silent w (process_receive peer now latency (s, l))
    unfolding process_receive
    receive-Silent s l v = if_both (Silent w) s.finished v (received-Silent s.sync_chan s l v)

    tick-Silent :
        (s : SyncService) (l : SyncLog)
        → Silent w (s, l)
        → Silent w (process_tick peer now latency (s, l))
    unfolding process_tick
    tick-Silent s l v = if_both (Silent w) s.finished v (unless_empty-Silent s l v)

    done-Silent :
        (s : SyncService) (l : SyncLog)
        → Silent w (s, l)
        → Silent w (process_done peer now latency (s, l))
    unfolding process_done
    done-Silent s l v =
        let u = unless_empty-Silent s l v in
        if_both (Silent w) (s.finished || not s.stopped) v (record { down = u.down; same = u.same })

  module _ (calculate_checksum : SyncPayload → ℕ) (peer : Peer) where
    step-Silent :
        (c : SyncStep) (s : SyncService) (l : SyncLog)
        → DoesNotDial c
        → Silent w (s, l)
        → Silent w (sync_step calculate_checksum peer c (s, l))
    unfolding sync_step sync_session sync_queue_state sync_messages delete_session full_sync
        cancel_loops close_stream close_connection manage_connection try_connect
    step-Silent (SyncStep.receives now latency) s l h v = receive-Silent peer now latency s l v
    step-Silent (SyncStep.ticks now latency) s l h v = tick-Silent peer now latency s l v
    step-Silent (SyncStep.finishes now latency) s l h v = done-Silent peer now latency s l v
    step-Silent (SyncStep.manages dialled) s l h v = record {
      down = ground (arith, v.down);
      same = v.same;
    }
    step-Silent SyncStep.cancels s l h v = record { down = v.down; same = v.same }
    step-Silent SyncStep.closes s l h v = record { down = ground (arith, v.down); same = v.same }
    step-Silent (SyncStep.syncs_session now id sess) s l h v = record {
      down = ground (arith, v.down);
      same = ground (arith, v.down, v.same);
    }
    step-Silent (SyncStep.syncs_queue now id meta) s l h v = record {
      down = ground (arith, v.down);
      same = ground (arith, v.down, v.same);
    }
    step-Silent (SyncStep.syncs_messages now id msgs) s l h v = record {
      down = ground (arith, v.down);
      same = ground (arith, v.down, v.same);
    }
    step-Silent (SyncStep.deletes now id) s l h v = record {
      down = ground (arith, v.down);
      same = ground (arith, v.down, v.same);
    }
    step-Silent (SyncStep.requests_full now) s l h v = record {
      down = ground (arith, v.down);
      same = ground (arith, v.down, v.same);
    }

    run-Silent :
        (cs : List SyncStep) (s : SyncService) (l : SyncLog)
        → All DoesNotDial cs
        → Silent w (s, l)
        → Silent w (sync_run calculate_checksum peer cs (s, l))
    unfolding sync_run
    run-Silent [] s l h v = v
    run-Silent (c ∷ cs) s l h v =
        let r = sync_step calculate_checksum peer c (s, l) in
        run-Silent cs r.0 r.1 h.1 (step-Silent c s l h.0 v)

pub close_stream-disconnects : (s : SyncService) → (close_stream s).connected ≡ false
unfolding close_stream close_connection
close_stream-disconnects s = ground arith

-- Once the connection is closed nothing more is written while nothing dials again.
pub close_stream-writes_nothing :
    (calculate_checksum : SyncPayload → ℕ) (peer : Peer) (cs : List SyncStep) (s : SyncService)
    (l : SyncLog)
    → All DoesNotDial cs
    → written (sync_run calculate_checksum peer cs (close_stream s, l)).1 ≡ written l
close_stream-writes_nothing calculate_checksum peer cs s l quiet =
    (run-Silent (written l) calculate_checksum peer cs (close_stream s) l quiet
      (record { down = close_stream-disconnects s; same = refl })).same
