-- ===== src/Backup/Sync/Shutdown.antt =====
-- What Stop does to the batch that waits.
use gateway_test.Prelude.{
  ℕ, subst, ◌≡◌, refl, sym, ap, ◌∙◌, ◌≢◌, true, false, List, [], ◌∷◌, ◌++◌, arith, eqb, nat_eq,
  string_eq, length, All, ℤ,
}
use gateway_test.Backup.Records.{SyncPayload}
use gateway_test.Backup.Sync.{
  SyncService, SyncLog, Peer, send_batch, unsent, process_done, cancel_loops, close_stream,
  close_connection, stop,
}
use gateway_test.Backup.Sync.Batches.{SyncStep, sync_step, sync_run}
use gateway_test.Backup.Sync.Delivery.{Takes, delivered, send_batch-delivers}
use gateway_test.Backup.Sync.Stopping.{
  DoesNotDial, written, close_stream-writes_nothing, close_stream-disconnects,
}

nonempty_length : {A : Type 0} → (xs : List A) → xs ≢ [] → eqb (length xs) 0 ≡ false
nonempty_length [] h = absurd (h refl)
nonempty_length (x ∷ xs) h = ground arith

-- What a processing loop does that sees the cancellation with a batch of its own.
done-sends :
    (peer : Peer) (now latency : ℤ) (s : SyncService) (l : SyncLog)
    → s.finished ≡ false
    → s.stopped ≡ true
    → s.batch ≢ []
    → process_done peer now latency (s, l) ≡ (
      record (send_batch peer now latency (s, l)).0 { finished = true },
      (send_batch peer now latency (s, l)).1,
    )
unfolding process_done
done-sends peer now latency s l live halted waits =
    let nonempty : eqb (length s.batch) 0 ≡ false = nonempty_length s.batch waits in
    rw (live, halted, nonempty) refl

drops :
    (peer : Peer) (now latency : ℤ) (s : SyncService) (l : SyncLog)
    → s.connected ≡ false
    → (send_batch peer now latency (s, l)).1.handled ≡ l.handled ++ unsent s.batch
unfolding send_batch
drops peer now latency s l down = rw down refl

close_keeps :
    (s : SyncService)
    → ((close_stream s).batch ≡ s.batch)
      × ((close_stream s).finished ≡ s.finished)
      × ((close_stream s).stopped ≡ s.stopped)
unfolding close_stream close_connection
close_keeps s = (ground arith, ground arith, ground arith)

-- A defect of Stop, which cancels the loops and closes the connection at once, for a connected
-- stream that runs and holds a batch that its peer would take. If the processing loop sees the
-- cancellation between the two, the batch is written. If it sees it after Stop, the batch is
-- dropped, and whatever the loops do, while nothing dials again, what was written when Stop was
-- called is all that is ever written.
pub stop-drops_batch :
    (calculate_checksum : SyncPayload → ℕ) (peer : Peer) (now latency : ℤ) (cs : List SyncStep)
    (s : SyncService) (l : SyncLog)
    → s.connected ≡ true
    → s.stopped ≡ false
    → s.finished ≡ false
    → s.batch ≢ []
    → Takes peer l.attempts s.batch
    → All DoesNotDial cs
    → let run = sync_run calculate_checksum peer in
      let finish = SyncStep.finishes now latency in
      ((run (SyncStep.cancels ∷ SyncStep.closes ∷ []) (s, l)).0 ≡ stop s)
      × ((run (SyncStep.cancels ∷ finish ∷ SyncStep.closes ∷ []) (s, l)).1.handled
          ≡ l.handled ++ delivered s.batch)
      × ((run (finish ∷ []) (stop s, l)).1.handled ≡ l.handled ++ unsent s.batch)
      × (written (run cs (stop s, l)).1 ≡ written l)
unfolding sync_run sync_step stop cancel_loops close_stream close_connection
stop-drops_batch calculate_checksum peer now latency cs s l up live running waits takes quiet =
    let c = cancel_loops s in
    let seen = done-sends peer now latency c l running refl waits in
    let late =
      done-sends peer now latency (close_stream c) l ((close_keeps c).1 ∙ running) (close_keeps c).2
        (λ e. waits (sym (close_keeps c).0 ∙ e)) in
    let stopped : stop s ≡ close_stream c = ground (arith, live) in
    (
      sym stopped,
      ap (λ (r : SyncService × SyncLog). r.1.handled) seen
          ∙ send_batch-delivers peer now latency c l up takes,
      subst
          (λ z.
            (sync_run calculate_checksum peer (SyncStep.finishes now latency ∷ []) (z, l)).1.handled
            ≡ l.handled ++ unsent s.batch)
          (sym stopped)
          (ap (λ (r : SyncService × SyncLog). r.1.handled) late
            ∙ drops peer now latency (close_stream c) l (close_stream-disconnects c)
            ∙ ap (λ b. l.handled ++ unsent b) (close_keeps c).0),
      subst (λ z. written (sync_run calculate_checksum peer cs (z, l)).1 ≡ written l) (sym stopped)
          (close_stream-writes_nothing calculate_checksum peer cs c l quiet),
    )
