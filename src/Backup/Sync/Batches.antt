-- ===== src/Backup/Sync/Batches.antt =====
-- No message is lost from sight: what was accepted is what left a batch, then the batch, then the
-- channel, in this order.
use gateway_test.Backup.Sync.{
  send_message, send_loop, send_batch, SyncService, SyncLog, SendError, Peer, settle,
  process_receive, process_tick, process_done, manage_connection, close_connection, cancel_loops,
  close_stream, sync_session, sync_queue_state, sync_messages, delete_session, full_sync, unsent,
}
use mathlib.Core.List.{append_assoc, append-nil}
use gateway_test.Prelude.{
  ℕ, ◌≤◌, ◌<◌, String, ◌≡◌, refl, sym, ap, ◌∙◌, inl, inr, Bool, true, false, not, Option, none,
  some, List, [], ◌∷◌, ◌++◌, map, arith, if◌then◌else◌, Bool-cases, nat_eq, string_eq, length, ℤ,
  pos_part, if_both,
}
use gateway_test.Session.State.{Session}
use gateway_test.Session.Queue.{OrderedMessage}
use gateway_test.Backup.Records.{SyncMessage, SyncPayload, QueueMetadata}

-- The methods and the turns of the loops, for histories.
pub data SyncStep : Type 0 where
  syncs_session : ℤ → String → Session → SyncStep
  syncs_queue : ℤ → String → Option QueueMetadata → SyncStep
  syncs_messages : ℤ → String → List (Option OrderedMessage) → SyncStep
  deletes : ℤ → String → SyncStep
  requests_full : ℤ → SyncStep
  receives ticks finishes : ℤ → ℤ → SyncStep
  manages : Bool → SyncStep
  cancels closes : SyncStep

module _ (calculate_checksum : SyncPayload → ℕ) (peer : Peer) where
  unfoldable pub sync_step : SyncStep → SyncService × SyncLog → SyncService × SyncLog
  sync_step (syncs_session now id sess) r = (sync_session calculate_checksum now id sess r).0
  sync_step (syncs_queue now id meta) r = (sync_queue_state calculate_checksum now id meta r).0
  sync_step (syncs_messages now id msgs) r = (sync_messages calculate_checksum now id msgs r).0
  sync_step (deletes now id) r = (delete_session now id r).0
  sync_step (requests_full now) r = (full_sync now r).0
  sync_step (receives now latency) r = process_receive peer now latency r
  sync_step (ticks now latency) r = process_tick peer now latency r
  sync_step (finishes now latency) r = process_done peer now latency r
  sync_step (manages dialled) (s, l) = (manage_connection dialled s, l)
  sync_step cancels (s, l) = (cancel_loops s, l)
  sync_step closes (s, l) = (if s.stopped then close_stream s else s, l)

  unfoldable pub sync_run : List SyncStep → SyncService × SyncLog → SyncService × SyncLog
  sync_run [] r = r
  sync_run (c ∷ cs) r = sync_run cs (sync_step c r)

abbrev pub firsts_of : List (SyncMessage × Bool) → List SyncMessage
firsts_of handled = map (λ h. h.0) handled

firsts_of-append :
    (xs ys : List (SyncMessage × Bool)) → firsts_of (xs ++ ys) ≡ firsts_of xs ++ firsts_of ys
firsts_of-append [] ys = refl
firsts_of-append (x ∷ xs) ys = ap (λ r. x.0 ∷ r) (firsts_of-append xs ys)

firsts_of-unsent : (msgs : List SyncMessage) → firsts_of (unsent msgs) ≡ msgs
firsts_of-unsent [] = refl
firsts_of-unsent (m ∷ msgs) = ap (λ r. m ∷ r) (firsts_of-unsent msgs)

-- What sending a batch leaves alone.
pub record Keeps (r r' : SyncService × SyncLog) : Type 0 where
  pub config : r'.0.config ≡ r.0.config
  pub channel : r'.0.sync_chan ≡ r.0.sync_chan
  pub held : r'.0.batch ≡ r.0.batch
  pub closed : r'.0.chan_closed ≡ r.0.chan_closed
  pub halted : r'.0.stopped ≡ r.0.stopped
  pub accepted : r'.1.accepted ≡ r.1.accepted

-- Sending `msgs` moves them to the messages that were handled.
pub record Handles (msgs : List SyncMessage) (r r' : SyncService × SyncLog) : Type 0 where
  pub rest : Keeps r r'
  pub moved : firsts_of r'.1.handled ≡ firsts_of r.1.handled ++ msgs

settle-Handles :
    (msg : SyncMessage) (e : Option SendError) (r : SyncService × SyncLog)
    → Handles (msg ∷ []) r (settle msg e r).0
unfolding settle close_connection
settle-Handles msg none r = record {
  rest = record {
    config = refl;
    channel = refl;
    held = refl;
    closed = refl;
    halted = refl;
    accepted = refl;
  };
  moved = firsts_of-append r.1.handled ((msg, true) ∷ []);
}
settle-Handles msg (some e) r = record {
  rest = ground arith;
  moved = ground (arith, firsts_of-append r.1.handled ((msg, false) ∷ []));
}

module _ (peer : Peer) where
  pub send_loop-Handles :
      (msgs : List SyncMessage) (r : SyncService × SyncLog) → Handles msgs r (send_loop peer msgs r)
  unfolding send_loop
  send_loop-Handles [] r = record {
    rest = record {
      config = refl;
      channel = refl;
      held = refl;
      closed = refl;
      halted = refl;
      accepted = refl;
    };
    moved = sym (append-nil (firsts_of r.1.handled));
  }
  send_loop-Handles (msg ∷ msgs) r =
      let now = settle msg (send_message peer msg r) r in
      let once = settle-Handles msg (send_message peer msg r) r in
      let later = send_loop-Handles msgs now.0 in
      elim (Bool-cases now.1) [
        | inl goes_on ↦ rw goes_on (record {
          rest = ground (arith, once.rest, later.rest);
          moved =
              later.moved
              ∙ ap (λ h. h ++ msgs) once.moved
              ∙ append_assoc (firsts_of r.1.handled) (msg ∷ []) msgs;
        })
        | inr stays ↦ rw stays (record {
          rest = ground (arith, once.rest);
          moved =
              firsts_of-append now.0.1.handled (unsent msgs)
              ∙ ap (λ h. h ++ firsts_of (unsent msgs)) once.moved
              ∙ ap (λ h. (firsts_of r.1.handled ++ msg ∷ []) ++ h) (firsts_of-unsent msgs)
              ∙ append_assoc (firsts_of r.1.handled) (msg ∷ []) msgs;
        })
      ]

-- The state of the stream: every accepted message is accounted for, in order, the channel keeps to
-- its capacity, and a batch is sent before it would exceed its size.
pub record IsOrderly (r : SyncService × SyncLog) : Type 0 where
  pub conserved : r.1.accepted ≡ firsts_of r.1.handled ++ (r.0.batch ++ r.0.sync_chan)
  pub within : length r.0.sync_chan ≤ pos_part r.0.config.buffer_size
  pub small : length r.0.batch < pos_part r.0.config.sync_batch_size

module _ (peer : Peer) where
  pub send_batch-IsOrderly :
      (now latency : ℤ) (s : SyncService) (l : SyncLog)
      → l.accepted ≡ firsts_of l.handled ++ (s.batch ++ s.sync_chan)
      → length s.sync_chan ≤ pos_part s.config.buffer_size
      → 0 < pos_part s.config.sync_batch_size
      → IsOrderly (send_batch peer now latency (s, l))
        × ((send_batch peer now latency (s, l)).0.config ≡ s.config)
  unfolding send_batch
  send_batch-IsOrderly now latency s l conserved within positive =
      let sent = send_loop-Handles peer s.batch (record s { batch = [] }, l) in
      let r = send_loop peer s.batch (record s { batch = [] }, l) in
      let same : firsts_of r.1.handled ++ (r.0.batch ++ r.0.sync_chan) ≡ l.accepted =
        ap (λ h. h ++ (r.0.batch ++ r.0.sync_chan)) sent.moved
        ∙ ap (λ c. (firsts_of l.handled ++ s.batch) ++ (c ++ r.0.sync_chan)) sent.rest.held
        ∙ ap (λ c. (firsts_of l.handled ++ s.batch) ++ c) sent.rest.channel
        ∙ append_assoc (firsts_of l.handled) s.batch s.sync_chan
        ∙ sym conserved in
      let dropped : firsts_of (l.handled ++ unsent s.batch) ++ s.sync_chan ≡ l.accepted =
        ap (λ h. h ++ s.sync_chan)
          (firsts_of-append l.handled (unsent s.batch)
            ∙ ap (λ h. firsts_of l.handled ++ h) (firsts_of-unsent s.batch))
        ∙ append_assoc (firsts_of l.handled) s.batch s.sync_chan
        ∙ sym conserved in
      if_both (λ r'. IsOrderly r' × (r'.0.config ≡ s.config)) (not s.connected)
        (record { conserved = sym dropped; within = within; small = positive }, refl)
        (
          record {
            conserved = sent.rest.accepted ∙ sym same;
            within = ground (arith, sent.rest);
            small = ground (arith, sent.rest);
          },
          sent.rest.config,
        )
