-- ===== src/Backup/Sync.antt =====
-- internal/backup/sync_service.go: the primary's stream of session data to the backup. Each method
-- and each turn of the processing loop is one step. The TCP connection is outside the program: a
-- peer gives the outcome of the n-th message that is written to it. Clocks give int64 nanoseconds.
pub mod Batches
pub mod Orderly
pub mod Delivery
pub mod Stopping
pub mod Shutdown
use gateway_test.Prelude.{
  ℕ, ◌+◌, String, refl, Bool, true, false, not, ◌||◌, Option, none, some, List, [], ◌∷◌, ◌++◌, map,
  arith, eqb, if◌then◌else◌, nat_eq, string_eq, length, ℤ, pos, leb_ℤ, eqb_ℤ,
}
use gateway_test.Backup.Records.{
  SyncConfig, SyncStats, SyncMessage, SyncPayload, SyncType, QueueMetadata, SessionSyncData,
  update_session_type, sync_queue_type, sync_messages_type, delete_session_type, full_sync_type,
}
use gateway_test.Backup.Heartbeat.{increment, moving_average}
use gateway_test.Session.State.{Session, SessionState, inited, normal, closed_state}
use gateway_test.Session.Queue.{OrderedMessage, OrderedMessageQueue, get_pending_count}

-- The errors of `sendMessage` are made by `fmt.Errorf`, so none of them is a `net.Error`.
pub data SendError : Type 0 where
  net_error : (timeout temporary : Bool) → SendError
  not_connected_error marshal_error length_error write_error : SendError

abbrev pub Peer : Type 0
Peer = ℕ → SyncMessage → Option SendError

pub record SyncService : Type 0 where
  pub config : SyncConfig
  pub sync_addr : String
  pub connected : Bool
  pub reconnect : Bool
  pub sync_chan : List SyncMessage
  pub chan_closed : Bool
  pub stats : SyncStats
  pub stopped : Bool
  -- The batch that the processing loop holds, and whether the loop has returned.
  pub batch : List SyncMessage
  pub finished : Bool

-- What was accepted and what left a batch, oldest first: a message with whether it was written.
pub record SyncLog : Type 0 where
  pub attempts : ℕ
  pub accepted : List SyncMessage
  pub handled : List (SyncMessage × Bool)

abbrev pub empty_log : SyncLog
empty_log = record { attempts = 0; accepted = []; handled = [] }

pub data SyncError : Type 0 where
  not_connected queue_full send_on_closed : SyncError

unfoldable pub new_sync_service_with_addr : ℤ → SyncConfig → String → SyncService
new_sync_service_with_addr now config sync_addr = record {
  config = config;
  sync_addr = sync_addr;
  connected = false;
  reconnect = false;
  sync_chan = [];
  chan_closed = false;
  stats = record {
    sent_count = pos 0;
    received_count = pos 0;
    error_count = pos 0;
    last_sync_time = now;
    avg_latency = pos 0;
    is_connected = false;
  };
  stopped = false;
  batch = [];
  finished = false;
}

unfoldable pub new_sync_service : ℤ → SyncConfig → SyncService
unfolding new_sync_service_with_addr
new_sync_service now config = new_sync_service_with_addr now config config.peer_addr

-- `select { case s.syncChan <- msg: … default: … }`, for a channel with a buffer: without one, a send
-- succeeds where the processing loop waits for it, which the model leaves out. A send on a closed
-- channel panics.
unfoldable pub offer :
    SyncMessage → SyncService × SyncLog → (SyncService × SyncLog) × Option SyncError
offer msg (s, l) =
    if s.chan_closed
    then ((s, l), some send_on_closed)
    else if leb_ℤ s.config.buffer_size (pos (length s.sync_chan))
    then ((s, l), some queue_full)
    else (
      (
        record s { sync_chan = s.sync_chan ++ msg ∷ [] },
        record l { accepted = l.accepted ++ msg ∷ [] },
      ),
      none,
    )

abbrev state_number : SessionState → ℤ
state_number inited = pos 0
state_number normal = pos 1
state_number closed_state = pos 2

-- The metadata leaves the size of the queue at 0.
convert_queue : Option OrderedMessageQueue → Option QueueMetadata
convert_queue none = none
convert_queue (some q) = some (record {
  next_expected_seq = q.next_expected_seq;
  last_sent_seq = q.last_sent_seq;
  last_acked_seq = q.last_acked_seq;
  pending_count = pos (get_pending_count q);
  queue_size = pos 0;
})

unfoldable pub convert_session_to_sync_data : Session → SessionSyncData
unfolding convert_queue
convert_session_to_sync_data s = record {
  session_id = s.id;
  open_id = s.open_id;
  client_id = s.client_id;
  access_token = "";
  user_ip = s.user_ip;
  state = state_number s.state;
  gid = pos 0;
  zone = s.zone;
  server_seq = s.server_seq;
  max_client_seq = s.max_client_seq;
  create_time = s.create_time;
  last_activity = s.last_activity;
  queue_meta = convert_queue s.ordered_queue;
  pending_msgs = [];
}

module _ (calculate_checksum : SyncPayload → ℕ) where
  abbrev sync_message : SyncType → String → ℤ → SyncPayload → SyncMessage
  sync_message type session_id now payload = record {
    type = type;
    session_id = session_id;
    timestamp = now;
    payload = payload;
    checksum = calculate_checksum payload;
  }

  unfoldable pub sync_session :
      ℤ → String → Session → SyncService × SyncLog → (SyncService × SyncLog) × Option SyncError
  sync_session now session_id sess (s, l) =
      if not s.connected
      then ((s, l), some not_connected)
      else offer
          (sync_message update_session_type session_id now
            (SyncPayload.of_session (convert_session_to_sync_data sess)))
          (s, l)

  unfoldable pub sync_queue_state :
      ℤ
      → String
      → Option QueueMetadata
      → SyncService × SyncLog
      → (SyncService × SyncLog) × Option SyncError
  sync_queue_state now session_id meta (s, l) =
      if not s.connected
      then ((s, l), some not_connected)
      else offer (sync_message sync_queue_type session_id now (SyncPayload.of_queue meta)) (s, l)

  unfoldable pub sync_messages :
      ℤ
      → String
      → List (Option OrderedMessage)
      → SyncService × SyncLog
      → (SyncService × SyncLog) × Option SyncError
  sync_messages now session_id msgs (s, l) =
      if not s.connected || eqb (length msgs) 0
      then ((s, l), some not_connected)
      else offer (sync_message sync_messages_type session_id now (SyncPayload.of_messages msgs))
          (s, l)

abbrev bare_message : SyncType → String → ℤ → SyncMessage
bare_message type session_id now = record {
  type = type;
  session_id = session_id;
  timestamp = now;
  payload = SyncPayload.nothing;
  checksum = 0;
}

unfoldable pub delete_session :
    ℤ → String → SyncService × SyncLog → (SyncService × SyncLog) × Option SyncError
delete_session now session_id (s, l) =
    if not s.connected
    then ((s, l), some not_connected)
    else offer (bare_message delete_session_type session_id now) (s, l)

unfoldable pub full_sync : ℤ → SyncService × SyncLog → (SyncService × SyncLog) × Option SyncError
full_sync now (s, l) =
    if not s.connected
    then ((s, l), some not_connected)
    else offer (bare_message full_sync_type "" now) (s, l)

abbrev with_stats : (SyncStats → SyncStats) → SyncService → SyncService
with_stats f s = record s { stats = f s.stats }

abbrev count_error : SyncStats → SyncStats
count_error st = record st { error_count = increment st.error_count }

unfoldable pub try_connect : Bool → SyncService → SyncService
try_connect dialled s =
    if s.connected
    then s
    else if dialled
    then with_stats (λ st. record st { is_connected = true }) (record s { connected = true })
    else with_stats (λ st. record (count_error st) { is_connected = false }) s

-- One turn of the connection manager: a request to reconnect, or the ticker.
unfoldable pub manage_connection : Bool → SyncService → SyncService
manage_connection dialled s =
    if s.reconnect
    then try_connect dialled (record s { reconnect = false })
    else if s.connected
    then s
    else try_connect dialled s

unfoldable pub close_connection : SyncService → SyncService
close_connection s =
    if s.connected
    then with_stats (λ st. record st { is_connected = false }) (record s { connected = false })
    else s

abbrev pub is_urgent_message : SyncMessage → Bool
is_urgent_message msg = eqb_ℤ msg.type delete_session_type || eqb_ℤ msg.type full_sync_type

abbrev pub is_connection_error : SendError → Bool
is_connection_error (net_error timeout temporary) = timeout || temporary
is_connection_error _ = true

abbrev pub unsent : List SyncMessage → List (SyncMessage × Bool)
unsent msgs = map (λ msg. (msg, false)) msgs

-- One message, for the outcome of its write.
settle : SyncMessage → Option SendError → SyncService × SyncLog → (SyncService × SyncLog) × Bool
settle msg none (s, l) = (
  (
    with_stats (λ st. record st { sent_count = increment st.sent_count }) s,
    record l { attempts = l.attempts + 1; handled = l.handled ++ (msg, true) ∷ [] },
  ),
  true,
)
settle msg (some e) (s, l) =
    let s' = with_stats count_error s in
    let l' = record l { attempts = l.attempts + 1; handled = l.handled ++ (msg, false) ∷ [] } in
    if is_connection_error e
    then ((record (close_connection s') { reconnect = true }, l'), false)
    else ((s', l'), true)

abbrev is_due : SyncMessage → SyncService → Bool
is_due msg s = leb_ℤ s.config.sync_batch_size (pos (length s.batch)) || is_urgent_message msg

module _ (peer : Peer) where
  unfoldable pub send_message : SyncMessage → SyncService × SyncLog → Option SendError
  send_message msg (s, l) = if s.connected then peer l.attempts msg else some not_connected_error

  -- The loop over the batch: after a connection error it leaves the rest.
  pub send_loop : List SyncMessage → SyncService × SyncLog → SyncService × SyncLog
  unfolding settle
  send_loop [] r = r
  send_loop (msg ∷ msgs) r =
      let (r', goes_on) = settle msg (send_message msg r) r in
      let later = send_loop msgs r' in
      let (s', l') = r' in
      if goes_on then later else (s', record l' { handled = l'.handled ++ unsent msgs })

  -- Nothing is written while there is no connection, and the batch is emptied all the same.
  unfoldable pub send_batch : ℤ → ℤ → SyncService × SyncLog → SyncService × SyncLog
  unfolding send_loop
  send_batch now latency (s, l) =
      let empty = record s { batch = [] } in
      if not s.connected
      then (empty, record l { handled = l.handled ++ unsent s.batch })
      else let (s', l') = send_loop s.batch (empty, l) in
        (
          with_stats
              (λ st. record st {
                last_sync_time = now;
                avg_latency = moving_average st.avg_latency latency;
              })
              s',
          l',
        )

  abbrev send_unless_empty : ℤ → ℤ → SyncService × SyncLog → SyncService × SyncLog
  send_unless_empty now latency (s, l) =
      if eqb (length s.batch) 0 then (s, l) else send_batch now latency (s, l)

  process_received : ℤ → ℤ → List SyncMessage → SyncService × SyncLog → SyncService × SyncLog
  process_received now latency [] (s, l) =
      (if s.chan_closed then record s { finished = true } else s, l)
  process_received now latency (msg ∷ msgs) (s, l) =
      let s' = record s { sync_chan = msgs; batch = s.batch ++ msg ∷ [] } in
      if is_due msg s' then send_batch now latency (s', l) else (s', l)

  -- The three cases of the processing loop's `select`. A receive waits while the channel is empty
  -- and open.
  unfoldable pub process_receive : ℤ → ℤ → SyncService × SyncLog → SyncService × SyncLog
  unfolding process_received
  process_receive now latency (s, l) =
      if s.finished then (s, l) else process_received now latency s.sync_chan (s, l)

  unfoldable pub process_tick : ℤ → ℤ → SyncService × SyncLog → SyncService × SyncLog
  process_tick now latency (s, l) =
      if s.finished then (s, l) else send_unless_empty now latency (s, l)

  unfoldable pub process_done : ℤ → ℤ → SyncService × SyncLog → SyncService × SyncLog
  process_done now latency (s, l) =
      if s.finished || not s.stopped
      then (s, l)
      else let (s', l') = send_unless_empty now latency (s, l) in
        (record s' { finished = true }, l')

-- Stop in two halves, between which the processing loop may run: it cancels the loops, then closes
-- the connection and the channel.
unfoldable pub cancel_loops : SyncService → SyncService
cancel_loops s = record s { stopped = true }

unfoldable pub close_stream : SyncService → SyncService
close_stream s = record (close_connection s) { chan_closed = true }

unfoldable pub stop : SyncService → SyncService
stop s = if s.stopped then s else close_stream (cancel_loops s)
