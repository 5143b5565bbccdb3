-- ===== src/Backup/Receiver.antt =====
-- internal/backup/sync_receiver.go: what the backup does with the messages of the primary's stream.
-- One message is one step. encoding/json is outside the program: `Json` reads a field `Data` as each
-- of the types that the handlers want.
pub mod Replica
use gateway_test.Prelude.{
  ℕ, String, refl, Bool, true, false, not, ◌||◌, Option, none, some, List, [], ◌∷◌, arith, eqb,
  if◌then◌else◌, nat_eq, string_eq, ℤ, pos, eqb_ℤ,
}
use gateway_test.Backup.Records.{
  SyncConfig, SyncStats, SyncMessage, SyncPayload, SessionSyncData, QueueMetadata, HeartbeatData,
  FullSyncData, create_session_type, update_session_type, delete_session_type, sync_queue_type,
  sync_messages_type, heartbeat_type, full_sync_type,
}
use gateway_test.Backup.Heartbeat.{increment}
use gateway_test.Backup.Validator.{
  ValidationError, validate_session, validate_queue, validate_messages,
}
use gateway_test.Session.Queue.{OrderedMessage}
use gateway_test.Session.Manager.{Manager, remove_session}

pub record Json : Type 0 where
  pub as_session : SyncPayload → Option SessionSyncData
  pub as_queue : SyncPayload → Option QueueMetadata
  pub as_messages : SyncPayload → Option (List (Option OrderedMessage))
  pub as_heartbeat : SyncPayload → Option HeartbeatData

pub record SyncReceiver : Type 0 where
  pub config : SyncConfig
  pub listen_addr : String
  pub listening : Bool
  pub session_mgr : Option Manager
  pub stats : SyncStats
  pub stopped : Bool
  pub connections : List String

pub data ReceiveError : Type 0 where
  unreadable bad_checksum unknown_type nil_manager : ReceiveError
  invalid : ValidationError → ReceiveError

unfoldable pub new_sync_receiver_with_addr : SyncConfig → Option Manager → String → SyncReceiver
new_sync_receiver_with_addr config session_mgr listen_addr = record {
  config = config;
  listen_addr = listen_addr;
  listening = false;
  session_mgr = session_mgr;
  stats = record {
    sent_count = pos 0;
    received_count = pos 0;
    error_count = pos 0;
    last_sync_time = pos 0;
    avg_latency = pos 0;
    is_connected = false;
  };
  stopped = false;
  connections = [];
}

unfoldable pub new_sync_receiver : SyncConfig → Option Manager → SyncReceiver
unfolding new_sync_receiver_with_addr
new_sync_receiver config session_mgr =
    new_sync_receiver_with_addr config session_mgr config.peer_addr

unfoldable pub start : Bool → SyncReceiver → SyncReceiver × Bool
start bound r = if bound then (record r { listening = true }, true) else (r, false)

unfoldable pub stop : SyncReceiver → SyncReceiver
stop r = if r.stopped then r else record r { stopped = true; listening = false; connections = [] }

-- The three updates only write to the log, in read-only mode and otherwise.
unfoldable pub update_local_session : SessionSyncData → SyncReceiver → SyncReceiver
update_local_session d r = r

unfoldable pub update_local_queue : String → QueueMetadata → SyncReceiver → SyncReceiver
update_local_queue session_id meta r = r

unfoldable pub update_local_messages :
    String → List (Option OrderedMessage) → SyncReceiver → SyncReceiver
update_local_messages session_id msgs r = r

module _ (json : Json) (calculate_checksum : SyncPayload → ℕ) where
  handle_session :
      SyncMessage → Option SessionSyncData → SyncReceiver → SyncReceiver × Option ReceiveError
  handle_session msg none r = (r, some unreadable)
  handle_session msg (some d) r = elim (validate_session (some d)) [
    | some e ↦ (r, some (invalid e))
    | none ↦
        if not (eqb (calculate_checksum (SyncPayload.of_session d)) msg.checksum)
        then (r, some bad_checksum)
        else (update_local_session d r, none)
  ]

  handle_queue :
      SyncMessage → Option QueueMetadata → SyncReceiver → SyncReceiver × Option ReceiveError
  handle_queue msg none r = (r, some unreadable)
  handle_queue msg (some meta) r = elim (validate_queue (some meta)) [
    | some e ↦ (r, some (invalid e))
    | none ↦ (update_local_queue msg.session_id meta r, none)
  ]

  handle_messages :
      SyncMessage
      → Option (List (Option OrderedMessage))
      → SyncReceiver
      → SyncReceiver × Option ReceiveError
  handle_messages msg none r = (r, some unreadable)
  handle_messages msg (some msgs) r = elim (validate_messages msgs) [
    | some e ↦ (r, some (invalid e))
    | none ↦ (update_local_messages msg.session_id msgs r, none)
  ]

  -- Go panics where the manager is nil.
  delete_in : Option Manager → SyncMessage → SyncReceiver → SyncReceiver × Option ReceiveError
  delete_in none msg r = (r, some nil_manager)
  delete_in (some m) msg r =
      (record r { session_mgr = some (remove_session msg.session_id m) }, none)

  handle_delete : SyncMessage → SyncReceiver → SyncReceiver × Option ReceiveError
  unfolding delete_in
  handle_delete msg r = delete_in r.session_mgr msg r

  -- OnHeartbeatReceived only writes to the log.
  handle_beat : Option HeartbeatData → SyncReceiver → SyncReceiver × Option ReceiveError
  handle_beat none r = (r, some unreadable)
  handle_beat (some d) r = (r, none)

  unfoldable pub process_message : SyncMessage → SyncReceiver → SyncReceiver × Option ReceiveError
  unfolding handle_session handle_queue handle_messages handle_delete handle_beat
  process_message msg r =
      if eqb_ℤ msg.type create_session_type || eqb_ℤ msg.type update_session_type
      then handle_session msg (json.as_session msg.payload) r
      else if eqb_ℤ msg.type delete_session_type
      then handle_delete msg r
      else if eqb_ℤ msg.type sync_queue_type
      then handle_queue msg (json.as_queue msg.payload) r
      else if eqb_ℤ msg.type sync_messages_type
      then handle_messages msg (json.as_messages msg.payload) r
      else if eqb_ℤ msg.type heartbeat_type
      then handle_beat (json.as_heartbeat msg.payload) r
      else if eqb_ℤ msg.type full_sync_type
      then (r, none)
      else (r, some unknown_type)

  abbrev count_outcome : ℤ → SyncReceiver × Option ReceiveError → SyncReceiver
  count_outcome now (r, none) = record r {
    stats = record r.stats {
      received_count = increment r.stats.received_count;
      last_sync_time = now;
    };
  }
  count_outcome now (r, some e) = record r {
    stats = record r.stats { error_count = increment r.stats.error_count };
  }

  -- One round of the loop over a connection whose message could be read.
  unfoldable pub handle_message : ℤ → SyncMessage → SyncReceiver → SyncReceiver
  handle_message now msg r = count_outcome now (process_message msg r)

  unfoldable pub handle_stream : List (ℤ × SyncMessage) → SyncReceiver → SyncReceiver
  handle_stream [] r = r
  handle_stream ((now, msg) ∷ msgs) r = handle_stream msgs (handle_message now msg r)

  -- OnFullSyncReceived: the loop over the sessions, whose errors are only logged.
  unfoldable pub on_full_sync_received : List SessionSyncData → SyncReceiver → SyncReceiver
  on_full_sync_received [] r = r
  on_full_sync_received (d ∷ ds) r = on_full_sync_received ds (update_local_session d r)
