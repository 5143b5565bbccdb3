-- ===== src/Backup/Tests.antt =====
-- Runs of the standby's services, and instances of their theorems.
use gateway_test.Prelude.{
  ℕ, ◌+◌, String, ◌≡◌, refl, ◌↔◌, true, false, none, some, List, [], ◌∷◌, ◌++◌, arith, eqb,
  if◌then◌else◌, nat_eq, string_eq, ℤ, pos, is_some,
}
use gateway_test.Proto.{push_business_data}
use gateway_test.Session.Queue.{OrderedMessage}
use gateway_test.Session.Manager.{new_manager, get_session_count, get_session}
use gateway_test.Backup.Records.{
  SyncConfig, FailoverConfig, BackupConfig, SyncMessage, SyncPayload, SessionSyncData,
  HeartbeatData, FullSyncData, mode_primary, mode_backup, delete_session_type,
}
use gateway_test.Backup.Validator.{validate_full_sync, validate_messages, ValidationError}
use gateway_test.Backup.Validator.Meaning.{IsFullBatch}
use gateway_test.Backup.Validator.Exact.{validate_full_sync_iff}
use gateway_test.Backup.Heartbeat.{
  HeartbeatService, new_heartbeat_service, on_heartbeat_received, check_peer,
}
use gateway_test.Backup.Sync.{
  SyncService, Peer, SendError, new_sync_service_with_addr, empty_log, send_batch, unsent, stop,
}
use gateway_test.Backup.Sync.Batches.{SyncStep, sync_run, IsOrderly}
use gateway_test.Backup.Sync.Orderly.{new_stream-IsOrderly}
use gateway_test.Backup.Sync.Delivery.{delivered, send_batch_breaks}
use gateway_test.Backup.Sync.Shutdown.{stop-drops_batch}
use gateway_test.Backup.Failover.{
  FailoverService, new_failover_service, set_switch_callback, set_restore_callback,
  restore_sessions,
}
use gateway_test.Backup.Failover.Detection.{HasThree}
use gateway_test.Backup.Failover.Takeover.{
  WatchEvent, beats, checks, detects, watch, verdicts, Watches, takeover_iff,
}
use gateway_test.Backup.Failover.Silence.{silence_takes_over}
use gateway_test.Backup.Receiver.{Json, SyncReceiver, new_sync_receiver, handle_stream}
use gateway_test.Backup.Receiver.Replica.{restore_sessions-restores_none}
use gateway_test.Backup.Standby.{
  BackupManager, new_backup_manager, start, switch_mode, trigger_failover, detect_tick, ◌>>=◌,
}
use gateway_test.Backup.Standby.Deadlock.{switch_mode_blocks}
use gateway_test.Backup.Standby.Relapse.{
  StreamsAsPrimary, IsPrimary, trigger_failover-relapses, told,
}

abbrev sync_config : SyncConfig
sync_config = record {
  enabled = true;
  mode = mode_primary;
  peer_addr = "peer";
  heartbeat_interval = pos 10;
  sync_batch_size = pos 4;
  sync_timeout = pos 100;
  read_only = false;
  buffer_size = pos 8;
}

abbrev failover_config : FailoverConfig
failover_config = record {
  detection_timeout = pos 50;
  switch_timeout = pos 0;
  recovery_timeout = pos 0;
  max_retries = pos 3;
}

abbrev stored_message : ℕ → OrderedMessage
stored_message n = record {
  server_seq = n;
  push = record {
    msg_id = 0;
    seq_id = n;
    push_type = push_business_data;
    payload = [];
    headers = [];
  };
  bytes = 1 ∷ [];
  timestamp = 5;
  retries = pos 0;
  sent = true;
}

abbrev replica : SessionSyncData
replica = record {
  session_id = "s";
  open_id = "o";
  client_id = "c";
  access_token = "";
  user_ip = "";
  state = pos 1;
  gid = pos 0;
  zone = pos 6;
  server_seq = 4;
  max_client_seq = 2;
  create_time = 1;
  last_activity = 2;
  queue_meta = some (record {
    next_expected_seq = 5;
    last_sent_seq = 4;
    last_acked_seq = 2;
    pending_count = pos 2;
    queue_size = pos 0;
  });
  pending_msgs = some (stored_message 3) ∷ some (stored_message 4) ∷ [];
}

abbrev full_batch : FullSyncData
full_batch = record {
  server_id = "p";
  timestamp = pos 9;
  sessions = some replica ∷ [];
  total_count = pos 1;
  batch_index = pos 0;
  total_batches = pos 1;
}

repeated_message :
    validate_messages (some (stored_message 3) ∷ some (stored_message 3) ∷ [])
    ≡ some (ValidationError.repeated_seq 1)
unfolding validate_messages
repeated_message = refl

validate_full_sync_iff_example :
    (validate_full_sync (some full_batch) ≡ none) ↔ IsFullBatch full_batch
validate_full_sync_iff_example = validate_full_sync_iff full_batch (omega arith, tt)

abbrev no_checksum : SyncPayload → ℕ
no_checksum _ = 0

abbrev deletion : String → SyncMessage
deletion id = record {
  type = delete_session_type;
  session_id = id;
  timestamp = pos 1;
  payload = SyncPayload.nothing;
  checksum = 0;
}

abbrev beat : ℤ → HeartbeatData
beat t = record {
  server_id = "p";
  mode = mode_primary;
  timestamp = t;
  session_count = pos 0;
  queue_count = pos 0;
  is_healthy = true;
  last_sync_time = t;
}

-- The peer takes one message and then fails.
abbrev failing_peer : Peer
failing_peer n msg = if eqb n 1 then some SendError.write_error else none

abbrev fresh_stream : SyncService
fresh_stream = new_sync_service_with_addr (pos 0) sync_config "a"

abbrev holding : SyncService
holding = record fresh_stream {
  connected = true;
  batch = deletion "a" ∷ deletion "b" ∷ deletion "c" ∷ [];
}

abbrev stream_history : List SyncStep
stream_history =
    SyncStep.manages true
    ∷ SyncStep.deletes (pos 1) "a"
    ∷ SyncStep.requests_full (pos 2)
    ∷ SyncStep.receives (pos 3) (pos 1)
    ∷ []

new_stream-IsOrderly_example :
    IsOrderly (sync_run no_checksum failing_peer stream_history (fresh_stream, empty_log))
new_stream-IsOrderly_example =
    new_stream-IsOrderly no_checksum failing_peer stream_history (pos 0) sync_config "a"
      (omega arith)

send_batch_breaks_example :
    let r = send_batch failing_peer (pos 9) (pos 1) (holding, empty_log) in
    (r.1.handled
      ≡ [] ++ (delivered (deletion "a" ∷ []) ++ (deletion "b", false) ∷ unsent (deletion "c" ∷ [])))
    × (r.0.connected ≡ false)
    × (r.0.reconnect ≡ true)
    × (r.1.attempts ≡ 0 + 1 + 1)
    × (r.0.batch ≡ [])
unfolding new_sync_service_with_addr
send_batch_breaks_example =
    send_batch_breaks failing_peer (pos 9) (pos 1) (deletion "a" ∷ []) (deletion "b")
      (deletion "c" ∷ []) SendError.write_error holding empty_log refl refl (refl, tt) refl refl

abbrev taking_peer : Peer
taking_peer = λ _ _. none

stop-drops_batch_example :
    (sync_run no_checksum taking_peer
      (SyncStep.finishes (pos 9) (pos 1) ∷ [])
      (stop holding, empty_log)).1.handled
    ≡ empty_log.handled ++ unsent holding.batch
unfolding new_sync_service_with_addr
stop-drops_batch_example =
    (stop-drops_batch no_checksum taking_peer (pos 9) (pos 1) (SyncStep.ticks (pos 9) (pos 1) ∷ [])
      holding empty_log refl refl refl (λ e. cc) (refl, (refl, (refl, tt))) (tt, tt)).2

abbrev backup_heart : HeartbeatService
backup_heart = new_heartbeat_service sync_config mode_backup "b" none

abbrev agreeing : FailoverService
agreeing = set_switch_callback (λ _ _. true) (new_failover_service failover_config mode_backup)

agreeing-Watches : Watches 0 agreeing
unfolding set_switch_callback new_failover_service
agreeing-Watches = record {
  backup = refl;
  counted = refl;
  willing = ((λ _ _. true), refl, λ k. refl);
}

abbrev silence : List WatchEvent
silence =
    beats (pos 5) (beat (pos 5))
    ∷ checks (pos 60)
    ∷ detects (pos 61) (pos 61) none
    ∷ detects (pos 70) (pos 70) (some fresh_stream)
    ∷ detects (pos 80) (pos 80) none
    ∷ []

silence_found : verdicts (pos 50) silence backup_heart ≡ true ∷ true ∷ true ∷ []
unfolding verdicts on_heartbeat_received check_peer new_heartbeat_service new_sync_service_with_addr
silence_found = refl

takeover_iff_example :
    let mode = (watch silence (backup_heart, agreeing)).1.current_mode in
    let found = verdicts agreeing.config.detection_timeout silence backup_heart in
    ((mode ≡ mode_primary) ↔ HasThree found) × ((mode ≡ mode_backup) ↔ ¬ HasThree found)
takeover_iff_example = takeover_iff silence backup_heart agreeing agreeing-Watches

abbrev beaten_heart : HeartbeatService
beaten_heart = record backup_heart { last_peer_time = pos 5; peer_alive = true }

silence_takes_over_example :
    let f' =
      (watch
        (checks (pos 60)
          ∷ detects (pos 61) (pos 61) none
          ∷ detects (pos 70) (pos 70) none
          ∷ detects (pos 80) (pos 80) none
          ∷ [])
        (beaten_heart, agreeing)).1 in
    (f'.current_mode ≡ mode_primary)
    × (f'.switch_calls ≡ mode_primary ∷ agreeing.switch_calls)
    × (f'.restores ≡ agreeing.restores + 1)
unfolding new_heartbeat_service set_switch_callback new_failover_service
silence_takes_over_example =
    silence_takes_over 5 60 61 70 80 (pos 61) (pos 70) (pos 80) none none none [] beaten_heart
      agreeing agreeing-Watches refl (omega arith) (omega arith) (omega arith) (omega arith)
      (omega arith)

abbrev blind_json : Json
blind_json = record {
  as_session = λ _. some replica;
  as_queue = λ _. none;
  as_messages = λ _. none;
  as_heartbeat = λ _. none;
}

abbrev receiver : SyncReceiver
receiver = new_sync_receiver sync_config (some (new_manager 10))

abbrev primary_service : FailoverService
primary_service =
    set_restore_callback (λ _. true) (new_failover_service failover_config mode_primary)

abbrev sent_sessions : List (ℤ × SyncMessage)
sent_sessions =
    (pos 1, record (deletion "s") { type = pos 2; payload = SyncPayload.of_session replica }) ∷ []

restore_sessions-restores_none_example :
    let r' = handle_stream blind_json no_checksum sent_sessions receiver in
    (r'.session_mgr ≡ some (new_manager 10))
    × (get_session_count (new_manager 10) ≡ 0)
    × (get_session "s" (new_manager 10) ≡ none)
    × ((restore_sessions r'.session_mgr primary_service).1 ≡ none)
unfolding new_sync_receiver new_manager set_restore_callback new_failover_service
restore_sessions-restores_none_example =
    restore_sessions-restores_none blind_json no_checksum sent_sessions receiver (new_manager 10)
      primary_service (λ _. true) "s" refl refl refl refl refl

abbrev backup_config : BackupConfig
backup_config = record {
  sync = sync_config;
  failover = failover_config;
  heartbeat_addr = "h";
  sync_addr = "a";
}

-- A primary that was started.
abbrev primary : BackupManager
primary = (start (pos 0) true true (new_backup_manager backup_config "p")).0

switch_mode_blocks_example :
    (switch_mode mode_backup (pos 9) true primary ≡ none)
    × (is_some (trigger_failover (pos 9) true primary) ≡ true)
unfolding start new_backup_manager
switch_mode_blocks_example = switch_mode_blocks mode_backup (pos 9) true primary refl (λ e. cc) refl

abbrev primary_failover : FailoverService
primary_failover = new_failover_service failover_config mode_primary

primary-StreamsAsPrimary : StreamsAsPrimary 0 primary_failover fresh_stream primary
unfolding start new_backup_manager new_failover_service new_sync_service_with_addr
primary-StreamsAsPrimary = record {
  free = refl;
  service = refl;
  mode = refl;
  same_mode = refl;
  none_failed = refl;
  own = refl;
  watches = refl;
  stream = refl;
  live = refl;
}

trigger_failover-relapses_example :
    let b = told (pos 9) primary_failover primary in
    (trigger_failover (pos 9) true primary ≡ some (b, none))
    × (b.current_mode ≡ mode_backup)
    × ((again : BackupManager) × ((detect_tick (pos 10) true backup_heart b
            >>= detect_tick (pos 11) true backup_heart
            >>= detect_tick (pos 12) true backup_heart)
          ≡ some again)
        × IsPrimary again)
trigger_failover-relapses_example =
    trigger_failover-relapses (pos 9) (pos 10) (pos 11) (pos 12) true true true backup_heart
      backup_heart backup_heart 0 primary_failover fresh_stream primary primary-StreamsAsPrimary
