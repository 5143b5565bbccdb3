-- ===== src/Backup/Records.antt =====
-- internal/backup/types.go: what the primary and the backup server exchange. Numbers of Go's signed
-- types are integers. Times are nanoseconds since Go's zero time, so `IsZero` is a test for 0. A
-- pointer that may be nil is an option.
use gateway_test.Prelude.{ℕ, String, Bool, Option, List, nat_eq, string_eq, ℤ, pos}
use gateway_test.Session.Queue.{OrderedMessage}

-- Two int32 types, which may hold any number.
abbrev pub SyncType : Type 0
SyncType = ℤ

abbrev pub create_session_type : SyncType
create_session_type = pos 1

abbrev pub update_session_type : SyncType
update_session_type = pos 2

abbrev pub delete_session_type : SyncType
delete_session_type = pos 3

abbrev pub sync_queue_type : SyncType
sync_queue_type = pos 4

abbrev pub sync_messages_type : SyncType
sync_messages_type = pos 5

abbrev pub heartbeat_type : SyncType
heartbeat_type = pos 6

abbrev pub full_sync_type : SyncType
full_sync_type = pos 7

abbrev pub ServerMode : Type 0
ServerMode = ℤ

abbrev pub mode_primary : ServerMode
mode_primary = pos 1

abbrev pub mode_backup : ServerMode
mode_backup = pos 2

pub record QueueMetadata : Type 0 where
  pub next_expected_seq : ℕ
  pub last_sent_seq : ℕ
  pub last_acked_seq : ℕ
  pub pending_count : ℤ
  pub queue_size : ℤ

pub record SessionSyncData : Type 0 where
  pub session_id : String
  pub open_id : String
  pub client_id : String
  pub access_token : String
  pub user_ip : String
  pub state : ℤ
  pub gid : ℤ
  pub zone : ℤ
  pub server_seq : ℕ
  pub max_client_seq : ℕ
  pub create_time : ℕ
  pub last_activity : ℕ
  pub queue_meta : Option QueueMetadata
  pub pending_msgs : List (Option OrderedMessage)

pub record HeartbeatData : Type 0 where
  pub server_id : String
  pub mode : ServerMode
  pub timestamp : ℤ
  pub session_count : ℤ
  pub queue_count : ℤ
  pub is_healthy : Bool
  pub last_sync_time : ℤ

pub record FullSyncData : Type 0 where
  pub server_id : String
  pub timestamp : ℤ
  pub sessions : List (Option SessionSyncData)
  pub total_count : ℤ
  pub batch_index : ℤ
  pub total_batches : ℤ

-- What the senders put in the field `Data` of type `interface{}`.
pub data SyncPayload : Type 0 where
  nothing : SyncPayload
  of_session : SessionSyncData → SyncPayload
  of_queue : Option QueueMetadata → SyncPayload
  of_messages : List (Option OrderedMessage) → SyncPayload
  of_heartbeat : HeartbeatData → SyncPayload

pub record SyncMessage : Type 0 where
  pub type : SyncType
  pub session_id : String
  pub timestamp : ℤ
  pub payload : SyncPayload
  pub checksum : ℕ

-- Durations are int64 nanoseconds.
pub record SyncConfig : Type 0 where
  pub enabled : Bool
  pub mode : ServerMode
  pub peer_addr : String
  pub heartbeat_interval : ℤ
  pub sync_batch_size : ℤ
  pub sync_timeout : ℤ
  pub read_only : Bool
  pub buffer_size : ℤ

pub record FailoverConfig : Type 0 where
  pub detection_timeout : ℤ
  pub switch_timeout : ℤ
  pub recovery_timeout : ℤ
  pub max_retries : ℤ

pub record BackupConfig : Type 0 where
  pub sync : SyncConfig
  pub failover : FailoverConfig
  pub heartbeat_addr : String
  pub sync_addr : String

pub record SyncStats : Type 0 where
  pub sent_count : ℤ
  pub received_count : ℤ
  pub error_count : ℤ
  pub last_sync_time : ℤ
  pub avg_latency : ℤ
  pub is_connected : Bool
