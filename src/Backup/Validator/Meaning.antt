-- ===== src/Backup/Validator/Meaning.antt =====
-- What the checks accept, said without them.
use gateway_test.Prelude.{
  ℕ, ◌+◌, ◌≤◌, ◌<◌, ◌≡◌, ◌≢◌, ◌⊎◌, Option, none, some, List, [], ◌∷◌, nat_eq, string_eq, length,
  All, ℤ, pos_part, neg_part, i64_mod,
}
use gateway_test.Session.Queue.{OrderedMessage}
use gateway_test.Backup.Records.{
  SyncMessage, SessionSyncData, QueueMetadata, HeartbeatData, FullSyncData, mode_primary,
  mode_backup,
}

abbrev pub IsNatural : ℤ → Type 0
IsNatural a = neg_part a ≡ 0

abbrev pub IsPositive : ℤ → Type 0
IsPositive a = 0 < pos_part a

-- A queue's numbers agree: nothing is acknowledged that was not sent, and no more than ten messages
-- wait beyond those that were sent and not acknowledged.
pub record IsConsistent (meta : QueueMetadata) : Type 0 where
  pub acked_sent : meta.last_acked_seq ≤ meta.last_sent_seq
  pub next_pos : 0 < meta.next_expected_seq
  pub pending_natural : IsNatural meta.pending_count
  pub size_natural : IsNatural meta.queue_size
  pub pending_le : pos_part meta.pending_count + meta.last_acked_seq ≤ meta.last_sent_seq + 10

-- The window of unacknowledged numbers is small enough that the check's int64 does not wrap.
abbrev pub IsSmall : QueueMetadata → Type 0
IsSmall meta = meta.last_sent_seq + 10 < i64_mod + meta.last_acked_seq

pub record IsComplete (msg : OrderedMessage) : Type 0 where
  pub numbered : 0 < msg.server_seq
  pub timed : 0 < msg.timestamp
  pub retries_natural : IsNatural msg.retries
  pub nonempty : 0 < length msg.bytes
  pub bounded : length msg.bytes ≤ 1048576

abbrev pub Present : {A : Type 0} → (A → Type 0) → Option A → Type 0
Present P none = ⊥
Present P (some a) = P a

-- A pointer that may be nil.
abbrev pub WherePresent : {A : Type 0} → (A → Type 0) → Option A → Type 0
WherePresent P none = Unit
WherePresent P (some a) = P a

abbrev pub Differs : ℕ → Option OrderedMessage → Type 0
Differs seq none = Unit {0}
Differs seq (some msg) = seq ≢ msg.server_seq

-- No two messages have one number.
abbrev pub IsUnrepeated : List (Option OrderedMessage) → Type 0
IsUnrepeated [] = Unit {0}
IsUnrepeated (none ∷ msgs) = IsUnrepeated msgs
IsUnrepeated (some msg ∷ msgs) = All (Differs msg.server_seq) msgs × IsUnrepeated msgs

abbrev pub IsBatch : List (Option OrderedMessage) → Type 0
IsBatch msgs = All (Present IsComplete) msgs × IsUnrepeated msgs

pub record IsSyncable (d : SessionSyncData) : Type 0 where
  pub named : d.session_id ≢ ""
  pub owned : d.open_id ≢ ""
  pub state_natural : IsNatural d.state
  pub state_le : pos_part d.state ≤ 3
  pub created : 0 < d.create_time
  pub active : 0 < d.last_activity
  pub answered : 0 < d.max_client_seq → 0 < d.server_seq
  pub queue : WherePresent IsConsistent d.queue_meta
  pub messages : IsBatch d.pending_msgs

abbrev pub HasSmallQueue : SessionSyncData → Type 0
HasSmallQueue d = WherePresent IsSmall d.queue_meta

pub record IsFullBatch (d : FullSyncData) : Type 0 where
  pub named : d.server_id ≢ ""
  pub timed : IsPositive d.timestamp
  pub batches : IsPositive d.total_batches
  pub index_natural : IsNatural d.batch_index
  pub index_lt : pos_part d.batch_index < pos_part d.total_batches
  pub total_natural : IsNatural d.total_count
  pub bounded : length d.sessions ≤ 1000
  pub valid : All (Present IsSyncable) d.sessions

pub record IsBeat (d : HeartbeatData) : Type 0 where
  pub named : d.server_id ≢ ""
  pub timed : IsPositive d.timestamp
  pub mode_known : (d.mode ≡ mode_primary) ⊎ (d.mode ≡ mode_backup)
  pub sessions_natural : IsNatural d.session_count
  pub queues_natural : IsNatural d.queue_count

pub record IsRouted (msg : SyncMessage) : Type 0 where
  pub type_positive : IsPositive msg.type
  pub type_le : pos_part msg.type ≤ 7
  pub timed : IsPositive msg.timestamp
  pub named : pos_part msg.type ≤ 5 → msg.session_id ≢ ""
