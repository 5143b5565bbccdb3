-- ===== src/Backup/Validator.antt =====
-- internal/backup/data_validator.go: the checks on what the two servers exchange. Each check
-- returns `none` where Go returns nil, and otherwise its error.
pub mod Meaning
pub mod Exact
use gateway_test.Prelude.{
  ℕ, ◌+◌, ◌-◌, refl, Bool, false, not, ◌&&◌, ◌||◌, Option, none, some, List, [], ◌∷◌, arith, ltb,
  eqb, if◌then◌else◌, ◌==◌, nat_eq, string_eq, length, u64, ℤ, pos, leb_ℤ, ltb_ℤ, signed64, eqb_ℤ,
}
use gateway_test.Session.Queue.{OrderedMessage}
use gateway_test.Backup.Records.{
  SyncMessage, SessionSyncData, QueueMetadata, HeartbeatData, FullSyncData, create_session_type,
  full_sync_type, sync_messages_type, mode_primary, mode_backup,
}

pub data ValidationError : Type 0 where
  is_nil no_session_id no_open_id no_server_id no_create_time no_last_activity : ValidationError
  bad_state bad_timestamp bad_mode bad_type : ℤ → ValidationError
  no_server_seq zero_next_seq acked_beyond_sent negative_pending negative_size : ValidationError
  pending_too_many : ℤ → ℕ → ValidationError
  bad_queue bad_messages : ValidationError → ValidationError
  nil_message zero_seq repeated_seq no_timestamp negative_retries no_bytes : ℕ → ValidationError
  too_many_bytes : ℕ → ValidationError
  negative_session_count negative_queue_count negative_total : ValidationError
  no_batches bad_batch_index too_many_sessions : ValidationError
  bad_session : ℕ → ValidationError → ValidationError

infixl 5 ◌or_else◌
-- A check that returns early with its error.
abbrev pub ◌or_else◌ : Option ValidationError → Option ValidationError → Option ValidationError
some e or_else rest = some e
none or_else rest = rest

abbrev pub refuse_if : Bool → ValidationError → Option ValidationError
refuse_if test e = if test then some e else none

-- `fmt.Errorf("…: %w", err)`
abbrev pub wrapped :
    (ValidationError → ValidationError) → Option ValidationError → Option ValidationError
wrapped f none = none
wrapped f (some e) = some (f e)

abbrev pub is_negative : ℤ → Bool
is_negative a = ltb_ℤ a (pos 0)

abbrev pub is_positive : ℤ → Bool
is_positive a = ltb_ℤ (pos 0) a

-- uint64 subtraction wraps, and so do the sum and its conversion to int64. `expectedPending < 0` is
-- never true of a uint64.
abbrev pub expected_pending : QueueMetadata → ℕ
expected_pending meta = u64 (meta.last_sent_seq + 18446744073709551616 - meta.last_acked_seq)

pub check_queue : QueueMetadata → Option ValidationError
check_queue meta =
    refuse_if (ltb meta.last_sent_seq meta.last_acked_seq) acked_beyond_sent
    or_else refuse_if (eqb meta.next_expected_seq 0) zero_next_seq
    or_else refuse_if (is_negative meta.pending_count) negative_pending
    or_else refuse_if (is_negative meta.queue_size) negative_size
    or_else refuse_if (ltb_ℤ (signed64 (u64 (expected_pending meta + 10))) meta.pending_count)
        (pending_too_many meta.pending_count (expected_pending meta))

unfoldable pub validate_queue : Option QueueMetadata → Option ValidationError
unfolding check_queue
validate_queue none = some is_nil
validate_queue (some meta) = check_queue meta

-- Whether the map of the numbers seen so far holds one.
abbrev pub seen : ℕ → List ℕ → Bool
seen seq [] = false
seen seq (other ∷ seqs) = eqb other seq || seen seq seqs

abbrev pub max_message_bytes : ℕ
max_message_bytes = 1048576

pub check_message : ℕ → List ℕ → OrderedMessage → Option ValidationError
check_message i seqs msg =
    refuse_if (eqb msg.server_seq 0) (zero_seq i)
    or_else refuse_if (seen msg.server_seq seqs) (repeated_seq i)
    or_else refuse_if (eqb msg.timestamp 0) (no_timestamp i)
    or_else refuse_if (is_negative msg.retries) (negative_retries i)
    or_else refuse_if (eqb (length msg.bytes) 0) (no_bytes i)
    or_else refuse_if (ltb max_message_bytes (length msg.bytes)) (too_many_bytes i)

-- The loop, at index `i` with the numbers seen so far.
pub check_messages : ℕ → List ℕ → List (Option OrderedMessage) → Option ValidationError
check_messages i seqs [] = none
check_messages i seqs (none ∷ msgs) = some (nil_message i)
check_messages i seqs (some msg ∷ msgs) =
    check_message i seqs msg or_else check_messages (i + 1) (msg.server_seq ∷ seqs) msgs

unfoldable pub validate_messages : List (Option OrderedMessage) → Option ValidationError
unfolding check_messages check_message
validate_messages msgs = check_messages 0 [] msgs

pub check_queue_meta : Option QueueMetadata → Option ValidationError
check_queue_meta none = none
check_queue_meta (some meta) = wrapped bad_queue (validate_queue (some meta))

pub check_session : SessionSyncData → Option ValidationError
unfolding check_queue_meta
check_session d =
    refuse_if (d.session_id == "") no_session_id
    or_else refuse_if (d.open_id == "") no_open_id
    or_else refuse_if (is_negative d.state || ltb_ℤ (pos 3) d.state) (bad_state d.state)
    or_else refuse_if (eqb d.create_time 0) no_create_time
    or_else refuse_if (eqb d.last_activity 0) no_last_activity
    or_else refuse_if (ltb 0 d.max_client_seq && eqb d.server_seq 0) no_server_seq
    or_else check_queue_meta d.queue_meta
    or_else wrapped bad_messages (validate_messages d.pending_msgs)

unfoldable pub validate_session : Option SessionSyncData → Option ValidationError
unfolding check_session
validate_session none = some is_nil
validate_session (some d) = check_session d

unfoldable pub validate_heartbeat : Option HeartbeatData → Option ValidationError
validate_heartbeat none = some is_nil
validate_heartbeat (some d) =
    refuse_if (d.server_id == "") no_server_id
    or_else refuse_if (not (is_positive d.timestamp)) (bad_timestamp d.timestamp)
    or_else refuse_if (not (eqb_ℤ d.mode mode_primary) && not (eqb_ℤ d.mode mode_backup))
        (bad_mode d.mode)
    or_else refuse_if (is_negative d.session_count) negative_session_count
    or_else refuse_if (is_negative d.queue_count) negative_queue_count

-- The loop over the sessions of a batch.
pub check_sessions : ℕ → List (Option SessionSyncData) → Option ValidationError
check_sessions i [] = none
check_sessions i (d ∷ ds) =
    wrapped (bad_session i) (validate_session d) or_else check_sessions (i + 1) ds

unfoldable pub validate_full_sync : Option FullSyncData → Option ValidationError
unfolding check_sessions
validate_full_sync none = some is_nil
validate_full_sync (some d) =
    refuse_if (d.server_id == "") no_server_id
    or_else refuse_if (not (is_positive d.timestamp)) (bad_timestamp d.timestamp)
    or_else refuse_if (not (is_positive d.total_batches)) no_batches
    or_else refuse_if (is_negative d.batch_index || leb_ℤ d.total_batches d.batch_index)
        bad_batch_index
    or_else refuse_if (is_negative d.total_count) negative_total
    or_else refuse_if (ltb 1000 (length d.sessions)) too_many_sessions
    or_else check_sessions 0 d.sessions

-- The switch: the types up to the messages want a session id, the two others do not.
abbrev pub wants_session_id : ℤ → Bool
wants_session_id type = leb_ℤ type sync_messages_type

unfoldable pub validate_sync_message : Option SyncMessage → Option ValidationError
validate_sync_message none = some is_nil
validate_sync_message (some msg) =
    refuse_if (ltb_ℤ msg.type create_session_type || ltb_ℤ full_sync_type msg.type)
      (bad_type msg.type)
    or_else refuse_if (not (is_positive msg.timestamp)) (bad_timestamp msg.timestamp)
    or_else refuse_if (wants_session_id msg.type && msg.session_id == "") no_session_id
