-- ===== src/Backup/Validator/Exact.antt =====
-- Each check accepts exactly what its meaning says.
use gateway_test.Backup.Validator.Meaning.{
  IsFullBatch, Present, IsSyncable, IsRouted, HasSmallQueue, IsBeat, WherePresent, IsSmall,
  IsConsistent, IsComplete, Differs, IsBatch,
}
use gateway_test.Backup.Records.{
  FullSyncData, HeartbeatData, SessionSyncData, SyncMessage, QueueMetadata,
}
use gateway_test.Backup.Validator.{
  validate_queue, validate_session, validate_heartbeat, check_queue_meta, check_sessions,
  validate_sync_message, check_session, validate_full_sync, ValidationError, validate_messages,
  check_message, check_messages, check_queue, seen, ◌or_else◌, wrapped,
}
use gateway_test.Prelude.{
  ℕ, ◌+◌, ◌≡◌, refl, ◌↔◌, false, Option, none, some, List, [], ◌∷◌, arith, nat_eq, string_eq, All,
}
use gateway_test.Session.Queue.{OrderedMessage}

or_else-none : (a b : Option ValidationError) → ((a or_else b) ≡ none) ↔ ((a ≡ none) × (b ≡ none))
or_else-none none b = (λ h. (refl, h), λ h. h.1)
or_else-none (some e) b = (λ h. cc, λ h. cc)

wrapped-none :
    (f : ValidationError → ValidationError) (a : Option ValidationError)
    → (wrapped f a ≡ none) ↔ (a ≡ none)
wrapped-none f none = (λ _. refl, λ _. refl)
wrapped-none f (some e) = (λ h. cc, λ h. cc)

check_queue_sound :
    (meta : QueueMetadata) → IsSmall meta → check_queue meta ≡ none → IsConsistent meta
unfolding check_queue
check_queue_sound meta small h = ground arith

check_queue_complete :
    (meta : QueueMetadata) → IsSmall meta → IsConsistent meta → check_queue meta ≡ none
unfolding check_queue
check_queue_complete meta small v = ground arith

-- The numbers seen so far, and those of a message.
abbrev Fresh : List ℕ → Option OrderedMessage → Type 0
Fresh seqs none = Unit {0}
Fresh seqs (some msg) = seen msg.server_seq seqs ≡ false

check_message_iff :
    (i : ℕ) (seqs : List ℕ) (msg : OrderedMessage)
    → (check_message i seqs msg ≡ none) ↔ (IsComplete msg × Fresh seqs (some msg))
unfolding check_message
check_message_iff i seqs msg = (λ h. (ground arith, ground arith), λ h. ground arith)

Fresh-cons :
    (seq : ℕ) (seqs : List ℕ) (msg : Option OrderedMessage)
    → Fresh (seq ∷ seqs) msg ↔ (Differs seq msg × Fresh seqs msg)
Fresh-cons seq seqs none = (λ h. (tt, tt), λ h. tt)
Fresh-cons seq seqs (some msg) = (λ h. (ground arith, ground arith), λ h. ground arith)

All-Fresh-cons :
    (seq : ℕ) (seqs : List ℕ) (msgs : List (Option OrderedMessage))
    → All (Fresh (seq ∷ seqs)) msgs ↔ (All (Differs seq) msgs × All (Fresh seqs) msgs)
All-Fresh-cons seq seqs [] = (λ h. (tt, tt), λ h. tt)
All-Fresh-cons seq seqs (msg ∷ msgs) =
    let once = Fresh-cons seq seqs msg in
    let rest = All-Fresh-cons seq seqs msgs in
    (
      λ h. (((once.0 h.0).0, (rest.0 h.1).0), ((once.0 h.0).1, (rest.0 h.1).1)),
      λ h. (once.1 (h.0.0, h.1.0), rest.1 (h.0.1, h.1.1)),
    )

check_messages_iff :
    (i : ℕ) (seqs : List ℕ) (msgs : List (Option OrderedMessage))
    → (check_messages i seqs msgs ≡ none) ↔ (IsBatch msgs × All (Fresh seqs) msgs)
unfolding check_messages
check_messages_iff i seqs [] = (λ h. ((tt, tt), tt), λ h. refl)
check_messages_iff i seqs (none ∷ msgs) = (λ h. cc, λ h. absurd h.0.0.0)
check_messages_iff i seqs (some msg ∷ msgs) =
    let here = check_message_iff i seqs msg in
    let later = check_messages_iff (i + 1) (msg.server_seq ∷ seqs) msgs in
    let split = All-Fresh-cons msg.server_seq seqs msgs in
    let both =
      or_else-none (check_message i seqs msg)
        (check_messages (i + 1) (msg.server_seq ∷ seqs) msgs) in
    (
      λ h.
          let (first, second) = both.0 h in
          let (complete, new) = here.0 first in
          let (batch, rest) = later.0 second in
          let (differ, fresh) = split.0 rest in
          (((complete, batch.0), (differ, batch.1)), (new, fresh)),
      λ ((present, (differ, unrepeated)), (new, fresh)).
          both.1
            (here.1 (present.0, new), later.1 ((present.1, unrepeated), split.1 (differ, fresh))),
    )

All-Fresh-nil : (msgs : List (Option OrderedMessage)) → All (Fresh []) msgs
All-Fresh-nil [] = tt
All-Fresh-nil (none ∷ msgs) = (tt, All-Fresh-nil msgs)
All-Fresh-nil (some msg ∷ msgs) = (refl, All-Fresh-nil msgs)

-- A list of messages passes exactly if each is there and complete and no two have one number.
pub validate_messages_iff :
    (msgs : List (Option OrderedMessage)) → (validate_messages msgs ≡ none) ↔ IsBatch msgs
unfolding validate_messages
validate_messages_iff msgs =
    let all = check_messages_iff 0 [] msgs in (λ h. (all.0 h).0, λ b. all.1 (b, All-Fresh-nil msgs))

check_queue_meta_iff :
    (meta : Option QueueMetadata)
    → WherePresent IsSmall meta
    → (check_queue_meta meta ≡ none) ↔ WherePresent IsConsistent meta
unfolding check_queue_meta validate_queue
check_queue_meta_iff none small = (λ h. tt, λ h. refl)
check_queue_meta_iff (some meta) small =
    let inner = wrapped-none ValidationError.bad_queue (check_queue meta) in
    (
      λ h. check_queue_sound meta small (inner.0 h),
      λ v. inner.1 (check_queue_complete meta small v),
    )

check_session_sound :
    (d : SessionSyncData) → HasSmallQueue d → check_session d ≡ none → IsSyncable d
unfolding check_session
check_session_sound d small h =
    let queue : check_queue_meta d.queue_meta ≡ none = ground arith in
    let messages : wrapped ValidationError.bad_messages (validate_messages d.pending_msgs) ≡ none =
      ground arith in
    record {
      named = ground (arith, string_eq.beq_iff d.session_id "");
      owned = ground (arith, string_eq.beq_iff d.open_id "");
      state_natural = ground arith;
      state_le = ground arith;
      created = ground arith;
      active = ground arith;
      answered = λ sent. ground arith;
      queue = (check_queue_meta_iff d.queue_meta small).0 queue;
      messages = (validate_messages_iff d.pending_msgs).0 (
          (wrapped-none ValidationError.bad_messages (validate_messages d.pending_msgs)).0
            messages);
    }

check_session_complete :
    (d : SessionSyncData) → HasSmallQueue d → IsSyncable d → check_session d ≡ none
unfolding check_session
check_session_complete d small v =
    let queue = (check_queue_meta_iff d.queue_meta small).1 v.queue in
    let messages =
      (wrapped-none ValidationError.bad_messages (validate_messages d.pending_msgs)).1
        ((validate_messages_iff d.pending_msgs).1 v.messages) in
    ground (
      arith,
      string_eq.beq_iff d.session_id "",
      string_eq.beq_iff d.open_id "",
      v.named,
      v.owned,
      v.answered,
      queue,
      messages,
    )

check_sessions_iff :
    (i : ℕ) (ds : List (Option SessionSyncData))
    → All (WherePresent HasSmallQueue) ds
    → (check_sessions i ds ≡ none) ↔ All (Present IsSyncable) ds
unfolding check_sessions validate_session
check_sessions_iff i [] small = (λ h. tt, λ h. refl)
check_sessions_iff i (none ∷ ds) small = (λ h. cc, λ h. absurd h.0)
check_sessions_iff i (some d ∷ ds) small =
    let later = check_sessions_iff (i + 1) ds small.1 in
    let inner = wrapped-none (ValidationError.bad_session i) (check_session d) in
    let both =
      or_else-none (wrapped (ValidationError.bad_session i) (check_session d))
        (check_sessions (i + 1) ds) in
    (
      λ h. (check_session_sound d small.0 (inner.0 (both.0 h).0), later.0 (both.0 h).1),
      λ v. both.1 (inner.1 (check_session_complete d small.0 v.0), later.1 v.1),
    )

-- A batch of a full synchronisation, in each of whose queues the numbers sent and not acknowledged
-- are fewer than 2^63 - 10, passes exactly if its header is in range and every session in it is
-- there, complete and consistent. In a larger one the check's int64 wraps.
pub validate_full_sync_iff :
    (d : FullSyncData)
    → All (WherePresent HasSmallQueue) d.sessions
    → (validate_full_sync (some d) ≡ none) ↔ IsFullBatch d
unfolding validate_full_sync
validate_full_sync_iff d small =
    let loop = check_sessions_iff 0 d.sessions small in
    let named = string_eq.beq_iff d.server_id "" in
    (
      λ h.
          let passed : check_sessions 0 d.sessions ≡ none = ground arith in
          record {
            named = ground (arith, named);
            timed = ground arith;
            batches = ground arith;
            index_natural = ground arith;
            index_lt = ground arith;
            total_natural = ground arith;
            bounded = ground arith;
            valid = loop.0 passed;
          },
      λ v. ground (arith, named, v.named, loop.1 v.valid),
    )

pub validate_heartbeat_iff : (d : HeartbeatData) → (validate_heartbeat (some d) ≡ none) ↔ IsBeat d
unfolding validate_heartbeat
validate_heartbeat_iff d =
    let named = string_eq.beq_iff d.server_id "" in
    (
      λ h. record {
        named = ground (arith, named);
        timed = ground arith;
        mode_known = ground arith;
        sessions_natural = ground arith;
        queues_natural = ground arith;
      },
      λ v. ground (arith, named, v.named, v.mode_known),
    )

pub validate_sync_message_iff :
    (msg : SyncMessage) → (validate_sync_message (some msg) ≡ none) ↔ IsRouted msg
unfolding validate_sync_message
validate_sync_message_iff msg =
    let named = string_eq.beq_iff msg.session_id "" in
    (
      λ h. record {
        type_positive = ground arith;
        type_le = ground arith;
        timed = ground arith;
        named = λ low. ground (arith, named);
      },
      λ v. ground (arith, named, v.named),
    )
