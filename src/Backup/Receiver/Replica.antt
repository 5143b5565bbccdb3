-- ===== src/Backup/Receiver/Replica.antt =====
-- What the backup holds of the primary's sessions.
use gateway_test.Prelude.{
  ℕ, String, ◌≡◌, refl, Bool, true, none, some, List, [], ◌∷◌, arith, nat_eq, string_eq, ℤ,
}
use gateway_test.Prelude.Dict.{lookup}
use gateway_test.Backup.Records.{SyncMessage, SyncPayload, mode_primary}
use gateway_test.Backup.Receiver.{
  Json, SyncReceiver, process_message, handle_message, handle_stream, update_local_session,
  update_local_queue, update_local_messages,
}
use gateway_test.Backup.Failover.{FailoverService, restore_sessions}
use gateway_test.Session.Manager.{
  get_session, Manager, remove_session, remove_session_with_delay, find_session, get_session_count,
}

remove_session_absent : (id : String) (m : Manager) → m.sessions ≡ [] → remove_session id m ≡ m
unfolding remove_session remove_session_with_delay find_session lookup
remove_session_absent id m e = ground (arith, e)

module _ (json : Json) (calculate_checksum : SyncPayload → ℕ) where
  process_keeps :
      (msg : SyncMessage) (r : SyncReceiver) (m : Manager)
      → r.session_mgr ≡ some m
      → m.sessions ≡ []
      → (process_message json calculate_checksum msg r).0.session_mgr ≡ some m
  unfolding process_message update_local_session update_local_queue update_local_messages
  process_keeps msg r m held e = ground (arith, held, remove_session_absent msg.session_id m e)

  handle_keeps :
      (now : ℤ) (msg : SyncMessage) (r : SyncReceiver) (m : Manager)
      → r.session_mgr ≡ some m
      → m.sessions ≡ []
      → (handle_message json calculate_checksum now msg r).session_mgr ≡ some m
  unfolding handle_message
  handle_keeps now msg r m held e = ground (arith, process_keeps msg r m held e)

  stream_keeps :
      (msgs : List (ℤ × SyncMessage)) (r : SyncReceiver) (m : Manager)
      → r.session_mgr ≡ some m
      → m.sessions ≡ []
      → (handle_stream json calculate_checksum msgs r).session_mgr ≡ some m
  unfolding handle_stream
  stream_keeps [] r m held e = held
  stream_keeps ((now, msg) ∷ msgs) r m held e =
      stream_keeps msgs (handle_message json calculate_checksum now msg r) m
        (handle_keeps now msg r m held e) e

-- A defect of the standby: the receiver checks the sessions that the primary sends and stores none.
-- Whatever the stream brings to a backup without sessions, it has none when it becomes the primary,
-- and the restoration of the sessions reports success, if its callback does.
pub restore_sessions-restores_none :
    (json : Json) (calculate_checksum : SyncPayload → ℕ) (msgs : List (ℤ × SyncMessage))
    (r : SyncReceiver) (m : Manager) (f : FailoverService) (callback : ℕ → Bool) (id : String)
    → r.session_mgr ≡ some m
    → m.sessions ≡ []
    → f.current_mode ≡ mode_primary
    → f.restore_callback ≡ some callback
    → callback f.restore_calls ≡ true
    → let r' = handle_stream json calculate_checksum msgs r in
      (r'.session_mgr ≡ some m)
      × (get_session_count m ≡ 0)
      × (get_session id m ≡ none)
      × ((restore_sessions r'.session_mgr f).1 ≡ none)
unfolding get_session_count get_session find_session lookup restore_sessions
restore_sessions-restores_none json calculate_checksum msgs r m f callback id held e mode named
      agrees =
    let same = stream_keeps json calculate_checksum msgs r m held e in
    (same, rw e refl, rw e refl, rw same (ground (arith, mode, named, agrees)))
