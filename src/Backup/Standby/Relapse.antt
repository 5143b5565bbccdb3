-- ===== src/Backup/Standby/Relapse.antt =====
-- A primary that is told to become the backup.
use gateway_test.Backup.Standby.{
  ◌>>=◌, trigger_failover, become_backup, become_primary, on_mode_switch, BackupManager,
  detect_tick, detected_by, watched,
}
use gateway_test.Backup.Sync.{close_connection, close_stream, cancel_loops, SyncService}
use gateway_test.Backup.Failover.{
  switch_to_backup, FailoverService, detector_tick, detect_failure, switch_to_primary,
}
use gateway_test.Prelude.{
  ℕ, ◌+◌, ◌<◌, ◌≡◌, refl, ap, ◌∙◌, Bool, true, false, Option, none, some, List, ◌∷◌, arith, nat_eq,
  string_eq, length, get_elem?, set, ℤ,
}
use gateway_test.Backup.Records.{mode_primary, mode_backup}
use gateway_test.Backup.Heartbeat.{HeartbeatService}
use gateway_test.Backup.Sync
use gateway_test.Backup.Receiver
use gateway_test.Session.Manager.Removal.{get_elem?-set_self}

-- A backup whose failover service watches a stream that is down, after `n` failures in a row.
record IsCutOff (n : ℕ) (f : FailoverService) (s : SyncService) (bm : BackupManager) : Type 0 where
  free : bm.mode_locked ≡ false
  service : bm.failover_service ≡ some f
  backup : f.current_mode ≡ mode_backup
  counted : f.consecutive_failures ≡ n
  stream : watched bm.streams bm.failover_stream ≡ some s
  down : s.connected ≡ false

-- One tick that does not switch.
early_tick :
    (n : ℕ) (now later : ℤ) (h : HeartbeatService) (f : FailoverService) (s : SyncService)
    → f.current_mode ≡ mode_backup
    → f.consecutive_failures ≡ n
    → s.connected ≡ false
    → n < 2
    → let f' = detector_tick now later h (some s) f in
      (f'.current_mode ≡ mode_backup)
      × (f'.consecutive_failures ≡ n + 1)
      × (f'.switch_calls ≡ f.switch_calls)
unfolding detector_tick detect_failure
early_tick n now later h f s backup counted down small = (
  ground (arith, backup, counted, down),
  ground (arith, backup, counted, down),
  ground (arith, backup, counted, down),
)

late_tick :
    (now later : ℤ) (h : HeartbeatService) (f : FailoverService) (s : SyncService) (b : Bool)
    → f.current_mode ≡ mode_backup
    → f.consecutive_failures ≡ 2
    → s.connected ≡ false
    → let f' =
        detector_tick now later h (some s) (record f { switch_callback = some (λ _ _. b) }) in
      (f'.switch_calls ≡ mode_primary ∷ f.switch_calls)
      × (b ≡ true → f'.current_mode ≡ mode_primary)
unfolding detector_tick detect_failure switch_to_primary
late_tick now later h f s b backup counted down =
    (ground (arith, backup, counted, down), λ agrees. ground (arith, backup, counted, down, agrees))

abbrev pub answering : Bool → FailoverService → FailoverService
answering b f = record f { switch_callback = some (λ _ _. b) }

cut_tick :
    (n : ℕ) (now : ℤ) (listens : Bool) (h : HeartbeatService) (f : FailoverService)
    (s : SyncService) (bm : BackupManager)
    → IsCutOff n f s bm
    → n < 2
    → let f' = detector_tick now now h (some s) (answering false f) in
      let bm' = record bm { failover_service = some f' } in
      (detect_tick now listens h bm ≡ some bm') × IsCutOff (n + 1) f' s bm'
unfolding detect_tick detected_by
cut_tick n now listens h f s bm v small =
    let (mode, counter, calls) =
      early_tick n now now h (answering false f) s v.backup v.counted v.down small in
    (
      ground (arith, v.service, v.stream, ap length calls),
      record {
        free = v.free;
        service = refl;
        backup = mode;
        counted = counter;
        stream = v.stream;
        down = v.down;
      },
    )

-- The manager and its failover service are primary.
abbrev pub IsPrimary : BackupManager → Type 0
IsPrimary bm =
    (bm.current_mode ≡ mode_primary)
    × ((f : FailoverService) × (bm.failover_service ≡ some f) × (f.current_mode ≡ mode_primary))

last_tick :
    (now : ℤ) (listens : Bool) (h : HeartbeatService) (f : FailoverService) (s : SyncService)
    (bm : BackupManager)
    → IsCutOff 2 f s bm
    → (bm' : BackupManager) × (detect_tick now listens h bm ≡ some bm') × IsPrimary bm'
unfolding detect_tick detected_by on_mode_switch become_primary
last_tick now listens h f s bm v =
    let asks = late_tick now now h f s false v.backup v.counted v.down in
    let done = late_tick now now h f s true v.backup v.counted v.down in
    let f' = detector_tick now now h (some s) (answering true f) in
    let switched =
      (become_primary now (record bm { current_mode = mode_primary; mode_locked = false })).0 in
    (
      record switched { failover_service = some f' },
      ground (arith, v.free, v.service, v.stream, ap length asks.0),
      (ground (arith), (f', refl, done.1 refl)),
    )

-- The primary before the switch: its failover service watches its own stream.
pub record StreamsAsPrimary (p : ℕ) (f : FailoverService) (s : SyncService) (bm : BackupManager)
    : Type 0 where
  pub free : bm.mode_locked ≡ false
  pub service : bm.failover_service ≡ some f
  pub mode : bm.current_mode ≡ mode_primary
  pub same_mode : f.current_mode ≡ mode_primary
  pub none_failed : f.consecutive_failures ≡ 0
  pub own : bm.sync_service ≡ some p
  pub watches : bm.failover_stream ≡ some p
  pub stream : get_elem? bm.streams p ≡ some s
  pub live : s.stopped ≡ false

stop-down : (s : SyncService) → s.stopped ≡ false → (Sync.stop s).connected ≡ false
unfolding Sync.stop cancel_loops close_stream close_connection
stop-down s live = ground arith

become_backup_streams :
    (p : ℕ) (s : SyncService) (bm : BackupManager)
    → bm.sync_service ≡ some p
    → get_elem? bm.streams p ≡ some s
    → let r = become_backup true bm in
      (r.0.streams ≡ set bm.streams p (Sync.stop s))
      × (r.0.failover_stream ≡ bm.failover_stream)
      × (r.0.mode_locked ≡ bm.mode_locked)
      × (r.0.current_mode ≡ bm.current_mode)
      × (r.1 ≡ true)
unfolding become_backup Receiver.start
become_backup_streams p s bm own stream = (
  ground (arith, own, stream),
  ground (arith, own, stream),
  ground (arith, own, stream),
  ground (arith, own, stream),
  ground (arith, own, stream),
)

switch_to_backup_facts :
    (now : ℤ) (f : FailoverService)
    → f.current_mode ≡ mode_primary
    → let r = switch_to_backup now now (answering true f) in
      (r.0.current_mode ≡ mode_backup)
      × (r.0.consecutive_failures ≡ f.consecutive_failures)
      × (r.1 ≡ none)
unfolding switch_to_backup
switch_to_backup_facts now f e = (ground (arith, e), ground (arith, e), ground (arith, e))

-- The state that the switch leaves.
abbrev pub told : ℤ → FailoverService → BackupManager → BackupManager
told now f bm =
    record (become_backup true (record bm { current_mode = mode_backup; mode_locked = false })).0 {
      failover_service = some (switch_to_backup now now (answering true f)).0;
    }

watched_eq :
    {xs ys : List SyncService} {a b : Option ℕ} → xs ≡ ys → a ≡ b → watched xs a ≡ watched ys b
watched_eq e e' = cc

watched_found :
    (p : ℕ) (s t : SyncService) (streams : List SyncService)
    → get_elem? streams p ≡ some s
    → watched (set streams p t) (some p) ≡ some t
unfolding watched
watched_found p s t streams e = get_elem?-set_self streams p s t e

trigger_told :
    (now : ℤ) (p : ℕ) (f : FailoverService) (s : SyncService) (bm : BackupManager)
    → StreamsAsPrimary p f s bm
    → (trigger_failover now true bm ≡ some (told now f bm, none))
      × ((told now f bm).current_mode ≡ mode_backup)
      × IsCutOff 0 (switch_to_backup now now (answering true f)).0 (Sync.stop s) (told now f bm)
unfolding trigger_failover on_mode_switch
trigger_told now p f s bm v =
    let (streams, watches, free, mode, agrees) =
      become_backup_streams p s (record bm { current_mode = mode_backup; mode_locked = false })
        v.own v.stream in
    let (backup, counter, fine) = switch_to_backup_facts now f v.same_mode in
    (
      ground (arith, v.free, v.service, v.mode, v.same_mode, agrees, fine),
      mode,
      record {
        free = free;
        service = refl;
        backup = backup;
        counted = counter ∙ v.none_failed;
        stream =
            watched_eq streams (watches ∙ v.watches)
            ∙ watched_found p s (Sync.stop s) bm.streams v.stream;
        down = stop-down s v.live;
      },
    )

-- A defect of the change to the backup's mode: the failover service goes on watching the stream
-- that the change has stopped. A primary that TriggerFailover makes the backup becomes the primary
-- again at the third tick of the detecting loop, whatever the heartbeats say.
pub trigger_failover-relapses :
    (now n n' n'' : ℤ) (l l' l'' : Bool) (h h' h'' : HeartbeatService) (p : ℕ) (f : FailoverService)
    (s : SyncService) (bm : BackupManager)
    → StreamsAsPrimary p f s bm
    → let told = told now f bm in
      (trigger_failover now true bm ≡ some (told, none))
      × (told.current_mode ≡ mode_backup)
      × ((again : BackupManager) × ((detect_tick n l h told
              >>= detect_tick n' l' h'
              >>= detect_tick n'' l'' h'')
            ≡ some again)
          × IsPrimary again)
trigger_failover-relapses now n n' n'' l l' l'' h h' h'' p f s bm v =
    let (done, mode, cut) = trigger_told now p f s bm v in
    let b = told now f bm in
    let (once, cut') = cut_tick 0 n l h _ (Sync.stop s) b cut (omega arith) in
    let (twice, cut'') = cut_tick 1 n' l' h' _ (Sync.stop s) _ cut' (omega arith) in
    let (again, third, primary) = last_tick n'' l'' h'' _ (Sync.stop s) _ cut'' in
    (done, mode, (again, rw (once, twice) third, primary))
