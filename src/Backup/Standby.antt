-- ===== src/Backup/Standby.antt =====
-- internal/backup/backup_manager.go: the services of a server that is a primary or a backup, and
-- the change between the two. The streams are objects that the manager and the failover service
-- share, so the model has a store of them. A method that waits for ever for a lock gives `none`.
pub mod Deadlock
pub mod Relapse
use gateway_test.Prelude.{
  ℕ, ◌+◌, String, refl, Bool, true, false, not, Option, none, some, List, [], ◌∷◌, ◌++◌, map, arith,
  eqb, if◌then◌else◌, ◌==◌, nat_eq, string_eq, length, get_elem?, set, ℤ, pos, is_some, eqb_ℤ,
}
use gateway_test.Backup.Records.{ServerMode, mode_primary, mode_backup, BackupConfig, SyncConfig}
use gateway_test.Backup.Heartbeat.{HeartbeatService, new_heartbeat_service_with_addr}
use gateway_test.Backup.Heartbeat
use gateway_test.Backup.Sync.{
  SyncService, SyncLog, SyncError, new_sync_service_with_addr, full_sync,
}
use gateway_test.Backup.Sync
use gateway_test.Backup.Receiver.{SyncReceiver, new_sync_receiver_with_addr}
use gateway_test.Backup.Receiver
use gateway_test.Backup.Failover.{
  FailoverService, FailoverError, new_failover_service, switch_to_primary, switch_to_backup,
  detector_tick,
}
use gateway_test.Backup.Failover
use gateway_test.Session.Manager.{Manager}
use mathlib.Core.Option

-- `sync_service` and `failover_stream` point into `streams`. `mode_locked` says that a method holds
-- the manager's mode lock; `hooks` counts the session hooks that were scheduled.
pub record BackupManager : Type 0 where
  pub config : BackupConfig
  pub server_id : String
  pub current_mode : ServerMode
  pub mode_locked : Bool
  pub session_mgr : Option Manager
  pub streams : List SyncService
  pub sync_service : Option ℕ
  pub sync_receiver : Option SyncReceiver
  pub heartbeat_service : Option HeartbeatService
  pub failover_service : Option FailoverService
  pub failover_stream : Option ℕ
  pub stopped : Bool
  pub hooks : ℕ

pub data StandbyError : Type 0 where
  not_enabled already_in_mode no_failover_service no_sync_service cannot_listen : StandbyError
  failover_error : FailoverError → StandbyError
  sync_error : SyncError → StandbyError

unfoldable pub new_backup_manager : BackupConfig → String → BackupManager
new_backup_manager config server_id = record {
  config = config;
  server_id = server_id;
  current_mode = pos 0;
  mode_locked = false;
  session_mgr = none;
  streams = [];
  sync_service = none;
  sync_receiver = none;
  heartbeat_service = none;
  failover_service = none;
  failover_stream = none;
  stopped = false;
  hooks = 0;
}

unfoldable pub register_session_manager : Manager → BackupManager → BackupManager
register_session_manager m bm = record bm { session_mgr = some m }

infixl 5 ◌>>=◌
-- A step that may wait for ever.
abbrev pub ◌>>=◌ : {A B : Type 0} → Option A → (A → Option B) → Option B
none >>= f = none
some a >>= f = f a

-- `GetMode`: a read lock, which the holder of the lock waits for in vain.
unfoldable pub get_mode : BackupManager → Option ServerMode
get_mode bm = if bm.mode_locked then none else some bm.current_mode

abbrev pub lock_mode : BackupManager → Option BackupManager
lock_mode bm = if bm.mode_locked then none else some (record bm { mode_locked = true })

abbrev pub unlock_mode : BackupManager → BackupManager
unlock_mode bm = record bm { mode_locked = false }

abbrev pub sync_addr_of : BackupConfig → String
sync_addr_of config = if config.sync_addr == "" then config.sync.peer_addr else config.sync_addr

abbrev heartbeat_addr_of : BackupConfig → String
heartbeat_addr_of config =
    if config.heartbeat_addr == "" then config.sync.peer_addr else config.heartbeat_addr

-- A new stream, started.
pub open_stream : ℤ → BackupManager → BackupManager
open_stream now bm = record bm {
  streams =
      bm.streams ++ new_sync_service_with_addr now bm.config.sync (sync_addr_of bm.config) ∷ [];
  sync_service = some (length bm.streams);
}

-- A new receiver, started. `listens` is the outcome of net.Listen.
pub open_receiver : Bool → BackupManager → BackupManager × Option StandbyError
open_receiver listens bm =
    let (r, started) =
      Receiver.start listens
        (new_sync_receiver_with_addr bm.config.sync bm.session_mgr (sync_addr_of bm.config)) in
    (record bm { sync_receiver = some r }, if started then none else some cannot_listen)

start_sync_services : ℤ → Bool → BackupManager → BackupManager × Option StandbyError
unfolding open_stream open_receiver
start_sync_services now listens bm =
    if eqb_ℤ bm.current_mode mode_primary
    then (open_stream now bm, none)
    else if eqb_ℤ bm.current_mode mode_backup
    then open_receiver listens bm
    else (bm, none)

start_heartbeat_service : Bool → BackupManager → BackupManager × Option StandbyError
start_heartbeat_service listens bm =
    let h =
      new_heartbeat_service_with_addr bm.config.sync bm.current_mode bm.server_id bm.session_mgr
        (heartbeat_addr_of bm.config) in
    if eqb_ℤ bm.current_mode mode_primary
    then (record bm { heartbeat_service = some h }, none)
    else if listens
    then (record bm { heartbeat_service = some (Heartbeat.start_listener true h) }, none)
    else (record bm { heartbeat_service = some h }, some cannot_listen)

start_failover_service : BackupManager → BackupManager
start_failover_service bm = record bm {
  failover_service = some (new_failover_service bm.config.failover bm.current_mode);
  failover_stream = bm.sync_service;
}

-- The two outcomes of net.Listen are those of the receiver and of the heartbeats. A primary
-- schedules its session hooks.
unfoldable pub start : ℤ → Bool → Bool → BackupManager → BackupManager × Option StandbyError
unfolding start_sync_services start_heartbeat_service start_failover_service
start now listens hears bm =
    let here = record bm { current_mode = bm.config.sync.mode } in
    if not bm.config.sync.enabled
    then (here, none)
    else let (with_sync, e) = start_sync_services now listens here in
      let (with_heart, e') = start_heartbeat_service hears with_sync in
      if is_some e
      then (with_sync, e)
      else if is_some e'
      then (with_heart, e')
      else let running = start_failover_service with_heart in
        (
          if eqb_ℤ running.current_mode mode_primary
              then record running { hooks = running.hooks + 1 }
              else running,
          none,
        )

-- The end of the receiver and of the stream.
close_receiver : BackupManager → BackupManager
close_receiver bm = record bm { sync_receiver = none }

stop_stream : Option ℕ → BackupManager → BackupManager
stop_stream none bm = bm
stop_stream (some p) bm = elim (get_elem? bm.streams p) [
  | none ↦ bm
  | some s ↦ record bm { streams = set bm.streams p (Sync.stop s); sync_service = none }
]

become_primary : ℤ → BackupManager → BackupManager × Bool
unfolding open_stream close_receiver
become_primary now bm =
    let without = close_receiver bm in
    let streaming = if is_some without.sync_service then without else open_stream now without in
    (record streaming { hooks = streaming.hooks + 1 }, true)

pub become_backup : Bool → BackupManager → BackupManager × Bool
unfolding open_receiver stop_stream
become_backup listens bm =
    let without = stop_stream bm.sync_service bm in
    let (receiving, e) = open_receiver listens without in
    if is_some without.sync_receiver then (without, true) else (receiving, not (is_some e))

-- The callback that the failover service calls: it takes the mode lock for a moment, and changes
-- the services. The second component is whether it returns nil.
unfoldable pub on_mode_switch :
    ℤ → Bool → ServerMode → BackupManager → Option (BackupManager × Bool)
unfolding become_primary become_backup
on_mode_switch now listens mode bm = do
  locked ← lock_mode bm
  let switched = unlock_mode (record locked { current_mode = mode })
  some (
      if eqb_ℤ mode mode_primary
      then become_primary now switched
      else become_backup listens switched)

-- A switch of the failover service with this callback. The callback runs only if the mode is
-- another one.
switch_by :
    (FailoverService → FailoverService × Option FailoverError)
    → ServerMode
    → ℤ
    → Bool
    → FailoverService
    → BackupManager
    → Option (BackupManager × Option StandbyError)
switch_by switch mode now listens f bm =
    if eqb_ℤ f.current_mode mode
    then some (
      bm,
      some (
          failover_error (
            if eqb_ℤ mode mode_primary
            then FailoverError.already_primary
            else FailoverError.already_backup)),
    )
    else do
      (bm', succeeded) ← on_mode_switch now listens mode bm
      let (f', e) = switch (record f { switch_callback = some (λ _ _. succeeded) })
      some (
        record bm' { failover_service = some f' },
        elim e [ none ↦ none | some problem ↦ some (failover_error problem) ],
      )

switch_failover :
    ServerMode
    → ℤ
    → Bool
    → Option FailoverService
    → BackupManager
    → Option (BackupManager × Option StandbyError)
unfolding switch_by
switch_failover mode now listens none bm = some (bm, some no_failover_service)
switch_failover mode now listens (some f) bm =
    if eqb_ℤ mode mode_primary
    then switch_by (switch_to_primary now now) mode_primary now listens f bm
    else switch_by (switch_to_backup now now) mode_backup now listens f bm

-- The rest of SwitchMode, under the lock. Its log line reads the mode.
switch_locked : ServerMode → ℤ → Bool → BackupManager → Option (BackupManager × Option StandbyError)
unfolding switch_failover
switch_locked mode now listens locked = do
  shown ← get_mode locked
  (bm', e) ← switch_failover mode now listens locked.failover_service locked
  some (unlock_mode bm', e)

unlock_refused : BackupManager → Option (BackupManager × Option StandbyError)
unlock_refused locked = some (unlock_mode locked, some already_in_mode)

unfoldable pub switch_mode :
    ServerMode → ℤ → Bool → BackupManager → Option (BackupManager × Option StandbyError)
unfolding switch_locked unlock_refused
switch_mode mode now listens bm =
    if not bm.config.sync.enabled then some (bm, some not_enabled) else do
      locked ← lock_mode bm
      elim (eqb_ℤ locked.current_mode mode) [
        | true ↦ unlock_refused locked
        | false ↦ switch_locked mode now listens locked
      ]

unfoldable pub trigger_failover :
    ℤ → Bool → BackupManager → Option (BackupManager × Option StandbyError)
unfolding switch_failover
trigger_failover now listens bm =
    switch_failover (if eqb_ℤ bm.current_mode mode_backup then mode_primary else mode_backup) now
      listens bm.failover_service bm

-- The stream that the failover service watches.
watched : List SyncService → Option ℕ → Option SyncService
watched streams none = none
watched streams (some p) = get_elem? streams p

detected_by :
    ℤ → Bool → HeartbeatService → Option FailoverService → BackupManager → Option BackupManager
unfolding watched
detected_by now listens h none bm = some bm
detected_by now listens h (some f) bm =
    let sync = watched bm.streams bm.failover_stream in
    let quiet = record f { switch_callback = some (λ _ _. false) } in
    let asks = detector_tick now now h sync quiet in
    let answered = λ (r : BackupManager × Bool). record r.0 {
      failover_service =
          some (detector_tick now now h sync (record f { switch_callback = some (λ _ _. r.1) }));
    } in
    if eqb (length asks.switch_calls) (length f.switch_calls)
    then some (record bm { failover_service = some asks })
    else do r ← on_mode_switch now listens mode_primary bm; some (answered r)

-- One tick of the detecting loop of the manager's failover service. The callback runs if the tick
-- calls it.
unfoldable pub detect_tick : ℤ → Bool → HeartbeatService → BackupManager → Option BackupManager
unfolding detected_by
detect_tick now listens h bm = detected_by now listens h bm.failover_service bm

unfoldable pub stop : BackupManager → BackupManager
unfolding close_receiver stop_stream
stop bm =
    if bm.stopped
    then bm
    else (let halted = stop_stream bm.sync_service (record bm { stopped = true }) in
        record halted {
          sync_service = bm.sync_service;
          sync_receiver = Option.map Receiver.stop bm.sync_receiver;
          heartbeat_service = Option.map Heartbeat.stop bm.heartbeat_service;
          failover_service = Option.map Failover.stop bm.failover_service;
        })
