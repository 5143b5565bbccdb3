-- ===== src/Backup/Failover.antt =====
-- internal/backup/failover.go: when and how the backup takes the primary's place. Each method and
-- each turn of the loops is one step. The switch callback is the outcome of its n-th call. Clocks
-- give int64 nanoseconds.
pub mod Detection
pub mod Takeover
pub mod Silence
use gateway_test.Prelude.{
  ℕ, ◌+◌, refl, Bool, true, false, not, ◌&&◌, Option, none, some, List, [], ◌∷◌, arith, leb,
  if◌then◌else◌, nat_eq, string_eq, length, ℤ, pos, sub64, ltb_ℤ, is_some, eqb_ℤ,
}
use gateway_test.Backup.Records.{
  ServerMode, mode_primary, mode_backup, FailoverConfig, HeartbeatData,
}
use gateway_test.Backup.Heartbeat.{
  HeartbeatService, is_overdue, increment, on_heartbeat_received, check_peer,
}
use gateway_test.Backup.Sync.{SyncService}
use gateway_test.Session.Manager.{Manager, get_session_count}
use gateway_test.Session.State.{Session}

pub record FailoverStats : Type 0 where
  pub total_switches : ℤ
  pub last_switch_time : ℤ
  pub switch_duration : ℤ
  pub failure_detections : ℤ
  pub recovery_attempts : ℤ
  pub recovery_successes : ℤ
  pub current_mode : ServerMode
  pub is_healthy : Bool

-- True where the callback returns nil.
abbrev pub SwitchCallback : Type 0
SwitchCallback = ℕ → ServerMode → Bool

-- `switch_calls` and `restore_calls` log the calls of the callbacks, newest first; the failures in a
-- row belong to the detecting loop, and `restores` counts the restorations that it scheduled.
pub record FailoverService : Type 0 where
  pub config : FailoverConfig
  pub current_mode : ServerMode
  pub stopped : Bool
  pub is_healthy : Bool
  pub stats : FailoverStats
  pub switch_callback : Option SwitchCallback
  pub restore_callback : Option (ℕ → Bool)
  pub switch_calls : List ServerMode
  pub restore_calls : ℕ
  pub consecutive_failures : ℕ
  pub restores : ℕ

pub data FailoverError : Type 0 where
  already_primary already_backup switch_callback_failed : FailoverError
  not_primary no_session_manager restore_callback_failed : FailoverError

unfoldable pub new_failover_service : FailoverConfig → ServerMode → FailoverService
new_failover_service config initial_mode = record {
  config = config;
  current_mode = initial_mode;
  stopped = false;
  is_healthy = true;
  stats = record {
    total_switches = pos 0;
    last_switch_time = pos 0;
    switch_duration = pos 0;
    failure_detections = pos 0;
    recovery_attempts = pos 0;
    recovery_successes = pos 0;
    current_mode = initial_mode;
    is_healthy = true;
  };
  switch_callback = none;
  restore_callback = none;
  switch_calls = [];
  restore_calls = 0;
  consecutive_failures = 0;
  restores = 0;
}

unfoldable pub set_switch_callback : SwitchCallback → FailoverService → FailoverService
set_switch_callback callback f = record f { switch_callback = some callback }

unfoldable pub set_restore_callback : (ℕ → Bool) → FailoverService → FailoverService
set_restore_callback callback f = record f { restore_callback = some callback }

unfoldable pub stop : FailoverService → FailoverService
stop f = if f.stopped then f else record f { stopped = true }

abbrev count_detection : FailoverService → FailoverService
count_detection f = record f {
  stats = record f.stats { failure_detections = increment f.stats.failure_detections };
}

-- The test on the heartbeats.
abbrev pub is_silent : ℤ → ℤ → HeartbeatService → Bool
is_silent now detection_timeout h =
    not h.peer_alive
    && (ltb_ℤ (pos 0) h.last_peer_time && is_overdue now h.last_peer_time detection_timeout)

-- A missing stream counts as connected.
abbrev pub is_cut_off : Option SyncService → Bool
is_cut_off none = false
is_cut_off (some s) = not s.connected

unfoldable pub detect_failure :
    ℤ → HeartbeatService → Option SyncService → FailoverService → FailoverService × Bool
detect_failure now h sync f =
    if is_silent now f.config.detection_timeout h
    then (count_detection f, true)
    else if is_cut_off sync
    then (count_detection f, true)
    else (f, false)

-- What the callback answers, with the log of its calls.
call_switch : ServerMode → Option SwitchCallback → FailoverService → FailoverService × Bool
call_switch mode none f = (f, true)
call_switch mode (some callback) f =
    (record f { switch_calls = mode ∷ f.switch_calls }, callback (length f.switch_calls) mode)

-- SwitchToPrimary and SwitchToBackup are one method for two modes. `later` is the clock after the
-- callback.
switch_to :
    FailoverError → ServerMode → ℤ → ℤ → FailoverService → FailoverService × Option FailoverError
unfolding call_switch
switch_to already mode now later f =
    if eqb_ℤ f.current_mode mode
    then (f, some already)
    else let (f', succeeded) = call_switch mode f.switch_callback f in
      if succeeded
      then (
        record f' {
          current_mode = mode;
          stats = record f'.stats {
            total_switches = increment f'.stats.total_switches;
            last_switch_time = later;
            switch_duration = sub64 later now;
            current_mode = mode;
          };
        },
        none,
      )
      else (f', some switch_callback_failed)

unfoldable pub switch_to_primary : ℤ → ℤ → FailoverService → FailoverService × Option FailoverError
unfolding switch_to
switch_to_primary now later f = switch_to already_primary mode_primary now later f

unfoldable pub switch_to_backup : ℤ → ℤ → FailoverService → FailoverService × Option FailoverError
unfolding switch_to
switch_to_backup now later f = switch_to already_backup mode_backup now later f

call_restore : Option (ℕ → Bool) → FailoverService → FailoverService × Bool
call_restore none f = (f, true)
call_restore (some callback) f =
    (record f { restore_calls = f.restore_calls + 1 }, callback f.restore_calls)

-- The sessions are counted and logged; nothing is done to them.
do_restore_sessions : Option Manager → FailoverService → FailoverService × Option FailoverError
unfolding call_restore
do_restore_sessions none f = (f, some no_session_manager)
do_restore_sessions (some m) f =
    let (f', succeeded) = call_restore f.restore_callback f in
    (f', if succeeded then none else some restore_callback_failed)

count_success : FailoverService × Option FailoverError → FailoverService × Option FailoverError
count_success (f, some e) = (f, some e)
count_success (f, none) = (
  record f { stats = record f.stats { recovery_successes = increment f.stats.recovery_successes } },
  none,
)

unfoldable pub restore_sessions :
    Option Manager → FailoverService → FailoverService × Option FailoverError
unfolding do_restore_sessions count_success
restore_sessions m f =
    if not (eqb_ℤ f.current_mode mode_primary)
    then (f, some not_primary)
    else count_success (
        do_restore_sessions m (record f {
          stats = record f.stats { recovery_attempts = increment f.stats.recovery_attempts };
        }))

-- A switch that succeeds schedules a restoration.
schedule_restore : FailoverService × Option FailoverError → FailoverService
schedule_restore (f, none) = record f { restores = f.restores + 1 }
schedule_restore (f, some e) = f

abbrev pub max_consecutive_failures : ℕ
max_consecutive_failures = 3

-- After a detection: a failure counts, and the third in a row switches and starts to count anew.
react : ℤ → ℤ → FailoverService × Bool → FailoverService
unfolding schedule_restore
react now later (f, false) = record f { consecutive_failures = 0 }
react now later (f, true) =
    let counted = record f { consecutive_failures = f.consecutive_failures + 1 } in
    if leb max_consecutive_failures counted.consecutive_failures
    then record (schedule_restore (switch_to_primary now later counted)) {
      consecutive_failures = 0;
    }
    else counted

-- One tick of the detecting loop.
unfoldable pub detector_tick :
    ℤ → ℤ → HeartbeatService → Option SyncService → FailoverService → FailoverService
unfolding react
detector_tick now later h sync f =
    if eqb_ℤ f.current_mode mode_backup then react now later (detect_failure now h sync f) else f

errors_of : Option SyncService → ℤ
errors_of none = pos 0
errors_of (some s) = s.stats.error_count

unfoldable pub check_system_health :
    Option Manager → Option HeartbeatService → Option SyncService → FailoverService → Bool
unfolding errors_of
check_system_health m h sync f =
    is_some m
    && (is_some h && not (eqb_ℤ f.current_mode mode_primary && ltb_ℤ (pos 100) (errors_of sync)))

-- One tick of the health checker.
unfoldable pub check_health :
    Option Manager
    → Option HeartbeatService
    → Option SyncService
    → FailoverService
    → FailoverService
check_health m h sync f =
    let healthy = check_system_health m h sync f in
    record f { is_healthy = healthy; stats = record f.stats { is_healthy = healthy } }
