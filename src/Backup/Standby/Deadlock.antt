-- ===== src/Backup/Standby/Deadlock.antt =====
-- The two ways to change the mode by hand, and the lock.
use gateway_test.Prelude.{
  ◌≡◌, refl, ◌≢◌, Bool, true, false, Option, none, some, arith, if◌then◌else◌, nat_eq, string_eq, ℤ,
  is_some, eqb_ℤ, eqb_ℤ_iff, if_both,
}
use gateway_test.Backup.Records.{ServerMode, mode_primary, mode_backup}
use gateway_test.Backup.Failover.{
  switch_to_primary, switch_to_backup, FailoverService, FailoverError,
}
use gateway_test.Backup.Standby.{
  BackupManager, StandbyError, switch_mode, trigger_failover, switch_failover, switch_by,
  on_mode_switch, get_mode,
}

switch_by_returns :
    (switch : FailoverService → FailoverService × Option FailoverError) (mode : ServerMode)
    (now : ℤ) (listens : Bool) (f : FailoverService) (bm : BackupManager)
    → bm.mode_locked ≡ false
    → is_some (switch_by switch mode now listens f bm) ≡ true
unfolding switch_by on_mode_switch
switch_by_returns switch mode now listens f bm free = ground (arith, free)

abbrev Returns : Option (BackupManager × Option StandbyError) → Type 0
Returns r = is_some r ≡ true

switch_failover_returns :
    (mode : ServerMode) (now : ℤ) (listens : Bool) (f : Option FailoverService) (bm : BackupManager)
    → bm.mode_locked ≡ false
    → is_some (switch_failover mode now listens f bm) ≡ true
unfolding switch_failover
switch_failover_returns mode now listens none bm free = refl
switch_failover_returns mode now listens (some f) bm free =
    if_both Returns (eqb_ℤ mode mode_primary)
      (switch_by_returns (switch_to_primary now now) mode_primary now listens f bm free)
      (switch_by_returns (switch_to_backup now now) mode_backup now listens f bm free)

-- A defect of SwitchMode: it reads the mode through its read lock while it holds the write lock.
-- Where the backup is enabled and the mode is another one, it never returns. TriggerFailover, which
-- does not take the lock, returns from the same state.
pub switch_mode_blocks :
    (mode : ServerMode) (now : ℤ) (listens : Bool) (bm : BackupManager)
    → bm.config.sync.enabled ≡ true
    → bm.current_mode ≢ mode
    → bm.mode_locked ≡ false
    → (switch_mode mode now listens bm ≡ none) × (is_some (trigger_failover now listens bm) ≡ true)
unfolding switch_mode get_mode trigger_failover
switch_mode_blocks mode now listens bm enabled other free = (
  ground (arith, eqb_ℤ_iff bm.current_mode mode, enabled, other, free),
  switch_failover_returns (if eqb_ℤ bm.current_mode mode_backup then mode_primary else mode_backup)
      now listens bm.failover_service bm free,
)
