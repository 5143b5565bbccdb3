-- ===== src/Backup/Failover/Silence.antt =====
-- A primary that falls silent is replaced in time.
use gateway_test.Prelude.{
  ℕ, subst, ◌+◌, ◌<◌, ◌≡◌, sym, ap, ◌∙◌, true, false, Option, List, ◌∷◌, arith, nat_eq, string_eq,
  ℤ, pos, pos_part, i64_mod,
}
use gateway_test.Backup.Records.{FailoverConfig, mode_primary}
use gateway_test.Backup.Heartbeat.{HeartbeatService, is_overdue, check_peer, failure_timeout}
use gateway_test.Backup.Sync.{SyncService}
use gateway_test.Backup.Failover.{FailoverService, detector_tick}
use gateway_test.Backup.Failover.Takeover.{
  WatchEvent, checks, detects, watch, watch_step, Watches, has_failed, tick_found, tick_found_calls,
  tick_switches, tick_config, primary_stays,
}

-- The clock `d` is more than `limit` after `t`, and both fit in int64.
abbrev pub IsLate : ℕ → ℤ → ℕ → Type 0
IsLate t limit d = (t + pos_part limit < d) × (d < i64_mod)

overdue_of_late : (t d : ℕ) (limit : ℤ) → IsLate t limit d → is_overdue (pos d) (pos t) limit ≡ true
overdue_of_late t d limit late = ground arith

-- The peer counts as dead, and its last heartbeat came at `t`.
record IsDead (t : ℕ) (h : HeartbeatService) : Type 0 where
  dead : h.peer_alive ≡ false
  last : h.last_peer_time ≡ pos t
  some_beat : 0 < t

check_peer-IsDead :
    (t c : ℕ) (h : HeartbeatService)
    → h.last_peer_time ≡ pos t
    → 0 < t
    → IsLate t (failure_timeout h.config) c
    → IsDead t (check_peer (pos c) h)
unfolding check_peer
check_peer-IsDead t c h last some_beat late =
    let overdue = overdue_of_late t c (failure_timeout h.config) late in
    record {
      dead = ground (arith, last, overdue);
      last = ground (arith, last, overdue);
      some_beat = some_beat;
    }

failed_of_late :
    (t d : ℕ) (limit : ℤ) (h : HeartbeatService) (sync : Option SyncService)
    → IsDead t h
    → IsLate t limit d
    → has_failed (pos d) limit h sync ≡ true
failed_of_late t d limit h sync v late =
    ground (arith, v.dead, v.last, v.some_beat, overdue_of_late t d limit late)

-- Three ticks with a dead peer.
three_ticks :
    (t d d' d'' : ℕ) (l l' l'' : ℤ) (s s' s'' : Option SyncService) (h : HeartbeatService)
    (f : FailoverService)
    → IsDead t h
    → Watches 0 f
    → IsLate t f.config.detection_timeout d
    → IsLate t f.config.detection_timeout d'
    → IsLate t f.config.detection_timeout d''
    → let f' =
        detector_tick
          (pos d'')
          l''
          h
          s''
          (detector_tick (pos d') l' h s' (detector_tick (pos d) l h s f)) in
      (f'.current_mode ≡ mode_primary)
      × (f'.switch_calls ≡ mode_primary ∷ f.switch_calls)
      × (f'.restores ≡ f.restores + 1)
three_ticks t d d' d'' l l' l'' s s' s'' h f v w late late' late'' =
    let limit = f.config.detection_timeout in
    let a = detector_tick (pos d) l h s f in
    let b = detector_tick (pos d') l' h s' a in
    let same_a : a.config.detection_timeout ≡ limit =
      ap (λ (c : FailoverConfig). c.detection_timeout) (tick_config (pos d) l h s f) in
    let same_b : b.config.detection_timeout ≡ limit =
      ap (λ (c : FailoverConfig). c.detection_timeout) (tick_config (pos d') l' h s' a) ∙ same_a in
    let found = failed_of_late t d limit h s v late in
    let found' =
      failed_of_late t d' a.config.detection_timeout h s' v
        (subst (λ n. IsLate t n d') (sym same_a) late') in
    let found'' =
      failed_of_late t d'' b.config.detection_timeout h s'' v
        (subst (λ n. IsLate t n d'') (sym same_b) late'') in
    let wa = tick_found (pos d) l h s f 0 w (omega arith) found in
    let wb = tick_found (pos d') l' h s' a 1 wa (omega arith) found' in
    let calls_a = tick_found_calls (pos d) l h s f 0 w (omega arith) found in
    let calls_b = tick_found_calls (pos d') l' h s' a 1 wa (omega arith) found' in
    let (mode, restores, calls) = tick_switches (pos d'') l'' h s'' b wb found'' in
    (
      mode,
      calls ∙ ap (λ cs. mode_primary ∷ cs) (calls_b.0 ∙ calls_a.0),
      omega (arith, restores, calls_a.1, calls_b.1),
    )

-- The last heartbeat came at `t`. Once the checker has ticked later than three intervals after it,
-- three ticks of the detecting loop later than its timeout after it make the backup the primary,
-- with one call of the callback and one restoration scheduled, whatever the stream is like and
-- whatever comes then. The clocks fit
-- in int64, and the callback does not fail.
pub silence_takes_over :
    (t c d d' d'' : ℕ) (l l' l'' : ℤ) (s s' s'' : Option SyncService) (es : List WatchEvent)
    (h : HeartbeatService) (f : FailoverService)
    → Watches 0 f
    → h.last_peer_time ≡ pos t
    → 0 < t
    → IsLate t (failure_timeout h.config) c
    → IsLate t f.config.detection_timeout d
    → IsLate t f.config.detection_timeout d'
    → IsLate t f.config.detection_timeout d''
    → let silence =
        checks (pos c)
        ∷ detects (pos d) l s
        ∷ detects (pos d') l' s'
        ∷ detects (pos d'') l'' s''
        ∷ es in
      let f' = (watch silence (h, f)).1 in
      (f'.current_mode ≡ mode_primary)
      × (f'.switch_calls ≡ mode_primary ∷ f.switch_calls)
      × (f'.restores ≡ f.restores + 1)
unfolding watch watch_step
silence_takes_over t c d d' d'' l l' l'' s s' s'' es h f w last some_beat checked late late'
      late'' =
    let h' = check_peer (pos c) h in
    let done =
      three_ticks t d d' d'' l l' l'' s s' s'' h' f (check_peer-IsDead t c h last some_beat checked)
        w late late' late'' in
    let f' =
      detector_tick (pos d'') l'' h' s''
        (detector_tick (pos d') l' h' s' (detector_tick (pos d) l h' s f)) in
    let same = primary_stays es h' f' done.0 in
    (
      ap (λ (g : FailoverService). g.current_mode) same ∙ done.0,
      ap (λ (g : FailoverService). g.switch_calls) same ∙ done.1,
      ap (λ (g : FailoverService). g.restores) same ∙ done.2,
    )
