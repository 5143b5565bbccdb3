-- ===== src/Backup/Failover/Takeover.antt =====
-- When the backup takes over: heartbeats, the checks on them and the detecting loop together.
use gateway_test.Backup.Failover.Detection.{counts_three_iff, HasThree, counts_three}
use gateway_test.Prelude.{
  ℕ, subst, ◌+◌, ◌<◌, ◌≡◌, refl, sym, ap, ◌∙◌, ◌↔◌, inl, inr, Bool, true, false, ◌||◌, Option, some,
  List, [], ◌∷◌, arith, Bool-cases, nat_eq, string_eq, length, set, ℤ,
}
use native.Mathlib.Decide.{dec_lt}
use gateway_test.Backup.Records.{FailoverConfig, mode_primary, mode_backup, HeartbeatData}
use gateway_test.Backup.Heartbeat.{HeartbeatService, on_heartbeat_received, check_peer}
use gateway_test.Backup.Sync.{SyncService}
use gateway_test.Backup.Failover.{
  FailoverService, SwitchCallback, detector_tick, detect_failure, is_silent, is_cut_off, react,
  switch_to_primary, switch_to, call_switch, schedule_restore,
}

-- A heartbeat arrives, the checker ticks, the detecting loop ticks and sees the stream that the
-- service watches, if any, as it is at this time.
pub data WatchEvent : Type 0 where
  beats : ℤ → HeartbeatData → WatchEvent
  checks : ℤ → WatchEvent
  detects : ℤ → ℤ → Option SyncService → WatchEvent

unfoldable pub watch_step :
    WatchEvent → HeartbeatService × FailoverService → HeartbeatService × FailoverService
watch_step (beats now d) (h, f) = (on_heartbeat_received now d h, f)
watch_step (checks now) (h, f) = (check_peer now h, f)
watch_step (detects now later sync) (h, f) = (h, detector_tick now later h sync f)

unfoldable pub watch :
    List WatchEvent → HeartbeatService × FailoverService → HeartbeatService × FailoverService
watch [] r = r
watch (e ∷ es) r = watch es (watch_step e r)

-- A failure: the primary is silent, or the stream that is watched has no connection.
abbrev pub has_failed : ℤ → ℤ → HeartbeatService → Option SyncService → Bool
has_failed now timeout h sync = is_silent now timeout h || is_cut_off sync

-- What each tick of the detecting loop would find.
unfoldable pub verdicts : ℤ → List WatchEvent → HeartbeatService → List Bool
verdicts timeout [] h = []
verdicts timeout (beats now d ∷ es) h = verdicts timeout es (on_heartbeat_received now d h)
verdicts timeout (checks now ∷ es) h = verdicts timeout es (check_peer now h)
verdicts timeout (detects now later sync ∷ es) h =
    has_failed now timeout h sync ∷ verdicts timeout es h

-- A backup that counts `n` failures in a row, and whose callback never fails.
pub record Watches (n : ℕ) (f : FailoverService) : Type 0 where
  pub backup : f.current_mode ≡ mode_backup
  pub counted : f.consecutive_failures ≡ n
  pub willing :
      (callback : SwitchCallback) × (f.switch_callback ≡ some callback)
      × ((k : ℕ) → callback k mode_primary ≡ true)

pub tick_found :
    (now later : ℤ) (h : HeartbeatService) (sync : Option SyncService) (f : FailoverService) (n : ℕ)
    → Watches n f
    → n < 2
    → has_failed now f.config.detection_timeout h sync ≡ true
    → Watches (n + 1) (detector_tick now later h sync f)
unfolding detector_tick detect_failure react
tick_found now later h sync f n w small found = record {
  backup = ground (arith, w.backup, w.counted);
  counted = ground (arith, w.backup, w.counted);
  willing = (w.willing.0, ground (arith, w.backup, w.counted, w.willing.1), w.willing.2);
}

pub tick_found_calls :
    (now later : ℤ) (h : HeartbeatService) (sync : Option SyncService) (f : FailoverService) (n : ℕ)
    → Watches n f
    → n < 2
    → has_failed now f.config.detection_timeout h sync ≡ true
    → let f' = detector_tick now later h sync f in
      (f'.switch_calls ≡ f.switch_calls) × (f'.restores ≡ f.restores)
unfolding detector_tick detect_failure react
tick_found_calls now later h sync f n w small found =
    (ground (arith, w.backup, w.counted), ground (arith, w.backup, w.counted))

tick_quiet :
    (now later : ℤ) (h : HeartbeatService) (sync : Option SyncService) (f : FailoverService) (n : ℕ)
    → Watches n f
    → has_failed now f.config.detection_timeout h sync ≡ false
    → Watches 0 (detector_tick now later h sync f)
unfolding detector_tick detect_failure react
tick_quiet now later h sync f n w found = record {
  backup = ground (arith, w.backup, w.counted);
  counted = ground (arith, w.backup, w.counted);
  willing = (w.willing.0, ground (arith, w.backup, w.counted, w.willing.1), w.willing.2);
}

pub tick_switches :
    (now later : ℤ) (h : HeartbeatService) (sync : Option SyncService) (f : FailoverService)
    → Watches 2 f
    → has_failed now f.config.detection_timeout h sync ≡ true
    → let f' = detector_tick now later h sync f in
      (f'.current_mode ≡ mode_primary)
      × (f'.restores ≡ f.restores + 1)
      × (f'.switch_calls ≡ mode_primary ∷ f.switch_calls)
unfolding detector_tick detect_failure react switch_to_primary switch_to call_switch
    schedule_restore
tick_switches now later h sync f w found =
    let (callback, named, agrees) = w.willing in
    let facts = agrees (length f.switch_calls) in
    (
      ground (arith, w.backup, w.counted, named, facts),
      ground (arith, w.backup, w.counted, named, facts),
      ground (arith, w.backup, w.counted, named, facts),
    )

pub tick_config :
    (now later : ℤ) (h : HeartbeatService) (sync : Option SyncService) (f : FailoverService)
    → (detector_tick now later h sync f).config ≡ f.config
unfolding detector_tick detect_failure react switch_to_primary switch_to call_switch
    schedule_restore
tick_config now later h sync f = ground arith

primary_tick :
    (now later : ℤ) (h : HeartbeatService) (sync : Option SyncService) (f : FailoverService)
    → f.current_mode ≡ mode_primary
    → detector_tick now later h sync f ≡ f
unfolding detector_tick
primary_tick now later h sync f e = ground (arith, e)

pub primary_stays :
    (es : List WatchEvent) (h : HeartbeatService) (f : FailoverService)
    → f.current_mode ≡ mode_primary
    → (watch es (h, f)).1 ≡ f
unfolding watch watch_step
primary_stays [] h f e = refl
primary_stays (beats now d ∷ es) h f e = primary_stays es (on_heartbeat_received now d h) f e
primary_stays (checks now ∷ es) h f e = primary_stays es (check_peer now h) f e
primary_stays (detects now later sync ∷ es) h f e =
    let same = primary_tick now later h sync f e in
    primary_stays es h (detector_tick now later h sync f)
      (ap (λ (g : FailoverService). g.current_mode) same ∙ e)
    ∙ same

counts_early :
    (n : ℕ) (vs : List Bool) → n < 2 → counts_three (n + 1) vs ≡ counts_three n (true ∷ vs)
unfolding counts_three
counts_early n vs h = ground arith

counts_late : (n : ℕ) (vs : List Bool) → n ≡ 2 → true ≡ counts_three n (true ∷ vs)
unfolding counts_three
counts_late n vs e = ground arith

-- What the loop's counter says of the history is where the mode ends.
abbrev Ends : Bool → FailoverService → Type 0
Ends true f = f.current_mode ≡ mode_primary
Ends false f = f.current_mode ≡ mode_backup

watch-Ends :
    (es : List WatchEvent) (n : ℕ) (h : HeartbeatService) (f : FailoverService) (timeout : ℤ)
    → f.config.detection_timeout ≡ timeout
    → Watches n f
    → n < 3
    → Ends (counts_three n (verdicts timeout es h)) (watch es (h, f)).1
unfolding watch watch_step verdicts counts_three
watch-Ends [] n h f timeout set w small = w.backup
watch-Ends (beats now d ∷ es) n h f timeout set w small =
    watch-Ends es n (on_heartbeat_received now d h) f timeout set w small
watch-Ends (checks now ∷ es) n h f timeout set w small =
    watch-Ends es n (check_peer now h) f timeout set w small
watch-Ends (detects now later sync ∷ es) n h f timeout set w small =
    let f' = detector_tick now later h sync f in
    let vs = verdicts timeout es h in
    let set' : f'.config.detection_timeout ≡ timeout =
      ap (λ (c : FailoverConfig). c.detection_timeout) (tick_config now later h sync f) ∙ set in
    let found_by : (b : Bool)
        → has_failed now timeout h sync ≡ b
        → has_failed now f.config.detection_timeout h sync ≡ b =
      λ b e. subst (λ t. has_failed now t h sync ≡ b) (sym set) e in
    let G : Bool → Type 0 = λ b. Ends (counts_three n (b ∷ vs)) (watch es (h, f')).1 in
    elim (Bool-cases (has_failed now timeout h sync)) [
      | inl found ↦ subst G (sym found) (elim (dec_lt n 2) [
        | yes early ↦
            subst (λ b. Ends b (watch es (h, f')).1) (counts_early n vs early)
              (watch-Ends es (n + 1) h f' timeout set'
                (tick_found now later h sync f n w early (found_by true found)) (omega arith))
        | no late ↦
            let third : n ≡ 2 = omega arith in
            let switched =
              tick_switches now later h sync f (subst (λ k. Watches k f) third w)
                (found_by true found) in
            subst (λ b. Ends b (watch es (h, f')).1) (counts_late n vs third)
              (ap (λ (g : FailoverService). g.current_mode) (primary_stays es h f' switched.0)
                ∙ switched.0)
      ])
      | inr quiet ↦ subst G (sym quiet) (
          watch-Ends es 0 h f' timeout set'
            (tick_quiet now later h sync f n w (found_by false quiet)) (omega arith))
    ]

-- A backup whose callback does not fail, and which has seen no failure yet, becomes the primary
-- in a history of heartbeats, checks and detections if and only if some three detections in a row
-- find a failure, a silent primary or a watched stream without a connection; otherwise it stays the
-- backup.
pub takeover_iff :
    (es : List WatchEvent) (h : HeartbeatService) (f : FailoverService)
    → Watches 0 f
    → let mode = (watch es (h, f)).1.current_mode in
      let found = verdicts f.config.detection_timeout es h in
      ((mode ≡ mode_primary) ↔ HasThree found) × ((mode ≡ mode_backup) ↔ ¬ HasThree found)
takeover_iff es h f w =
    let found = verdicts f.config.detection_timeout es h in
    let ends = watch-Ends es 0 h f f.config.detection_timeout refl w (omega arith) in
    let exact = counts_three_iff found in
    elim (Bool-cases (counts_three 0 found)) [
      | inl three ↦
          let mode : (watch es (h, f)).1.current_mode ≡ mode_primary =
            subst (λ b. Ends b (watch es (h, f)).1) three ends in
          (
            (λ _. exact.0 three, λ _. mode),
            (λ m. absurd (cc), λ none_such. absurd (none_such (exact.0 three))),
          )
      | inr fewer ↦
          let mode : (watch es (h, f)).1.current_mode ≡ mode_backup =
            subst (λ b. Ends b (watch es (h, f)).1) fewer ends in
          (
            (λ m. absurd (cc), λ has. absurd (cc (exact.1 has))),
            (λ _ has. absurd (cc (exact.1 has)), λ _. mode),
          )
    ]
