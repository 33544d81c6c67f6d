-- ===== src/Watchdog/Supervisor.antt =====
-- `watchdogTask` of src/main.cpp: the supervisor of the other tasks.
use esp32_real_time_energy_c.Base.{
  ◌⊎◌, ℕ, ◌≤◌, ◌<◌, ◌≡◌, ◌↔◌, inl, inr, refl, Bool, true, false, not, ◌&&◌, arith, leb, List,
  if◌then◌else◌, Bool-cases,
}
use esp32_real_time_energy_c.Base.Words.{sub32}
use esp32_real_time_energy_c.Heartbeat.{heartbeat_never, healthy}
use esp32_real_time_energy_c.Heartbeat.Health.{HasBeaten, healthy_iff}
use esp32_real_time_energy_c.Actuator.Writes.{actuator_apply_state-off}
use esp32_real_time_energy_c.Controller.{Setup, App, drive_safe_output}
use esp32_real_time_energy_c.Watchdog.{
  Watchdog, heartbeat_count, initial_watchdog, watchdog_manager_heartbeat, watchdog_manager_healthy,
}
use esp32_real_time_energy_c.Watchdog.Status.{
  WatchdogCall, IsReady, supervise, supervise-IsReady, initial-IsReady, heartbeat-IsReady,
}

-- The constants of config.h, and the start of the task.
pub record Supervision : Type 0 where
  pub heartbeat_timeout_ms : ℕ
  pub watchdog_startup_grace_ms : ℕ
  pub startup_ms : ℕ

-- What `millis` returns for the heartbeat, for the grace period and in the health check.
pub record Clocks : Type 0 where
  pub beat_ms : ℕ
  pub grace_ms : ℕ
  pub check_ms : ℕ

-- HEARTBEAT_WATCHDOG
abbrev pub heartbeat_watchdog : ℕ
heartbeat_watchdog = 4

leb_and_not_iff : (n m : ℕ) (b : Bool) → (leb n m && not b ≡ true) ↔ ((n ≤ m) × ¬ (b ≡ true))
leb_and_not_iff n m true = ((λ h. absurd (ground (arith, h))), λ h. absurd (h.1 refl))
leb_and_not_iff n m false =
    ((λ h. (ground (arith, h), λ e. absurd (ground (arith, e)))), λ h. ground (arith, h.0))

module _ (supervision : Supervision) where
  open supervision use {heartbeat_timeout_ms, watchdog_startup_grace_ms, startup_ms}

  -- The two tests of a round, after the heartbeat of the task itself.
  unfoldable pub supervisor_restarts : Watchdog → Clocks → Bool
  supervisor_restarts w clocks =
      leb watchdog_startup_grace_ms (sub32 clocks.grace_ms startup_ms)
      && not (watchdog_manager_healthy w heartbeat_timeout_ms clocks.check_ms)

  -- A round, and whether it ends in `esp_restart`.
  unfoldable pub supervisor_round {ℓ} :
      {F : Type ℓ} → Setup → App F → Watchdog → Clocks → ℕ → App F × Watchdog × Bool
  unfolding supervisor_restarts
  supervisor_round setup app w clocks seen =
      let beaten = watchdog_manager_heartbeat w heartbeat_watchdog clocks.beat_ms in
      if supervisor_restarts beaten clocks
      then (drive_safe_output setup app seen, beaten, true)
      else (app, beaten, false)

  healthy_now_iff :
      (w : Watchdog) (now_ms : ℕ)
      → IsReady w
      → heartbeat_timeout_ms < heartbeat_never
      → (watchdog_manager_healthy w heartbeat_timeout_ms now_ms ≡ true)
        ↔ ((k : ℕ) → k < heartbeat_count → HasBeaten w.monitor k now_ms heartbeat_timeout_ms)
  unfolding watchdog_manager_healthy healthy
  healthy_now_iff w now_ms r t =
      let (forth, back) =
        healthy_iff w.monitor now_ms heartbeat_timeout_ms 0 0 r.sized t (omega arith) in
      let same : watchdog_manager_healthy w heartbeat_timeout_ms now_ms
          ≡ healthy w.monitor now_ms heartbeat_timeout_ms 0 0 =
        ground arith in
      (
        λ h k b. forth (rw (← same) h) k (omega (arith, r.slots, b)),
        λ all. rw same (back (λ k b. all k (omega (arith, r.slots, b)))),
      )

  supervisor_restarts_iff :
      (w : Watchdog) (clocks : Clocks)
      → (supervisor_restarts w clocks ≡ true) ↔ (
          (watchdog_startup_grace_ms ≤ sub32 clocks.grace_ms startup_ms)
          × ¬ (watchdog_manager_healthy w heartbeat_timeout_ms clocks.check_ms ≡ true))
  unfolding supervisor_restarts
  supervisor_restarts_iff w clocks =
      leb_and_not_iff watchdog_startup_grace_ms (sub32 clocks.grace_ms startup_ms)
        (watchdog_manager_healthy w heartbeat_timeout_ms clocks.check_ms)

  -- The safe output opens the relay.
  drive_safe_output-off {ℓ} :
      {F : Type ℓ} (setup : Setup) (app : App F) (seen : ℕ)
      → (drive_safe_output setup app seen).actuator.commanded_on ≡ false
  unfolding drive_safe_output
  drive_safe_output-off setup app seen =
      (actuator_apply_state-off setup.mode setup.wiring app.actuator seen).0

  -- A round of the supervisor with a table of six tasks.
  pub ready_round-restarts {ℓ} :
      {F : Type ℓ}
      → (setup : Setup) (app : App F) (w : Watchdog) (clocks : Clocks) (seen : ℕ) → IsReady w
      → heartbeat_timeout_ms < heartbeat_never
      → let beaten = watchdog_manager_heartbeat w heartbeat_watchdog clocks.beat_ms in
        let (after, next, restarts) = supervisor_round setup app w clocks seen in
        ((restarts ≡ true) ↔ (
          (watchdog_startup_grace_ms ≤ sub32 clocks.grace_ms startup_ms)
          × ¬ (
              (k : ℕ)
              → k < heartbeat_count
              → HasBeaten beaten.monitor k clocks.check_ms heartbeat_timeout_ms)))
        × (next ≡ beaten)
        × (after ≡ (if restarts then drive_safe_output setup app seen else app))
        × ((restarts ≡ false) ⊎ (after.actuator.commanded_on ≡ false))
  unfolding supervisor_round
  ready_round-restarts setup app w clocks seen r t =
      let beaten = watchdog_manager_heartbeat w heartbeat_watchdog clocks.beat_ms in
      let ready = heartbeat-IsReady w heartbeat_watchdog clocks.beat_ms r in
      let well = healthy_now_iff beaten clocks.check_ms ready t in
      let test = supervisor_restarts_iff beaten clocks in
      elim (Bool-cases (supervisor_restarts beaten clocks)) [
        | inl starts ↦
            let (late, silent) = test.0 starts in
            rw starts (
              ((λ _. (late, λ all. silent (well.1 all))), (λ _. refl)),
              refl,
              refl,
              inr (drive_safe_output-off setup app seen),
            )
        | inr stays ↦ rw stays (
          (
            (λ e. absurd (ground (arith, e))),
            (λ h. rw (← stays) (test.1 (h.0, λ b. h.1 (well.0 b)))),
          ),
          refl,
          refl,
          inl refl,
        )
      ]

  -- After any heartbeats and registrations, a round of WatchdogTask restarts the system exactly if the
  -- grace period is over and not all six tasks, itself with its heartbeat of this round among them, have
  -- beaten within the time limit, which is below UINT32_MAX; then it has driven the safe output, which
  -- leaves the relay commanded off, and else it changes nothing but its own heartbeat.
  pub supervisor_round-restarts {ℓ} :
      {F : Type ℓ}
      → (setup : Setup) (app : App F) (cs : List WatchdogCall) (clocks : Clocks) (seen : ℕ)
      → heartbeat_timeout_ms < heartbeat_never
      → let w = supervise initial_watchdog cs in
        let beaten = watchdog_manager_heartbeat w heartbeat_watchdog clocks.beat_ms in
        let (after, next, restarts) = supervisor_round setup app w clocks seen in
        ((restarts ≡ true) ↔ (
          (watchdog_startup_grace_ms ≤ sub32 clocks.grace_ms startup_ms)
          × ¬ (
              (k : ℕ)
              → k < heartbeat_count
              → HasBeaten beaten.monitor k clocks.check_ms heartbeat_timeout_ms)))
        × (next ≡ beaten)
        × (after ≡ (if restarts then drive_safe_output setup app seen else app))
        × ((restarts ≡ false) ⊎ (after.actuator.commanded_on ≡ false))
  supervisor_round-restarts setup app cs clocks seen t =
      ready_round-restarts setup app (supervise initial_watchdog cs) clocks seen
        (supervise-IsReady initial_watchdog cs initial-IsReady) t
