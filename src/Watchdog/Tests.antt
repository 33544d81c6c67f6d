-- ===== src/Watchdog/Tests.antt =====
-- The watchdog manager of src/watchdog_manager.cpp with a time limit of 15 s, and `watchdogTask`.
use esp32_real_time_energy_c.Base.{◌⊎◌, ◌≡◌, ◌↔◌, refl, true, false, List, [], ◌∷◌, All}
use esp32_real_time_energy_c.Heartbeat.{first_stale, beat, age_ms}
use esp32_real_time_energy_c.Watchdog.{
  Watchdog, watchdog_manager_heartbeat, esp_ok, esp_err_other, initial_watchdog,
  watchdog_manager_healthy, watchdog_manager_print_status,
}
use esp32_real_time_energy_c.Watchdog.Status.{
  WatchdogCall, registers, beats, supervise, IsUp, healthy-status,
}
use esp32_real_time_energy_c.Base.{◌≤◌, ◌<◌, ℕ, arith, if◌then◌else◌}
use esp32_real_time_energy_c.Base.Words.{sub32}
use esp32_real_time_energy_c.Heartbeat.Health.{HasBeaten}
use esp32_real_time_energy_c.Controller.{drive_safe_output}
use esp32_real_time_energy_c.Controller.Tests.{setup, boot}
use esp32_real_time_energy_c.Watchdog.{Watchdog, heartbeat_count, watchdog_manager_heartbeat}
use esp32_real_time_energy_c.Watchdog.Supervisor.{
  Supervision, Clocks, heartbeat_watchdog, supervisor_restarts, supervisor_round,
  supervisor_round-restarts,
}

-- One registration fails; all six tasks beat.
abbrev start : List WatchdogCall
start =
    registers esp_ok
    ∷ registers esp_err_other
    ∷ beats 0 1000
    ∷ beats 1 1100
    ∷ beats 2 1200
    ∷ beats 3 1300
    ∷ beats 4 1400
    ∷ beats 5 1500
    ∷ []

checks :
    (watchdog_manager_healthy (supervise initial_watchdog start) 15000 16000 ≡ true)
    × (watchdog_manager_healthy (supervise initial_watchdog start) 15000 16001 ≡ false)
    × ((supervise initial_watchdog start).registration_failures ≡ 1)
unfolding supervise initial_watchdog watchdog_manager_healthy first_stale beat age_ms
checks = (refl, refl, refl)

healthy-status_example :
    (watchdog_manager_healthy (supervise initial_watchdog start) 15000 16000 ≡ true)
    ↔ All IsUp (watchdog_manager_print_status (supervise initial_watchdog start) 15000 (λ _. 16000))
healthy-status_example = healthy-status start 15000 16000

-- Thirty seconds after the start, which is the end of the grace period, the display has stayed
-- silent for longer than the limit.
abbrev supervision : Supervision
supervision = record {
  heartbeat_timeout_ms = 15000;
  watchdog_startup_grace_ms = 30000;
  startup_ms = 900;
}

abbrev clocks : Clocks
clocks = record { beat_ms = 30900; grace_ms = 30900; check_ms = 30901 }

abbrev at_last : Watchdog
at_last =
    watchdog_manager_heartbeat (supervise initial_watchdog start) heartbeat_watchdog clocks.beat_ms

restarted : supervisor_restarts supervision at_last clocks ≡ true
unfolding supervise initial_watchdog watchdog_manager_healthy watchdog_manager_heartbeat first_stale
    beat age_ms supervisor_restarts
restarted = refl

supervisor_round-restarts_example :
    let (after, next, restarts) =
      supervisor_round supervision setup boot (supervise initial_watchdog start) clocks 1 in
    ((restarts ≡ true) ↔ (
      (30000 ≤ sub32 30900 900)
      × ¬ ((k : ℕ) → k < heartbeat_count → HasBeaten at_last.monitor k 30901 15000)))
    × (next ≡ at_last)
    × (after ≡ (if restarts then drive_safe_output setup boot 1 else boot))
    × ((restarts ≡ false) ⊎ (after.actuator.commanded_on ≡ false))
supervisor_round-restarts_example =
    supervisor_round-restarts supervision setup boot start clocks 1 (omega arith)
