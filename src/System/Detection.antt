-- ===== src/System/Detection.antt =====
-- The supervisor of src/main.cpp over the steps of all tasks: a task that hangs is found.
use esp32_real_time_energy_c.Base.{ℕ, ◌≡◌, ◌≢◌, List, arith, get_or}
use esp32_real_time_energy_c.Base.Float.{Float}
use esp32_real_time_energy_c.Watchdog.{Watchdog}
use esp32_real_time_energy_c.Watchdog.Status.{
  IsReady, initial-IsReady, heartbeat-IsReady, register-IsReady,
}
use esp32_real_time_energy_c.Watchdog.Supervisor.{heartbeat_watchdog, supervisor_round}
use esp32_real_time_energy_c.System.{
  Firmware, System, Step, Task, heartbeat_id, registers, beats, supervises, network_step,
  display_step, supervisor_step, system_step, run_system, boot_system, Reached, boots, goes,
}

-- The slot of a task has the time of its latest heartbeat.
abbrev BeatAt : Watchdog → ℕ → ℕ → Type 0
BeatAt w id beat_ms = get_or w.monitor.last id 0 ≡ beat_ms

-- The step is no heartbeat of the task.
abbrev pub IsSilent {ℓ} : {F : Type ℓ} → Task → Step F → Type 0
IsSilent task (beats other now_ms) = heartbeat_id other ≢ heartbeat_id task
IsSilent task _ = Unit

module _ {ℓ} {F : Type ℓ} ⦃fl : Float F⦄ (firmware : Firmware F) where
  open firmware use {setup, heartbeat_timeout_ms, watchdog_startup_grace_ms}

  step-IsReady :
      (s : System F) (t : Step F) → IsReady s.watchdog → IsReady (system_step firmware s t).watchdog
  unfolding system_step network_step display_step supervisor_step supervisor_round
  step-IsReady s (registers answer) r = register-IsReady s.watchdog answer r
  step-IsReady s (beats task now_ms) r = heartbeat-IsReady s.watchdog (heartbeat_id task) now_ms r
  step-IsReady s (supervises clocks seen) r =
      ground (arith, r, heartbeat-IsReady s.watchdog heartbeat_watchdog clocks.beat_ms r)
  step-IsReady s _ r = r

  pub Reached-IsReady : (s : System F) → Reached firmware s → IsReady s.watchdog
  unfolding boot_system
  Reached-IsReady s (boots created at app world setup_ms started_ms e) = initial-IsReady
  Reached-IsReady s (goes before t r) = step-IsReady before t (Reached-IsReady before r)

  -- A heartbeat of a task, and then some steps.
  abbrev pub after_beat : System F → Task → ℕ → List (Step F) → System F
  after_beat s task beat_ms ts =
      run_system firmware (system_step firmware s (beats task beat_ms)) ts
