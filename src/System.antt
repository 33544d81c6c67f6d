-- ===== src/System.antt =====
-- src/main.cpp as a whole: the six tasks over what they share, in any interleaving, and the restart by
-- the supervisor.
pub mod Turns
pub mod Detection
pub mod Safety
pub mod Samples
pub mod Reports
pub mod Packets
pub mod Calls
pub mod Contract
pub mod Configured
mod Tests
use mathlib.Core.Option.{Option, none, some}
use esp32_real_time_energy_c.Base.{◌∷◌, ℕ, ◌≡◌, Bool, true, false, List, [], if◌then◌else◌}
use esp32_real_time_energy_c.Base.Float.{Float}
use esp32_real_time_energy_c.Measurement.{Measurement}
use esp32_real_time_energy_c.Protection.Types.{
  ProtectionConfig, ProtectionSnapshot, ProtectionResult,
}
use esp32_real_time_energy_c.Guard.{protection_get_snapshot}
use esp32_real_time_energy_c.Actuator.{BuildFlags, BuildMode, actuator_relay_output_enabled}
use esp32_real_time_energy_c.Measurement.Meter.{DriverAnswers, read_measurement}
use esp32_real_time_energy_c.Watchdog.{
  EspError, Watchdog, initial_watchdog, watchdog_manager_heartbeat,
  watchdog_manager_register_current_task,
}
use esp32_real_time_energy_c.Watchdog.Supervisor.{Supervision, Clocks, supervisor_round}
use esp32_real_time_energy_c.Controller.{
  Setup, App, Moment, sensor_turn, judge_measurement, apply_protection_result, drive_safe_output,
  command_turn, mqtt_callback,
}
use esp32_real_time_energy_c.Controller.Turns.{Created, app_begin}
use esp32_real_time_energy_c.Cli.{CliState, Outcome, initial_cli, press, carry_out_line}
use esp32_real_time_energy_c.Network.{World, NetworkSetup, Network, Shared}
use esp32_real_time_energy_c.Network.Round.{initial_network, copied_measurement, network_round}
use esp32_real_time_energy_c.Console.Display.{LcdCall, boot_calls, display_round}

-- A firmware: what the build, config.h and the chip fix.
pub record Firmware {ℓ} (F : Type ℓ) : Type ℓ where
  pub flags : BuildFlags
  pub build : BuildMode
  pub setup : Setup
  pub network_setup : NetworkSetup
  pub protection_config : ProtectionConfig F
  pub heartbeat_timeout_ms : ℕ
  pub watchdog_startup_grace_ms : ℕ

-- What NetworkTask and DisplayTask have read of the other tasks in a round, each at its own point.
pub record Readings {ℓ} (F : Type ℓ) : Type ℓ where
  pub network_snapshot : ProtectionSnapshot
  pub network_copy : Option (Measurement F)
  pub network_relay : Bool
  pub display_copy : Option (Measurement F)
  pub display_snapshot : ProtectionSnapshot

-- All variables. `world` is what the libraries answer from the boot on; `started_ms` is when the
-- supervisor started; `restarting` is set from its safe output to its `esp_restart`; `due` is the result
-- that ControlTask has got from the protection and has not applied to the outputs.
pub record System {ℓ} (F : Type ℓ) : Type ℓ where
  pub app : App F
  pub watchdog : Watchdog
  pub readings : Readings F
  pub world : World F
  pub network : Network F
  pub cli : CliState
  pub screen : List LcdCall
  pub started_ms : ℕ
  pub restarting : Bool
  pub due : Option ProtectionResult

-- `protectionGetSnapshot` or `copyLatestMeasurement`, whose mutex may not be taken in time, or
-- `actuatorRelayCommandedOn`, for one of the two tasks.
pub data Read : Type 0 where
  network_snapshot display_snapshot : Moment → Read
  network_copy display_copy : Bool → Read
  network_relay : Read

-- The tasks but for the supervisor, whose heartbeat is a part of its round.
pub data Task : Type 0 where
  sensor control display network line_editor : Task

-- HeartbeatId
abbrev pub heartbeat_id : Task → ℕ
heartbeat_id sensor = 0
heartbeat_id control = 1
heartbeat_id display = 2
heartbeat_id network = 3
heartbeat_id line_editor = 5

-- What the tasks do between two points at which another may come in: a task registers with the task
-- watchdog; a task could not be created and `fatalStop` drives the safe output; SensorTask reads and hands
-- on a sample; ControlTask takes a sample or ticks; it applies the result to the outputs; it takes a
-- command; DisplayTask or NetworkTask reads something; DisplayTask draws; NetworkTask does the rest of its
-- round; its client hands a message to the callback; a byte comes in at the serial port; a task beats at
-- the end of its round; the supervisor makes a round.
pub data Step {ℓ} (F : Type ℓ) : Type ℓ where
  registers : EspError → Step F
  samples : DriverAnswers F → ℕ → Bool → Step F
  fails : ℕ → Step F
  judges : Moment → Step F
  applies : ℕ → Step F
  executes : Moment → Step F
  reads : Read → Step F
  draws : Step F
  connects : Step F
  receives : Option (List ℕ) → Option (List ℕ) → ℕ → ℕ → Step F
  types : ℕ → Step F
  beats : Task → ℕ → Step F
  supervises : Clocks → ℕ → Step F

module _ {ℓ} {F : Type ℓ} where
  -- a copy of the latest sample, if its mutex is taken
  abbrev pub latest_copy : App F → Bool → Option (Measurement F)
  latest_copy app stored = if stored then some app.latest_measurement else none

  abbrev pub carry_out_outcome : Setup → App F → Option Outcome → App F
  carry_out_outcome setup app none = app
  carry_out_outcome setup app (some o) = carry_out_line setup app o

module _ {ℓ} {F : Type ℓ} ⦃fl : Float F⦄ (firmware : Firmware F) where
  open firmware use {
    flags, build, setup, network_setup, protection_config, heartbeat_timeout_ms,
    watchdog_startup_grace_ms,
  }

  abbrev pub supervision : System F → Supervision
  supervision s = record {
    heartbeat_timeout_ms = heartbeat_timeout_ms;
    watchdog_startup_grace_ms = watchdog_startup_grace_ms;
    startup_ms = s.started_ms;
  }

  unfoldable pub read_step : App F → Readings F → Read → Readings F
  read_step app r (Read.network_snapshot at) = record r {
    network_snapshot = protection_get_snapshot app.guard at.taken at.now_ms;
  }
  read_step app r (Read.display_snapshot at) = record r {
    display_snapshot = protection_get_snapshot app.guard at.taken at.now_ms;
  }
  read_step app r (Read.network_copy stored) = record r { network_copy = latest_copy app stored }
  read_step app r (Read.display_copy stored) = record r { display_copy = latest_copy app stored }
  read_step app r Read.network_relay = record r { network_relay = app.actuator.commanded_on }

  abbrev pub shared_of : Readings F → Shared F
  shared_of r = record {
    protection = r.network_snapshot;
    latest = r.network_copy;
    relay_commanded_on = r.network_relay;
    relay_output_enabled = actuator_relay_output_enabled build.relay_output_mode;
  }

  -- The reads do not depend on the libraries, so their place in the round is left open.
  unfoldable pub network_step : System F → System F
  network_step s =
      let next = network_round s.world network_setup (shared_of s.readings) s.network in
      record s { network = next; app = record (s.app) { subscribed_at_ms = next.subscribed_at_ms } }

  unfoldable pub display_step : System F → System F
  display_step s = record s {
    screen =
        display_round build.measurement_source
          (copied_measurement s.world network_setup s.readings.display_copy)
          s.readings.display_snapshot;
  }

  -- After its safe output the supervisor does nothing but restart.
  unfoldable pub supervisor_step : System F → Clocks → ℕ → System F
  supervisor_step s clocks seen =
      let (app, w, restarts) =
        supervisor_round (supervision s) setup s.app s.watchdog clocks seen in
      if s.restarting then s else record s { app = app; watchdog = w; restarting = restarts }

  -- ControlTask goes on with a sample, a tick or a command only when no result is left to apply.
  unfoldable pub judge_step :
      App F → Option ProtectionResult → Moment → App F × Option ProtectionResult
  judge_step app none at =
      let (judged, result) = judge_measurement setup app app.measurement_queue at in
      (judged, some result)
  judge_step app (some result) at = (app, some result)

  unfoldable pub apply_step : App F → Option ProtectionResult → ℕ → App F
  apply_step app none seen = app
  apply_step app (some result) seen = apply_protection_result setup app result seen

  unfoldable pub execute_step : App F → Option ProtectionResult → Moment → App F
  execute_step app none at = command_turn setup app app.command_queue at
  execute_step app (some result) at = app

  unfoldable pub system_step : System F → Step F → System F
  unfolding read_step network_step display_step supervisor_step judge_step apply_step execute_step
  system_step s (registers answer) = record s {
    watchdog = (watchdog_manager_register_current_task s.watchdog answer).0;
  }
  system_step s (samples answers now_ms stored) = record s {
    app = sensor_turn setup s.app (read_measurement flags answers now_ms) stored;
  }
  system_step s (fails seen) = record s { app = drive_safe_output setup s.app seen }
  system_step s (judges at) =
      let (app, due) = judge_step s.app s.due at in record s { app = app; due = due }
  system_step s (applies seen) = record s { app = apply_step s.app s.due seen; due = none }
  system_step s (executes at) = record s { app = execute_step s.app s.due at }
  system_step s (reads what) = record s { readings = read_step s.app s.readings what }
  system_step s draws = display_step s
  system_step s connects = network_step s
  system_step s (receives topic payload size now_ms) = record s {
    app = mqtt_callback setup s.app topic payload size now_ms;
  }
  system_step s (types byte) =
      let (cli, outcome) = press s.cli byte in
      record s { cli = cli; app = carry_out_outcome setup s.app outcome }
  system_step s (beats task now_ms) = record s {
    watchdog = watchdog_manager_heartbeat s.watchdog (heartbeat_id task) now_ms;
  }
  system_step s (supervises clocks seen) = supervisor_step s clocks seen

  unfoldable pub run_system : System F → List (Step F) → System F
  unfolding system_step
  run_system s [] = s
  run_system s (t ∷ ts) = run_system (system_step s t) ts

  -- What a task has read before its first read; it is not used before.
  abbrev pub no_readings : App F → Readings F
  no_readings app = record {
    network_snapshot = protection_get_snapshot app.guard true 0;
    network_copy = none;
    network_relay = app.actuator.commanded_on;
    display_copy = none;
    display_snapshot = protection_get_snapshot app.guard true 0;
  }

  -- The variables before the tasks are created, with the times of `setup` and of the supervisor.
  unfoldable pub boot_system : App F → World F → ℕ → ℕ → System F
  unfolding initial_network
  boot_system app world setup_ms started_ms = record {
    app = app;
    watchdog = initial_watchdog;
    readings = no_readings app;
    world = world;
    network = initial_network network_setup setup_ms;
    cli = initial_cli;
    screen = boot_calls;
    started_ms = started_ms;
    restarting = false;
    due = none;
  }

  -- The states that the device comes to: by a boot up to the creation of the tasks, as after a restart
  -- too, or by a step. The tasks run from their creation on, before `setup` ends and after `fatalStop`
  -- in it too, so their steps come in any order from there, and any of them may not come at all.
  pub data Reached : System F → Type ℓ where
    boots :
        (created : Created) (at : Moment) (app : App F) (world : World F) (setup_ms started_ms : ℕ)
        → app_begin setup protection_config created at ≡ some app
        → Reached (boot_system app world setup_ms started_ms)
    goes : (s : System F) (t : Step F) → Reached s → Reached (system_step s t)
