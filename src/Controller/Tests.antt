-- ===== src/Controller/Tests.antt =====
-- The tasks of src/main.cpp at the settings of src/config.example.h.
use mathlib.Core.Option.{some}
use esp32_real_time_energy_c.Base.{ℕ, ◌≡◌, ◌≤◌, ◌⊎◌, refl, true, false, List, [], ◌∷◌, arith}
use esp32_real_time_energy_c.Base.Text.{codes}
use esp32_real_time_energy_c.Base.Words.{sub32}
use esp32_real_time_energy_c.Base.Float.{Milli, milli_float}
use esp32_real_time_energy_c.Measurement.{empty_measurement}
use esp32_real_time_energy_c.Protection.{begin, update, new_core}
use esp32_real_time_energy_c.Protection.Invariant.{IsOperating}
use esp32_real_time_energy_c.Protection.Samples.{IsBacked}
use esp32_real_time_energy_c.Protection.Tests.{test_config, sample, core}
use esp32_real_time_energy_c.Guard.{protection_update}
use esp32_real_time_energy_c.Actuator.{follow_state, actuator_apply_result, initial_actuator}
use esp32_real_time_energy_c.Command.Types.{RemoteCommandType}
use esp32_real_time_energy_c.Command.{
  parse_remote_command, mqtt_topic_cmd_reset, command_in_holdoff,
}
use esp32_real_time_energy_c.Controller.Commands.{CommandType}
use esp32_real_time_energy_c.Controller.{control_turn, Setup, App, Moment, mqtt_callback}
use esp32_real_time_energy_c.Controller.Turns.{
  Turn, senses, controls, requests, receives, subscribes, turn, run_turns, Created, app_begin,
}
use esp32_real_time_energy_c.Controller.Safety.{relay_on-IsBacked}
use esp32_real_time_energy_c.Controller.Rounds.{
  view, carried_out, measured, control_round, control_round-drains,
}
use esp32_real_time_energy_c.Controller.Remote.{Posts, AsksDevice, holds_off, mqtt_callback-Posts}
use esp32_real_time_energy_c.Controller.Restart.{run_turns-stops}
use esp32_real_time_energy_c.Controller.Turns.{stops}
use esp32_real_time_energy_c.Actuator.Writes.{IsWired}
use esp32_real_time_energy_c.Controller.Startup.{
  StartAnswers, setup_firmware, IsHeld, actuator_of, IsRunning, setup_firmware-IsHeld,
}

abbrev pub setup : Setup
setup = record {
  mode = follow_state;
  wiring = record {
    relay_pin = 23;
    led_normal_pin = 18;
    led_alert_pin = 19;
    relay_on_level = 0;
    relay_off_level = 1;
  };
  device_id = codes "device01";
  measurement_queue_length = 5;
  command_queue_length = 8;
  mqtt_command_holdoff_ms = 2000;
}

-- The lock is taken, and the relay pin reads back a level.
abbrev pub at : ℕ → ℕ → Moment
at now_ms seen = record { taken = true; now_ms = now_ms; seen = seen }

abbrev pub created : Created
created = record {
  protection_mutex = true;
  measurement_mutex = true;
  measurement_queue = true;
  command_queue = true;
}

abbrev pub boot : App Milli
boot = record {
  guard = record { core = begin core 500; has_mutex = true; internal_fault_pending = false };
  actuator = record initial_actuator {
    writes =
        record { pin = 19; level = 0 }
        ∷ record { pin = 18; level = 0 }
        ∷ record { pin = 23; level = 1 }
        ∷ record { pin = 19; level = 0 }
        ∷ record { pin = 18; level = 0 }
        ∷ record { pin = 23; level = 1 }
        ∷ record { pin = 23; level = 1 }
        ∷ [];
  };
  measurement_queue = [];
  command_queue = [];
  latest_measurement = empty_measurement;
  subscribed_at_ms = 0;
}

booted : app_begin setup test_config created (at 500 1) ≡ some boot
unfolding app_begin
booted = refl

-- a sample, a reset by hand and one by message, which come too early
abbrev turns : List (Turn Milli)
turns =
    subscribes 800
    ∷ senses (sample 40 1000) true
    ∷ requests CommandType.reset
    ∷ receives (some (codes "energy/device01/cmd/reset")) (some (codes "reset")) 5 2900
    ∷ []

relay_closes :
    let b = turn setup (run_turns setup boot turns) (controls (at 3100 0)) in
    (b.actuator.commanded_on ≡ true)
    × (b.command_queue ≡ CommandType.reset ∷ CommandType.remote_reset ∷ [])
unfolding run_turns turn begin parse_remote_command mqtt_topic_cmd_reset command_in_holdoff
    actuator_apply_result protection_update update new_core
relay_closes = (refl, refl)

relay_on-IsBacked_example :
    let b = turn setup (run_turns setup boot turns) (controls (at 3100 0)) in
    (b.guard.internal_fault_pending ≡ false)
    × IsOperating b.guard.core.state
    × IsBacked b.guard.core
    × (sub32 3100 b.guard.core.last_sample_ms ≤ b.guard.core.max_measurement_age_ms)
relay_on-IsBacked_example =
    relay_on-IsBacked setup test_config created (at 500 1) (at 3100 0) boot turns booted
      relay_closes.0

-- two commands wait
abbrev asked : App Milli
asked = record boot { command_queue = CommandType.ack ∷ CommandType.reset ∷ [] }

control_round-drains_example :
    let b = control_round setup asked (at 900 1) (at 901 1 ∷ at 902 1 ∷ []) in
    (b.command_queue ≡ [])
    × (view setup b
        ≡ carried_out setup
            (
              measured setup asked.guard [] (at 900 1),
              (control_turn setup asked (at 900 1)).actuator.commanded_on,
            )
            (CommandType.ack ∷ CommandType.reset ∷ [])
            (at 901 1 ∷ at 902 1 ∷ []))
control_round-drains_example =
    control_round-drains setup asked (at 900 1) (at 901 1 ∷ at 902 1 ∷ []) (omega arith)

-- a reset for this device after the hold-off
abbrev topic : List ℕ
topic = codes "energy/device01/cmd/reset"

mqtt_callback-Posts_example :
    let b = mqtt_callback setup boot (some topic) (some (codes "reset")) 5 2900 in
    (AsksDevice setup RemoteCommandType.reset topic (codes "reset")
      × (holds_off setup boot 2900 ≡ false)
      × Posts setup boot CommandType.remote_reset b)
    ⊎ (AsksDevice setup RemoteCommandType.ack topic (codes "reset")
        × (holds_off setup boot 2900 ≡ false)
        × Posts setup boot CommandType.remote_ack b)
    ⊎ ((b ≡ boot)
        × ((holds_off setup boot 2900 ≡ true)
            ⊎ ((type : RemoteCommandType) → ¬ (AsksDevice setup type topic (codes "reset")))))
mqtt_callback-Posts_example = mqtt_callback-Posts setup boot topic (codes "reset") 2900

run_turns-stops_example :
    let app = run_turns setup boot turns in
    ((run_turns setup app (stops 0 ∷ [])).actuator.commanded_on ≡ false)
    × ((run_turns setup app (stops 0 ∷ controls (at 3100 0) ∷ [])).guard
        ≡ (run_turns setup app (controls (at 3100 0) ∷ [])).guard)
    × ((run_turns setup app (stops 0 ∷ controls (at 3100 0) ∷ [])).actuator.commanded_on
        ≡ (run_turns setup app (controls (at 3100 0) ∷ [])).actuator.commanded_on)
run_turns-stops_example = run_turns-stops setup (run_turns setup boot turns) (at 3100 0) 0

wired : IsWired setup.wiring
wired = omega arith

-- ControlTask cannot be created.
abbrev refusal : StartAnswers
refusal = record {
  watchdog = true;
  sensor_task = true;
  control_task = false;
  display_task = true;
  network_task = true;
  watchdog_task = true;
  cli_task = true;
}

setup_firmware-IsHeld_example :
    let s = setup_firmware setup test_config created refusal (at 500 1) in
    IsHeld setup (actuator_of s) × ¬ (IsRunning s)
setup_firmware-IsHeld_example =
    setup_firmware-IsHeld setup test_config created refusal (at 500 1) wired
      (λ (_, _, _, _, _, _, e). absurd (ground (arith, e)))
