-- ===== src/Controller/Turns.antt =====
-- The tasks of src/main.cpp and the callback of src/mqtt_manager.cpp, a turn at a time and in any
-- order.
use mathlib.Core.Option.{Option, none, some}
use esp32_real_time_energy_c.Base.{ℕ, Bool, List, [], ◌∷◌, if◌then◌else◌, ◌&&◌}
use esp32_real_time_energy_c.Base.Float.{Float}
use esp32_real_time_energy_c.Measurement.{Measurement, empty_measurement}
use esp32_real_time_energy_c.Protection.Types.{SystemState, ProtectionConfig}
use esp32_real_time_energy_c.Guard.{protection_begin, initial_guard}
use esp32_real_time_energy_c.Actuator.{initial_actuator, actuator_begin, actuator_apply_state}
use esp32_real_time_energy_c.Controller.Commands.{CommandType}
use esp32_real_time_energy_c.Controller.{
  drive_safe_output, Setup, App, Moment, sensor_turn, request_command, mqtt_callback, control_turn,
  command_turn,
}

-- A sample is read; ControlTask takes a sample or ticks; it takes a command; CliTask asks for a
-- command; a message comes in; the client subscribes; the safe
-- output is driven.
pub data Turn {ℓ} (F : Type ℓ) : Type ℓ where
  senses : Measurement F → Bool → Turn F
  controls : Moment → Turn F
  executes : Moment → Turn F
  requests : CommandType → Turn F
  receives : Option (List ℕ) → Option (List ℕ) → ℕ → ℕ → Turn F
  subscribes : ℕ → Turn F
  stops : ℕ → Turn F

-- Which kernel objects `setup` could create.
pub record Created : Type 0 where
  pub protection_mutex : Bool
  pub measurement_mutex : Bool
  pub measurement_queue : Bool
  pub command_queue : Bool

module _ {ℓ} {F : Type ℓ} ⦃fl : Float F⦄ (setup : Setup) where
  unfoldable pub turn : App F → Turn F → App F
  unfolding drive_safe_output sensor_turn request_command mqtt_callback control_turn command_turn
  turn app (senses m stored) = sensor_turn setup app m stored
  turn app (controls at) = control_turn setup app at
  turn app (executes at) = command_turn setup app app.command_queue at
  turn app (requests type) = request_command setup app type
  turn app (receives topic payload size now_ms) = mqtt_callback setup app topic payload size now_ms
  turn app (stops seen) = drive_safe_output setup app seen
  turn app (subscribes now_ms) = record app { subscribed_at_ms = now_ms }

  unfoldable pub run_turns : App F → List (Turn F) → App F
  run_turns app [] = app
  run_turns app (t ∷ ts) = run_turns (turn app t) ts

  -- `setup`, as far as it touches what the tasks share. `none`: it stopped for good.
  unfoldable pub app_begin : ProtectionConfig F → Created → Moment → Option (App F)
  unfolding actuator_begin actuator_apply_state protection_begin initial_guard
  app_begin config created at =
      let off = actuator_begin setup.mode setup.wiring initial_actuator in
      let actuator = actuator_apply_state setup.mode setup.wiring off SystemState.init at.seen in
      elim (protection_begin (initial_guard config) created.protection_mutex at.now_ms) [
        | none ↦ none
        | some guard ↦
            if created.measurement_mutex && created.measurement_queue && created.command_queue
            then some (record {
              guard = guard;
              actuator = actuator;
              measurement_queue = [];
              command_queue = [];
              latest_measurement = empty_measurement;
              subscribed_at_ms = 0;
            })
            else none
      ]
