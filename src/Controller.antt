-- ===== src/Controller.antt =====
-- src/main.cpp, with the callback of src/mqtt_manager.cpp and the command names of
-- src/diagnostics.cpp: the tasks that share the two queues, and what each does in one turn.
pub mod Commands
pub mod Turns
pub mod Remote
pub mod Core
pub mod Relay
pub mod Safety
pub mod Queues
pub mod Rounds
pub mod Restart
pub mod Startup
pub mod Held
pub mod Tests
use mathlib.Core.Option.{Option, none, some}
use esp32_real_time_energy_c.Base.{
  ℕ, zero, suc, ◌+◌, Bool, true, false, ◌&&◌, List, [], ◌∷◌, ◌++◌, ltb, if◌then◌else◌, length,
}
use esp32_real_time_energy_c.Base.Float.{Float}
use esp32_real_time_energy_c.Measurement.{Measurement, empty_measurement}
use esp32_real_time_energy_c.Protection.Types.{SystemState, ResetResult, ProtectionResult}
use esp32_real_time_energy_c.Guard.{
  Guard, protection_update, protection_tick, protection_reset, protection_acknowledge,
}
use esp32_real_time_energy_c.Actuator.{
  RelayOutputMode, Wiring, Actuator, actuator_apply_state, actuator_apply_result,
}
use esp32_real_time_energy_c.Command.Types.{
  RemoteCommandType, RemoteCommandVerdict, RemoteCommandResult, accepted,
}
use esp32_real_time_energy_c.Command.{
  parse_remote_command, command_in_holdoff, mqtt_topic_cmd_reset, mqtt_topic_cmd_ack,
}
use Commands.{CommandType}

-- What the build and config.h fix.
pub record Setup : Type 0 where
  pub mode : RelayOutputMode
  pub wiring : Wiring
  pub device_id : List ℕ
  pub measurement_queue_length : ℕ
  pub command_queue_length : ℕ
  pub mqtt_command_holdoff_ms : ℕ

-- What the tasks share, the heads of the queues first.
pub record App {ℓ} (F : Type ℓ) : Type ℓ where
  pub guard : Guard F
  pub actuator : Actuator
  pub measurement_queue : List (Measurement F)
  pub command_queue : List CommandType
  pub latest_measurement : Measurement F
  pub subscribed_at_ms : ℕ

-- What a turn meets: is the protection mutex taken, the time, and what the relay pin reads back.
pub record Moment : Type 0 where
  pub taken : Bool
  pub now_ms : ℕ
  pub seen : ℕ

-- `xQueueSend`: an item is posted if there is room.
abbrev pub queue_send {ℓ} : {A : Type ℓ} → ℕ → A → List A → List A
queue_send capacity item queue = if ltb (length queue) capacity then queue ++ (item ∷ []) else queue

-- `parsed.type == RemoteCommandType::RESET ? … : …`
abbrev pub remote_command : RemoteCommandType → CommandType
remote_command RemoteCommandType.reset = CommandType.remote_reset
remote_command _ = CommandType.remote_ack

abbrev pub is_accepted : RemoteCommandVerdict → Bool
is_accepted RemoteCommandVerdict.accepted = true
is_accepted _ = false

abbrev pub is_reset_accepted : ResetResult → Bool
is_reset_accepted ResetResult.accepted = true
is_reset_accepted _ = false

module _ {ℓ} {F : Type ℓ} (setup : Setup) where
  open setup use {
    mode, wiring, device_id, measurement_queue_length, command_queue_length,
    mqtt_command_holdoff_ms,
  }

  -- one turn of `sensorTask`; `stored`: the measurement mutex was taken
  unfoldable pub sensor_turn : App F → Measurement F → Bool → App F
  sensor_turn app m stored = record app {
    measurement_queue = queue_send measurement_queue_length m app.measurement_queue;
    latest_measurement = if stored then m else app.latest_measurement;
  }

  unfoldable pub request_command : App F → CommandType → App F
  request_command app type = record app {
    command_queue = queue_send command_queue_length type app.command_queue;
  }

  unfoldable pub mqtt_callback : App F → Option (List ℕ) → Option (List ℕ) → ℕ → ℕ → App F
  unfolding request_command
  mqtt_callback app topic payload size now_ms =
      let parsed =
        parse_remote_command topic payload size (mqtt_topic_cmd_reset device_id)
          (mqtt_topic_cmd_ack device_id) in
      if is_accepted parsed.verdict
      then if command_in_holdoff now_ms app.subscribed_at_ms mqtt_command_holdoff_ms
        then app
        else request_command app (remote_command parsed.type)
      else app

  -- The safe output that `watchdogTask` drives before a restart, and `fatalStop` when it stops.
  unfoldable pub drive_safe_output : App F → ℕ → App F
  drive_safe_output app seen = record app {
    actuator = actuator_apply_state mode wiring app.actuator SystemState.fault seen;
  }

  unfoldable pub apply_protection_result : App F → ProtectionResult → ℕ → App F
  apply_protection_result app result seen = record app {
    actuator = actuator_apply_result mode wiring app.actuator result seen;
  }

module _ {ℓ} {F : Type ℓ} ⦃fl : Float F⦄ (setup : Setup) where
  open setup use {mode, wiring}

  -- The first half of a round of `controlTask`: a sample if there is one, or else a tick, and its result
  -- on the outputs, where no other task comes in between; System has the two as steps of their own.
  unfoldable pub control_measurement : App F → List (Measurement F) → Moment → App F
  unfolding apply_protection_result
  control_measurement app [] at =
      let (guard, result) = protection_tick app.guard at.taken at.now_ms in
      apply_protection_result setup (record app { guard = guard }) result at.seen
  control_measurement app (m ∷ rest) at =
      let (guard, result) = protection_update app.guard m at.taken at.now_ms in
      apply_protection_result setup (record app { guard = guard; measurement_queue = rest }) result
        at.seen

  -- The same up to the release of the mutex: the result is not applied to the outputs.
  unfoldable pub judge_measurement :
      App F → List (Measurement F) → Moment → App F × ProtectionResult
  judge_measurement app [] at =
      let (guard, result) = protection_tick app.guard at.taken at.now_ms in
      (record app { guard = guard }, result)
  judge_measurement app (m ∷ rest) at =
      let (guard, result) = protection_update app.guard m at.taken at.now_ms in
      (record app { guard = guard; measurement_queue = rest }, result)

  unfoldable pub control_turn : App F → Moment → App F
  unfolding control_measurement
  control_turn app at = control_measurement app app.measurement_queue at

  unfoldable pub execute_reset : App F → Moment → App F
  execute_reset app at =
      let (guard, result) = protection_reset app.guard at.taken at.now_ms in
      record app {
        guard = guard;
        actuator =
            if is_reset_accepted result
            then actuator_apply_state mode wiring app.actuator SystemState.init at.seen
            else app.actuator;
      }

  unfoldable pub execute_acknowledge : App F → Moment → App F
  execute_acknowledge app at = record app { guard = (protection_acknowledge app.guard at.taken).0 }

  -- the `switch` of the drain loop
  unfoldable pub execute : App F → CommandType → Moment → App F
  unfolding execute_reset execute_acknowledge
  execute app CommandType.reset at = execute_reset app at
  execute app CommandType.remote_reset at = execute_reset app at
  execute app CommandType.ack at = execute_acknowledge app at
  execute app CommandType.remote_ack at = execute_acknowledge app at
  execute app _ at = app

  -- one pass of the drain loop, if there is a command
  unfoldable pub command_turn : App F → List CommandType → Moment → App F
  unfolding execute
  command_turn app [] at = app
  command_turn app (type ∷ rest) at = execute (record app { command_queue = rest }) type at
