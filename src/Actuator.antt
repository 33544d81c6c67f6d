-- ===== src/Actuator.antt =====
-- lib/energy_core/src/actuator_policy.h and actuator_policy.cpp, src/build_mode.h and
-- src/actuator.cpp: from the state to the levels on the output pins.
pub mod Outputs
pub mod Writes
mod Tests
use mathlib.Core.Option.{Option, none, some}
use esp32_real_time_energy_c.Base.{
  ℕ, ◌+◌, ◌%◌, ◌≡◌, ◌≢◌, Bool, true, false, not, ◌&&◌, List, [], ◌∷◌, ◌++◌, ◌==◌, if◌then◌else◌,
}
use esp32_real_time_energy_c.Base.Words.{word}
use esp32_real_time_energy_c.Measurement.{MeasurementSource, pzem, simulation}
use esp32_real_time_energy_c.Protection.Types.{SystemState, ProtectionResult}

pub data RelayOutputMode : Type 0 where
  hold_off follow_state : RelayOutputMode

pub record OutputCommand : Type 0 where
  pub relay_commanded_on : Bool
  pub led_normal : Bool
  pub led_alert : Bool

abbrev command : Bool → Bool → Bool → OutputCommand
command relay normal alert = record {
  relay_commanded_on = relay;
  led_normal = normal;
  led_alert = alert;
}

unfoldable pub outputs_for_state : SystemState → OutputCommand
outputs_for_state SystemState.normal = command true true false
outputs_for_state SystemState.warning = command true false true
outputs_for_state SystemState.fault = command false false true
outputs_for_state SystemState.init = command false false false

abbrev pub is_follow_state : RelayOutputMode → Bool
is_follow_state follow_state = true
is_follow_state hold_off = false

unfoldable pub relay_pin_driven_on : Bool → RelayOutputMode → Bool
relay_pin_driven_on commanded_on mode = commanded_on && is_follow_state mode

unfoldable pub relay_level : Bool → ℕ → ℕ → ℕ
relay_level driven_on on_level off_level = if driven_on then on_level else off_level

unfoldable pub outputs_for_result : ProtectionResult → OutputCommand
unfolding outputs_for_state
outputs_for_result result =
    if result.synchronization_failed
    then outputs_for_state SystemState.fault
    else outputs_for_state result.state

-- The preprocessor definitions that select the build.
pub record BuildFlags : Type 0 where
  pub energy_source_pzem : Bool
  pub energy_source_simulation : Bool
  pub energy_relay_output_disable : Bool
  pub energy_relay_output_enable : Bool

pub record BuildMode : Type 0 where
  pub measurement_source : MeasurementSource
  pub relay_output_mode : RelayOutputMode

-- `none` is an `#error`: the firmware is not built.
unfoldable pub build_mode : BuildFlags → Option BuildMode
build_mode f =
    if f.energy_source_pzem && f.energy_source_simulation
    then none
    else if f.energy_source_pzem
    then some (record {
      measurement_source = pzem;
      relay_output_mode = if f.energy_relay_output_disable then hold_off else follow_state;
    })
    else if f.energy_source_simulation
    then if f.energy_relay_output_enable
      then none
      else some (record { measurement_source = simulation; relay_output_mode = hold_off })
    else none

-- The pins and levels of config.h.
pub record Wiring : Type 0 where
  pub relay_pin : ℕ
  pub led_normal_pin : ℕ
  pub led_alert_pin : ℕ
  pub relay_on_level : ℕ
  pub relay_off_level : ℕ

-- A call of `digitalWrite`.
pub record PinWrite : Type 0 where
  pub pin : ℕ
  pub level : ℕ

-- The variables of src/actuator.cpp and the writes to the pins so far, the latest first.
pub record Actuator : Type 0 where
  pub commanded_on : Bool
  pub readback_mismatches : ℕ
  pub writes : List PinWrite

abbrev pub low_level : ℕ
low_level = 0

abbrev pub high_level : ℕ
high_level = 1

abbrev pub led_level : Bool → ℕ
led_level on = if on then high_level else low_level

abbrev pub digital_write : ℕ → ℕ → List PinWrite → List PinWrite
digital_write pin level writes = record { pin = pin; level = level } ∷ writes

module _ (mode : RelayOutputMode) (wiring : Wiring) where
  open wiring use {relay_pin, led_normal_pin, led_alert_pin, relay_on_level, relay_off_level}

  -- `seen` is what `digitalRead` of the relay pin returns.
  unfoldable pub drive : Actuator → OutputCommand → ℕ → Actuator
  unfolding relay_pin_driven_on relay_level
  drive a out seen =
      let level =
        relay_level (relay_pin_driven_on out.relay_commanded_on mode) relay_on_level
          relay_off_level in
      let written = digital_write led_alert_pin (led_level out.led_alert) (
        digital_write led_normal_pin (led_level out.led_normal)
          (digital_write relay_pin level a.writes)) in
      if seen == level
      then record {
        commanded_on = out.relay_commanded_on;
        readback_mismatches = a.readback_mismatches;
        writes = written;
      }
      else record {
        commanded_on = out.relay_commanded_on;
        readback_mismatches = (a.readback_mismatches + 1) % word;
        writes = digital_write relay_pin level written;
      }

  unfoldable pub actuator_begin : Actuator → Actuator
  actuator_begin a = record a {
    commanded_on = false;
    writes = digital_write led_alert_pin low_level (
        digital_write led_normal_pin low_level (
          digital_write relay_pin relay_off_level
            (digital_write relay_pin relay_off_level a.writes)));
  }

  unfoldable pub actuator_apply_state : Actuator → SystemState → ℕ → Actuator
  unfolding drive outputs_for_state
  actuator_apply_state a state seen = drive a (outputs_for_state state) seen

  unfoldable pub actuator_apply_result : Actuator → ProtectionResult → ℕ → Actuator
  unfolding drive outputs_for_result
  actuator_apply_result a result seen = drive a (outputs_for_result result) seen

abbrev pub initial_actuator : Actuator
initial_actuator = record { commanded_on = false; readback_mismatches = 0; writes = [] }

abbrev pub actuator_relay_output_enabled : RelayOutputMode → Bool
actuator_relay_output_enabled mode = is_follow_state mode
