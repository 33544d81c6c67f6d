-- ===== src/Actuator/Tests.antt =====
-- The pins of src/config.example.h: the relay on pin 23, active low.
use esp32_real_time_energy_c.Base.{◌≡◌, ◌↔◌, refl, true, false, arith}
use esp32_real_time_energy_c.Measurement.{pzem}
use esp32_real_time_energy_c.Protection.{lock_failure_result}
use esp32_real_time_energy_c.Protection.Types.{SystemState}
use esp32_real_time_energy_c.Protection.Invariant.{IsOperating}
use esp32_real_time_energy_c.Actuator.{
  follow_state, BuildFlags, BuildMode, build_mode, Wiring, outputs_for_result, relay_level,
  relay_pin_driven_on,
}
use esp32_real_time_energy_c.Actuator.Outputs.{relay_on_iff}
use esp32_real_time_energy_c.Actuator.Writes.{IsWired}

abbrev board : Wiring
board = record {
  relay_pin = 23;
  led_normal_pin = 18;
  led_alert_pin = 19;
  relay_on_level = 0;
  relay_off_level = 1;
}

board-IsWired : IsWired board
board-IsWired = omega arith

abbrev meter_build : BuildFlags
meter_build = record {
  energy_source_pzem = true;
  energy_source_simulation = false;
  energy_relay_output_disable = false;
  energy_relay_output_enable = false;
}

abbrev meter_mode : BuildMode
meter_mode = record { measurement_source = pzem; relay_output_mode = follow_state }

relay_on_iff_example :
    (relay_level
        (relay_pin_driven_on
          (outputs_for_result lock_failure_result).relay_commanded_on
          follow_state)
        0
        1
      ≡ 0)
    ↔ ((true ≡ true) × (false ≡ false) × (true ≡ false) × IsOperating SystemState.fault)
unfolding build_mode
relay_on_iff_example =
    relay_on_iff meter_build meter_mode lock_failure_result 0 1 refl (omega arith)
