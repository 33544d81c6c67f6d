-- ===== src/System/Configured.antt =====
-- The firmware of src/main.cpp with the constants of src/config.example.h.
use mathlib.Core.Option.{some}
use esp32_real_time_energy_c.Base.{ℕ, ◌≡◌, refl, arith, true}
use esp32_real_time_energy_c.Base.Float.{Float}
use esp32_real_time_energy_c.Actuator.{BuildFlags, BuildMode, build_mode}
use esp32_real_time_energy_c.Actuator.Writes.{IsWired}
use esp32_real_time_energy_c.Command.{topic_segment_valid}
use esp32_real_time_energy_c.Config.{
  mqtt_username, mqtt_password, mqtt_device_id, mqtt_reconnect_interval_ms, mqtt_command_holdoff_ms,
  firmware_version, wiring, protection_config, telemetry_period_ms, measurement_queue_length,
  command_queue_length, heartbeat_timeout_ms, watchdog_startup_grace_ms, wifi_reconnect_interval_ms,
  blynk_reconnect_interval_ms, ntp_check_interval_ms,
}
use esp32_real_time_energy_c.System.{Firmware}
use esp32_real_time_energy_c.System.Safety.{IsBuilt}

module _ {ℓ} {F : Type ℓ} ⦃fl : Float F⦄ where
  -- Of the build and of the number of the chip.
  abbrev pub configured : BuildFlags → BuildMode → ℕ → Firmware F
  configured flags build chip_id = record {
    flags = flags;
    build = build;
    setup = record {
      mode = build.relay_output_mode;
      wiring = wiring;
      device_id = mqtt_device_id;
      measurement_queue_length = measurement_queue_length;
      command_queue_length = command_queue_length;
      mqtt_command_holdoff_ms = mqtt_command_holdoff_ms;
    };
    network_setup = record {
      device_id = mqtt_device_id;
      firmware_version = firmware_version;
      chip_id = chip_id;
      mqtt_username = mqtt_username;
      mqtt_password = mqtt_password;
      wifi_reconnect_interval_ms = wifi_reconnect_interval_ms;
      ntp_check_interval_ms = ntp_check_interval_ms;
      blynk_reconnect_interval_ms = blynk_reconnect_interval_ms;
      mqtt_reconnect_interval_ms = mqtt_reconnect_interval_ms;
      telemetry_period_ms = telemetry_period_ms;
    };
    protection_config = protection_config;
    heartbeat_timeout_ms = heartbeat_timeout_ms;
    watchdog_startup_grace_ms = watchdog_startup_grace_ms;
  }

  pub configured-IsBuilt :
      (flags : BuildFlags) (build : BuildMode) (chip_id : ℕ)
      → build_mode flags ≡ some build
      → IsBuilt (configured flags build chip_id)
  configured-IsBuilt flags build chip_id compiles = record { compiles = compiles; obeys = refl }

pub wiring-IsWired : IsWired wiring
wiring-IsWired = omega arith

pub device_id_valid : topic_segment_valid mqtt_device_id 0 ≡ true
unfolding topic_segment_valid
device_id_valid = refl
