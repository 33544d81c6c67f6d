-- ===== src/Config.antt =====
-- The constants of src/config.example.h that the firmware computes with.
use esp32_real_time_energy_c.Base.{ℕ, List}
use esp32_real_time_energy_c.Base.Text.{codes}
use esp32_real_time_energy_c.Base.Float.{Float}
use esp32_real_time_energy_c.Protection.Types.{ProtectionConfig}
use esp32_real_time_energy_c.Actuator.{Wiring}

abbrev pub mqtt_device_id : List ℕ
mqtt_device_id = codes "device01"

abbrev pub mqtt_username : List ℕ
mqtt_username = codes "YOUR_MQTT_USERNAME"

abbrev pub mqtt_password : List ℕ
mqtt_password = codes "YOUR_MQTT_PASSWORD"

abbrev pub mqtt_reconnect_interval_ms : ℕ
mqtt_reconnect_interval_ms = 5000

abbrev pub mqtt_command_holdoff_ms : ℕ
mqtt_command_holdoff_ms = 2000

abbrev pub firmware_name : List ℕ
firmware_name = codes "ESP32 Real-Time Energy Controller"

abbrev pub firmware_version : List ℕ
firmware_version = codes "1.3.0"

abbrev pub firmware_build : List ℕ
firmware_build = codes "SAFETY-HARDENING-1"

-- LED_NORMAL_PIN, LED_ALERT_PIN, RELAY_PIN, RELAY_ON_LEVEL, which is LOW, and RELAY_OFF_LEVEL
abbrev pub wiring : Wiring
wiring = record {
  relay_pin = 23;
  led_normal_pin = 18;
  led_alert_pin = 19;
  relay_on_level = 0;
  relay_off_level = 1;
}

-- The thresholds and times of the protection.
abbrev pub protection_config {ℓ} : {F : Type ℓ} ⦃fl : Float F⦄ → ProtectionConfig F
protection_config ⦃fl = fl⦄ = record {
  warning_power_w = fl.literal 485 0;
  fault_power_w = fl.literal 550 0;
  min_operating_voltage_v = fl.literal 10 0;
  fault_confirm_ms = 2000;
  max_measurement_age_ms = 3000;
}

abbrev pub telemetry_period_ms : ℕ
telemetry_period_ms = 2000

abbrev pub measurement_queue_length : ℕ
measurement_queue_length = 5

abbrev pub command_queue_length : ℕ
command_queue_length = 8

abbrev pub heartbeat_timeout_ms : ℕ
heartbeat_timeout_ms = 6000

abbrev pub watchdog_startup_grace_ms : ℕ
watchdog_startup_grace_ms = 10_000

abbrev pub wifi_reconnect_interval_ms : ℕ
wifi_reconnect_interval_ms = 10_000

abbrev pub blynk_reconnect_interval_ms : ℕ
blynk_reconnect_interval_ms = 5000

abbrev pub ntp_check_interval_ms : ℕ
ntp_check_interval_ms = 1000
