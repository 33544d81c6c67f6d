-- ===== src/Console/Reports.antt =====
-- The reports of src/diagnostics.cpp: every line that a function prints, without its line end.
use esp32_real_time_energy_c.Base.{ℕ, ◌/◌, ◌%◌, Bool, List, [], ◌∷◌, ◌++◌, if◌then◌else◌}
use esp32_real_time_energy_c.Base.Words.{sub32}
use esp32_real_time_energy_c.Base.Float.{Float}
use esp32_real_time_energy_c.Base.Text.{codes}
use esp32_real_time_energy_c.Measurement.{
  Measurement, measurement_source_name, measurement_status_name,
}
use esp32_real_time_energy_c.Protection.Types.{
  ProtectionSnapshot, system_state_name, fault_code_name, reset_result_name,
}
use esp32_real_time_energy_c.Actuator.{Actuator, BuildMode, actuator_relay_output_enabled}
use esp32_real_time_energy_c.Telemetry.{u32_text}
use esp32_real_time_energy_c.Console.{pos, ℤ, signed_text, choice}

abbrev pub rule : List ℕ
rule = codes "========================================"

-- `NetworkSnapshot`; the address is the text of `toString`.
pub record NetworkSnapshot : Type 0 where
  pub wifi_connected : Bool
  pub blynk_connected : Bool
  pub mqtt_connected : Bool
  pub time_synchronized : Bool
  pub rssi : ℤ
  pub ip : List ℕ

-- `getNetworkSnapshot` of src/main.cpp, from the flags of NetworkTask and the answers of the libraries
unfoldable pub get_network_snapshot :
    (wifi_connected blynk_connected mqtt_connected time_synchronized : Bool)
    → ℤ
    → List ℕ
    → NetworkSnapshot
get_network_snapshot wifi_connected blynk_connected mqtt_connected time_synchronized rssi local_ip =
    record {
      wifi_connected = wifi_connected;
      blynk_connected = blynk_connected;
      mqtt_connected = mqtt_connected;
      time_synchronized = time_synchronized;
      rssi = if wifi_connected then rssi else pos 0;
      ip = if wifi_connected then local_ip else codes "0.0.0.0";
    }

unfoldable pub diagnostics_print_help : List (List ℕ)
diagnostics_print_help =
    []
    ∷ rule
    ∷ codes "       ESP32 ENERGY CONTROLLER CLI"
    ∷ rule
    ∷ codes "help       - Show available commands"
    ∷ codes "status     - Complete system status"
    ∷ codes "measure    - Latest measurement"
    ∷ codes "fault      - Fault manager status"
    ∷ codes "watchdog   - Watchdog/heartbeat status"
    ∷ codes "tasks      - RTOS task status"
    ∷ codes "uptime     - System uptime"
    ∷ codes "reset      - Reset active fault"
    ∷ codes "ack        - Acknowledge active fault"
    ∷ codes "version    - Firmware information"
    ∷ rule
    ∷ []

-- the arguments of `printf` in `diagnosticsPrintUptime`
abbrev pub uptime_days : ℕ → ℕ
uptime_days seconds = seconds / 86_400

abbrev pub uptime_hours : ℕ → ℕ
uptime_hours seconds = seconds % 86_400 / 3600

abbrev pub uptime_minutes : ℕ → ℕ
uptime_minutes seconds = seconds % 3600 / 60

abbrev pub uptime_seconds : ℕ → ℕ
uptime_seconds seconds = seconds % 60

unfoldable pub diagnostics_print_uptime : ℕ → List ℕ
diagnostics_print_uptime now_ms =
    let seconds = now_ms / 1000 in
    codes "Uptime: "
    ++ u32_text (uptime_days seconds)
    ++ codes " d "
    ++ u32_text (uptime_hours seconds)
    ++ codes " h "
    ++ u32_text (uptime_minutes seconds)
    ++ codes " m "
    ++ u32_text (uptime_seconds seconds)
    ++ codes " s"

unfoldable pub diagnostics_print_fault : ProtectionSnapshot → ℕ → List (List ℕ)
diagnostics_print_fault p now_ms =
    []
    ∷ codes "============== FAULT =================="
    ∷ (codes "Active Fault     : " ++ fault_code_name p.fault.active_fault)
    ∷ (codes "Last Fault       : " ++ fault_code_name p.fault.last_fault)
    ∷ (codes "Active           : " ++ choice p.fault.active (codes "YES") (codes "NO"))
    ∷ (codes "Acknowledged     : " ++ choice p.fault.acknowledged (codes "YES") (codes "NO"))
    ∷ (codes "Total Faults     : " ++ u32_text p.fault.total_faults)
    ∷ (codes "State            : " ++ system_state_name p.state)
    ∷ ((if p.fault.active
          then (codes "Active Duration  : "
              ++ u32_text (sub32 now_ms p.fault.active_since)
              ++ codes " ms")
            ∷ []
          else [])
        ++ (rule ∷ []))

unfoldable pub diagnostics_print_network : NetworkSnapshot → List (List ℕ)
diagnostics_print_network n =
    []
    ∷ codes "============ NETWORK ==================="
    ∷ (codes "WiFi             : "
        ++ choice n.wifi_connected (codes "CONNECTED") (codes "DISCONNECTED"))
    ∷ (codes "NTP              : "
        ++ choice n.time_synchronized (codes "SYNCED") (codes "NOT SYNCED"))
    ∷ ((if n.wifi_connected
          then (codes "IP Address       : " ++ n.ip)
            ∷ (codes "RSSI             : " ++ signed_text n.rssi ++ codes " dBm")
            ∷ []
          else [])
        ++ ((codes "Blynk            : "
              ++ choice n.blynk_connected (codes "CONNECTED") (codes "DISCONNECTED"))
            ∷ (codes "MQTT             : "
                ++ choice n.mqtt_connected (codes "CONNECTED") (codes "DISCONNECTED"))
            ∷ rule
            ∷ []))

module _ {ℓ} {F : Type ℓ} ⦃fl : Float F⦄ (mode : BuildMode) where
  open fl use {format}

  unfoldable pub diagnostics_print_measurement : Measurement F → ℕ → List (List ℕ)
  diagnostics_print_measurement m now_ms =
      []
      ∷ codes "=========== MEASUREMENT ================"
      ∷ (codes "Source           : " ++ measurement_source_name mode.measurement_source)
      ∷ (codes "Sample source    : " ++ measurement_source_name m.source)
      ∷ (codes "Validity         : "
          ++ choice m.valid (codes "VALID") (codes "INVALID")
          ++ codes " ("
          ++ measurement_status_name m.status
          ++ codes ")")
      ∷ (codes "Voltage          : " ++ format 2 m.voltage ++ codes " V")
      ∷ (codes "Current          : " ++ format 3 m.current ++ codes " A")
      ∷ (codes "Power            : " ++ format 2 m.power ++ codes " W")
      ∷ (codes "Energy           : " ++ format 3 m.energy ++ codes " kWh")
      ∷ (codes "Apparent Power   : " ++ format 2 m.apparent_power ++ codes " VA")
      ∷ (codes "Power Factor     : " ++ format 3 m.power_factor)
      ∷ (codes "Timestamp        : " ++ u32_text m.timestamp ++ codes " ms")
      ∷ (codes "Measurement Age  : " ++ u32_text (sub32 now_ms m.timestamp) ++ codes " ms")
      ∷ rule
      ∷ []

  unfoldable pub diagnostics_print_status :
      Measurement F → ProtectionSnapshot → NetworkSnapshot → Actuator → List (List ℕ)
  unfolding diagnostics_print_network
  diagnostics_print_status measurement protection network actuator =
      []
      ∷ codes "============ SYSTEM STATUS ============="
      ∷ (codes "State            : " ++ system_state_name protection.state)
      ∷ (codes "Fault            : " ++ fault_code_name protection.fault.active_fault)
      ∷ (codes "Fault Active     : " ++ choice protection.fault.active (codes "YES") (codes "NO"))
      ∷ (codes "Fault ACK        : "
          ++ choice protection.fault.acknowledged (codes "YES") (codes "NO"))
      ∷ (codes "Relay (commanded): " ++ choice actuator.commanded_on (codes "ON") (codes "OFF"))
      ∷ (codes "Relay GPIO output: "
          ++ choice (actuator_relay_output_enabled mode.relay_output_mode)
              (codes "ENABLED (hardware build)")
              (codes "DISABLED (simulation build, pin held OFF)"))
      ∷ (codes "GPIO readback err: " ++ u32_text actuator.readback_mismatches)
      ∷ (codes "Last reset result: " ++ reset_result_name protection.last_reset_result)
      ∷ (codes "Power            : " ++ format 2 measurement.power ++ codes " W")
      ∷ (codes "Measurement      : " ++ choice measurement.valid (codes "VALID") (codes "INVALID"))
      ∷ (codes "Source           : " ++ measurement_source_name mode.measurement_source)
      ∷ rule
      ∷ diagnostics_print_network network
