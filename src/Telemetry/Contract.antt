-- ===== src/Telemetry/Contract.antt =====
-- What a reader of the telemetry of lib/energy_core/src/telemetry_json.cpp should find: the keys of the
-- contract in their order, each with a value taken from the input.
use esp32_real_time_energy_c.Base.{ℕ, Bool, true, false, List, [], ◌∷◌, take, if◌then◌else◌}
use esp32_real_time_energy_c.Base.Text.{codes}
use esp32_real_time_energy_c.Base.Float.{Float}
use esp32_real_time_energy_c.Measurement.{MeasurementSource, simulation, measurement_status_name}
use esp32_real_time_energy_c.Protection.Types.{
  system_state_name, fault_code_name, reset_result_name,
}
use esp32_real_time_energy_c.Telemetry.{TelemetryInput, u32_text}
use esp32_real_time_energy_c.Telemetry.Json.{Json, json_string, json_bare, Member}

-- decimal digits, by `%u` into 16 bytes
abbrev whole : ℕ → Json
whole n = json_bare (take 15 (u32_text n))

abbrev pub truth : Bool → Json
truth true = json_bare (codes "true")
truth false = json_bare (codes "false")

abbrev pub source_text : MeasurementSource → Json
source_text MeasurementSource.pzem = json_string (codes "PZEM")
source_text simulation = json_string (codes "SIMULATION")

abbrev pub simulated_flag : MeasurementSource → Json
simulated_flag MeasurementSource.pzem = json_bare (codes "false")
simulated_flag simulation = json_bare (codes "true")

module _ {ℓ} {F : Type ℓ} ⦃fl : Float F⦄ where
  -- `digits` decimals into 32 bytes, or `null`
  abbrev pub real : ℕ → F → Json
  real digits x =
      if fl.is_finite x then json_bare (take 31 (fl.format digits x)) else json_bare (codes "null")

  abbrev pub contract_members : TelemetryInput F → List Member
  contract_members in_ =
      (codes "schema_version", json_bare (codes "2"))
      ∷ (codes "device_id", json_string in_.device_id)
      ∷ (codes "firmware_version", json_string in_.firmware_version)
      ∷ (codes "source", source_text in_.measurement.source)
      ∷ (codes "simulated", simulated_flag in_.measurement.source)
      ∷ (codes "uptime_ms", whole in_.uptime_ms)
      ∷ (codes "valid", truth in_.measurement.valid)
      ∷ (codes "measurement_status", json_string (measurement_status_name in_.measurement.status))
      ∷ (codes "measurement_age_ms", whole in_.measurement_age_ms)
      ∷ (codes "voltage", real 2 in_.measurement.voltage)
      ∷ (codes "current", real 3 in_.measurement.current)
      ∷ (codes "power", real 2 in_.measurement.power)
      ∷ (codes "energy", real 3 in_.measurement.energy)
      ∷ (codes "apparent_power", real 2 in_.measurement.apparent_power)
      ∷ (codes "power_factor", real 3 in_.measurement.power_factor)
      ∷ (codes "state", json_string (system_state_name in_.protection.state))
      ∷ (codes "fault", json_string (fault_code_name in_.protection.fault.active_fault))
      ∷ (codes "fault_active", truth in_.protection.fault.active)
      ∷ (codes "fault_acknowledged", truth in_.protection.fault.acknowledged)
      ∷ (
        codes "last_reset_result",
        json_string (reset_result_name in_.protection.last_reset_result),
      )
      ∷ (codes "relay_commanded_on", truth in_.relay_commanded_on)
      ∷ (codes "relay_output_enabled", truth in_.relay_output_enabled)
      ∷ []
