-- ===== src/Measurement.antt =====
-- lib/energy_core/src/measurement_types.h, measurement_core.h and measurement_core.cpp: the sample
-- that travels through the program, its validation, and the simulated profile.
pub mod Validation
pub mod Profile
pub mod Meter
mod Tests
use esp32_real_time_energy_c.Base.{
  ℕ, ◌+◌, ◌%◌, ◌≡◌, Bool, true, false, not, ◌||◌, List, ltb, leb, if◌then◌else◌,
}
use esp32_real_time_energy_c.Base.Words.{sub32}
use esp32_real_time_energy_c.Base.Float.{Float}
use esp32_real_time_energy_c.Base.Text.{codes}

pub data MeasurementSource : Type 0 where
  pzem simulation : MeasurementSource

pub data MeasurementStatus : Type 0 where
  not_initialized ok sensor_error out_of_range inconsistent : MeasurementStatus

pub record Measurement {ℓ} (F : Type ℓ) : Type ℓ where
  pub voltage : F
  pub current : F
  pub power : F
  pub energy : F
  pub apparent_power : F
  pub power_factor : F
  pub valid : Bool
  pub status : MeasurementStatus
  pub source : MeasurementSource
  pub timestamp : ℕ

pub record RawPzemReading {ℓ} (F : Type ℓ) : Type ℓ where
  pub voltage : F
  pub current : F
  pub power : F
  pub energy : F
  pub power_factor : F

pub record MeasurementLimits {ℓ} (F : Type ℓ) : Type ℓ where
  pub max_voltage : F
  pub max_current : F
  pub max_power : F
  pub max_energy_kwh : F
  pub power_over_apparent_ratio : F
  pub power_over_apparent_margin_w : F

abbrev pub measurement_source_name : MeasurementSource → List ℕ
measurement_source_name pzem = codes "PZEM"
measurement_source_name simulation = codes "SIMULATION"

abbrev pub measurement_status_name : MeasurementStatus → List ℕ
measurement_status_name ok = codes "OK"
measurement_status_name not_initialized = codes "NOT_INITIALIZED"
measurement_status_name sensor_error = codes "SENSOR_ERROR"
measurement_status_name out_of_range = codes "OUT_OF_RANGE"
measurement_status_name inconsistent = codes "INCONSISTENT"

module _ {ℓ} {F : Type ℓ} ⦃fl : Float F⦄ where
  open fl use {is_finite, lt, gt, add, mul, div, literal}

  -- `Measurement{}`: every member is zero, so the source is PZEM and the status NOT_INITIALIZED.
  abbrev pub empty_measurement : Measurement F
  empty_measurement = record {
    voltage = literal 0 0;
    current = literal 0 0;
    power = literal 0 0;
    energy = literal 0 0;
    apparent_power = literal 0 0;
    power_factor = literal 0 0;
    valid = false;
    status = not_initialized;
    source = pzem;
    timestamp = 0;
  }

  abbrev pub default_measurement_limits : MeasurementLimits F
  default_measurement_limits = record {
    max_voltage = literal 300 0;
    max_current = literal 100 0;
    max_power = literal 25_000 0;
    max_energy_kwh = literal 10_000 0;
    power_over_apparent_ratio = literal 10 2;
    power_over_apparent_margin_w = literal 2 0;
  }

  unfoldable pub make_invalid_measurement :
      MeasurementSource → MeasurementStatus → ℕ → Measurement F
  make_invalid_measurement source status timestamp_ms = record empty_measurement {
    valid = false;
    status = status;
    source = source;
    timestamp = timestamp_ms;
  }

  -- the first guard of `buildMeasurement`
  unfoldable pub some_not_finite : RawPzemReading F → Bool
  some_not_finite raw =
      not (is_finite raw.voltage)
      || not (is_finite raw.current)
      || not (is_finite raw.power)
      || not (is_finite raw.energy)
      || not (is_finite raw.power_factor)

  -- the second guard of `buildMeasurement`
  unfoldable pub some_out_of_range : RawPzemReading F → MeasurementLimits F → Bool
  some_out_of_range raw limits =
      lt raw.voltage (literal 0 0)
      || gt raw.voltage limits.max_voltage
      || lt raw.current (literal 0 0)
      || gt raw.current limits.max_current
      || lt raw.power (literal 0 0)
      || gt raw.power limits.max_power
      || lt raw.energy (literal 0 0)
      || gt raw.energy limits.max_energy_kwh
      || lt raw.power_factor (literal 0 0)
      || gt raw.power_factor (literal 1 0)

  -- the most active power that the apparent power allows
  abbrev pub power_ceiling : F → MeasurementLimits F → F
  power_ceiling apparent limits =
      add (mul apparent (add (literal 1 0) limits.power_over_apparent_ratio))
        limits.power_over_apparent_margin_w

  unfoldable pub build_measurement :
      RawPzemReading F → MeasurementSource → ℕ → MeasurementLimits F → Measurement F
  build_measurement raw source timestamp_ms limits =
      let apparent = mul raw.voltage raw.current in
      if some_not_finite raw
      then make_invalid_measurement source sensor_error timestamp_ms
      else if some_out_of_range raw limits
      then make_invalid_measurement source out_of_range timestamp_ms
      else if gt raw.power (power_ceiling apparent limits)
      then make_invalid_measurement source inconsistent timestamp_ms
      else record {
        voltage = raw.voltage;
        current = raw.current;
        power = raw.power;
        energy = raw.energy;
        apparent_power = apparent;
        power_factor = raw.power_factor;
        valid = true;
        status = ok;
        source = source;
        timestamp = timestamp_ms;
      }

  -- current and power of the profile at a phase of its 15 s
  abbrev pub profile_current : ℕ → F
  profile_current phase =
      if ltb phase 5000
      then literal 20 2
      else if ltb phase 10_000
      then literal 217 2
      else literal 260 2

  abbrev pub profile_power : ℕ → F
  profile_power phase =
      if ltb phase 5000
      then literal 40 0
      else if ltb phase 10_000
      then literal 500 0
      else literal 600 0

  -- the power factor, cut off at 1
  abbrev pub profile_power_factor : F → F → F
  profile_power_factor power apparent =
      let ratio = if gt apparent (literal 0 0) then div power apparent else literal 0 0 in
      if gt ratio (literal 1 0) then literal 1 0 else ratio

  unfoldable pub simulation_reading : ℕ → RawPzemReading F
  simulation_reading now_ms =
      let phase = now_ms % 15_000 in
      let voltage = literal 230 0 in
      record {
        voltage = voltage;
        current = profile_current phase;
        power = profile_power phase;
        energy = literal 0 0;
        power_factor =
            profile_power_factor (profile_power phase) (mul voltage (profile_current phase));
      }

  unfoldable pub simulation_sample : ℕ → Measurement F
  simulation_sample now_ms =
      build_measurement (simulation_reading now_ms) simulation now_ms default_measurement_limits

module _ {ℓ} {F : Type ℓ} where
  unfoldable pub measurement_is_fresh : Measurement F → ℕ → ℕ → Bool
  measurement_is_fresh m now_ms max_age_ms = leb (sub32 now_ms m.timestamp) max_age_ms
