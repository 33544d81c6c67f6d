-- ===== src/Measurement/Tests.antt =====
-- Readings under the default limits, on numbers in thousandths.
use mathlib.Core.Option.{none, some}
use esp32_real_time_energy_c.Base.{◌≡◌, ◌≢◌, ◌⊎◌, ◌↔◌, refl, true, false, arith}
use esp32_real_time_energy_c.Base.Float.{Milli, milli_float, Milli-IsIeee}
use esp32_real_time_energy_c.Measurement.{
  pzem, simulation, ok, sensor_error, out_of_range, inconsistent, RawPzemReading, build_measurement,
  some_not_finite, default_measurement_limits, power_ceiling, simulation_reading, simulation_sample,
  make_invalid_measurement, some_out_of_range,
}
use esp32_real_time_energy_c.Measurement.Validation.{
  IsPlausible, Carries, IsZeroed, build_measurement-outcome, build_measurement-valid_iff,
}
use esp32_real_time_energy_c.Measurement.Profile.{simulation_sample_labelled}
use esp32_real_time_energy_c.Base.{Bool}
use esp32_real_time_energy_c.Measurement.Meter.{
  DriverAnswers, raw_reading, read_measurement, active_measurement_source, read_measurement-source,
}
use esp32_real_time_energy_c.Actuator.{
  BuildFlags, BuildMode, build_mode, follow_state, relay_pin_driven_on,
}

abbrev reading : Milli → RawPzemReading Milli
reading power = record {
  voltage = some 230_000;
  current = some 2000;
  power = power;
  energy = some 1000;
  power_factor = some 900;
}

statuses :
    ((build_measurement (reading (some 450_000)) pzem 7 default_measurement_limits).status ≡ ok)
    × ((build_measurement (reading none) pzem 7 default_measurement_limits).status ≡ sensor_error)
    × ((build_measurement (reading (some 30_000_000)) pzem 7 default_measurement_limits).status
        ≡ out_of_range)
    × ((build_measurement (reading (some 600_000)) pzem 7 default_measurement_limits).status
        ≡ inconsistent)
    × ((simulation_sample {F = Milli} 12_000).valid ≡ true)
    × ((simulation_sample {F = Milli} 1000).valid ≡ true)
unfolding build_measurement make_invalid_measurement some_not_finite some_out_of_range
    simulation_sample simulation_reading
statuses = (refl, refl, refl, refl, refl, refl)

build_measurement-outcome_example :
    let m = build_measurement (reading none) pzem 7 default_measurement_limits in
    (m.source ≡ pzem)
    × (m.timestamp ≡ 7)
    × (((m.valid ≡ true) × (m.status ≡ ok) × Carries m (reading none))
        ⊎ ((m.valid ≡ false) × (m.status ≢ ok) × IsZeroed m))
    × ((m.status ≡ sensor_error) ↔ (some_not_finite (reading none) ≡ true))
build_measurement-outcome_example =
    build_measurement-outcome (reading none) pzem 7 default_measurement_limits

build_measurement-valid_iff_example :
    ((build_measurement (reading (some 450_000)) pzem 7 default_measurement_limits).valid ≡ true)
    ↔ (IsPlausible (reading (some 450_000)) default_measurement_limits
        × (milli_float.gt (some 450_000) (
              power_ceiling (milli_float.mul (some 230_000) (some 2000)) default_measurement_limits)
            ≡ false))
build_measurement-valid_iff_example =
    build_measurement-valid_iff Milli-IsIeee (reading (some 450_000)) pzem 7
      default_measurement_limits (ground arith)

simulation_sample_labelled_example : (simulation_sample {F = Milli} 1000).source ≡ simulation
simulation_sample_labelled_example = (simulation_sample_labelled {F = Milli} 1000).0

-- a meter that does not answer, in the build with the meter
abbrev pzem_flags : BuildFlags
pzem_flags = record {
  energy_source_pzem = true;
  energy_source_simulation = false;
  energy_relay_output_disable = false;
  energy_relay_output_enable = false;
}

abbrev pzem_mode : BuildMode
pzem_mode = record { measurement_source = pzem; relay_output_mode = follow_state }

abbrev silence : DriverAnswers Milli
silence = record {
  voltage_v = none;
  current_a = none;
  power_w = none;
  energy_kwh = none;
  pf = none;
}

built : build_mode pzem_flags ≡ some pzem_mode
unfolding build_mode
built = refl

read_measurement-source_example :
    let m = read_measurement pzem_flags silence 7 in
    (m.source ≡ active_measurement_source pzem_mode)
    × (m.timestamp ≡ 7)
    × (m.source ≡ simulation
        → (on : Bool) → relay_pin_driven_on on pzem_mode.relay_output_mode ≡ false)
    × (m.source ≡ pzem
        → some_not_finite (raw_reading silence) ≡ true
        → (m.status ≡ sensor_error) × (m.valid ≡ false) × IsZeroed m)
read_measurement-source_example = read_measurement-source pzem_flags pzem_mode silence 7 built
