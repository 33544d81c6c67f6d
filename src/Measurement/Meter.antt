-- ===== src/Measurement/Meter.antt =====
-- src/measurement.cpp: the sample of a build, from the answers of the meter's driver or from the
-- simulated profile. The driver is a third-party library, so its answers are a parameter.
use mathlib.Core.Option.{some}
use esp32_real_time_energy_c.Base.{inr, inl, ◌⊎◌, ℕ, ◌≡◌, Bool, true, false, if◌then◌else◌, arith}
use esp32_real_time_energy_c.Base.Float.{Float}
use esp32_real_time_energy_c.Measurement.{
  simulation_reading, Measurement, MeasurementSource, pzem, simulation, sensor_error,
  RawPzemReading, build_measurement, simulation_sample, default_measurement_limits, some_not_finite,
}
use esp32_real_time_energy_c.Measurement.Validation.{build_measurement-outcome, IsZeroed}
use esp32_real_time_energy_c.Actuator.{
  hold_off, BuildFlags, BuildMode, build_mode, relay_pin_driven_on,
}

-- What the calls of the driver return in one reading.
pub record DriverAnswers {ℓ} (F : Type ℓ) : Type ℓ where
  pub voltage_v : F
  pub current_a : F
  pub power_w : F
  pub energy_kwh : F
  pub pf : F

-- `activeMeasurementSource`
abbrev pub active_measurement_source : BuildMode → MeasurementSource
active_measurement_source mode = mode.measurement_source

pub build_mode_cases :
    (flags : BuildFlags) (mode : BuildMode)
    → build_mode flags ≡ some mode
    → ((flags.energy_source_pzem ≡ true) × (mode.measurement_source ≡ pzem))
      ⊎ ((flags.energy_source_pzem ≡ false)
          × (mode.measurement_source ≡ simulation)
          × (mode.relay_output_mode ≡ hold_off))
unfolding build_mode
build_mode_cases flags mode built = ground (arith, built)

module _ {ℓ} {F : Type ℓ} ⦃fl : Float F⦄ where
  -- the `RawPzemReading` that `readPzem` fills
  abbrev pub raw_reading : DriverAnswers F → RawPzemReading F
  raw_reading answers = record {
    voltage = answers.voltage_v;
    current = answers.current_a;
    power = answers.power_w;
    energy = answers.energy_kwh;
    power_factor = answers.pf;
  }

  unfoldable pub read_pzem : DriverAnswers F → ℕ → Measurement F
  read_pzem answers now_ms =
      build_measurement (raw_reading answers) pzem now_ms default_measurement_limits

  unfoldable pub read_measurement : BuildFlags → DriverAnswers F → ℕ → Measurement F
  unfolding read_pzem
  read_measurement flags answers now_ms =
      if flags.energy_source_pzem then read_pzem answers now_ms else simulation_sample now_ms

  silent_meter :
      (answers : DriverAnswers F) (now_ms : ℕ)
      → some_not_finite (raw_reading answers) ≡ true
      → let m = read_pzem answers now_ms in
        (m.status ≡ sensor_error) × (m.valid ≡ false) × IsZeroed m
  unfolding read_pzem
  silent_meter answers now_ms bad =
      let (_, _, alternatives, status) =
        build_measurement-outcome (raw_reading answers) pzem now_ms default_measurement_limits in
      elim alternatives [
        | inl (_, fine, _) ↦ absurd (ground (arith, fine, status.1 bad))
        | inr (off, _, zeroed) ↦ (status.1 bad, off, zeroed)
      ]

  -- In every firmware that compiles, a sample names the source that `activeMeasurementSource` reports
  -- and carries its time; if it is simulated, no relay command reaches the relay pin; and if it comes
  -- from a meter of which some answer is not a finite number, it is invalid with SENSOR_ERROR and all
  -- its numbers are zero.
  pub read_measurement-source :
      (flags : BuildFlags) (mode : BuildMode) (answers : DriverAnswers F) (now_ms : ℕ)
      → build_mode flags ≡ some mode
      → let m = read_measurement flags answers now_ms in
        (m.source ≡ active_measurement_source mode)
        × (m.timestamp ≡ now_ms)
        × (m.source ≡ simulation
            → (on : Bool) → relay_pin_driven_on on mode.relay_output_mode ≡ false)
        × (m.source ≡ pzem
            → some_not_finite (raw_reading answers) ≡ true
            → (m.status ≡ sensor_error) × (m.valid ≡ false) × IsZeroed m)
  unfolding read_measurement read_pzem relay_pin_driven_on simulation_sample
  read_measurement-source flags mode answers now_ms built =
      let metered =
        build_measurement-outcome (raw_reading answers) pzem now_ms default_measurement_limits in
      let simulated =
        build_measurement-outcome {F = F} (simulation_reading now_ms) simulation now_ms
          default_measurement_limits in
      elim (build_mode_cases flags mode built) [
        | inl (p, s) ↦ rw p (
            rw s (
              metered.0,
              metered.1,
              (λ e. absurd (ground (arith, e, metered.0))),
              λ _ bad. silent_meter answers now_ms bad,
            ))
        | inr (p, s, off) ↦ rw p (
            rw s (
              simulated.0,
              simulated.1,
              (λ _ on. rw off (ground arith)),
              λ e. absurd (ground (arith, e, simulated.0)),
            ))
      ]
