-- ===== src/Measurement/Profile.antt =====
-- The simulated profile of `simulationSample`, in lib/energy_core/src/measurement_core.cpp.
use esp32_real_time_energy_c.Base.{ℕ, ◌+◌, ◌*◌, ◌%◌, ◌≡◌, arith, if◌then◌else◌, ltb}
use esp32_real_time_energy_c.Base.Float.{Float}
use esp32_real_time_energy_c.Measurement.{
  MeasurementSource, simulation, RawPzemReading, MeasurementLimits, build_measurement,
  make_invalid_measurement, simulation_reading, simulation_sample, default_measurement_limits,
}

module _ {ℓ} {F : Type ℓ} ⦃fl : Float F⦄ where
  build-retimed :
      (raw : RawPzemReading F) (source : MeasurementSource) (s t : ℕ) (limits : MeasurementLimits F)
      → build_measurement raw source t limits
        ≡ record (build_measurement raw source s limits) { timestamp = t }
  unfolding build_measurement make_invalid_measurement
  build-retimed raw source s t limits = ground arith

  reading-periodic :
      (now_ms periods : ℕ)
      → simulation_reading {F = F} (now_ms + 15_000 * periods) ≡ simulation_reading now_ms
  unfolding simulation_reading
  reading-periodic now_ms periods =
      let e : (now_ms + 15_000 * periods) % 15_000 ≡ now_ms % 15_000 = omega arith in rw e

  -- The profile repeats itself every 15 s, but for the time stamp.
  pub simulation_sample-periodic :
      (now_ms periods : ℕ)
      → simulation_sample {F = F} (now_ms + 15_000 * periods)
        ≡ record (simulation_sample {F = F} now_ms) { timestamp = now_ms + 15_000 * periods }
  unfolding simulation_sample
  simulation_sample-periodic now_ms periods = rw (reading-periodic now_ms periods) (
      build-retimed (simulation_reading now_ms) simulation now_ms (now_ms + 15_000 * periods)
        default_measurement_limits)

  build-power :
      (raw : RawPzemReading F) (source : MeasurementSource) (timestamp_ms : ℕ)
      (limits : MeasurementLimits F)
      → let m = build_measurement raw source timestamp_ms limits in
        (m.source ≡ source)
        × (m.timestamp ≡ timestamp_ms)
        × (m.power ≡ (if m.valid then raw.power else fl.literal 0 0))
  unfolding build_measurement make_invalid_measurement
  build-power raw source timestamp_ms limits = ground arith

  -- Every simulated sample is labelled as simulated, at any time; a valid one has the power of its
  -- phase, 40 W, 500 W or 600 W for 5 s each, and an invalid one no power at all.
  pub simulation_sample_labelled :
      (now_ms : ℕ)
      → let m = simulation_sample {F = F} now_ms in
        (m.source ≡ simulation)
        × (m.timestamp ≡ now_ms)
        × (m.power ≡ (
            if m.valid
            then if ltb (now_ms % 15_000) 5000
              then fl.literal 40 0
              else if ltb (now_ms % 15_000) 10_000
              then fl.literal 500 0
              else fl.literal 600 0
            else fl.literal 0 0))
  unfolding simulation_sample simulation_reading
  simulation_sample_labelled now_ms =
      build-power (simulation_reading now_ms) simulation now_ms default_measurement_limits
