-- ===== src/Measurement/Validation.antt =====
-- What `buildMeasurement` of lib/energy_core/src/measurement_core.cpp lets through.
use esp32_real_time_energy_c.Base.{ℕ, ◌≡◌, ◌≢◌, ◌⊎◌, ◌↔◌, true, false, arith}
use esp32_real_time_energy_c.Base.Float.{Float, IsIeee}
use esp32_real_time_energy_c.Measurement.{
  MeasurementSource, ok, sensor_error, Measurement, RawPzemReading, MeasurementLimits,
  make_invalid_measurement, some_not_finite, some_out_of_range, build_measurement, power_ceiling,
}

module _ {ℓ} {F : Type ℓ} ⦃fl : Float F⦄ where
  open fl use {is_finite, le, gt, mul, literal}

  -- a number from `low` to `high`
  abbrev pub Between : F → F → F → Type 0
  Between low high x = (is_finite x ≡ true) × (le low x ≡ true) × (le x high ≡ true)

  -- Every field of the reading is a number within its limits.
  pub record IsPlausible (raw : RawPzemReading F) (limits : MeasurementLimits F) : Type 0 where
    pub voltage : Between (literal 0 0) limits.max_voltage raw.voltage
    pub current : Between (literal 0 0) limits.max_current raw.current
    pub power : Between (literal 0 0) limits.max_power raw.power
    pub energy : Between (literal 0 0) limits.max_energy_kwh raw.energy
    pub power_factor : Between (literal 0 0) (literal 1 0) raw.power_factor

  pub record HasFiniteLimits (limits : MeasurementLimits F) : Type 0 where
    pub voltage : is_finite limits.max_voltage ≡ true
    pub current : is_finite limits.max_current ≡ true
    pub power : is_finite limits.max_power ≡ true
    pub energy : is_finite limits.max_energy_kwh ≡ true

  -- every number of the sample is zero
  abbrev pub IsZeroed : Measurement F → Type ℓ
  IsZeroed m =
      (m.voltage ≡ literal 0 0)
      × (m.current ≡ literal 0 0)
      × (m.power ≡ literal 0 0)
      × (m.energy ≡ literal 0 0)
      × (m.apparent_power ≡ literal 0 0)
      × (m.power_factor ≡ literal 0 0)

  -- the numbers of the sample are those of the reading, with V * I as the apparent power
  abbrev pub Carries : Measurement F → RawPzemReading F → Type ℓ
  Carries m raw =
      (m.voltage ≡ raw.voltage)
      × (m.current ≡ raw.current)
      × (m.power ≡ raw.power)
      × (m.energy ≡ raw.energy)
      × (m.apparent_power ≡ mul raw.voltage raw.current)
      × (m.power_factor ≡ raw.power_factor)

  -- Every sample keeps its source and time, and is either valid with status OK and carries the reading,
  -- or invalid with another status and all its numbers zero; it is SENSOR_ERROR exactly if some field
  -- of the reading is not finite.
  pub build_measurement-outcome :
      (raw : RawPzemReading F) (source : MeasurementSource) (timestamp_ms : ℕ)
      (limits : MeasurementLimits F)
      → let m = build_measurement raw source timestamp_ms limits in
        (m.source ≡ source)
        × (m.timestamp ≡ timestamp_ms)
        × (((m.valid ≡ true) × (m.status ≡ ok) × Carries m raw)
            ⊎ ((m.valid ≡ false) × (m.status ≢ ok) × IsZeroed m))
        × ((m.status ≡ sensor_error) ↔ (some_not_finite raw ≡ true))
  unfolding build_measurement make_invalid_measurement
  build_measurement-outcome raw source timestamp_ms limits = ground arith

  module _ (laws : IsIeee F) where
    open laws use {gt-lt, le_of_not-lt, le_not-lt, literal_finite}

    -- the two range tests on one field
    in_range_iff :
        (low high x : F)
        → is_finite low ≡ true
        → is_finite high ≡ true
        → is_finite x ≡ true
        → ((fl.lt x low ≡ false) × (gt x high ≡ false)) ↔ ((le low x ≡ true) × (le x high ≡ true))
    in_range_iff low high x a b c = ground (
      arith,
      gt-lt x high,
      le_of_not-lt x low c a,
      le_of_not-lt high x b c,
      le_not-lt low x,
      le_not-lt x high,
    )

    -- A sample is valid exactly if every field of the reading is a finite number within its limits and
    -- the power is not above the ceiling that the apparent power allows.
    pub build_measurement-valid_iff :
        (raw : RawPzemReading F) (source : MeasurementSource) (timestamp_ms : ℕ)
        (limits : MeasurementLimits F)
        → HasFiniteLimits limits
        → ((build_measurement raw source timestamp_ms limits).valid ≡ true) ↔ (
            IsPlausible raw limits
            × (gt raw.power (power_ceiling (mul raw.voltage raw.current) limits) ≡ false))
    unfolding build_measurement make_invalid_measurement some_not_finite some_out_of_range
    build_measurement-valid_iff raw source timestamp_ms limits f =
        let zero_ok = literal_finite 0 0 (omega arith) in
        let one_ok = literal_finite 1 0 (omega arith) in
        ground (
          arith,
          in_range_iff (literal 0 0) limits.max_voltage raw.voltage zero_ok f.voltage,
          in_range_iff (literal 0 0) limits.max_current raw.current zero_ok f.current,
          in_range_iff (literal 0 0) limits.max_power raw.power zero_ok f.power,
          in_range_iff (literal 0 0) limits.max_energy_kwh raw.energy zero_ok f.energy,
          in_range_iff (literal 0 0) (literal 1 0) raw.power_factor zero_ok one_ok,
        )
