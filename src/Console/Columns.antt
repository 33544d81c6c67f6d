-- ===== src/Console/Columns.antt =====
-- The texts of `displayTask` of src/main.cpp fit the LCD.
use esp32_real_time_energy_c.Base.{
  Bool-cases, inr, inl, refl, ◌-◌, length-append, ℕ, zero, suc, ◌+◌, ◌^◌, ◌≤◌, ◌<◌, ◌≡◌, Bool, true,
  false, List, ◌++◌, if◌then◌else◌, arith, length,
}
use esp32_real_time_energy_c.Base.Float.{Float, IsIeee}
use esp32_real_time_energy_c.Base.Text.{codes}
use esp32_real_time_energy_c.Measurement.{
  Measurement, MeasurementSource, pzem, simulation, build_measurement, default_measurement_limits,
  RawPzemReading, simulation_sample, simulation_reading,
}
use esp32_real_time_energy_c.Measurement.Validation.{
  build_measurement-outcome, build_measurement-valid_iff, HasFiniteLimits,
}
use esp32_real_time_energy_c.Measurement.Meter.{
  DriverAnswers, read_measurement, read_pzem, raw_reading,
}
use esp32_real_time_energy_c.Protection.Types.{ProtectionSnapshot, SystemState, system_state_name}
use esp32_real_time_energy_c.Actuator.{BuildFlags}
use esp32_real_time_energy_c.Console.{pad_left, spaces}
use esp32_real_time_energy_c.Console.Display.{
  lcd_columns, voltage_and_current, power_and_state, measurement_calls, display_round, Fits,
}

-- the point and the digits behind it
abbrev pub decimals : ℕ → ℕ
decimals zero = 0
decimals (suc k) = k + 2

-- What C says of `%.kf`: a number from 0 to a whole number of `d` digits, two or more, below 2^24, the
-- whole numbers that a float has exactly, has at most `d` digits, or a sign and a digit, before its
-- decimals.
pub record PrintsShort {ℓ} (F : Type ℓ) ⦃fl : Float F⦄ : Type ℓ where
  pub format_short :
      (k d m : ℕ) (x : F)
      → 2 ≤ d
      → m < 10 ^ d
      → m < 2 ^ 24
      → fl.le (fl.literal 0 0) x ≡ true
      → fl.le x (fl.literal m 0) ≡ true
      → length (fl.format k x) ≤ d + decimals k

length-spaces : (n : ℕ) → length (spaces n) ≡ n
length-spaces zero = refl
length-spaces (suc n) = ground (arith, length-spaces n)

length-label :
    (label a middle b : List ℕ)
    → length (((label ++ a) ++ middle) ++ b)
      ≡ length label + (length a + (length middle + length b))
length-label label a middle b = omega (
  arith,
  length-append ((label ++ a) ++ middle) b,
  length-append (label ++ a) middle,
  length-append label a,
)

length-pad_left :
    (width : ℕ) (s : List ℕ) (most : ℕ)
    → width ≤ most
    → length s ≤ most
    → length (pad_left width s) ≤ most
unfolding pad_left
length-pad_left width s most a b =
    ground (arith, length-append (spaces (width - length s)) s, length-spaces (width - length s))

module _ {ℓ} {F : Type ℓ} ⦃fl : Float F⦄ (laws : IsIeee F) (prints : PrintsShort F) where
  open fl use {format, le, literal}

  -- the ranges of what is shown
  abbrev pub Shown : Measurement F → Type 0
  Shown m =
      ((le (literal 0 0) m.voltage ≡ true) × (le m.voltage (literal 300 0) ≡ true))
      × ((le (literal 0 0) m.current ≡ true) × (le m.current (literal 100 0) ≡ true))
      × ((le (literal 0 0) m.power ≡ true) × (le m.power (literal 25_000 0) ≡ true))

  limits-HasFiniteLimits : HasFiniteLimits {F = F} default_measurement_limits
  limits-HasFiniteLimits = record {
    voltage = laws.literal_finite 300 0 (omega arith);
    current = laws.literal_finite 100 0 (omega arith);
    power = laws.literal_finite 25_000 0 (omega arith);
    energy = laws.literal_finite 10_000 0 (omega arith);
  }

  valid-Shown :
      (raw : RawPzemReading F) (source : MeasurementSource) (now_ms : ℕ)
      → let m = build_measurement raw source now_ms default_measurement_limits in
        m.valid ≡ true → Shown m
  valid-Shown raw source now_ms valid =
      let limits = default_measurement_limits in
      let (plausible, _) =
        (build_measurement-valid_iff laws raw source now_ms limits limits-HasFiniteLimits).0
          valid in
      let (_, _, alternatives, _) = build_measurement-outcome raw source now_ms limits in
      elim alternatives [
        | inl (_, _, (v, c, p, _, _, _)) ↦ rw v (
            rw c (
              rw p (
                (plausible.voltage.1, plausible.voltage.2),
                (plausible.current.1, plausible.current.2),
                (plausible.power.1, plausible.power.2),
              )))
        | inr (off, _, _) ↦ absurd (ground (arith, off, valid))
      ]

  sampled-Shown :
      (metered : Bool) (answers : DriverAnswers F) (now_ms : ℕ)
      → let m = if metered then read_pzem answers now_ms else simulation_sample now_ms in
        m.valid ≡ true → Shown m
  unfolding read_pzem simulation_sample
  sampled-Shown true answers now_ms = valid-Shown (raw_reading answers) pzem now_ms
  sampled-Shown false answers now_ms = valid-Shown (simulation_reading now_ms) simulation now_ms

  pub read_measurement-Shown :
      (flags : BuildFlags) (answers : DriverAnswers F) (now_ms : ℕ)
      → let m = read_measurement flags answers now_ms in m.valid ≡ true → Shown m
  unfolding read_measurement
  read_measurement-Shown flags answers now_ms =
      sampled-Shown flags.energy_source_pzem answers now_ms

  name_short : (state : SystemState) → length (system_state_name state) ≤ 7
  name_short SystemState.init = omega arith
  name_short SystemState.normal = omega arith
  name_short SystemState.warning = omega arith
  name_short SystemState.fault = omega arith

  -- a padded number with its decimals, on at most `d + decimals k` columns
  padded-short :
      (width k d m : ℕ) (x : F)
      → 2 ≤ d
      → m < 10 ^ d
      → m < 2 ^ 24
      → width ≤ d + decimals k
      → (le (literal 0 0) x ≡ true) × (le x (literal m 0) ≡ true)
      → length (pad_left width (format k x)) ≤ d + decimals k
  padded-short width k d m x two small exact wide (low, high) =
      length-pad_left width (format k x) (d + decimals k) wide
        (prints.format_short k d m x two small exact low high)

  row-0 : (m : Measurement F) → Shown m → 0 + length (voltage_and_current m) ≤ lcd_columns
  row-0 m (v, c, p) =
      let a = pad_left 5 (format 1 m.voltage) in
      let b = pad_left 4 (format 2 m.current) in
      let total : length (voltage_and_current m) ≡ 2 + (length a + (3 + length b)) =
        length-label (codes "V:") a (codes " I:") b in
      omega (
        arith,
        total,
        padded-short 5 1 3 300 m.voltage (omega arith) (omega arith) (omega arith) (omega arith) v,
        padded-short 4 2 3 100 m.current (omega arith) (omega arith) (omega arith) (omega arith) c,
      )

  row-1 :
      (m : Measurement F) (state : SystemState)
      → Shown m
      → 0 + length (power_and_state m state) ≤ lcd_columns
  row-1 m state (v, c, p) =
      let a = pad_left 5 (format 0 m.power) in
      let name = system_state_name state in
      let total : length (power_and_state m state) ≡ 2 + (length a + (1 + length name)) =
        length-label (codes "P:") a (codes " ") name in
      omega (
        arith,
        total,
        padded-short 5 0 5 25_000 m.power (omega arith) (omega arith) (omega arith) (omega arith) p,
        name_short state,
      )

  calls-Fits :
      (m : Measurement F) (state : SystemState) (column : ℕ)
      → (m.valid ≡ true → Shown m)
      → Fits column (measurement_calls m state)
  calls-Fits m state column ranges = elim (Bool-cases m.valid) [
    | inl valid ↦
        rw valid
          (omega arith, (row-0 m (ranges valid), (omega arith, (row-1 m state (ranges valid), tt))))
    | inr invalid ↦ rw invalid (omega arith, (omega arith, (omega arith, (omega arith, tt))))
  ]

  -- A round with a sample whose numbers are in range if it is valid.
  pub ranged-Fits :
      (source : MeasurementSource) (m : Measurement F) (protection : ProtectionSnapshot)
      → (m.valid ≡ true → Shown m)
      → Fits 0 (display_round source m protection)
  unfolding display_round
  ranged-Fits pzem m protection ranges = calls-Fits m protection.state 0 ranges
  ranged-Fits simulation m protection ranges =
      let rest = calls-Fits m protection.state 16 ranges in (omega arith, (omega arith, rest))

  -- In every build, whatever the meter answers and whatever the state, every text that a round of
  -- DisplayTask puts on the display ends within its 16 columns and stands in one of its two rows, for
  -- comparisons as in IEEE 754 and a printf that prints a number from 0 to a whole number of d digits,
  -- two or more, below 2^24 on at most d columns before its decimals.
  pub display_round-Fits :
      (flags : BuildFlags) (answers : DriverAnswers F) (now_ms : ℕ) (source : MeasurementSource)
      (protection : ProtectionSnapshot)
      → Fits 0 (display_round source (read_measurement flags answers now_ms) protection)
  display_round-Fits flags answers now_ms source protection =
      ranged-Fits source (read_measurement flags answers now_ms) protection
        (read_measurement-Shown flags answers now_ms)
