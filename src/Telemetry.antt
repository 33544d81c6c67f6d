-- ===== src/Telemetry.antt =====
-- lib/energy_core/src/telemetry_json.h and telemetry_json.cpp: a JSON object is written into a buffer.
pub mod Text
pub mod Object
pub mod RoundTrip
pub mod Json
pub mod Contract
pub mod Reader
pub mod Size
mod Tests
use mathlib.Core.Option.{Option, none, some}
use esp32_real_time_energy_c.Base.{
  ℕ, zero, suc, ◌+◌, ◌/◌, ◌%◌, Bool, true, false, not, ◌&&◌, ◌||◌, List, [], ◌∷◌, ◌++◌, ltb, leb,
  ◌==◌, if◌then◌else◌, length, take,
}
use esp32_real_time_energy_c.Base.Text.{codes}
use esp32_real_time_energy_c.Base.Float.{Float}
use esp32_real_time_energy_c.Measurement.{
  Measurement, MeasurementSource, pzem, simulation, measurement_source_name,
  measurement_status_name,
}
use esp32_real_time_energy_c.Protection.Types.{
  ProtectionSnapshot, system_state_name, fault_code_name, reset_result_name,
}

abbrev pub telemetry_schema_version : ℕ
telemetry_schema_version = 2

pub record TelemetryInput {ℓ} (F : Type ℓ) : Type ℓ where
  pub device_id : List ℕ
  pub firmware_version : List ℕ
  pub measurement : Measurement F
  pub protection : ProtectionSnapshot
  pub uptime_ms : ℕ
  pub measurement_age_ms : ℕ
  pub relay_commanded_on : Bool
  pub relay_output_enabled : Bool

-- `buf` has the bytes before the final NUL.
pub record Writer : Type 0 where
  pub buf : List ℕ
  pub size : ℕ
  pub len : ℕ
  pub ok : Bool

unfoldable pub raw : List ℕ → Writer → Writer
raw s w =
    if not w.ok || ltb w.size (w.len + length s + 1)
    then record w { ok = false }
    else record w { buf = w.buf ++ s; len = w.len + length s }

unfoldable pub ch : ℕ → Writer → Writer
unfolding raw
ch c w = raw (c ∷ []) w

abbrev pub hex_digit : ℕ → ℕ
hex_digit d = if ltb d 10 then d + b'0' else d + 87

-- `snprintf(esc, sizeof(esc), "\\u%04x", c)` for a byte
abbrev pub control_escape : ℕ → List ℕ
control_escape c = codes "\\u00" ++ (hex_digit (c / 16) ∷ hex_digit (c % 16) ∷ [])

-- one round of the loop of `str`
unfoldable pub str_byte : ℕ → Writer → Writer
unfolding ch raw
str_byte c w =
    if c == b'"' || c == b'\\'
    then ch c (ch b'\\' w)
    else if ltb c 32
    then raw (control_escape c) w
    else ch c w

unfoldable pub str_bytes : List ℕ → Writer → Writer
unfolding str_byte
str_bytes [] w = w
str_bytes (c ∷ s) w = str_bytes s (str_byte c w)

unfoldable pub str : List ℕ → Writer → Writer
unfolding str_bytes ch
str s w = ch b'"' (str_bytes s (ch b'"' w))

unfoldable pub key : List ℕ → Bool → Writer → Writer
unfolding str ch
key k first w = let separated = if first then w else ch b',' w in ch b':' (str k separated)

-- The decimal digits of a number below 10 ^ fuel.
unfoldable pub decimal : ℕ → ℕ → List ℕ
decimal zero n = []
decimal (suc fuel) n =
    let rest = decimal fuel (n / 10) in
    if ltb n 10 then (n + b'0') ∷ [] else rest ++ ((n % 10 + b'0') ∷ [])

-- `%lu` of a `uint32_t`, which has at most ten digits
abbrev pub u32_text : ℕ → List ℕ
u32_text v = decimal 10 v

unfoldable pub u32 : ℕ → Writer → Writer
unfolding raw
u32 v w = raw (take 15 (u32_text v)) w

abbrev pub boolean_text : Bool → List ℕ
boolean_text v = if v then codes "true" else codes "false"

unfoldable pub boolean : Bool → Writer → Writer
unfolding raw
boolean v w = raw (boolean_text v) w

-- What follows a key: a call of `str`, `u32`, `num` or `boolean`.
pub data Value {ℓ} (F : Type ℓ) : Type ℓ where
  text : List ℕ → Value F
  word : ℕ → Value F
  number : F → ℕ → Value F
  flag : Bool → Value F

abbrev pub is_simulation : MeasurementSource → Bool
is_simulation simulation = true
is_simulation _ = false

abbrev pub new_writer : ℕ → Writer
new_writer out_size = record { buf = []; size = out_size; len = 0; ok = true }

-- The end of `buildTelemetryJson`, and its first guard.
unfoldable pub finish_object : ℕ → Writer → Option ℕ × List ℕ
finish_object out_size w =
    if out_size == 0 then (none, []) else if not w.ok then (none, []) else (some w.len, w.buf)

module _ {ℓ} {F : Type ℓ} ⦃fl : Float F⦄ where
  -- `digits` is the N of `%.Nf`; the text is cut to the 31 bytes of `t`.
  unfoldable pub num : F → ℕ → Writer → Writer
  unfolding raw
  num v digits w =
      if not (fl.is_finite v) then raw (codes "null") w else raw (take 31 (fl.format digits v)) w

  unfoldable pub write_value : Value F → Writer → Writer
  unfolding str u32 num boolean
  write_value (text s) w = str s w
  write_value (word v) w = u32 v w
  write_value (number v digits) w = num v digits w
  write_value (flag v) w = boolean v w

  -- The lines of `buildTelemetryJson`, a key and a value on each.
  unfoldable pub fields : TelemetryInput F → List (List ℕ × Value F)
  fields in_ =
      let m = in_.measurement in
      let p = in_.protection in
      (codes "schema_version", word telemetry_schema_version)
      ∷ (codes "device_id", text in_.device_id)
      ∷ (codes "firmware_version", text in_.firmware_version)
      ∷ (codes "source", text (measurement_source_name m.source))
      ∷ (codes "simulated", flag (is_simulation m.source))
      ∷ (codes "uptime_ms", word in_.uptime_ms)
      ∷ (codes "valid", flag m.valid)
      ∷ (codes "measurement_status", text (measurement_status_name m.status))
      ∷ (codes "measurement_age_ms", word in_.measurement_age_ms)
      ∷ (codes "voltage", number m.voltage 2)
      ∷ (codes "current", number m.current 3)
      ∷ (codes "power", number m.power 2)
      ∷ (codes "energy", number m.energy 3)
      ∷ (codes "apparent_power", number m.apparent_power 2)
      ∷ (codes "power_factor", number m.power_factor 3)
      ∷ (codes "state", text (system_state_name p.state))
      ∷ (codes "fault", text (fault_code_name p.fault.active_fault))
      ∷ (codes "fault_active", flag p.fault.active)
      ∷ (codes "fault_acknowledged", flag p.fault.acknowledged)
      ∷ (codes "last_reset_result", text (reset_result_name p.last_reset_result))
      ∷ (codes "relay_commanded_on", flag in_.relay_commanded_on)
      ∷ (codes "relay_output_enabled", flag in_.relay_output_enabled)
      ∷ []

  unfoldable pub write_fields : Bool → List (List ℕ × Value F) → Writer → Writer
  unfolding key write_value
  write_fields first [] w = w
  write_fields first ((k, v) ∷ rest) w = write_fields false rest (write_value v (key k first w))

  unfoldable pub write_object : TelemetryInput F → Writer → Writer
  write_object in_ w = ch b'}' (write_fields true (fields in_) (ch b'{' w))

  -- The returned length, `none` for -1, and what the buffer holds after the call. A null pointer
  -- counts as a buffer of no bytes.
  unfoldable pub build_telemetry_json : ℕ → TelemetryInput F → Option ℕ × List ℕ
  unfolding finish_object
  build_telemetry_json out_size in_ =
      finish_object out_size (write_object in_ (new_writer out_size))
