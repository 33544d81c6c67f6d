-- ===== src/Telemetry/Size.antt =====
-- How long the object of lib/energy_core/src/telemetry_json.cpp can get.
use mathlib.Core.Option.{some}
use esp32_real_time_energy_c.Base.{
  false, Bool, ℕ, zero, suc, ◌+◌, ◌≤◌, ◌<◌, ◌≡◌, inl, inr, refl, ap, true, List, [], ◌∷◌, ◌++◌,
  arith, length, length-append, take, All,
}
use esp32_real_time_energy_c.Base.Float.{Float}
use esp32_real_time_energy_c.Measurement.{
  MeasurementSource, MeasurementStatus, measurement_source_name, measurement_status_name,
}
use esp32_real_time_energy_c.Protection.Types.{
  SystemState, FaultCode, ResetResult, system_state_name, fault_code_name, reset_result_name,
}
use esp32_real_time_energy_c.Command.{topic_segment_char_ok, topic_segment_valid}
use esp32_real_time_energy_c.Command.Topics.{IsSegmentByte, topic_segment_valid_iff}
use esp32_real_time_energy_c.Telemetry.{
  TelemetryInput, Value, text, word, number, flag, fields, boolean_text, u32_text,
  build_telemetry_json,
}
use esp32_real_time_energy_c.Telemetry.Text.{escaped_byte, escaped, quoted}
use esp32_real_time_energy_c.Telemetry.Object.{
  key_text, value_text, fields_text, telemetry_text, build_telemetry_json_lem,
}

-- Plain text: no byte of it is escaped.
abbrev pub IsPlain : List ℕ → Type 0
IsPlain = All (λ c. escaped_byte c ≡ c ∷ [])

escaped_plain : (s : List ℕ) → IsPlain s → escaped s ≡ s
escaped_plain [] h = refl
escaped_plain (c ∷ s) (p, h) = rw (p, escaped_plain s h)

length-quoted : (s : List ℕ) → length (quoted s) ≡ length (escaped s) + 2
length-quoted s = omega (arith, length-append (escaped s) (b'"' ∷ []))

length-take_le : (n : ℕ) (s : List ℕ) → length (take n s) ≤ n
length-take_le zero s = omega arith
length-take_le (suc n) [] = omega arith
length-take_le (suc n) (c ∷ s) = omega (arith, length-take_le n s)

boolean-size : (b : Bool) → length (boolean_text b) ≤ 5
boolean-size b = ground arith

source-size : (s : MeasurementSource) → length (escaped (measurement_source_name s)) ≤ 10
source-size s = ground arith

status-size : (s : MeasurementStatus) → length (escaped (measurement_status_name s)) ≤ 15
status-size s = ground arith

state-size : (s : SystemState) → length (escaped (system_state_name s)) ≤ 7
state-size s = ground arith

fault-size : (f : FaultCode) → length (escaped (fault_code_name f)) ≤ 19
fault-size f = ground arith

reset-size : (r : ResetResult) → length (escaped (reset_result_name r)) ≤ 28
reset-size r = ground arith

segment_byte-plain : (c : ℕ) → IsSegmentByte c → escaped_byte c ≡ c ∷ []
unfolding topic_segment_char_ok
segment_byte-plain c h = ground arith

segment-IsPlain : (s : List ℕ) → All IsSegmentByte s → IsPlain s
segment-IsPlain [] h = tt
segment-IsPlain (c ∷ s) (p, h) = (segment_byte-plain c p, segment-IsPlain s h)

key-bound : (k : List ℕ) (first : Bool) → length (key_text k first) ≤ length (escaped k) + 4
key-bound k true = omega (arith, length-append (quoted k) (b':' ∷ []), length-quoted k)
key-bound k false = omega (arith, length-append (quoted k) (b':' ∷ []), length-quoted k)

module _ {ℓ} {F : Type ℓ} ⦃fl : Float F⦄ where
  -- At most this long: a bound for each value.
  abbrev value_bound : Value F → ℕ
  value_bound (text s) = length (escaped s) + 2
  value_bound (word v) = 15
  value_bound (number v digits) = 31
  value_bound (flag v) = 5

  abbrev fields_bound : List (List ℕ × Value F) → ℕ
  fields_bound [] = 0
  fields_bound ((k, v) ∷ rest) = length (escaped k) + 4 + value_bound v + fields_bound rest

  value-bound : (v : Value F) → length (value_text v) ≤ value_bound v
  value-bound (text s) = omega (arith, length-quoted s)
  value-bound (word v) = length-take_le 15 (u32_text v)
  value-bound (number v digits) = ground (arith, length-take_le 31 (fl.format digits v))
  value-bound (flag v) = boolean-size v

  fields-bound :
      (first : Bool) (fs : List (List ℕ × Value F))
      → length (fields_text first fs) ≤ fields_bound fs
  fields-bound first [] = omega arith
  fields-bound first ((k, v) ∷ rest) = omega (
    arith,
    length-append (key_text k first) (value_text v ++ fields_text false rest),
    length-append (value_text v) (fields_text false rest),
    key-bound k first,
    value-bound v,
    fields-bound false rest,
  )

  object-size :
      (in_ : TelemetryInput F)
      → length (escaped in_.device_id) ≤ 32
      → length (escaped in_.firmware_version) ≤ 32
      → length (telemetry_text in_) < 768
  unfolding fields
  object-size in_ d f = omega (
    arith,
    fields-bound true (fields in_),
    length-append (fields_text true (fields in_)) (b'}' ∷ []),
    source-size in_.measurement.source,
    status-size in_.measurement.status,
    state-size in_.protection.state,
    fault-size in_.protection.fault.active_fault,
    reset-size in_.protection.last_reset_result,
  )

  -- In every firmware that compiles and has a plain version name of at most 32 bytes, the buffer of
  -- 768 bytes in `mqttManagerPublishTelemetry` is enough for every input: the telemetry is always built.
  pub build_telemetry_json-fits :
      (in_ : TelemetryInput F)
      → topic_segment_valid in_.device_id 0 ≡ true
      → IsPlain in_.firmware_version
      → length in_.firmware_version ≤ 32
      → build_telemetry_json 768 in_ ≡ (some (length (telemetry_text in_)), telemetry_text in_)
  build_telemetry_json-fits in_ valid plain short =
      let (_, bound, bytes) = (topic_segment_valid_iff in_.device_id).0 valid in
      let id = escaped_plain in_.device_id (segment-IsPlain in_.device_id bytes) in
      let version = escaped_plain in_.firmware_version plain in
      let fits = object-size in_ (omega (arith, ap length id)) (omega (arith, ap length version)) in
      elim (build_telemetry_json_lem 768 in_) [
        | inl (_, built) ↦ built
        | inr (full, _) ↦ absurd (omega (arith, fits, full))
      ]
