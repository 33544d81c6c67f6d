-- ===== src/Telemetry/Object.antt =====
-- The whole object of `buildTelemetryJson` in lib/energy_core/src/telemetry_json.cpp.
use mathlib.Core.Option.{none, some}
use mathlib.Core.Bool.{true≢false}
use esp32_real_time_energy_c.Base.{
  ℕ, ◌+◌, ◌≤◌, ◌<◌, ◌≡◌, ◌⊎◌, inl, inr, Bool, true, false, List, [], ◌∷◌, ◌++◌, ◌==◌, if◌then◌else◌,
  length, take, arith, Bool-cases,
}
use esp32_real_time_energy_c.Base.Text.{codes}
use esp32_real_time_energy_c.Base.Float.{Float}
use esp32_real_time_energy_c.Telemetry.{
  Writer, Value, text, word, number, flag, TelemetryInput, ch, str, key, u32_text, u32,
  boolean_text, boolean, num, write_value, fields, write_fields, build_telemetry_json,
  finish_object, new_writer, write_object,
}
use esp32_real_time_energy_c.Telemetry.Text.{
  Emits, raw-Emits, nothing-Emits, then-Emits, ch-Emits, quoted, str-Emits,
}

-- The JSON text of a key and of the comma before it.
abbrev pub key_text : List ℕ → Bool → List ℕ
key_text k first = (if first then [] else b',' ∷ []) ++ (quoted k ++ (b':' ∷ []))

key-Emits : (k : List ℕ) (first : Bool) → Emits (key k first) (key_text k first)
unfolding key
key-Emits k true =
    then-Emits (λ w. w) (λ w. ch b':' (str k w)) _ _ nothing-Emits
      (then-Emits (str k) (ch b':') _ _ (str-Emits k) (ch-Emits b':'))
key-Emits k false =
    then-Emits (ch b',') (λ w. ch b':' (str k w)) _ _ (ch-Emits b',')
      (then-Emits (str k) (ch b':') _ _ (str-Emits k) (ch-Emits b':'))

finish_object_lem :
    (out_size : ℕ) (f : Writer → Writer) (s : List ℕ)
    → Emits f s
    → let result = finish_object out_size (f (new_writer out_size)) in
      ((length s < out_size) × (result ≡ (some (length s), s)))
      ⊎ ((out_size ≤ length s) × (result ≡ (none, [])))
unfolding finish_object
finish_object_lem out_size f s h = elim (Bool-cases (out_size == 0)) [
  | inl e ↦ inr (ground arith, rw e)
  | inr e ↦ elim (h (new_writer out_size) (λ _. ground arith)) [
    | inl (_, room, same) ↦
        let sum : 0 + length s ≡ length s = omega arith in
        inl (omega (arith, room), rw (e, same, sum))
    | inr (inl shut, _) ↦ absurd (true≢false shut)
    | inr (inr full, bad) ↦ inr (omega (arith, full), rw (e, bad))
  ]
]

module _ {ℓ} {F : Type ℓ} ⦃fl : Float F⦄ where
  abbrev pub value_text : Value F → List ℕ
  value_text (text s) = quoted s
  value_text (word v) = take 15 (u32_text v)
  value_text (number v digits) =
      if fl.is_finite v then take 31 (fl.format digits v) else codes "null"
  value_text (flag v) = boolean_text v

  abbrev pub fields_text : Bool → List (List ℕ × Value F) → List ℕ
  fields_text first [] = []
  fields_text first ((k, v) ∷ rest) = key_text k first ++ (value_text v ++ fields_text false rest)

  -- The object, as the contract has it: braces around the fields, a comma between two.
  abbrev pub telemetry_text : TelemetryInput F → List ℕ
  telemetry_text in_ = (b'{' ∷ []) ++ (fields_text true (fields in_) ++ (b'}' ∷ []))

  num-Emits : (v : F) (digits : ℕ) → Emits (num v digits) (value_text (number v digits))
  unfolding num
  num-Emits v digits = elim (Bool-cases (fl.is_finite v)) [
    | inl e ↦ rw e (raw-Emits (take 31 (fl.format digits v)))
    | inr e ↦ rw e (raw-Emits (codes "null"))
  ]

  value-Emits : (v : Value F) → Emits (write_value v) (value_text v)
  unfolding write_value u32 boolean
  value-Emits (text s) = str-Emits s
  value-Emits (word v) = raw-Emits (take 15 (u32_text v))
  value-Emits (number v digits) = num-Emits v digits
  value-Emits (flag v) = raw-Emits (boolean_text v)

  fields-Emits :
      (first : Bool) (fs : List (List ℕ × Value F))
      → Emits (write_fields first fs) (fields_text first fs)
  unfolding write_fields
  fields-Emits first [] = nothing-Emits
  fields-Emits first ((k, v) ∷ rest) =
      then-Emits (key k first) (λ w. write_fields false rest (write_value v w)) _ _
        (key-Emits k first)
        (then-Emits (write_value v) (write_fields false rest) _ _ (value-Emits v)
          (fields-Emits false rest))

  object-Emits : (in_ : TelemetryInput F) → Emits (write_object in_) (telemetry_text in_)
  unfolding write_object
  object-Emits in_ =
      then-Emits (ch b'{') (λ w. ch b'}' (write_fields true (fields in_) w)) _ _ (ch-Emits b'{')
        (then-Emits (write_fields true (fields in_)) (ch b'}') _ _ (fields-Emits true (fields in_))
          (ch-Emits b'}'))

  -- A buffer with room for the whole object and a final NUL gets exactly the object, and its length is
  -- returned; any smaller buffer, one of no bytes too, is left empty and -1 is returned.
  pub build_telemetry_json_lem :
      (out_size : ℕ) (in_ : TelemetryInput F)
      → let object = telemetry_text in_ in
        ((length object < out_size)
          × (build_telemetry_json out_size in_ ≡ (some (length object), object)))
        ⊎ ((out_size ≤ length object) × (build_telemetry_json out_size in_ ≡ (none, [])))
  unfolding build_telemetry_json
  build_telemetry_json_lem out_size in_ =
      finish_object_lem out_size (write_object in_) (telemetry_text in_) (object-Emits in_)
