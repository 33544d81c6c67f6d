-- ===== src/Telemetry/Reader.antt =====
-- A reader of the flat JSON objects that lib/energy_core/src/telemetry_json.cpp writes gets back every
-- key and value.
use mathlib.Core.Option.{some, some-injective, some-ne-none}
use mathlib.Core.List.{append_assoc}
use esp32_real_time_energy_c.Base.{
  ℕ, zero, suc, ◌+◌, ◌/◌, ◌%◌, ◌≤◌, ◌<◌, ◌≡◌, refl, ap, ◌∙◌, sym, Bool, true, false, List, [], ◌∷◌,
  ◌++◌, ltb, ◌==◌, if◌then◌else◌, arith, length, length-append, take, All, Bool-cases, inl, inr,
}
use esp32_real_time_energy_c.Base.Text.{codes}
use esp32_real_time_energy_c.Base.Float.{Float}
use esp32_real_time_energy_c.Telemetry.{
  telemetry_schema_version, is_simulation, build_telemetry_json, TelemetryInput, Value, text, word,
  number, flag, fields, boolean_text, u32_text, decimal,
}
use esp32_real_time_energy_c.Telemetry.Contract.{
  contract_members, truth, real, source_text, simulated_flag,
}
use esp32_real_time_energy_c.Measurement.{
  MeasurementSource, pzem, simulation, measurement_source_name,
}
use esp32_real_time_energy_c.Telemetry.Text.{escaped, quoted}
use esp32_real_time_energy_c.Telemetry.Object.{
  build_telemetry_json_lem, key_text, value_text, fields_text,
}
use esp32_real_time_energy_c.Telemetry.RoundTrip.{read_string-quoted}
use esp32_real_time_energy_c.Telemetry.Json.{
  Json, json_string, json_bare, Member, is_stop, read_bare, read_value, read_member, one_more,
  after_member, read_members, read_object,
}

abbrev pub IsBare : ℕ → Type 0
IsBare c = (c == b',' ≡ false) × (c == b'}' ≡ false) × (c == b'"' ≡ false)

-- C prints a number without a quote, a comma or a brace.
pub record PrintsBare {ℓ} (F : Type ℓ) ⦃fl : Float F⦄ : Type ℓ where
  pub format_bare : (digits : ℕ) (x : F) → All IsBare (fl.format digits x)

take-IsBare : (n : ℕ) (s : List ℕ) → All IsBare s → All IsBare (take n s)
take-IsBare zero s h = tt
take-IsBare (suc n) [] h = tt
take-IsBare (suc n) (c ∷ s) (p, h) = (p, take-IsBare n s h)

append-IsBare : (s t : List ℕ) → All IsBare s → All IsBare t → All IsBare (s ++ t)
append-IsBare [] t h k = k
append-IsBare (c ∷ s) t (p, h) k = (p, append-IsBare s t h k)

digit-IsBare : (d : ℕ) → d < 10 → IsBare (d + b'0')
digit-IsBare d h = ground (arith, h)

decimal-IsBare : (fuel n : ℕ) → All IsBare (decimal fuel n)
unfolding decimal
decimal-IsBare zero n = tt
decimal-IsBare (suc fuel) n = elim (Bool-cases (ltb n 10)) [
  | inl small ↦ rw small (digit-IsBare n (ground (arith, small)), tt)
  | inr large ↦ rw large (
      append-IsBare (decimal fuel (n / 10)) ((n % 10 + b'0') ∷ []) (decimal-IsBare fuel (n / 10))
        (digit-IsBare (n % 10) (omega arith), tt))
]

read_bare_lem :
    (t rest : List ℕ) (c : ℕ)
    → is_stop c ≡ true
    → All IsBare t
    → read_bare (t ++ (c ∷ rest)) ≡ (t, c ∷ rest)
unfolding read_bare
read_bare_lem [] rest c stop h = rw stop refl
read_bare_lem (x ∷ t) rest c stop (p, h) =
    let rest_read = read_bare_lem t rest c stop h in
    let goes : is_stop x ≡ false = ground (arith, p.0, p.1) in rw (goes, rest_read) refl

read_value-bare :
    (t rest : List ℕ) (c : ℕ)
    → is_stop c ≡ true
    → All IsBare t
    → read_value (t ++ (c ∷ rest)) ≡ some (json_bare t, c ∷ rest)
unfolding read_value
read_value-bare [] rest c stop h = ground (arith, stop)
read_value-bare (x ∷ t) rest c stop (p, h) =
    let goes : is_stop x ≡ false = ground (arith, p.0, p.1) in
    rw (p.2, goes, read_bare_lem t rest c stop h) refl

module _ {ℓ} {F : Type ℓ} ⦃fl : Float F⦄ (prints : PrintsBare F) where
  -- What a value should read as.
  abbrev pub json_value : Value F → Json
  json_value (text s) = json_string s
  json_value (word v) = json_bare (take 15 (u32_text v))
  json_value (number v digits) =
      json_bare (if fl.is_finite v then take 31 (fl.format digits v) else codes "null")
  json_value (flag v) = json_bare (boolean_text v)

  abbrev pub json_members : List (List ℕ × Value F) → List Member
  json_members [] = []
  json_members ((k, v) ∷ fs) = (k, json_value v) ∷ json_members fs

  value-reads :
      (v : Value F) (rest : List ℕ) (c : ℕ)
      → is_stop c ≡ true
      → read_value (value_text v ++ (c ∷ rest)) ≡ some (json_value v, c ∷ rest)
  unfolding read_value
  value-reads (text s) rest c stop = rw (read_string-quoted s (c ∷ rest)) refl
  value-reads (word v) rest c stop =
      read_value-bare (take 15 (u32_text v)) rest c stop
        (take-IsBare 15 (u32_text v) (decimal-IsBare 10 v))
  value-reads (number v digits) rest c stop = elim (Bool-cases (fl.is_finite v)) [
    | inl e ↦ rw e (
        read_value-bare (take 31 (fl.format digits v)) rest c stop
          (take-IsBare 31 (fl.format digits v) (prints.format_bare digits v)))
    | inr e ↦ rw e (read_value-bare (codes "null") rest c stop (ground arith))
  ]
  value-reads (flag true) rest c stop = read_value-bare (codes "true") rest c stop (ground arith)
  value-reads (flag false) rest c stop = read_value-bare (codes "false") rest c stop (ground arith)

  member-reads :
      (k : List ℕ) (v : Value F) (rest : List ℕ) (c : ℕ)
      → is_stop c ≡ true
      → read_member (key_text k true ++ (value_text v ++ (c ∷ rest)))
        ≡ some ((k, json_value v), c ∷ rest)
  unfolding read_member
  member-reads k v rest c stop =
      let value = value_text v ++ (c ∷ rest) in
      let body = escaped k ++ (b'"' ∷ []) in
      rw
        (
          append_assoc body (b':' ∷ []) value,
          read_string-quoted k (b':' ∷ value),
          value-reads v rest c stop,
        )
        refl

  fields-split :
      (k others : List ℕ) (v : Value F)
      → (key_text k true ++ (value_text v ++ others)) ++ (b'}' ∷ [])
        ≡ key_text k true ++ (value_text v ++ (others ++ (b'}' ∷ [])))
  fields-split k others v =
      append_assoc (key_text k true) (value_text v ++ others) (b'}' ∷ [])
      ∙ ap (λ t. key_text k true ++ t) (append_assoc (value_text v) others (b'}' ∷ []))

  members-read :
      (fuel : ℕ) (k : List ℕ) (v : Value F) (fs : List (List ℕ × Value F))
      → length fs < fuel
      → read_members fuel (fields_text true ((k, v) ∷ fs) ++ (b'}' ∷ []))
        ≡ some ((k, json_value v) ∷ json_members fs)
  unfolding read_members
  members-read zero k v fs h = absurd (omega (arith, h))
  members-read (suc fuel) k v [] h =
      ap (read_members (suc fuel)) (fields-split k [] v)
      ∙ ap (after_member (read_members fuel)) (member-reads k v [] b'}' refl)
  members-read (suc fuel) k v ((l, u) ∷ fs) h =
      let next = fields_text true ((l, u) ∷ fs) ++ (b'}' ∷ []) in
      ap (read_members (suc fuel)) (fields-split k (fields_text false ((l, u) ∷ fs)) v)
      ∙ ap (after_member (read_members fuel)) (member-reads k v next b',' refl)
      ∙ ap (one_more (k, json_value v)) (members-read fuel l u fs (omega (arith, h)))

  -- Every field takes some of the text.
  length-fields_text :
      (first : Bool) (fs : List (List ℕ × Value F)) → length fs ≤ length (fields_text first fs)
  length-fields_text first [] = omega arith
  length-fields_text true ((k, v) ∷ fs) = omega (
    arith,
    length-append (quoted k ++ (b':' ∷ [])) (value_text v ++ fields_text false fs),
    length-append (value_text v) (fields_text false fs),
    length-append (quoted k) (b':' ∷ []),
    length-append (escaped k) (b'"' ∷ []),
    length-fields_text false fs,
  )
  length-fields_text false ((k, v) ∷ fs) = omega (
    arith,
    length-append (quoted k ++ (b':' ∷ [])) (value_text v ++ fields_text false fs),
    length-append (value_text v) (fields_text false fs),
    length-append (quoted k) (b':' ∷ []),
    length-append (escaped k) (b'"' ∷ []),
    length-fields_text false fs,
  )

  object-reads :
      (fs : List (List ℕ × Value F))
      → 0 < length fs
      → read_object (b'{' ∷ (fields_text true fs ++ (b'}' ∷ []))) ≡ some (json_members fs)
  unfolding read_object
  object-reads [] h = absurd (omega (arith, h))
  object-reads ((k, v) ∷ fs) h =
      let inner = fields_text true ((k, v) ∷ fs) in
      members-read (length (inner ++ (b'}' ∷ []))) k v fs
        (omega (arith, length-append inner (b'}' ∷ []), length-fields_text true ((k, v) ∷ fs)))

  fields-some : (in_ : TelemetryInput F) → 0 < length (fields in_)
  unfolding fields
  fields-some in_ = omega arith

  version_lem : json_value (word telemetry_schema_version) ≡ json_bare (codes "2")
  unfolding decimal
  version_lem = refl

  truth_lem : (b : Bool) → json_value (flag b) ≡ truth b
  truth_lem true = refl
  truth_lem false = refl

  real_lem : (x : F) (digits : ℕ) → json_value (number x digits) ≡ real digits x
  real_lem x digits = elim (Bool-cases (fl.is_finite x)) [
    | inl finite ↦ rw finite refl
    | inr other ↦ rw other refl
  ]

  source_lem :
      (source : MeasurementSource)
      → (json_value (text (measurement_source_name source)) ≡ source_text source)
        × (json_value (flag (is_simulation source)) ≡ simulated_flag source)
  source_lem pzem = (refl, refl)
  source_lem simulation = (refl, refl)

  -- The lines of `buildTelemetryJson` are those of the contract.
  json_members-fields : (in_ : TelemetryInput F) → json_members (fields in_) ≡ contract_members in_
  unfolding fields
  json_members-fields in_ =
      let m = in_.measurement in
      let p = in_.protection in
      rw
        (
          version_lem,
          (source_lem m.source).0,
          (source_lem m.source).1,
          truth_lem m.valid,
          real_lem m.voltage 2,
          real_lem m.current 3,
          real_lem m.power 2,
          real_lem m.energy 3,
          real_lem m.apparent_power 2,
          real_lem m.power_factor 3,
          truth_lem p.fault.active,
          truth_lem p.fault.acknowledged,
          truth_lem in_.relay_commanded_on,
          truth_lem in_.relay_output_enabled,
        )
        refl

  -- Whenever `buildTelemetryJson` returns a length, the buffer has so many bytes, and they read as the
  -- JSON object of the contract: its 22 keys in their order, each with the input's value for it, a string
  -- byte for byte, whatever its bytes are, a word as its decimal digits, a number as the first 31 bytes
  -- that printf prints of it with the decimals of the contract, or null if it is not finite, and a flag as true or false; for a
  -- printf that prints a number without a quote, a comma or a brace.
  pub build_telemetry_json-reads :
      (out_size n : ℕ) (in_ : TelemetryInput F)
      → (build_telemetry_json out_size in_).0 ≡ some n
      → let buffer = (build_telemetry_json out_size in_).1 in
        (length buffer ≡ n) × (read_object buffer ≡ some (contract_members in_))
  build_telemetry_json-reads out_size n in_ returned =
      elim (build_telemetry_json_lem out_size in_) [
        | inl (_, built) ↦ (
          ap length (ap (λ r. r.1) built)
              ∙ some-injective _ _ (sym (ap (λ r. r.0) built) ∙ returned),
          ap read_object (ap (λ r. r.1) built)
              ∙ object-reads (fields in_) (fields-some in_)
              ∙ ap some (json_members-fields in_),
        )
        | inr (_, failed) ↦ absurd (some-ne-none _ (sym returned ∙ ap (λ r. r.0) failed))
      ]
