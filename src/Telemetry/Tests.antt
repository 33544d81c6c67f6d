-- ===== src/Telemetry/Tests.antt =====
-- The telemetry of lib/energy_core/src/telemetry_json.cpp, of a sample of 40 W.
use mathlib.Core.Option.{none, some}
use esp32_real_time_energy_c.Base.{ap, ◌≡◌, ◌≤◌, ◌<◌, ◌⊎◌, refl, true, false, [], ◌∷◌, length}
use esp32_real_time_energy_c.Base.Text.{codes}
use esp32_real_time_energy_c.Base.Float.{Milli, milli_float}
use esp32_real_time_energy_c.Protection.{begin, snapshot}
use esp32_real_time_energy_c.Protection.Tests.{sample, core}
use esp32_real_time_energy_c.Telemetry.{
  TelemetryInput, text, word, new_writer, finish_object, write_fields, build_telemetry_json,
  decimal,
}
use esp32_real_time_energy_c.Telemetry.Object.{telemetry_text, build_telemetry_json_lem}
use esp32_real_time_energy_c.Base.{arith}
use esp32_real_time_energy_c.Command.{topic_segment_valid}
use esp32_real_time_energy_c.Telemetry.Json.{read_object}
use esp32_real_time_energy_c.Telemetry.Contract.{contract_members}
use esp32_real_time_energy_c.Telemetry.Reader.{PrintsBare, build_telemetry_json-reads}
use esp32_real_time_energy_c.Telemetry.Size.{IsPlain, build_telemetry_json-fits}

abbrev input : TelemetryInput Milli
input = record {
  device_id = codes "device01";
  firmware_version = codes "2.0.0";
  measurement = sample 40 1000;
  protection = snapshot (begin core 500) 1000;
  uptime_ms = 4_294_967_295;
  measurement_age_ms = 12;
  relay_commanded_on = true;
  relay_output_enabled = false;
}

numbers : (decimal 10 4_294_967_295 ≡ codes "4294967295") × (decimal 10 0 ≡ codes "0")
unfolding decimal
numbers = (refl, refl)

written :
    finish_object 40 (
      write_fields {F = Milli} true
        ((codes "a", text (codes "x\"y")) ∷ (codes "b", word 70) ∷ [])
        (new_writer 40))
    ≡ (some 17, codes "\"a\":\"x\\\"y\",\"b\":70")
unfolding finish_object write_fields decimal
written = refl

build_telemetry_json_lem_example :
    ((length (telemetry_text input) < 768)
      × (build_telemetry_json 768 input
          ≡ (some (length (telemetry_text input)), telemetry_text input)))
    ⊎ ((768 ≤ length (telemetry_text input)) × (build_telemetry_json 768 input ≡ (none, [])))
build_telemetry_json_lem_example = build_telemetry_json_lem 768 input

version-IsPlain : IsPlain input.firmware_version
version-IsPlain = (refl, (refl, (refl, (refl, (refl, tt)))))

device_valid : topic_segment_valid input.device_id 0 ≡ true
unfolding topic_segment_valid
device_valid = refl

build_telemetry_json-fits_example :
    build_telemetry_json 768 input ≡ (some (length (telemetry_text input)), telemetry_text input)
build_telemetry_json-fits_example =
    build_telemetry_json-fits input device_valid version-IsPlain (omega arith)

Milli-PrintsBare : PrintsBare Milli
Milli-PrintsBare = record { format_bare = λ digits x. ground arith }

build_telemetry_json-reads_example :
    (length (build_telemetry_json 768 input).1 ≡ length (telemetry_text input))
    × (read_object (build_telemetry_json 768 input).1 ≡ some (contract_members input))
build_telemetry_json-reads_example =
    build_telemetry_json-reads Milli-PrintsBare 768 (length (telemetry_text input)) input
      (ap (λ r. r.0) (build_telemetry_json-fits input device_valid version-IsPlain (omega arith)))
