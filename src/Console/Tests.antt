-- ===== src/Console/Tests.antt =====
-- The reports of src/diagnostics.cpp and the display of src/main.cpp, on numbers in thousandths.
use mathlib.Core.Option.{none, some}
use esp32_real_time_energy_c.Base.{length, ℕ, ◌≡◌, ◌≤◌, ◌+◌, true, false, refl, arith}
use esp32_real_time_energy_c.Base.Text.{codes}
use esp32_real_time_energy_c.Base.Float.{Milli, milli_float}
use esp32_real_time_energy_c.Measurement.Meter.{DriverAnswers}
use esp32_real_time_energy_c.Actuator.{BuildFlags}
use esp32_real_time_energy_c.Telemetry.{decimal}
use esp32_real_time_energy_c.Console.Reports.{diagnostics_print_uptime}
use esp32_real_time_energy_c.Console.Columns.{PrintsShort, decimals}

uptime : diagnostics_print_uptime 93_784_999 ≡ codes "Uptime: 1 d 2 h 3 m 4 s"
unfolding diagnostics_print_uptime decimal
uptime = refl

abbrev pub pzem_build : BuildFlags
pzem_build = record {
  energy_source_pzem = true;
  energy_source_simulation = false;
  energy_relay_output_disable = false;
  energy_relay_output_enable = false;
}

abbrev pub answers : DriverAnswers Milli
answers = record {
  voltage_v = some 230_000;
  current_a = some 2000;
  power_w = some 450_000;
  energy_kwh = some 1000;
  pf = some 900;
}

milli_short :
    (k d : ℕ) (x : Milli)
    → 2 ≤ d
    → milli_float.le (milli_float.literal 0 0) x ≡ true
    → length (milli_float.format k x) ≤ d + decimals k
milli_short k d (some a) two low = omega (arith, two)
milli_short k d none two low = absurd (ground (arith, low))

pub Milli-PrintsShort : PrintsShort Milli
Milli-PrintsShort = record {
  format_short = λ k d m x two small exact low high. milli_short k d x two low;
}
