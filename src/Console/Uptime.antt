-- ===== src/Console/Uptime.antt =====
-- `diagnosticsPrintUptime` of src/diagnostics.cpp: the line is the uptime, whatever it is.
use esp32_real_time_energy_c.Base.{ℕ, ◌+◌, ◌*◌, ◌/◌, ◌≡◌, ◌<◌, ◌≤◌, ◌^◌, refl, ◌++◌, arith}
use esp32_real_time_energy_c.Base.Text.{codes}
use esp32_real_time_energy_c.Telemetry.{u32_text}
use esp32_real_time_energy_c.Console.Reports.{
  diagnostics_print_uptime, uptime_days, uptime_hours, uptime_minutes, uptime_seconds,
}

parts_sum :
    (s : ℕ)
    → uptime_days s * 86_400 + uptime_hours s * 3600 + uptime_minutes s * 60 + uptime_seconds s ≡ s
parts_sum s = omega arith

-- For every reading of `millis`, the line shows days, hours, minutes and seconds that add up to the
-- whole seconds since the start, with fewer than 24 hours, 60 minutes, 60 seconds and at most 49 days.
pub diagnostics_print_uptime_lem :
    (now_ms : ℕ)
    → now_ms < 2 ^ 32
    → (days : ℕ) × (hours : ℕ) × (minutes : ℕ) × (seconds : ℕ) × (diagnostics_print_uptime now_ms
        ≡ codes "Uptime: "
          ++ u32_text days
          ++ codes " d "
          ++ u32_text hours
          ++ codes " h "
          ++ u32_text minutes
          ++ codes " m "
          ++ u32_text seconds
          ++ codes " s")
      × (days * 86_400 + hours * 3600 + minutes * 60 + seconds ≡ now_ms / 1000)
      × (days ≤ 49)
      × (hours < 24)
      × (minutes < 60)
      × (seconds < 60)
unfolding diagnostics_print_uptime
diagnostics_print_uptime_lem now_ms small =
    let s = now_ms / 1000 in
    (
      uptime_days s,
      uptime_hours s,
      uptime_minutes s,
      uptime_seconds s,
      refl,
      parts_sum s,
      omega (arith, small),
      omega arith,
      omega arith,
      omega arith,
    )
