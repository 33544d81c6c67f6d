-- ===== src/Heartbeat/Tests.antt =====
-- Two tasks under the health check of lib/energy_core/src/heartbeat_monitor.cpp.
use esp32_real_time_energy_c.Base.{◌≡◌, refl}
use esp32_real_time_energy_c.Heartbeat.{HeartbeatMonitor, new_monitor, beat, age_ms, first_stale}
use esp32_real_time_energy_c.Heartbeat.Health.{IsSized, new_monitor-IsSized, beat-IsSized}

abbrev pair : HeartbeatMonitor
pair = beat (beat (new_monitor 2) 0 100) 1 4_294_967_290

pair-IsSized : IsSized pair
pair-IsSized = beat-IsSized _ 1 4_294_967_290 (beat-IsSized _ 0 100 (new_monitor-IsSized 2))

ages : (age_ms pair 0 150 ≡ 50) × (age_ms pair 1 4 ≡ 10) × (first_stale pair 150 40 ≡ 0)
unfolding age_ms beat new_monitor first_stale
ages = (refl, refl, refl)
