-- ===== src/Watchdog.antt =====
-- src/watchdog_manager.h and watchdog_manager.cpp: the heartbeats of the six tasks and their
-- registration with the task watchdog, whose answers are arguments.
pub mod Status
pub mod Supervisor
mod Tests
use esp32_real_time_energy_c.Base.{
  ℕ, zero, suc, ◌+◌, ◌^◌, ◌%◌, Bool, true, false, not, List, [], ◌∷◌, ltb, leb, ◌==◌, if◌then◌else◌,
  get_or,
}
use esp32_real_time_energy_c.Base.Text.{codes}
use esp32_real_time_energy_c.Heartbeat.{
  HeartbeatMonitor, new_monitor, beat, age_ms, first_stale, heartbeat_never, no_slot,
}

-- HEARTBEAT_COUNT
abbrev pub heartbeat_count : ℕ
heartbeat_count = 6

-- What a call of the task watchdog returns: ESP_OK, ESP_ERR_INVALID_STATE or anything else.
pub data EspError : Type 0 where
  esp_ok esp_err_invalid_state esp_err_other : EspError

pub record Watchdog : Type 0 where
  pub monitor : HeartbeatMonitor
  pub registration_failures : ℕ

unfoldable pub initial_watchdog : Watchdog
unfolding new_monitor
initial_watchdog = record { monitor = new_monitor heartbeat_count; registration_failures = 0 }

abbrev pub is_ok : EspError → Bool
is_ok esp_ok = true
is_ok _ = false

-- `init` and `reconfigure`: the answers of the two calls
unfoldable pub watchdog_manager_begin : EspError → EspError → Bool
watchdog_manager_begin esp_err_invalid_state reconfigure = is_ok reconfigure
watchdog_manager_begin init reconfigure = is_ok init

unfoldable pub watchdog_manager_register_current_task : Watchdog → EspError → Watchdog × Bool
watchdog_manager_register_current_task w esp_err_other =
    (record w { registration_failures = (w.registration_failures + 1) % 2 ^ 8 }, false)
watchdog_manager_register_current_task w _ = (w, true)

unfoldable pub watchdog_manager_heartbeat : Watchdog → ℕ → ℕ → Watchdog
watchdog_manager_heartbeat w id now_ms =
    if leb heartbeat_count id then w else record w { monitor = beat w.monitor id now_ms }

unfoldable pub watchdog_manager_heartbeat_age : Watchdog → ℕ → ℕ → ℕ
watchdog_manager_heartbeat_age w id now_ms =
    if leb heartbeat_count id then heartbeat_never else age_ms w.monitor id now_ms

abbrev pub heartbeat_names : List (List ℕ)
heartbeat_names =
    codes "SensorTask"
    ∷ codes "ControlTask"
    ∷ codes "DisplayTask"
    ∷ codes "NetworkTask"
    ∷ codes "WatchdogTask"
    ∷ codes "CliTask"
    ∷ []

abbrev pub watchdog_manager_heartbeat_name : ℕ → List ℕ
watchdog_manager_heartbeat_name id =
    if ltb id heartbeat_count
    then get_or heartbeat_names id (codes "UnknownTask")
    else codes "UnknownTask"

unfoldable pub watchdog_manager_healthy : Watchdog → ℕ → ℕ → Bool
watchdog_manager_healthy w timeout_ms now_ms = first_stale w.monitor now_ms timeout_ms == no_slot

-- A line that `watchdogManagerPrintStatus` prints: the name, "OK" or "NO HEARTBEAT", the age, and
-- whether "[STALE]" follows.
pub record StatusLine : Type 0 where
  pub name : List ℕ
  pub ok : Bool
  pub age : ℕ
  pub stale : Bool

abbrev status_line : ℕ → ℕ → ℕ → StatusLine
status_line timeout_ms id age = record {
  name = watchdog_manager_heartbeat_name id;
  ok = not (age == heartbeat_never);
  age = age;
  stale = ltb timeout_ms age;
}

-- The lines from task `id` on, with `left` rounds to go. `clock` is the time at each round.
unfoldable pub print_status_from : Watchdog → ℕ → (ℕ → ℕ) → ℕ → ℕ → List StatusLine
unfolding watchdog_manager_heartbeat_age
print_status_from w timeout_ms clock zero id = []
print_status_from w timeout_ms clock (suc left) id =
    status_line timeout_ms id (watchdog_manager_heartbeat_age w id (clock id))
    ∷ print_status_from w timeout_ms clock left (id + 1)

unfoldable pub watchdog_manager_print_status : Watchdog → ℕ → (ℕ → ℕ) → List StatusLine
unfolding print_status_from
watchdog_manager_print_status w timeout_ms clock =
    print_status_from w timeout_ms clock heartbeat_count 0
